-- ===== src/DerivationPath/Parse/RoundTrip.antt =====
-- src/derivation_path.cpp: `parse` on the text that `str` prints.
use mathlib.Core.Path.{subst}
use mhda.Base.{
  ℕ, ◌≡◌, ◌≢◌, ◌⊎◌, inl, inr, refl, sym, ◌∙◌, ap, true, false, Bool, List, [], ◌∷◌, some, none,
  Bytes, All, arith, map, Bool-cases, >>=-eq-some, Option, ◌>>=◌, some_injective,
}
use mhda.DerivationPath.Class.{DerivationPath, fresh, str, is_type}
use mhda.DerivationPath.Layout.{validate_levels_for}
use mhda.DerivationPath.Levels.Print.{IsIndex31, parse_levels-format_levels}
use mhda.DerivationPath.Levels.{
  RawLevel, parse_segment, parse_segments, parse_levels, split_path, strip_marker, spelled_exactly,
}
use mhda.DerivationPath.Parse.Shape.{respelled}
use mhda.DerivationPath.Parse.Valid.{ready}
use mhda.DerivationPath.Parse.{to_index, fill, fill_read, parse_fresh, parse}
use mhda.DerivationPath.Text.{format_levels}
use mhda.Detail.Number.Value.{parse_uint31_dec_iff}
use mhda.Detail.Number.{parse_uint31_dec}
use mhda.Error.{ok, ok_injective}
use mhda.Names.DerivationType
use mhda.Names.DerivationType.Cases.{Scheme, name, is_valid-Scheme, Scheme-root}
use mhda.Names.DerivationType.{DerivationType}

-- the level that `parse_segment` builds
abbrev raw : Bytes × Bool → ℕ → RawLevel
raw t value = record { index = value; is_hardened = t.1; exact = spelled_exactly t.0 }

parse_segment-IsIndex31 :
    (seg : Bytes) {l : RawLevel} → parse_segment seg ≡ some l → IsIndex31 (to_index l)
unfolding parse_segment
parse_segment-IsIndex31 seg {l} h =
    let t = strip_marker seg in
    let (v, read, made) = >>=-eq-some (parse_uint31_dec t.0) (λ value. some (raw t value)) h in
    let bound = ((parse_uint31_dec_iff t.0 v).0 read).3 in
    let same : v ≡ l.index = ap (λ (r : RawLevel). r.index) (some_injective made) in omega arith

parse_segments-IsIndex31 :
    (segs : List Bytes) {lvls : List RawLevel}
    → parse_segments segs ≡ some lvls
    → All IsIndex31 (map to_index lvls)
unfolding parse_segments
parse_segments-IsIndex31 [] {lvls} h = let e : [] ≡ lvls = some_injective h in rw (← e) tt
parse_segments-IsIndex31 (seg ∷ segs) {lvls} h =
    let (l, first, more) =
      >>=-eq-some (parse_segment seg) (λ l. parse_segments segs >>= λ ls. some (l ∷ ls)) h in
    let (ls, rest, made) = >>=-eq-some (parse_segments segs) (λ ls. some (l ∷ ls)) more in
    let e : l ∷ ls ≡ lvls = some_injective made in
    rw (← e) (parse_segment-IsIndex31 seg first, parse_segments-IsIndex31 segs rest)

parse_levels-IsIndex31 :
    (path : Bytes) {lvls : List RawLevel}
    → parse_levels path ≡ some lvls
    → All IsIndex31 (map to_index lvls)
unfolding parse_levels
parse_levels-IsIndex31 path h =
    let (segs, _, read) = >>=-eq-some (split_path path) parse_segments h in
    parse_segments-IsIndex31 segs read

-- A type other than root reads its levels from the text.
pub parse-fill_read :
    (s : Scheme) (path : Bytes)
    → s ≢ Scheme.root
    → parse (name s) path ≡ fill_read (fresh (name s)) path (parse_levels path)
unfolding parse parse_fresh is_type DerivationType.is_valid
parse-fill_read Scheme.root path h = absurd (h refl)
parse-fill_read _ path h = refl

-- A text read for a type other than root: the levels, and what was built from them.
record IsRead (s : Scheme) (path : Bytes) (p : DerivationPath) : Type 0 where
  lvls : List RawLevel
  read : parse_levels path ≡ some lvls
  valid : validate_levels_for (name s) lvls ≡ true
  built : fill (fresh (name s)) lvls ≡ ok p

fill_read-IsRead :
    (s : Scheme) (path : Bytes) (o : Option (List RawLevel)) {p : DerivationPath}
    → parse_levels path ≡ o
    → fill_read (fresh (name s)) path o ≡ ok p
    → IsRead s path p
unfolding fill_read
fill_read-IsRead s path none e h = cc
fill_read-IsRead s path (some lvls) e h = elim (Bool-cases (validate_levels_for (name s) lvls)) [
  | inl valid ↦ record { lvls = lvls; read = e; valid = valid; built = rw valid at h }
  | inr bad ↦ absurd (cc (rw bad at h))
]

-- What is known of every path that `parse` returns.
pub record IsCanonical (p : DerivationPath) : Type 0 where
  pub again : parse p.type (str p) ≡ ok p
  pub text : (p.levels ≡ []) ⊎ (str p ≡ format_levels p.levels)
  pub bounded : All IsIndex31 p.levels
  pub scheme : Scheme
  pub type_is : p.type ≡ name scheme

pub fill_read-valid :
    (s : Scheme) (path : Bytes) (lvls : List RawLevel)
    → validate_levels_for (name s) lvls ≡ true
    → fill_read (fresh (name s)) path (some lvls) ≡ fill (fresh (name s)) lvls
unfolding fill_read
fill_read-valid s path lvls h = rw h

-- The print of levels that were read is read as a path that was built from them.
reads_back :
    (s : Scheme) (lvls : List RawLevel) (p : DerivationPath)
    → s ≢ Scheme.root
    → All IsIndex31 (map to_index lvls)
    → validate_levels_for (name s) (respelled lvls) ≡ true
    → fill (fresh (name s)) (respelled lvls) ≡ ok p
    → parse (name s) (format_levels (map to_index lvls)) ≡ ok p
reads_back s lvls p ne bound valid built =
    parse-fill_read s (format_levels (map to_index lvls)) ne
    ∙ rw (parse_levels-format_levels (map to_index lvls) bound)
        (fill_read-valid s _ (respelled lvls) valid ∙ built)

IsRead-IsCanonical :
    (s : Scheme) (path : Bytes) (p : DerivationPath)
    → s ≢ Scheme.root
    → IsRead s path p
    → IsCanonical p × (p.type ≡ name s)
IsRead-IsCanonical s path p ne r =
    let ((q, built, levels, text, type, again), valid) = ready s r.lvls ne r.valid in
    let same : q ≡ p = ok_injective (sym built ∙ r.built) in
    let bound = parse_levels-IsIndex31 path r.read in
    rw (← same) (
      record {
        again = rw (type, text, levels) (reads_back s r.lvls q ne bound valid again);
        text = inr text;
        bounded = rw levels bound;
        scheme = s;
        type_is = type;
      },
      type,
    )

-- A text that parses was given a registered type.
pub parse-is_valid :
    (dt : DerivationType) (path : Bytes) {p : DerivationPath}
    → parse dt path ≡ ok p
    → DerivationType.is_valid dt ≡ true
unfolding parse
parse-is_valid dt path h = elim (Bool-cases (DerivationType.is_valid dt)) [
  | inl valid ↦ valid
  | inr bad ↦ absurd (refused bad)
]
  where
    refused : DerivationType.is_valid dt ≡ false → ⊥
    refused bad = cc (rw bad at h)

pub root-IsCanonical : IsCanonical (fresh DerivationType.root)
unfolding parse parse_fresh is_type DerivationType.is_valid str
root-IsCanonical = record {
  again = refl;
  text = inl refl;
  bounded = tt;
  scheme = Scheme.root;
  type_is = refl;
}

pub parse-root :
    (path : Bytes) {p : DerivationPath}
    → parse (name Scheme.root) path ≡ ok p
    → fresh DerivationType.root ≡ p
unfolding parse parse_fresh is_type DerivationType.is_valid
parse-root [] h = ok_injective h
parse-root (c ∷ path) h = cc

parse-name :
    (s : Scheme) (path : Bytes) {p : DerivationPath}
    → parse (name s) path ≡ ok p
    → IsCanonical p × (p.type ≡ name s)
parse-name s path h = elim (Scheme-root s) [
  | inl e ↦ (let made = parse-root path (rw e at h) in rw (e, ← made) (root-IsCanonical, refl))
  | inr ne ↦
      IsRead-IsCanonical s path _ ne
        (fill_read-IsRead s path (parse_levels path) refl (sym (parse-fill_read s path ne) ∙ h))
]

-- Every path that `parse` returns is canonical, and has the type that was asked for.
pub parse-IsCanonical :
    (dt : DerivationType) (path : Bytes) {p : DerivationPath}
    → parse dt path ≡ ok p
    → IsCanonical p × (p.type ≡ dt)
parse-IsCanonical dt path h =
    let (s, e) = is_valid-Scheme dt (parse-is_valid dt path h) in
    rw e (parse-name s path (rw e at h))

-- A path that was parsed from any text, under any derivation type, is parsed again, field by field
-- the same, from the text that it prints. Its levels are all below 2^31, and its text is the one
-- that these levels spell, or the path has no levels.
pub parse-str :
    (dt : DerivationType) (path : Bytes) {p : DerivationPath}
    → parse dt path ≡ ok p
    → (parse dt (str p) ≡ ok p)
      × All IsIndex31 p.levels
      × ((p.levels ≡ []) ⊎ (str p ≡ format_levels p.levels))
parse-str dt path {p} h =
    let (c, type) = parse-IsCanonical dt path h in
    (subst (λ t. parse t (str p) ≡ ok p) type c.again, c.bounded, c.text)
