-- ===== src/DerivationPath/Construct/Accepts.antt =====
-- src/derivation_path.cpp: which levels `from_levels` accepts.
use mathlib.Core.Path.{subst}
use mhda.Base.{
  ◌≡◌, ◌≢◌, ◌↔◌, ◌⊎◌, inl, inr, refl, sym, ◌∙◌, ap, true, false, Bool, List, [], ◌∷◌, some, All,
  map, arith,
}
use mhda.DerivationPath.Class.{
  DerivationPath, fresh, str, str_from, is_bip44_family, fixed_prefix, is_type,
}
use mhda.DerivationPath.Construct.Sound.{from_levels-IsCanonical, populate-type}
use mhda.DerivationPath.Construct.{
  levels_eq, check_levels, reparsed, from_levels, populate_shortcuts_from_levels,
}
use mhda.DerivationPath.Layout.Forms.{HasLayout, layout_iff}
use mhda.DerivationPath.Levels.Print.{IsIndex31, exactly, parse_levels-format_levels}
use mhda.DerivationPath.Parse.Agrees.{fill_read_accepts, parse-blank}
use mhda.DerivationPath.Parse.RoundTrip.{IsCanonical, parse-fill_read, fill_read-valid, parse-root}
use mhda.DerivationPath.Parse.Shape.{text_five, text_three, text_zip32, text_zip32_index}
use mhda.DerivationPath.Parse.Valid.{ready}
use mhda.DerivationPath.Parse.{parse, parse_fresh, to_index, fill_read}
use mhda.DerivationPath.Text.{AddressIndex, index_eq, same, format_levels}
use mhda.Error.{ok}
use mhda.Names.DerivationType
use mhda.Names.DerivationType.Cases.{Scheme, name, name-is_valid, Scheme-root}
use mhda.Names.DerivationType.{DerivationType}

-- `parse` on the print of levels
parse-print :
    (s : Scheme) (ls : List AddressIndex)
    → s ≢ Scheme.root
    → All IsIndex31 ls
    → parse (name s) (format_levels ls)
      ≡ fill_read (fresh (name s)) (format_levels ls) (some (map exactly ls))
parse-print s ls ne bound =
    parse-fill_read s (format_levels ls) ne ∙ rw (parse_levels-format_levels ls bound) refl

-- A path that prints its levels has levels of the layout of its type.
printed-HasLayout :
    (s : Scheme) (p : DerivationPath)
    → s ≢ Scheme.root
    → All IsIndex31 p.levels
    → parse (name s) (format_levels p.levels) ≡ ok p
    → HasLayout s p.levels
printed-HasLayout s p ne bound h = (layout_iff s p.levels).0 (
    fill_read_accepts s (format_levels p.levels) (map exactly p.levels)
      (sym (parse-print s p.levels ne bound) ∙ h))

canonical-other :
    (s : Scheme) (p : DerivationPath)
    → s ≢ Scheme.root
    → parse (name s) (str p) ≡ ok p
    → All IsIndex31 p.levels
    → (p.levels ≡ []) ⊎ (str p ≡ format_levels p.levels)
    → HasLayout s p.levels
unfolding str
canonical-other s p ne again bound (inl bare) = absurd (parse-blank s ne (rw bare at again))
canonical-other s p ne again bound (inr text) =
    printed-HasLayout s p ne bound (subst (λ t. parse (name s) t ≡ ok p) text again)

-- Every path that was parsed has the levels that its type asks for.
pub canonical-HasLayout :
    (s : Scheme) (p : DerivationPath) → IsCanonical p → p.type ≡ name s → HasLayout s p.levels
canonical-HasLayout s p c type =
    let again : parse (name s) (str p) ≡ ok p = subst (λ t. parse t (str p) ≡ ok p) type c.again in
    elim (Scheme-root s) [
      | inl e ↦
          rw e (ap (λ (q : DerivationPath). q.levels) (sym (parse-root (str p) (rw e at again))))
      | inr ne ↦ canonical-other s p ne again c.bounded c.text
    ]

-- what `from_levels` parses
abbrev populated : DerivationType → List AddressIndex → DerivationPath
populated dt ls = populate_shortcuts_from_levels (record (fresh dt) { levels = ls })

text_populated :
    (s : Scheme) (ls : List AddressIndex)
    → s ≢ Scheme.root
    → HasLayout s ls
    → str (populated (name s) ls) ≡ format_levels ls
unfolding populate_shortcuts_from_levels is_bip44_family fixed_prefix str str_from is_type
    DerivationType.eq
text_populated Scheme.root ls ne h = absurd (ne refl)
text_populated Scheme.bip32 ls ne (account, charge, i, _, e) = rw e (text_three account charge i)
text_populated Scheme.bip44 ls ne (coin, account, charge, i, _, e) =
    rw e (text_five 44 coin account charge i)
text_populated Scheme.bip49 ls ne (coin, account, charge, i, _, e) =
    rw e (text_five 49 coin account charge i)
text_populated Scheme.bip54 ls ne (coin, account, charge, i, _, e) =
    rw e (text_five 54 coin account charge i)
text_populated Scheme.bip74 ls ne (coin, account, charge, i, _, e) =
    rw e (text_five 74 coin account charge i)
text_populated Scheme.bip84 ls ne (coin, account, charge, i, _, e) =
    rw e (text_five 84 coin account charge i)
text_populated Scheme.bip86 ls ne (coin, account, charge, i, _, e) =
    rw e (text_five 86 coin account charge i)
text_populated Scheme.slip10 [] ne (full, _) = absurd (full refl)
text_populated Scheme.slip10 (l ∷ ls) ne h = refl
text_populated Scheme.cip1852 ls ne (account, charge, i, e) =
    rw e (text_five 1852 1815 account charge i)
text_populated Scheme.cip11 ls ne (account, charge, i, e) = rw e (text_five 44 118 account charge i)
text_populated Scheme.zip32 ls ne (inl (account, e)) = rw e (text_zip32 account)
text_populated Scheme.zip32 ls ne (inr (account, i, e)) = rw e (text_zip32_index account i)

exactly_back : (ls : List AddressIndex) → map to_index (map exactly ls) ≡ ls
exactly_back [] = refl
exactly_back (l ∷ ls) = ap (◌∷◌ l) (exactly_back ls)

abbrev pub Prints : Scheme → List AddressIndex → Type 0
Prints s ls = (p : DerivationPath) × (parse (name s) (format_levels ls) ≡ ok p) × (p.levels ≡ ls)

-- Levels of the layout are read back from their print.
pub layout-Prints :
    (s : Scheme) (ls : List AddressIndex)
    → s ≢ Scheme.root
    → HasLayout s ls
    → All IsIndex31 ls
    → Prints s ls
unfolding Prints
layout-Prints s ls ne h bound =
    let valid = (layout_iff s ls).1 h in
    let ((p, built, levels, _, _, _), _) = ready s (map exactly ls) ne valid in
    (
      p,
      parse-print s ls ne bound
          ∙ fill_read-valid s (format_levels ls) (map exactly ls) valid
          ∙ built,
      levels ∙ exactly_back ls,
    )

same_refl : (b : Bool) → same b b ≡ true
same_refl true = refl
same_refl false = refl

index_eq_refl : (l : AddressIndex) → index_eq l l ≡ true
unfolding index_eq
index_eq_refl l = ground (arith, same_refl l.is_hardened)

pub levels_eq_refl : (ls : List AddressIndex) → levels_eq ls ls ≡ true
unfolding levels_eq
levels_eq_refl [] = refl
levels_eq_refl (l ∷ ls) = rw (index_eq_refl l, levels_eq_refl ls)

-- `from_levels` returns a path with these levels and this type, which is read back from its text.
abbrev pub Accepts : DerivationType → List AddressIndex → Type 0
Accepts dt ls =
    (p : DerivationPath) × (from_levels dt ls ≡ ok p)
    × (p.levels ≡ ls)
    × (p.type ≡ dt)
    × (parse dt (str p) ≡ ok p)

-- The type is registered, the levels have its layout, and each is below 2^31.
abbrev pub Fits : DerivationType → List AddressIndex → Type 0
Fits dt ls = (s : Scheme) × (dt ≡ name s) × HasLayout s ls × All IsIndex31 ls

returned-Accepts :
    (dt : DerivationType) (ls : List AddressIndex) {p : DerivationPath}
    → from_levels dt ls ≡ ok p
    → Accepts dt ls
returned-Accepts dt ls {p} h =
    let (levels, c, type) = from_levels-IsCanonical dt ls h in
    (p, h, levels, type, subst (λ t. parse t (str p) ≡ ok p) type c.again)

from_levels_other :
    (s : Scheme) (ls : List AddressIndex) (p : DerivationPath)
    → s ≢ Scheme.root
    → HasLayout s ls
    → parse (name s) (format_levels ls) ≡ ok p
    → p.levels ≡ ls
    → from_levels (name s) ls ≡ ok p
unfolding from_levels reparsed check_levels
from_levels_other s ls p ne h read levels = rw (
  name-is_valid s,
  text_populated s ls ne h,
  populate-type (record (fresh (name s)) { levels = ls }),
  read,
  levels,
  levels_eq_refl ls,
)

from_levels-root : from_levels DerivationType.root [] ≡ ok (fresh DerivationType.root)
unfolding from_levels reparsed check_levels parse parse_fresh is_type DerivationType.is_valid
    DerivationType.eq populate_shortcuts_from_levels str levels_eq is_bip44_family
from_levels-root = refl

Fits-Accepts : (dt : DerivationType) (ls : List AddressIndex) → Fits dt ls → Accepts dt ls
unfolding Prints
Fits-Accepts dt ls (s, type, h, bound) = elim (Scheme-root s) [
  | inl e ↦
      (let none : ls ≡ [] = rw e at h in
        rw (type, e, none) (returned-Accepts DerivationType.root [] from_levels-root))
  | inr ne ↦
      (let (p, read, levels) = layout-Prints s ls ne h bound in
        rw type (returned-Accepts (name s) ls (from_levels_other s ls p ne h read levels)))
]

Accepts-Fits : (dt : DerivationType) (ls : List AddressIndex) → Accepts dt ls → Fits dt ls
Accepts-Fits dt ls (p, h, _, _, _) =
    let (levels, c, type) = from_levels-IsCanonical dt ls h in
    (
      c.scheme,
      sym type ∙ c.type_is,
      subst (HasLayout c.scheme) levels (canonical-HasLayout c.scheme p c c.type_is),
      subst (All IsIndex31) levels c.bounded,
    )

-- `from_levels` returns, with a path of exactly this type and these levels that is read back from
-- its text, if and only if the type is registered, the levels have its layout, and every index is
-- below 2^31: none for root, 1 to 255 for slip10, account'/0|1/index for bip32, purpose' with any
-- coin', account', 0|1 and any index for the bip44 family, the fixed purpose' and coin' with
-- account', a soft level and any index for cip11 and cip1852, and 32'/133'/account' with or without
-- an index for zip32.
pub from_levels_iff : (dt : DerivationType) (ls : List AddressIndex) → Accepts dt ls ↔ Fits dt ls
from_levels_iff dt ls = (Accepts-Fits dt ls, Fits-Accepts dt ls)
