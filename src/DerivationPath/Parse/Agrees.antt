-- ===== src/DerivationPath/Parse/Agrees.antt =====
-- src/derivation_path.cpp: `validate_derivation_path` against `parse`.
use mhda.Base.{
  ◌≡◌, ◌≢◌, ◌↔◌, inl, inr, refl, sym, ◌∙◌, true, false, [], ◌∷◌, some, Bytes, Bool-cases,
  Option-cases, List,
}
use mhda.DerivationPath.Class.{DerivationPath, fresh, is_type}
use mhda.DerivationPath.Layout.{validate_derivation_path, validate_read, validate_levels_for}
use mhda.DerivationPath.Levels.{RawLevel, parse_levels, split_path}
use mhda.DerivationPath.Parse.RoundTrip.{parse-fill_read, fill_read-valid, parse-is_valid}
use mhda.DerivationPath.Parse.Valid.{ready}
use mhda.DerivationPath.Parse.{fill_read, parse_fresh, parse}
use mhda.Error.{ok, err≢ok}
use mhda.Names.DerivationType
use mhda.Names.DerivationType.Cases.{Scheme, name, is_valid-Scheme, Scheme-root}
use mhda.Names.DerivationType.{DerivationType}

-- `parse` returns a path.
abbrev pub Parses : DerivationType → Bytes → Type 0
Parses dt path = (p : DerivationPath) × (parse dt path ≡ ok p)

-- No type but root parses an empty path.
pub parse-blank : (s : Scheme) {p : DerivationPath} → s ≢ Scheme.root → parse (name s) [] ≡ ok p → ⊥
unfolding fill_read parse_levels split_path
parse-blank s ne h = err≢ok (sym (parse-fill_read s [] ne) ∙ h)

root_agrees :
    (path : Bytes)
    → (validate_derivation_path DerivationType.root path ≡ true) ↔ Parses DerivationType.root path
unfolding validate_derivation_path parse parse_fresh is_type DerivationType.is_valid
    DerivationType.eq
root_agrees [] = (λ h. (_, refl), λ p. refl)
root_agrees (c ∷ path) = (λ h. absurd (cc), λ p. cc (p.1))

validate-read :
    (s : Scheme) (path : Bytes)
    → s ≢ Scheme.root
    → validate_derivation_path (name s) path ≡ validate_read (name s) (parse_levels path)
unfolding validate_derivation_path DerivationType.is_valid DerivationType.eq
validate-read Scheme.root path h = absurd (h refl)
validate-read _ path h = refl

pub fill_read_accepts :
    (s : Scheme) (path : Bytes) (lvls : List RawLevel) {p : DerivationPath}
    → fill_read (fresh (name s)) path (some lvls) ≡ ok p
    → validate_levels_for (name s) lvls ≡ true
unfolding fill_read
fill_read_accepts s path lvls h = elim (Bool-cases (validate_levels_for (name s) lvls)) [
  | inl valid ↦ valid
  | inr bad ↦ absurd (cc (rw bad at h))
]

not_validated :
    (dt : DerivationType) (path : Bytes)
    → DerivationType.is_valid dt ≡ false
    → validate_derivation_path dt path ≡ false
unfolding validate_derivation_path
not_validated dt path bad = rw bad

scheme_agrees :
    (s : Scheme) (path : Bytes)
    → s ≢ Scheme.root
    → (validate_derivation_path (name s) path ≡ true) ↔ Parses (name s) path
unfolding validate_read fill_read
scheme_agrees s path ne =
    rw (validate-read s path ne, parse-fill_read s path ne)
      (elim (Option-cases (parse_levels path)) [
        | inl e ↦ rw e (λ h. cc, λ p. cc (p.1))
        | inr (lvls, e) ↦ rw e (
          λ h. (let r = ready s lvls ne h in (r.0.0, fill_read-valid s path lvls h ∙ r.0.1)),
          λ p. fill_read_accepts s path lvls p.1,
        )
      ])

-- validate_derivation_path accepts a type and a text exactly if `parse` returns a path for them.
pub validate_derivation_path_iff :
    (dt : DerivationType) (path : Bytes)
    → (validate_derivation_path dt path ≡ true) ↔ Parses dt path
validate_derivation_path_iff dt path = elim (Bool-cases (DerivationType.is_valid dt)) [
  | inl valid ↦
      let (s, e) = is_valid-Scheme dt valid in
      rw e (elim (Scheme-root s) [
        | inl r ↦ rw r (root_agrees path)
        | inr ne ↦ scheme_agrees s path ne
      ])
  | inr bad ↦ (λ h. cc (not_validated dt path bad), λ p. cc (parse-is_valid dt path p.1))
]
