-- ===== src/DerivationPath/Lifecycle.antt =====
-- src/derivation_path.cpp: the objects of the class `derivation_path` that calls can make, and what
-- they all have in common.
use mathlib.Core.Path.{subst}
use mhda.Base.{ℕ, ◌≡◌, ◌⊎◌, inl, inr, refl, sym, true, List, [], Bytes, Bool-cases}
use mhda.DerivationPath.Class.{DerivationPath, fresh, str}
use mhda.DerivationPath.Construct.Sound.{from_levels-IsCanonical, construct-IsCanonical}
use mhda.DerivationPath.Construct.{construct, from_levels}
use mhda.DerivationPath.Parse.RoundTrip.{IsCanonical, parse-IsCanonical}
use mhda.DerivationPath.Parse.{parse, parse_fresh, parse_path, set_type, assigned}
use mhda.DerivationPath.Text.{AddressIndex}
use mhda.Error.{Result, ok, err}
use mhda.Names.DerivationType
use mhda.Names.DerivationType.{DerivationType}

-- a call of a method that changes the object, whether it returns or throws
pub data Step : DerivationPath → DerivationPath → Type 0 where
  set_type_called : (dt : DerivationType) (p : DerivationPath) → Step p (set_type dt p).0
  parse_path_called : (path : Bytes) (p : DerivationPath) → Step p (parse_path path p).0

-- an object that a constructor or a static function gave, after any calls
pub data Reach : DerivationPath → Type 0 where
  default : Reach (fresh DerivationType.unset)
  constructed :
      (dt : DerivationType) (coin account charge : ℕ) (index : AddressIndex) {p : DerivationPath}
      → construct dt coin account charge index ≡ ok p
      → Reach p
  of_levels :
      (dt : DerivationType) (levels : List AddressIndex) {p : DerivationPath}
      → from_levels dt levels ≡ ok p
      → Reach p
  parsed :
      (dt : DerivationType) (path : Bytes) {p : DerivationPath} → parse dt path ≡ ok p → Reach p
  next : {p q : DerivationPath} → Reach p → Step p q → Reach q

-- no path yet: a type that is registered or unset, and nothing else
abbrev pub IsFresh : DerivationPath → Type 0
IsFresh p = ((p.type.value ≡ []) ⊎ (DerivationType.is_valid p.type ≡ true)) × (p ≡ fresh p.type)

abbrev pub IsLegit : DerivationPath → Type 0
IsLegit p = IsCanonical p ⊎ IsFresh p

fresh-IsFresh : (dt : DerivationType) → DerivationType.is_valid dt ≡ true → IsFresh (fresh dt)
fresh-IsFresh dt h = (inr h, refl)

pub default-IsLegit : IsLegit (fresh DerivationType.unset)
default-IsLegit = inr (inl refl, refl)

pub set_type-IsLegit :
    (dt : DerivationType) (p : DerivationPath) → IsLegit p → IsLegit (set_type dt p).0
unfolding set_type
set_type-IsLegit dt p h = elim (Bool-cases (DerivationType.is_valid dt)) [
  | inl valid ↦ elim (Bool-cases (DerivationType.eq dt p.type)) [
    | inl same ↦ rw (valid, same) h
    | inr other ↦ rw (valid, other) (inr (fresh-IsFresh dt valid))
  ]
  | inr bad ↦ rw bad h
]

-- `parse_path` assigns what `parse` returns for the type that the object has.
parse_fresh-parse :
    (dt : DerivationType) (path : Bytes) {q : DerivationPath}
    → parse_fresh (fresh dt) path ≡ ok q
    → parse dt path ≡ ok q
unfolding parse parse_fresh
parse_fresh-parse dt path h = elim (Bool-cases (DerivationType.is_valid dt)) [
  | inl valid ↦ rw valid (rw valid at h)
  | inr bad ↦ rw bad (rw bad at h)
]

assigned-IsLegit :
    (p : DerivationPath) (r : Result DerivationPath)
    → ((q : DerivationPath) → r ≡ ok q → IsLegit q)
    → IsLegit p
    → IsLegit (assigned p r).0
assigned-IsLegit p (ok q) f h = f q refl
assigned-IsLegit p (err e) f h = h

pub parse_path-IsLegit :
    (path : Bytes) (p : DerivationPath) → IsLegit p → IsLegit (parse_path path p).0
unfolding parse_path
parse_path-IsLegit path p h =
    assigned-IsLegit p (parse_fresh (fresh p.type) path)
      (λ q e. inl (parse-IsCanonical p.type path (parse_fresh-parse p.type path e)).0) h

pub Step-IsLegit : {p q : DerivationPath} → Step p q → IsLegit p → IsLegit q
Step-IsLegit (set_type_called dt p) h = set_type-IsLegit dt p h
Step-IsLegit (parse_path_called path p) h = parse_path-IsLegit path p h

pub Reach-IsLegit : {p : DerivationPath} → Reach p → IsLegit p
Reach-IsLegit default = default-IsLegit
Reach-IsLegit (constructed dt coin account charge index h) =
    inl (construct-IsCanonical dt coin account charge index h).2
Reach-IsLegit (of_levels dt levels h) = inl (from_levels-IsCanonical dt levels h).1
Reach-IsLegit (parsed dt path h) = inl (parse-IsCanonical dt path h).0
Reach-IsLegit (next r s) = Step-IsLegit s (Reach-IsLegit r)

str-fresh : (dt : DerivationType) → str (fresh dt) ≡ []
unfolding str
str-fresh dt = refl

-- Whatever calls made a `derivation_path`, and whether they returned or threw, it is either read
-- back field by field from the text that it prints, or it holds nothing but a type, registered or
-- unset, and prints the empty text.
pub reached_lem :
    (p : DerivationPath)
    → Reach p
    → (parse p.type (str p) ≡ ok p)
      ⊎ (((p.type.value ≡ []) ⊎ (DerivationType.is_valid p.type ≡ true))
          × (p ≡ fresh p.type)
          × (str p ≡ []))
reached_lem p r = elim (Reach-IsLegit r) [
  | inl c ↦ inl c.again
  | inr (type, e) ↦ inr (type, e, subst (λ q. str q ≡ []) (sym e) (str-fresh p.type))
]
