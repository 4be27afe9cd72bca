-- ===== src/Address/Legible.antt =====
-- src/address.cpp and src/derivation_path.cpp: what the setters say of a text that they refuse.
use mhda.Address.Setters.{
  on_path, emplaced, requested_type, set_derivation_type, set_path_of, set_derivation_path,
  move_path, scratch_derivation, set_derivation, set_address_algorithm, set_address_format,
  set_address_prefix, set_address_suffix, set_wallet_type, set_wallet_id, stored,
}
use mhda.Address.{Address, default}
use mhda.Base.{
  refl, arith, List, [], ◌∷◌, Option, none, some, Bytes, IsByte, codes, All, Bool-cases, inl, inr,
}
use mhda.DerivationPath.Class.{DerivationPath, fresh}
use mhda.DerivationPath.Levels.{RawLevel, parse_levels}
use mhda.DerivationPath.Parse.{assigned, fill, fill_read, parse_fresh, parse_path, set_type}
use mhda.Detail.Ascii.Kept.{All-trim, to_lower-IsByte}
use mhda.Detail.Ascii.{trim, to_lower}
use mhda.Detail.Quote.Legible.{
  IsLegible, Leaves, IsLegible-continue, IsLegible-finished, quoted, quoted_only, IsLegible-value,
}
use mhda.Detail.Quote.{validate_free_form_value}
use mhda.Error.{
  Result, ok, err, invalid_derivation_type, invalid_derivation_path, invalid_algorithm,
  invalid_format,
}
use mhda.Names.DerivationType
use mhda.Names.DerivationType.{DerivationType}
use mhda.Nss.{comp_address_prefix, comp_address_suffix, comp_wallet_type, comp_wallet_id}

abbrev IsTyped : DerivationPath → Type 0
IsTyped p = All IsByte p.type.value

fill-IsLegible : (p : DerivationPath) (lvls : List RawLevel) → IsTyped p → IsLegible (fill p lvls)
unfolding fill
fill-IsLegible p lvls h = ground (arith, quoted_only invalid_derivation_type p.type.value h)

fill_read-IsLegible :
    (p : DerivationPath) (s : Bytes) (o : Option (List RawLevel))
    → IsTyped p
    → All IsByte s
    → IsLegible (fill_read p s o)
unfolding fill_read
fill_read-IsLegible p s none h hs = quoted_only invalid_derivation_path s hs
fill_read-IsLegible p s (some lvls) h hs =
    ground (arith, quoted_only invalid_derivation_path s hs, fill-IsLegible p lvls h)

parse_fresh-IsLegible :
    (p : DerivationPath) (s : Bytes) → IsTyped p → All IsByte s → IsLegible (parse_fresh p s)
unfolding parse_fresh
parse_fresh-IsLegible p s h hs = ground (
  arith,
  quoted_only invalid_derivation_type p.type.value h,
  quoted invalid_derivation_path (codes "root derivation must have empty path, got ") s refl hs,
  fill_read-IsLegible p s (parse_levels s) h hs,
)

assigned-IsLegible :
    (p : DerivationPath) (r : Result DerivationPath) → IsLegible r → IsLegible (assigned p r).1
assigned-IsLegible p (ok q) h = tt
assigned-IsLegible p (err e) h = h

set_type-Leaves :
    (dt : DerivationType) (p : DerivationPath)
    → All IsByte dt.value
    → IsTyped p
    → Leaves IsTyped (set_type dt p)
unfolding set_type
set_type-Leaves dt p hd hp = ground (arith, quoted_only invalid_derivation_type dt.value hd)

abbrev HasTyped : Address → Type 0
HasTyped a = IsTyped (emplaced a.path)

on_path-Leaves :
    (a : Address) (x : DerivationPath × Result (Unit {0}))
    → Leaves IsTyped x
    → Leaves HasTyped (on_path a x)
on_path-Leaves a (p, r) h = h

requested_bytes : (s : Bytes) → All IsByte s → All IsByte (requested_type s).value
unfolding requested_type
requested_bytes [] h = ground arith
requested_bytes (c ∷ s) h = h

set_derivation_type-Leaves :
    (dt : Bytes) (a : Address)
    → All IsByte dt
    → HasTyped a
    → Leaves HasTyped (set_derivation_type dt a)
unfolding set_derivation_type
set_derivation_type-Leaves dt a h ha =
    let low = to_lower-IsByte (trim dt) (All-trim IsByte dt h) in
    let wanted = requested_bytes (to_lower (trim dt)) low in
    elim (Bool-cases (DerivationType.is_valid (requested_type (to_lower (trim dt))))) [
      | inl e ↦ rw e (
          on_path-Leaves a (set_type (requested_type (to_lower (trim dt))) (emplaced a.path))
            (set_type-Leaves (requested_type (to_lower (trim dt))) (emplaced a.path) wanted ha))
      | inr e ↦ rw e (ha, quoted_only invalid_derivation_type (to_lower (trim dt)) low)
    ]

parse_path-IsLegible :
    (s : Bytes) (p : DerivationPath) → IsTyped p → All IsByte s → IsLegible (parse_path s p).1
unfolding parse_path
parse_path-IsLegible s p h hs =
    assigned-IsLegible p (parse_fresh (fresh p.type) s)
      (parse_fresh-IsLegible (fresh p.type) s h hs)

set_path_of-IsLegible :
    (s : Bytes) (p : DerivationPath) (a : Address)
    → All IsByte s
    → IsTyped p
    → IsLegible (set_path_of s p a).1
unfolding set_path_of
set_path_of-IsLegible s p a hs h = ground (
  arith,
  quoted invalid_derivation_path (codes "root derivation must have empty path, got ") s refl hs,
  parse_path-IsLegible (to_lower s) p h (to_lower-IsByte s hs),
)

moved-IsLegible : (a : Address) (r : Result Address) → IsLegible r → IsLegible (move_path a r).1
unfolding move_path
moved-IsLegible a (ok b) h = tt
moved-IsLegible a (err e) h = h

pub set_derivation-IsLegible :
    (dt dp : Bytes) (a : Address)
    → All IsByte dt
    → All IsByte dp
    → IsLegible (set_derivation dt dp a).1
unfolding set_derivation scratch_derivation set_derivation_path
set_derivation-IsLegible dt dp a ht hp = moved-IsLegible a _ (
    IsLegible-finished _ (
      IsLegible-continue HasTyped (set_derivation_type dt default) (set_derivation_path dp)
        (set_derivation_type-Leaves dt default ht tt)
        (λ s hs. set_path_of-IsLegible (trim dp) (emplaced s.path) s (All-trim IsByte dp hp) hs)))

pub set_algorithm-IsLegible :
    (s : Bytes) (a : Address) → All IsByte s → IsLegible (set_address_algorithm s a).1
unfolding set_address_algorithm
set_algorithm-IsLegible s a h = ground (
  arith,
  quoted_only invalid_algorithm (to_lower (trim s))
      (to_lower-IsByte (trim s) (All-trim IsByte s h)),
)

pub set_format-IsLegible :
    (s : Bytes) (a : Address) → All IsByte s → IsLegible (set_address_format s a).1
unfolding set_address_format
set_format-IsLegible s a h = ground (
  arith,
  quoted_only invalid_format (to_lower (trim s)) (to_lower-IsByte (trim s) (All-trim IsByte s h)),
)

stored-IsLegible :
    (a b : Address) (r : Result (Unit {0})) → IsLegible r → IsLegible (stored a b r).1
stored-IsLegible a b (ok x) h = tt
stored-IsLegible a b (err e) h = h

-- The four free-form setters, by the name of their component.
free_form-IsLegible :
    (key s : Bytes) (a b : Address)
    → All IsByte key
    → All IsByte s
    → IsLegible (stored a b (validate_free_form_value key (trim s))).1
free_form-IsLegible key s a b hk h =
    stored-IsLegible a b (validate_free_form_value key (trim s))
      (IsLegible-value key (trim s) hk (All-trim IsByte s h))

pub set_prefix-IsLegible :
    (s : Bytes) (a : Address) → All IsByte s → IsLegible (set_address_prefix s a).1
unfolding set_address_prefix
set_prefix-IsLegible s a h = free_form-IsLegible comp_address_prefix s a _ (ground arith) h

pub set_suffix-IsLegible :
    (s : Bytes) (a : Address) → All IsByte s → IsLegible (set_address_suffix s a).1
unfolding set_address_suffix
set_suffix-IsLegible s a h = free_form-IsLegible comp_address_suffix s a _ (ground arith) h

pub set_wallet_type-IsLegible :
    (s : Bytes) (a : Address) → All IsByte s → IsLegible (set_wallet_type s a).1
unfolding set_wallet_type
set_wallet_type-IsLegible s a h = free_form-IsLegible comp_wallet_type s a _ (ground arith) h

pub set_wallet_id-IsLegible :
    (s : Bytes) (a : Address) → All IsByte s → IsLegible (set_wallet_id s a).1
unfolding set_wallet_id
set_wallet_id-IsLegible s a h = free_form-IsLegible comp_wallet_id s a _ (ground arith) h
