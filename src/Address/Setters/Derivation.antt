-- ===== src/Address/Setters/Derivation.antt =====
-- src/address.cpp: `set_derivation`, its scratch address, and the invariant of an address.
use mathlib.Core.Path.{subst}
use mhda.Address.Setters.Preserve.{
  Preserves, IsValid-of, preserve_coin, preserve_algorithm, preserve_format, preserve_prefix,
  preserve_suffix, preserve_wallet_type, preserve_wallet_id,
}
use mhda.Address.Setters.{
  move_path, set_derivation, set_derivation_type, set_derivation_path, set_path_of,
  scratch_derivation, requested_type, on_path, set_coin_type, set_address_algorithm,
  set_address_format, set_address_prefix, set_address_suffix, set_wallet_type, set_wallet_id,
}
use mhda.Address.Valid.{IsValid, IsPathSet}
use mhda.Address.{Address, default}
use mhda.Base.{◌≡◌, inl, inr, refl, [], ◌∷◌, Option, Bytes, Bool-cases}
use mhda.DerivationPath.Class.{DerivationPath, fresh, is_type}
use mhda.DerivationPath.Parse.RoundTrip.{parse-IsCanonical, root-IsCanonical}
use mhda.DerivationPath.Parse.{parse, parse_path, set_type, assigned}
use mhda.Detail.Ascii.{trim, to_lower}
use mhda.Error.Method.{finished}
use mhda.Error.{Result, ok, err, err≢ok, ok_injective}
use mhda.Names.DerivationType
use mhda.Names.DerivationType.Cases.{Scheme, name, is_valid-Scheme}
use mhda.Names.DerivationType.{DerivationType}

set_type-fresh :
    (s : Scheme) → set_type (name s) (fresh DerivationType.unset) ≡ (fresh (name s), ok tt)
unfolding set_type DerivationType.is_valid DerivationType.eq
set_type-fresh Scheme.root = refl
set_type-fresh _ = refl

from_parse :
    (dt : DerivationType) (path : Bytes) (a : Address) (r : Result DerivationPath) {sc : Address}
    → parse dt path ≡ r
    → finished (on_path a (assigned (fresh dt) r)) ≡ ok sc
    → IsPathSet sc.path
from_parse dt path a (ok p) e h =
    subst (λ (x : Address). IsPathSet x.path) (ok_injective h) (parse-IsCanonical dt path e).0
from_parse dt path a (err f) e h = absurd (err≢ok h)

root_path :
    (t : Bytes) (a : Address) {sc : Address}
    → finished (set_path_of t (fresh DerivationType.root) a) ≡ ok sc
    → IsPathSet sc.path
unfolding set_path_of is_type DerivationType.eq
root_path [] a h = subst (λ (x : Address). IsPathSet x.path) (ok_injective h) root-IsCanonical
root_path (c ∷ t) a h = absurd (err≢ok h)

set_path_of-scheme :
    (s : Scheme) (t : Bytes) (a : Address) {sc : Address}
    → finished (set_path_of t (fresh (name s)) a) ≡ ok sc
    → IsPathSet sc.path
unfolding set_path_of is_type DerivationType.eq parse_path parse DerivationType.is_valid
set_path_of-scheme Scheme.root t a h = root_path t a h
set_path_of-scheme s t a h = from_parse (name s) (to_lower t) a _ refl h

-- where both calls on the scratch address return
scratch-path :
    (dt dp : Bytes) {sc : Address}
    → finished (scratch_derivation dt dp default) ≡ ok sc
    → IsPathSet sc.path
unfolding scratch_derivation set_derivation_type set_derivation_path
scratch-path dt dp {sc} h =
    elim (Bool-cases (DerivationType.is_valid (requested_type (to_lower (trim dt))))) [
      | inl valid ↦
          (let (s, e) = is_valid-Scheme (requested_type (to_lower (trim dt))) valid in
            set_path_of-scheme s (trim dp) _ (rw (valid, e, set_type-fresh s) at h))
      | inr bad ↦ absurd (err≢ok (rw bad at h))
    ]

moved :
    (a : Address) (r : Result Address)
    → ((sc : Address) → r ≡ ok sc → IsPathSet sc.path)
    → {b : Address} → finished (move_path a r) ≡ ok b
    → (path : Option DerivationPath) × IsPathSet path × (record a { path = path } ≡ b)
unfolding move_path
moved a (ok sc) f h = (sc.path, f sc refl, ok_injective h)
moved a (err e) f h = absurd (err≢ok h)

-- A call that returns changes the path only, to one that the path parser returned.
pub set_derivation_lem :
    (dt dp : Bytes) (a : Address) {b : Address}
    → finished (set_derivation dt dp a) ≡ ok b
    → (path : Option DerivationPath) × IsPathSet path × (record a { path = path } ≡ b)
unfolding set_derivation
set_derivation_lem dt dp a h =
    moved a (finished (scratch_derivation dt dp default)) (λ sc e. scratch-path dt dp e) h

preserve_moved :
    (a : Address) (r : Result Address)
    → ((sc : Address) → r ≡ ok sc → IsPathSet sc.path)
    → IsValid a
    → IsValid (move_path a r).0
unfolding move_path
preserve_moved a (ok sc) f v =
    IsValid-of (record a { path = sc.path }) (v.network, v.named, v.chain_bytes, v.coin) (f sc refl)
      v.algorithm v.format v.prefix v.suffix v.wallet_type v.wallet_id
preserve_moved a (err e) f v = v

pub preserve_derivation : (dt dp : Bytes) → Preserves (set_derivation dt dp)
unfolding set_derivation
preserve_derivation dt dp a v =
    preserve_moved a (finished (scratch_derivation dt dp default)) (λ sc e. scratch-path dt dp e) v

-- `set_coin_type`, `set_derivation`, the four `set_address_` methods and the two `set_wallet_`
-- methods leave a valid address valid, whatever the text is and whether they return or throw.
pub setters-Preserves :
    (t u : Bytes)
    → Preserves (set_coin_type t)
      × Preserves (set_derivation t u)
      × Preserves (set_address_algorithm t)
      × Preserves (set_address_format t)
      × Preserves (set_address_prefix t)
      × Preserves (set_address_suffix t)
      × Preserves (set_wallet_type t)
      × Preserves (set_wallet_id t)
setters-Preserves t u = (
  preserve_coin t,
  preserve_derivation t u,
  preserve_algorithm t,
  preserve_format t,
  preserve_prefix t,
  preserve_suffix t,
  preserve_wallet_type t,
  preserve_wallet_id t,
)
