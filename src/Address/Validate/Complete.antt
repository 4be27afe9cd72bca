-- ===== src/Address/Validate/Complete.antt =====
-- src/address.cpp: `validate` accepts every address that the description of the strict mode allows.
use mhda.Address.Print.{has_derivation, check_path_set}
use mhda.Address.Validate.Sound.{IsHardened, IsDerivable, IsStrict, validate-IsStrict}
use mhda.Address.Validate.{check_hardened, check_derivation, check_path, validate}
use mhda.Address.{Address, resolved_algorithm, resolved_format}
use mhda.Base.{
  ℕ, ◌+◌, ◌≡◌, ◌↔◌, refl, true, false, Bool, not, ◌&&◌, List, [], ◌∷◌, Option, none, some, Bytes,
  All, ◌==◌, if◌then◌else◌, inl, inr, Bool-cases,
}
use mhda.CoinType.{atom}
use mhda.DerivationPath.Class
use mhda.DerivationPath.Class.{DerivationPath, is_type}
use mhda.DerivationPath.Text.{AddressIndex}
use mhda.Error.{ok}
use mhda.Names.Algorithm
use mhda.Names.Algorithm.{Algorithm}
use mhda.Names.DerivationType
use mhda.Names.Format.{Format}
use mhda.Names.NetworkType
use mhda.Names.NetworkType.{NetworkType}

check_hardened-ok :
    (path : Bytes) (i : ℕ) (ls : List AddressIndex)
    → All IsHardened ls
    → check_hardened path i ls ≡ ok tt
unfolding check_hardened
check_hardened-ok path i [] h = refl
check_hardened-ok path i (l ∷ ls) (hard, h) = rw hard (check_hardened-ok path (i + 1) ls h)

-- A guard of the form `!skip && !holds` does not throw.
guard_passes : (skip holds : Bool) → (skip ≡ false → holds ≡ true) → not skip && not holds ≡ false
guard_passes true holds h = refl
guard_passes false holds h = rw (h refl) refl

loop_passes :
    (ed soft : Bool) (path : Bytes) (ls : List AddressIndex)
    → (ed ≡ true → soft ≡ false → All IsHardened ls)
    → (if ed && not soft then check_hardened path 0 ls else ok tt) ≡ ok tt
loop_passes true false path ls h = check_hardened-ok path 0 ls (h refl refl)
loop_passes true true path ls h = refl
loop_passes false soft path ls h = refl

spelled_once : (x y z : Bool) → (x ≡ true → y ≡ true → z ≡ false) → x && y && z ≡ false
spelled_once true true z h = h refl refl
spelled_once true false z h = refl
spelled_once false y z h = refl

check_derivation-ok :
    (nt : NetworkType) (algo : Algorithm) (fmt : Format) (p : DerivationPath)
    → IsDerivable nt algo fmt p
    → check_derivation nt algo fmt p ≡ ok tt
unfolding check_derivation
check_derivation-ok nt algo fmt p d = rw (
  d.allowed,
  guard_passes _ _ d.keys,
  guard_passes _ _ d.purpose,
  loop_passes (Algorithm.eq algo Algorithm.ed25519) (is_type p DerivationType.cip1852) (Class.str p)
      p.levels d.hardened,
  spelled_once (NetworkType.eq nt NetworkType.cosmos) (is_type p DerivationType.bip44)
      (p.coin == atom) d.one_spelling,
)

check_path-ok :
    (nt : NetworkType) (algo : Algorithm) (fmt : Format) (o : Option DerivationPath)
    → ((p : DerivationPath) → o ≡ some p → has_derivation p ≡ true → IsDerivable nt algo fmt p)
    → check_path nt algo fmt o ≡ ok tt
unfolding check_path
check_path-ok nt algo fmt none h = refl
check_path-ok nt algo fmt (some p) h = elim (Bool-cases (has_derivation p)) [
  | inl set ↦ rw set (check_derivation-ok nt algo fmt p (h p refl set))
  | inr root ↦ rw root refl
]

IsStrict-validate : (a : Address) → IsStrict a → validate a ≡ ok tt
unfolding validate check_path_set
IsStrict-validate a s =
    rw
      (s.initialized, s.with_path, s.registered, s.resolved, s.algorithm, guard_passes _ _ s.format)
      (check_path-ok a.chain.network (resolved_algorithm a) (resolved_format a) a.path s.derivation)

-- `validate` accepts exactly the addresses that are initialized, whose network is registered and
-- allows the algorithm and the format that they resolve to, and whose derivation, if there is one,
-- is set with a path and agrees with all of these: the network allows its type, it derives keys of
-- this algorithm for addresses of this format, its levels are hardened under ed25519 except for
-- cip1852, and no bip44 path on Cosmos has the coin of cip11.
pub validate_iff : (a : Address) → (validate a ≡ ok tt) ↔ IsStrict a
validate_iff a = (validate-IsStrict a, IsStrict-validate a)
