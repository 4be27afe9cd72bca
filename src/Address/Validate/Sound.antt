-- ===== src/Address/Validate/Sound.antt =====
-- src/address.cpp: `validate` against a description of what it asks.
use mhda.Address.Print.{has_derivation, check_path_set, path_missing}
use mhda.CoinType.{atom}
use mhda.Address.Validate.{check_hardened, check_derivation, check_path, validate}
use mhda.Address.{Address, resolved_algorithm, resolved_format}
use mhda.Base.{
  ℕ, ◌+◌, ◌≡◌, true, false, Bool, not, ◌&&◌, List, [], ◌∷◌, Option, none, some, Bytes, All, ◌==◌,
  if◌then◌else◌, arith, some_injective,
}
use mhda.Compatibility.{
  network_is_registered, network_allows_algorithm, network_allows_format, network_allows_derivation,
  derivation_algorithm, derivation_allows_format,
}
use mhda.DerivationPath.Class
use mhda.DerivationPath.Class.{DerivationPath, is_type}
use mhda.DerivationPath.Text.{AddressIndex}
use mhda.Error.{ok, past_throw, past_throw_if, >>=-eq-ok, throw_if-eq-ok}
use mhda.Names.Algorithm
use mhda.Names.Algorithm.{Algorithm}
use mhda.Names.DerivationType
use mhda.Names.Format
use mhda.Names.Format.{Format}
use mhda.Names.NetworkType
use mhda.Names.NetworkType.{NetworkType}

abbrev pub IsHardened : AddressIndex → Type 0
IsHardened l = l.is_hardened ≡ true

pub check_hardened-All :
    (path : Bytes) (i : ℕ) (ls : List AddressIndex)
    → check_hardened path i ls ≡ ok tt
    → All IsHardened ls
unfolding check_hardened
check_hardened-All path i [] h = tt
check_hardened-All path i (l ∷ ls) h =
    let (hard, h) = past_throw (not l.is_hardened) _ _ h in
    (ground arith, check_hardened-All path (i + 1) ls h)

-- The network, the algorithm and the format agree with the path.
pub record IsDerivable (nt : NetworkType) (algo : Algorithm) (fmt : Format) (p : DerivationPath)
    : Type 0 where
  pub allowed : network_allows_derivation nt p.type ≡ true
  pub keys :
      Algorithm.empty (derivation_algorithm nt p.type) ≡ false
      → Algorithm.eq (derivation_algorithm nt p.type) algo ≡ true
  pub purpose : Format.empty fmt ≡ false → derivation_allows_format nt p.type fmt ≡ true
  pub hardened :
      Algorithm.eq algo Algorithm.ed25519 ≡ true
      → is_type p DerivationType.cip1852 ≡ false
      → All IsHardened p.levels
  pub one_spelling :
      NetworkType.eq nt NetworkType.cosmos ≡ true
      → is_type p DerivationType.bip44 ≡ true
      → (p.coin == atom) ≡ false

IsHardened-when :
    (b : Bool) (path : Bytes) (ls : List AddressIndex)
    → (if b then check_hardened path 0 ls else ok tt) ≡ ok tt
    → b ≡ true
    → All IsHardened ls
IsHardened-when true path ls h e = check_hardened-All path 0 ls h
IsHardened-when false path ls h e = absurd (cc)

one_spelling_of : (x y z : Bool) → x ≡ true → y ≡ true → x && y && z ≡ false → z ≡ false
one_spelling_of x y z e n h = ground arith

check_derivation-IsDerivable :
    (nt : NetworkType) (algo : Algorithm) (fmt : Format) (p : DerivationPath)
    → check_derivation nt algo fmt p ≡ ok tt
    → IsDerivable nt algo fmt p
unfolding check_derivation
check_derivation-IsDerivable nt algo fmt p h =
    let want = derivation_algorithm nt p.type in
    let (a, h) = past_throw_if (not (network_allows_derivation nt p.type)) _ _ _ h in
    let (b, h) =
      past_throw_if (not (Algorithm.empty want) && not (Algorithm.eq want algo)) _ _ _ h in
    let (c, h) =
      past_throw_if (not (Format.empty fmt) && not (derivation_allows_format nt p.type fmt)) _ _ _
        h in
    let loop = Algorithm.eq algo Algorithm.ed25519 && not (is_type p DerivationType.cip1852) in
    let (_, d, h) =
      >>=-eq-ok (if loop then check_hardened (Class.str p) 0 p.levels else ok tt) _ h in
    record {
      allowed = ground arith;
      keys = λ e. ground arith;
      purpose = λ e. ground arith;
      hardened = λ e n. IsHardened-when loop (Class.str p) p.levels d (ground arith);
      one_spelling = λ e n. one_spelling_of _ _ _ e n (throw_if-eq-ok _ _ _ h);
    }

-- What the strict mode asks of an address.
pub record IsStrict (a : Address) : Type 0 where
  pub initialized : NetworkType.empty a.chain.network ≡ false
  pub with_path : path_missing a.path ≡ false
  pub registered : network_is_registered a.chain.network ≡ true
  pub resolved : Algorithm.empty (resolved_algorithm a) ≡ false
  pub algorithm : network_allows_algorithm a.chain.network (resolved_algorithm a) ≡ true
  pub format :
      Format.empty (resolved_format a) ≡ false
      → network_allows_format a.chain.network (resolved_format a) ≡ true
  pub derivation :
      (p : DerivationPath)
      → a.path ≡ some p
      → has_derivation p ≡ true
      → IsDerivable a.chain.network (resolved_algorithm a) (resolved_format a) p

check_path-IsDerivable :
    (nt : NetworkType) (algo : Algorithm) (fmt : Format) (o : Option DerivationPath)
    → check_path nt algo fmt o ≡ ok tt
    → (p : DerivationPath) → o ≡ some p
    → has_derivation p ≡ true
    → IsDerivable nt algo fmt p
unfolding check_path
check_path-IsDerivable nt algo fmt none h p e d = cc
check_path-IsDerivable nt algo fmt (some q) h p e d =
    let same : q ≡ p = some_injective e in
    check_derivation-IsDerivable nt algo fmt p (rw (same, d) at h)

-- An address that `validate` accepts is strict: it is initialized, its network is registered and
-- allows the algorithm and the format that it resolves to, and its path, if it has a derivation,
-- agrees with all of these; under ed25519 every level is hardened, except for cip1852.
pub validate-IsStrict : (a : Address) → validate a ≡ ok tt → IsStrict a
unfolding validate check_path_set
validate-IsStrict a h =
    let nt = a.chain.network in
    let (i, h) = past_throw_if (NetworkType.empty nt) _ _ _ h in
    let (w, h) = past_throw_if (path_missing a.path) _ _ _ h in
    let (r, h) = past_throw_if (not (network_is_registered nt)) _ _ _ h in
    let (v, h) = past_throw_if (Algorithm.empty (resolved_algorithm a)) _ _ _ h in
    let (l, h) = past_throw_if (not (network_allows_algorithm nt (resolved_algorithm a))) _ _ _ h in
    let fmt = resolved_format a in
    let (f, h) =
      past_throw_if (not (Format.empty fmt) && not (network_allows_format nt fmt)) _ _ _ h in
    record {
      initialized = i;
      with_path = w;
      registered = ground arith;
      resolved = v;
      algorithm = ground arith;
      format = λ e. ground arith;
      derivation = check_path-IsDerivable nt (resolved_algorithm a) fmt a.path h;
    }
