-- ===== src/Parser/Strict.antt =====
-- src/parser.cpp: `parse_urn_strict` on addresses that take their algorithm and format from the
-- matrix.
use mathlib.Core.Path.{subst}
use mhda.Address.Print.{has_derivation, str}
use mhda.Address.Setters.Preserve.{IsIdentity, IsValid-of}
use mhda.Address.Valid.{IsValid}
use mhda.Address.Validate.Complete.{validate_iff}
use mhda.Address.Validate.Sound.{IsHardened, IsDerivable, IsStrict}
use mhda.Address.Validate.{validate}
use mhda.Address.{Address, of_chain, resolved_algorithm, resolved_format}
use mhda.Base.{
  ◌≡◌, ◌↔◌, refl, inr, true, false, some, Bytes, All, ◌==◌, some_injective, bytes_eq_refl,
}
use mhda.Chain.{Chain}
use mhda.CoinType.{atom}
use mhda.Compatibility.Defaults.{matrix-defaults}
use mhda.Compatibility.Usable.{algorithm_for, format_for, matrix-usable}
use mhda.Compatibility.{network_allows_derivation, derivation_algorithm}
use mhda.DerivationPath.Class.{DerivationPath, is_type}
use mhda.DerivationPath.Parse.RoundTrip.{IsCanonical}
use mhda.Error.{ok, >>=-eq-ok, ◌>>◌, ok_injective}
use mhda.Names.Algorithm
use mhda.Names.Algorithm.{Algorithm}
use mhda.Names.DerivationType
use mhda.Names.DerivationType.{DerivationType}
use mhda.Names.Lower.{network-IsLowerName, algorithm-IsLowerName, format-IsLowerName}
use mhda.Names.NetworkType
use mhda.Names.NetworkType.{NetworkType}
use mhda.Nss.Pairs.{ne-is_empty}
use mhda.Parser.Marshal.{path_missing-false}
use mhda.Parser.RoundTrip.{parse_urn-str}
use mhda.Parser.{parse_urn, parse_urn_strict}

-- the address of a chain and a path with the algorithm and the format that the matrix has for them
abbrev pub usual : Chain → DerivationPath → Address
usual c p = record (of_chain c (some p)) {
  algorithm = algorithm_for c.network p.type;
  format = format_for c.network p.type;
}

-- What the strict mode asks of a derivation on a network besides: the matrix allows its type, its
-- levels are hardened where keys are those of ed25519, cip1852 excepted, and it is not a bip44 path
-- on Cosmos with the coin of cip11.
pub record IsAllowed (nt : NetworkType) (p : DerivationPath) : Type 0 where
  pub allowed : network_allows_derivation nt p.type ≡ true
  pub hardened :
      Algorithm.eq (algorithm_for nt p.type) Algorithm.ed25519 ≡ true
      → is_type p DerivationType.cip1852 ≡ false
      → All IsHardened p.levels
  pub one_spelling :
      NetworkType.eq nt NetworkType.cosmos ≡ true
      → is_type p DerivationType.bip44 ≡ true
      → (p.coin == atom) ≡ false

-- A text that the strict parse accepts holds a strict address.
accepted-IsStrict : (text : Bytes) (a : Address) → parse_urn_strict text ≡ ok a → IsStrict a
unfolding parse_urn_strict
accepted-IsStrict text a h =
    let (b, _, h) = >>=-eq-ok (parse_urn text) (λ addr. validate addr >> ok addr) h in
    let (_, valid, h) = >>=-eq-ok (validate b) (λ _. ok b) h in
    subst IsStrict (ok_injective h) ((validate_iff b).0 valid)

-- An algorithm that the derivation is bound to is the one that the matrix has for it.
bound_algorithm :
    (nt : NetworkType) (dt : DerivationType)
    → Algorithm.empty (derivation_algorithm nt dt) ≡ false
    → Algorithm.eq (derivation_algorithm nt dt) (algorithm_for nt dt) ≡ true
unfolding Algorithm.eq
bound_algorithm nt dt e = rw e (bytes_eq_refl (derivation_algorithm nt dt).value)

resolved_algorithm-usual :
    (c : Chain) (p : DerivationPath)
    → network_allows_derivation c.network p.type ≡ true
    → resolved_algorithm (usual c p) ≡ algorithm_for c.network p.type
unfolding resolved_algorithm
resolved_algorithm-usual c p h =
    let (_, _, algo, _, _, _, _) = matrix-usable c.network p.type h in
    let set = (algorithm-IsLowerName (algorithm_for c.network p.type) algo).0 in
    rw (ne-is_empty (algorithm_for c.network p.type).value set)

resolved_format-usual :
    (c : Chain) (p : DerivationPath)
    → network_allows_derivation c.network p.type ≡ true
    → resolved_format (usual c p) ≡ format_for c.network p.type
unfolding resolved_format
resolved_format-usual c p h =
    let (_, _, _, _, fmt, _, _) = matrix-usable c.network p.type h in
    let set = (format-IsLowerName (format_for c.network p.type) fmt).0 in
    rw (ne-is_empty (format_for c.network p.type).value set)

usual-IsValid :
    (c : Chain) (p : DerivationPath)
    → IsIdentity c
    → IsCanonical p
    → network_allows_derivation c.network p.type ≡ true
    → IsValid (usual c p)
usual-IsValid c p i k h =
    let (_, _, algo, _, fmt, _, _) = matrix-usable c.network p.type h in
    IsValid-of (usual c p) i k (inr algo) (inr fmt) tt tt tt tt

-- What is allowed agrees with the algorithm and the format of the matrix.
IsAllowed-IsDerivable :
    (nt : NetworkType) (p : DerivationPath)
    → IsAllowed nt p
    → IsDerivable nt (algorithm_for nt p.type) (format_for nt p.type) p
IsAllowed-IsDerivable nt p h =
    let (_, _, _, _, _, _, purpose) = matrix-usable nt p.type h.allowed in
    record {
      allowed = h.allowed;
      keys = bound_algorithm nt p.type;
      purpose = λ _. purpose;
      hardened = h.hardened;
      one_spelling = h.one_spelling;
    }

usual-IsStrict :
    (c : Chain) (p : DerivationPath)
    → IsIdentity c
    → IsCanonical p
    → IsAllowed c.network p
    → IsStrict (usual c p)
usual-IsStrict c p (nt, _, _, _) k h =
    let (_, _, algo, allows_algo, fmt, allows_fmt, _) = matrix-usable c.network p.type h.allowed in
    let same_algo = resolved_algorithm-usual c p h.allowed in
    let same_fmt = resolved_format-usual c p h.allowed in
    record {
      initialized = ne-is_empty c.network.value (network-IsLowerName c.network nt).0;
      with_path = path_missing-false (some p) k;
      registered = (matrix-defaults c.network nt).0;
      resolved = rw same_algo (
          ne-is_empty (algorithm_for c.network p.type).value
            (algorithm-IsLowerName (algorithm_for c.network p.type) algo).0);
      algorithm = rw same_algo allows_algo;
      format = λ _. rw same_fmt allows_fmt;
      derivation = λ q e _.
          rw (same_algo, same_fmt)
            (subst
              (λ x.
                IsDerivable c.network (algorithm_for c.network p.type) (format_for c.network p.type)
                  x)
              (some_injective e) (IsAllowed-IsDerivable c.network p h));
    }

IsStrict-IsAllowed :
    (c : Chain) (p : DerivationPath)
    → has_derivation p ≡ true
    → IsStrict (usual c p)
    → IsAllowed c.network p
IsStrict-IsAllowed c p d s =
    let derivable = s.derivation p refl d in
    record {
      allowed = derivable.allowed;
      hardened = λ e. derivable.hardened (rw (resolved_algorithm-usual c p derivable.allowed) e);
      one_spelling = derivable.one_spelling;
    }

-- Take a well-formed chain and a path with a derivation that the path parser returns, and the
-- algorithm and the format that the matrix has for the network and the type of the path. The URN of
-- this address is read back by parse_urn_strict exactly if the matrix allows the type, the levels
-- are hardened where the algorithm is ed25519, cip1852 excepted, and the path is not a bip44 path
-- on Cosmos with the coin of cip11.
pub parse_urn_strict-usual :
    (c : Chain) (p : DerivationPath)
    → IsIdentity c
    → IsCanonical p
    → has_derivation p ≡ true
    → (parse_urn_strict (str (usual c p)) ≡ ok (usual c p)) ↔ IsAllowed c.network p
unfolding parse_urn_strict
parse_urn_strict-usual c p i k d = (
  λ e. IsStrict-IsAllowed c p d (accepted-IsStrict (str (usual c p)) (usual c p) e),
  λ h.
      rw
        (
          parse_urn-str (usual c p) (usual-IsValid c p i k h.allowed),
          (validate_iff (usual c p)).1 (usual-IsStrict c p i k h),
        )
        refl,
)
