-- ===== src/Address/Validate.antt =====
-- `validate` of src/address.cpp: the strict checks, in the order of the source.
pub mod Sound
pub mod Bare
pub mod Complete
use mhda.Address.Print.{has_derivation, check_path_set}
use mhda.Address.{Address, resolved_algorithm, resolved_format}
use mhda.Base.{
  ℕ, ◌+◌, not, ◌&&◌, List, [], ◌∷◌, ◌++◌, Option, none, some, Bytes, codes, ◌==◌, if◌then◌else◌,
}
use mhda.Compatibility.{
  network_is_registered, network_allows_algorithm, network_allows_format, network_allows_derivation,
  derivation_algorithm, derivation_allows_format,
}
use mhda.DerivationPath.Class
use mhda.DerivationPath.Class.{DerivationPath, is_type}
use mhda.DerivationPath.Text.{AddressIndex, decimal}
use mhda.Detail.Quote.{quote}
use mhda.Error.{Result, ok, throw, throw_if, ◌>>◌, uninitialized_address, incompatible}
use mhda.Names.Algorithm
use mhda.Names.Algorithm.{Algorithm}
use mhda.CoinType.{atom}
use mhda.Names.DerivationType
use mhda.Names.Format
use mhda.Names.Format.{Format}
use mhda.Names.NetworkType
use mhda.Names.NetworkType.{NetworkType}

abbrev in_quotes : Bytes → Bytes
in_quotes s = codes "\"" ++ (s ++ codes "\"")

-- the loop over the levels, at level `i`
unfoldable pub check_hardened : Bytes → ℕ → List AddressIndex → Result (Unit {0})
check_hardened path i [] = ok tt
check_hardened path i (l ∷ lvls) =
    if not l.is_hardened
    then throw incompatible (
        codes "ed25519 derives hardened levels only, level "
        ++ (decimal i ++ (codes " of " ++ (in_quotes path ++ codes " is not hardened"))))
    else check_hardened path (i + 1) lvls

-- the checks behind the test for a derivation
unfoldable pub check_derivation :
    NetworkType → Algorithm → Format → DerivationPath → Result (Unit {0})
check_derivation nt algo fmt p = do
  throw_if (not (network_allows_derivation nt p.type)) incompatible (
      codes "derivation "
      ++ (in_quotes p.type.value ++ (codes " not allowed for network " ++ in_quotes nt.value)))
  let want = derivation_algorithm nt p.type
  throw_if (not (Algorithm.empty want) && not (Algorithm.eq want algo)) incompatible (
      codes "derivation "
      ++ (in_quotes p.type.value
          ++ (codes " derives "
              ++ (in_quotes want.value
                  ++ (codes " keys on network "
                      ++ (in_quotes nt.value ++ (codes ", not " ++ in_quotes algo.value)))))))
  throw_if (not (Format.empty fmt) && not (derivation_allows_format nt p.type fmt)) incompatible (
      codes "format "
      ++ (in_quotes fmt.value
          ++ (codes " does not match the purpose of derivation "
              ++ (in_quotes p.type.value ++ (codes " on network " ++ in_quotes nt.value)))))
  if Algorithm.eq algo Algorithm.ed25519 && not (is_type p DerivationType.cip1852)
      then check_hardened (Class.str p) 0 p.levels
      else ok tt
  throw_if
      (NetworkType.eq nt NetworkType.cosmos && is_type p DerivationType.bip44 && p.coin == atom)
      incompatible (codes "\"bip44\" with coin 118' is the cip11 path, use dt:cip11")

-- ROOT is always permitted.
unfoldable pub check_path :
    NetworkType → Algorithm → Format → Option DerivationPath → Result (Unit {0})
check_path nt algo fmt none = ok tt
check_path nt algo fmt (some p) =
    if not (has_derivation p) then ok tt else check_derivation nt algo fmt p

unfoldable pub validate : Address → Result (Unit {0})
validate a = do
  let nt = a.chain.network
  throw_if (NetworkType.empty nt) uninitialized_address []
  check_path_set a
  throw_if (not (network_is_registered nt)) incompatible
      (codes "unknown network type " ++ quote nt.value)
  let algo = resolved_algorithm a
  throw_if (Algorithm.empty algo) incompatible
      (codes "no algorithm resolved for network " ++ quote nt.value)
  throw_if (not (network_allows_algorithm nt algo)) incompatible (
      codes "algorithm "
      ++ (in_quotes algo.value ++ (codes " not allowed for network " ++ in_quotes nt.value)))
  let fmt = resolved_format a
  throw_if (not (Format.empty fmt) && not (network_allows_format nt fmt)) incompatible (
      codes "format "
      ++ (in_quotes fmt.value ++ (codes " not allowed for network " ++ in_quotes nt.value)))
  check_path nt algo fmt a.path
