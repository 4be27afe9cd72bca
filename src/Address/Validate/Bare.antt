-- ===== src/Address/Validate/Bare.antt =====
-- src/address.cpp: `validate` on an address that leaves the choice to the defaults.
use mhda.Address.Print.{has_derivation, check_path_set, path_missing}
use mhda.Address.Validate.{check_path, validate}
use mhda.Address.{Address, resolved_algorithm, resolved_format}
use mhda.Base.{◌≡◌, refl, true, false, Bool, not, ◌&&◌, ◌||◌, Option, none, some, arith, []}
use mhda.Compatibility.Defaults.{matrix-defaults}
use mhda.DerivationPath.Class.{DerivationPath}
use mhda.Error.{ok}
use mhda.Names.Algorithm
use mhda.Names.Format
use mhda.Names.Lower.{network-IsLowerName}
use mhda.Names.NetworkType
use mhda.Nss.Pairs.{ne-is_empty}

-- Is there a derivation to check?
abbrev pub derived : Option DerivationPath → Bool
derived none = false
derived (some p) = has_derivation p

check_path-underived :
    (nt : NetworkType.NetworkType) (algo : Algorithm.Algorithm) (fmt : Format.Format)
    (o : Option DerivationPath)
    → derived o ≡ false
    → check_path nt algo fmt o ≡ ok tt
unfolding check_path
check_path-underived nt algo fmt none h = refl
check_path-underived nt algo fmt (some p) h = rw h

path_missing-underived : (o : Option DerivationPath) → derived o ≡ false → path_missing o ≡ false
unfolding path_missing
path_missing-underived none h = refl
path_missing-underived (some p) h = rw h

format_passes : (e a : Bool) → e || a ≡ true → not e && not a ≡ false
format_passes e a h = ground arith

-- An address on a registered network that sets neither an algorithm nor a format, and has no
-- derivation, passes the strict mode.
pub validate-bare :
    (a : Address)
    → NetworkType.is_valid a.chain.network ≡ true
    → a.algorithm.value ≡ []
    → a.format.value ≡ []
    → derived a.path ≡ false
    → validate a ≡ ok tt
unfolding validate check_path_set resolved_algorithm resolved_format
validate-bare a nt aa af d =
    let (registered, resolved, algorithm, format) = matrix-defaults a.chain.network nt in
    rw
      (
        ne-is_empty a.chain.network.value (network-IsLowerName a.chain.network nt).0,
        path_missing-underived a.path d,
        aa,
        af,
        registered,
        resolved,
        algorithm,
        format_passes _ _ format,
      )
      (check_path-underived a.chain.network _ _ a.path d)
