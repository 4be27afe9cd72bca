-- ===== src/Tests/Addresses.antt =====
-- The theorems on addresses, chains and the parser at concrete inputs.
use mathlib.Core.List.{cons-ne-nil}
use mhda.Address
use mhda.Address.Print
use mhda.Address.Print.{nss, marshal_text}
use mhda.Address.Setters.Atomic.{IsAtomic, setters-IsAtomic}
use mhda.Address.Setters.Derivation.{setters-Preserves}
use mhda.Address.Setters.Preserve.{IsIdentity, Preserves}
use mhda.Address.Setters.{
  set_derivation, set_coin_type, set_address_algorithm, set_address_format, set_address_prefix,
  set_address_suffix, set_wallet_type, set_wallet_id,
}
use mhda.Address.Valid.{IsValid}
use mhda.Address.Validate.Bare.{validate-bare}
use mhda.Address.Validate.{validate}
use mhda.Compatibility.Defaults.{matrix-defaults}
use mhda.Compatibility.{
  network_is_registered, default_algorithm, default_format, network_allows_algorithm,
  network_allows_format,
}
use mhda.Names.Algorithm
use mhda.Names.Format
use mhda.Names.NetworkType
use mhda.Base.{false, ◌||◌}
use mhda.Base.{arith, ◌≡◌, ◌↔◌, refl, true, [], none, codes, All}
use mhda.Chain
use mhda.Chain.RoundTrip.{from_key-canonical, eq-key}
use mhda.Chain.{Chain, key, from_key}
use mhda.DerivationPath.Class
use mhda.DerivationPath.Class.{soft, rebuild_levels}
use mhda.DerivationPath.Levels.Print.{IsIndex31}
use mhda.DerivationPath.Parse.RoundTrip.{parse-str}
use mhda.DerivationPath.Parse.{parse}
use mhda.DerivationPath.Text.{format_levels}
use mhda.Detail.Ascii.{trim}
use mhda.Error.{ok}
use mhda.Names.DerivationType
use mhda.Parser.Marshal.{unmarshal-marshal}
use mhda.Parser.RoundTrip.{parse_urn-str}
use mhda.Parser.Sound.{parse_urn-canonical, parse_urn-IsValid}
use mhda.Parser.{parse_urn, parse_nss, unmarshal_text}
use mhda.Tests.Everything.{everything}
use mhda.Tests.Samples.{
  swapped, sample_urn, sample, sample_chain, sample_key, sample_path, sample_levels, sample_parses,
}
use mhda.Base.{◌⊎◌}

parse_urn-canonical_example :
    (parse_urn (Print.str sample) ≡ ok sample) × (parse_nss (nss sample) ≡ ok sample)
parse_urn-canonical_example = parse_urn-canonical sample_urn sample_parses

unmarshal-marshal_example :
    (marshal_text sample ≡ ok (Print.str sample))
    × (unmarshal_text (Print.str sample) Address.default ≡ (sample, ok tt))
unmarshal-marshal_example = unmarshal-marshal sample_urn Address.default sample_parses

parse_urn-IsValid_example : IsValid sample
parse_urn-IsValid_example = parse_urn-IsValid sample_urn sample_parses

pub sample-IsValid : IsValid sample
sample-IsValid = parse_urn-IsValid sample_urn sample_parses

parse_urn-str_example : parse_urn (Print.str sample) ≡ ok sample
parse_urn-str_example = parse_urn-str sample sample-IsValid

setters-Preserves_example :
    Preserves (set_coin_type (codes "0x"))
    × Preserves (set_derivation (codes "0x") (codes "m"))
    × Preserves (set_address_algorithm (codes "0x"))
    × Preserves (set_address_format (codes "0x"))
    × Preserves (set_address_prefix (codes "0x"))
    × Preserves (set_address_suffix (codes "0x"))
    × Preserves (set_wallet_type (codes "0x"))
    × Preserves (set_wallet_id (codes "0x"))
setters-Preserves_example = setters-Preserves (codes "0x") (codes "m")

setters-IsAtomic_example :
    IsAtomic (set_coin_type (codes "a:b"))
    × IsAtomic (set_derivation (codes "a:b") (codes "m"))
    × IsAtomic (set_address_algorithm (codes "a:b"))
    × IsAtomic (set_address_format (codes "a:b"))
    × IsAtomic (set_address_prefix (codes "a:b"))
    × IsAtomic (set_address_suffix (codes "a:b"))
    × IsAtomic (set_wallet_type (codes "a:b"))
    × IsAtomic (set_wallet_id (codes "a:b"))
setters-IsAtomic_example = setters-IsAtomic (codes "a:b") (codes "m")

parse-str_example :
    (parse DerivationType.bip44 (Class.str sample_path) ≡ ok sample_path)
    × All IsIndex31 sample_levels
    × ((sample_levels ≡ []) ⊎ (Class.str sample_path ≡ format_levels sample_levels))
unfolding everything
parse-str_example = parse-str DerivationType.bip44 (codes "m/44h/060H/00'/0/07") refl

sample_identity : IsIdentity sample_key
unfolding everything
sample_identity = (refl, cons-ne-nil _ _, (refl, tt), tt)

other_identity : IsIdentity sample_chain
unfolding everything
other_identity = (refl, cons-ne-nil _ _, (refl, tt), omega arith)

from_key-canonical_example :
    (key sample_key ≡ trim (codes " nt:evm:ci:1"))
    × IsIdentity sample_key
    × (sample_key.coin ≡ none)
    × (from_key swapped (key sample_key) ≡ ok sample_key)
unfolding everything
from_key-canonical_example = from_key-canonical swapped (codes " nt:evm:ci:1") {c = sample_key} refl

eq-key_example : (Chain.eq sample_chain sample_key ≡ true) ↔ (key sample_chain ≡ key sample_key)
eq-key_example = eq-key sample_chain sample_key other_identity sample_identity

matrix-defaults_example :
    (network_is_registered NetworkType.solana ≡ true)
    × (Algorithm.empty (default_algorithm NetworkType.solana) ≡ false)
    × (network_allows_algorithm NetworkType.solana (default_algorithm NetworkType.solana) ≡ true)
    × (Format.empty (default_format NetworkType.solana)
          || network_allows_format NetworkType.solana (default_format NetworkType.solana)
        ≡ true)
unfolding everything
matrix-defaults_example = matrix-defaults NetworkType.solana refl

validate-bare_example : validate (Address.of_chain sample_key none) ≡ ok tt
unfolding everything
validate-bare_example = validate-bare (Address.of_chain sample_key none) refl refl refl refl
