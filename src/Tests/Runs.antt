-- ===== src/Tests/Runs.antt =====
-- Runs at inputs of README.md and tests/.
use mhda.Address.Print
use mhda.Address.Print.{marshal_text}
use mhda.Address.Validate.{validate}
use mhda.Basic
use mhda.Base.{◌≡◌, refl, Bytes, codes}
use mhda.Error.{Result, ok, ◌>>=◌, incompatible, ErrorCode, err, parse_error, invalid_argument}
use mhda.Base.{Option, none, some}
use mhda.Parser.{parse_urn, parse_urn_strict}
use mhda.Tests.Everything.{everything}
use mhda.Tests.Samples.{half_set, swapped}

-- the canonical text of a URN
abbrev canonical : Bytes → Result Bytes
canonical s = parse_urn s >>= λ a. ok (Print.str a)

-- the code of the failure
abbrev code {ℓ} : {A : Type ℓ} → Result A → Option ErrorCode
code (ok a) = none
code (err (parse_error c d)) = some c
code (err (invalid_argument d)) = none

runs_bitcoin :
    canonical (
      codes
        " URN:MHDA:nt:Bitcoin:ci:bitcoin:ct:0x0:dt:BIP86:dp:m/86h/0H/0'/0/0:af:bech32m:ap:bc1p?+q#f ")
    ≡ ok
        (codes "urn:mhda:nt:bitcoin:ci:bitcoin:ct:0:dt:bip86:dp:m/86'/0'/0'/0/0:af:bech32m:ap:bc1p")
unfolding everything
runs_bitcoin = refl

runs_strict : code (parse_urn_strict (codes "urn:mhda:nt:evm:ci:1:aa:ed25519")) ≡ some incompatible
unfolding everything
runs_strict = refl

runs_strict_slip10 :
    code (parse_urn_strict (codes "urn:mhda:nt:solana:ci:mainnet:dt:slip10:dp:m/44'/501'/0'/0'"))
    ≡ none
unfolding everything
runs_strict_slip10 = refl

basic_exits : (Basic.main swapped).1 ≡ ok 0
unfolding Basic.main Basic.show_path Basic.show_wallet Basic.caught Basic.print_each everything
basic_exits = refl

-- An address whose chain has a network and no id is marshalled, and its text does not parse.
half_set_text : marshal_text half_set ≡ ok (codes "urn:mhda:nt:evm:ci:")
unfolding everything
half_set_text = refl

half_set_passes : validate half_set ≡ ok tt
unfolding everything
half_set_passes = refl
