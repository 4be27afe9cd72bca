-- ===== src/Compatibility/Matrix.antt =====
-- src/compatibility.cpp: the compatibility matrix. A set of names is a list, and a map is an
-- association list under the text of its key. An entry that the source leaves out is empty.
use mhda.Base.{List, [], ◌∷◌, Bytes}
use mhda.Names.Algorithm
use mhda.Names.Algorithm.{Algorithm}
use mhda.Names.DerivationType
use mhda.Names.DerivationType.{DerivationType}
use mhda.Names.Format
use mhda.Names.Format.{Format}
use mhda.Names.NetworkType
use mhda.Names.NetworkType.{NetworkType}

pub record NetworkCompat : Type 0 where
  pub algorithms : List Algorithm
  pub formats : List Format
  pub derivations : List DerivationType
  pub default_algorithm : Algorithm
  pub default_format : Format
  pub derivation_algorithm : List (Bytes × Algorithm)
  pub derivation_formats : List (Bytes × List Format)

abbrev pub bitcoin_compat : NetworkCompat
bitcoin_compat = record {
  algorithms = Algorithm.secp256k1 ∷ [];
  formats =
      Format.p2pkh ∷ Format.p2sh ∷ Format.p2wpkh ∷ Format.p2wsh ∷ Format.p2tr ∷ Format.bech32
      ∷ Format.bech32m ∷ [];
  derivations =
      DerivationType.bip32 ∷ DerivationType.bip44 ∷ DerivationType.bip49 ∷ DerivationType.bip84
      ∷ DerivationType.bip86 ∷ [];
  default_algorithm = Algorithm.secp256k1;
  default_format = Format.unset;
  derivation_algorithm = [];
  derivation_formats =
      (DerivationType.bip44.value, Format.p2pkh ∷ [])
      ∷ (DerivationType.bip49.value, Format.p2sh ∷ [])
      ∷ (DerivationType.bip84.value, Format.p2wpkh ∷ Format.bech32 ∷ [])
      ∷ (DerivationType.bip86.value, Format.p2tr ∷ Format.bech32m ∷ [])
      ∷ [];
}

abbrev pub ethereum_vm_compat : NetworkCompat
ethereum_vm_compat = record {
  algorithms = Algorithm.secp256k1 ∷ [];
  formats = Format.hex ∷ [];
  derivations = DerivationType.bip32 ∷ DerivationType.bip44 ∷ [];
  default_algorithm = Algorithm.secp256k1;
  default_format = Format.hex;
  derivation_algorithm = [];
  derivation_formats = [];
}

abbrev pub avalanche_vm_compat : NetworkCompat
avalanche_vm_compat = record {
  algorithms = Algorithm.secp256k1 ∷ [];
  formats = Format.hex ∷ Format.bech32 ∷ [];
  derivations = DerivationType.bip44 ∷ [];
  default_algorithm = Algorithm.secp256k1;
  default_format = Format.unset;
  derivation_algorithm = [];
  derivation_formats = [];
}

abbrev pub tron_vm_compat : NetworkCompat
tron_vm_compat = record {
  algorithms = Algorithm.secp256k1 ∷ [];
  formats = Format.base58 ∷ [];
  derivations = DerivationType.bip44 ∷ [];
  default_algorithm = Algorithm.secp256k1;
  default_format = Format.base58;
  derivation_algorithm = [];
  derivation_formats = [];
}

abbrev pub cosmos_compat : NetworkCompat
cosmos_compat = record {
  algorithms = Algorithm.secp256k1 ∷ Algorithm.ed25519 ∷ [];
  formats = Format.bech32 ∷ [];
  derivations = DerivationType.bip44 ∷ DerivationType.cip11 ∷ [];
  default_algorithm = Algorithm.secp256k1;
  default_format = Format.bech32;
  derivation_algorithm = [];
  derivation_formats = [];
}

abbrev pub solana_compat : NetworkCompat
solana_compat = record {
  algorithms = Algorithm.ed25519 ∷ [];
  formats = Format.base58 ∷ [];
  derivations = DerivationType.slip10 ∷ [];
  default_algorithm = Algorithm.ed25519;
  default_format = Format.base58;
  derivation_algorithm = [];
  derivation_formats = [];
}

abbrev pub xrp_ledger_compat : NetworkCompat
xrp_ledger_compat = record {
  algorithms = Algorithm.secp256k1 ∷ Algorithm.ed25519 ∷ [];
  formats = Format.base58 ∷ [];
  derivations = DerivationType.bip44 ∷ [];
  default_algorithm = Algorithm.secp256k1;
  default_format = Format.base58;
  derivation_algorithm = [];
  derivation_formats = [];
}

abbrev pub stellar_compat : NetworkCompat
stellar_compat = record {
  algorithms = Algorithm.ed25519 ∷ [];
  formats = Format.strkey ∷ [];
  derivations = DerivationType.slip10 ∷ [];
  default_algorithm = Algorithm.ed25519;
  default_format = Format.strkey;
  derivation_algorithm = [];
  derivation_formats = [];
}

abbrev pub near_protocol_compat : NetworkCompat
near_protocol_compat = record {
  algorithms = Algorithm.ed25519 ∷ Algorithm.secp256k1 ∷ [];
  formats = Format.hex ∷ [];
  derivations = DerivationType.slip10 ∷ DerivationType.bip44 ∷ [];
  default_algorithm = Algorithm.ed25519;
  default_format = Format.hex;
  derivation_algorithm =
      (DerivationType.slip10.value, Algorithm.ed25519)
      ∷ (DerivationType.bip44.value, Algorithm.secp256k1)
      ∷ [];
  derivation_formats = [];
}

abbrev pub aptos_compat : NetworkCompat
aptos_compat = record {
  algorithms = Algorithm.ed25519 ∷ Algorithm.secp256k1 ∷ [];
  formats = Format.hex ∷ [];
  derivations = DerivationType.slip10 ∷ DerivationType.bip44 ∷ [];
  default_algorithm = Algorithm.ed25519;
  default_format = Format.hex;
  derivation_algorithm =
      (DerivationType.slip10.value, Algorithm.ed25519)
      ∷ (DerivationType.bip44.value, Algorithm.secp256k1)
      ∷ [];
  derivation_formats = [];
}

abbrev pub sui_compat : NetworkCompat
sui_compat = record {
  algorithms = Algorithm.ed25519 ∷ Algorithm.secp256k1 ∷ Algorithm.secp256r1 ∷ [];
  formats = Format.hex ∷ [];
  derivations = DerivationType.slip10 ∷ DerivationType.bip54 ∷ DerivationType.bip74 ∷ [];
  default_algorithm = Algorithm.ed25519;
  default_format = Format.hex;
  derivation_algorithm =
      (DerivationType.slip10.value, Algorithm.ed25519)
      ∷ (DerivationType.bip54.value, Algorithm.secp256k1)
      ∷ (DerivationType.bip74.value, Algorithm.secp256r1)
      ∷ [];
  derivation_formats = [];
}

abbrev pub cardano_compat : NetworkCompat
cardano_compat = record {
  algorithms = Algorithm.ed25519 ∷ [];
  formats = Format.bech32 ∷ Format.base58 ∷ [];
  derivations = DerivationType.cip1852 ∷ [];
  default_algorithm = Algorithm.ed25519;
  default_format = Format.bech32;
  derivation_algorithm = [];
  derivation_formats = [];
}

abbrev pub algorand_compat : NetworkCompat
algorand_compat = record {
  algorithms = Algorithm.ed25519 ∷ [];
  formats = Format.base32 ∷ [];
  derivations = DerivationType.slip10 ∷ [];
  default_algorithm = Algorithm.ed25519;
  default_format = Format.base32;
  derivation_algorithm = [];
  derivation_formats = [];
}

abbrev pub toncoin_compat : NetworkCompat
toncoin_compat = record {
  algorithms = Algorithm.ed25519 ∷ [];
  formats = Format.base64url ∷ Format.hex ∷ [];
  derivations = DerivationType.slip10 ∷ [];
  default_algorithm = Algorithm.ed25519;
  default_format = Format.base64url;
  derivation_algorithm = [];
  derivation_formats = [];
}

abbrev pub matrix : List (Bytes × NetworkCompat)
matrix =
    (NetworkType.bitcoin.value, bitcoin_compat)
    ∷ (NetworkType.ethereum_vm.value, ethereum_vm_compat)
    ∷ (NetworkType.avalanche_vm.value, avalanche_vm_compat)
    ∷ (NetworkType.tron_vm.value, tron_vm_compat)
    ∷ (NetworkType.cosmos.value, cosmos_compat)
    ∷ (NetworkType.solana.value, solana_compat)
    ∷ (NetworkType.xrp_ledger.value, xrp_ledger_compat)
    ∷ (NetworkType.stellar.value, stellar_compat)
    ∷ (NetworkType.near_protocol.value, near_protocol_compat)
    ∷ (NetworkType.aptos.value, aptos_compat)
    ∷ (NetworkType.sui.value, sui_compat)
    ∷ (NetworkType.cardano.value, cardano_compat)
    ∷ (NetworkType.algorand.value, algorand_compat)
    ∷ (NetworkType.toncoin.value, toncoin_compat)
    ∷ []
