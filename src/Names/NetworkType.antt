-- ===== src/Names/NetworkType.antt =====
-- include/mhda/network_type.hpp and src/network_type.cpp. The map sends each text to the
-- network type that holds the same text.
use mhda.Base.{
  Bool, List, [], ◌∷◌, Option, none, some, Bytes, codes, elem, if◌then◌else◌, is_empty, bytes_eq, ℕ,
  not, bytes_lt,
}
use mhda.Detail.Ascii.{normalize}

pub record NetworkType : Type 0 where
  pub value : Bytes

abbrev pub unset : NetworkType
unset = record { value = [] }

abbrev pub bitcoin : NetworkType
bitcoin = record { value = codes "bitcoin" }

abbrev pub ethereum_vm : NetworkType
ethereum_vm = record { value = codes "evm" }

abbrev pub avalanche_vm : NetworkType
avalanche_vm = record { value = codes "avalanche" }

abbrev pub tron_vm : NetworkType
tron_vm = record { value = codes "tron" }

abbrev pub cosmos : NetworkType
cosmos = record { value = codes "cosmos" }

abbrev pub solana : NetworkType
solana = record { value = codes "solana" }

abbrev pub xrp_ledger : NetworkType
xrp_ledger = record { value = codes "xrpl" }

abbrev pub stellar : NetworkType
stellar = record { value = codes "stellar" }

abbrev pub near_protocol : NetworkType
near_protocol = record { value = codes "near" }

abbrev pub aptos : NetworkType
aptos = record { value = codes "aptos" }

abbrev pub sui : NetworkType
sui = record { value = codes "sui" }

abbrev pub cardano : NetworkType
cardano = record { value = codes "cardano" }

abbrev pub algorand : NetworkType
algorand = record { value = codes "algorand" }

abbrev pub toncoin : NetworkType
toncoin = record { value = codes "ton" }

-- the texts of `nt_index()`
abbrev pub nt_index : List Bytes
nt_index =
    codes "bitcoin"
    ∷ codes "evm"
    ∷ codes "avalanche"
    ∷ codes "tron"
    ∷ codes "cosmos"
    ∷ codes "solana"
    ∷ codes "xrpl"
    ∷ codes "stellar"
    ∷ codes "near"
    ∷ codes "aptos"
    ∷ codes "sui"
    ∷ codes "cardano"
    ∷ codes "algorand"
    ∷ codes "ton"
    ∷ []

-- `operator==`
unfoldable pub eq : NetworkType → NetworkType → Bool
unfolding bytes_eq
eq a b = bytes_eq a.value b.value

-- `operator!=`
unfoldable pub ne : NetworkType → NetworkType → Bool
ne a b = not (eq a b)

-- `operator<`
unfoldable pub lt : NetworkType → NetworkType → Bool
lt a b = bytes_lt a.value b.value

-- `std::hash<network_type>`, on the hash of the string that it is given
unfoldable pub hash : (Bytes → ℕ) → NetworkType → ℕ
hash string_hash a = string_hash a.value

abbrev pub empty : NetworkType → Bool
empty a = is_empty a.value

unfoldable pub is_valid : NetworkType → Bool
unfolding elem
is_valid a = elem a.value nt_index

unfoldable pub network_type_from_string : Bytes → Option NetworkType
network_type_from_string s =
    let key = normalize s in if elem key nt_index then some (record { value = key }) else none
