-- ===== src/Names/DerivationType.antt =====
-- include/mhda/derivation_type.hpp and src/derivation_type.cpp.
pub mod Cases
use mhda.Base.{
  Bool, List, [], ◌∷◌, Bytes, codes, elem, if◌then◌else◌, is_empty, bytes_eq, ℕ, not, bytes_lt,
}
use mhda.Detail.Ascii.{normalize}
use mhda.Detail.Quote.{quote}
use mhda.Error.{Result, ok, throw, invalid_derivation_type}

pub record DerivationType : Type 0 where
  pub value : Bytes

abbrev pub unset : DerivationType
unset = record { value = [] }

abbrev pub root : DerivationType
root = record { value = codes "root" }

abbrev pub bip32 : DerivationType
bip32 = record { value = codes "bip32" }

abbrev pub bip44 : DerivationType
bip44 = record { value = codes "bip44" }

abbrev pub bip49 : DerivationType
bip49 = record { value = codes "bip49" }

abbrev pub bip54 : DerivationType
bip54 = record { value = codes "bip54" }

abbrev pub bip74 : DerivationType
bip74 = record { value = codes "bip74" }

abbrev pub bip84 : DerivationType
bip84 = record { value = codes "bip84" }

abbrev pub bip86 : DerivationType
bip86 = record { value = codes "bip86" }

abbrev pub slip10 : DerivationType
slip10 = record { value = codes "slip10" }

abbrev pub cip1852 : DerivationType
cip1852 = record { value = codes "cip1852" }

abbrev pub cip11 : DerivationType
cip11 = record { value = codes "cip11" }

abbrev pub zip32 : DerivationType
zip32 = record { value = codes "zip32" }

-- the texts of `dt_index()`
abbrev pub dt_index : List Bytes
dt_index =
    codes "root"
    ∷ codes "bip32"
    ∷ codes "bip44"
    ∷ codes "bip49"
    ∷ codes "bip54"
    ∷ codes "bip74"
    ∷ codes "bip84"
    ∷ codes "bip86"
    ∷ codes "slip10"
    ∷ codes "cip1852"
    ∷ codes "cip11"
    ∷ codes "zip32"
    ∷ []

-- `operator==`
unfoldable pub eq : DerivationType → DerivationType → Bool
unfolding bytes_eq
eq a b = bytes_eq a.value b.value

-- `operator!=`
unfoldable pub ne : DerivationType → DerivationType → Bool
ne a b = not (eq a b)

-- `operator<`
unfoldable pub lt : DerivationType → DerivationType → Bool
lt a b = bytes_lt a.value b.value

-- `std::hash<derivation_type>`, on the hash of the string that it is given
unfoldable pub hash : (Bytes → ℕ) → DerivationType → ℕ
hash string_hash a = string_hash a.value

abbrev pub empty : DerivationType → Bool
empty a = is_empty a.value

unfoldable pub is_valid : DerivationType → Bool
unfolding elem
is_valid a = elem a.value dt_index

unfoldable pub derivation_type_from_string : Bytes → Result DerivationType
derivation_type_from_string s =
    let key = normalize s in
    if elem key dt_index
    then ok (record { value = key })
    else throw invalid_derivation_type (quote s)
