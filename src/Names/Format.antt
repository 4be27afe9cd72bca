-- ===== src/Names/Format.antt =====
-- include/mhda/format.hpp and src/format.cpp.
use mhda.Base.{
  Bool, List, [], ◌∷◌, Option, none, some, Bytes, codes, elem, if◌then◌else◌, is_empty, bytes_eq, ℕ,
  not, bytes_lt,
}
use mhda.Detail.Ascii.{normalize}

pub record Format : Type 0 where
  pub value : Bytes

abbrev pub unset : Format
unset = record { value = [] }

abbrev pub hex : Format
hex = record { value = codes "hex" }

abbrev pub p2pkh : Format
p2pkh = record { value = codes "p2pkh" }

abbrev pub p2sh : Format
p2sh = record { value = codes "p2sh" }

abbrev pub p2wpkh : Format
p2wpkh = record { value = codes "p2wpkh" }

abbrev pub p2wsh : Format
p2wsh = record { value = codes "p2wsh" }

abbrev pub p2tr : Format
p2tr = record { value = codes "p2tr" }

abbrev pub bech32 : Format
bech32 = record { value = codes "bech32" }

abbrev pub bech32m : Format
bech32m = record { value = codes "bech32m" }

abbrev pub base58 : Format
base58 = record { value = codes "base58" }

abbrev pub base32 : Format
base32 = record { value = codes "base32" }

abbrev pub strkey : Format
strkey = record { value = codes "strkey" }

abbrev pub base64url : Format
base64url = record { value = codes "base64url" }

abbrev pub ss58 : Format
ss58 = record { value = codes "ss58" }

-- the texts of `format_index()`
abbrev pub format_index : List Bytes
format_index =
    codes "hex"
    ∷ codes "p2pkh"
    ∷ codes "p2sh"
    ∷ codes "p2wpkh"
    ∷ codes "p2wsh"
    ∷ codes "p2tr"
    ∷ codes "bech32"
    ∷ codes "bech32m"
    ∷ codes "base58"
    ∷ codes "base32"
    ∷ codes "strkey"
    ∷ codes "base64url"
    ∷ codes "ss58"
    ∷ []

-- `operator==`
unfoldable pub eq : Format → Format → Bool
unfolding bytes_eq
eq a b = bytes_eq a.value b.value

-- `operator!=`
unfoldable pub ne : Format → Format → Bool
ne a b = not (eq a b)

-- `operator<`
unfoldable pub lt : Format → Format → Bool
lt a b = bytes_lt a.value b.value

-- `std::hash<format>`, on the hash of the string that it is given
unfoldable pub hash : (Bytes → ℕ) → Format → ℕ
hash string_hash a = string_hash a.value

abbrev pub empty : Format → Bool
empty a = is_empty a.value

unfoldable pub is_valid : Format → Bool
unfolding elem
is_valid a = elem a.value format_index

unfoldable pub format_from_string : Bytes → Option Format
format_from_string s =
    let key = normalize s in if elem key format_index then some (record { value = key }) else none
