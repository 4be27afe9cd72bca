-- ===== src/Names/Algorithm.antt =====
-- include/mhda/algorithm.hpp and src/algorithm.cpp.
use mhda.Base.{
  Bool, List, [], ◌∷◌, Option, none, some, Bytes, codes, elem, if◌then◌else◌, is_empty, bytes_eq, ℕ,
  not, bytes_lt,
}
use mhda.Detail.Ascii.{normalize}

pub record Algorithm : Type 0 where
  pub value : Bytes

abbrev pub unset : Algorithm
unset = record { value = [] }

abbrev pub secp256k1 : Algorithm
secp256k1 = record { value = codes "secp256k1" }

abbrev pub ed25519 : Algorithm
ed25519 = record { value = codes "ed25519" }

abbrev pub sr25519 : Algorithm
sr25519 = record { value = codes "sr25519" }

abbrev pub secp256r1 : Algorithm
secp256r1 = record { value = codes "secp256r1" }

abbrev pub secp384r1 : Algorithm
secp384r1 = record { value = codes "secp384r1" }

abbrev pub secp521r1 : Algorithm
secp521r1 = record { value = codes "secp521r1" }

abbrev pub prime256v1 : Algorithm
prime256v1 = record { value = codes "prime256v1" }

-- the texts of `algo_index()`
abbrev pub algo_index : List Bytes
algo_index =
    codes "secp256k1"
    ∷ codes "ed25519"
    ∷ codes "sr25519"
    ∷ codes "secp256r1"
    ∷ codes "secp384r1"
    ∷ codes "secp521r1"
    ∷ codes "prime256v1"
    ∷ []

-- `operator==`
unfoldable pub eq : Algorithm → Algorithm → Bool
unfolding bytes_eq
eq a b = bytes_eq a.value b.value

-- `operator!=`
unfoldable pub ne : Algorithm → Algorithm → Bool
ne a b = not (eq a b)

-- `operator<`
unfoldable pub lt : Algorithm → Algorithm → Bool
lt a b = bytes_lt a.value b.value

-- `std::hash<algorithm>`, on the hash of the string that it is given
unfoldable pub hash : (Bytes → ℕ) → Algorithm → ℕ
hash string_hash a = string_hash a.value

abbrev pub empty : Algorithm → Bool
empty a = is_empty a.value

unfoldable pub is_valid : Algorithm → Bool
unfolding elem
is_valid a = elem a.value algo_index

unfoldable pub algorithm_from_string : Bytes → Option Algorithm
algorithm_from_string s =
    let key = normalize s in if elem key algo_index then some (record { value = key }) else none
