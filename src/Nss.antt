-- ===== src/Nss.antt =====
-- src/nss_parser.hpp and src/nss_parser.cpp: from an NSS to its component map. The map is an
-- association list in the order of insertion.
pub mod Pairs
pub mod Sound
pub mod Legible
pub mod Filled
pub mod Unordered
pub mod Blank
use mhda.Base.{
  Bool, not, List, [], ◌∷◌, ◌++◌, Option, none, some, Bytes, codes, ◌==◌, ◌||◌, ◌%◌, ℕ,
  if◌then◌else◌, is_empty, length, elem, has_key,
}
use mhda.Detail.Ascii.{all_nss_bytes, to_lower, split}
use mhda.Detail.Quote.{quote}
use mhda.Error.{Result, ok, throw, ◌>>=◌, invalid_nss}

abbrev pub prefix_mhda : Bytes
prefix_mhda = codes "urn:mhda:"

abbrev pub comp_network_type : Bytes
comp_network_type = codes "nt"

abbrev pub comp_chain_id : Bytes
comp_chain_id = codes "ci"

abbrev pub comp_coin_type : Bytes
comp_coin_type = codes "ct"

abbrev pub comp_derivation_type : Bytes
comp_derivation_type = codes "dt"

abbrev pub comp_derivation_path : Bytes
comp_derivation_path = codes "dp"

abbrev pub comp_address_algorithm : Bytes
comp_address_algorithm = codes "aa"

abbrev pub comp_address_format : Bytes
comp_address_format = codes "af"

abbrev pub comp_address_prefix : Bytes
comp_address_prefix = codes "ap"

abbrev pub comp_address_suffix : Bytes
comp_address_suffix = codes "as"

abbrev pub comp_wallet_type : Bytes
comp_wallet_type = codes "wt"

abbrev pub comp_wallet_id : Bytes
comp_wallet_id = codes "wi"

abbrev pub known_components : List Bytes
known_components =
    comp_network_type ∷ comp_chain_id ∷ comp_coin_type ∷ comp_derivation_type ∷ comp_derivation_path
    ∷ comp_address_algorithm ∷ comp_address_format ∷ comp_address_prefix ∷ comp_address_suffix
    ∷ comp_wallet_type ∷ comp_wallet_id ∷ []

unfoldable pub is_known_component : Bytes → Bool
unfolding elem
is_known_component key = elem key known_components

-- `std::unordered_map<std::string, std::string>`
abbrev pub Components : Type 0
Components = List (Bytes × Bytes)

-- `nss.find_first_of("?#")`, as the byte found
unfoldable pub first_delimiter : Bytes → Option ℕ
first_delimiter [] = none
first_delimiter (c ∷ s) = if c == b'?' || c == b'#' then some c else first_delimiter s

-- one round of the loop: the map after it
unfoldable pub add_component : Bytes → Bytes → Components → Result Components
add_component key value out =
    if is_empty key
    then throw invalid_nss (codes "empty component key")
    else if not (all_nss_bytes key)
    then throw invalid_nss (codes "byte not allowed in component key " ++ quote key)
    else if is_empty value
    then throw invalid_nss (codes "empty value for " ++ quote key)
    else if not (all_nss_bytes value)
    then throw invalid_nss (codes "byte not allowed in value for " ++ quote key)
    else if not (is_known_component key)
    then if is_known_component (to_lower key)
      then throw invalid_nss (codes "component key " ++ (quote key ++ codes " must be lowercase"))
      else ok out
    else if has_key key out
    then throw invalid_nss (codes "duplicate component " ++ quote key)
    else ok (out ++ (key, value) ∷ [])

-- the loop over the pairs of parts
unfoldable pub add_components : List Bytes → Components → Result Components
add_components (key ∷ value ∷ parts) out = do
  out' ← add_component key value out
  add_components parts out'
add_components _ out = ok out

-- `parts.back()`
unfoldable pub back : List Bytes → Bytes
back [] = []
back (p ∷ []) = p
back (p ∷ q ∷ ps) = back (q ∷ ps)

unfoldable pub parse_parts : List Bytes → Result Components
parse_parts parts =
    if not (length parts % 2 == 0)
    then throw invalid_nss (codes "missing value for " ++ quote (back parts))
    else add_components parts []

unfoldable pub parse_delimited : Option ℕ → Bytes → Result Components
parse_delimited (some c) nss = throw invalid_nss (codes "'" ++ (c ∷ codes "' inside the NSS"))
parse_delimited none nss = parse_parts (split nss b':')

unfoldable pub parse_nss_map : Bytes → Result Components
parse_nss_map nss = if is_empty nss then ok [] else parse_delimited (first_delimiter nss) nss
