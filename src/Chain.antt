-- ===== src/Chain.antt =====
-- The class `chain`: include/mhda/chain.hpp, src/chain.cpp and src/internal.hpp.
pub mod Sound
pub mod Restore
pub mod Legible
pub mod RoundTrip
pub mod Lifecycle
use mathlib.Core.List.{Permᴰ}
use mhda.Base.{
  ℕ, ◌+◌, ◌%◌, Bool, not, ◌&&◌, [], ◌∷◌, ◌++◌, Option, none, some, Bytes, codes, ◌==◌,
  if◌then◌else◌, is_empty, bytes_eq, find, has_key,
}
use mhda.Detail.Ascii.{normalize, trim}
use mhda.Detail.Number.{parse_uint32}
use mhda.Detail.Quote.{quote, validate_free_form_value}
use mhda.Error.Method.{Method}
use mhda.Error.{
  Result, ok, err, throw, throw_if, ◌>>=◌, ◌>>◌, missing_network_type, invalid_network_type,
  missing_chain_id, invalid_coin_type, coin_type_in_chain_key, invalid_chain_key,
}
use mhda.Names.NetworkType
use mhda.Names.NetworkType.{NetworkType}
use mhda.Nss.{Components, comp_network_type, comp_chain_id, comp_coin_type, parse_nss_map}

pub record Chain : Type 0 where
  pub network : NetworkType
  pub chain_id : Bytes
  pub coin : Option ℕ

-- `chain()`
abbrev pub default : Chain
default = record { network = NetworkType.unset; chain_id = []; coin = none }

unfoldable pub set_network : NetworkType → Method Chain (Unit {0})
set_network nt c =
    if not (NetworkType.is_valid nt)
    then (c, throw invalid_network_type (quote nt.value))
    else (record c { network = nt }, ok tt)

-- the store behind the validation
unfoldable pub store_chain_id : Bytes → Chain → Result (Unit {0}) → Chain × Result (Unit {0})
store_chain_id trimmed c (ok _) = (record c { chain_id = trimmed }, ok tt)
store_chain_id trimmed c (err e) = (c, err e)

unfoldable pub set_chain_id : Bytes → Method Chain (Unit {0})
set_chain_id ci c =
    let trimmed = trim ci in
    if is_empty trimmed
    then (c, throw missing_chain_id [])
    else store_chain_id trimmed c (validate_free_form_value comp_chain_id trimmed)

abbrev pub set_coin : ℕ → Chain → Chain
set_coin ct c = record c { coin = some ct }

abbrev pub clear_coin : Chain → Chain
clear_coin c = record c { coin = none }

-- the object that a method leaves, where it returned
abbrev pub done : Chain × Result (Unit {0}) → Result Chain
done (c, ok _) = ok c
done (c, err e) = err e

-- `chain(nt, ci)`
unfoldable pub construct : NetworkType → Bytes → Result Chain
construct nt ci = do c ← done (set_network nt default); done (set_chain_id ci c)

unfoldable pub str : Chain → Bytes
str c = codes "nt:" ++ (c.network.value ++ (codes ":ci:" ++ c.chain_id))

abbrev pub key : Chain → Bytes
key = str

-- `operator==`: the coin type takes no part.
unfoldable pub eq : Chain → Chain → Bool
unfolding NetworkType.eq bytes_eq
eq a b = NetworkType.eq a.network b.network && bytes_eq a.chain_id b.chain_id

-- `operator!=`
unfoldable pub ne : Chain → Chain → Bool
ne a b = not (eq a b)

-- the steps of `build_chain`
unfoldable pub build_network : Option Bytes → Result NetworkType
build_network none = throw missing_network_type []
build_network (some v) =
    let nt_norm = normalize v in
    if is_empty nt_norm
    then throw missing_network_type []
    else if not (NetworkType.is_valid (record { value = nt_norm }))
    then throw invalid_network_type (quote nt_norm)
    else ok (record { value = nt_norm })

unfoldable pub build_chain_id : Option Bytes → Result Bytes
build_chain_id none = throw missing_chain_id []
build_chain_id (some v) = if is_empty (trim v) then throw missing_chain_id [] else ok (trim v)

unfoldable pub parse_coin : Bytes → Option ℕ → Result ℕ
parse_coin text none = throw invalid_coin_type (quote text)
parse_coin text (some ct) = ok ct

unfoldable pub build_coin : Option Bytes → Chain → Result Chain
build_coin none c = ok c
build_coin (some v) c = do ct ← parse_coin (trim v) (parse_uint32 (trim v)); ok (set_coin ct c)

unfoldable pub build_chain : Components → Result Chain
build_chain m = do
  nt ← build_network (find comp_network_type m)
  ci ← build_chain_id (find comp_chain_id m)
  out ← construct nt ci
  build_coin (find comp_coin_type m) out

unfoldable pub from_nss : Bytes → Result Chain
from_nss nss = do
  components ← parse_nss_map (trim nss)
  throw_if (not (has_key comp_network_type components)) missing_network_type []
  build_chain components

unfoldable pub count_colons : Bytes → ℕ
count_colons [] = 0
count_colons (c ∷ s) = (if c == b':' then 1 else 0) + count_colons s

-- The order in which the loop of `from_key` visits the unordered map: the standard leaves it open,
-- and a loop visits each entry once.
pub record Iteration : Type 0 where
  pub order : Components → Components
  pub order_perm : (m : Components) → Permᴰ m (order m)

-- the loop over the components, in the order in which it visits them
unfoldable pub only_identity : Components → Result (Unit {0})
only_identity [] = ok tt
only_identity ((k, v) ∷ m) =
    if not (bytes_eq k comp_network_type) && not (bytes_eq k comp_chain_id)
    then throw invalid_chain_key (codes "unexpected component " ++ quote k)
    else only_identity m

unfoldable pub from_key : Iteration → Bytes → Result Chain
from_key it key = do
  let trimmed = trim key
  throw_if (not (is_empty trimmed) && count_colons trimmed % 2 == 0) invalid_chain_key
      (codes "not a sequence of key:value pairs: " ++ quote trimmed)
  components ← parse_nss_map trimmed
  throw_if (has_key comp_coin_type components) coin_type_in_chain_key []
  only_identity (it.order components)
  throw_if (not (has_key comp_network_type components)) missing_network_type []
  out ← build_chain components
  throw_if (not (bytes_eq (str out) trimmed)) invalid_chain_key
      (codes "not in canonical form: " ++ quote trimmed)
  ok out
