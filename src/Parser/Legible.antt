-- ===== src/Parser/Legible.antt =====
-- src/parser.cpp and src/chain.cpp: the messages of the texts that the entry points refuse.
use mhda.Address.Legible.{
  set_derivation-IsLegible, set_algorithm-IsLegible, set_format-IsLegible, set_prefix-IsLegible,
  set_suffix-IsLegible, set_wallet_type-IsLegible, set_wallet_id-IsLegible,
}
use mhda.Address.{Address, of_chain}
use mhda.Base.{
  arith, not, if◌then◌else◌, Option, none, some, [], Bytes, IsByte, All, All-drop, find, has_key,
  length, drop,
}
use mhda.Chain.Legible.{build_chain-IsLegible, from_nss-IsLegible, from_key-IsLegible}
use mhda.Chain.{build_chain, from_nss, from_key, Iteration}
use mhda.Detail.Ascii.Kept.{All-trim, All-trim_right, All-strip_rqf}
use mhda.Detail.Ascii.{trim, trim_right, strip_rqf}
use mhda.Detail.Quote.Legible.{
  IsLegible, IsLegible-continue, IsLegible-finished, Yields->>=, thrown,
}
use mhda.Error.Method.{continue}
use mhda.Error.{Result, throw, missing_network_type, invalid_urn}
use mhda.Nss.Legible.{IsEntry, IsFound, find-IsFound, parse_nss_map-IsMapped}
use mhda.Nss.{
  Components, parse_nss_map, prefix_mhda, comp_network_type, comp_derivation_type,
  comp_derivation_path, comp_address_algorithm, comp_address_format, comp_address_prefix,
  comp_address_suffix, comp_wallet_type, comp_wallet_id,
}
use mhda.Parser.{
  get, or_blank, set_components, parse_address_from_components, parse_address_nss, parse_urn,
  parse_nss,
}

or_blank-IsByte : (o : Option Bytes) → IsFound o → All IsByte (or_blank o)
or_blank-IsByte none h = tt
or_blank-IsByte (some v) h = h

get-IsByte : (k : Bytes) (m : Components) → All IsEntry m → All IsByte (get k m)
unfolding get
get-IsByte k m h = or_blank-IsByte (find k m) (find-IsFound k m h)

then-IsLegible :
    (x : Address × Result (Unit {0})) (k : Address → Address × Result (Unit {0}))
    → IsLegible x.1
    → ((s : Address) → IsLegible (k s).1)
    → IsLegible (continue x (λ _. k)).1
then-IsLegible x k h hk = IsLegible-continue (λ _. Unit) x k (tt, h) (λ s _. hk s)

components-IsLegible :
    (m : Components) (a : Address) → All IsEntry m → IsLegible (set_components m a).1
unfolding set_components
components-IsLegible m a h =
    let part = λ (k : Bytes). get-IsByte k m h in
    then-IsLegible _ _
      (set_derivation-IsLegible _ _ a (part comp_derivation_type) (part comp_derivation_path))
      (λ a. then-IsLegible _ _ (set_algorithm-IsLegible _ a (part comp_address_algorithm)) (λ a.
        then-IsLegible _ _ (set_format-IsLegible _ a (part comp_address_format)) (λ a.
          then-IsLegible _ _ (set_prefix-IsLegible _ a (part comp_address_prefix)) (λ a.
            then-IsLegible _ _ (set_suffix-IsLegible _ a (part comp_address_suffix)) (λ a.
              then-IsLegible _ _ (set_wallet_type-IsLegible _ a (part comp_wallet_type))
                (λ a. set_wallet_id-IsLegible _ a (part comp_wallet_id)))))))

from_components-IsLegible :
    (m : Components) → All IsEntry m → IsLegible (parse_address_from_components m)
unfolding parse_address_from_components
from_components-IsLegible m h =
    Yields->>= (λ _. Unit) (λ _. Unit) (build_chain m) _ (build_chain-IsLegible m h)
      (λ c _.
        IsLegible-finished (set_components m (of_chain c none))
          (components-IsLegible m (of_chain c none) h))

with_network :
    (m : Components)
    → All IsEntry m
    → IsLegible (
        if not (has_key comp_network_type m)
        then throw missing_network_type []
        else parse_address_from_components m)
with_network m h = ground (arith, thrown missing_network_type [] tt, from_components-IsLegible m h)

address_nss-IsLegible : (s : Bytes) → All IsByte s → IsLegible (parse_address_nss s)
unfolding parse_address_nss
address_nss-IsLegible s h =
    Yields->>= (All IsEntry) (λ _. Unit) (parse_nss_map s) _ (parse_nss_map-IsMapped s h)
      with_network

parse_urn-IsLegible : (s : Bytes) → All IsByte s → IsLegible (parse_urn s)
unfolding parse_urn
parse_urn-IsLegible s h =
    let body = drop (length prefix_mhda) (trim s) in
    let bytes = All-drop IsByte (length prefix_mhda) (trim s) (All-trim IsByte s h) in
    ground (
      arith,
      thrown invalid_urn [] tt,
      address_nss-IsLegible (trim_right (strip_rqf body))
          (All-trim_right IsByte (strip_rqf body) (All-strip_rqf IsByte body bytes)),
    )

-- Whatever bytes a text holds, and in whatever order from_key visits its map, where parse_urn, parse_nss, from_nss or from_key refuses it, the
-- message of the exception is one line of printable ASCII.
pub refusals-IsLegible :
    (it : Iteration) (s : Bytes)
    → All IsByte s
    → IsLegible (parse_urn s)
      × IsLegible (parse_nss s)
      × IsLegible (from_nss s)
      × IsLegible (from_key it s)
unfolding parse_nss
refusals-IsLegible it s h = (
  parse_urn-IsLegible s h,
  address_nss-IsLegible (trim s) (All-trim IsByte s h),
  from_nss-IsLegible s h,
  from_key-IsLegible it s h,
)
