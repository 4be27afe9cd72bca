-- ===== src/Chain/Lifecycle.antt =====
-- include/mhda/chain.hpp and src/chain.cpp: the objects of the class `chain` that calls can make.
use mhda.Address.Components.{IsCoin}
use mhda.Address.Setters.Preserve.{IsIdentity}
use mhda.Base.{
  ℕ, ◌≡◌, ◌≢◌, ◌⊎◌, inl, inr, refl, true, [], Bytes, All, Bool-cases, is_empty, has_key, not,
}
use mhda.Chain
use mhda.Chain.RoundTrip.{from_key-key, from_key-canonical}
use mhda.Chain.Sound.{construct-IsIdentity, build_chain-IsIdentity}
use mhda.Chain.{
  Chain, set_network, set_chain_id, store_chain_id, set_coin, clear_coin, construct, from_nss,
  from_key, Iteration, key, build_chain,
}
use mhda.DerivationPath.Text.Decimal.{IsUint32}
use mhda.Detail.Ascii.Sets.{IsNssByte, all_nss_bytes-All}
use mhda.Detail.Ascii.{trim, all_nss_bytes}
use mhda.Detail.Quote.{validate_free_form_value}
use mhda.Error.{ok, >>=-eq-ok, past_throw_if}
use mhda.Names.NetworkType
use mhda.Names.NetworkType.{NetworkType}
use mhda.Nss.{comp_network_type, parse_nss_map}

-- a call of a method that changes the object, whether it returns or throws
pub data Step : Chain → Chain → Type 0 where
  set_network_called : (nt : NetworkType) (c : Chain) → Step c (set_network nt c).0
  set_chain_id_called : (ci : Bytes) (c : Chain) → Step c (set_chain_id ci c).0
  set_coin_called : (ct : ℕ) (c : Chain) → IsUint32 ct → Step c (set_coin ct c)
  clear_coin_called : (c : Chain) → Step c (clear_coin c)

-- an object that a constructor or a static function gave, after any calls
pub data Reach : Chain → Type 0 where
  default : Reach Chain.default
  constructed : (nt : NetworkType) (ci : Bytes) {c : Chain} → construct nt ci ≡ ok c → Reach c
  of_nss : (nss : Bytes) {c : Chain} → from_nss nss ≡ ok c → Reach c
  of_key : (it : Iteration) (text : Bytes) {c : Chain} → from_key it text ≡ ok c → Reach c
  next : {c d : Chain} → Reach c → Step c d → Reach d

-- What is set is well formed.
abbrev pub IsLegit : Chain → Type 0
IsLegit c =
    ((c.network.value ≡ []) ⊎ (NetworkType.is_valid c.network ≡ true))
    × All IsNssByte c.chain_id
    × IsCoin c.coin

pub IsIdentity-IsLegit : (c : Chain) → IsIdentity c → IsLegit c
IsIdentity-IsLegit c (nt, _, bytes, coin) = (inr nt, bytes, coin)

pub IsLegit-IsIdentity :
    (c : Chain) → c.network.value ≢ [] → c.chain_id ≢ [] → IsLegit c → IsIdentity c
IsLegit-IsIdentity c set named (inl unset, bytes, coin) = absurd (set unset)
IsLegit-IsIdentity c set named (inr nt, bytes, coin) = (nt, named, bytes, coin)

set_network-IsLegit : (nt : NetworkType) (c : Chain) → IsLegit c → IsLegit (set_network nt c).0
unfolding set_network
set_network-IsLegit nt c (h, bytes, coin) = elim (Bool-cases (NetworkType.is_valid nt)) [
  | inl valid ↦ rw valid (inr valid, bytes, coin)
  | inr bad ↦ rw bad (h, bytes, coin)
]

set_chain_id-IsLegit : (ci : Bytes) (c : Chain) → IsLegit c → IsLegit (set_chain_id ci c).0
unfolding set_chain_id store_chain_id validate_free_form_value
set_chain_id-IsLegit ci c (h, bytes, coin) = elim (Bool-cases (is_empty (trim ci))) [
  | inl blank ↦ rw blank (h, bytes, coin)
  | inr text ↦ elim (Bool-cases (all_nss_bytes (trim ci))) [
    | inl n ↦ rw (text, n) (h, all_nss_bytes-All (trim ci) n, coin)
    | inr n ↦ rw (text, n) (h, bytes, coin)
  ]
]

pub Step-IsLegit : {c d : Chain} → Step c d → IsLegit c → IsLegit d
Step-IsLegit (set_network_called nt c) h = set_network-IsLegit nt c h
Step-IsLegit (set_chain_id_called ci c) h = set_chain_id-IsLegit ci c h
Step-IsLegit (set_coin_called ct c bound) (h, bytes, _) = (h, bytes, bound)
Step-IsLegit (clear_coin_called c) (h, bytes, _) = (h, bytes, tt)

from_nss-IsIdentity : (nss : Bytes) {c : Chain} → from_nss nss ≡ ok c → IsIdentity c
unfolding from_nss
from_nss-IsIdentity nss h =
    let (m, _, h) = >>=-eq-ok (parse_nss_map (trim nss)) _ h in
    let (_, h) = past_throw_if (not (has_key comp_network_type m)) _ _ _ h in
    build_chain-IsIdentity m h

pub Reach-IsLegit : {c : Chain} → Reach c → IsLegit c
Reach-IsLegit default = (inl refl, tt, tt)
Reach-IsLegit (constructed nt ci {c} h) = IsIdentity-IsLegit c (construct-IsIdentity nt ci h)
Reach-IsLegit (of_nss nss {c} h) = IsIdentity-IsLegit c (from_nss-IsIdentity nss h)
Reach-IsLegit (of_key it text {c} h) = IsIdentity-IsLegit c (from_key-canonical it text h).1
Reach-IsLegit (next r s) = Step-IsLegit s (Reach-IsLegit r)

-- Whatever calls made a chain, and whether they returned or threw, and in whatever order `from_key`
-- visits the map of components: once it has a network and a
-- chain id, `from_key` reads the chain without its coin type from the key.
pub from_key-reached :
    (it : Iteration) (c : Chain)
    → Reach c
    → c.network.value ≢ []
    → c.chain_id ≢ []
    → from_key it (key c) ≡ ok (clear_coin c)
unfolding Chain.str
from_key-reached it c r set named =
    let (nt, _, bytes, _) = IsLegit-IsIdentity c set named (Reach-IsLegit r) in
    from_key-key it (clear_coin c) (nt, named, bytes, tt) refl
