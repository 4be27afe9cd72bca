-- ===== src/Chain/Sound.antt =====
-- src/chain.cpp: the chains that the constructor and `build_chain` return.
use mathlib.Core.Path.{subst}
use mhda.Address.Components.{IsCoin}
use mhda.Address.Setters.Formed.{parse_uint32-IsCoin}
use mhda.Address.Setters.Preserve.{IsIdentity}
use mhda.Base.{
  ℕ, ◌∙◌, ◌≡◌, ◌≢◌, refl, true, false, Option, none, some, Bytes, All, arith, is_empty, [], inl,
  inr, Bool-cases, find,
}
use mhda.Chain.{
  Chain, default, construct, done, set_network, set_chain_id, store_chain_id, build_network,
  build_chain_id, build_coin, build_chain, set_coin, parse_coin,
}
use mhda.Detail.Ascii.Sets.{IsNssByte, all_nss_bytes-All}
use mhda.Detail.Ascii.{trim, all_nss_bytes}
use mhda.Detail.Number.{parse_uint32}
use mhda.Detail.Quote.{validate_free_form_value}
use mhda.Error.{ok, >>=-eq-ok, ok_injective, err≢ok}
use mhda.Names.NetworkType
use mhda.Names.NetworkType.{NetworkType}
use mhda.Nss.{Components, comp_network_type, comp_chain_id, comp_coin_type}

-- what the constructor establishes
abbrev IsConstructed : NetworkType → Bytes → Chain → Type 0
IsConstructed nt ci c =
    (NetworkType.is_valid nt ≡ true)
    × (trim ci ≢ [])
    × All IsNssByte (trim ci)
    × (record { network = nt; chain_id = trim ci; coin = none } ≡ c)

ne-nil : (v : Bytes) → is_empty v ≡ false → v ≢ []
ne-nil v h = ground arith

parse_coin-bound : (t : Bytes) (ct : ℕ) → parse_coin t (parse_uint32 t) ≡ ok ct → IsCoin (some ct)
unfolding parse_coin
parse_coin-bound t ct h = read (parse_uint32 t) refl h
  where
    read : (o : Option ℕ) → parse_uint32 t ≡ o → parse_coin t o ≡ ok ct → IsCoin (some ct)
    read none e h = absurd (err≢ok h)
    read (some n) e h =
        subst (λ x. IsCoin (some x)) (ok_injective h) (parse_uint32-IsCoin t (some n) e)

chain_id_set :
    (ci : Bytes) (c : Chain) {out : Chain}
    → done (set_chain_id ci c) ≡ ok out
    → (trim ci ≢ []) × All IsNssByte (trim ci) × (record c { chain_id = trim ci } ≡ out)
unfolding set_chain_id store_chain_id validate_free_form_value
chain_id_set ci c h = elim (Bool-cases (is_empty (trim ci))) [
  | inl e ↦ absurd (err≢ok (rw e at h))
  | inr e ↦ elim (Bool-cases (all_nss_bytes (trim ci))) [
    | inl n ↦ (ne-nil (trim ci) e, all_nss_bytes-All (trim ci) n, ok_injective (rw (e, n) at h))
    | inr n ↦ absurd (err≢ok (rw (e, n) at h))
  ]
]

network_set :
    (nt : NetworkType) (c : Chain) {out : Chain}
    → done (set_network nt c) ≡ ok out
    → (NetworkType.is_valid nt ≡ true) × (record c { network = nt } ≡ out)
unfolding set_network
network_set nt c h = elim (Bool-cases (NetworkType.is_valid nt)) [
  | inl e ↦ (e, ok_injective (rw e at h))
  | inr e ↦ absurd (err≢ok (rw e at h))
]

-- The constructor succeeds only on a registered network and a chain id that is not blank, and it
-- gives the chain that holds these.
pub construct-IsConstructed :
    (nt : NetworkType) (ci : Bytes) {c : Chain} → construct nt ci ≡ ok c → IsConstructed nt ci c
unfolding construct
construct-IsConstructed nt ci h =
    let (c', first, second) =
      >>=-eq-ok (done (set_network nt default)) (λ c. done (set_chain_id ci c)) h in
    let (valid, made) = network_set nt default first in
    let (filled, bytes, out) = chain_id_set ci c' second in
    (valid, filled, bytes, rw (← made) at out)

pub construct-IsIdentity :
    (nt : NetworkType) (ci : Bytes) {c : Chain} → construct nt ci ≡ ok c → IsIdentity c
construct-IsIdentity nt ci h =
    let (valid, filled, bytes, made) = construct-IsConstructed nt ci h in
    subst IsIdentity made (valid, filled, bytes, tt)

build_coin-IsIdentity :
    (o : Option Bytes) (nt : NetworkType) (ci : Bytes) (c : Chain) {out : Chain}
    → IsConstructed nt ci c
    → build_coin o c ≡ ok out
    → IsIdentity out
unfolding build_coin
build_coin-IsIdentity none nt ci c (valid, filled, bytes, made) h =
    subst IsIdentity (ok_injective h) (subst IsIdentity made (valid, filled, bytes, tt))
build_coin-IsIdentity (some v) nt ci c (valid, filled, bytes, made) h =
    let (ct, read, out) =
      >>=-eq-ok (parse_coin (trim v) (parse_uint32 (trim v))) (λ ct. ok (set_coin ct c)) h in
    subst IsIdentity (ok_injective out) (
      subst (λ (x : Chain). IsIdentity (set_coin ct x)) made
        (valid, filled, bytes, parse_coin-bound (trim v) ct read))

-- A chain that is built from components has a registered network, a chain id that is not empty and
-- holds NSS bytes only, and a coin type below 2^32 if it has one.
pub build_chain-IsIdentity : (m : Components) {c : Chain} → build_chain m ≡ ok c → IsIdentity c
unfolding build_chain
build_chain-IsIdentity m h =
    let (nt, _, h) = >>=-eq-ok (build_network (find comp_network_type m)) _ h in
    let (ci, _, h) = >>=-eq-ok (build_chain_id (find comp_chain_id m)) _ h in
    let (out, made, h) = >>=-eq-ok (construct nt ci) _ h in
    build_coin-IsIdentity (find comp_coin_type m) nt ci out (construct-IsConstructed nt ci made) h

-- Without a "ct" among the components, the chain has no coin type.
pub build_chain-coinless :
    (m : Components) {c : Chain}
    → find comp_coin_type m ≡ none
    → build_chain m ≡ ok c
    → c.coin ≡ none
unfolding build_chain build_coin
build_chain-coinless m absent h =
    let (nt, _, h) = >>=-eq-ok (build_network (find comp_network_type m)) _ h in
    let (ci, _, h) = >>=-eq-ok (build_chain_id (find comp_chain_id m)) _ h in
    let (out, made, h) = >>=-eq-ok (construct nt ci) _ h in
    let (_, _, _, e) = construct-IsConstructed nt ci made in
    subst (λ (x : Chain). x.coin ≡ none) (e ∙ ok_injective (rw absent at h)) refl
