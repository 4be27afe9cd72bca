-- ===== src/Chain/RoundTrip.antt =====
-- src/chain.cpp: `key` and `from_key`.
use mathlib.Core.Path.{subst}
use mhda.Address.Setters.Preserve.{IsIdentity}
use mathlib.Core.List.Permᴰ
use mhda.Nss.Unordered.{All-perm}
use mhda.Base.{
  ◌⊎◌, inl, inr, ◌+◌, ◌%◌, ◌≡◌, ◌↔◌, refl, sym, ap, ◌∙◌, true, false, [], ◌∷◌, ◌++◌, none, Bytes,
  All, All-imp, arith, is_empty, not, ◌&&◌, find, has_key, bytes_eq, bytes_eq_iff, bytes_eq_refl,
  append-nil, ◌==◌, elem,
}
use mhda.Chain.Restore.{network-back, chain_id-back, construct-back}
use mhda.Chain.{
  Chain, key, str, eq, from_key, Iteration, count_colons, only_identity, build_chain, build_coin,
}
use mhda.Detail.Ascii.Sets.{IsNssByte, nss_byte_lem, trim_graphic, IsGraphic}
use mhda.Detail.Ascii.{trim}
use mhda.Error.{ok, ok_injective, >>=-eq-ok, past_throw_if}
use mhda.Names.Lower.{network-IsLowerName}
use mhda.Names.NetworkType
use mhda.Nss.Filled.{nodup, nodup-Distinct}
use mhda.Chain.Sound.{build_chain-IsIdentity, build_chain-coinless}
use mhda.Nss.Pairs.{IsComponent, spell, spell-IsNssText, IsNssText, parse_nss_map-spell, Distinct}
use mhda.Nss.{
  Components, comp_network_type, comp_chain_id, comp_coin_type, parse_nss_map, is_known_component,
}

-- the two components of a key
abbrev pair : Chain → Components
pair c = (comp_network_type, c.network.value) ∷ (comp_chain_id, c.chain_id) ∷ []

pair-IsComponent : (c : Chain) → IsIdentity c → All IsComponent (pair c)
unfolding is_known_component elem
pair-IsComponent c (nt, named, bytes, _) =
    let (filled, low) = network-IsLowerName c.network nt in
    (
      (refl, filled, All-imp _ IsNssByte (λ b p. p.0) c.network.value low),
      ((refl, named, bytes), tt),
    )

pair-Distinct : (c : Chain) → Distinct (pair c)
unfolding nodup elem
pair-Distinct c = nodup-Distinct (pair c) refl

key-spell : (c : Chain) → key c ≡ spell (pair c)
unfolding str
key-spell c = rw (append-nil c.chain_id)

count_colons-append : (a b : Bytes) → count_colons (a ++ b) ≡ count_colons a + count_colons b
unfolding count_colons
count_colons-append [] b = omega arith
count_colons-append (c ∷ a) b = omega (arith, count_colons-append a b)

count_colons-none : (s : Bytes) → All IsNssByte s → count_colons s ≡ 0
unfolding count_colons
count_colons-none [] h = refl
count_colons-none (c ∷ s) (h, hs) =
    let other = (nss_byte_lem c h).2 in ground (arith, count_colons-none s hs)

key-colons : (c : Chain) → IsIdentity c → count_colons (key c) ≡ 3
unfolding str count_colons
key-colons c (nt, named, bytes, _) =
    let (_, low) = network-IsLowerName c.network nt in
    omega (
      arith,
      count_colons-append c.network.value (b':' ∷ b'c' ∷ b'i' ∷ b':' ∷ c.chain_id),
      count_colons-none c.network.value (All-imp _ IsNssByte (λ b p. p.0) c.network.value low),
      count_colons-none c.chain_id bytes,
    )

trim-key : (c : Chain) → IsIdentity c → trim (key c) ≡ key c
trim-key c i = rw (key-spell c) (
    trim_graphic (spell (pair c)) (
      All-imp IsNssText IsGraphic (λ b t. (t.0, t.1)) (spell (pair c))
        (spell-IsNssText (pair c) (pair-IsComponent c i))))

build_chain-pair : (c : Chain) → IsIdentity c → c.coin ≡ none → build_chain (pair c) ≡ ok c
unfolding build_chain find bytes_eq build_coin
build_chain-pair c (nt, named, bytes, _) e =
    rw
      (
        network-back c.network nt,
        chain_id-back c.chain_id named bytes,
        construct-back c.network c.chain_id nt named bytes,
      )
      (ap (λ o. ok (record c { coin = o })) (sym e))

parse_nss_map-key : (c : Chain) → IsIdentity c → parse_nss_map (key c) ≡ ok (pair c)
parse_nss_map-key c i =
    rw (key-spell c) (parse_nss_map-spell (pair c) (pair-IsComponent c i) (pair-Distinct c))

-- an entry of a chain key
abbrev IsOfKey : Bytes × Bytes → Type 0
IsOfKey e = (e.0 ≡ comp_network_type) ⊎ (e.0 ≡ comp_chain_id)

only_identity-ok : (m : Components) → All IsOfKey m → only_identity m ≡ ok tt
unfolding only_identity bytes_eq
only_identity-ok [] h = refl
only_identity-ok ((k, v) ∷ m) (inl e, h) = rw e (only_identity-ok m h)
only_identity-ok ((k, v) ∷ m) (inr e, h) = rw e (only_identity-ok m h)

-- The loop over the components of a key finds nothing to refuse, in whatever order.
only_identity-pair : (it : Iteration) (c : Chain) → only_identity (it.order (pair c)) ≡ ok tt
only_identity-pair it c =
    only_identity-ok (it.order (pair c))
      (All-perm IsOfKey (it.order_perm (pair c)) (inl refl, (inr refl, tt)))

-- `from_key` gives back a chain from its key, where the chain is well formed and has no coin type.
pub from_key-key :
    (it : Iteration) (c : Chain) → IsIdentity c → c.coin ≡ none → from_key it (key c) ≡ ok c
unfolding from_key has_key find bytes_eq str
from_key-key it c i e = rw (
  trim-key c i,
  key-colons c i,
  parse_nss_map-key c i,
  only_identity-pair it c,
  build_chain-pair c i e,
  bytes_eq_refl (str c),
)

no_key : (m : Components) → has_key comp_coin_type m ≡ false → find comp_coin_type m ≡ none
unfolding has_key
no_key m h = ground arith

-- what the last steps of `from_key` leave
build-IsKey :
    (m : Components) (t : Bytes) {c out : Chain}
    → has_key comp_coin_type m ≡ false
    → build_chain m ≡ ok out
    → not (bytes_eq (str out) t) ≡ false
    → ok out ≡ ok c
    → (key c ≡ t) × IsIdentity c × (c.coin ≡ none)
build-IsKey m t {c} {out} coinless built same h =
    subst (λ (x : Chain). (key x ≡ t) × IsIdentity x × (x.coin ≡ none)) (ok_injective h)
      (
        (bytes_eq_iff (str out) t).0 (ground arith),
        build_chain-IsIdentity m built,
        build_chain-coinless m (no_key m coinless) built,
      )

from_key-IsKey :
    (it : Iteration) (text : Bytes) {c : Chain}
    → from_key it text ≡ ok c
    → (key c ≡ trim text) × IsIdentity c × (c.coin ≡ none)
unfolding from_key
from_key-IsKey it text h =
    let t = trim text in
    let (_, h) = past_throw_if (not (is_empty t) && count_colons t % 2 == 0) _ _ _ h in
    let (m, read, h) = >>=-eq-ok (parse_nss_map t) _ h in
    let (coinless, h) = past_throw_if (has_key comp_coin_type m) _ _ _ h in
    let (_, _, h) = >>=-eq-ok (only_identity (it.order m)) _ h in
    let (_, h) = past_throw_if (not (has_key comp_network_type m)) _ _ _ h in
    let (out, built, h) = >>=-eq-ok (build_chain m) _ h in
    let (same, h) = past_throw_if (not (bytes_eq (str out) t)) _ _ _ h in
    build-IsKey m t coinless built same h

-- In whatever order the map of components is visited: a text that `from_key` accepts is, but for spaces around it, the key of the chain that it gives.
-- This chain is well formed, has no coin type, and is given back from its key.
pub from_key-canonical :
    (it : Iteration) (text : Bytes) {c : Chain}
    → from_key it text ≡ ok c
    → (key c ≡ trim text) × IsIdentity c × (c.coin ≡ none) × (from_key it (key c) ≡ ok c)
from_key-canonical it text {c} h =
    let (k, i, e) = from_key-IsKey it text h in (k, i, e, from_key-key it c i e)

-- the chain without its coin type
abbrev coinless : Chain → Chain
coinless c = record { network = c.network; chain_id = c.chain_id; coin = none }

key-coinless : (c : Chain) → key c ≡ key (coinless c)
unfolding str
key-coinless c = refl

-- the order of insertion
abbrev pub as_inserted : Iteration
as_inserted = record { order = λ m. m; order_perm = λ m. Permᴰ.refl m }

from_key-coinless : (c : Chain) → IsIdentity c → from_key as_inserted (key c) ≡ ok (coinless c)
from_key-coinless c (nt, named, bytes, _) =
    ap (from_key as_inserted) (key-coinless c)
    ∙ from_key-key as_inserted (coinless c) (nt, named, bytes, tt) refl

-- Two well-formed chains compare equal exactly if their keys are the same.
pub eq-key : (a b : Chain) → IsIdentity a → IsIdentity b → (eq a b ≡ true) ↔ (key a ≡ key b)
unfolding eq NetworkType.eq
eq-key a b i j = (
  λ h.
      (let same_network = (bytes_eq_iff a.network.value b.network.value).0 (ground arith) in
        let same_id = (bytes_eq_iff a.chain_id b.chain_id).0 (ground arith) in
        unfold str in rw (same_network, same_id)),
  λ h.
      (let same =
          ok_injective
            (sym (from_key-coinless a i) ∙ ap (from_key as_inserted) h ∙ from_key-coinless b j) in
        ground (
          arith,
          (bytes_eq_iff a.network.value b.network.value).1
              (ap (λ (c : Chain). c.network.value) same),
          (bytes_eq_iff a.chain_id b.chain_id).1 (ap (λ (c : Chain). c.chain_id) same),
        )),
)
