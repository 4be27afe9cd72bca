-- ===== src/Chain/Legible.antt =====
-- src/chain.cpp: what `build_chain`, `from_nss` and `from_key` say of a text that they refuse.
use mhda.Base.{
  ℕ, refl, ◌%◌, arith, not, ◌&&◌, [], ◌∷◌, ◌++◌, Option, none, some, Bytes, IsByte, codes, All,
  find, has_key, is_empty, bytes_eq, ◌==◌,
}
use mhda.Chain.{
  Chain, default, set_network, set_chain_id, store_chain_id, construct, done, build_network,
  build_chain_id, build_coin, build_chain, parse_coin, from_nss, from_key, Iteration, only_identity,
  count_colons, str,
}
use mhda.Detail.Ascii.Kept.{All-trim, normalize-IsByte}
use mhda.Detail.Ascii.{trim, normalize}
use mhda.Detail.Number.{parse_uint32}
use mhda.Detail.Quote.Legible.{
  IsText, Yields, IsLegible, Yields->>=, checked, said, joins, thrown, quoted, quoted_only,
  IsLegible-value,
}
use mhda.Detail.Quote.Printable.{quote-IsPrintable}
use mhda.Detail.Quote.{quote, validate_free_form_value}
use mhda.Error.{
  Result, ok, err, throw_if, ◌>>=◌, ◌>>◌, missing_network_type, missing_chain_id,
  invalid_network_type, invalid_coin_type, invalid_chain_key, coin_type_in_chain_key,
}
use mhda.Names.NetworkType.{NetworkType}
use mhda.Nss.Unordered.{All-perm}
use mhda.Nss.Legible.{IsEntry, IsFound, find-IsFound, parse_nss_map-IsMapped}
use mhda.Nss.{Components, comp_network_type, comp_chain_id, comp_coin_type, parse_nss_map}

abbrev IsNetwork : NetworkType → Type 0
IsNetwork nt = All IsByte nt.value

build_network-Yields : (o : Option Bytes) → IsFound o → Yields IsNetwork (build_network o)
unfolding build_network
build_network-Yields none h = thrown missing_network_type [] tt
build_network-Yields (some v) h = ground (
  arith,
  thrown missing_network_type [] tt,
  normalize-IsByte v h,
  quoted_only invalid_network_type (normalize v) (normalize-IsByte v h),
)

build_chain_id-Yields : (o : Option Bytes) → IsFound o → Yields (All IsByte) (build_chain_id o)
unfolding build_chain_id
build_chain_id-Yields none h = thrown missing_chain_id [] tt
build_chain_id-Yields (some v) h =
    ground (arith, thrown missing_chain_id [] tt, All-trim IsByte v h)

done-IsLegible : (x : Chain × Result (Unit {0})) → IsLegible x.1 → IsLegible (done x)
done-IsLegible (c, ok a) h = tt
done-IsLegible (c, err e) h = h

set_network-IsLegible :
    (nt : NetworkType) (c : Chain) → IsNetwork nt → IsLegible (set_network nt c).1
unfolding set_network
set_network-IsLegible nt c h = ground (arith, quoted_only invalid_network_type nt.value h)

store-IsLegible :
    (v : Bytes) (c : Chain) (r : Result (Unit {0}))
    → IsLegible r
    → IsLegible (store_chain_id v c r).1
unfolding store_chain_id
store-IsLegible v c (ok a) h = tt
store-IsLegible v c (err e) h = h

set_chain_id-IsLegible : (ci : Bytes) (c : Chain) → All IsByte ci → IsLegible (set_chain_id ci c).1
unfolding set_chain_id
set_chain_id-IsLegible ci c h =
    let value = IsLegible-value comp_chain_id (trim ci) (ground arith) (All-trim IsByte ci h) in
    ground (
      arith,
      thrown missing_chain_id [] tt,
      store-IsLegible (trim ci) c (validate_free_form_value comp_chain_id (trim ci)) value,
    )

construct-IsLegible :
    (nt : NetworkType) (ci : Bytes) → IsNetwork nt → All IsByte ci → IsLegible (construct nt ci)
unfolding construct
construct-IsLegible nt ci hn hc =
    Yields->>= (λ _. Unit) (λ _. Unit) (done (set_network nt default)) _
      (done-IsLegible (set_network nt default) (set_network-IsLegible nt default hn))
      (λ c _. done-IsLegible (set_chain_id ci c) (set_chain_id-IsLegible ci c hc))

parse_coin-IsLegible : (s : Bytes) (o : Option ℕ) → All IsByte s → IsLegible (parse_coin s o)
unfolding parse_coin
parse_coin-IsLegible s none h = quoted_only invalid_coin_type s h
parse_coin-IsLegible s (some v) h = tt

build_coin-IsLegible : (o : Option Bytes) (c : Chain) → IsFound o → IsLegible (build_coin o c)
unfolding build_coin
build_coin-IsLegible none c h = tt
build_coin-IsLegible (some v) c h =
    Yields->>= (λ _. Unit) (λ _. Unit) (parse_coin (trim v) (parse_uint32 (trim v))) _
      (parse_coin-IsLegible (trim v) (parse_uint32 (trim v)) (All-trim IsByte v h)) (λ ct _. tt)

pub build_chain-IsLegible : (m : Components) → All IsEntry m → IsLegible (build_chain m)
unfolding build_chain
build_chain-IsLegible m h =
    Yields->>= IsNetwork (λ _. Unit) (build_network (find comp_network_type m)) _
      (build_network-Yields _ (find-IsFound comp_network_type m h))
      (λ nt hn.
        Yields->>= (All IsByte) (λ _. Unit) (build_chain_id (find comp_chain_id m)) _
          (build_chain_id-Yields _ (find-IsFound comp_chain_id m h))
          (λ ci hc.
            Yields->>= (λ _. Unit) (λ _. Unit) (construct nt ci) _ (construct-IsLegible nt ci hn hc)
              (λ c _.
                build_coin-IsLegible (find comp_coin_type m) c (find-IsFound comp_coin_type m h))))

-- the test that both readers share, and what follows it
network_and_chain :
    (m : Components)
    → All IsEntry m
    → IsLegible
        (throw_if (not (has_key comp_network_type m)) missing_network_type [] >> build_chain m)
network_and_chain m h =
    checked (λ _. Unit) (not (has_key comp_network_type m)) missing_network_type [] (build_chain m)
      tt (build_chain-IsLegible m h)

pub from_nss-IsLegible : (s : Bytes) → All IsByte s → IsLegible (from_nss s)
unfolding from_nss
from_nss-IsLegible s h =
    Yields->>= (All IsEntry) (λ _. Unit) (parse_nss_map (trim s)) _
      (parse_nss_map-IsMapped (trim s) (All-trim IsByte s h)) network_and_chain

only_identity-IsLegible : (m : Components) → All IsEntry m → IsLegible (only_identity m)
unfolding only_identity
only_identity-IsLegible [] h = tt
only_identity-IsLegible ((k, v) ∷ m) ((hk, _), h) = ground (
  arith,
  quoted invalid_chain_key (codes "unexpected component ") k refl hk,
  only_identity-IsLegible m h,
)

about_key : (front s : Bytes) → IsText front → All IsByte s → IsText (front ++ quote (trim s))
about_key front s h hs =
    joins front (quote (trim s)) h (quote-IsPrintable (trim s) (All-trim IsByte s hs))

-- `from_key` behind the map
canonical-IsLegible :
    (it : Iteration) (s : Bytes) (m : Components)
    → All IsByte s
    → All IsEntry m
    → IsLegible (do
      throw_if (has_key comp_coin_type m) coin_type_in_chain_key []
      only_identity (it.order m)
      throw_if (not (has_key comp_network_type m)) missing_network_type []
      out ← build_chain m
      throw_if
          (not (bytes_eq (str out) (trim s)))
          invalid_chain_key
          (codes "not in canonical form: " ++ quote (trim s))
      ok out)
canonical-IsLegible it s m hs h =
    let rest = λ (out : Chain) (_ : Unit {0}).
      checked (λ _. Unit) (not (bytes_eq (str out) (trim s))) invalid_chain_key
        (codes "not in canonical form: " ++ quote (trim s)) (ok out)
        (about_key (codes "not in canonical form: ") s (said (codes "not in canonical form: ") refl)
          hs)
        tt in
    checked (λ _. Unit) (has_key comp_coin_type m) coin_type_in_chain_key [] _ tt
      (Yields->>= (λ _. Unit) (λ _. Unit) (only_identity (it.order m)) _
        (only_identity-IsLegible (it.order m) (All-perm IsEntry (it.order_perm m) h))
        (λ _ _.
          checked (λ _. Unit) (not (has_key comp_network_type m)) missing_network_type [] _ tt
            (Yields->>= (λ _. Unit) (λ _. Unit) (build_chain m) _ (build_chain-IsLegible m h)
              rest)))

pub from_key-IsLegible : (it : Iteration) (s : Bytes) → All IsByte s → IsLegible (from_key it s)
unfolding from_key
from_key-IsLegible it s h =
    checked (λ _. Unit) (not (is_empty (trim s)) && count_colons (trim s) % 2 == 0)
      invalid_chain_key (codes "not a sequence of key:value pairs: " ++ quote (trim s)) _
      (about_key (codes "not a sequence of key:value pairs: ") s
        (said (codes "not a sequence of key:value pairs: ") refl) h)
      (Yields->>= (All IsEntry) (λ _. Unit) (parse_nss_map (trim s)) _
        (parse_nss_map-IsMapped (trim s) (All-trim IsByte s h))
        (λ m hm. canonical-IsLegible it s m h hm))
