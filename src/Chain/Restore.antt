-- ===== src/Chain/Restore.antt =====
-- src/chain.cpp: the steps of `build_chain` on the texts that a chain prints.
use mhda.Address.Components.{coin_text, IsCoin}
use mhda.Address.Valid.{decimal-lower}
use mhda.Base.{ℕ, ◌≡◌, ◌≢◌, ap, true, [], Option, none, some, Bytes, All, All-imp}
use mhda.Chain.{
  Chain, build_network, build_chain_id, build_coin, parse_coin, construct, set_network,
  set_chain_id, store_chain_id,
}
use mhda.DerivationPath.Text.Decimal.{decimal-exactly, parse_uint32-decimal}
use mhda.DerivationPath.Text.{decimal}
use mhda.Detail.Ascii.Sets.{IsNssByte, IsLowerNss, All-all_nss_bytes, trim_nss, normalize_self}
use mhda.Detail.Quote.{validate_free_form_value}
use mhda.Error.{ok}
use mhda.Names.Lower.{network-IsLowerName}
use mhda.Names.NetworkType
use mhda.Nss.Filled.{present}
use mhda.Nss.Pairs.{ne-is_empty}

pub network-back :
    (nt : NetworkType.NetworkType)
    → NetworkType.is_valid nt ≡ true
    → build_network (some nt.value) ≡ ok nt
unfolding build_network
network-back nt h =
    let (filled, low) = network-IsLowerName nt h in
    rw (normalize_self nt.value low, ne-is_empty nt.value filled, h)

pub chain_id-back : (ci : Bytes) → ci ≢ [] → All IsNssByte ci → build_chain_id (some ci) ≡ ok ci
unfolding build_chain_id
chain_id-back ci filled h = rw (trim_nss ci h, ne-is_empty ci filled)

pub construct-back :
    (nt : NetworkType.NetworkType) (ci : Bytes)
    → NetworkType.is_valid nt ≡ true
    → ci ≢ []
    → All IsNssByte ci
    → construct nt ci ≡ ok (record { network = nt; chain_id = ci; coin = none })
unfolding construct set_network set_chain_id store_chain_id validate_free_form_value
construct-back nt ci valid filled h =
    rw (valid, trim_nss ci h, ne-is_empty ci filled, All-all_nss_bytes ci h)

pub coin-back :
    (coin : Option ℕ) (c : Chain)
    → IsCoin coin
    → c.coin ≡ none
    → build_coin (present (coin_text coin)) c ≡ ok (record c { coin = coin })
unfolding build_coin coin_text parse_coin
coin-back none c h e = ap (λ o. ok (record c { coin = o })) e
coin-back (some ct) c h e =
    let bytes = All-imp IsLowerNss IsNssByte (λ c p. p.0) (decimal ct) (decimal-lower ct) in
    rw (
      ne-is_empty (decimal ct) (decimal-exactly ct h).1,
      trim_nss (decimal ct) bytes,
      parse_uint32-decimal ct h,
    )
