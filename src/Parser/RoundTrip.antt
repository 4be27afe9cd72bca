-- ===== src/Parser/RoundTrip.antt =====
-- src/parser.cpp: `parse_nss` and `parse_urn` on the texts of an address.
use mhda.Address.Components.{all_components, coin_text, nss-spell}
use mhda.Address.Print.{nss, str}
use mhda.Address.Setters.Restore.{
  restore_derivation, restore_algorithm, restore_format, restore_prefix, restore_suffix,
  restore_wallet_type, restore_wallet_id,
}
use mhda.Address.Valid.{IsValid, printed-IsComponent, all-Distinct}
use mhda.Address.{Address, of_chain}
use mhda.Base.{
  ◌≡◌, ◌≢◌, refl, true, false, [], ◌∷◌, ◌++◌, none, some, Bytes, All, ◌>>=◌, All-imp, arith, find,
  has_key, bytes_eq, All-append, drop-append, take-append, length-append, length, ltb,
}
use mhda.Chain.{build_chain}
use mhda.Chain.Restore.{network-back, chain_id-back, construct-back, coin-back}
use mhda.Detail.Ascii.Sets.{IsGraphic, IsGraphic-IsSolid, trim_graphic, strip_rqf_self}
use mhda.Detail.Ascii.Trim.{IsSolid, trim_right_self}
use mhda.Detail.Ascii.{trim_right, strip_rqf, has_prefix_fold, equal_ascii_fold, ascii_lower}
use mhda.Error.{ok}
use mhda.Names.Lower.{network-IsLowerName}
use mhda.Nss.Filled.{filled, find-filled, present, Distinct-filled}
use mhda.Nss.Pairs.{ne-is_empty, parse_nss_map-spell, IsNssText, spell-IsNssText}
use mhda.Nss.{
  prefix_mhda, Components, comp_network_type, comp_chain_id, comp_coin_type, comp_derivation_type,
  comp_derivation_path, comp_address_algorithm, comp_address_format, comp_address_prefix,
  comp_address_suffix, comp_wallet_type, comp_wallet_id,
}
use mhda.Parser.{
  or_blank, get, set_components, parse_address_from_components, parse_address_nss, parse_urn,
  parse_nss,
}

-- the components that an address prints
abbrev printed : Address → Components
printed a = filled (all_components a)

find-printed :
    (k : Bytes) (a : Address) → find k (printed a) ≡ (find k (all_components a) >>= present)
find-printed k a = find-filled k (all_components a) (all-Distinct a)

find-network :
    (a : Address) → IsValid a → find comp_network_type (printed a) ≡ some a.chain.network.value
unfolding find bytes_eq
find-network a v = rw (
  find-printed comp_network_type a,
  ne-is_empty a.chain.network.value (network-IsLowerName a.chain.network v.network).0,
)

has_network : (a : Address) → IsValid a → has_key comp_network_type (printed a) ≡ true
unfolding has_key
has_network a v = rw (has_key, find-network a v)

find-chain_id : (a : Address) → IsValid a → find comp_chain_id (printed a) ≡ some a.chain.chain_id
unfolding find bytes_eq
find-chain_id a v = rw (find-printed comp_chain_id a, ne-is_empty a.chain.chain_id v.named)

find-coin : (a : Address) → find comp_coin_type (printed a) ≡ present (coin_text a.chain.coin)
unfolding find bytes_eq
find-coin a = find-printed comp_coin_type a

build_chain-printed : (a : Address) → IsValid a → build_chain (printed a) ≡ ok a.chain
unfolding build_chain
build_chain-printed a v =
    rw
      (
        find-network a v,
        network-back a.chain.network v.network,
        find-chain_id a v,
        chain_id-back a.chain.chain_id v.named v.chain_bytes,
        construct-back a.chain.network a.chain.chain_id v.network v.named v.chain_bytes,
        find-coin a,
      )
      (coin-back a.chain.coin _ v.coin refl)

or_blank-present : (v : Bytes) → or_blank (present v) ≡ v
or_blank-present [] = refl
or_blank-present (c ∷ v) = refl

get-printed :
    (k : Bytes) (a : Address) {v : Bytes}
    → find k (all_components a) ≡ some v
    → get k (printed a) ≡ v
unfolding get
get-printed k a {v} e = rw (find-printed k a, e) (or_blank-present v)

set_components-printed :
    (a : Address) → IsValid a → set_components (printed a) (of_chain a.chain none) ≡ (a, ok tt)
unfolding set_components find bytes_eq
set_components-printed a v = rw (
  get-printed comp_derivation_type a refl,
  get-printed comp_derivation_path a refl,
  get-printed comp_address_algorithm a refl,
  get-printed comp_address_format a refl,
  get-printed comp_address_prefix a refl,
  get-printed comp_address_suffix a refl,
  get-printed comp_wallet_type a refl,
  get-printed comp_wallet_id a refl,
  restore_derivation a.path _ v.path,
  restore_algorithm a.algorithm _ v.algorithm,
  restore_format a.format _ v.format,
  restore_prefix a.prefix _ v.prefix,
  restore_suffix a.suffix _ v.suffix,
  restore_wallet_type a.wallet_type _ v.wallet_type,
  restore_wallet_id a.wallet_id _ v.wallet_id,
)

parse_address_nss-nss : (a : Address) → IsValid a → parse_address_nss (nss a) ≡ ok a
unfolding parse_address_nss parse_address_from_components
parse_address_nss-nss a v = rw (
  nss-spell a (network-IsLowerName a.chain.network v.network).0 v.named v.coin,
  parse_nss_map-spell (printed a) (printed-IsComponent a v)
      (Distinct-filled (all_components a) (all-Distinct a)),
  has_network a v,
  build_chain-printed a v,
  set_components-printed a v,
)

-- What a valid address prints holds printable bytes only, and no '?' or '#'.
pub nss-IsNssText : (a : Address) → IsValid a → All IsNssText (nss a)
nss-IsNssText a v =
    rw (nss-spell a (network-IsLowerName a.chain.network v.network).0 v.named v.coin)
      (spell-IsNssText (printed a) (printed-IsComponent a v))

pub text-IsGraphic : (s : Bytes) → All IsNssText s → All IsGraphic s
text-IsGraphic s h = All-imp IsNssText IsGraphic (λ c t. (t.0, t.1)) s h

pub nss-IsGraphic : (a : Address) → IsValid a → All IsGraphic (nss a)
nss-IsGraphic a v = text-IsGraphic (nss a) (nss-IsNssText a v)

-- The NSS that a valid address prints is parsed into this address, field by field.
pub parse_nss-nss : (a : Address) → IsValid a → parse_nss (nss a) ≡ ok a
unfolding parse_nss
parse_nss-nss a v = rw (trim_graphic (nss a) (nss-IsGraphic a v)) (parse_address_nss-nss a v)

pub str-IsGraphic : (a : Address) → IsValid a → All IsGraphic (str a)
unfolding str
str-IsGraphic a v = All-append IsGraphic prefix_mhda (nss a) (ground arith) (nss-IsGraphic a v)

pub body_self : (s : Bytes) → All IsNssText s → trim_right (strip_rqf s) ≡ s
body_self s h =
    rw
      (strip_rqf_self s (All-imp IsNssText (λ c. c ≢ b'?') (λ c t. t.2) s h)
        (All-imp IsNssText (λ c. c ≢ b'#') (λ c t. t.3) s h))
      (trim_right_self s (All-imp IsGraphic IsSolid IsGraphic-IsSolid s (text-IsGraphic s h)))

prefix_in_front : (p s : Bytes) → equal_ascii_fold p p ≡ true → has_prefix_fold (p ++ s) p ≡ true
unfolding has_prefix_fold
prefix_in_front p s h =
    let long : ltb (length (p ++ s)) (length p) ≡ false = ground (arith, length-append p s) in
    rw (long, take-append p s, h)

pub prefix_found : (s : Bytes) → has_prefix_fold (prefix_mhda ++ s) prefix_mhda ≡ true
unfolding equal_ascii_fold ascii_lower
prefix_found s = prefix_in_front prefix_mhda s refl

-- The URN that a valid address prints, whatever calls built the address, is parsed into this
-- address, field by field.
pub parse_urn-str : (a : Address) → IsValid a → parse_urn (str a) ≡ ok a
unfolding parse_urn str
parse_urn-str a v =
    rw
      (
        trim_graphic (str a) (str-IsGraphic a v),
        prefix_found (nss a),
        drop-append prefix_mhda (nss a),
        body_self (nss a) (nss-IsNssText a v),
      )
      (parse_address_nss-nss a v)
