-- ===== src/Parser/Unordered.antt =====
-- src/parser.cpp and src/chain.cpp: the order of the components in an NSS does not matter.
use mathlib.Core.List.{Perm}
use mathlib.Core.Logic.{∥∥₁_elim}
use mhda.Base.{◌≡◌, refl, sym, ◌∙◌, ◌++◌, Bytes, All, All-append, arith, has_key, drop-append}
use mhda.Chain.{build_chain, from_nss}
use mhda.Detail.Ascii.Sets.{IsGraphic, trim_graphic}
use mhda.Detail.Ascii.{trim}
use mhda.Error.{ok}
use mhda.Nss.Pairs.{IsComponent, Distinct, spell, spell-IsNssText, parse_nss_map-spell}
use mhda.Nss.Unordered.{
  SameEntries, perm-SameEntries, IsComponent-prop, Distinct-prop, All-perm, Distinct-perm,
}
use mhda.Nss.{
  parse_nss_map, prefix_mhda, Components, comp_network_type, comp_chain_id, comp_coin_type,
  comp_derivation_type, comp_derivation_path, comp_address_algorithm, comp_address_format,
  comp_address_prefix, comp_address_suffix, comp_wallet_type, comp_wallet_id,
}
use mhda.Parser.RoundTrip.{text-IsGraphic, body_self, prefix_found}
use mhda.Parser.{
  get, set_components, parse_address_from_components, parse_address_nss, parse_nss, parse_urn,
}

build_chain-same : (p q : Components) → SameEntries p q → build_chain p ≡ build_chain q
unfolding build_chain
build_chain-same p q h = rw (h comp_network_type, h comp_chain_id, h comp_coin_type) refl

get-same : (k : Bytes) (p q : Components) → SameEntries p q → get k p ≡ get k q
unfolding get
get-same k p q h = rw (h k) refl

has_key-same : (k : Bytes) (p q : Components) → SameEntries p q → has_key k p ≡ has_key k q
unfolding has_key
has_key-same k p q h = rw (has_key, h k) refl

set_components-same : (p q : Components) → SameEntries p q → set_components p ≡ set_components q
unfolding set_components
set_components-same p q h =
    rw
      (
        get-same comp_derivation_type p q h,
        get-same comp_derivation_path p q h,
        get-same comp_address_algorithm p q h,
        get-same comp_address_format p q h,
        get-same comp_address_prefix p q h,
        get-same comp_address_suffix p q h,
        get-same comp_wallet_type p q h,
        get-same comp_wallet_id p q h,
      )
      refl

parse_address-same :
    (p q : Components)
    → SameEntries p q
    → parse_address_from_components p ≡ parse_address_from_components q
unfolding parse_address_from_components
parse_address-same p q h = rw (build_chain-same p q h, set_components-same p q h) refl

-- What an NSS text that spells components is parsed into.
spelled :
    (m : Components)
    → All IsComponent m
    → Distinct m
    → (parse_nss_map (spell m) ≡ ok m) × (trim (spell m) ≡ spell m)
spelled m h d = (
  parse_nss_map-spell m h d,
  trim_graphic (spell m) (text-IsGraphic (spell m) (spell-IsNssText m h)),
)

spell-IsGraphic : (m : Components) → All IsComponent m → All IsGraphic (spell m)
spell-IsGraphic m h = text-IsGraphic (spell m) (spell-IsNssText m h)

urn-body :
    (m : Components)
    → All IsComponent m
    → parse_urn (prefix_mhda ++ spell m) ≡ parse_address_nss (spell m)
unfolding parse_urn
urn-body m h =
    rw
      (
        trim_graphic (prefix_mhda ++ spell m)
            (All-append IsGraphic prefix_mhda (spell m) (ground arith) (spell-IsGraphic m h)),
        prefix_found (spell m),
        drop-append prefix_mhda (spell m),
        body_self (spell m) (spell-IsNssText m h),
      )
      refl

-- Components in any order.
module _ (p q : Components) (known : All IsComponent p) (distinct : Distinct p) (r : Perm p q) where
  same : SameEntries p q
  same = perm-SameEntries r distinct

  known' : All IsComponent q
  known' = ∥∥₁_elim r (IsComponent-prop q) (λ s. All-perm IsComponent s known)

  distinct' : Distinct q
  distinct' = ∥∥₁_elim r (Distinct-prop q) (λ s. Distinct-perm s distinct)

  address-same : parse_address_nss (spell p) ≡ parse_address_nss (spell q)
  unfolding parse_address_nss
  address-same =
      rw
        (
          (spelled p known distinct).0,
          (spelled q known' distinct').0,
          has_key-same comp_network_type p q same,
          parse_address-same p q same,
        )
        refl

  -- Components with known, different keys and non-empty values of NSS bytes may stand in any order:
  -- the NSS that spells them in another order gives the same result of parse_nss and of
  -- chain::from_nss, and behind the prefix of parse_urn, be it an address, a chain or a refusal.
  pub parse_nss-perm :
      (parse_nss (spell p) ≡ parse_nss (spell q))
      × (parse_urn (prefix_mhda ++ spell p) ≡ parse_urn (prefix_mhda ++ spell q))
      × (from_nss (spell p) ≡ from_nss (spell q))
  unfolding parse_nss from_nss
  parse_nss-perm = (
    rw ((spelled p known distinct).1, (spelled q known' distinct').1) address-same,
    urn-body p known ∙ address-same ∙ sym (urn-body q known'),
    rw
        (
          (spelled p known distinct).1,
          (spelled q known' distinct').1,
          (spelled p known distinct).0,
          (spelled q known' distinct').0,
          has_key-same comp_network_type p q same,
          build_chain-same p q same,
        )
        refl,
  )
