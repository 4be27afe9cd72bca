-- ===== src/Parser/Lifecycle/Nameless.antt =====
-- src/address.cpp and src/parser.cpp: what `marshal_text` writes for an address whose chain has no id.
use mathlib.Core.Path.{subst}
use mhda.Address.Components.{IsCoin, identity, optional, nss-appended, appended-tail_text}
use mhda.Address.Print.{check_path_set, path_missing, nss, str, marshal_text}
use mhda.Address.Setters.Legit.{IsLegit, IsLegit-chain}
use mhda.Address.Valid.{IsValid, printed-IsComponent}
use mhda.Address.{Address}
use mhda.Base.{
  ◌≡◌, ◌≢◌, refl, ◌∙◌, [], ◌∷◌, ◌++◌, Bytes, All, All-append, append_assoc, arith, codes,
  drop-append, elem, true,
}
use mhda.Detail.Ascii.Sets.{IsGraphic, trim_graphic}
use mhda.Detail.Ascii.{nss_byte}
use mhda.Detail.Quote.{quote}
use mhda.Error.{ok, throw, invalid_nss, past_throw_if, ok_injective}
use mhda.Names.NetworkType
use mhda.Nss.Blank.{blank_text, blank-IsNssText, parse_nss_map-blank}
use mhda.Nss.Filled.{filled}
use mhda.Nss.Pairs.{IsComponent, IsNssText, ne-is_empty}
use mhda.Nss.{prefix_mhda, comp_network_type, comp_chain_id, is_known_component}
use mhda.Parser.Lifecycle.Text.{settle, settle-IsValid, str-settle, filled-ne}
use mhda.Parser.Lifecycle.{Reach, Reach-IsLegit}
use mhda.Parser.RoundTrip.{text-IsGraphic, body_self, prefix_found}
use mhda.Parser.{parse_address_nss, parse_urn}

-- the address with a chain id
abbrev named : Address → Address
named a = record a { chain = record a.chain { chain_id = b'x' ∷ [] } }

-- The parts of an address without a chain id, in the order of its NSS.
nss-blank :
    (a : Address)
    → a.chain.network.value ≢ []
    → a.chain.chain_id ≡ []
    → IsCoin a.chain.coin
    → nss a ≡ blank_text comp_network_type a.chain.network.value comp_chain_id (filled (optional a))
nss-blank a n c k = rw (
  nss-appended a k,
  appended-tail_text (optional a) (identity a),
  c,
  append_assoc a.chain.network.value,
)

-- the components of an address that is valid but for its chain id
rest_components :
    (a : Address)
    → IsValid (named a)
    → a.chain.network.value ≢ []
    → IsComponent (comp_network_type, a.chain.network.value) × All IsComponent (filled (optional a))
rest_components a v n =
    let all = printed-IsComponent (named a) v in
    let all : All IsComponent (
        (comp_network_type, a.chain.network.value)
        ∷ (comp_chain_id, b'x' ∷ [])
        ∷ filled (optional a)) =
      rw (ne-is_empty a.chain.network.value n) at all in
    (all.0, all.1.1)

known-chain_id : is_known_component comp_chain_id ≡ true
unfolding is_known_component elem
known-chain_id = refl

parse_urn-blank :
    (a : Address)
    → IsValid (named a)
    → a.chain.network.value ≢ []
    → a.chain.chain_id ≡ []
    → parse_urn (str a) ≡ throw invalid_nss (codes "empty value for " ++ quote comp_chain_id)
unfolding parse_urn str parse_address_nss
parse_urn-blank a v n c =
    let (first, rest) = rest_components a v n in
    let m = filled (optional a) in
    let spelled = nss-blank a n c v.coin in
    let text : All IsNssText (nss a) = rw spelled (
      blank-IsNssText comp_network_type a.chain.network.value comp_chain_id m first known-chain_id
        rest) in
    rw
      (
        trim_graphic (str a)
            (All-append IsGraphic prefix_mhda (nss a) (ground arith) (text-IsGraphic (nss a) text)),
        prefix_found (nss a),
        drop-append prefix_mhda (nss a),
        body_self (nss a) text,
        spelled,
        parse_nss_map-blank comp_network_type a.chain.network.value comp_chain_id m first
            known-chain_id rest,
      )
      refl

named-IsLegit : (a : Address) → IsLegit a → IsLegit (named a)
unfolding nss_byte
named-IsLegit a v =
    let (nt, _, coin) = v.chain in IsLegit-chain a (named a).chain v (nt, (refl, tt), coin)

-- Whatever calls made an address whose chain has no id, and whether they returned or threw: if
-- `marshal_text` gives a text, `parse_urn` refuses it, for the empty value of "ci".
pub marshal_text-nameless :
    (a : Address) {text : Bytes}
    → Reach a
    → a.chain.chain_id ≡ []
    → marshal_text a ≡ ok text
    → parse_urn text ≡ throw invalid_nss (codes "empty value for " ++ quote comp_chain_id)
unfolding marshal_text check_path_set
marshal_text-nameless a {text} r c h =
    let (set, h) = past_throw_if (NetworkType.empty a.chain.network) _ _ _ h in
    let (whole, h) = past_throw_if (path_missing a.path) _ _ _ h in
    let n = filled-ne a.chain.network.value set in
    let v = settle-IsValid (named a) (named-IsLegit a (Reach-IsLegit r)) n (λ e. cc) whole in
    let same : str (settle a) ≡ text = str-settle a ∙ ok_injective h in
    subst (λ t. parse_urn t ≡ throw invalid_nss (codes "empty value for " ++ quote comp_chain_id))
      same (parse_urn-blank (settle a) v n c)
