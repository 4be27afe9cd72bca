-- ===== src/Tests/Lifecycles.antt =====
-- The theorems on objects under any calls, on order and on acceptance at concrete inputs.
use mathlib.Core.List.{cons-ne-nil}
use mathlib.Core.List.Perm
use mhda.Address.Decimal.{append_uint32, append_uint32_same}
use mhda.Address.Print
use mhda.Address.Print.{marshal_text}
use mhda.Address.Validate.Complete.{validate_iff}
use mhda.Address.Validate.Sound.{IsStrict}
use mhda.Address.Validate.{validate}
use mhda.Address
use mhda.Address.{Address}
use mhda.Address.Setters.Preserve.{IsIdentity}
use mhda.Tests.Addresses.{sample-IsValid}
use mhda.Address.Print.{str}
use mhda.Base.{arith, ◌≡◌, ◌↔◌, ◌⊎◌, refl, true, [], ◌∷◌, ◌++◌, none, Bytes, codes}
use mhda.Chain.Lifecycle as ChainLife
use mhda.Chain.Lifecycle.{from_key-reached}
use mhda.Chain
use mhda.Chain.{from_key, key, clear_coin, from_nss}
use mhda.DerivationPath.Class
use mhda.DerivationPath.Class.{DerivationPath, fresh, hard, soft}
use mhda.DerivationPath.Construct.Accepts.{Accepts, Fits, from_levels_iff}
use mhda.DerivationPath.Construct.Built.{Constructs, construct_iff}
use mhda.DerivationPath.Construct.Fields.{FieldsFit}
use mhda.Names.DerivationType.Cases.{Scheme, name}
use mhda.DerivationPath.Lifecycle as PathLife
use mhda.DerivationPath.Lifecycle.{reached_lem}
use mhda.DerivationPath.Parse.{parse, set_type}
use mhda.DerivationPath.Text
use mhda.Detail.Quote.{quote}
use mhda.Error.{ok, throw, invalid_nss}
use mhda.Parser.Lifecycle.Nameless.{marshal_text-nameless}
use mhda.Names.Algorithm
use mhda.Names.DerivationType
use mhda.Names.Format
use mhda.Names.NetworkType
use mhda.Nss.Filled.{nodup, nodup-Distinct}
use mhda.Nss.Pairs.{spell}
use mhda.Nss.{Components, prefix_mhda}
use mhda.Parser.Lifecycle as Life
use mhda.Parser.Lifecycle.Text.{settle, marshal_text-reached}
use mhda.Parser.Unordered.{parse_nss-perm}
use mhda.Compatibility.Usable.{first_agreed, agrees, format_for, matrix-usable}
use mhda.Compatibility.{network_allows_algorithm, network_allows_format, derivation_allows_format}
use mhda.Parser.Strict.{usual, IsAllowed, parse_urn_strict-usual}
use mhda.Parser.{parse_urn, parse_nss, parse_urn_strict}
use mhda.Tests.Everything.{everything}
use mhda.Tests.Samples.{
  swapped, half_set, sample_urn, sample, sample_chain, sample_levels, sample_path, sample_parses,
}

validate_iff_example : (validate sample ≡ ok tt) ↔ IsStrict sample
validate_iff_example = validate_iff sample

append_uint32_same_example : append_uint32 (codes "ct:") 118 ≡ Text.append_uint32 (codes "ct:") 118
append_uint32_same_example = append_uint32_same (codes "ct:") 118

appended : append_uint32 (codes "ct:") 4294967295 ≡ codes "ct:4294967295"
unfolding everything
appended = refl

from_levels_iff_example :
    Accepts DerivationType.bip44 sample_levels ↔ Fits DerivationType.bip44 sample_levels
from_levels_iff_example = from_levels_iff DerivationType.bip44 sample_levels

-- A path after a parse and a change of its type: what it held is gone.
retyped : PathLife.Reach (set_type DerivationType.bip84 sample_path).0
unfolding everything
retyped =
    PathLife.next
      (PathLife.parsed DerivationType.bip44 (codes "m/44h/060H/00'/0/07") {p = sample_path} refl)
      (PathLife.set_type_called DerivationType.bip84 sample_path)

reached_lem_example :
    (parse DerivationType.bip84 (Class.str (fresh DerivationType.bip84))
      ≡ ok (fresh DerivationType.bip84))
    ⊎ (((codes "bip84" ≡ []) ⊎ (DerivationType.is_valid DerivationType.bip84 ≡ true))
        × (fresh DerivationType.bip84 ≡ fresh DerivationType.bip84)
        × (Class.str (fresh DerivationType.bip84) ≡ []))
unfolding everything
reached_lem_example = reached_lem (fresh DerivationType.bip84) retyped

-- A chain from a full NSS, with its coin type.
chain_reached : ChainLife.Reach sample_chain
unfolding everything
chain_reached = ChainLife.of_nss (codes "nt:EVM:ci:1:ct:60:wi:x") {c = sample_chain} refl

from_key-reached_example : from_key swapped (key sample_chain) ≡ ok (clear_coin sample_chain)
from_key-reached_example =
    from_key-reached swapped sample_chain chain_reached (cons-ne-nil _ _) (cons-ne-nil _ _)

-- An address whose path was removed after the parse, and to which a wallet id was given.
abbrev walleted : Address
walleted = record sample { path = none; wallet_id = codes "x" }

walleted_reached : Life.Reach walleted
unfolding everything
walleted_reached =
    Life.next
      (Life.next (Life.of_urn sample_urn {a = sample} sample_parses) (Life.path_reset sample))
      (Life.wallet_id_set (codes " x ") (record sample { path = none }))

abbrev walleted_text : Bytes
walleted_text = codes "urn:mhda:nt:evm:ci:1:ct:60:af:hex:wi:x"

marshal_text-reached_example :
    (parse_urn walleted_text ≡ ok (settle walleted)) × (Print.str (settle walleted) ≡ walleted_text)
unfolding everything
marshal_text-reached_example =
    marshal_text-reached walleted {text = walleted_text} walleted_reached (cons-ne-nil _ _) refl

-- the same components in two orders
abbrev forward : Components
forward = (codes "nt", codes "ton") ∷ (codes "ci", codes "1") ∷ []

abbrev backward : Components
backward = (codes "ci", codes "1") ∷ (codes "nt", codes "ton") ∷ []

parse_nss-perm_example :
    (parse_nss (spell forward) ≡ parse_nss (spell backward))
    × (parse_urn (prefix_mhda ++ spell forward) ≡ parse_urn (prefix_mhda ++ spell backward))
    × (from_nss (spell forward) ≡ from_nss (spell backward))
unfolding everything nodup
parse_nss-perm_example =
    parse_nss-perm forward backward
      (
        (refl, cons-ne-nil _ _, (refl, (refl, (refl, tt)))),
        ((refl, cons-ne-nil _ _, (refl, tt)), tt),
      )
      (nodup-Distinct forward refl) (Perm.swap _ _ _)

construct_iff_example :
    Constructs 60 0 0 (soft 7) DerivationType.bip44
    ↔ ((s : Scheme) × (DerivationType.bip44 ≡ name s) × FieldsFit 60 0 0 (soft 7) s)
construct_iff_example = construct_iff 60 0 0 (soft 7) DerivationType.bip44

matrix-usable_example :
    (NetworkType.is_valid NetworkType.sui ≡ true)
    × (DerivationType.is_valid DerivationType.bip54 ≡ true)
    × (Algorithm.is_valid Algorithm.secp256k1 ≡ true)
    × (network_allows_algorithm NetworkType.sui Algorithm.secp256k1 ≡ true)
    × (Format.is_valid Format.hex ≡ true)
    × (network_allows_format NetworkType.sui Format.hex ≡ true)
    × (derivation_allows_format NetworkType.sui DerivationType.bip54 Format.hex ≡ true)
unfolding everything first_agreed agrees format_for
matrix-usable_example = matrix-usable NetworkType.sui DerivationType.bip54 refl

sample_chain_identity : IsIdentity sample_chain
unfolding everything
sample_chain_identity = (refl, cons-ne-nil _ _, (refl, tt), omega arith)

parse_urn_strict-usual_example :
    (parse_urn_strict (str (usual sample_chain sample_path)) ≡ ok (usual sample_chain sample_path))
    ↔ IsAllowed sample_chain.network sample_path
unfolding everything
parse_urn_strict-usual_example =
    parse_urn_strict-usual sample_chain sample_path sample_chain_identity sample-IsValid.path refl

half_set_reached : Life.Reach half_set
unfolding everything
half_set_reached = Life.next Life.default_made (
    Life.chain_called Address.default
      (ChainLife.set_network_called NetworkType.ethereum_vm Chain.default))

marshal_text-nameless_example :
    parse_urn (codes "urn:mhda:nt:evm:ci:")
    ≡ throw invalid_nss (codes "empty value for " ++ quote (codes "ci"))
unfolding everything
marshal_text-nameless_example =
    marshal_text-nameless half_set {text = codes "urn:mhda:nt:evm:ci:"} half_set_reached refl refl
