-- ===== src/Address/Print.antt =====
-- The texts of src/address.cpp: `nss`, `str` and `marshal_text`.
use mhda.Address.{Address}
use mhda.Base.{
  ℕ, Bool, not, ◌&&◌, ◌++◌, Option, none, some, Bytes, codes, if◌then◌else◌, is_empty, false, [],
}
use mhda.DerivationPath.Class
use mhda.DerivationPath.Class.{DerivationPath, is_type}
use mhda.Address.Decimal.{append_uint32}
use mhda.Error.{Result, ok, throw_if, ◌>>◌, uninitialized_address, invalid_derivation_path}
use mhda.Names.DerivationType
use mhda.Names.NetworkType

-- `path_ && !path_->type().empty() && path_->type() != derivation_type::root`
unfoldable pub has_derivation : DerivationPath → Bool
has_derivation p = not (DerivationType.empty p.type) && not (is_type p DerivationType.root)

unfoldable pub append_coin : Bytes → Option ℕ → Bytes
append_coin out none = out
append_coin out (some ct) = append_uint32 (out ++ codes ":ct:") ct

-- `if (!v.empty()) { out += tag; out += v; }`
unfoldable pub append_part : Bytes → Bytes → Bytes → Bytes
append_part tag v out = if is_empty v then out else out ++ (tag ++ v)

unfoldable pub append_derivation : Bytes → Option DerivationPath → Bytes
append_derivation out none = out
append_derivation out (some p) =
    if has_derivation p
    then append_part (codes ":dp:") (Class.str p) (out ++ (codes ":dt:" ++ p.type.value))
    else out

unfoldable pub nss : Address → Bytes
nss a =
    let out = codes "nt:" ++ (a.chain.network.value ++ (codes ":ci:" ++ a.chain.chain_id)) in
    let out = append_derivation (append_coin out a.chain.coin) a.path in
    let out = append_part (codes ":aa:") a.algorithm.value out in
    let out = append_part (codes ":af:") a.format.value out in
    let out = append_part (codes ":ap:") a.prefix out in
    let out = append_part (codes ":as:") a.suffix out in
    append_part (codes ":wi:") a.wallet_id (append_part (codes ":wt:") a.wallet_type out)

unfoldable pub str : Address → Bytes
str a = codes "urn:mhda:" ++ nss a

-- Is a derivation type set without a path?
unfoldable pub path_missing : Option DerivationPath → Bool
path_missing none = false
path_missing (some p) = has_derivation p && is_empty p.levels

unfoldable pub type_text : Option DerivationPath → Bytes
type_text none = []
type_text (some p) = p.type.value

unfoldable pub check_path_set : Address → Result (Unit {0})
check_path_set a =
    throw_if (path_missing a.path) invalid_derivation_path
      (codes "derivation type \"" ++ (type_text a.path ++ codes "\" is set without a path"))

unfoldable pub marshal_text : Address → Result Bytes
marshal_text a = do
  throw_if (NetworkType.empty a.chain.network) uninitialized_address []
  check_path_set a
  ok (str a)
