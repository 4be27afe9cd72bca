-- ===== src/Address/Components.antt =====
-- src/address.cpp: `nss` against the list of components that it prints.
use mhda.Address.Print.{has_derivation, append_coin, append_part, append_derivation, nss}
use mhda.Address.{Address}
use mhda.Base.{
  ℕ, ◌≡◌, ◌≢◌, sym, ap, true, false, [], ◌∷◌, ◌++◌, append-nil, append_assoc, some, none, Option,
  Bytes, arith, is_empty, codes, if◌then◌else◌, Bool-cases, inl, inr,
}
use mhda.DerivationPath.Class
use mhda.DerivationPath.Class.{DerivationPath, is_type}
use mhda.Address.Decimal.{append_uint32_same}
use mhda.DerivationPath.Text
use mhda.DerivationPath.Text.{decimal}
use mhda.DerivationPath.Text.Decimal.{IsUint32, decimal-exactly}
use mhda.Nss.Filled.{filled, piece, tail_text, tail_text-filled_cons}
use mhda.Nss.Pairs.{spell, ne-is_empty}
use mhda.Nss.{
  Components, comp_network_type, comp_chain_id, comp_coin_type, comp_derivation_type,
  comp_derivation_path, comp_address_algorithm, comp_address_format, comp_address_prefix,
  comp_address_suffix, comp_wallet_type, comp_wallet_id,
}

unfoldable pub coin_text : Option ℕ → Bytes
coin_text none = []
coin_text (some ct) = decimal ct

unfoldable pub type_part : Option DerivationPath → Bytes
type_part none = []
type_part (some p) = if has_derivation p then p.type.value else []

unfoldable pub path_part : Option DerivationPath → Bytes
path_part none = []
path_part (some p) = if has_derivation p then Class.str p else []

-- the optional components, in the order of the NSS, with an empty value for an absent one
abbrev pub optional : Address → Components
optional a =
    (comp_coin_type, coin_text a.chain.coin)
    ∷ (comp_derivation_type, type_part a.path)
    ∷ (comp_derivation_path, path_part a.path)
    ∷ (comp_address_algorithm, a.algorithm.value)
    ∷ (comp_address_format, a.format.value)
    ∷ (comp_address_prefix, a.prefix)
    ∷ (comp_address_suffix, a.suffix)
    ∷ (comp_wallet_type, a.wallet_type)
    ∷ (comp_wallet_id, a.wallet_id)
    ∷ []

abbrev pub all_components : Address → Components
all_components a =
    (comp_network_type, a.chain.network.value) ∷ (comp_chain_id, a.chain.chain_id) ∷ optional a

append_part-piece :
    (k v out : Bytes) → append_part (b':' ∷ (k ++ b':' ∷ [])) v out ≡ out ++ piece k v
unfolding append_part
append_part-piece k [] out = sym (append-nil out)
append_part-piece k (c ∷ v) out = ap (λ t. out ++ b':' ∷ t) (append_assoc k (b':' ∷ []) (c ∷ v))

abbrev pub IsCoin : Option ℕ → Type 0
IsCoin none = Unit
IsCoin (some ct) = IsUint32 ct

append_coin-piece :
    (coin : Option ℕ) (out : Bytes)
    → IsCoin coin
    → append_coin out coin ≡ out ++ piece comp_coin_type (coin_text coin)
unfolding append_coin coin_text Text.append_uint32
append_coin-piece none out h = sym (append-nil out)
append_coin-piece (some ct) out h =
    let (_, ne) = decimal-exactly ct h in
    rw (append_uint32_same, ne-is_empty (decimal ct) ne, append_assoc)

type-not_empty : (p : DerivationPath) → has_derivation p ≡ true → is_empty p.type.value ≡ false
unfolding has_derivation
type-not_empty p h = ground arith

append_derivation-piece :
    (path : Option DerivationPath) (out : Bytes)
    → append_derivation out path
      ≡ (out ++ piece comp_derivation_type (type_part path))
        ++ piece comp_derivation_path (path_part path)
unfolding append_derivation type_part path_part
append_derivation-piece none out = rw (append-nil, append-nil)
append_derivation-piece (some p) out = elim (Bool-cases (has_derivation p)) [
  | inl e ↦
      rw (e, type-not_empty p e)
        (append_part-piece comp_derivation_path (Class.str p)
          (out ++ (codes ":dt:" ++ p.type.value)))
  | inr e ↦ rw (e, append-nil, append-nil)
]

-- the pieces of the components, each behind what stands there
abbrev pub appended : Bytes → Components → Bytes
appended out [] = out
appended out ((k, v) ∷ m) = appended (out ++ piece k v) m

pub appended-tail_text :
    (m : Components) (out : Bytes) → appended out m ≡ out ++ tail_text (filled m)
appended-tail_text [] out = sym (append-nil out)
appended-tail_text ((k, v) ∷ m) out =
    rw (appended-tail_text m (out ++ piece k v), append_assoc, tail_text-filled_cons k v m)

-- what stands in front of the optional components
abbrev pub identity : Address → Bytes
identity a = codes "nt:" ++ (a.chain.network.value ++ (codes ":ci:" ++ a.chain.chain_id))

pub nss-appended : (a : Address) → IsCoin a.chain.coin → nss a ≡ appended (identity a) (optional a)
unfolding nss
nss-appended a k = rw (
  append_coin-piece a.chain.coin (identity a) k,
  append_derivation-piece,
  append_part-piece comp_address_algorithm,
  append_part-piece comp_address_format,
  append_part-piece comp_address_prefix,
  append_part-piece comp_address_suffix,
  append_part-piece comp_wallet_type,
  append_part-piece comp_wallet_id,
)

-- The NSS of an address that has a network and a chain id spells the components that are set.
pub nss-spell :
    (a : Address)
    → a.chain.network.value ≢ []
    → a.chain.chain_id ≢ []
    → IsCoin a.chain.coin
    → nss a ≡ spell (filled (all_components a))
nss-spell a n c k = rw (
  nss-appended a k,
  appended-tail_text (optional a) (identity a),
  ne-is_empty a.chain.network.value n,
  ne-is_empty a.chain.chain_id c,
  append_assoc a.chain.network.value,
)
