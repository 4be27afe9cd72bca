-- ===== src/DerivationPath/Class.antt =====
-- The state of the class `derivation_path` (include/mhda/derivation_path.hpp), and from
-- src/derivation_path.cpp its `fixed_prefix`, `rebuild_levels` and `str`.
use mhda.Base.{
  ℕ, Bool, true, false, not, ◌||◌, List, [], ◌∷◌, ◌++◌, Option, none, some, Bytes, codes,
  if◌then◌else◌, is_empty,
}
use mhda.DerivationPath.Text.{AddressIndex, append_uint32, append_marker, format_levels}
use mhda.Names.DerivationType
use mhda.Names.DerivationType.{DerivationType}

pub record DerivationPath : Type 0 where
  pub type : DerivationType
  pub coin : ℕ
  pub account : ℕ
  pub charge : ℕ
  pub index : AddressIndex
  pub has_index : Bool
  pub levels : List AddressIndex

-- the change level of BIP-32 and the BIP-44 family
abbrev pub charge_external : ℕ
charge_external = 0

abbrev pub charge_internal : ℕ
charge_internal = 1

abbrev pub is_hardened_address : DerivationPath → Bool
is_hardened_address p = p.index.is_hardened

abbrev pub no_index : AddressIndex
no_index = record { index = 0; is_hardened = false }

-- `derivation_path fresh;` with its type set
abbrev pub fresh : DerivationType → DerivationPath
fresh dt = record {
  type = dt;
  coin = 0;
  account = 0;
  charge = 0;
  index = no_index;
  has_index = false;
  levels = [];
}

unfoldable pub is_type : DerivationPath → DerivationType → Bool
unfolding DerivationType.eq
is_type p dt = DerivationType.eq p.type dt

-- the six types of the BIP-44 layout
unfoldable pub is_bip44_family : DerivationPath → Bool
unfolding is_type
is_bip44_family p =
    is_type p DerivationType.bip44
    || is_type p DerivationType.bip49
    || is_type p DerivationType.bip54
    || is_type p DerivationType.bip74
    || is_type p DerivationType.bip84
    || is_type p DerivationType.bip86

unfoldable pub fixed_prefix : DerivationPath → Option (ℕ × ℕ)
fixed_prefix p =
    if is_type p DerivationType.bip44
    then some (44, p.coin)
    else if is_type p DerivationType.bip49
    then some (49, p.coin)
    else if is_type p DerivationType.bip54
    then some (54, p.coin)
    else if is_type p DerivationType.bip74
    then some (74, p.coin)
    else if is_type p DerivationType.bip84
    then some (84, p.coin)
    else if is_type p DerivationType.bip86
    then some (86, p.coin)
    else if is_type p DerivationType.cip11
    then some (44, 118)
    else if is_type p DerivationType.cip1852
    then some (1852, 1815)
    else if is_type p DerivationType.zip32
    then some (32, 133)
    else none

abbrev pub hard : ℕ → AddressIndex
hard n = record { index = n; is_hardened = true }

abbrev pub soft : ℕ → AddressIndex
soft n = record { index = n; is_hardened = false }

unfoldable pub rebuild_from : DerivationPath → Option (ℕ × ℕ) → DerivationPath
rebuild_from p none = p
rebuild_from p (some (purpose, coin)) =
    let front = hard purpose ∷ hard coin ∷ hard p.account ∷ [] in
    if is_type p DerivationType.zip32
    then record p { levels = if p.has_index then front ++ p.index ∷ [] else front }
    else record p { levels = front ++ soft p.charge ∷ p.index ∷ [] }

unfoldable pub rebuild_levels : DerivationPath → DerivationPath
rebuild_levels p =
    if is_type p DerivationType.root
    then record p { levels = [] }
    else if is_type p DerivationType.slip10
    then p
    else if is_type p DerivationType.bip32
    then record p { levels = hard p.account ∷ soft p.charge ∷ p.index ∷ [] }
    else rebuild_from p (fixed_prefix p)

-- `append_uint32(out, index_.index); if (index_.is_hardened) out += '\'';`
unfoldable pub append_index : Bytes → AddressIndex → Bytes
append_index out i = append_marker (append_uint32 out i.index) i.is_hardened

-- the end of `str`, with the result of `fixed_prefix`
unfoldable pub str_from : DerivationPath → Option (ℕ × ℕ) → Bytes
str_from p none = []
str_from p (some (purpose, coin)) =
    let front = append_uint32 (append_uint32 (codes "m/") purpose ++ codes "'/") coin in
    let front = append_uint32 (front ++ codes "'/") p.account in
    if is_type p DerivationType.zip32
    then if not p.has_index
      then front ++ b'\'' ∷ []
      else append_index ((front ++ b'\'' ∷ []) ++ b'/' ∷ []) p.index
    else append_index (append_uint32 (front ++ codes "'/") p.charge ++ b'/' ∷ []) p.index

unfoldable pub str : DerivationPath → Bytes
str p =
    if is_empty p.levels
    then []
    else if is_type p DerivationType.slip10
    then format_levels p.levels
    else if is_type p DerivationType.bip32
    then append_index
        (append_uint32 (append_uint32 (codes "m/") p.account ++ codes "'/") p.charge ++ b'/' ∷ [])
        p.index
    else str_from p (fixed_prefix p)
