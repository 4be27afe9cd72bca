-- ===== src/Address/Setters/Preserve.antt =====
-- src/address.cpp: the setters and the invariant of an address.
use mhda.Address.Components.{IsCoin}
use mhda.Address.Setters.{
  set_coin_type, set_address_algorithm, set_address_format, set_address_prefix, set_address_suffix,
  set_wallet_type, set_wallet_id,
}
use mhda.Address.Setters.Formed.{
  IsFormed, formed, Keeps, Keeps-then, keep_coin, keep_prefix, keep_suffix, keep_wallet_type,
  keep_wallet_id, keep_algorithm, keep_format,
}
use mhda.Address.Valid.{IsValid, IsPathSet, OrUnset}
use mhda.Address.{Address}
use mhda.Base.{◌≡◌, ◌≢◌, true, [], Bytes, All}
use mhda.Chain.{Chain}
use mhda.Names.NetworkType
use mhda.Detail.Ascii.Sets.{IsNssByte}
use mhda.Error.Method.{Method, ◌>>◌}
use mhda.Names.Algorithm
use mhda.Names.Format

-- what holds of the chain of a valid address
abbrev pub IsIdentity : Chain → Type 0
IsIdentity c =
    (NetworkType.is_valid c.network ≡ true)
    × (c.chain_id ≢ [])
    × All IsNssByte c.chain_id
    × IsCoin c.coin

abbrev identity : (a : Address) → IsValid a → IsIdentity a.chain
identity a v = (v.network, v.named, v.chain_bytes, v.coin)

pub IsValid-of :
    (b : Address)
    → IsIdentity b.chain
    → IsPathSet b.path
    → OrUnset b.algorithm.value (Algorithm.is_valid b.algorithm ≡ true)
    → OrUnset b.format.value (Format.is_valid b.format ≡ true)
    → All IsNssByte b.prefix
    → All IsNssByte b.suffix
    → All IsNssByte b.wallet_type
    → All IsNssByte b.wallet_id
    → IsValid b
IsValid-of b (nt, named, bytes, coin) path aa af pre suf wt wi = record {
  network = nt;
  named = named;
  chain_bytes = bytes;
  coin = coin;
  path = path;
  algorithm = aa;
  format = af;
  prefix = pre;
  suffix = suf;
  wallet_type = wt;
  wallet_id = wi;
}

-- Whatever the method does, it leaves a valid address valid.
abbrev pub Preserves : Method Address (Unit {0}) → Type 0
Preserves m = (a : Address) → IsValid a → IsValid (m a).0

IsValid-formed : (a : Address) → IsFormed IsIdentity IsPathSet a → IsValid a
IsValid-formed a v =
    IsValid-of a v.chain v.path v.algorithm v.format v.prefix v.suffix v.wallet_type v.wallet_id

IsFormed-IsValid : (a : Address) → IsValid a → IsFormed IsIdentity IsPathSet a
IsFormed-IsValid a v =
    formed IsIdentity IsPathSet a (identity a v) v.path v.algorithm v.format v.prefix v.suffix
      v.wallet_type v.wallet_id

valid : (m : Method Address (Unit {0})) → Keeps IsIdentity IsPathSet m → Preserves m
valid m k a v = IsValid-formed _ (k a (IsFormed-IsValid a v))

kept : (m : Method Address (Unit {0})) → Preserves m → Keeps IsIdentity IsPathSet m
kept m p a v = IsFormed-IsValid _ (p a (IsValid-formed a v))

pub Preserves-then :
    (m k : Method Address (Unit {0})) → Preserves m → Preserves k → Preserves (m >> k)
Preserves-then m k p q = valid (m >> k) (Keeps-then IsIdentity IsPathSet m k (kept m p) (kept k q))

pub preserve_prefix : (t : Bytes) → Preserves (set_address_prefix t)
preserve_prefix t = valid (set_address_prefix t) (keep_prefix IsIdentity IsPathSet t)

pub preserve_suffix : (t : Bytes) → Preserves (set_address_suffix t)
preserve_suffix t = valid (set_address_suffix t) (keep_suffix IsIdentity IsPathSet t)

pub preserve_wallet_type : (t : Bytes) → Preserves (set_wallet_type t)
preserve_wallet_type t = valid (set_wallet_type t) (keep_wallet_type IsIdentity IsPathSet t)

pub preserve_wallet_id : (t : Bytes) → Preserves (set_wallet_id t)
preserve_wallet_id t = valid (set_wallet_id t) (keep_wallet_id IsIdentity IsPathSet t)

pub preserve_algorithm : (t : Bytes) → Preserves (set_address_algorithm t)
preserve_algorithm t = valid (set_address_algorithm t) (keep_algorithm IsIdentity IsPathSet t)

pub preserve_format : (t : Bytes) → Preserves (set_address_format t)
preserve_format t = valid (set_address_format t) (keep_format IsIdentity IsPathSet t)

pub preserve_coin : (t : Bytes) → Preserves (set_coin_type t)
preserve_coin t =
    valid (set_coin_type t)
      (keep_coin IsIdentity IsPathSet (λ c o h (nt, named, bytes, _). (nt, named, bytes, h)) t)
