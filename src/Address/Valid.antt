-- ===== src/Address/Valid.antt =====
-- The invariant of the class `address` (src/address.cpp), and the components that an address prints
-- under it.
use mhda.Address.Components.{IsCoin, coin_text, type_part, path_part, all_components}
use mhda.Address.Print.{has_derivation}
use mhda.Address.{Address}
use mhda.Base.{
  ℕ, ◌≡◌, ◌≢◌, ◌⊎◌, inl, inr, refl, true, false, Bool, List, [], ◌∷◌, Option, none, some, Bytes,
  All, All-append, All-imp, arith, map, elem, if◌then◌else◌,
}
use mhda.DerivationPath.Class
use mhda.DerivationPath.Class.{DerivationPath}
use mhda.DerivationPath.Levels.Print.{segment_text, marker, format_levels-tailed}
use mhda.DerivationPath.Parse.RoundTrip.{IsCanonical}
use mhda.DerivationPath.Text.Decimal.{IsDecimal, decimal-IsDecimal}
use mhda.DerivationPath.Text.{AddressIndex, decimal, format_levels}
use mhda.Detail.Ascii.Sets.{IsNssByte, IsLowerNss}
use mhda.Detail.Ascii.Split.{tailed}
use mhda.Detail.Ascii.{nss_byte}
use mhda.Names.Algorithm
use mhda.Names.DerivationType
use mhda.Names.Format
use mhda.Names.Lower.{
  IsLowerName, network-IsLowerName, algorithm-IsLowerName, format-IsLowerName, type-IsLowerName,
}
use mhda.Names.NetworkType
use mhda.Names.DerivationType.Cases.{name-is_valid}
use mhda.Nss.Filled.{filled, nodup, nodup-Distinct}
use mhda.Nss.Pairs.{IsComponent, Distinct}
use mhda.Nss.{Components, is_known_component}

-- a set name is registered
abbrev pub OrUnset : Bytes → Type 0 → Type 0
OrUnset v T = (v ≡ []) ⊎ T

-- The path is set, and it is one that the path parser returns.
abbrev pub IsPathSet : Option DerivationPath → Type 0
IsPathSet none = ⊥
IsPathSet (some p) = IsCanonical p

pub record IsValid (a : Address) : Type 0 where
  pub network : NetworkType.is_valid a.chain.network ≡ true
  pub named : a.chain.chain_id ≢ []
  pub chain_bytes : All IsNssByte a.chain.chain_id
  pub coin : IsCoin a.chain.coin
  pub path : IsPathSet a.path
  pub algorithm : OrUnset a.algorithm.value (Algorithm.is_valid a.algorithm ≡ true)
  pub format : OrUnset a.format.value (Format.is_valid a.format ≡ true)
  pub prefix : All IsNssByte a.prefix
  pub suffix : All IsNssByte a.suffix
  pub wallet_type : All IsNssByte a.wallet_type
  pub wallet_id : All IsNssByte a.wallet_id

lower_nss : (s : Bytes) → All IsLowerNss s → All IsNssByte s
lower_nss s h = All-imp IsLowerNss IsNssByte (λ c p. p.0) s h

digit_lower : (c : ℕ) → IsDecimal c → IsLowerNss c
unfolding nss_byte
digit_lower c h = (ground arith, inl (omega arith))

pub decimal-lower : (v : ℕ) → All IsLowerNss (decimal v)
decimal-lower v = All-imp IsDecimal IsLowerNss digit_lower (decimal v) (decimal-IsDecimal v)

marker-lower : (h : Bool) → All IsLowerNss (marker h)
unfolding nss_byte
marker-lower true = ((refl, inl (omega arith)), tt)
marker-lower false = tt

tailed-lower : (ls : List AddressIndex) → All IsLowerNss (tailed b'/' (map segment_text ls))
unfolding nss_byte
tailed-lower [] = tt
tailed-lower (l ∷ ls) = (
  (refl, inl (omega arith)),
  All-append IsLowerNss (segment_text l) _
      (All-append IsLowerNss (decimal l.index) (marker l.is_hardened) (decimal-lower l.index)
        (marker-lower l.is_hardened))
      (tailed-lower ls),
)

format_levels-lower : (ls : List AddressIndex) → All IsLowerNss (format_levels ls)
unfolding nss_byte
format_levels-lower ls = rw (format_levels-tailed ls) ((refl, inr (omega arith)), tailed-lower ls)

pub str-no_levels : (p : DerivationPath) → p.levels ≡ [] → Class.str p ≡ []
unfolding Class.str
str-no_levels p h = rw h

-- The text of a canonical path is lower-case.
pub str-lower : (p : DerivationPath) → IsCanonical p → All IsLowerNss (Class.str p)
str-lower p c = elim c.text [
  | inl bare ↦ rw (str-no_levels p bare) tt
  | inr text ↦ rw text (format_levels-lower p.levels)
]

-- The type of a canonical path is registered.
pub type-is_valid : (p : DerivationPath) → IsCanonical p → DerivationType.is_valid p.type ≡ true
type-is_valid p c = rw c.type_is (name-is_valid c.scheme)

when_set : (b : Bool) (v : Bytes) → All IsNssByte v → All IsNssByte (if b then v else [])
when_set true v h = h
when_set false v h = tt

coin_text-bytes : (coin : Option ℕ) → All IsNssByte (coin_text coin)
unfolding coin_text
coin_text-bytes none = tt
coin_text-bytes (some ct) = lower_nss (decimal ct) (decimal-lower ct)

type_part-bytes : (path : Option DerivationPath) → IsPathSet path → All IsNssByte (type_part path)
unfolding type_part
type_part-bytes none h = absurd h
type_part-bytes (some p) h =
    when_set (has_derivation p) p.type.value
      (lower_nss p.type.value (type-IsLowerName p.type (type-is_valid p h)).1)

path_part-bytes : (path : Option DerivationPath) → IsPathSet path → All IsNssByte (path_part path)
unfolding path_part
path_part-bytes none h = absurd h
path_part-bytes (some p) h =
    when_set (has_derivation p) (Class.str p) (lower_nss (Class.str p) (str-lower p h))

or_unset-bytes : {T : Type 0} (v : Bytes) → (T → IsLowerName v) → OrUnset v T → All IsNssByte v
or_unset-bytes v f (inl e) = rw e tt
or_unset-bytes v f (inr h) = lower_nss v (f h).1

-- a component whose value may be empty
abbrev IsSlot : Bytes × Bytes → Type 0
IsSlot (k, v) = (is_known_component k ≡ true) × All IsNssByte v

filled-IsComponent : (m : Components) → All IsSlot m → All IsComponent (filled m)
filled-IsComponent [] h = tt
filled-IsComponent ((k, []) ∷ m) (_, h) = filled-IsComponent m h
filled-IsComponent ((k, c ∷ v) ∷ m) ((known, bytes), h) =
    ((known, (λ e. cc), bytes), filled-IsComponent m h)

slots : (a : Address) → IsValid a → All IsSlot (all_components a)
unfolding is_known_component
slots a v = (
  (refl, lower_nss a.chain.network.value (network-IsLowerName a.chain.network v.network).1),
  (
    (refl, v.chain_bytes),
    (
      (refl, coin_text-bytes a.chain.coin),
      (
        (refl, type_part-bytes a.path v.path),
        (
          (refl, path_part-bytes a.path v.path),
          (
            (
              refl,
              or_unset-bytes a.algorithm.value (algorithm-IsLowerName a.algorithm) v.algorithm,
            ),
            (
              (refl, or_unset-bytes a.format.value (format-IsLowerName a.format) v.format),
              (
                (refl, v.prefix),
                ((refl, v.suffix), ((refl, v.wallet_type), ((refl, v.wallet_id), tt))),
              ),
            ),
          ),
        ),
      ),
    ),
  ),
)

-- What a valid address prints are components that an NSS may hold, all different.
pub printed-IsComponent : (a : Address) → IsValid a → All IsComponent (filled (all_components a))
printed-IsComponent a v = filled-IsComponent (all_components a) (slots a v)

pub all-Distinct : (a : Address) → Distinct (all_components a)
unfolding nodup elem
all-Distinct a = nodup-Distinct (all_components a) refl
