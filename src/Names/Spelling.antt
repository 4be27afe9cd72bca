-- ===== src/Names/Spelling.antt =====
-- The `*_from_string` functions of the four classes: which spellings of a name are read.
use mhda.Base.{
  ◌≡◌, ◌↔◌, refl, sym, ◌∙◌, arith, true, false, List, [], ◌∷◌, Option, none, some, Bytes, All,
  AnyEq, AnyEq-elem, elem-AnyEq, elem, Bool-cases, inl, inr, ◌⊎◌, some_injective, if◌then◌else◌,
}
use mhda.Detail.Ascii.Sets.{IsLowerNss}
use mhda.Detail.Ascii.{ascii_lower, to_lower, trim, normalize, equal_ascii_fold, equal_bytes_fold}
use mhda.Error.{ok, err}
use mhda.Names.Algorithm
use mhda.Names.DerivationType
use mhda.Names.Format
use mhda.Names.Lower.{
  algorithm-IsLowerName, format-IsLowerName, network-IsLowerName, type-IsLowerName,
}
use mhda.Names.NetworkType

-- the four indexes
pub data Registry : Type 0 where
  algorithm format network derivation : Registry

abbrev pub names : Registry → List Bytes
names algorithm = Algorithm.algo_index
names format = Format.format_index
names network = NetworkType.nt_index
names derivation = DerivationType.dt_index

-- the text of the name that `*_from_string` returns
abbrev pub read : Registry → Bytes → Option Bytes
read algorithm s = elim (Algorithm.algorithm_from_string s) [ some a ↦ some a.value | none ↦ none ]
read format s = elim (Format.format_from_string s) [ some a ↦ some a.value | none ↦ none ]
read network s = elim (NetworkType.network_type_from_string s) [
  | some a ↦ some a.value
  | none ↦ none
]
read derivation s = elim (DerivationType.derivation_type_from_string s) [
  | ok a ↦ some a.value
  | err e ↦ none
]

registered_lower : (r : Registry) (v : Bytes) → AnyEq v (names r) → All IsLowerNss v
unfolding Algorithm.is_valid Format.is_valid NetworkType.is_valid DerivationType.is_valid
registered_lower algorithm v h =
    (algorithm-IsLowerName (record { value = v }) (AnyEq-elem v Algorithm.algo_index h)).1
registered_lower format v h =
    (format-IsLowerName (record { value = v }) (AnyEq-elem v Format.format_index h)).1
registered_lower network v h =
    (network-IsLowerName (record { value = v }) (AnyEq-elem v NetworkType.nt_index h)).1
registered_lower derivation v h =
    (type-IsLowerName (record { value = v }) (AnyEq-elem v DerivationType.dt_index h)).1

read_lem :
    (r : Registry) (s : Bytes)
    → read r s ≡ (if elem (normalize s) (names r) then some (normalize s) else none)
unfolding Algorithm.algorithm_from_string Format.format_from_string
    NetworkType.network_type_from_string DerivationType.derivation_type_from_string
read_lem algorithm s = ground arith
read_lem format s = ground arith
read_lem network s = ground arith
read_lem derivation s = ground arith

-- Lower-case bytes are what any casing of them is lowered to.
to_lower-fold : (s v : Bytes) → All IsLowerNss v → (to_lower s ≡ v) ↔ (equal_ascii_fold s v ≡ true)
unfolding to_lower ascii_lower equal_ascii_fold equal_bytes_fold
to_lower-fold [] [] h = (λ e. refl, λ e. refl)
to_lower-fold [] (y ∷ v) h = ground arith
to_lower-fold (x ∷ s) [] h = ground arith
to_lower-fold (x ∷ s) (y ∷ v) ((_, low), h) = ground (arith, to_lower-fold s v h)

found :
    (r : Registry) (s v : Bytes)
    → (if elem (normalize s) (names r) then some (normalize s) else none) ≡ some v
    → (elem (normalize s) (names r) ≡ true) ⊎ (elem (normalize s) (names r) ≡ false)
    → AnyEq v (names r) × (equal_ascii_fold (trim s) v ≡ true)
unfolding normalize
found r s v h (inl e) =
    let same : normalize s ≡ v = some_injective (rw e at h) in
    let m : AnyEq v (names r) = rw same at (elem-AnyEq (normalize s) (names r) e) in
    (m, (to_lower-fold (trim s) v (registered_lower r v m)).0 same)
found r s v h (inr e) = absurd (cc (rw e at h))

-- A *_from_string function reads a text as a registered name exactly if the text, without the
-- whitespace around it, is this name up to ASCII case; it reads no other.
pub from_string_iff :
    (r : Registry) (s v : Bytes)
    → (read r s ≡ some v) ↔ (AnyEq v (names r) × (equal_ascii_fold (trim s) v ≡ true))
unfolding normalize
from_string_iff r s v = (
  λ h. found r s v (sym (read_lem r s) ∙ h) (Bool-cases (elem (normalize s) (names r))),
  λ (m, f).
      let e : normalize s ≡ v = (to_lower-fold (trim s) v (registered_lower r v m)).1 f in
      read_lem r s ∙ rw (e, AnyEq-elem v (names r) m),
)
