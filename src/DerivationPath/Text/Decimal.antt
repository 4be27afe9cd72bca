-- ===== src/DerivationPath/Text/Decimal.antt =====
-- src/derivation_path.cpp and src/address.cpp: `append_uint32`, its digits, and the number parsers of
-- src/detail.cpp on them.
use mathlib.Core.List.{cons-ne-nil}
use mhda.Base.{
  ℕ, zero, suc, ◌+◌, ◌*◌, ◌/◌, ◌%◌, ◌≤◌, ◌<◌, ◌^◌, ◌≡◌, ◌≢◌, ◌⊎◌, inl, inr, refl, [], ◌∷◌, some,
  Bytes, ◌==◌, All, arith, length, true, All-imp, sym, Bool-cases, ltb,
}
use mhda.DerivationPath.Levels.{spelled_exactly}
use mhda.DerivationPath.Text.{decimal_digits, decimal, buffer_size}
use mhda.Detail.Number.Value.{spelled, weight, IsDigit, parse_uint31_dec_iff, parse_uint32_iff}
use mhda.Detail.Number.{numeral, parse_uint31_dec, parse_uint32}

-- the largest number of so many digits
abbrev pub largest : ℕ → ℕ
largest zero = 0
largest (suc room) = 10 * largest room + 9

digit_back : (v : ℕ) → v / 10 * 10 + weight (b'0' + v % 10) ≡ v
digit_back v = ground arith

spelled-decimal_digits :
    (room v : ℕ) (out : Bytes)
    → v ≤ largest room
    → spelled 10 0 (decimal_digits room v out) ≡ spelled 10 v out
unfolding decimal_digits
spelled-decimal_digits zero v out h = let e : v ≡ 0 = omega arith in rw e
spelled-decimal_digits (suc room) v out h = elim (Bool-cases (v == 0)) [
  | inl e ↦ let e' : v ≡ 0 = ground arith in rw e' refl
  | inr e ↦
      rw (e, spelled-decimal_digits room (v / 10) ((b'0' + v % 10) ∷ out) (omega arith))
        (unfold spelled in rw (digit_back v))
]

-- what a digit of the print is
abbrev pub IsDecimal : ℕ → Type 0
IsDecimal c = (b'0' ≤ c) × (c ≤ b'9')

decimal_digits-IsDecimal :
    (room v : ℕ) (out : Bytes) → All IsDecimal out → All IsDecimal (decimal_digits room v out)
unfolding decimal_digits
decimal_digits-IsDecimal zero v out h = h
decimal_digits-IsDecimal (suc room) v out h =
    ground (arith, decimal_digits-IsDecimal room (v / 10) ((b'0' + v % 10) ∷ out))

leading :
    (v : ℕ) (out : Bytes)
    → 0 < v
    → (0 < v / 10) ⊎ (spelled_exactly ((b'0' + v % 10) ∷ out) ≡ true) × ((b'0' + v % 10) ∷ out ≢ [])
unfolding spelled_exactly
leading v out h = elim (Bool-cases (ltb 0 (v / 10))) [
  | inl more ↦ inl (ground arith)
  | inr last ↦ inr (ground arith, cons-ne-nil _ _)
]

-- Only the last round leaves its digit in front, and that digit is not 0.
decimal_digits-exactly :
    (room v : ℕ) (out : Bytes)
    → v ≤ largest room
    → (0 < v) ⊎ (spelled_exactly out ≡ true) × (out ≢ [])
    → (spelled_exactly (decimal_digits room v out) ≡ true) × (decimal_digits room v out ≢ [])
unfolding decimal_digits
decimal_digits-exactly zero v out l (inl h) = absurd (omega arith)
decimal_digits-exactly zero v out l (inr h) = h
decimal_digits-exactly (suc room) v out l h = elim (Bool-cases (v == 0)) [
  | inl e ↦ rw e (elim h [ inl pos ↦ absurd (ground arith) | inr done ↦ done ])
  | inr e ↦ rw e (
      decimal_digits-exactly room (v / 10) ((b'0' + v % 10) ∷ out) (omega arith)
        (leading v out (ground arith)))
]

pub length-decimal_digits :
    (room v : ℕ) (out : Bytes) → length (decimal_digits room v out) ≤ room + length out
unfolding decimal_digits
length-decimal_digits zero v out = omega arith
length-decimal_digits (suc room) v out =
    ground (arith, length-decimal_digits room (v / 10) ((b'0' + v % 10) ∷ out))

abbrev pub IsUint32 : ℕ → Type 0
IsUint32 v = v < 2 ^ 32

pub spelled-decimal : (v : ℕ) → IsUint32 v → spelled 10 0 (decimal v) ≡ v
unfolding decimal spelled
spelled-decimal v h = ground (arith, spelled-decimal_digits buffer_size v [] (omega arith))

pub decimal-IsDecimal : (v : ℕ) → All IsDecimal (decimal v)
unfolding decimal
decimal-IsDecimal v = ground (arith, decimal_digits-IsDecimal buffer_size v [] tt)

pub decimal-exactly : (v : ℕ) → IsUint32 v → (spelled_exactly (decimal v) ≡ true) × (decimal v ≢ [])
unfolding decimal
decimal-exactly v h = elim (Bool-cases (v == 0)) [
  | inl e ↦ rw e (unfold spelled_exactly in (refl, cons-ne-nil _ _))
  | inr e ↦ rw e (decimal_digits-exactly buffer_size v [] (omega arith) (inl (ground arith)))
]

digits_of : (s : Bytes) → All IsDecimal s → All (IsDigit 10) s
digits_of s h = All-imp IsDecimal (IsDigit 10) (λ c d. inl d) s h

-- The level parser reads back the print of every index below 2^31.
pub parse_uint31_dec-decimal : (v : ℕ) → v < 2 ^ 31 → parse_uint31_dec (decimal v) ≡ some v
parse_uint31_dec-decimal v h = (parse_uint31_dec_iff (decimal v) v).1 (
  (decimal-exactly v (omega arith)).1,
  digits_of _ (decimal-IsDecimal v),
  sym (spelled-decimal v (omega arith)),
  h,
)

numeral-IsDecimal : (s : Bytes) → All IsDecimal s → numeral s ≡ (10, s)
unfolding numeral
numeral-IsDecimal [] h = refl
numeral-IsDecimal (z ∷ []) h = refl
numeral-IsDecimal (z ∷ x ∷ s) (hz, (hx, h)) = ground arith

-- The coin-type parser reads back the print of every number below 2^32.
pub parse_uint32-decimal : (v : ℕ) → IsUint32 v → parse_uint32 (decimal v) ≡ some v
parse_uint32-decimal v h = (parse_uint32_iff (decimal v) v).1 (
    rw (numeral-IsDecimal (decimal v) (decimal-IsDecimal v))
      ((decimal-exactly v h).1, digits_of _ (decimal-IsDecimal v), sym (spelled-decimal v h), h))
