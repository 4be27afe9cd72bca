-- ===== src/Detail/Number.antt =====
-- src/detail.cpp: the numbers of the "ct" component and of path levels. The accumulator is a
-- uint64_t: its update is written with the wrap-around.
pub mod Value
use mhda.Base.{
  ℕ, ◌+◌, ◌-◌, ◌*◌, ◌/◌, ◌%◌, ◌^◌, ◌&&◌, ◌||◌, [], ◌∷◌, Option, none, some, Bytes, ltb, leb, ◌==◌,
  within, if◌then◌else◌, ◌>>=◌, is_empty,
}

abbrev pub max_uint64 : ℕ
max_uint64 = 2 ^ 64 - 1

abbrev pub max_uint32 : ℕ
max_uint32 = 2 ^ 32 - 1

-- the ladder that sets `digit`
unfoldable pub digit_value : ℕ → ℕ → Option ℕ
digit_value base c =
    if within b'0' b'9' c
    then some (c - b'0')
    else if base == 16 && within b'a' b'f' c
    then some (c - b'a' + 10)
    else if base == 16 && within b'A' b'F' c
    then some (c - b'A' + 10)
    else none

-- one round of the loop, after the digit is read
unfoldable pub push_digit : ℕ → ℕ → ℕ → Option ℕ
push_digit base value digit =
    if leb base digit
    then none
    else if ltb ((max_uint64 - digit) / base) value
    then none
    else some ((value * base + digit) % 2 ^ 64)

-- the loop of `parse_in_base`
unfoldable pub accumulate : ℕ → Bytes → ℕ → Option ℕ
accumulate base [] value = some value
accumulate base (c ∷ s) value = do
  digit ← digit_value base c
  next ← push_digit base value digit
  accumulate base s next

unfoldable pub parse_in_base : Bytes → ℕ → Option ℕ
parse_in_base s base = if is_empty s then none else accumulate base s 0

-- the base, and the digits behind a "0x" or "0X"
unfoldable pub numeral : Bytes → ℕ × Bytes
numeral (z ∷ x ∷ s) = if z == b'0' && (x == b'x' || x == b'X') then (16, s) else (10, z ∷ x ∷ s)
numeral s = (10, s)

unfoldable pub parse_uint32 : Bytes → Option ℕ
parse_uint32 s =
    let (base, body) = numeral s in
    if is_empty s
    then none
    else if base == 16 && is_empty body
    then none
    else do value ← parse_in_base body base; if ltb max_uint32 value then none else some value

unfoldable pub parse_uint31_dec : Bytes → Option ℕ
parse_uint31_dec s = do value ← parse_in_base s 10; if leb (2 ^ 31) value then none else some value
