-- ===== src/Hash/Word.antt =====
-- src/hash.cpp: 32-bit words with their wrap-around, the rotations, and the words of a block.
pub mod Bits
pub mod Values
pub use Prim.Native.Nat.{bit_and, bit_or, bit_xor}
use mhda.Base.{ℕ, zero, suc, ◌+◌, ◌-◌, ◌*◌, ◌/◌, ◌%◌, ◌^◌, List, [], ◌∷◌, Bytes, get_or}

-- the value of a sum or a shift in a uint32_t
abbrev pub u32 : ℕ → ℕ
u32 x = x % 2 ^ 32

-- `~x` of a uint32_t
abbrev pub complement : ℕ → ℕ
complement x = 0xffffffff - x

-- `x << n` and `x >> n` of a uint32_t
abbrev pub shift_left : ℕ → ℕ → ℕ
shift_left x n = u32 (x * 2 ^ n)

abbrev pub shift_right : ℕ → ℕ → ℕ
shift_right x n = x / 2 ^ n

unfoldable pub rotl32 : ℕ → ℕ → ℕ
rotl32 x n = bit_or (shift_left x n) (shift_right x (32 - n))

unfoldable pub rotr32 : ℕ → ℕ → ℕ
rotr32 x n = bit_or (shift_right x n) (shift_left x (32 - n))

-- `block[i]`
abbrev pub byte_at : Bytes → ℕ → ℕ
byte_at block i = get_or block i 0

-- the big-endian word at `block + 4 * i`
unfoldable pub load_word : Bytes → ℕ → ℕ
load_word block i =
    bit_or
      (bit_or
        (bit_or (shift_left (byte_at block (4 * i)) 24) (shift_left (byte_at block (4 * i + 1)) 16))
        (shift_left (byte_at block (4 * i + 2)) 8))
      (byte_at block (4 * i + 3))

-- The first loop over `w`: `left` more words, from the word at `i` on.
unfoldable pub load_words : Bytes → ℕ → ℕ → List ℕ
load_words block i zero = []
load_words block i (suc left) = load_word block i ∷ load_words block (i + 1) left

-- the four bytes of a word as the digest has them, each a cast to uint8_t
unfoldable pub store_word : ℕ → Bytes
store_word x = (x / 2 ^ 24 % 256) ∷ (x / 2 ^ 16 % 256) ∷ (x / 2 ^ 8 % 256) ∷ (x % 256) ∷ []
