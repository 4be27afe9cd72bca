-- ===== src/Hash/Standard.antt =====
-- What FIPS 180-4 says of both hashes, with which src/hash.cpp is compared: rotations as arithmetic,
-- the padding of a message to blocks of 64 bytes, and the hash as a fold over these.
use mathlib.Core.List.{foldl}
use mhda.Base.{
  ℕ, zero, suc, ◌+◌, ◌-◌, ◌*◌, ◌/◌, ◌%◌, ◌^◌, get_or, List, [], ◌∷◌, ◌++◌, Bytes, length, take,
  drop, replicate,
}

-- a number in `k` bytes, the highest first
unfoldable pub big_endian : ℕ → ℕ → Bytes
big_endian zero v = []
big_endian (suc k) v = big_endian k (v / 256) ++ ((v % 256) ∷ [])

-- the padding of a message of `n` bytes: a one bit, zeros, and the length in bits
unfoldable pub padding : ℕ → Bytes
padding n = 0x80 ∷ (replicate ((119 - n % 64) % 64) 0 ++ big_endian 8 (n * 8))

unfoldable pub padded : Bytes → Bytes
padded m = m ++ padding (length m)

-- the first `k` blocks
unfoldable pub blocks : ℕ → Bytes → List Bytes
blocks zero m = []
blocks (suc k) m = take 64 m ∷ blocks k (drop 64 m)

unfoldable pub message_blocks : Bytes → List Bytes
message_blocks m = blocks (length (padded m) / 64) (padded m)

module _ {ℓ} {S : Type ℓ} (compress : S → Bytes → S) where
  abbrev pub process : S → Bytes → S
  process s m = foldl compress s (message_blocks m)

-- ROTL and ROTR of a word: the part that leaves at one end comes in at the other.
unfoldable pub rotate_left : ℕ → ℕ → ℕ
rotate_left x n = x % 2 ^ (32 - n) * 2 ^ n + x / 2 ^ (32 - n)

unfoldable pub rotate_right : ℕ → ℕ → ℕ
rotate_right x n = x % 2 ^ n * 2 ^ (32 - n) + x / 2 ^ n

-- the big-endian words of a block
unfoldable pub words : Bytes → List ℕ
words (a ∷ b ∷ c ∷ d ∷ rest) = (((a * 256 + b) * 256 + c) * 256 + d) ∷ words rest
words _ = []

-- the word that stands `n` places before the one to come
abbrev pub back : List ℕ → ℕ → ℕ
back w n = get_or w (length w - n) 0

-- The message schedule: `left` more words, each from those before it.
unfoldable pub expand : (List ℕ → ℕ) → ℕ → List ℕ → List ℕ
expand next zero w = w
expand next (suc left) w = expand next left (w ++ (next w ∷ []))
