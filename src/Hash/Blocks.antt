-- ===== src/Hash/Blocks.antt =====
-- src/hash.cpp: what `sha1` and `sha256` share, the blocks of a message and of its padded end.
pub mod Padding
pub mod Process
use mhda.Base.{
  ℕ, zero, suc, ◌+◌, ◌-◌, ◌*◌, ◌/◌, ◌%◌, ◌^◌, List, [], ◌∷◌, ◌++◌, Bytes, length, take, drop, set,
  replicate, ltb, ◌==◌, if◌then◌else◌,
}

-- `memcpy` of `n` bytes to the front of a buffer
abbrev pub copy : ℕ → Bytes → Bytes → Bytes
copy n from to = take n from ++ drop n to

-- `bit_len`, a uint64_t
unfoldable pub bit_len : ℕ → ℕ
bit_len n = n * 8 % 2 ^ 64

unfoldable pub pad_len : ℕ → ℕ
pad_len rem = if ltb rem 56 then 64 else 128

-- The loop that writes the length at the end of the padding, `left` bytes from byte `i` on.
unfoldable pub write_length : ℕ → ℕ → ℕ → ℕ → Bytes → Bytes
write_length zero i end bits tail = tail
write_length (suc left) i end bits tail =
    write_length left (i + 1) end bits (set tail (end - 1 - i) (bits / 2 ^ (8 * i) % 256))

-- `tail` after its last write, for a message of `n` bytes whose last `rem` stand in `rest`
unfoldable pub tail_block : ℕ → ℕ → Bytes → Bytes
tail_block n rem rest =
    write_length 8 0 (pad_len rem) (bit_len n) (set (copy rem rest (replicate 128 0)) rem 0x80)

module _ {ℓ} {S : Type ℓ} (compress : S → Bytes → S) where
  -- The loop over the full blocks; a pointer into the message is the message from there on.
  unfoldable pub full_blocks : ℕ → ℕ → Bytes → S → S
  full_blocks zero i bytes s = s
  full_blocks (suc left) i bytes s =
      full_blocks left (i + 1) bytes (compress s (drop (i * 64) bytes))

  unfoldable pub tail_blocks : ℕ → Bytes → S → S
  tail_blocks rem tail s =
      if pad_len rem == 128 then compress (compress s tail) (drop 64 tail) else compress s tail

  -- The state after all blocks of a message.
  unfoldable pub absorb : S → Bytes → S
  absorb s bytes =
      let n = length bytes in
      let full = n / 64 in
      let rem = n - full * 64 in
      tail_blocks rem (tail_block n rem (drop (full * 64) bytes)) (full_blocks full 0 bytes s)
