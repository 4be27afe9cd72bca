-- ===== src/Hash/Blocks/Padding.antt =====
-- src/hash.cpp: the last blocks that `sha1` and `sha256` build are the padded end of the message.
use native.Mathlib.Nat.{div-div-eq-div-mul, div-one}
use mhda.Base.{
  ℕ, zero, suc, ◌+◌, ◌-◌, ◌*◌, ◌/◌, ◌%◌, ◌^◌, ◌≤◌, ◌≡◌, refl, sym, ap, ◌∙◌, arith, [], ◌∷◌, ◌++◌,
  append_assoc, Bytes, length, take, drop, set, replicate, length-append, length-replicate,
  replicate_add, drop-replicate, ◌⊎◌, set-append, take-eq_self,
}
use mhda.Hash.Blocks.{write_length, tail_block, pad_len, bit_len, copy}
use mhda.Hash.Standard.{big_endian, padding}
use mhda.Hash.Word.Values.{pow_add}

shifted_byte : (bits i : ℕ) → bits / 2 ^ (8 * i) / 256 ≡ bits / 2 ^ (8 * (i + 1))
shifted_byte bits i =
    let next : 8 * i + 8 ≡ 8 * (i + 1) = omega arith in
    div-div-eq-div-mul bits (2 ^ (8 * i)) 256
    ∙ ap (λ t. bits / t) (sym (pow_add (8 * i) 8) ∙ ap (λ t. 2 ^ t) next)

set-replicate :
    (k v : ℕ) (back : Bytes) → set (0 ∷ (replicate k 0 ++ back)) k v ≡ replicate k 0 ++ (v ∷ back)
set-replicate zero v back = refl
set-replicate (suc k) v back = rw (set-replicate k v back)

-- The loop writes `k` bytes over zeros that end at `front + k`.
write_length-big_endian :
    (k i end bits : ℕ) (front back : Bytes)
    → end - i ≡ length front + k
    → i ≤ end
    → write_length k i end bits (front ++ (replicate k 0 ++ back))
      ≡ front ++ (big_endian k (bits / 2 ^ (8 * i)) ++ back)
unfolding write_length big_endian
write_length-big_endian zero i end bits front back e h = refl
write_length-big_endian (suc k) i end bits front back e h =
    let v = bits / 2 ^ (8 * i) % 256 in
    let place : end - 1 - i ≡ length front + k = omega arith in
    ap (λ t. write_length k (i + 1) end bits (set (front ++ (0 ∷ (replicate k 0 ++ back))) t v))
      place
    ∙ ap (write_length k (i + 1) end bits) (
        set-append front (0 ∷ (replicate k 0 ++ back)) k v
        ∙ ap (λ t. front ++ t) (set-replicate k v back))
    ∙ write_length-big_endian k (i + 1) end bits front (v ∷ back) (omega arith) (omega arith)
    ∙ ap (λ t. front ++ t)
        (ap (λ t. big_endian k t ++ (v ∷ back)) (sym (shifted_byte bits i))
          ∙ sym (append_assoc (big_endian k (bits / 2 ^ (8 * i) / 256)) (v ∷ []) back))

-- The eight bytes do not see what the 64-bit length loses.
big_endian_wrap : (v : ℕ) → big_endian 8 (v % 2 ^ 64) ≡ big_endian 8 v
unfolding big_endian
big_endian_wrap v = ground arith

pub length-big_endian : (k v : ℕ) → length (big_endian k v) ≡ k
unfolding big_endian
length-big_endian zero v = refl
length-big_endian (suc k) v =
    omega (
      arith,
      length-append (big_endian k (v / 256)) ((v % 256) ∷ []),
      length-big_endian k (v / 256),
    )

-- Where the first write after `memcpy` puts the one bit, in a buffer of `rem + 1 + room` zeros.
marked :
    (rem room size : ℕ) (rest : Bytes)
    → length rest ≡ rem
    → size ≡ rem + suc room
    → set (copy rem rest (replicate size 0)) rem 0x80 ≡ rest ++ (0x80 ∷ replicate room 0)
marked rem room size rest e h =
    let whole : take rem rest ≡ rest = take-eq_self rem rest (omega arith) in
    let zeros : drop rem (replicate size 0) ≡ replicate (suc room) 0 =
      ap (λ t. drop rem (replicate t 0)) h ∙ drop-replicate rem (suc room) 0 in
    let place : rem ≡ length rest + 0 = omega arith in
    ap (λ t. set t rem 0x80) (λ i. whole i ++ zeros i)
    ∙ ap (λ t. set (rest ++ replicate (suc room) 0) t 0x80) place
    ∙ set-append rest (0 ∷ replicate room 0) 0 0x80

zero_count :
    (n : ℕ)
    → (128 ≡ n % 64 + suc ((119 - n % 64) % 64 + (8 + (128 - pad_len (n % 64)))))
      × (pad_len (n % 64) ≡ n % 64 + 1 + (119 - n % 64) % 64 + 8)
unfolding pad_len
zero_count n = ground arith

-- The tail is the rest of the message, its padding, and zeros up to the size of the buffer.
pub tail_block-padding :
    (n : ℕ) (rest : Bytes)
    → length rest ≡ n % 64
    → tail_block n (n % 64) rest ≡ rest ++ (padding n ++ replicate (128 - pad_len (n % 64)) 0)
unfolding tail_block padding bit_len
tail_block-padding n rest e =
    let rem = n % 64 in
    let room = (119 - rem) % 64 in
    let over = 128 - pad_len rem in
    let front = rest ++ (0x80 ∷ replicate room 0) in
    let start = marked rem (room + (8 + over)) 128 rest e (zero_count n).0 in
    let more : replicate (room + (8 + over)) 0
        ≡ replicate room 0 ++ (replicate 8 0 ++ replicate over 0) =
      replicate_add room (8 + over) 0 ∙ ap (λ t. replicate room 0 ++ t) (replicate_add 8 over 0) in
    let size : pad_len rem - 0 ≡ length front + 8 = omega (
      arith,
      length-append rest (0x80 ∷ replicate room 0),
      length-replicate {A = ℕ} room 0,
      (zero_count n).1,
    ) in
    let bits : big_endian 8 (bit_len n / 1) ≡ big_endian 8 (n * 8) =
      ap (big_endian 8) (div-one (bit_len n)) ∙ big_endian_wrap (n * 8) in
    ap (write_length 8 0 (pad_len rem) (bit_len n)) (
      start
      ∙ ap (λ t. rest ++ (0x80 ∷ t)) more
      ∙ sym (append_assoc rest (0x80 ∷ replicate room 0) (replicate 8 0 ++ replicate over 0)))
    ∙ write_length-big_endian 8 0 (pad_len rem) (bit_len n) front (replicate over 0) size
        (omega arith)
    ∙ ap (λ t. front ++ (t ++ replicate over 0)) bits
    ∙ append_assoc rest (0x80 ∷ replicate room 0) (big_endian 8 (n * 8) ++ replicate over 0)
    ∙ ap (λ t. rest ++ (0x80 ∷ t))
        (sym (append_assoc (replicate room 0) (big_endian 8 (n * 8)) (replicate over 0)))

pub length-padding : (n : ℕ) → n % 64 + length (padding n) ≡ pad_len (n % 64)
unfolding padding
length-padding n = omega (
  arith,
  length-append (replicate ((119 - n % 64) % 64) 0) (big_endian 8 (n * 8)),
  length-replicate {A = ℕ} ((119 - n % 64) % 64) 0,
  length-big_endian 8 (n * 8),
  (zero_count n).1,
)

pub pad_len-cases : (r : ℕ) → (pad_len r ≡ 64) ⊎ (pad_len r ≡ 128)
unfolding pad_len
pad_len-cases r = ground arith
