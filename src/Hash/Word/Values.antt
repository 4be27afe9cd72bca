-- ===== src/Hash/Word/Values.antt =====
-- src/hash.cpp: the numbers that the word operations give.
use native.Mathlib.Nat.{
  add-mul-mod_self_right, mod-eq_of_lt, pow-suc, one-le-pow, mod-lt, div-add-mod,
}
use native.Mathlib.Nat.{div-lt_iff_lt-mul, mul_comm, lt_of_le_of_lt, div-le_self}
use mhda.Base.{
  IsByte, ℕ, zero, suc, ◌+◌, ◌-◌, ◌*◌, ◌/◌, ◌%◌, ◌^◌, ◌≤◌, ◌<◌, ◌≡◌, ap, ◌∙◌, sym, arith, Bytes,
}
use mhda.Hash.Word.Bits.{or-shifted, or_comm, or-lt}
use mhda.Hash.Word.{rotl32, rotr32, shift_left, shift_right, load_word, byte_at, bit_or}

abbrev pub IsWord : ℕ → Type 0
IsWord x = x < 2 ^ 32

pub pow_add : (n m : ℕ) → 2 ^ (n + m) ≡ 2 ^ n * 2 ^ m
pow_add zero m = let e : 0 + m ≡ m = omega arith in rw e (omega arith)
pow_add (suc n) m =
    let e : suc n + m ≡ suc (n + m) = omega arith in
    rw e (grind (arith, pow-suc 2 n, pow-suc 2 (n + m), pow_add n m))

pow_split : (n : ℕ) → n ≤ 32 → 2 ^ (32 - n) * 2 ^ n ≡ 2 ^ 32
pow_split n h =
    let e : 32 - n + n ≡ 32 = omega arith in sym (pow_add (32 - n) n) ∙ ap (λ t. 2 ^ t) e

mul-lt : (a q p : ℕ) → a < q → 0 < p → a * p < q * p
mul-lt a q p h k = grind arith

regroup : (a b q p : ℕ) → (a + b * q) * p ≡ a * p + b * (q * p)
regroup a b q p = grind arith

-- `x * p` in a word of size `q * p` loses what stands above `q`.
mul-mod-mul : (x p q : ℕ) → 0 < p → 0 < q → x * p % (q * p) ≡ x % q * p
mul-mod-mul x p q hp hq =
    let split : x ≡ x % q + x / q * q = grind (arith, div-add-mod x q) in
    ap (λ t. t * p % (q * p)) split
    ∙ ap (λ t. t % (q * p)) (regroup (x % q) (x / q) q p)
    ∙ add-mul-mod_self_right (x % q * p) (x / q) (q * p)
    ∙ mod-eq_of_lt (mul-lt (x % q) q p (mod-lt x hq) hp)

shift_left-value : (n x : ℕ) → n ≤ 32 → shift_left x n ≡ x % 2 ^ (32 - n) * 2 ^ n
shift_left-value n x h =
    ap (λ t. x * 2 ^ n % t) (sym (pow_split n h))
    ∙ mul-mod-mul x (2 ^ n) (2 ^ (32 - n)) (one-le-pow n 2 (omega arith))
        (one-le-pow (32 - n) 2 (omega arith))

shift_right-lt : (n x : ℕ) → n ≤ 32 → IsWord x → shift_right x (32 - n) < 2 ^ n
shift_right-lt n x h w =
    (div-lt_iff_lt-mul (one-le-pow (32 - n) 2 (omega arith))).1
      (rw (mul_comm (2 ^ n) (2 ^ (32 - n)), pow_split n h) w)

pub rotl32-value :
    (n x : ℕ) → n ≤ 32 → IsWord x → rotl32 x n ≡ x % 2 ^ (32 - n) * 2 ^ n + x / 2 ^ (32 - n)
unfolding rotl32
rotl32-value n x h w =
    rw (shift_left-value n x h)
      (or-shifted n (x % 2 ^ (32 - n)) (x / 2 ^ (32 - n)) (shift_right-lt n x h w))

shift_left-IsWord : (n x : ℕ) → IsWord (shift_left x n)
shift_left-IsWord n x = omega arith

shift_right-IsWord : (n x : ℕ) → IsWord x → IsWord (shift_right x n)
shift_right-IsWord n x w = lt_of_le_of_lt (div-le_self x (2 ^ n)) w

pub rotl32-IsWord : (n x : ℕ) → IsWord x → IsWord (rotl32 x n)
unfolding rotl32
rotl32-IsWord n x w =
    or-lt 32 (shift_left x n) (shift_right x (32 - n)) (shift_left-IsWord n x)
      (shift_right-IsWord (32 - n) x w)

-- A rotation to the right is one to the left.
pub rotr32-rotl32 : (n x : ℕ) → n ≤ 32 → IsWord x → rotr32 x n ≡ rotl32 x (32 - n)
unfolding rotl32 rotr32
rotr32-rotl32 n x h w =
    let back : 32 - (32 - n) ≡ n = omega arith in
    or_comm 32 (shift_right x n) (shift_left x (32 - n)) (shift_right-IsWord n x w)
      (shift_left-IsWord (32 - n) x)
    ∙ ap (λ t. bit_or (shift_left x (32 - n)) (shift_right x t)) (sym back)

pub rotr32-IsWord : (n x : ℕ) → IsWord x → IsWord (rotr32 x n)
unfolding rotr32
rotr32-IsWord n x w =
    or-lt 32 (shift_right x n) (shift_left x (32 - n)) (shift_right-IsWord n x w)
      (shift_left-IsWord (32 - n) x)

pub rotr32-value : (n x : ℕ) → n ≤ 32 → IsWord x → rotr32 x n ≡ x % 2 ^ n * 2 ^ (32 - n) + x / 2 ^ n
rotr32-value n x h w =
    let back : 32 - (32 - n) ≡ n = omega arith in
    rotr32-rotl32 n x h w
    ∙ rotl32-value (32 - n) x (omega arith) w
    ∙ ap (λ t. x % 2 ^ t * 2 ^ (32 - n) + x / 2 ^ t) back

-- the value of four bytes, the highest first
abbrev pub word_of : ℕ → ℕ → ℕ → ℕ → ℕ
word_of a b c d = ((a * 256 + b) * 256 + c) * 256 + d

module _ (a b c d : ℕ) (ha : IsByte a) (hb : IsByte b) (hc : IsByte c) (hd : IsByte d) where
  -- Bytes that are shifted below 2^32 lose nothing.
  unclipped :
      (shift_left a 24 ≡ a * 2 ^ 24) × (shift_left b 16 ≡ b * 2 ^ 16) × (shift_left c 8 ≡ c * 2 ^ 8)
  unclipped = (omega arith, omega arith, omega arith)

  first_two : bit_or (shift_left a 24) (shift_left b 16) ≡ (a * 256 + b) * 2 ^ 16
  first_two =
      rw (unclipped.0, unclipped.1) (or-shifted 24 a (b * 2 ^ 16) (omega arith) ∙ omega arith)

  first_three :
      bit_or (bit_or (shift_left a 24) (shift_left b 16)) (shift_left c 8)
      ≡ ((a * 256 + b) * 256 + c) * 2 ^ 8
  first_three =
      rw (first_two, unclipped.2)
        (or-shifted 16 (a * 256 + b) (c * 2 ^ 8) (omega arith) ∙ omega arith)

  packed :
      bit_or (bit_or (bit_or (shift_left a 24) (shift_left b 16)) (shift_left c 8)) d
      ≡ word_of a b c d
  packed = rw first_three (or-shifted 8 ((a * 256 + b) * 256 + c) d hd)

pub load_word-value :
    (block : Bytes) (i : ℕ)
    → ((j : ℕ) → IsByte (byte_at block j))
    → load_word block i
      ≡ word_of
          (byte_at block (4 * i))
          (byte_at block (4 * i + 1))
          (byte_at block (4 * i + 2))
          (byte_at block (4 * i + 3))
unfolding load_word
load_word-value block i h =
    packed _ _ _ _ (h (4 * i)) (h (4 * i + 1)) (h (4 * i + 2)) (h (4 * i + 3))
