-- ===== src/Hash/Sha256.antt =====
-- src/hash.cpp: SHA-256.
pub mod Standard
pub mod Refines
pub mod Constants
use mhda.Base.{ℕ, zero, suc, ◌+◌, ◌-◌, List, [], ◌∷◌, ◌++◌, Bytes, get_or}
use mhda.Hash.Blocks.{absorb}
use mhda.Hash.Word.{u32, complement, rotr32, shift_right, load_words, store_word, bit_and, bit_xor}

-- `state`, and the eight locals of `sha256_compress`
pub record Sha256State : Type 0 where
  pub a : ℕ
  pub b : ℕ
  pub c : ℕ
  pub d : ℕ
  pub e : ℕ
  pub f : ℕ
  pub g : ℕ
  pub h : ℕ

unfoldable pub k256 : List ℕ
k256 =
    0x428A2F98 ∷ 0x71374491 ∷ 0xB5C0FBCF ∷ 0xE9B5DBA5 ∷ 0x3956C25B ∷ 0x59F111F1 ∷ 0x923F82A4
    ∷ 0xAB1C5ED5 ∷ 0xD807AA98 ∷ 0x12835B01 ∷ 0x243185BE ∷ 0x550C7DC3 ∷ 0x72BE5D74 ∷ 0x80DEB1FE
    ∷ 0x9BDC06A7 ∷ 0xC19BF174 ∷ 0xE49B69C1 ∷ 0xEFBE4786 ∷ 0x0FC19DC6 ∷ 0x240CA1CC ∷ 0x2DE92C6F
    ∷ 0x4A7484AA ∷ 0x5CB0A9DC ∷ 0x76F988DA ∷ 0x983E5152 ∷ 0xA831C66D ∷ 0xB00327C8 ∷ 0xBF597FC7
    ∷ 0xC6E00BF3 ∷ 0xD5A79147 ∷ 0x06CA6351 ∷ 0x14292967 ∷ 0x27B70A85 ∷ 0x2E1B2138 ∷ 0x4D2C6DFC
    ∷ 0x53380D13 ∷ 0x650A7354 ∷ 0x766A0ABB ∷ 0x81C2C92E ∷ 0x92722C85 ∷ 0xA2BFE8A1 ∷ 0xA81A664B
    ∷ 0xC24B8B70 ∷ 0xC76C51A3 ∷ 0xD192E819 ∷ 0xD6990624 ∷ 0xF40E3585 ∷ 0x106AA070 ∷ 0x19A4C116
    ∷ 0x1E376C08 ∷ 0x2748774C ∷ 0x34B0BCB5 ∷ 0x391C0CB3 ∷ 0x4ED8AA4A ∷ 0x5B9CCA4F ∷ 0x682E6FF3
    ∷ 0x748F82EE ∷ 0x78A5636F ∷ 0x84C87814 ∷ 0x8CC70208 ∷ 0x90BEFFFA ∷ 0xA4506CEB ∷ 0xBEF9A3F7
    ∷ 0xC67178F2 ∷ []

-- `s0` and `s1` of the loop over `w`
unfoldable pub small_s0 : ℕ → ℕ
small_s0 x = bit_xor (bit_xor (rotr32 x 7) (rotr32 x 18)) (shift_right x 3)

unfoldable pub small_s1 : ℕ → ℕ
small_s1 x = bit_xor (bit_xor (rotr32 x 17) (rotr32 x 19)) (shift_right x 10)

-- the right-hand side of the assignment to `w[i]`
unfoldable pub sha256_word : List ℕ → ℕ → ℕ
sha256_word w i = u32 (
    u32 (u32 (get_or w (i - 16) 0 + small_s0 (get_or w (i - 15) 0)) + get_or w (i - 7) 0)
    + small_s1 (get_or w (i - 2) 0))

-- The second loop over `w`, whose first `i` words are there, with `left` to come.
unfoldable pub sha256_extend : ℕ → ℕ → List ℕ → List ℕ
sha256_extend zero i w = w
sha256_extend (suc left) i w = sha256_extend left (i + 1) (w ++ (sha256_word w i ∷ []))

unfoldable pub sha256_schedule : Bytes → List ℕ
sha256_schedule block = sha256_extend 48 16 (load_words block 0 16)

-- `S1`, `ch`, `S0` and `mj` of a round
unfoldable pub big_s1 : ℕ → ℕ
big_s1 e = bit_xor (bit_xor (rotr32 e 6) (rotr32 e 11)) (rotr32 e 25)

unfoldable pub choice : ℕ → ℕ → ℕ → ℕ
choice e f g = bit_xor (bit_and e f) (bit_and (complement e) g)

unfoldable pub big_s0 : ℕ → ℕ
big_s0 a = bit_xor (bit_xor (rotr32 a 2) (rotr32 a 13)) (rotr32 a 22)

unfoldable pub majority : ℕ → ℕ → ℕ → ℕ
majority a b c = bit_xor (bit_xor (bit_and a b) (bit_and a c)) (bit_and b c)

unfoldable pub sha256_t1 : ℕ → ℕ → Sha256State → ℕ
sha256_t1 i x s =
    u32 (u32 (u32 (u32 (s.h + big_s1 s.e) + choice s.e s.f s.g) + get_or k256 i 0) + x)

unfoldable pub sha256_t2 : Sha256State → ℕ
sha256_t2 s = u32 (big_s0 s.a + majority s.a s.b s.c)

unfoldable pub sha256_round : ℕ → ℕ → Sha256State → Sha256State
sha256_round i x s = record {
  a = u32 (sha256_t1 i x s + sha256_t2 s);
  b = s.a;
  c = s.b;
  d = s.c;
  e = u32 (s.d + sha256_t1 i x s);
  f = s.e;
  g = s.f;
  h = s.g;
}

-- The rounds from `i` on, over the rest of `w`.
unfoldable pub sha256_rounds : ℕ → List ℕ → Sha256State → Sha256State
sha256_rounds i [] s = s
sha256_rounds i (x ∷ w) s = sha256_rounds (i + 1) w (sha256_round i x s)

abbrev pub add_states : Sha256State → Sha256State → Sha256State
add_states s t = record {
  a = u32 (s.a + t.a);
  b = u32 (s.b + t.b);
  c = u32 (s.c + t.c);
  d = u32 (s.d + t.d);
  e = u32 (s.e + t.e);
  f = u32 (s.f + t.f);
  g = u32 (s.g + t.g);
  h = u32 (s.h + t.h);
}

-- `block` points at 64 bytes or more.
unfoldable pub sha256_compress : Sha256State → Bytes → Sha256State
sha256_compress s block = add_states s (sha256_rounds 0 (sha256_schedule block) s)

abbrev pub sha256_initial : Sha256State
sha256_initial = record {
  a = 0x6A09E667;
  b = 0xBB67AE85;
  c = 0x3C6EF372;
  d = 0xA54FF53A;
  e = 0x510E527F;
  f = 0x9B05688C;
  g = 0x1F83D9AB;
  h = 0x5BE0CD19;
}

unfoldable pub sha256_output : Sha256State → Bytes
sha256_output s =
    store_word s.a
    ++ store_word s.b
    ++ store_word s.c
    ++ store_word s.d
    ++ store_word s.e
    ++ store_word s.f
    ++ store_word s.g
    ++ store_word s.h

unfoldable pub sha256 : Bytes → Bytes
sha256 bytes = sha256_output (absorb sha256_compress sha256_initial bytes)
