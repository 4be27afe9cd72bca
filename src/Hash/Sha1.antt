-- ===== src/Hash/Sha1.antt =====
-- src/hash.cpp: SHA-1.
pub mod Standard
pub mod Refines
use mhda.Base.{ℕ, zero, suc, ◌+◌, ◌-◌, List, [], ◌∷◌, ◌++◌, Bytes, get_or, ltb, if◌then◌else◌}
use mhda.Hash.Blocks.{absorb}
use mhda.Hash.Word.{u32, complement, rotl32, load_words, store_word, bit_and, bit_or, bit_xor}

-- `state`, and the five locals of `sha1_compress`
pub record Sha1State : Type 0 where
  pub a : ℕ
  pub b : ℕ
  pub c : ℕ
  pub d : ℕ
  pub e : ℕ

-- the right-hand side of the assignment to `w[i]`
unfoldable pub sha1_word : List ℕ → ℕ → ℕ
sha1_word w i =
    rotl32
      (bit_xor (bit_xor (bit_xor (get_or w (i - 3) 0) (get_or w (i - 8) 0)) (get_or w (i - 14) 0))
        (get_or w (i - 16) 0))
      1

-- The second loop over `w`, whose first `i` words are there, with `left` to come.
unfoldable pub sha1_extend : ℕ → ℕ → List ℕ → List ℕ
sha1_extend zero i w = w
sha1_extend (suc left) i w = sha1_extend left (i + 1) (w ++ (sha1_word w i ∷ []))

unfoldable pub sha1_schedule : Bytes → List ℕ
sha1_schedule block = sha1_extend 64 16 (load_words block 0 16)

-- `f` and `k` of round `i`
unfoldable pub sha1_f : ℕ → ℕ → ℕ → ℕ → ℕ
sha1_f i b c d =
    if ltb i 20
    then bit_or (bit_and b c) (bit_and (complement b) d)
    else if ltb i 40
    then bit_xor (bit_xor b c) d
    else if ltb i 60
    then bit_or (bit_or (bit_and b c) (bit_and b d)) (bit_and c d)
    else bit_xor (bit_xor b c) d

unfoldable pub sha1_k : ℕ → ℕ
sha1_k i =
    if ltb i 20
    then 0x5A827999
    else if ltb i 40
    then 0x6ED9EBA1
    else if ltb i 60
    then 0x8F1BBCDC
    else 0xCA62C1D6

unfoldable pub sha1_round : ℕ → ℕ → Sha1State → Sha1State
sha1_round i x s = record {
  a = u32 (u32 (u32 (u32 (rotl32 s.a 5 + sha1_f i s.b s.c s.d) + s.e) + sha1_k i) + x);
  b = s.a;
  c = rotl32 s.b 30;
  d = s.c;
  e = s.d;
}

-- The rounds from `i` on, over the rest of `w`.
unfoldable pub sha1_rounds : ℕ → List ℕ → Sha1State → Sha1State
sha1_rounds i [] s = s
sha1_rounds i (x ∷ w) s = sha1_rounds (i + 1) w (sha1_round i x s)

abbrev pub add_states : Sha1State → Sha1State → Sha1State
add_states s t = record {
  a = u32 (s.a + t.a);
  b = u32 (s.b + t.b);
  c = u32 (s.c + t.c);
  d = u32 (s.d + t.d);
  e = u32 (s.e + t.e);
}

-- `block` points at 64 bytes or more.
unfoldable pub sha1_compress : Sha1State → Bytes → Sha1State
sha1_compress s block = add_states s (sha1_rounds 0 (sha1_schedule block) s)

abbrev pub sha1_initial : Sha1State
sha1_initial = record {
  a = 0x67452301;
  b = 0xEFCDAB89;
  c = 0x98BADCFE;
  d = 0x10325476;
  e = 0xC3D2E1F0;
}

unfoldable pub sha1_output : Sha1State → Bytes
sha1_output s =
    store_word s.a ++ store_word s.b ++ store_word s.c ++ store_word s.d ++ store_word s.e

unfoldable pub sha1 : Bytes → Bytes
sha1 bytes = sha1_output (absorb sha1_compress sha1_initial bytes)
