-- ===== src/Hash/Sha256/Standard.antt =====
-- SHA-256 as FIPS 180-4 describes it (sections 4.1.2, 5.3.3 and 6.2.2); its round
-- constants are the table `k256`.
use mhda.Base.{ℕ, ◌+◌, ◌-◌, ◌/◌, ◌%◌, ◌^◌, List, [], ◌∷◌, ◌++◌, Bytes, get_or}
use mhda.Hash.Sha256.{Sha256State, k256}
use mhda.Hash.Standard.{big_endian, words, expand, back, rotate_right, process}
use mhda.Hash.Word.{bit_and, bit_xor}

unfoldable pub ch : ℕ → ℕ → ℕ → ℕ
ch x y z = bit_xor (bit_and x y) (bit_and (2 ^ 32 - 1 - x) z)

unfoldable pub maj : ℕ → ℕ → ℕ → ℕ
maj x y z = bit_xor (bit_xor (bit_and x y) (bit_and x z)) (bit_and y z)

-- the upper-case and the lower-case sigma functions
unfoldable pub sum_0 : ℕ → ℕ
sum_0 x = bit_xor (bit_xor (rotate_right x 2) (rotate_right x 13)) (rotate_right x 22)

unfoldable pub sum_1 : ℕ → ℕ
sum_1 x = bit_xor (bit_xor (rotate_right x 6) (rotate_right x 11)) (rotate_right x 25)

unfoldable pub sigma_0 : ℕ → ℕ
sigma_0 x = bit_xor (bit_xor (rotate_right x 7) (rotate_right x 18)) (x / 2 ^ 3)

unfoldable pub sigma_1 : ℕ → ℕ
sigma_1 x = bit_xor (bit_xor (rotate_right x 17) (rotate_right x 19)) (x / 2 ^ 10)

unfoldable pub next_word : List ℕ → ℕ
next_word w = (sigma_1 (back w 2) + back w 7 + sigma_0 (back w 15) + back w 16) % 2 ^ 32

-- Both sums of a round, before the remainder is taken.
unfoldable pub t1 : ℕ → ℕ → Sha256State → ℕ
t1 t x s = s.h + sum_1 s.e + ch s.e s.f s.g + get_or k256 t 0 + x

unfoldable pub t2 : Sha256State → ℕ
t2 s = sum_0 s.a + maj s.a s.b s.c

unfoldable pub round : ℕ → ℕ → Sha256State → Sha256State
round t x s = record {
  a = (t1 t x s + t2 s) % 2 ^ 32;
  b = s.a;
  c = s.b;
  d = s.c;
  e = (s.d + t1 t x s) % 2 ^ 32;
  f = s.e;
  g = s.f;
  h = s.g;
}

unfoldable pub rounds : ℕ → List ℕ → Sha256State → Sha256State
rounds t [] s = s
rounds t (x ∷ w) s = rounds (t + 1) w (round t x s)

abbrev pub add : Sha256State → Sha256State → Sha256State
add s t = record {
  a = (s.a + t.a) % 2 ^ 32;
  b = (s.b + t.b) % 2 ^ 32;
  c = (s.c + t.c) % 2 ^ 32;
  d = (s.d + t.d) % 2 ^ 32;
  e = (s.e + t.e) % 2 ^ 32;
  f = (s.f + t.f) % 2 ^ 32;
  g = (s.g + t.g) % 2 ^ 32;
  h = (s.h + t.h) % 2 ^ 32;
}

unfoldable pub compress : Sha256State → Bytes → Sha256State
compress s block = add s (rounds 0 (expand next_word 48 (words block)) s)

unfoldable pub output : Sha256State → Bytes
output s =
    big_endian 4 s.a
    ++ big_endian 4 s.b
    ++ big_endian 4 s.c
    ++ big_endian 4 s.d
    ++ big_endian 4 s.e
    ++ big_endian 4 s.f
    ++ big_endian 4 s.g
    ++ big_endian 4 s.h

-- the initial hash value
abbrev pub initial : Sha256State
initial = record {
  a = 0x6a09e667;
  b = 0xbb67ae85;
  c = 0x3c6ef372;
  d = 0xa54ff53a;
  e = 0x510e527f;
  f = 0x9b05688c;
  g = 0x1f83d9ab;
  h = 0x5be0cd19;
}

unfoldable pub digest : Bytes → Bytes
digest m = output (process compress initial m)
