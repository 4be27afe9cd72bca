-- ===== src/Hash/Sha1/Standard.antt =====
-- SHA-1 as FIPS 180-4 describes it (sections 4.1.1, 4.2.1, 5.3.1 and 6.1.2).
use mhda.Base.{ℕ, ◌+◌, ◌-◌, ◌%◌, ◌^◌, List, [], ◌∷◌, ◌++◌, Bytes, ltb, if◌then◌else◌}
use mhda.Hash.Sha1.{Sha1State}
use mhda.Hash.Standard.{big_endian, words, expand, back, rotate_left, process}
use mhda.Hash.Word.{bit_and, bit_xor}

unfoldable pub ch : ℕ → ℕ → ℕ → ℕ
ch x y z = bit_xor (bit_and x y) (bit_and (2 ^ 32 - 1 - x) z)

unfoldable pub parity : ℕ → ℕ → ℕ → ℕ
parity x y z = bit_xor (bit_xor x y) z

unfoldable pub maj : ℕ → ℕ → ℕ → ℕ
maj x y z = bit_xor (bit_xor (bit_and x y) (bit_and x z)) (bit_and y z)

-- the function and the constant of round `t`
unfoldable pub function : ℕ → ℕ → ℕ → ℕ → ℕ
function t = if ltb t 20 then ch else if ltb t 40 then parity else if ltb t 60 then maj else parity

unfoldable pub constant : ℕ → ℕ
constant t =
    if ltb t 20
    then 0x5a827999
    else if ltb t 40
    then 0x6ed9eba1
    else if ltb t 60
    then 0x8f1bbcdc
    else 0xca62c1d6

unfoldable pub next_word : List ℕ → ℕ
next_word w =
    rotate_left (bit_xor (bit_xor (bit_xor (back w 3) (back w 8)) (back w 14)) (back w 16)) 1

unfoldable pub round : ℕ → ℕ → Sha1State → Sha1State
round t x s = record {
  a = (rotate_left s.a 5 + function t s.b s.c s.d + s.e + constant t + x) % 2 ^ 32;
  b = s.a;
  c = rotate_left s.b 30;
  d = s.c;
  e = s.d;
}

unfoldable pub rounds : ℕ → List ℕ → Sha1State → Sha1State
rounds t [] s = s
rounds t (x ∷ w) s = rounds (t + 1) w (round t x s)

abbrev pub add : Sha1State → Sha1State → Sha1State
add s t = record {
  a = (s.a + t.a) % 2 ^ 32;
  b = (s.b + t.b) % 2 ^ 32;
  c = (s.c + t.c) % 2 ^ 32;
  d = (s.d + t.d) % 2 ^ 32;
  e = (s.e + t.e) % 2 ^ 32;
}

unfoldable pub compress : Sha1State → Bytes → Sha1State
compress s block = add s (rounds 0 (expand next_word 64 (words block)) s)

unfoldable pub output : Sha1State → Bytes
output s =
    big_endian 4 s.a ++ big_endian 4 s.b ++ big_endian 4 s.c ++ big_endian 4 s.d ++ big_endian 4 s.e

-- the initial hash value
abbrev pub initial : Sha1State
initial = record { a = 0x67452301; b = 0xefcdab89; c = 0x98badcfe; d = 0x10325476; e = 0xc3d2e1f0 }

unfoldable pub digest : Bytes → Bytes
digest m = output (process compress initial m)
