-- ===== src/Hash/Hex/Digits.antt =====
-- src/hash.cpp: what `to_hex` prints, and the digests in hexadecimal.
use mhda.Base.{
  IsByte, ℕ, ◌+◌, ◌-◌, ◌*◌, ◌/◌, ◌^◌, ◌≤◌, ◌<◌, ◌≡◌, refl, arith, Bool, true, ◌&&◌, ◌||◌, [], ◌∷◌,
  ◌++◌, Bytes, length, All, All-append, Bool-cases, all_below, all_below-true, leb, within, ◌==◌,
  ==_iff, and-left, and-right, if◌then◌else◌, length-append, inl, inr, ◌⊎◌,
}
use mhda.Hash.Hex.{hex_digit, to_hex, sha1_hex, sha256_hex}
use mhda.Hash.Sha1.{sha1, sha1_output, Sha1State}
use mhda.Hash.Sha256.{sha256, sha256_output, Sha256State}
use mhda.Hash.Word.{bit_and, store_word}

-- a digit '0' to '9' or 'a' to 'f'
abbrev pub IsHexDigit : ℕ → Type 0
IsHexDigit c = ((b'0' ≤ c) × (c ≤ b'9')) ⊎ ((b'a' ≤ c) × (c ≤ b'f'))

abbrev pub hex_value : ℕ → ℕ
hex_value c = if leb c b'9' then c - b'0' else c - b'a' + 10

-- The bytes that pairs of digits spell.
abbrev pub of_hex : Bytes → Bytes
of_hex (h ∷ l ∷ text) = (hex_value h * 16 + hex_value l) ∷ of_hex text
of_hex _ = []

high : ℕ → ℕ
high x = hex_digit (bit_and (x / 2 ^ 4) 0xf)

low : ℕ → ℕ
low x = hex_digit (bit_and x 0xf)

is_hex : ℕ → Bool
is_hex c = within b'0' b'9' c || within b'a' b'f' c

byte_table :
    all_below 256
      (λ x. is_hex (high x) && is_hex (low x) && hex_value (high x) * 16 + hex_value (low x) == x)
    ≡ true
unfolding all_below high low is_hex hex_digit
byte_table = refl

is_hex-IsHexDigit : (c : ℕ) → is_hex c ≡ true → IsHexDigit c
unfolding is_hex
is_hex-IsHexDigit c h = elim (Bool-cases (within b'0' b'9' c)) [
  | inl e ↦ inl (ground arith)
  | inr e ↦ inr (ground arith)
]

byte_digits :
    (x : ℕ)
    → x < 256
    → IsHexDigit (high x) × IsHexDigit (low x) × (hex_value (high x) * 16 + hex_value (low x) ≡ x)
byte_digits x h =
    let value = hex_value (high x) * 16 + hex_value (low x) in
    let all = all_below-true 256 _ x byte_table h in
    let both = and-left (is_hex (high x) && is_hex (low x)) (value == x) all in
    (
      is_hex-IsHexDigit (high x) (and-left (is_hex (high x)) (is_hex (low x)) both),
      is_hex-IsHexDigit (low x) (and-right (is_hex (high x)) (is_hex (low x)) both),
      (==_iff value x).0 (and-right (is_hex (high x) && is_hex (low x)) (value == x) all),
    )

-- Bytes are read back from their hexadecimal digits.
pub of_hex-to_hex : (bytes : Bytes) → All IsByte bytes → of_hex (to_hex bytes) ≡ bytes
unfolding to_hex high low
of_hex-to_hex [] _ = refl
of_hex-to_hex (x ∷ bytes) (hx, h) = λ i. (byte_digits x hx).2 i ∷ of_hex-to_hex bytes h i

to_hex_digits :
    (bytes : Bytes)
    → All IsByte bytes
    → (length (to_hex bytes) ≡ 2 * length bytes) × All IsHexDigit (to_hex bytes)
unfolding to_hex high low
to_hex_digits [] _ = (refl, tt)
to_hex_digits (x ∷ bytes) (hx, h) =
    let digits = byte_digits x hx in
    let rest = to_hex_digits bytes h in (omega (arith, rest.0), (digits.0, (digits.1, rest.1)))

-- Whatever the words are, the digest is made of bytes.
store_word-All : (x : ℕ) → All IsByte (store_word x)
unfolding store_word
store_word-All x = (omega arith, (omega arith, (omega arith, (omega arith, tt))))

length-store_word : (x : ℕ) → length (store_word x) ≡ 4
unfolding store_word
length-store_word x = refl

stored :
    (bytes : Bytes) (k x : ℕ)
    → (length bytes ≡ k) × All IsByte bytes
    → (length (bytes ++ store_word x) ≡ k + 4) × All IsByte (bytes ++ store_word x)
stored bytes k x (e, h) = (
  omega (arith, length-append bytes (store_word x), length-store_word x),
  All-append IsByte bytes (store_word x) h (store_word-All x),
)

sha1_output_bytes : (s : Sha1State) → (length (sha1_output s) ≡ 20) × All IsByte (sha1_output s)
unfolding sha1_output
sha1_output_bytes s =
    stored _ 16 s.e (
      stored _ 12 s.d (stored _ 8 s.c (stored _ 4 s.b (length-store_word s.a, store_word-All s.a))))

sha256_output_bytes :
    (s : Sha256State) → (length (sha256_output s) ≡ 32) × All IsByte (sha256_output s)
unfolding sha256_output
sha256_output_bytes s = stored _ 28 s.h (
    stored _ 24 s.g (
      stored _ 20 s.f (
        stored _ 16 s.e (
          stored _ 12 s.d
            (stored _ 8 s.c (stored _ 4 s.b (length-store_word s.a, store_word-All s.a)))))))

pub sha1_bytes : (m : Bytes) → (length (sha1 m) ≡ 20) × All IsByte (sha1 m)
unfolding sha1
sha1_bytes m = sha1_output_bytes _

pub sha256_bytes : (m : Bytes) → (length (sha256 m) ≡ 32) × All IsByte (sha256 m)
unfolding sha256
sha256_bytes m = sha256_output_bytes _

-- `n` lower-case hexadecimal digits
abbrev pub IsHexText : ℕ → Bytes → Type 0
IsHexText n s = (length s ≡ n) × All IsHexDigit s

-- sha1_hex gives 40 lower-case hexadecimal digits and sha256_hex gives 64, for every text, and the
-- digits spell the digest.
pub hex_digests :
    (text : Bytes)
    → IsHexText 40 (sha1_hex text)
      × IsHexText 64 (sha256_hex text)
      × (of_hex (sha1_hex text) ≡ sha1 text)
      × (of_hex (sha256_hex text) ≡ sha256 text)
unfolding sha1_hex sha256_hex
hex_digests text =
    let short = sha1_bytes text in
    let long = sha256_bytes text in
    let forty = to_hex_digits (sha1 text) short.1 in
    let sixty_four = to_hex_digits (sha256 text) long.1 in
    (
      (omega (arith, short.0, forty.0), forty.1),
      (omega (arith, long.0, sixty_four.0), sixty_four.1),
      of_hex-to_hex (sha1 text) short.1,
      of_hex-to_hex (sha256 text) long.1,
    )
