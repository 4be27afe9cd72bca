-- ===== src/Detail/Quote/Printable.antt =====
-- src/detail.cpp: the bytes that `quote` prints.
use mhda.Base.{
  IsByte, ℕ, ◌/◌, ◌%◌, ◌≤◌, ◌<◌, [], ◌∷◌, ◌++◌, Bytes, All, All-append, arith, codes, get_or, zero,
  suc, length,
}
use mhda.Detail.Quote.{hex_char, quote_byte, quote_bytes, quote}

-- printable ASCII
abbrev pub IsPrintable : ℕ → Type 0
IsPrintable c = (0x20 ≤ c) × (c < 0x7f)

get_or-All : (P : ℕ → Type 0) (s : Bytes) (i d : ℕ) → All P s → i < length s → P (get_or s i d)
get_or-All P [] i d h l = absurd (omega arith)
get_or-All P (c ∷ s) zero d (h, hs) l = h
get_or-All P (c ∷ s) (suc i) d (h, hs) l = get_or-All P s i d hs (omega arith)

hex_char-IsPrintable : (n : ℕ) → n < 16 → IsPrintable (hex_char n)
unfolding hex_char
hex_char-IsPrintable n h =
    get_or-All IsPrintable (codes "0123456789abcdef") n 0 (ground arith) (ground arith)

escaped :
    (b : ℕ)
    → IsByte b
    → All IsPrintable (codes "\\x" ++ (hex_char (b / 16) ∷ hex_char (b % 16) ∷ []))
escaped b h = (
  omega arith,
  (
    omega arith,
    (
      hex_char-IsPrintable (b / 16) (omega arith),
      (hex_char-IsPrintable (b % 16) (omega arith), tt),
    ),
  ),
)

quote_byte-IsPrintable : (b : ℕ) → IsByte b → All IsPrintable (quote_byte b)
unfolding quote_byte
quote_byte-IsPrintable b h = ground (arith, escaped b h)

quote_bytes-IsPrintable : (s : Bytes) → All IsByte s → All IsPrintable (quote_bytes s)
unfolding quote_bytes
quote_bytes-IsPrintable [] h = tt
quote_bytes-IsPrintable (b ∷ s) (h, hs) =
    All-append IsPrintable (quote_byte b) (quote_bytes s) (quote_byte-IsPrintable b h)
      (quote_bytes-IsPrintable s hs)

-- Whatever bytes a text holds, its quotation holds printable ASCII only.
pub quote-IsPrintable : (s : Bytes) → All IsByte s → All IsPrintable (quote s)
unfolding quote
quote-IsPrintable s h = (
  omega arith,
  All-append IsPrintable (quote_bytes s) (b'"' ∷ []) (quote_bytes-IsPrintable s h)
      (omega arith, tt),
)
