-- ===== src/Detail/Quote.antt =====
-- src/detail.cpp: `quote` and `validate_free_form_value`.
pub mod Printable
pub mod Legible
use mhda.Base.{ℕ, ◌/◌, ◌%◌, ◌||◌, [], ◌∷◌, ◌++◌, Bytes, codes, ltb, ◌==◌, if◌then◌else◌, get_or}
use mhda.Detail.Ascii.{all_nss_bytes}
use mhda.Error.{Result, ok, throw, invalid_value}

-- `hex[n]`
unfoldable pub hex_char : ℕ → ℕ
hex_char n = get_or (codes "0123456789abcdef") n 0

-- what the switch appends for one byte
unfoldable pub quote_byte : ℕ → Bytes
quote_byte b =
    if b == b'"'
    then codes "\\\""
    else if b == b'\\'
    then codes "\\\\"
    else if b == b'\n'
    then codes "\\n"
    else if b == b'\r'
    then codes "\\r"
    else if b == b'\t'
    then codes "\\t"
    else if ltb b 0x20 || ltb 0x7e b
    then codes "\\x" ++ (hex_char (b / 16) ∷ hex_char (b % 16) ∷ [])
    else b ∷ []

unfoldable pub quote_bytes : Bytes → Bytes
unfolding quote_byte hex_char
quote_bytes [] = []
quote_bytes (b ∷ s) = quote_byte b ++ quote_bytes s

unfoldable pub quote : Bytes → Bytes
quote s = b'"' ∷ (quote_bytes s ++ b'"' ∷ [])

-- The loop throws at the first byte that may not stand in an NSS; every throw is the same.
unfoldable pub validate_free_form_value : Bytes → Bytes → Result (Unit {0})
validate_free_form_value component v =
    if all_nss_bytes v
    then ok tt
    else throw invalid_value (quote v ++ (codes " for " ++ quote component))
