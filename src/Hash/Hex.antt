-- ===== src/Hash/Hex.antt =====
-- src/hash.cpp: `to_hex`, `sha1_hex` and `sha256_hex`.
pub mod Digits
use mhda.Base.{ℕ, ◌/◌, ◌^◌, [], ◌∷◌, Bytes, codes, get_or}
use mhda.Hash.Sha1.{sha1}
use mhda.Hash.Sha256.{sha256}
use mhda.Hash.Word.{bit_and}

-- `hex_chars[n]`
unfoldable pub hex_digit : ℕ → ℕ
hex_digit n = get_or (codes "0123456789abcdef") n 0

unfoldable pub to_hex : Bytes → Bytes
to_hex [] = []
to_hex (x ∷ bytes) = hex_digit (bit_and (x / 2 ^ 4) 0xf) ∷ hex_digit (bit_and x 0xf) ∷ to_hex bytes

unfoldable pub sha1_hex : Bytes → Bytes
sha1_hex text = to_hex (sha1 text)

unfoldable pub sha256_hex : Bytes → Bytes
sha256_hex text = to_hex (sha256 text)
