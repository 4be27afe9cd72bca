-- ===== src/DerivationPath/Text.antt =====
-- src/derivation_path.cpp and src/address.cpp: the decimal print of a level index and of a coin
-- type, and the path that a list of levels spells.
pub mod Decimal
pub mod Room
use mhda.Base.{
  ℕ, zero, suc, ◌+◌, ◌/◌, ◌%◌, Bool, true, false, not, ◌&&◌, List, [], ◌∷◌, ◌++◌, Bytes, ◌==◌,
  if◌then◌else◌,
}

-- A level of a path: `address_index`.
pub record AddressIndex : Type 0 where
  pub index : ℕ
  pub is_hardened : Bool

-- `==` of two flags
abbrev pub same : Bool → Bool → Bool
same true x = x
same false x = not x

-- `address_index::operator==`
unfoldable pub index_eq : AddressIndex → AddressIndex → Bool
index_eq a b = a.index == b.index && same a.is_hardened b.is_hardened

-- `address_index::operator!=`
unfoldable pub index_ne : AddressIndex → AddressIndex → Bool
index_ne a b = not (index_eq a b)

-- `while (v) { tmp[t++] = '0' + v % 10; v /= 10; }` and the loop that copies `tmp` backwards: each
-- round puts its digit in front of `out`. The fuel is the room of `tmp`.
unfoldable pub decimal_digits : ℕ → ℕ → Bytes → Bytes
decimal_digits zero v out = out
decimal_digits (suc room) v out =
    let more = decimal_digits room (v / 10) ((b'0' + v % 10) ∷ out) in if v == 0 then out else more

abbrev pub buffer_size : ℕ
buffer_size = 16

-- the characters that `append_uint32` appends
unfoldable pub decimal : ℕ → Bytes
decimal v = if v == 0 then b'0' ∷ [] else decimal_digits buffer_size v []

unfoldable pub append_uint32 : Bytes → ℕ → Bytes
append_uint32 out v = out ++ decimal v

-- `if (l.is_hardened) out.push_back('\'');`
unfoldable pub append_marker : Bytes → Bool → Bytes
append_marker out hardened = if hardened then out ++ b'\'' ∷ [] else out

unfoldable pub append_levels : Bytes → List AddressIndex → Bytes
append_levels out [] = out
append_levels out (l ∷ lvls) =
    append_levels (append_marker (append_uint32 (out ++ b'/' ∷ []) l.index) l.is_hardened) lvls

unfoldable pub format_levels : List AddressIndex → Bytes
format_levels lvls = append_levels (b'm' ∷ []) lvls
