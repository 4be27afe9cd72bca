-- ===== src/Detail/Ascii.antt =====
-- src/detail.hpp: ASCII case, whitespace, the byte set of an NSS, prefixes and splitting. A byte
-- is a number below 256; a loop over a view is a recursion on what is left of it.
pub mod Split
pub mod Trim
pub mod Sets
pub mod Kept
use mhda.Base.{
  ℕ, ◌+◌, Bool, true, false, ◌&&◌, ◌||◌, List, [], ◌∷◌, ◌++◌, Bytes, codes, ltb, ◌==◌, within,
  if◌then◌else◌, length, take, map, is_empty,
}

unfoldable pub ascii_lower : ℕ → ℕ
ascii_lower c = if within b'A' b'Z' c then c + 32 else c

unfoldable pub is_ascii_space : ℕ → Bool
is_ascii_space c = c == b' ' || c == b'\t' || c == b'\n' || c == 11 || c == 12 || c == b'\r'

-- `while (i < s.size() && is_ascii_space(s[i])) ++i;`, as what the view has left
unfoldable pub trim_left : Bytes → Bytes
trim_left [] = []
trim_left (c ∷ s) = if is_ascii_space c then trim_left s else c ∷ s

-- `while (j > 0 && is_ascii_space(s[j - 1])) --j;`: a byte stays if one behind it stays or if it
-- is no space.
unfoldable pub trim_right : Bytes → Bytes
trim_right [] = []
trim_right (c ∷ s) = let r = trim_right s in if is_empty r && is_ascii_space c then [] else c ∷ r

unfoldable pub trim : Bytes → Bytes
trim s = trim_right (trim_left s)

-- Is `c` one of the bytes of `s`?
unfoldable pub is_one_of : Bytes → ℕ → Bool
is_one_of [] c = false
is_one_of (x ∷ s) c = c == x || is_one_of s c

unfoldable pub nss_byte : ℕ → Bool
unfolding is_one_of
nss_byte c =
    (within b'a' b'z' c || within b'A' b'Z' c || within b'0' b'9' c)
    || is_one_of (codes "-._~!$&'()*+,;=@/") c

unfoldable pub all_nss_bytes : Bytes → Bool
all_nss_bytes [] = true
all_nss_bytes (c ∷ s) = nss_byte c && all_nss_bytes s

unfoldable pub to_lower : Bytes → Bytes
to_lower = map ascii_lower

unfoldable pub normalize : Bytes → Bytes
normalize s = to_lower (trim s)

-- The sizes are compared first; the loop then compares byte by byte.
unfoldable pub equal_bytes_fold : Bytes → Bytes → Bool
equal_bytes_fold [] _ = true
equal_bytes_fold (x ∷ a) [] = true
equal_bytes_fold (x ∷ a) (y ∷ b) = ascii_lower x == ascii_lower y && equal_bytes_fold a b

unfoldable pub equal_ascii_fold : Bytes → Bytes → Bool
unfolding equal_bytes_fold
equal_ascii_fold a b = if length a == length b then equal_bytes_fold a b else false

unfoldable pub has_prefix_fold : Bytes → Bytes → Bool
has_prefix_fold s prefix =
    if ltb (length s) (length prefix)
    then false
    else equal_ascii_fold (take (length prefix) s) prefix

-- Everything in front of the first '?' or '#'.
unfoldable pub strip_rqf : Bytes → Bytes
strip_rqf [] = []
strip_rqf (c ∷ s) = if c == b'?' || c == b'#' then [] else c ∷ strip_rqf s

-- `cur` is the field that the loop reads, `s.substr(start, i - start)`.
unfoldable pub split_from : ℕ → Bytes → Bytes → List Bytes
split_from sep cur [] = cur ∷ []
split_from sep cur (c ∷ s) = elim (c == sep) [
  | true ↦ cur ∷ split_from sep [] s
  | false ↦ split_from sep (cur ++ c ∷ []) s
]

unfoldable pub split : Bytes → ℕ → List Bytes
unfolding split_from
split s sep = split_from sep [] s
