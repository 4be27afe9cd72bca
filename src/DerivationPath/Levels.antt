-- ===== src/DerivationPath/Levels.antt =====
-- src/derivation_path.cpp: from the text of a path to its raw levels.
pub mod Print
use mhda.Base.{
  ℕ, Bool, true, false, not, ◌||◌, List, [], ◌∷◌, Option, none, some, Bytes, ◌==◌, if◌then◌else◌,
  ◌>>=◌, is_empty,
}
use mhda.Detail.Ascii.{split}
use mhda.Detail.Number.{parse_uint31_dec}

pub record RawLevel : Type 0 where
  pub index : ℕ
  pub is_hardened : Bool
  pub exact : Bool

unfoldable pub is_hardening_marker : ℕ → Bool
is_hardening_marker c = c == b'\'' || c == b'h' || c == b'H'

-- `seg.back()` and what `seg.remove_suffix(1)` leaves, by the marker test: the digits of the
-- segment, and whether a marker stood behind them.
unfoldable pub strip_marker : Bytes → Bytes × Bool
strip_marker [] = ([], false)
strip_marker (c ∷ []) = if is_hardening_marker c then ([], true) else (c ∷ [], false)
strip_marker (c ∷ d ∷ s) = let (body, hardened) = strip_marker (d ∷ s) in (c ∷ body, hardened)

-- `seg.size() == 1 || seg[0] != '0'`
unfoldable pub spelled_exactly : Bytes → Bool
spelled_exactly [] = true
spelled_exactly (c ∷ s) = is_empty s || not (c == b'0')

unfoldable pub parse_segment : Bytes → Option RawLevel
parse_segment seg = do
  let (digits, hardened) = strip_marker seg
  value ← parse_uint31_dec digits
  some (record { index = value; is_hardened = hardened; exact = spelled_exactly digits })

-- Is one of the segments empty?
unfoldable pub any_empty : List Bytes → Bool
any_empty [] = false
any_empty (seg ∷ segs) = is_empty seg || any_empty segs

unfoldable pub split_path : Bytes → Option (List Bytes)
split_path [] = none
split_path (c ∷ []) = if c == b'm' then some [] else none
split_path (c ∷ d ∷ rest) =
    if not (c == b'm')
    then none
    else if not (d == b'/')
    then none
    else if is_empty rest
    then none
    else if any_empty (split rest b'/')
    then none
    else some (split rest b'/')

unfoldable pub parse_segments : List Bytes → Option (List RawLevel)
parse_segments [] = some []
parse_segments (seg ∷ segs) = do
  lvl ← parse_segment seg
  lvls ← parse_segments segs
  some (lvl ∷ lvls)

unfoldable pub parse_levels : Bytes → Option (List RawLevel)
parse_levels path = do segments ← split_path path; parse_segments segments
