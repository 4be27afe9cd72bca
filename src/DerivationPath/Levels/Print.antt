-- ===== src/DerivationPath/Levels/Print.antt =====
-- src/derivation_path.cpp: `parse_levels` on what `format_levels` prints.
use mhda.Base.{
  ℕ, ◌<◌, ◌^◌, ◌≡◌, ◌≢◌, refl, sym, Bool, true, false, List, [], ◌∷◌, ◌++◌, append_assoc,
  append-nil, some, Bytes, if◌then◌else◌, All, All-append, All-imp, arith, map, is_empty,
}
use mhda.DerivationPath.Levels.{
  RawLevel, is_hardening_marker, strip_marker, parse_segment, any_empty, split_path, parse_segments,
  parse_levels,
}
use mhda.DerivationPath.Text.Decimal.{
  IsDecimal, decimal-IsDecimal, decimal-exactly, parse_uint31_dec-decimal,
}
use mhda.DerivationPath.Text.{
  AddressIndex, decimal, append_uint32, append_marker, append_levels, format_levels,
}
use mhda.Detail.Ascii.Split.{Lacks, tailed, joined, split-joined}
use mhda.Detail.Ascii.{split}

abbrev pub IsIndex31 : AddressIndex → Type 0
IsIndex31 l = l.index < 2 ^ 31

-- what one level prints
abbrev pub marker : Bool → Bytes
marker hardened = if hardened then b'\'' ∷ [] else []

abbrev pub segment_text : AddressIndex → Bytes
segment_text l = decimal l.index ++ marker l.is_hardened

-- the level that its print is read as: the digits are spelled with no leading zero
abbrev pub exactly : AddressIndex → RawLevel
exactly l = record { index = l.index; is_hardened = l.is_hardened; exact = true }

pub append_marker_lem : (out : Bytes) (h : Bool) → append_marker out h ≡ out ++ marker h
unfolding append_marker
append_marker_lem out true = refl
append_marker_lem out false = sym (append-nil out)

append_levels-tailed :
    (ls : List AddressIndex) (out : Bytes)
    → append_levels out ls ≡ out ++ tailed b'/' (map segment_text ls)
unfolding append_levels append_uint32
append_levels-tailed [] out = sym (append-nil out)
append_levels-tailed (l ∷ ls) out = simp (append_levels-tailed ls, append_marker_lem, append_assoc)

pub format_levels-tailed :
    (ls : List AddressIndex) → format_levels ls ≡ b'm' ∷ tailed b'/' (map segment_text ls)
unfolding format_levels
format_levels-tailed ls = append_levels-tailed ls (b'm' ∷ [])

strip_marker-digits : (s : Bytes) → All IsDecimal s → strip_marker s ≡ (s, false)
unfolding strip_marker is_hardening_marker
strip_marker-digits [] h = refl
strip_marker-digits (c ∷ []) (h, _) = ground arith
strip_marker-digits (c ∷ d ∷ s) (_, h) = rw (strip_marker-digits (d ∷ s) h)

strip_marker-quote : (s : Bytes) → strip_marker (s ++ b'\'' ∷ []) ≡ (s, true)
unfolding strip_marker is_hardening_marker
strip_marker-quote [] = refl
strip_marker-quote (c ∷ []) = refl
strip_marker-quote (c ∷ d ∷ s) = rw (strip_marker-quote (d ∷ s))

strip_marker-text : (s : Bytes) (h : Bool) → All IsDecimal s → strip_marker (s ++ marker h) ≡ (s, h)
strip_marker-text s true d = strip_marker-quote s
strip_marker-text s false d = rw append-nil (strip_marker-digits s d)

parse_segment-text :
    (l : AddressIndex) → IsIndex31 l → parse_segment (segment_text l) ≡ some (exactly l)
unfolding parse_segment
parse_segment-text l h = rw (
  strip_marker-text (decimal l.index) l.is_hardened (decimal-IsDecimal l.index),
  parse_uint31_dec-decimal l.index h,
  (decimal-exactly l.index (omega arith)).0,
)

parse_segments-text :
    (ls : List AddressIndex)
    → All IsIndex31 ls
    → parse_segments (map segment_text ls) ≡ some (map exactly ls)
unfolding parse_segments
parse_segments-text [] h = refl
parse_segments-text (l ∷ ls) (h, hs) = rw (parse_segment-text l h, parse_segments-text ls hs)

digit_lacks : (c : ℕ) → IsDecimal c → c ≢ b'/'
digit_lacks c h = omega arith

marker-Lacks : (h : Bool) → Lacks b'/' (marker h)
marker-Lacks true = (omega arith, tt)
marker-Lacks false = tt

segments_lack : (ls : List AddressIndex) → All (Lacks b'/') (map segment_text ls)
segments_lack [] = tt
segments_lack (l ∷ ls) = (
  All-append _ (decimal l.index) (marker l.is_hardened)
      (All-imp _ _ digit_lacks _ (decimal-IsDecimal l.index)) (marker-Lacks l.is_hardened),
  segments_lack ls,
)

append-is_empty : (a b : Bytes) → a ≢ [] → is_empty (a ++ b) ≡ false
append-is_empty [] b h = absurd (h refl)
append-is_empty (c ∷ a) b h = refl

segments_filled :
    (ls : List AddressIndex) → All IsIndex31 ls → any_empty (map segment_text ls) ≡ false
unfolding any_empty
segments_filled [] h = refl
segments_filled (l ∷ ls) (h, hs) = rw (
  append-is_empty (decimal l.index) (marker l.is_hardened)
      (decimal-exactly l.index (omega arith)).1,
  segments_filled ls hs,
)

split_path-body :
    (rest : Bytes) (segs : List Bytes)
    → is_empty rest ≡ false
    → split rest b'/' ≡ segs
    → any_empty segs ≡ false
    → split_path (b'm' ∷ b'/' ∷ rest) ≡ some segs
unfolding split_path
split_path-body rest segs filled e full = rw (filled, e, full)

split_path-tailed :
    (ls : List AddressIndex)
    → All IsIndex31 ls
    → split_path (b'm' ∷ tailed b'/' (map segment_text ls)) ≡ some (map segment_text ls)
split_path-tailed [] h = unfold split_path in refl
split_path-tailed (l ∷ ls) h =
    split_path-body (joined b'/' (map segment_text (l ∷ ls))) _ filled
      (split-joined b'/' (segment_text l) (map segment_text ls) (segments_lack (l ∷ ls)))
      (segments_filled (l ∷ ls) h)
  where
    filled : is_empty (joined b'/' (map segment_text (l ∷ ls))) ≡ false
    filled =
        rw
          (append_assoc (decimal l.index) (marker l.is_hardened)
            (tailed b'/' (map segment_text ls)))
          (append-is_empty (decimal l.index) _ (decimal-exactly l.index (omega arith)).1)

-- The level parser gives back the levels that were printed, if all are below 2^31, each as one
-- that is spelled with no leading zero.
pub parse_levels-format_levels :
    (ls : List AddressIndex)
    → All IsIndex31 ls
    → parse_levels (format_levels ls) ≡ some (map exactly ls)
unfolding parse_levels
parse_levels-format_levels ls h =
    rw (format_levels-tailed ls, split_path-tailed ls h) (parse_segments-text ls h)
