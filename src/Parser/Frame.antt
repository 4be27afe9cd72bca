-- ===== src/Parser/Frame.antt =====
-- src/parser.cpp: what `parse_urn` does not look at, around the NSS.
use mhda.Base.{
  ℕ, ◌<◌, ◌≡◌, ◌⊎◌, refl, sym, ap, ◌∙◌, arith, true, false, [], ◌∷◌, ◌++◌, append-nil, append_assoc,
  Bytes, All, All-imp, All-append, length, length-append, drop-append, take-append, drop, take, ltb,
}
use mhda.Detail.Ascii.Sets.{IsGraphic, IsGraphic-IsSolid, trim_graphic}
use mhda.Detail.Ascii.Trim.{IsSolid, IsSpace, trim_right_self}
use mhda.Detail.Ascii.{
  is_ascii_space, trim, trim_left, trim_right, strip_rqf, has_prefix_fold, equal_ascii_fold,
  equal_bytes_fold, ascii_lower,
}
use mhda.Nss.Pairs.{IsNssText}
use mhda.Nss.{prefix_mhda}
use mhda.Parser.RoundTrip.{text-IsGraphic}
use mhda.Parser.{parse_urn, parse_nss}

-- an r-, q- or f-component: nothing, or what follows a '?' or a '#'
abbrev pub IsTail : Bytes → Type 0
IsTail [] = Unit
IsTail (c ∷ t) = (c ≡ b'?') ⊎ (c ≡ b'#')

tail-IsSolid : (c : ℕ) → (c ≡ b'?') ⊎ (c ≡ b'#') → IsSolid c
unfolding is_ascii_space
tail-IsSolid c h = ground arith

trim_left_spaces : (w s : Bytes) → All IsSpace w → trim_left (w ++ s) ≡ trim_left s
unfolding trim_left
trim_left_spaces [] s h = refl
trim_left_spaces (c ∷ w) s (hc, h) = rw (hc, trim_left_spaces w s h) refl

trim_right_spaces : (w : Bytes) → All IsSpace w → trim_right w ≡ []
unfolding trim_right
trim_right_spaces [] h = refl
trim_right_spaces (c ∷ w) (hc, h) = rw (trim_right_spaces w h, hc) refl

-- Nothing in front of a solid byte is cut off at the end.
trim_right_past :
    (s : Bytes) (c : ℕ) (t : Bytes)
    → IsSolid c
    → (u : Bytes) × (trim_right (s ++ (c ∷ t)) ≡ s ++ (c ∷ u))
unfolding trim_right
trim_right_past [] c t h = (trim_right t, ground arith)
trim_right_past (d ∷ []) c t h = let (u, e) = trim_right_past [] c t h in (u, rw e refl)
trim_right_past (d ∷ d' ∷ s) c t h = let (u, e) = trim_right_past (d' ∷ s) c t h in (u, rw e refl)

trim_right_solid : (s r : Bytes) → All IsSolid s → All IsSpace r → trim_right (s ++ r) ≡ s
unfolding trim_right
trim_right_solid [] r _ hr = trim_right_spaces r hr
trim_right_solid (c ∷ s) r (hc, hs) hr = ground (arith, trim_right_solid s r hs hr)

-- A prefix in any casing is printable.
fold-IsGraphic :
    (p k : Bytes)
    → length p ≡ length k
    → equal_bytes_fold p k ≡ true
    → All IsGraphic k
    → All IsGraphic p
unfolding equal_bytes_fold ascii_lower
fold-IsGraphic [] k e h g = tt
fold-IsGraphic (x ∷ p) [] e h g = absurd (omega arith)
fold-IsGraphic (x ∷ p) (y ∷ k) e h (gy, g) =
    (ground arith, fold-IsGraphic p k (omega arith) (ground arith) g)

equal_fold :
    (p k : Bytes)
    → equal_ascii_fold p k ≡ true
    → (length p ≡ length k) × (equal_bytes_fold p k ≡ true)
unfolding equal_ascii_fold
equal_fold p k h = ground arith

strip_rqf-tail : (s u : Bytes) → All IsNssText s → IsTail u → strip_rqf (s ++ u) ≡ s
unfolding strip_rqf
strip_rqf-tail [] [] _ h = refl
strip_rqf-tail [] (c ∷ u) _ h = ground arith
strip_rqf-tail (c ∷ s) u ((_, _, q, f), hs) h = ground (arith, strip_rqf-tail s u hs h)

-- What is left of the end, behind printable text: the tail, without the spaces.
trimmed :
    (g q r : Bytes)
    → All IsSolid g
    → IsTail q
    → All IsSpace r
    → (u : Bytes) × IsTail u × (trim_right (g ++ (q ++ r)) ≡ g ++ u)
trimmed g [] r hg _ hr = ([], tt, trim_right_solid g r hg hr ∙ sym (append-nil g))
trimmed g (c ∷ q) r hg hq hr =
    let (u, e) = trim_right_past g c (q ++ r) (tail-IsSolid c hq) in (c ∷ u, hq, e)

trim_left_starts : (p s : Bytes) → 0 < length p → All IsSolid p → trim_left (p ++ s) ≡ p ++ s
unfolding trim_left
trim_left_starts [] s l h = absurd (omega arith)
trim_left_starts (c ∷ p) s l (hc, _) = rw hc

-- `parse_urn` behind its `trim`, at a prefix in any casing.
behind_prefix :
    (p s u : Bytes)
    → equal_ascii_fold p prefix_mhda ≡ true
    → All IsNssText s
    → IsTail u
    → (has_prefix_fold (p ++ (s ++ u)) prefix_mhda ≡ true)
      × (trim_right (strip_rqf (drop (length prefix_mhda) (p ++ (s ++ u)))) ≡ s)
unfolding has_prefix_fold
behind_prefix p s u hp hs hu =
    let size = (equal_fold p prefix_mhda hp).0 in
    let front : take (length prefix_mhda) (p ++ (s ++ u)) ≡ p =
      ap (λ n. take n (p ++ (s ++ u))) (sym size) ∙ take-append p (s ++ u) in
    let rest : drop (length prefix_mhda) (p ++ (s ++ u)) ≡ s ++ u =
      ap (λ n. drop n (p ++ (s ++ u))) (sym size) ∙ drop-append p (s ++ u) in
    let long : ltb (length (p ++ (s ++ u))) (length prefix_mhda) ≡ false =
      ground (arith, length-append p (s ++ u)) in
    (
      rw (long, front, hp) refl,
      ap (λ t. trim_right (strip_rqf t)) rest
          ∙ ap trim_right (strip_rqf-tail s u hs hu)
          ∙ trim_right_self s (All-imp IsGraphic IsSolid IsGraphic-IsSolid s (text-IsGraphic s hs)),
    )

-- parse_urn reads the NSS alone: ASCII whitespace around the URN, the casing of its prefix, and an
-- r-, q- or f-component behind it make no difference.
pub parse_urn-parse_nss :
    (w p s q r : Bytes)
    → All IsSpace w
    → equal_ascii_fold p prefix_mhda ≡ true
    → All IsNssText s
    → IsTail q
    → All IsSpace r
    → parse_urn (w ++ (p ++ (s ++ (q ++ r)))) ≡ parse_nss s
unfolding parse_urn parse_nss trim
parse_urn-parse_nss w p s q r hw hp hs hq hr =
    let (size, fold) = equal_fold p prefix_mhda hp in
    let letters = fold-IsGraphic p prefix_mhda size fold (ground arith) in
    let solid =
      λ (t : Bytes) (h : All IsGraphic t). All-imp IsGraphic IsSolid IsGraphic-IsSolid t h in
    let front = All-append IsSolid p s (solid p letters) (solid s (text-IsGraphic s hs)) in
    let (u, hu, e) = trimmed (p ++ s) q r front hq hr in
    let cut : trim (w ++ (p ++ (s ++ (q ++ r)))) ≡ p ++ (s ++ u) =
      ap trim_right (trim_left_spaces w _ hw ∙ trim_left_starts p _ (omega arith) (solid p letters))
      ∙ ap trim_right (sym (append_assoc p s (q ++ r)))
      ∙ e
      ∙ append_assoc p s u in
    let (found, body) = behind_prefix p s u hp hs hu in
    rw (cut, found, body, trim_graphic s (text-IsGraphic s hs)) refl
