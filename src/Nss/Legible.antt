-- ===== src/Nss/Legible.antt =====
-- src/nss_parser.cpp: what `parse_nss_map` says of a text that it refuses.
use mhda.Base.{
  ℕ, ◌≡◌, refl, arith, List, [], ◌∷◌, ◌++◌, Option, none, some, Bytes, IsByte, codes, All,
  All-append, true, find, Option-cases, inl, inr,
}
use mhda.Detail.Ascii.Kept.{All-split}
use mhda.Detail.Ascii.{split}
use mhda.Detail.Quote.Legible.{IsText, Yields, Yields->>=, printable, said, joins, thrown, quoted}
use mhda.Detail.Quote.Printable.{IsPrintable, quote-IsPrintable}
use mhda.Detail.Quote.{quote}
use mhda.Error.{Result, invalid_nss}
use mhda.Nss.{
  Components, first_delimiter, add_component, add_components, back, parse_parts, parse_delimited,
  parse_nss_map,
}

-- a failure with a printable message, or a map of texts of bytes
abbrev pub IsEntry : Bytes × Bytes → Type 0
IsEntry e = All IsByte e.0 × All IsByte e.1

abbrev pub IsMapped : Result Components → Type 0
IsMapped = Yields (All IsEntry)

add_component-IsMapped :
    (k v : Bytes) (out : Components)
    → All IsByte k
    → All IsByte v
    → All IsEntry out
    → IsMapped (add_component k v out)
unfolding add_component
add_component-IsMapped k v out hk hv ho =
    let about = λ (front : Bytes) (h : printable front ≡ true). quoted invalid_nss front k h hk in
    ground (
      arith,
      thrown invalid_nss (codes "empty component key") (said (codes "empty component key") refl),
      about (codes "byte not allowed in component key ") refl,
      about (codes "empty value for ") refl,
      about (codes "byte not allowed in value for ") refl,
      about (codes "duplicate component ") refl,
      All-append IsEntry out ((k, v) ∷ []) ho ((hk, hv), tt),
      thrown invalid_nss (codes "component key " ++ (quote k ++ codes " must be lowercase")) (
          joins (codes "component key ") (quote k ++ codes " must be lowercase")
            (said (codes "component key ") refl)
            (joins (quote k) (codes " must be lowercase") (quote-IsPrintable k hk)
              (said (codes " must be lowercase") refl))),
    )

add_components-IsMapped :
    (parts : List Bytes) (out : Components)
    → All (All IsByte) parts
    → All IsEntry out
    → IsMapped (add_components parts out)
unfolding add_components
add_components-IsMapped (k ∷ v ∷ parts) out (hk, (hv, h)) ho =
    Yields->>= (All IsEntry) (All IsEntry) (add_component k v out) (add_components parts)
      (add_component-IsMapped k v out hk hv ho) (λ m hm. add_components-IsMapped parts m h hm)
add_components-IsMapped (k ∷ []) out h ho = ho
add_components-IsMapped [] out h ho = ho

back-IsByte : (parts : List Bytes) → All (All IsByte) parts → All IsByte (back parts)
unfolding back
back-IsByte [] h = tt
back-IsByte (p ∷ []) (h, _) = h
back-IsByte (p ∷ q ∷ ps) (_, h) = back-IsByte (q ∷ ps) h

parse_parts-IsMapped : (parts : List Bytes) → All (All IsByte) parts → IsMapped (parse_parts parts)
unfolding parse_parts
parse_parts-IsMapped parts h = ground (
  arith,
  quoted invalid_nss (codes "missing value for ") (back parts) refl (back-IsByte parts h),
  add_components-IsMapped parts [] h tt,
)

first_delimiter-IsPrintable : (s : Bytes) (c : ℕ) → first_delimiter s ≡ some c → IsPrintable c
unfolding first_delimiter
first_delimiter-IsPrintable [] c h = absurd (cc)
first_delimiter-IsPrintable (b ∷ s) c h = ground (arith, first_delimiter-IsPrintable s c)

delimited : (c : ℕ) → IsPrintable c → IsText (codes "'" ++ (c ∷ codes "' inside the NSS"))
delimited c h = ((said (codes "'") refl).0, (h, said (codes "' inside the NSS") refl))

-- Whatever bytes the text holds, a failure has a printable message, and the map holds bytes.
pub parse_nss_map-IsMapped : (s : Bytes) → All IsByte s → IsMapped (parse_nss_map s)
unfolding parse_nss_map parse_delimited
parse_nss_map-IsMapped [] h = tt
parse_nss_map-IsMapped (b ∷ s) h = elim (Option-cases (first_delimiter (b ∷ s))) [
  | inl e ↦ rw e (parse_parts-IsMapped (split (b ∷ s) b':') (All-split IsByte (b ∷ s) b':' h))
  | inr (c, e) ↦ rw e (thrown invalid_nss _ (delimited c (first_delimiter-IsPrintable (b ∷ s) c e)))
]

abbrev pub IsFound : Option Bytes → Type 0
IsFound none = Unit
IsFound (some v) = All IsByte v

pub find-IsFound : (k : Bytes) (m : Components) → All IsEntry m → IsFound (find k m)
unfolding find
find-IsFound k [] h = tt
find-IsFound k ((j, v) ∷ m) ((_, hv), h) = ground (arith, find-IsFound k m h)
