-- ===== src/Detail/Ascii/Split.antt =====
-- src/detail.hpp: `split` and joining with the separator.
use mathlib.Core.List.{cons-ne-nil}
use mhda.Base.{
  ℕ, ◌≡◌, ◌≢◌, refl, ◌∙◌, inl, inr, List, [], ◌∷◌, ◌++◌, append_assoc, append-nil, Bytes, ◌==◌, All,
  All-append, arith, Bool-cases,
}
use mhda.Detail.Ascii.{split, split_from}

abbrev pub Lacks : ℕ → Bytes → Type 0
Lacks sep = All (λ c. c ≢ sep)

-- the fields, each behind a separator
abbrev pub tailed : ℕ → List Bytes → Bytes
tailed sep [] = []
tailed sep (p ∷ ps) = sep ∷ (p ++ tailed sep ps)

-- the fields with separators between them
abbrev pub joined : ℕ → List Bytes → Bytes
joined sep [] = []
joined sep (p ∷ ps) = p ++ tailed sep ps

split_from_at : (sep : ℕ) (cur s : Bytes) → split_from sep cur (sep ∷ s) ≡ cur ∷ split_from sep [] s
unfolding split_from
split_from_at sep cur s = ground arith

split_from_past :
    (sep c : ℕ) (cur s : Bytes)
    → c ≢ sep
    → split_from sep cur (c ∷ s) ≡ split_from sep (cur ++ c ∷ []) s
unfolding split_from
split_from_past sep c cur s h = ground arith

split_from-append :
    (sep : ℕ) (p : Bytes) (cur s : Bytes)
    → Lacks sep p
    → split_from sep cur (p ++ s) ≡ split_from sep (cur ++ p) s
split_from-append sep [] cur s h = rw append-nil
split_from-append sep (c ∷ p) cur s (hc, hp) =
    split_from_past sep c cur (p ++ s) hc
    ∙ split_from-append sep p (cur ++ c ∷ []) s hp
    ∙ rw append_assoc

split_from-tailed :
    (sep : ℕ) (ps : List Bytes) (cur : Bytes)
    → All (Lacks sep) ps
    → split_from sep cur (tailed sep ps) ≡ cur ∷ ps
split_from-tailed sep [] cur h = unfold split_from in refl
split_from-tailed sep (p ∷ ps) cur (hp, hps) =
    rw
      (split_from_at, split_from-append sep p [] (tailed sep ps) hp, split_from-tailed sep ps p hps)

-- Splitting a join gives the fields back, if there is one and none holds the separator.
pub split-joined :
    (sep : ℕ) (p : Bytes) (ps : List Bytes)
    → All (Lacks sep) (p ∷ ps)
    → split (joined sep (p ∷ ps)) sep ≡ p ∷ ps
unfolding split
split-joined sep p ps (hp, hps) =
    rw (split_from-append sep p [] (tailed sep ps) hp) (split_from-tailed sep ps p hps)

-- No field holds the separator.
split_from-Lacks :
    (sep : ℕ) (s cur : Bytes) → Lacks sep cur → All (Lacks sep) (split_from sep cur s)
unfolding split_from
split_from-Lacks sep [] cur h = (h, tt)
split_from-Lacks sep (c ∷ s) cur h = elim (Bool-cases (c == sep)) [
  | inl e ↦ rw (e, split_from) (h, split_from-Lacks sep s [] tt)
  | inr e ↦
      rw (e, split_from)
        (split_from-Lacks sep s (cur ++ c ∷ []) (All-append _ cur (c ∷ []) h (ground arith, tt)))
]

tailed-split_from : (sep : ℕ) (s cur : Bytes) → tailed sep (split_from sep cur s) ≡ sep ∷ (cur ++ s)
unfolding split_from
tailed-split_from sep [] cur = rw append-nil
tailed-split_from sep (c ∷ s) cur = elim (Bool-cases (c == sep)) [
  | inl e ↦ let e' : c ≡ sep = ground arith in rw (e, split_from, tailed-split_from sep s [], e')
  | inr e ↦ rw (e, split_from, tailed-split_from sep s (cur ++ c ∷ []), append_assoc)
]

split_from-ne-nil : (sep : ℕ) (s cur : Bytes) → split_from sep cur s ≢ []
unfolding split_from
split_from-ne-nil sep [] cur = cons-ne-nil _ _
split_from-ne-nil sep (c ∷ s) cur = ground (arith, split_from-ne-nil sep s (cur ++ c ∷ []))

joined-of_tailed :
    (sep : ℕ) (ps : List Bytes) (s : Bytes) → ps ≢ [] → tailed sep ps ≡ sep ∷ s → joined sep ps ≡ s
joined-of_tailed sep [] s ne h = absurd (ne refl)
joined-of_tailed sep (p ∷ ps) s ne h = cc

-- The fields of every text join to the text, there is at least one, and none holds the separator.
pub split_lem :
    (s : Bytes) (sep : ℕ)
    → (joined sep (split s sep) ≡ s) × (split s sep ≢ []) × All (Lacks sep) (split s sep)
unfolding split
split_lem s sep = (
  joined-of_tailed sep _ s (split_from-ne-nil sep s []) (tailed-split_from sep s []),
  split_from-ne-nil sep s [],
  split_from-Lacks sep s [] tt,
)
