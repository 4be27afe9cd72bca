-- ===== src/Detail/Ascii/Trim.antt =====
-- src/detail.hpp: `trim` and `trim_right`.
use mhda.Base.{ℕ, ◌≡◌, refl, ap, true, false, inl, inr, [], ◌∷◌, ◌++◌, Bytes, All, Bool-cases}
use mhda.Detail.Ascii.{is_ascii_space, trim_left, trim_right, trim}

abbrev pub IsSpace : ℕ → Type 0
IsSpace c = is_ascii_space c ≡ true

abbrev pub IsSolid : ℕ → Type 0
IsSolid c = is_ascii_space c ≡ false

-- The text does not begin with a space.
abbrev pub StartsSolid : Bytes → Type 0
StartsSolid [] = Unit
StartsSolid (c ∷ s) = IsSolid c

-- The text does not end with a space.
abbrev pub EndsSolid : Bytes → Type 0
EndsSolid [] = Unit
EndsSolid (c ∷ []) = IsSolid c
EndsSolid (c ∷ d ∷ s) = EndsSolid (d ∷ s)

trim_left_lem :
    (s : Bytes) → (l : Bytes) × (s ≡ l ++ trim_left s) × All IsSpace l × StartsSolid (trim_left s)
unfolding trim_left
trim_left_lem [] = ([], refl, tt, tt)
trim_left_lem (c ∷ s) = elim (Bool-cases (is_ascii_space c)) [
  | inl e ↦
      (let (l, splits, spaces, solid) = trim_left_lem s in
        (c ∷ l, rw e (ap (◌∷◌ c) splits), (e, spaces), rw e solid))
  | inr e ↦ ([], rw e, tt, rw e e)
]

-- `trim_right` at a byte, by whether anything is left behind it
trim_right_drop : (c : ℕ) (s : Bytes) → trim_right s ≡ [] → IsSpace c → trim_right (c ∷ s) ≡ []
unfolding trim_right
trim_right_drop c s e h = rw (e, h)

trim_right_last : (c : ℕ) (s : Bytes) → trim_right s ≡ [] → IsSolid c → trim_right (c ∷ s) ≡ c ∷ []
unfolding trim_right
trim_right_last c s e h = rw (e, h)

trim_right_keep : (c d : ℕ) (s r : Bytes) → trim_right s ≡ d ∷ r → trim_right (c ∷ s) ≡ c ∷ d ∷ r
unfolding trim_right
trim_right_keep c d s r e = rw e

-- `t` is `s` without the spaces behind it.
abbrev pub IsTrimmedRight : Bytes → Bytes → Type 0
IsTrimmedRight s t = (r : Bytes) × (s ≡ t ++ r) × All IsSpace r × EndsSolid t

trim_right_step :
    (c : ℕ) (s t : Bytes)
    → trim_right s ≡ t
    → IsTrimmedRight s t
    → IsTrimmedRight (c ∷ s) (trim_right (c ∷ s))
trim_right_step c s [] e (r, splits, spaces, _) = elim (Bool-cases (is_ascii_space c)) [
  | inl h ↦ rw (trim_right_drop c s e h) (c ∷ r, ap (◌∷◌ c) splits, (h, spaces), tt)
  | inr h ↦ rw (trim_right_last c s e h) (r, ap (◌∷◌ c) splits, spaces, h)
]
trim_right_step c s (d ∷ t) e (r, splits, spaces, solid) =
    rw (trim_right_keep c d s t e) (r, ap (◌∷◌ c) splits, spaces, solid)

pub trim_right_lem : (s : Bytes) → IsTrimmedRight s (trim_right s)
trim_right_lem [] = unfold trim_right in ([], refl, tt, tt)
trim_right_lem (c ∷ s) = trim_right_step c s (trim_right s) refl (trim_right_lem s)

StartsSolid-left : (t r : Bytes) → StartsSolid (t ++ r) → StartsSolid t
StartsSolid-left [] r h = tt
StartsSolid-left (c ∷ t) r h = h

-- `trim` takes away spaces in front and behind, and what it leaves begins and ends with none.
pub trim_lem :
    (s : Bytes)
    → (l : Bytes) × (r : Bytes) × (s ≡ l ++ (trim s ++ r))
      × All IsSpace l
      × All IsSpace r
      × StartsSolid (trim s)
      × EndsSolid (trim s)
unfolding trim
trim_lem s =
    let (l, left, before, starts) = trim_left_lem s in
    let (r, right, behind, ends) = trim_right_lem (trim_left s) in
    (
      l,
      r,
      rw (← right) left,
      before,
      behind,
      StartsSolid-left (trim_right (trim_left s)) r (rw right at starts),
      ends,
    )

pub trim_right_self : (s : Bytes) → All IsSolid s → trim_right s ≡ s
trim_right_self [] h = unfold trim_right in refl
trim_right_self (c ∷ []) (h, _) = trim_right_last c [] (trim_right_self [] tt) h
trim_right_self (c ∷ d ∷ s) (h, hs) = trim_right_keep c d (d ∷ s) s (trim_right_self (d ∷ s) hs)

trim_left_self : (s : Bytes) → All IsSolid s → trim_left s ≡ s
unfolding trim_left
trim_left_self [] h = refl
trim_left_self (c ∷ s) (h, hs) = rw h

-- A text with no space is left alone.
pub trim_self : (s : Bytes) → All IsSolid s → trim s ≡ s
unfolding trim
trim_self s h = rw (trim_left_self s h) (trim_right_self s h)
