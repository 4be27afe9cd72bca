-- ===== src/Detail/Ascii/Kept.antt =====
-- src/detail.hpp: what holds of all bytes of a text holds of what the helpers cut from it.
use mathlib.Core.Path.{subst}
use mhda.Base.{
  ℕ, arith, inl, inr, [], ◌∷◌, ◌++◌, Bytes, IsByte, All, All-append, All-left, All-right,
  Bool-cases, ◌==◌, ◌||◌,
}
use mhda.Detail.Ascii.Trim.{trim_lem, trim_right_lem}
use mhda.Detail.Ascii.{
  ascii_lower, to_lower, trim, trim_right, normalize, strip_rqf, split, split_from,
}

module _ {κ} (P : ℕ → Type κ) where
  pub All-trim : (s : Bytes) → All P s → All P (trim s)
  All-trim s h =
      let t = trim_lem s in
      All-left P (trim s) t.1 (All-right P t.0 (trim s ++ t.1) (subst (All P) t.2 h))

  pub All-trim_right : (s : Bytes) → All P s → All P (trim_right s)
  All-trim_right s h =
      let t = trim_right_lem s in All-left P (trim_right s) t.0 (subst (All P) t.1 h)

  pub All-strip_rqf : (s : Bytes) → All P s → All P (strip_rqf s)
  unfolding strip_rqf
  All-strip_rqf [] h = tt
  All-strip_rqf (c ∷ s) (hc, h) = elim (Bool-cases (c == b'?' || c == b'#')) [
    | inl e ↦ rw e tt
    | inr e ↦ rw e (hc, All-strip_rqf s h)
  ]

  All-split_from :
      (sep : ℕ) (cur s : Bytes) → All P cur → All P s → All (All P) (split_from sep cur s)
  unfolding split_from
  All-split_from sep cur [] hcur h = (hcur, tt)
  All-split_from sep cur (c ∷ s) hcur (hc, h) = elim (Bool-cases (c == sep)) [
    | inl e ↦ rw (e, split_from) (hcur, All-split_from sep [] s tt h)
    | inr e ↦
        rw (e, split_from)
          (All-split_from sep (cur ++ c ∷ []) s (All-append P cur (c ∷ []) hcur (hc, tt)) h)
  ]

  pub All-split : (s : Bytes) (sep : ℕ) → All P s → All (All P) (split s sep)
  unfolding split
  All-split s sep h = All-split_from sep [] s tt h

pub to_lower-IsByte : (s : Bytes) → All IsByte s → All IsByte (to_lower s)
unfolding to_lower ascii_lower
to_lower-IsByte [] h = tt
to_lower-IsByte (c ∷ s) (hc, h) = (ground arith, to_lower-IsByte s h)

pub normalize-IsByte : (s : Bytes) → All IsByte s → All IsByte (normalize s)
unfolding normalize
normalize-IsByte s h = to_lower-IsByte (trim s) (All-trim IsByte s h)
