-- ===== src/Detail/Quote/Legible.antt =====
-- src/error.cpp and src/detail.cpp: failures whose message is one line of printable ASCII.
use mhda.Base.{
  ◌≡◌, refl, arith, Bool, true, false, ◌&&◌, ltb, [], ◌∷◌, ◌++◌, Bytes, IsByte, codes, All,
  All-append, leb,
}
use mhda.Detail.Quote.Printable.{IsPrintable, quote-IsPrintable}
use mhda.Detail.Quote.{quote, validate_free_form_value}
use mhda.Error.Method.{continue, finished}
use mhda.Error.{
  ErrorCode, parse_error, invalid_value, Result, ok, err, throw_if, what, compose, error_message,
  ◌>>=◌, ◌>>◌,
}

abbrev pub IsText : Bytes → Type 0
IsText = All IsPrintable

-- A failure with a printable message, or a value of which `P` is known.
abbrev pub Yields {ℓ} : {A : Type ℓ} → (A → Type 0) → Result A → Type 0
Yields P (ok a) = P a
Yields P (err e) = IsText (what e)

abbrev pub IsLegible {ℓ} : {A : Type ℓ} → Result A → Type 0
IsLegible r = Yields (λ _. Unit) r

abbrev pub printable : Bytes → Bool
printable [] = true
printable (c ∷ s) = leb 0x20 c && ltb c 0x7f && printable s

-- A literal is tested byte by byte.
pub said : (s : Bytes) → printable s ≡ true → IsText s
said [] h = tt
said (c ∷ s) h = ((ground arith, ground arith), said s (ground arith))

pub joins : (s t : Bytes) → IsText s → IsText t → IsText (s ++ t)
joins = All-append IsPrintable

message : (c : ErrorCode) → IsText (error_message c)
unfolding error_message
message c = said (error_message c) (by_case c)
  where
    by_case : (c : ErrorCode) → printable (error_message c) ≡ true
    by_case ErrorCode.invalid_urn = refl
    by_case _ = refl

pub thrown : (c : ErrorCode) (d : Bytes) → IsText d → IsText (what (parse_error c d))
unfolding what compose
thrown c [] h = message c
thrown c (b ∷ d) h =
    joins (error_message c) (codes ": " ++ (b ∷ d)) (message c)
      (joins (codes ": ") (b ∷ d) (said (codes ": ") refl) h)

-- a quotation behind a literal
pub quoted :
    (c : ErrorCode) (front s : Bytes)
    → printable front ≡ true
    → All IsByte s
    → IsText (what (parse_error c (front ++ quote s)))
quoted c front s h hs =
    thrown c (front ++ quote s) (joins front (quote s) (said front h) (quote-IsPrintable s hs))

pub quoted_only :
    (c : ErrorCode) (s : Bytes) → All IsByte s → IsText (what (parse_error c (quote s)))
quoted_only c s hs = thrown c (quote s) (quote-IsPrintable s hs)

module _ {ℓ κ} {A : Type ℓ} {B : Type κ} (P : A → Type 0) (Q : B → Type 0) where
  pub Yields->>= :
      (r : Result A) (f : A → Result B)
      → Yields P r
      → ((a : A) → P a → Yields Q (f a))
      → Yields Q (r >>= f)
  Yields->>= (ok a) f h k = k a h
  Yields->>= (err e) f h k = h

-- Behind a test that throws.
pub checked {ℓ} :
    {A : Type ℓ} (P : A → Type 0) (b : Bool) (c : ErrorCode) (d : Bytes) (r : Result A)
    → IsText d
    → Yields P r
    → Yields P (throw_if b c d >> r)
checked P true c d r hd h = thrown c d hd
checked P false c d r hd h = h

-- The same of methods, where `P` is known of the object that a call leaves.
module _ {ℓ} {S : Type ℓ} (P : S → Type 0) where
  abbrev pub Leaves : S × Result (Unit {0}) → Type 0
  Leaves (s, r) = P s × IsLegible r

  pub IsLegible-continue :
      (x : S × Result (Unit {0})) (k : S → S × Result (Unit {0}))
      → Leaves x
      → ((s : S) → P s → IsLegible (k s).1)
      → IsLegible (continue x (λ _. k)).1
  IsLegible-continue (s, ok a) k (hs, _) hk = hk s hs
  IsLegible-continue (s, err e) k (_, h) hk = h

pub IsLegible-finished {ℓ} :
    {S : Type ℓ} (x : S × Result (Unit {0})) → IsLegible x.1 → IsLegible (finished x)
IsLegible-finished (s, ok a) h = tt
IsLegible-finished (s, err e) h = h

pub IsLegible-value :
    (k v : Bytes) → All IsByte k → All IsByte v → IsLegible (validate_free_form_value k v)
unfolding validate_free_form_value
IsLegible-value k v hk hv =
    let text : IsText (quote v ++ (codes " for " ++ quote k)) =
      joins (quote v) _ (quote-IsPrintable v hv)
        (joins (codes " for ") (quote k) (said (codes " for ") refl) (quote-IsPrintable k hk)) in
    ground (arith, thrown invalid_value _ text)
