-- ===== src/Detail/Number/Value.antt =====
-- What `parse_in_base`, `parse_uint32` and `parse_uint31_dec` of src/detail.cpp accept, against the
-- number that a digit string spells with no bound.
use mhda.Base.{
  ℕ, ◌+◌, ◌-◌, ◌*◌, ◌≤◌, ◌<◌, ◌^◌, ◌≡◌, ◌≢◌, ◌⊎◌, ◌↔◌, inl, inr, refl, [], ◌∷◌, some, none, Option,
  Bytes, leb, if◌then◌else◌, All, arith, ◌>>=◌, is_empty, ltb, >>=-eq-some, Bool, true, false, ◌&&◌,
  ◌==◌,
}
use mathlib.Core.List.{cons-ne-nil}
use native.Mathlib.Nat.{le_trans}
use mhda.Detail.Number.{
  max_uint64, max_uint32, digit_value, push_digit, accumulate, parse_in_base, numeral, parse_uint32,
  parse_uint31_dec,
}

-- A decimal digit, or in base 16 a hexadecimal one of either case.
abbrev pub IsDigit : ℕ → ℕ → Type 0
IsDigit base c =
    (b'0' ≤ c) × (c ≤ b'9')
    ⊎ (base ≡ 16) × (b'a' ≤ c) × (c ≤ b'f')
    ⊎ (base ≡ 16) × (b'A' ≤ c) × (c ≤ b'F')

-- the value of a digit
abbrev pub weight : ℕ → ℕ
weight c = if leb c b'9' then c - b'0' else if leb c b'F' then c - 55 else c - 87

-- the number that digits spell behind `n`, with no bound
unfoldable pub spelled : ℕ → ℕ → Bytes → ℕ
spelled base n [] = n
spelled base n (c ∷ s) = spelled base (n * base + weight c) s

abbrev pub IsBase : ℕ → Type 0
IsBase base = (base ≡ 10) ⊎ (base ≡ 16)

digit_value_sound :
    (base c : ℕ) {d : ℕ} → digit_value base c ≡ some d → IsDigit base c × (d ≡ weight c)
unfolding digit_value
digit_value_sound base c h = ground arith

digit_value_complete : (base c : ℕ) → IsDigit base c → digit_value base c ≡ some (weight c)
unfolding digit_value
digit_value_complete base c h = ground arith

push_digit_sound :
    (base n d : ℕ) {v : ℕ}
    → IsBase base
    → push_digit base n d ≡ some v
    → (v ≡ n * base + d) × (v ≤ max_uint64)
unfolding push_digit
push_digit_sound base n d (inl b) h = ground arith
push_digit_sound base n d (inr b) h = ground arith

push_digit_complete :
    (base n d : ℕ)
    → IsBase base
    → d < base
    → n * base + d ≤ max_uint64
    → push_digit base n d ≡ some (n * base + d)
unfolding push_digit
push_digit_complete base n d (inl b) l h = ground arith
push_digit_complete base n d (inr b) l h = ground arith

weight-lt : (base c : ℕ) → IsBase base → IsDigit base c → weight c < base
weight-lt base c b h = ground arith

le-step : (base n w : ℕ) → IsBase base → n ≤ n * base + w
le-step base n w (inl b) = rw b (omega arith)
le-step base n w (inr b) = rw b (omega arith)

le-spelled : (base n : ℕ) (s : Bytes) → IsBase base → n ≤ spelled base n s
unfolding spelled
le-spelled base n [] b = omega arith
le-spelled base n (c ∷ s) b =
    le_trans (le-step base n (weight c) b) (le-spelled base (n * base + weight c) s b)

accumulate_sound :
    (base : ℕ) (s : Bytes) (n : ℕ) {v : ℕ}
    → IsBase base
    → n ≤ max_uint64
    → accumulate base s n ≡ some v
    → All (IsDigit base) s × (v ≡ spelled base n s) × (v ≤ max_uint64)
unfolding accumulate spelled
accumulate_sound base [] n b l h = ground arith
accumulate_sound base (c ∷ s) n {v} b l h =
    let (d, read, rest) =
      >>=-eq-some (digit_value base c) (λ d. push_digit base n d >>= accumulate base s) h in
    let (m, pushed, later) = >>=-eq-some (push_digit base n d) (accumulate base s) rest in
    let (digit, weighs) = digit_value_sound base c read in
    let (exact, fits) = push_digit_sound base n d b pushed in
    let (digits, value, bound) = accumulate_sound base s m b fits later in
    ((digit, digits), cc, bound)

accumulate_complete :
    (base : ℕ) (s : Bytes) (n : ℕ)
    → IsBase base
    → All (IsDigit base) s
    → spelled base n s ≤ max_uint64
    → accumulate base s n ≡ some (spelled base n s)
unfolding accumulate spelled
accumulate_complete base [] n b d l = refl
accumulate_complete base (c ∷ s) n b (dc, ds) l =
    let fits = le_trans (le-spelled base (n * base + weight c) s b) l in
    let pushed = push_digit_complete base n (weight c) b (weight-lt base c b dc) fits in
    rw (digit_value_complete base c dc, pushed)
      (accumulate_complete base s (n * base + weight c) b ds l)

parse_in_base_sound :
    (s : Bytes) (base : ℕ) {v : ℕ}
    → IsBase base
    → parse_in_base s base ≡ some v
    → (s ≢ []) × All (IsDigit base) s × (v ≡ spelled base 0 s) × (v ≤ max_uint64)
unfolding parse_in_base
parse_in_base_sound [] base b h = cc
parse_in_base_sound (c ∷ s) base b h =
    let (digits, value, bound) = accumulate_sound base (c ∷ s) 0 b (omega arith) h in
    (cons-ne-nil c s, digits, value, bound)

parse_in_base_complete :
    (s : Bytes) (base : ℕ)
    → IsBase base
    → s ≢ []
    → All (IsDigit base) s
    → spelled base 0 s ≤ max_uint64
    → parse_in_base s base ≡ some (spelled base 0 s)
unfolding parse_in_base
parse_in_base_complete [] base b ne d l = absurd (ne refl)
parse_in_base_complete (c ∷ s) base b ne d l = accumulate_complete base (c ∷ s) 0 b d l

-- In base 10 or 16 a text is read exactly if it is not empty, all of it is digits of the base, and
-- the number that they spell with no bound fits 64 bits; what is read is that number.
pub parse_in_base_iff :
    (s : Bytes) (base v : ℕ)
    → IsBase base
    → (parse_in_base s base ≡ some v)
      ↔ ((s ≢ []) × All (IsDigit base) s × (v ≡ spelled base 0 s) × (v < 2 ^ 64))
parse_in_base_iff s base v b = (
  λ h.
      (let (ne, digits, value, bound) = parse_in_base_sound s base b h in
        (ne, digits, value, omega (arith, bound))),
  λ h.
      (let fits : spelled base 0 s ≤ max_uint64 = omega (arith, h.2, h.3) in
        rw h.2 (parse_in_base_complete s base b h.0 h.1 fits)),
)

-- A level index is read exactly from the non-empty strings of decimal digits whose value is below
-- 2^31, and what is read is that value.
pub parse_uint31_dec_iff :
    (s : Bytes) (v : ℕ)
    → (parse_uint31_dec s ≡ some v)
      ↔ ((s ≢ []) × All (IsDigit 10) s × (v ≡ spelled 10 0 s) × (v < 2 ^ 31))
unfolding parse_uint31_dec
parse_uint31_dec_iff s v = (
  λ h.
      (let (n, read, small) =
          >>=-eq-some (parse_in_base s 10)
            (λ value. if leb (2 ^ 31) value then none else some value) h in
        let (ne, digits, value, _) = parse_in_base_sound s 10 (inl refl) read in
        (ne, digits, ground arith, ground arith)),
  λ h. rw (parse_in_base_complete s 10 (inl refl) h.0 h.1 (omega arith)) (ground arith),
)

numeral-IsBase : (s : Bytes) → IsBase (numeral s).0
unfolding numeral
numeral-IsBase [] = inl refl
numeral-IsBase (z ∷ []) = inl refl
numeral-IsBase (z ∷ x ∷ s) = ground arith

-- the value, if it fits a uint32_t
abbrev fit32 : ℕ → Option ℕ
fit32 value = if ltb max_uint32 value then none else some value

-- The early returns on an empty text and on a bare "0x" refuse nothing that the loop accepts.
guarded :
    (b : Bool) (base : ℕ) (body : Bytes)
    → (if b && is_empty body then none else parse_in_base body base >>= fit32)
      ≡ (parse_in_base body base >>= fit32)
unfolding parse_in_base
guarded true base [] = refl
guarded true base (c ∷ s) = refl
guarded false base body = refl

parse_uint32_lem :
    (s : Bytes) → parse_uint32 s ≡ (parse_in_base (numeral s).1 (numeral s).0 >>= fit32)
unfolding parse_uint32
parse_uint32_lem [] = unfold numeral parse_in_base in refl
parse_uint32_lem (c ∷ s) =
    guarded ((numeral (c ∷ s)).0 == 16) (numeral (c ∷ s)).0 (numeral (c ∷ s)).1

pub parse_uint32_iff :
    (s : Bytes) (v : ℕ)
    → (parse_uint32 s ≡ some v) ↔ (
        ((numeral s).1 ≢ [])
        × All (IsDigit (numeral s).0) (numeral s).1
        × (v ≡ spelled (numeral s).0 0 (numeral s).1)
        × (v < 2 ^ 32))
parse_uint32_iff s v = (
  λ h.
      (let (n, read, small) =
          >>=-eq-some (parse_in_base (numeral s).1 (numeral s).0) fit32
            (rw parse_uint32_lem at h) in
        let (ne, digits, value, _) =
          parse_in_base_sound (numeral s).1 (numeral s).0 (numeral-IsBase s) read in
        (ne, digits, ground arith, ground arith)),
  λ h.
      rw
        (
          parse_uint32_lem,
          parse_in_base_complete (numeral s).1 (numeral s).0 (numeral-IsBase s) h.0 h.1
              (omega arith),
        )
        (ground arith),
)
