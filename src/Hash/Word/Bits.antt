-- ===== src/Hash/Word/Bits.antt =====
-- The laws of the bit operations that src/hash.cpp uses: bounds, disjoint fields, and the forms
-- of the choice and majority functions.
use Prim.Native.Nat.{min, max, differ, digits, bitwise, bit_and-bitwise, bit_or-bitwise}
use Prim.Native.Nat.{bit_xor-bitwise, bit_and, bit_or, bit_xor}
use native.Mathlib.Nat.{pow-suc}
use mhda.Base.{ℕ, zero, suc, ◌+◌, ◌-◌, ◌*◌, ◌/◌, ◌%◌, ◌^◌, ◌≤◌, ◌<◌, ◌≡◌, refl, ap, ◌∙◌, arith}

-- An operation on digits `f`, whose first number reads as zeros once it has run out.
module _ (z : ℕ → ℕ) (f : ℕ → ℕ → ℕ) (runs_out : (b : ℕ) → z b ≡ z (b / 2) * 2 + f 0 (b % 2)) where
  digits-suc : (n a b : ℕ) → a ≤ n → digits z f (suc n) a b ≡ digits z f n a b
  digits-suc zero zero b h = refl
  digits-suc zero (suc a) b h = absurd (omega arith)
  digits-suc (suc n) zero b h = refl
  digits-suc (suc n) (suc a) b h = rw (digits-suc n (suc a / 2) (b / 2) (omega arith))

  enough : (k n a b : ℕ) → n ≡ k + a → digits z f n a b ≡ digits z f a a b
  enough zero n a b e = ap (λ t. digits z f t a b) (omega arith)
  enough (suc k) zero a b e = absurd (omega arith)
  enough (suc k) (suc m) a b e = digits-suc m a b (omega arith) ∙ enough k m a b (omega arith)

  lowest : (a b : ℕ) → bitwise z f a b ≡ bitwise z f (a / 2) (b / 2) * 2 + f (a % 2) (b % 2)
  lowest zero b = runs_out b
  lowest (suc a) b =
      ap (λ t. t * 2 + f (suc a % 2) (b % 2))
        (enough (a - suc a / 2) a (suc a / 2) (b / 2) (omega arith))

pub or_step : (a b : ℕ) → bit_or a b ≡ bit_or (a / 2) (b / 2) * 2 + max (a % 2) (b % 2)
or_step a b = simp bit_or-bitwise (lowest (λ y. y) max (λ y. omega arith) a b)

pub and_step : (a b : ℕ) → bit_and a b ≡ bit_and (a / 2) (b / 2) * 2 + min (a % 2) (b % 2)
and_step a b = simp bit_and-bitwise (lowest (λ y. 0) min (λ y. omega arith) a b)

pub xor_step : (a b : ℕ) → bit_xor a b ≡ bit_xor (a / 2) (b / 2) * 2 + differ (a % 2) (b % 2)
xor_step a b = simp bit_xor-bitwise (lowest (λ y. y) differ (λ y. omega arith) a b)

-- The operations on words of `k` bits give words of `k` bits.
pub or-lt : (k a b : ℕ) → a < 2 ^ k → b < 2 ^ k → bit_or a b < 2 ^ k
or-lt zero zero zero p q = p
or-lt zero zero (suc b) p q = absurd (omega arith)
or-lt zero (suc a) b p q = absurd (omega arith)
or-lt (suc k) a b p q =
    ground (arith, pow-suc 2 k, or_step a b, or-lt k (a / 2) (b / 2) (omega arith) (omega arith))

pub and-lt : (k a b : ℕ) → a < 2 ^ k → bit_and a b < 2 ^ k
and-lt zero zero b p = ground (arith, bit_and-bitwise 0 b)
and-lt zero (suc a) b p = absurd (omega arith)
and-lt (suc k) a b p =
    ground (arith, pow-suc 2 k, and_step a b, and-lt k (a / 2) (b / 2) (omega arith))

differ_digits : (x y : ℕ) → x < 2 → y < 2 → differ x y ≡ (x + y) % 2
differ_digits zero y p q = omega arith
differ_digits (suc zero) zero p q = refl
differ_digits (suc zero) (suc zero) p q = refl
differ_digits (suc zero) (suc (suc y)) p q = absurd (omega arith)
differ_digits (suc (suc x)) y p q = absurd (omega arith)

pub xor-lt : (k a b : ℕ) → a < 2 ^ k → b < 2 ^ k → bit_xor a b < 2 ^ k
xor-lt zero zero zero p q = p
xor-lt zero zero (suc b) p q = absurd (omega arith)
xor-lt zero (suc a) b p q = absurd (omega arith)
xor-lt (suc k) a b p q = ground (
  arith,
  pow-suc 2 k,
  xor_step a b,
  differ_digits (a % 2) (b % 2) (omega arith) (omega arith),
  xor-lt k (a / 2) (b / 2) (omega arith) (omega arith),
)

-- The steps at numbers that are given with their lowest digits.
module _ (q r x y : ℕ) (p : x < 2) (h : y < 2) where
  halves : ((q * 2 + x) / 2 ≡ q) × ((r * 2 + y) / 2 ≡ r)
  halves = (omega arith, omega arith)

  digits_of : ((q * 2 + x) % 2 ≡ x) × ((r * 2 + y) % 2 ≡ y)
  digits_of = (omega arith, omega arith)

  or_fields : bit_or (q * 2 + x) (r * 2 + y) ≡ bit_or q r * 2 + max x y
  or_fields =
      rw (or_step (q * 2 + x) (r * 2 + y), halves.0, halves.1, digits_of.0, digits_of.1) refl

  xor_fields : bit_xor (q * 2 + x) (r * 2 + y) ≡ bit_xor q r * 2 + (x + y) % 2
  xor_fields =
      rw (xor_step (q * 2 + x) (r * 2 + y), halves.0, halves.1, digits_of.0, digits_of.1)
        (omega (arith, differ_digits x y p h))

pub zero-or : (b : ℕ) → bit_or 0 b ≡ b
zero-or b = bit_or-bitwise 0 b

zero-and : (b : ℕ) → bit_and 0 b ≡ 0
zero-and b = bit_and-bitwise 0 b

zero-xor : (b : ℕ) → bit_xor 0 b ≡ b
zero-xor b = bit_xor-bitwise 0 b

-- The choice between `b` and `c`: its two parts are disjoint, and so `|` is `^`.
pub choice-or :
    (k a b c : ℕ)
    → a < 2 ^ k
    → bit_or (bit_and a b) (bit_and (2 ^ k - 1 - a) c)
      ≡ bit_xor (bit_and a b) (bit_and (2 ^ k - 1 - a) c)
choice-or zero zero b c h = rw (zero-and b, zero-and c) refl
choice-or zero (suc a) b c h = absurd (omega arith)
choice-or (suc k) a b c h =
    let na = 2 ^ suc k - 1 - a in
    let hi : na / 2 ≡ 2 ^ k - 1 - a / 2 = omega (arith, pow-suc 2 k) in
    let x = min (a % 2) (b % 2) in
    let y = min (na % 2) (c % 2) in
    let p = bit_and (a / 2) (b / 2) in
    let q = bit_and (2 ^ k - 1 - a / 2) (c / 2) in
    let small : (x < 2) × (y < 2) = (omega arith, omega arith) in
    let bits : max x y ≡ (x + y) % 2 = omega (arith, pow-suc 2 k) in
    rw
      (
        and_step a b,
        and_step na c,
        hi,
        or_fields p q x y small.0 small.1,
        xor_fields p q x y small.0 small.1,
        choice-or k (a / 2) (b / 2) (c / 2) (omega (arith, pow-suc 2 k)),
      )
      (omega (arith, bits))

-- The majority of three, in both forms.
pub majority-or :
    (k a b c : ℕ)
    → a < 2 ^ k
    → bit_or (bit_or (bit_and a b) (bit_and a c)) (bit_and b c)
      ≡ bit_xor (bit_xor (bit_and a b) (bit_and a c)) (bit_and b c)
majority-or zero zero b c h =
    rw (zero-and b, zero-and c, zero-or (bit_and b c), zero-xor (bit_and b c)) refl
majority-or zero (suc a) b c h = absurd (omega arith)
majority-or (suc k) a b c h =
    let x = min (a % 2) (b % 2) in
    let y = min (a % 2) (c % 2) in
    let z = min (b % 2) (c % 2) in
    let p = bit_and (a / 2) (b / 2) in
    let q = bit_and (a / 2) (c / 2) in
    let r = bit_and (b / 2) (c / 2) in
    let small : (x < 2) × (y < 2) × (z < 2) = (omega arith, omega arith, omega arith) in
    let bits : max (max x y) z ≡ ((x + y) % 2 + z) % 2 = omega arith in
    rw
      (
        and_step a b,
        and_step a c,
        and_step b c,
        or_fields p q x y small.0 small.1,
        xor_fields p q x y small.0 small.1,
        or_fields (bit_or p q) r (max x y) z (omega arith) small.2,
        xor_fields (bit_xor p q) r ((x + y) % 2) z (omega arith) small.2,
        majority-or k (a / 2) (b / 2) (c / 2) (omega (arith, pow-suc 2 k)),
      )
      (omega (arith, bits))

or-zero : (n a : ℕ) → a ≤ n → bit_or a 0 ≡ a
or-zero n zero h = refl
or-zero zero (suc a) h = absurd (omega arith)
or-zero (suc n) (suc a) h = omega (arith, or_step (suc a) 0, or-zero n (suc a / 2) (omega arith))

-- `(q << k) | r` is a sum when `r` fits into `k` bits.
pub or-shifted : (k q r : ℕ) → r < 2 ^ k → bit_or (q * 2 ^ k) r ≡ q * 2 ^ k + r
or-shifted zero q zero h = or-zero (q * 1) (q * 1) (omega arith) ∙ omega arith
or-shifted zero q (suc r) h = absurd (omega arith)
or-shifted (suc k) q r h =
    let twice : q * 2 ^ suc k ≡ q * 2 ^ k * 2 + 0 = omega (arith, ap (λ t. q * t) (pow-suc 2 k)) in
    let split : r ≡ r / 2 * 2 + r % 2 = omega arith in
    let step = or_fields (q * 2 ^ k) (r / 2) 0 (r % 2) (omega arith) (omega arith) in
    let rest = or-shifted k q (r / 2) (omega (arith, pow-suc 2 k)) in
    let both : bit_or (q * 2 ^ suc k) r ≡ bit_or (q * 2 ^ k * 2 + 0) (r / 2 * 2 + r % 2) =
      λ i. bit_or (twice i) (split i) in
    omega (arith, both, step, rest, twice)

max_comm : (x y : ℕ) → max x y ≡ max y x
max_comm x y = omega arith

pub or_comm : (k a b : ℕ) → a < 2 ^ k → b < 2 ^ k → bit_or a b ≡ bit_or b a
or_comm zero a b p q =
    let ea : a ≡ 0 = omega arith in let eb : b ≡ 0 = omega arith in rw (ea, eb) refl
or_comm (suc k) a b p q = omega (
  arith,
  or_step a b,
  or_step b a,
  or_comm k (a / 2) (b / 2) (omega (arith, pow-suc 2 k)) (omega (arith, pow-suc 2 k)),
)
