-- ===== src/Hash/Sha256/Constants.antt =====
-- src/hash.cpp: the numbers in `k256` against their origin, which FIPS 180-4 names.
use mhda.Base.{
  ℕ, zero, suc, ◌+◌, ◌*◌, ◌%◌, ◌^◌, ◌≤◌, ◌<◌, ◌≡◌, refl, arith, Bool, true, not, ◌&&◌, ◌||◌, List,
  [], ◌∷◌, ◌++◌, get_or, all_below, all_below-true, leb, ltb, ◌==◌, if◌then◌else◌,
}
use mhda.Hash.Sha256.{k256}

abbrev is_prime : ℕ → Bool
is_prime n = leb 2 n && all_below n (λ d. ltb d 2 || not (n % d == 0))

-- the primes below `n`, in order
abbrev pub primes_below : ℕ → List ℕ
primes_below zero = []
primes_below (suc n) = primes_below n ++ (if is_prime n then n ∷ [] else [])

-- `frac` is the fraction of the cube root of `p`, cut to 32 bits; `whole` is what stands before it.
abbrev pub IsCubeRoot : ℕ → ℕ → ℕ → Type 0
IsCubeRoot p whole frac =
    (frac < 2 ^ 32)
    × ((whole * 2 ^ 32 + frac) ^ 3 ≤ p * 2 ^ 96)
    × (p * 2 ^ 96 < (whole * 2 ^ 32 + frac + 1) ^ 3)

prime : ℕ → ℕ
prime i = get_or (primes_below 312) i 0

whole_of : ℕ → ℕ
whole_of p =
    if ltb p 8
    then 1
    else if ltb p 27
    then 2
    else if ltb p 64
    then 3
    else if ltb p 125
    then 4
    else if ltb p 216
    then 5
    else 6

is_cube_root : ℕ → ℕ → ℕ → Bool
is_cube_root p whole frac =
    ltb frac (2 ^ 32)
    && leb ((whole * 2 ^ 32 + frac) ^ 3) (p * 2 ^ 96)
    && ltb (p * 2 ^ 96) ((whole * 2 ^ 32 + frac + 1) ^ 3)

is_cube_root-IsCubeRoot :
    (p whole frac : ℕ) → is_cube_root p whole frac ≡ true → IsCubeRoot p whole frac
unfolding is_cube_root
is_cube_root-IsCubeRoot p whole frac h = ground arith

root_table :
    all_below 64 (λ i. is_cube_root (prime i) (whole_of (prime i)) (get_or k256 i 0)) ≡ true
unfolding all_below is_cube_root prime whole_of k256
root_table = refl

-- Each of the 64 numbers in `k256` is the fraction of the cube root of a prime, cut to 32 bits; the
-- primes are the first 64, in order.
pub k256-IsCubeRoot :
    (i : ℕ)
    → i < 64
    → (whole : ℕ) × IsCubeRoot (get_or (primes_below 312) i 0) whole (get_or k256 i 0)
unfolding prime
k256-IsCubeRoot i h = (
  whole_of (prime i),
  is_cube_root-IsCubeRoot (prime i) (whole_of (prime i)) (get_or k256 i 0)
      (all_below-true 64 _ i root_table h),
)
