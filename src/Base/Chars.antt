-- ===== src/Base/Chars.antt =====
-- Texts as lists of bytes: literals, and `operator==` of `std::string` and `std::string_view`.
use Prim.Native.Char.{code}
use Prim.Native.Nat.{ℕ, ◌<◌}
use Prim.Native.String.{String}
use mathlib.Core.Bool.{Bool, true, false, ◌&&◌, ◌||◌}
use mathlib.Core.List.{List, [], ◌∷◌}
use mathlib.Core.Logic.{◌↔◌, ◌≢◌, ◌⊎◌, inl, inr}
use mathlib.Core.Path.{◌≡◌, refl}
use native.Mathlib.Omega.{arith}
use mhda.Base.Lists.{All}
use mhda.Base.Tests.{◌==◌, ltb}

abbrev pub Bytes : Type 0
Bytes = List ℕ

abbrev pub IsByte : ℕ → Type 0
IsByte c = c < 256

-- The code points of a literal; these are its bytes when the text is ASCII.
abbrev pub codes : String → Bytes
codes String.[] = []
codes (String.◌∷◌ c s) = code c ∷ codes s

unfoldable pub bytes_eq : Bytes → Bytes → Bool
bytes_eq [] [] = true
bytes_eq (x ∷ xs) (y ∷ ys) = x == y && bytes_eq xs ys
bytes_eq _ _ = false

-- `operator<` of `std::string`: lexicographic, by the values of the bytes
unfoldable pub bytes_lt : Bytes → Bytes → Bool
bytes_lt [] [] = false
bytes_lt [] (y ∷ ys) = true
bytes_lt (x ∷ xs) [] = false
bytes_lt (x ∷ xs) (y ∷ ys) = ltb x y || x == y && bytes_lt xs ys

pub bytes_eq_iff : (a b : Bytes) → (bytes_eq a b ≡ true) ↔ (a ≡ b)
unfolding bytes_eq
bytes_eq_iff (x ∷ a) (y ∷ b) = ground (arith, bytes_eq_iff a b)
bytes_eq_iff _ _ = ground arith

pub bytes_eq_refl : (a : Bytes) → bytes_eq a a ≡ true
bytes_eq_refl a = (bytes_eq_iff a a).1 refl

pub bytes_eq-false : (a b : Bytes) → a ≢ b → bytes_eq a b ≡ false
bytes_eq-false a b h = ground (arith, bytes_eq_iff a b)

-- `find` in a set of texts.
unfoldable pub elem : Bytes → List Bytes → Bool
unfolding bytes_eq
elem k [] = false
elem k (x ∷ xs) = bytes_eq k x || elem k xs

-- one of the texts, with the place where it stands
abbrev pub AnyEq : Bytes → List Bytes → Type 0
AnyEq k [] = ⊥
AnyEq k (x ∷ xs) = (k ≡ x) ⊎ AnyEq k xs

pub elem-AnyEq : (k : Bytes) (xs : List Bytes) → elem k xs ≡ true → AnyEq k xs
unfolding elem
elem-AnyEq k [] h = cc
elem-AnyEq k (x ∷ xs) h = ground (arith, bytes_eq_iff k x, elem-AnyEq k xs)

pub AnyEq-elem : (k : Bytes) (xs : List Bytes) → AnyEq k xs → elem k xs ≡ true
unfolding elem
AnyEq-elem k [] h = absurd h
AnyEq-elem k (x ∷ xs) (inl e) = rw (e, bytes_eq_refl x)
AnyEq-elem k (x ∷ xs) (inr h) = ground (arith, AnyEq-elem k xs h)

-- What holds of all the texts holds of one of them.
pub AnyEq-All {κ} : (P : Bytes → Type κ) (k : Bytes) (xs : List Bytes) → AnyEq k xs → All P xs → P k
AnyEq-All P k [] h _ = absurd h
AnyEq-All P k (x ∷ xs) (inl e) (hx, _) = rw e hx
AnyEq-All P k (x ∷ xs) (inr h) (_, hs) = AnyEq-All P k xs h hs
