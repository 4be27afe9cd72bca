-- ===== src/Compatibility.antt =====
-- src/compatibility.hpp and src/compatibility.cpp: the queries on the compatibility matrix.
pub mod Matrix
pub mod Defaults
pub mod Usable
use mhda.Base.{Bool, true, false, ◌||◌, List, [], ◌∷◌, Option, none, some, find, if◌then◌else◌}
use Matrix.{NetworkCompat, matrix}
use mhda.Names.Algorithm
use mhda.Names.Algorithm.{Algorithm}
use mhda.Names.DerivationType
use mhda.Names.DerivationType.{DerivationType}
use mhda.Names.Format
use mhda.Names.Format.{Format}
use mhda.Names.NetworkType.{NetworkType}

-- membership in a set of names
unfoldable pub allows_algorithm : Algorithm → List Algorithm → Bool
unfolding Algorithm.eq
allows_algorithm a [] = false
allows_algorithm a (b ∷ bs) = Algorithm.eq a b || allows_algorithm a bs

unfoldable pub allows_format : Format → List Format → Bool
unfolding Format.eq
allows_format a [] = false
allows_format a (b ∷ bs) = Format.eq a b || allows_format a bs

unfoldable pub allows_derivation : DerivationType → List DerivationType → Bool
unfolding DerivationType.eq
allows_derivation a [] = false
allows_derivation a (b ∷ bs) = DerivationType.eq a b || allows_derivation a bs

-- `matrix().find(nt)`
unfoldable pub entry : NetworkType → Option NetworkCompat
unfolding find
entry nt = find nt.value matrix

-- what a query answers, from the entry that was found
abbrev pub answer {ℓ} : {A : Type ℓ} → A → (NetworkCompat → A) → Option NetworkCompat → A
answer absent f none = absent
answer absent f (some c) = f c

unfoldable pub default_algorithm : NetworkType → Algorithm
default_algorithm nt = answer Algorithm.unset (λ c. c.default_algorithm) (entry nt)

unfoldable pub default_format : NetworkType → Format
default_format nt = answer Format.unset (λ c. c.default_format) (entry nt)

unfoldable pub network_is_registered : NetworkType → Bool
network_is_registered nt = answer false (λ c. true) (entry nt)

unfoldable pub network_allows_algorithm : NetworkType → Algorithm → Bool
network_allows_algorithm nt algo = answer false (λ c. allows_algorithm algo c.algorithms) (entry nt)

unfoldable pub network_allows_format : NetworkType → Format → Bool
network_allows_format nt fmt = answer false (λ c. allows_format fmt c.formats) (entry nt)

abbrev pub get_or_unset : Option Algorithm → Algorithm
get_or_unset none = Algorithm.unset
get_or_unset (some a) = a

unfoldable pub derivation_algorithm : NetworkType → DerivationType → Algorithm
derivation_algorithm nt dt =
    answer Algorithm.unset (λ c. get_or_unset (find dt.value c.derivation_algorithm)) (entry nt)

abbrev pub allows_or_unbound : Format → Option (List Format) → Bool
allows_or_unbound fmt none = true
allows_or_unbound fmt (some fmts) = allows_format fmt fmts

unfoldable pub derivation_allows_format : NetworkType → DerivationType → Format → Bool
derivation_allows_format nt dt fmt =
    answer true (λ c. allows_or_unbound fmt (find dt.value c.derivation_formats)) (entry nt)

unfoldable pub network_allows_derivation : NetworkType → DerivationType → Bool
network_allows_derivation nt dt =
    answer false
      (λ c.
        if DerivationType.eq dt DerivationType.root
        then true
        else allows_derivation dt c.derivations)
      (entry nt)
