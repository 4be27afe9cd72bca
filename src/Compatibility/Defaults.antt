-- ===== src/Compatibility/Defaults.antt =====
-- src/compatibility.cpp: the entries of the matrix against the registered networks.
use mhda.Base.{
  ◌≡◌, refl, true, false, Bool, not, ◌&&◌, ◌||◌, List, [], ◌∷◌, Bytes, All, find, bytes_eq,
  AnyEq-All, elem-AnyEq, arith,
}
use mhda.Compatibility.Matrix.{matrix}
use mhda.Compatibility.{
  entry, default_algorithm, default_format, network_is_registered, network_allows_algorithm,
  network_allows_format, allows_algorithm, allows_format,
}
use mhda.Names.Algorithm
use mhda.Names.Format
use mhda.Names.NetworkType
use mhda.Names.NetworkType.{NetworkType}

-- the network of a text
abbrev network : Bytes → NetworkType
network v = record { value = v }

unfoldable allows_defaults : NetworkType → Bool
allows_defaults nt =
    (network_is_registered nt && not (Algorithm.empty (default_algorithm nt)))
    && (network_allows_algorithm nt (default_algorithm nt)
        && (Format.empty (default_format nt) || network_allows_format nt (default_format nt)))

unfoldable all_allow : List Bytes → Bool
all_allow [] = true
all_allow (v ∷ vs) = allows_defaults (network v) && all_allow vs

all_allow-All :
    (vs : List Bytes) → all_allow vs ≡ true → All (λ v. allows_defaults (network v) ≡ true) vs
unfolding all_allow
all_allow-All [] h = tt
all_allow-All (v ∷ vs) h = (ground arith, all_allow-All vs (ground arith))

index_allows : all_allow NetworkType.nt_index ≡ true
unfolding all_allow allows_defaults network_is_registered default_algorithm default_format
    network_allows_algorithm network_allows_format allows_algorithm allows_format entry find
    bytes_eq matrix Algorithm.eq Format.eq
index_allows = refl

is_valid-allows : (nt : NetworkType) → NetworkType.is_valid nt ≡ true → allows_defaults nt ≡ true
unfolding NetworkType.is_valid
is_valid-allows nt h =
    AnyEq-All (λ v. allows_defaults (network v) ≡ true) nt.value NetworkType.nt_index
      (elem-AnyEq nt.value NetworkType.nt_index h) (all_allow-All NetworkType.nt_index index_allows)

-- Every registered network stands in the matrix, has a default algorithm that it allows, and
-- allows its default format if it has one.
pub matrix-defaults :
    (nt : NetworkType)
    → NetworkType.is_valid nt ≡ true
    → (network_is_registered nt ≡ true)
      × (Algorithm.empty (default_algorithm nt) ≡ false)
      × (network_allows_algorithm nt (default_algorithm nt) ≡ true)
      × (Format.empty (default_format nt) || network_allows_format nt (default_format nt) ≡ true)
unfolding allows_defaults
matrix-defaults nt h =
    let e = is_valid-allows nt h in (ground arith, ground arith, ground arith, ground arith)
