-- ===== src/Names/Lower.antt =====
-- The texts of the registered names (src/algorithm.cpp and the other three) and `to_lower`.
use mhda.Base.{
  false, ◌≡◌, ◌≢◌, refl, true, Bool, ◌&&◌, ◌||◌, List, [], ◌∷◌, Bytes, All, arith, not, is_empty,
  ltb, elem-AnyEq, AnyEq-All,
}
use mhda.Detail.Ascii.Sets.{IsLowerNss}
use mhda.Detail.Ascii.{nss_byte}
use mhda.Names.Algorithm
use mhda.Names.DerivationType
use mhda.Names.Format
use mhda.Names.NetworkType

unfoldable lower_bytes : Bytes → Bool
lower_bytes [] = true
lower_bytes (c ∷ s) = (nss_byte c && (ltb c b'A' || ltb b'Z' c)) && lower_bytes s

lower_bytes-All : (s : Bytes) → lower_bytes s ≡ true → All IsLowerNss s
unfolding lower_bytes
lower_bytes-All [] h = tt
lower_bytes-All (c ∷ s) h = ((ground arith, ground arith), lower_bytes-All s (ground arith))

abbrev IsLower : Bytes → Type 0
IsLower v = (is_empty v ≡ false) × (lower_bytes v ≡ true)

abbrev pub IsLowerName : Bytes → Type 0
IsLowerName v = (v ≢ []) × All IsLowerNss v

-- the test of a whole index
unfoldable all_lower : List Bytes → Bool
all_lower [] = true
all_lower (v ∷ vs) = (not (is_empty v) && lower_bytes v) && all_lower vs

all_lower-All : (vs : List Bytes) → all_lower vs ≡ true → All IsLower vs
unfolding all_lower
all_lower-All [] h = tt
all_lower-All (v ∷ vs) h = ((ground arith, ground arith), all_lower-All vs (ground arith))

IsLower-name : (v : Bytes) → IsLower v → IsLowerName v
IsLower-name v (filled, low) = (ground arith, lower_bytes-All v low)

networks : All IsLower NetworkType.nt_index
unfolding all_lower lower_bytes nss_byte
networks = all_lower-All NetworkType.nt_index refl

pub network-IsLowerName :
    (nt : NetworkType.NetworkType) → NetworkType.is_valid nt ≡ true → IsLowerName nt.value
unfolding NetworkType.is_valid
network-IsLowerName nt h = IsLower-name nt.value (
    AnyEq-All IsLower nt.value NetworkType.nt_index (elem-AnyEq nt.value NetworkType.nt_index h)
      networks)

algorithms : All IsLower Algorithm.algo_index
unfolding all_lower lower_bytes nss_byte
algorithms = all_lower-All Algorithm.algo_index refl

pub algorithm-IsLowerName :
    (aa : Algorithm.Algorithm) → Algorithm.is_valid aa ≡ true → IsLowerName aa.value
unfolding Algorithm.is_valid
algorithm-IsLowerName aa h = IsLower-name aa.value (
    AnyEq-All IsLower aa.value Algorithm.algo_index (elem-AnyEq aa.value Algorithm.algo_index h)
      algorithms)

formats : All IsLower Format.format_index
unfolding all_lower lower_bytes nss_byte
formats = all_lower-All Format.format_index refl

pub format-IsLowerName : (af : Format.Format) → Format.is_valid af ≡ true → IsLowerName af.value
unfolding Format.is_valid
format-IsLowerName af h = IsLower-name af.value (
    AnyEq-All IsLower af.value Format.format_index (elem-AnyEq af.value Format.format_index h)
      formats)

types : All IsLower DerivationType.dt_index
unfolding all_lower lower_bytes nss_byte
types = all_lower-All DerivationType.dt_index refl

pub type-IsLowerName :
    (dt : DerivationType.DerivationType) → DerivationType.is_valid dt ≡ true → IsLowerName dt.value
unfolding DerivationType.is_valid
type-IsLowerName dt h = IsLower-name dt.value (
    AnyEq-All IsLower dt.value DerivationType.dt_index
      (elem-AnyEq dt.value DerivationType.dt_index h) types)
