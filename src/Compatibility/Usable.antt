-- ===== src/Compatibility/Usable.antt =====
-- src/compatibility.cpp: the matrix names registered names only, and for every derivation that a
-- network allows there are an algorithm and a format that agree with it.
use mathlib.Core.Path.{subst}
use mhda.Base.{
  ◌≡◌, inl, inr, refl, ap, true, Bool, not, ◌&&◌, ◌||◌, List, [], ◌∷◌, some, Bytes, All,
  some_injective, AnyEq, elem, elem-AnyEq, find, bytes_eq, bytes_eq_iff, Bool-cases, Option-cases,
  if◌then◌else◌, arith,
}
use mhda.Compatibility.Matrix.{NetworkCompat, matrix}
use mhda.Compatibility.{
  entry, default_algorithm, network_allows_algorithm, network_allows_format,
  network_allows_derivation, derivation_algorithm, derivation_allows_format, allows_algorithm,
  allows_format, allows_derivation,
}
use mhda.Names.Algorithm
use mhda.Names.Algorithm.{Algorithm}
use mhda.Names.DerivationType
use mhda.Names.DerivationType.{DerivationType}
use mhda.Names.Format
use mhda.Names.Format.{Format}
use mhda.Names.NetworkType
use mhda.Names.NetworkType.{NetworkType}

-- the algorithm that the derivation derives keys of, or else the default of the network
abbrev pub algorithm_for : NetworkType → DerivationType → Algorithm
algorithm_for nt dt =
    if Algorithm.empty (derivation_algorithm nt dt)
    then default_algorithm nt
    else derivation_algorithm nt dt

-- Do the network and the derivation both allow the format?
unfoldable pub agrees : NetworkType → DerivationType → Format → Bool
agrees nt dt f = network_allows_format nt f && derivation_allows_format nt dt f

unfoldable pub first_agreed : NetworkType → DerivationType → List Bytes → Format
first_agreed nt dt [] = Format.unset
first_agreed nt dt (v ∷ vs) =
    if agrees nt dt (record { value = v }) then record { value = v } else first_agreed nt dt vs

-- the first registered format that both allow
unfoldable pub format_for : NetworkType → DerivationType → Format
format_for nt dt = first_agreed nt dt Format.format_index

unfoldable usable : NetworkType → DerivationType → Bool
usable nt dt =
    not (network_allows_derivation nt dt)
    || (Algorithm.is_valid (algorithm_for nt dt)
        && network_allows_algorithm nt (algorithm_for nt dt)
        && (Format.is_valid (format_for nt dt) && agrees nt dt (format_for nt dt)))

unfoldable all_usable : NetworkType → List Bytes → Bool
all_usable nt [] = true
all_usable nt (v ∷ vs) = usable nt (record { value = v }) && all_usable nt vs

unfoldable every_usable : List Bytes → Bool
every_usable [] = true
every_usable (v ∷ vs) = all_usable (record { value = v }) DerivationType.dt_index && every_usable vs

matrix_usable : every_usable NetworkType.nt_index ≡ true
unfolding every_usable all_usable usable agrees first_agreed entry find bytes_eq format_for
    network_allows_algorithm network_allows_format network_allows_derivation derivation_algorithm
    derivation_allows_format default_algorithm allows_algorithm allows_format allows_derivation
    Algorithm.eq Format.eq DerivationType.eq Algorithm.is_valid Format.is_valid elem
matrix_usable = refl

all_usable-one :
    (nt : NetworkType) (dt : DerivationType) (vs : List Bytes)
    → AnyEq dt.value vs
    → all_usable nt vs ≡ true
    → usable nt dt ≡ true
unfolding all_usable
all_usable-one nt dt [] m h = absurd m
all_usable-one nt dt (v ∷ vs) (inl e) h =
    rw (ap (λ (x : Bytes). usable nt (record { value = x })) e) (ground arith)
all_usable-one nt dt (v ∷ vs) (inr m) h = all_usable-one nt dt vs m (ground arith)

every_usable-one :
    (nt : NetworkType) (vs : List Bytes)
    → AnyEq nt.value vs
    → every_usable vs ≡ true
    → all_usable nt DerivationType.dt_index ≡ true
unfolding every_usable
every_usable-one nt [] m h = absurd m
every_usable-one nt (v ∷ vs) (inl e) h =
    rw (ap (λ (x : Bytes). all_usable (record { value = x }) DerivationType.dt_index) e)
      (ground arith)
every_usable-one nt (v ∷ vs) (inr m) h = every_usable-one nt vs m (ground arith)

-- the networks of the entries
abbrev networks : List (Bytes × NetworkCompat) → List Bytes
networks [] = []
networks ((k, c) ∷ m) = k ∷ networks m

find-elem :
    (k : Bytes) (m : List (Bytes × NetworkCompat)) {c : NetworkCompat}
    → find k m ≡ some c
    → elem k (networks m) ≡ true
unfolding find elem
find-elem k [] h = absurd (cc)
find-elem k ((j, d) ∷ m) h = elim (Bool-cases (bytes_eq k j)) [
  | inl e ↦ rw e refl
  | inr e ↦ rw e (find-elem k m (rw e at h))
]

abbrev Holds : (NetworkCompat → Type 0) → List (Bytes × NetworkCompat) → Type 0
Holds P m = All (λ (e : Bytes × NetworkCompat). P e.1) m

find-All :
    (P : NetworkCompat → Type 0) (k : Bytes) (m : List (Bytes × NetworkCompat)) {c : NetworkCompat}
    → Holds P m
    → find k m ≡ some c
    → P c
unfolding find
find-All P k [] a h = absurd (cc)
find-All P k ((j, d) ∷ m) (here, rest) h = elim (Bool-cases (bytes_eq k j)) [
  | inl e ↦ subst P (some_injective (rw e at h)) here
  | inr e ↦ find-All P k m rest (rw e at h)
]

unfoldable all_valid : List DerivationType → Bool
all_valid [] = true
all_valid (d ∷ ds) = DerivationType.is_valid d && all_valid ds

allowed-is_valid :
    (dt : DerivationType) (ds : List DerivationType)
    → all_valid ds ≡ true
    → allows_derivation dt ds ≡ true
    → DerivationType.is_valid dt ≡ true
unfolding all_valid allows_derivation DerivationType.eq DerivationType.is_valid
allowed-is_valid dt [] v h = absurd (cc)
allowed-is_valid dt (d ∷ ds) v h = elim (Bool-cases (bytes_eq dt.value d.value)) [
  | inl e ↦ rw ((bytes_eq_iff dt.value d.value).0 e) (ground arith)
  | inr e ↦ allowed-is_valid dt ds (ground arith) (rw e at h)
]

matrix_valid : Holds (λ c. all_valid c.derivations ≡ true) matrix
unfolding all_valid DerivationType.is_valid elem bytes_eq
matrix_valid = (
  refl,
  (
    refl,
    (
      refl,
      (refl, (refl, (refl, (refl, (refl, (refl, (refl, (refl, (refl, (refl, (refl, tt))))))))))),
    ),
  ),
)

root-is_valid :
    (dt : DerivationType)
    → DerivationType.eq dt DerivationType.root ≡ true
    → DerivationType.is_valid dt ≡ true
unfolding DerivationType.eq DerivationType.is_valid elem
root-is_valid dt e = ground arith

allowed-names :
    (nt : NetworkType) (dt : DerivationType)
    → network_allows_derivation nt dt ≡ true
    → (NetworkType.is_valid nt ≡ true) × (DerivationType.is_valid dt ≡ true)
unfolding network_allows_derivation entry NetworkType.is_valid
allowed-names nt dt h = elim (Option-cases (find nt.value matrix)) [
  | inl absent ↦ absurd (cc (rw absent at h))
  | inr (c, found) ↦ (
    find-elem nt.value matrix found,
    elim (Bool-cases (DerivationType.eq dt DerivationType.root)) [
      | inl root ↦ root-is_valid dt root
      | inr other ↦
          allowed-is_valid dt c.derivations
            (find-All (λ d. all_valid d.derivations ≡ true) nt.value matrix matrix_valid found)
            (rw (found, other) at h)
    ],
  )
]

valid-usable :
    (nt : NetworkType) (dt : DerivationType)
    → NetworkType.is_valid nt ≡ true
    → DerivationType.is_valid dt ≡ true
    → usable nt dt ≡ true
unfolding NetworkType.is_valid DerivationType.is_valid
valid-usable nt dt n d =
    all_usable-one nt dt DerivationType.dt_index (elem-AnyEq dt.value DerivationType.dt_index d) (
      every_usable-one nt NetworkType.nt_index (elem-AnyEq nt.value NetworkType.nt_index n)
        matrix_usable)

-- A derivation that the matrix allows on a network is registered, and so is the network; the
-- algorithm that the derivation is bound to, or the default of the network where it is bound to
-- none, is registered and allowed by the network; and the first registered format that the network
-- and the purpose of the derivation both allow is indeed a registered one, and both allow it.
pub matrix-usable :
    (nt : NetworkType) (dt : DerivationType)
    → network_allows_derivation nt dt ≡ true
    → (NetworkType.is_valid nt ≡ true)
      × (DerivationType.is_valid dt ≡ true)
      × (Algorithm.is_valid (algorithm_for nt dt) ≡ true)
      × (network_allows_algorithm nt (algorithm_for nt dt) ≡ true)
      × (Format.is_valid (format_for nt dt) ≡ true)
      × (network_allows_format nt (format_for nt dt) ≡ true)
      × (derivation_allows_format nt dt (format_for nt dt) ≡ true)
unfolding usable agrees
matrix-usable nt dt h =
    let (n, d) = allowed-names nt dt h in
    let u = valid-usable nt dt n d in
    (n, d, ground arith, ground arith, ground arith, ground arith, ground arith)
