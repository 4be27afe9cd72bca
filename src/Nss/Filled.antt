-- ===== src/Nss/Filled.antt =====
-- Component lists in which an empty value stands for an absent component, for src/nss_parser.cpp.
use mhda.Base.{
  ◌≡◌, ◌≢◌, refl, sym, true, false, Bool, List, [], ◌∷◌, ◌++◌, append_assoc, some, none, Option,
  Bytes, All, arith, is_empty, find, Bool-cases, bytes_eq, bytes_eq_iff, if◌then◌else◌, elem, ◌>>=◌,
  inl, inr, not, ◌&&◌, bytes_eq_refl, bytes_eq-false,
}
use mhda.Nss.Pairs.{Distinct, Absent, parts, find-Absent}
use mhda.Nss.{Components}
use mhda.Detail.Ascii.Split.{tailed}

abbrev pub filled : Components → Components
filled [] = []
filled ((k, v) ∷ m) = if is_empty v then filled m else (k, v) ∷ filled m

-- A predicate on pairs goes over to the pairs that are kept.
pub All-filled {κ} : (P : Bytes × Bytes → Type κ) (m : Components) → All P m → All P (filled m)
All-filled P [] h = tt
All-filled P ((k, []) ∷ m) (_, h) = All-filled P m h
All-filled P ((k, c ∷ v) ∷ m) (hk, h) = (hk, All-filled P m h)

pub Distinct-filled : (m : Components) → Distinct m → Distinct (filled m)
Distinct-filled [] d = tt
Distinct-filled ((k, []) ∷ m) (_, d) = Distinct-filled m d
Distinct-filled ((k, c ∷ v) ∷ m) (a, d) = (All-filled _ m a, Distinct-filled m d)

-- a value, if it is there
abbrev pub present : Bytes → Option Bytes
present v = if is_empty v then none else some v

find-here : (k v : Bytes) (m : Components) → find k ((k, v) ∷ m) ≡ some v
unfolding find
find-here k v m = rw (bytes_eq_refl k)

find-there : (k j v : Bytes) (m : Components) → k ≢ j → find k ((j, v) ∷ m) ≡ find k m
unfolding find
find-there k j v m h = rw (bytes_eq-false k j h)

Absent-sym : (k : Bytes) (m : Components) → All (λ (e : Bytes × Bytes). k ≢ e.0) m → Absent k m
Absent-sym k [] h = tt
Absent-sym k (e ∷ m) (h, hs) = (λ p. h (sym p), Absent-sym k m hs)

find-filled_same :
    (k v : Bytes) (m : Components)
    → All (λ (e : Bytes × Bytes). k ≢ e.0) m
    → find k (filled ((k, v) ∷ m)) ≡ (find k ((k, v) ∷ m) >>= present)
find-filled_same k [] m a =
    rw find-here (find-Absent k (filled m) (All-filled _ m (Absent-sym k m a)))
find-filled_same k (c ∷ v) m a = simp find-here

find-filled_other :
    (k j v : Bytes) (m : Components)
    → k ≢ j
    → find k (filled m) ≡ (find k m >>= present)
    → find k (filled ((j, v) ∷ m)) ≡ (find k ((j, v) ∷ m) >>= present)
find-filled_other k j [] m ne ih = rw (find-there k j [] m ne) ih
find-filled_other k j (c ∷ v) m ne ih =
    rw (find-there k j (c ∷ v) m ne, find-there k j (c ∷ v) (filled m) ne) ih

find-filled_cons :
    (k j v : Bytes) (m : Components)
    → All (λ (e : Bytes × Bytes). j ≢ e.0) m
    → find k (filled m) ≡ (find k m >>= present)
    → find k (filled ((j, v) ∷ m)) ≡ (find k ((j, v) ∷ m) >>= present)
find-filled_cons k j v m a ih = elim (Bool-cases (bytes_eq k j)) [
  | inl e ↦ rw ((bytes_eq_iff k j).0 e) (find-filled_same j v m a)
  | inr e ↦ find-filled_other k j v m (λ p. cc (e, (bytes_eq_iff k j).1 p)) ih
]

-- Looking up a key among the kept pairs gives its value, if that is not empty.
pub find-filled :
    (k : Bytes) (m : Components) → Distinct m → find k (filled m) ≡ (find k m >>= present)
find-filled k [] d = unfold find in refl
find-filled k ((j, v) ∷ m) (a, d) = find-filled_cons k j v m a (find-filled k m d)

-- The keys alone decide whether components are distinct.
abbrev pub keys : Components → List Bytes
keys [] = []
keys ((k, v) ∷ m) = k ∷ keys m

unfoldable pub nodup : List Bytes → Bool
nodup [] = true
nodup (k ∷ ks) = not (elem k ks) && nodup ks

not_elem :
    (k : Bytes) (m : Components) → elem k (keys m) ≡ false → All (λ (e : Bytes × Bytes). k ≢ e.0) m
unfolding elem
not_elem k [] h = tt
not_elem k ((j, v) ∷ m) h =
    (ground (arith, bytes_eq_iff k j), not_elem k m (ground (arith, bytes_eq_iff k j)))

pub nodup-Distinct : (m : Components) → nodup (keys m) ≡ true → Distinct m
unfolding nodup
nodup-Distinct [] h = tt
nodup-Distinct ((k, v) ∷ m) h = (not_elem k m (ground arith), nodup-Distinct m (ground arith))

-- the components as they stand behind others
abbrev pub tail_text : Components → Bytes
tail_text m = tailed b':' (parts m)

-- what one component adds, if its value is there
abbrev pub piece : Bytes → Bytes → Bytes
piece k v = if is_empty v then [] else b':' ∷ (k ++ (b':' ∷ v))

pub tail_text-filled_cons :
    (k v : Bytes) (m : Components)
    → tail_text (filled ((k, v) ∷ m)) ≡ piece k v ++ tail_text (filled m)
tail_text-filled_cons k [] m = refl
tail_text-filled_cons k (c ∷ v) m = rw append_assoc
