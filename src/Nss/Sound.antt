-- ===== src/Nss/Sound.antt =====
-- src/nss_parser.cpp: the map that `parse_nss_map` returns.
use mhda.Base.{
  ℕ, ◌%◌, ◌≡◌, ◌≢◌, ◌⊎◌, inl, inr, false, List, [], ◌∷◌, ◌++◌, some, none, Bytes, All, All-append,
  arith, is_empty, has_key, find, Bool-cases, bytes_eq_iff, Option, length, ◌==◌, not,
}
use mhda.Detail.Ascii.Sets.{all_nss_bytes-All}
use mhda.Detail.Ascii.{all_nss_bytes, to_lower, split}
use mathlib.Core.Path.{subst}
use mhda.Error.{ok, >>=-eq-ok, ok_injective, past_throw, err≢ok}
use mhda.Nss.Pairs.{IsComponent, Distinct, Absent}
use mhda.Nss.{
  Components, is_known_component, add_component, add_components, parse_parts, parse_delimited,
  parse_nss_map, first_delimiter,
}

-- The components are well formed: their keys are known and all different, and no value is empty
-- or holds a byte that an NSS value may not hold.
pub record IsWellFormed (m : Components) : Type 0 where
  pub components : All IsComponent m
  pub distinct : Distinct m

Absent-find : (k : Bytes) (m : Components) → find k m ≡ none → Absent k m
unfolding find
Absent-find k [] h = tt
Absent-find k ((j, v) ∷ m) h =
    (ground (arith, bytes_eq_iff k j), Absent-find k m (ground (arith, bytes_eq_iff k j)))

Absent-has_key : (k : Bytes) (m : Components) → has_key k m ≡ false → Absent k m
unfolding has_key
Absent-has_key k m h = Absent-find k m (ground arith)

ne-nil : (v : Bytes) → is_empty v ≡ false → v ≢ []
ne-nil v h = ground arith

-- A round adds the pair at the end, or it skips a pair with an unknown key.
add_component_sound :
    (k v : Bytes) (out : Components) {out' : Components}
    → add_component k v out ≡ ok out'
    → (out ≡ out') ⊎ (out ++ (k, v) ∷ [] ≡ out') × IsComponent (k, v) × Absent k out
unfolding add_component
add_component_sound k v out h =
    let (_, h) = past_throw (is_empty k) _ _ h in
    let (_, h) = past_throw (not (all_nss_bytes k)) _ _ h in
    let (filled, h) = past_throw (is_empty v) _ _ h in
    let (bytes, h) = past_throw (not (all_nss_bytes v)) _ _ h in
    elim (Bool-cases (is_known_component k)) [
      | inl known ↦
          (let (new, added) = past_throw (has_key k out) _ _ (rw known at h) in
            inr (
              ok_injective added,
              (known, ne-nil v filled, all_nss_bytes-All v (ground arith)),
              Absent-has_key k out new,
            ))
      | inr unknown ↦
          inl (ok_injective (past_throw (is_known_component (to_lower k)) _ _ (rw unknown at h)).1)
    ]

Distinct-concat :
    (out : Components) (k v : Bytes) → Distinct out → Absent k out → Distinct (out ++ (k, v) ∷ [])
Distinct-concat [] k v d a = (tt, tt)
Distinct-concat ((j, w) ∷ out) k v (dj, d) (aj, a) =
    (All-append _ out ((k, v) ∷ []) dj (aj, tt), Distinct-concat out k v d a)

add_component-IsWellFormed :
    (k v : Bytes) (out : Components) {out' : Components}
    → IsWellFormed out
    → add_component k v out ≡ ok out'
    → IsWellFormed out'
add_component-IsWellFormed k v out w h = elim (add_component_sound k v out h) [
  | inl same ↦ subst IsWellFormed same w
  | inr (added, good, new) ↦ subst IsWellFormed added (record {
    components = All-append IsComponent out ((k, v) ∷ []) w.components (good, tt);
    distinct = Distinct-concat out k v w.distinct new;
  })
]

add_components-IsWellFormed :
    (parts : List Bytes) (out : Components) {m : Components}
    → IsWellFormed out
    → add_components parts out ≡ ok m
    → IsWellFormed m
unfolding add_components
add_components-IsWellFormed (k ∷ v ∷ parts) out w h =
    let (next, added, rest) = >>=-eq-ok (add_component k v out) (add_components parts) h in
    add_components-IsWellFormed parts next (add_component-IsWellFormed k v out w added) rest
add_components-IsWellFormed [] out w h = subst IsWellFormed (ok_injective h) w
add_components-IsWellFormed (k ∷ []) out w h = subst IsWellFormed (ok_injective h) w

empty-IsWellFormed : IsWellFormed []
empty-IsWellFormed = record { components = tt; distinct = tt }

parse_parts-IsWellFormed :
    (parts : List Bytes) {m : Components} → parse_parts parts ≡ ok m → IsWellFormed m
unfolding parse_parts
parse_parts-IsWellFormed parts h = elim (Bool-cases (length parts % 2 == 0)) [
  | inl even ↦ add_components-IsWellFormed parts [] empty-IsWellFormed (rw even at h)
  | inr odd ↦ absurd (err≢ok (rw odd at h))
]

-- Whatever text an NSS is, the components that are read from it are well formed.
pub parse_nss_map-IsWellFormed :
    (nss : Bytes) {m : Components} → parse_nss_map nss ≡ ok m → IsWellFormed m
unfolding parse_nss_map
parse_nss_map-IsWellFormed [] h = subst IsWellFormed (ok_injective h) empty-IsWellFormed
parse_nss_map-IsWellFormed (c ∷ nss) h = delimited (first_delimiter (c ∷ nss)) h
  where
    delimited :
        (o : Option ℕ) {m : Components} → parse_delimited o (c ∷ nss) ≡ ok m → IsWellFormed m
    delimited none h = unfold parse_delimited in parse_parts-IsWellFormed (split (c ∷ nss) b':') h
    delimited (some d) h = absurd (unfold parse_delimited in cc)
