-- ===== src/Nss/Pairs.antt =====
-- src/nss_parser.cpp: `parse_nss_map` on an NSS that spells given components.
use mathlib.Core.Path.{subst}
use mhda.Base.{
  ◌<◌, ℕ, ◌%◌, ◌≡◌, ◌≢◌, refl, sym, ◌∙◌, true, false, List, [], ◌∷◌, ◌++◌, append_assoc, append-nil,
  none, Bytes, All, All-append, All-imp, arith, is_empty, length, has_key, find, elem-AnyEq,
  AnyEq-All, bytes_eq_iff, All-right,
}
use mhda.Detail.Ascii.Sets.{IsNssByte, nss_byte_lem, All-all_nss_bytes, all_nss_bytes-All}
use mhda.Detail.Ascii.Split.{Lacks, tailed, joined, split-joined}
use mhda.Detail.Ascii.{split, nss_byte, all_nss_bytes}
use mhda.Error.{ok}
use mhda.Nss.{
  Components, known_components, is_known_component, first_delimiter, add_component, add_components,
  parse_parts, parse_delimited, parse_nss_map,
}

-- a component that an NSS may hold
abbrev pub IsComponent : Bytes × Bytes → Type 0
IsComponent (k, v) = (is_known_component k ≡ true) × (v ≢ []) × All IsNssByte v

-- No key stands twice.
abbrev pub Distinct : Components → Type 0
Distinct [] = Unit
Distinct ((k, v) ∷ m) = All (λ (e : Bytes × Bytes). k ≢ e.0) m × Distinct m

-- the parts that the components are split into
abbrev pub parts : Components → List Bytes
parts [] = []
parts ((k, v) ∷ m) = k ∷ v ∷ parts m

-- "k:v:k:v"
abbrev pub spell : Components → Bytes
spell m = joined b':' (parts m)

abbrev IsKey : Bytes → Type 0
IsKey k = (is_empty k ≡ false) × (all_nss_bytes k ≡ true)

known_keys : All IsKey known_components
unfolding all_nss_bytes nss_byte
known_keys =
    let key : (false ≡ false) × (true ≡ true) = (refl, refl) in
    (key, (key, (key, (key, (key, (key, (key, (key, (key, (key, (key, tt)))))))))))

pub known-IsKey : (k : Bytes) → is_known_component k ≡ true → IsKey k
unfolding is_known_component
known-IsKey k h = AnyEq-All IsKey k known_components (elem-AnyEq k known_components h) known_keys

pub ne-is_empty : (v : Bytes) → v ≢ [] → is_empty v ≡ false
ne-is_empty [] h = absurd (h refl)
ne-is_empty (c ∷ v) h = refl

pub append-is_empty : (a b : Bytes) → is_empty a ≡ false → is_empty (a ++ b) ≡ false
append-is_empty [] b h = cc
append-is_empty (c ∷ a) b h = refl

-- The key stands at no component.
abbrev pub Absent : Bytes → Components → Type 0
Absent k = All (λ (e : Bytes × Bytes). e.0 ≢ k)

pub find-Absent : (k : Bytes) (m : Components) → Absent k m → find k m ≡ none
unfolding find
find-Absent k [] h = refl
find-Absent k ((j, v) ∷ m) (h, hs) = ground (arith, bytes_eq_iff k j, find-Absent k m hs)

has_key-Absent : (k : Bytes) (m : Components) → Absent k m → has_key k m ≡ false
unfolding has_key
has_key-Absent k m h = rw (find-Absent k m h, has_key)

pub add_component-new :
    (k v : Bytes) (out : Components)
    → IsComponent (k, v)
    → Absent k out
    → add_component k v out ≡ ok (out ++ (k, v) ∷ [])
unfolding add_component
add_component-new k v out (known, filled, bytes) absent =
    let (key_filled, key_bytes) = known-IsKey k known in
    rw (
      key_filled,
      key_bytes,
      ne-is_empty v filled,
      All-all_nss_bytes v bytes,
      known,
      has_key-Absent k out absent,
    )

Distinct-Absent : (k v : Bytes) (out m : Components) → Distinct (out ++ (k, v) ∷ m) → Absent k out
Distinct-Absent k v [] m h = tt
Distinct-Absent k v ((j, w) ∷ out) m (hj, h) =
    ((All-right _ out ((k, v) ∷ m) hj).0, Distinct-Absent k v out m h)

add_components-parts :
    (m out : Components)
    → All IsComponent m
    → Distinct (out ++ m)
    → add_components (parts m) out ≡ ok (out ++ m)
unfolding add_components
add_components-parts [] out h d = rw append-nil
add_components-parts ((k, v) ∷ m) out (h, hs) d =
    rw (add_component-new k v out h (Distinct-Absent k v out m d)) (
      add_components-parts m (out ++ (k, v) ∷ []) hs
        (subst Distinct (sym (append_assoc out ((k, v) ∷ []) m)) d)
      ∙ rw append_assoc)

pub length-parts : (m : Components) → length (parts m) % 2 ≡ 0
length-parts [] = refl
length-parts ((k, v) ∷ m) = omega (arith, length-parts m)

nss_byte-Lacks : (b : ℕ) (s : Bytes) → ((c : ℕ) → IsNssByte c → c ≢ b) → All IsNssByte s → Lacks b s
nss_byte-Lacks b s f h = All-imp IsNssByte (λ c. c ≢ b) f s h

pub parts-IsNssByte : (m : Components) → All IsComponent m → All (All IsNssByte) (parts m)
parts-IsNssByte [] h = tt
parts-IsNssByte ((k, v) ∷ m) ((known, _, bytes), h) =
    (all_nss_bytes-All k (known-IsKey k known).1, (bytes, parts-IsNssByte m h))

pub parts-Lacks : (ps : List Bytes) → All (All IsNssByte) ps → All (Lacks b':') ps
parts-Lacks ps h =
    All-imp (All IsNssByte) (Lacks b':')
      (λ s b. nss_byte-Lacks b':' s (λ c n. (nss_byte_lem c n).2) b) ps h

pub first_delimiter-none : (s : Bytes) → Lacks b'?' s → Lacks b'#' s → first_delimiter s ≡ none
unfolding first_delimiter
first_delimiter-none [] q f = refl
first_delimiter-none (c ∷ s) (q, qs) (f, fs) = ground (arith, first_delimiter-none s qs fs)

-- a byte that an NSS may hold anywhere
abbrev pub IsNssText : ℕ → Type 0
IsNssText c = (0x20 < c) × (c < 0x7f) × (c ≢ b'?') × (c ≢ b'#')

nss_byte-IsNssText : (c : ℕ) → IsNssByte c → IsNssText c
nss_byte-IsNssText c h = let (low, high, _, _, q, f) = nss_byte_lem c h in (low, high, q, f)

tailed-IsNssText : (ps : List Bytes) → All (All IsNssByte) ps → All IsNssText (tailed b':' ps)
tailed-IsNssText [] h = tt
tailed-IsNssText (p ∷ ps) (hp, h) = (
  omega arith,
  All-append IsNssText p (tailed b':' ps) (All-imp IsNssByte IsNssText nss_byte-IsNssText p hp)
      (tailed-IsNssText ps h),
)

pub joined-IsNssText : (ps : List Bytes) → All (All IsNssByte) ps → All IsNssText (joined b':' ps)
joined-IsNssText [] h = tt
joined-IsNssText (p ∷ ps) (hp, h) =
    All-append IsNssText p (tailed b':' ps) (All-imp IsNssByte IsNssText nss_byte-IsNssText p hp)
      (tailed-IsNssText ps h)

-- Every byte of a spelled NSS is printable, and none is '?' or '#'.
pub spell-IsNssText : (m : Components) → All IsComponent m → All IsNssText (spell m)
spell-IsNssText m h = joined-IsNssText (parts m) (parts-IsNssByte m h)

split-spell :
    (k v : Bytes) (m : Components)
    → All IsComponent ((k, v) ∷ m)
    → split (spell ((k, v) ∷ m)) b':' ≡ parts ((k, v) ∷ m)
split-spell k v m h =
    split-joined b':' k (v ∷ parts m)
      (parts-Lacks (parts ((k, v) ∷ m)) (parts-IsNssByte ((k, v) ∷ m) h))

parse_parts-parts : (m : Components) → All IsComponent m → Distinct m → parse_parts (parts m) ≡ ok m
unfolding parse_parts
parse_parts-parts m h d = rw (length-parts m) (add_components-parts m [] h d)

-- An NSS that spells components with known keys, all different, and with non-empty values of NSS
-- bytes is parsed into exactly these components, in this order.
pub parse_nss_map-spell :
    (m : Components) → All IsComponent m → Distinct m → parse_nss_map (spell m) ≡ ok m
unfolding parse_nss_map parse_delimited
parse_nss_map-spell [] h d = refl
parse_nss_map-spell ((k, v) ∷ m) h d =
    let text = spell-IsNssText ((k, v) ∷ m) h in
    let q = All-imp IsNssText (λ c. c ≢ b'?') (λ c t. t.2) (spell ((k, v) ∷ m)) text in
    let f = All-imp IsNssText (λ c. c ≢ b'#') (λ c t. t.3) (spell ((k, v) ∷ m)) text in
    rw
      (
        append-is_empty k (tailed b':' (v ∷ parts m)) (known-IsKey k h.0.0).0,
        first_delimiter-none (spell ((k, v) ∷ m)) q f,
        split-spell k v m h,
      )
      (parse_parts-parts ((k, v) ∷ m) h d)
