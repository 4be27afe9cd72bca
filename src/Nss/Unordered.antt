-- ===== src/Nss/Unordered.antt =====
-- src/nss_parser.cpp: components in another order. The code keeps them in an unordered map, so what
-- it makes of them can only go by the value at each key.
use mathlib.Core.Path.{subst}
use mathlib.Core.List.{Perm, Permᴰ}
use mathlib.Core.Logic.{∥∥₁_elim}
use mhda.Base.{◌≡◌, ◌≢◌, refl, sym, ◌∙◌, [], ◌∷◌, Bytes, All, arith, find, bytes_eq_iff}
use mhda.Detail.Ascii.Sets.{IsNssByte}
use mhda.Nss.Pairs.{IsComponent, Distinct}
use mhda.Nss.{Components}

find-swap :
    (k : Bytes) (a b : Bytes × Bytes) (m : Components)
    → a.0 ≢ b.0
    → find k (a ∷ b ∷ m) ≡ find k (b ∷ a ∷ m)
unfolding find
find-swap k a b m h = ground (arith, bytes_eq_iff k a.0, bytes_eq_iff k b.0)

pub All-perm {κ} : (P : Bytes × Bytes → Type κ) {p q : Components} → Permᴰ p q → All P p → All P q
All-perm P Permᴰ.nil h = h
All-perm P (Permᴰ.cons e r) (x, h) = (subst P e x, All-perm P r h)
All-perm P (Permᴰ.swap e f) (x, (y, h)) = (subst P f y, (subst P e x, h))
All-perm P (Permᴰ.trans r s) h = All-perm P s (All-perm P r h)

-- the key of a component is not among the others
abbrev IsNew : Bytes × Bytes → Components → Type 0
IsNew a m = All (λ (e : Bytes × Bytes). a.0 ≢ e.0) m

pub Distinct-perm : {p q : Components} → Permᴰ p q → Distinct p → Distinct q
Distinct-perm Permᴰ.nil d = d
Distinct-perm (Permᴰ.cons {a} {b} {l₁} {l₂} e r) (h, d) =
    (subst (λ c. IsNew c l₂) e (All-perm _ r h), Distinct-perm r d)
Distinct-perm (Permᴰ.swap {a} {b} {a'} {b'} {l} e f) ((ab, ha), (hb, d)) = (
  (
    subst (λ (x : Bytes × Bytes). x.0 ≢ b'.0) f
        (subst (λ (y : Bytes × Bytes). b.0 ≢ y.0) e (λ g. ab (sym g))),
    subst (λ c. IsNew c l) f hb,
  ),
  (subst (λ c. IsNew c l) e ha, d),
)
Distinct-perm (Permᴰ.trans r s) d = Distinct-perm s (Distinct-perm r d)

find-perm : (k : Bytes) {p q : Components} → Permᴰ p q → Distinct p → find k p ≡ find k q
unfolding find
find-perm k Permᴰ.nil d = refl
find-perm k (Permᴰ.cons {a} {b} {l₁} {l₂} e r) (h, d) = rw (e, find-perm k r d) refl
find-perm k (Permᴰ.swap {a} {b} {a'} {b'} {l} e f) ((ab, _), d) =
    rw (← e, ← f) (find-swap k a b l ab)
find-perm k (Permᴰ.trans r s) d = find-perm k r d ∙ find-perm k s (Distinct-perm r d)

-- Every key stands at the same value.
abbrev pub SameEntries : Components → Components → Type 0
SameEntries p q = (k : Bytes) → find k p ≡ find k q

pub perm-SameEntries : {p q : Components} → Perm p q → Distinct p → SameEntries p q
perm-SameEntries r d k = ∥∥₁_elim r (hlevel) (λ s. find-perm k s d)

bytes-prop : (v : Bytes) → IsProp (All IsNssByte v)
bytes-prop [] = hlevel
bytes-prop (c ∷ v) = hlevel (bytes-prop v)

pub IsComponent-prop : (m : Components) → IsProp (All IsComponent m)
IsComponent-prop [] = hlevel
IsComponent-prop ((k, v) ∷ m) = hlevel (IsComponent-prop m, bytes-prop v)

IsNew-prop : (a : Bytes × Bytes) (m : Components) → IsProp (IsNew a m)
IsNew-prop a [] = hlevel
IsNew-prop a (b ∷ m) = hlevel (IsNew-prop a m)

pub Distinct-prop : (m : Components) → IsProp (Distinct m)
Distinct-prop [] = hlevel
Distinct-prop ((k, v) ∷ m) = hlevel (IsNew-prop (k, v) m, Distinct-prop m)
