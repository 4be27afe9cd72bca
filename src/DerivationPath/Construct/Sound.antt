-- ===== src/DerivationPath/Construct/Sound.antt =====
-- src/derivation_path.cpp: `from_levels` and `reparsed`, against the levels given.
use mathlib.Core.Path.{subst}
use mhda.Base.{
  Option-cases, inl, inr, ℕ, ◌≡◌, refl, sym, ◌∙◌, true, false, Bool, not, List, [], ◌∷◌, arith,
}
use mhda.DerivationPath.Class.{
  DerivationPath, fresh, str, rebuild_levels, rebuild_from, fixed_prefix,
}
use mhda.DerivationPath.Construct.{
  construct, levels_eq, check_levels, reparsed, from_levels, populate_shortcuts_from_levels,
}
use mhda.DerivationPath.Parse.RoundTrip.{IsCanonical, parse-IsCanonical}
use mhda.DerivationPath.Parse.{parse}
use mhda.DerivationPath.Text.{AddressIndex, index_eq, same}
use mhda.Error.{ok, past_throw, >>=-eq-ok, ok_injective}
use mhda.Names.DerivationType
use mhda.Names.DerivationType.{DerivationType}

same-eq : (a b : Bool) → same a b ≡ true → a ≡ b
same-eq true b h = sym h
same-eq false true h = cc
same-eq false false h = refl

index_eq-eq : (a b : AddressIndex) → index_eq a b ≡ true → a ≡ b
unfolding index_eq
index_eq-eq a b h =
    let e : a.index ≡ b.index = ground arith in
    let f : a.is_hardened ≡ b.is_hardened = same-eq a.is_hardened b.is_hardened (ground arith) in
    λ i. record { index = e i; is_hardened = f i }

-- `operator==` of two lists of levels is equality.
pub levels_eq-eq : (as' bs : List AddressIndex) → levels_eq as' bs ≡ true → as' ≡ bs
unfolding levels_eq
levels_eq-eq [] [] h = refl
levels_eq-eq [] (b ∷ bs) h = cc
levels_eq-eq (a ∷ as') [] h = cc
levels_eq-eq (a ∷ as') (b ∷ bs) h =
    let first = index_eq-eq a b (ground arith) in
    let rest = levels_eq-eq as' bs (ground arith) in rw (first, rest)

reparsed_sound :
    (dp : DerivationPath) (levels : List AddressIndex) {p : DerivationPath}
    → reparsed dp levels ≡ ok p
    → (p.levels ≡ levels) × IsCanonical p × (p.type ≡ dp.type)
unfolding reparsed check_levels
reparsed_sound dp levels {p} h =
    let (out, read, h) = >>=-eq-ok (parse dp.type (str dp)) _ h in
    let (equal, h) = past_throw (not (levels_eq out.levels levels)) _ _ h in
    let (canonical, type) = parse-IsCanonical dp.type (str dp) read in
    subst (λ (x : DerivationPath). (x.levels ≡ levels) × IsCanonical x × (x.type ≡ dp.type))
      (ok_injective h) (levels_eq-eq out.levels levels (ground arith), canonical, type)

pub populate-type : (p : DerivationPath) → (populate_shortcuts_from_levels p).type ≡ p.type
unfolding populate_shortcuts_from_levels
populate-type p = ground arith

pub from_levels-IsCanonical :
    (dt : DerivationType) (levels : List AddressIndex) {p : DerivationPath}
    → from_levels dt levels ≡ ok p
    → (p.levels ≡ levels) × IsCanonical p × (p.type ≡ dt)
unfolding from_levels
from_levels-IsCanonical dt levels {p} h =
    let (_, h) = past_throw (not (DerivationType.is_valid dt)) _ _ h in
    let self = populate_shortcuts_from_levels (record (fresh dt) { levels = levels }) in
    let (same_levels, canonical, type) = reparsed_sound self levels h in
    (same_levels, canonical, type ∙ populate-type (record (fresh dt) { levels = levels }))

-- A path that `from_levels` returns has exactly the levels and the type given, and it is read
-- back from its text.
pub from_levels_sound :
    (dt : DerivationType) (levels : List AddressIndex) {p : DerivationPath}
    → from_levels dt levels ≡ ok p
    → (p.levels ≡ levels) × (p.type ≡ dt) × (parse dt (str p) ≡ ok p)
from_levels_sound dt levels {p} h =
    let (same_levels, canonical, type) = from_levels-IsCanonical dt levels h in
    (same_levels, type, subst (λ t. parse t (str p) ≡ ok p) type canonical.again)

pub rebuild_levels-type : (p : DerivationPath) → (rebuild_levels p).type ≡ p.type
unfolding rebuild_levels rebuild_from
rebuild_levels-type p = elim (Option-cases (fixed_prefix p)) [
  | inl e ↦ rw e (ground arith)
  | inr ((purpose, coin), e) ↦ rw e (ground arith)
]

-- the object that the constructor rebuilds, before it is parsed again
abbrev pub given : DerivationType → ℕ → ℕ → ℕ → AddressIndex → DerivationPath
given dt coin account charge index = record {
  type = dt;
  coin = coin;
  account = account;
  charge = charge;
  index = index;
  has_index = not (DerivationType.eq dt DerivationType.root);
  levels = [];
}

pub construct-IsCanonical :
    (dt : DerivationType) (coin account charge : ℕ) (index : AddressIndex) {p : DerivationPath}
    → construct dt coin account charge index ≡ ok p
    → (DerivationType.eq dt DerivationType.slip10 ≡ false)
      × (p.levels ≡ (rebuild_levels (given dt coin account charge index)).levels)
      × IsCanonical p
      × (p.type ≡ dt)
unfolding construct
construct-IsCanonical dt coin account charge index {p} h =
    let (_, h) = past_throw (not (DerivationType.is_valid dt)) _ _ h in
    let (other, h) = past_throw (DerivationType.eq dt DerivationType.slip10) _ _ h in
    let self = rebuild_levels (given dt coin account charge index) in
    let (same_levels, canonical, type) = reparsed_sound self self.levels h in
    (other, same_levels, canonical, type ∙ rebuild_levels-type (given dt coin account charge index))

-- A path that the constructor returns has the type given and the levels that are rebuilt from the
-- shortcut fields given, and it is read back from its text; SLIP-10 is never constructed so.
pub construct_sound :
    (dt : DerivationType) (coin account charge : ℕ) (index : AddressIndex) {p : DerivationPath}
    → construct dt coin account charge index ≡ ok p
    → (DerivationType.eq dt DerivationType.slip10 ≡ false)
      × (p.levels ≡ (rebuild_levels (given dt coin account charge index)).levels)
      × (p.type ≡ dt)
      × (parse dt (str p) ≡ ok p)
construct_sound dt coin account charge index {p} h =
    let (other, same_levels, canonical, type) =
      construct-IsCanonical dt coin account charge index h in
    (other, same_levels, type, subst (λ t. parse t (str p) ≡ ok p) type canonical.again)
