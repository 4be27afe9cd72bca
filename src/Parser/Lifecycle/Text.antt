-- ===== src/Parser/Lifecycle/Text.antt =====
-- src/address.cpp: what `marshal_text` writes for an address that any calls have made.
use mathlib.Core.Path.{subst}
use mhda.Address.Print.{
  has_derivation, check_path_set, path_missing, append_derivation, nss, str, marshal_text,
}
use mhda.Address.Setters.Legit.{IsLegitPath, IsLegit}
use mhda.Address.Setters.Preserve.{IsValid-of}
use mhda.Address.Valid.{IsValid}
use mhda.Address.{Address}
use mhda.Base.{
  ◌≡◌, ◌≢◌, inl, inr, refl, ap, ◌∙◌, true, false, [], Option, none, some, Bytes, Bool-cases,
  is_empty, if◌then◌else◌, arith,
}
use mhda.Chain.Lifecycle as ChainLife
use mhda.DerivationPath.Class.{DerivationPath, fresh, is_type}
use mhda.DerivationPath.Lifecycle as PathLife
use mhda.DerivationPath.Parse.RoundTrip.{IsCanonical, root-IsCanonical}
use mhda.Error.{ok, past_throw_if, ok_injective}
use mhda.Names.DerivationType
use mhda.Names.NetworkType
use mhda.Parser.Lifecycle.{Reach, Reach-IsLegit}
use mhda.Parser.RoundTrip.{parse_urn-str}
use mhda.Parser.{parse_urn}

-- the path that an address names: the root path, where it has none or its type is unset
unfoldable pub settled : Option DerivationPath → DerivationPath
settled none = fresh DerivationType.root
settled (some p) = if has_derivation p then p else fresh DerivationType.root

missing-fresh :
    (p : DerivationPath)
    → PathLife.IsFresh p
    → has_derivation p ≡ true
    → path_missing (some p) ≡ true
unfolding path_missing
missing-fresh p (_, e) h =
    let bare : p.levels ≡ [] = ap (λ (q : DerivationPath). q.levels) e in rw (h, bare) refl

legit-IsCanonical :
    (p : DerivationPath)
    → PathLife.IsLegit p
    → has_derivation p ≡ true
    → path_missing (some p) ≡ false
    → IsCanonical p
legit-IsCanonical p (inl c) h m = c
legit-IsCanonical p (inr f) h m = absurd (cc (missing-fresh p f h, m))

pub settled-IsCanonical :
    (o : Option DerivationPath) → IsLegitPath o → path_missing o ≡ false → IsCanonical (settled o)
unfolding settled
settled-IsCanonical none h m = root-IsCanonical
settled-IsCanonical (some p) h m = elim (Bool-cases (has_derivation p)) [
  | inl set ↦ rw set (legit-IsCanonical p h set m)
  | inr root ↦ rw root root-IsCanonical
]

root-underived : has_derivation (fresh DerivationType.root) ≡ false
unfolding has_derivation is_type DerivationType.eq
root-underived = refl

-- The address names the same with its path settled.
append_derivation-settled :
    (out : Bytes) (o : Option DerivationPath)
    → append_derivation out (some (settled o)) ≡ append_derivation out o
unfolding append_derivation settled
append_derivation-settled out none = rw root-underived refl
append_derivation-settled out (some p) = elim (Bool-cases (has_derivation p)) [
  | inl set ↦ rw (set, set) refl
  | inr root ↦ rw (root, root-underived) refl
]

abbrev pub settle : Address → Address
settle a = record a { path = some (settled a.path) }

pub str-settle : (a : Address) → str (settle a) ≡ str a
unfolding str nss
str-settle a = rw (append_derivation-settled _ a.path) refl

pub settle-IsValid :
    (a : Address)
    → IsLegit a
    → a.chain.network.value ≢ []
    → a.chain.chain_id ≢ []
    → path_missing a.path ≡ false
    → IsValid (settle a)
settle-IsValid a v set named m =
    IsValid-of (settle a) (ChainLife.IsLegit-IsIdentity a.chain set named v.chain)
      (settled-IsCanonical a.path v.path m) v.algorithm v.format v.prefix v.suffix v.wallet_type
      v.wallet_id

pub filled-ne : (v : Bytes) → is_empty v ≡ false → v ≢ []
filled-ne v h = ground arith

-- Whatever calls made an address with a chain id, and whether they returned or threw: if
-- `marshal_text` gives a text, `parse_urn` reads from it this address, with the root path where no
-- path or an unset type stood.
pub marshal_text-reached :
    (a : Address) {text : Bytes}
    → Reach a
    → a.chain.chain_id ≢ []
    → marshal_text a ≡ ok text
    → (parse_urn text ≡ ok (settle a)) × (str (settle a) ≡ text)
unfolding marshal_text check_path_set
marshal_text-reached a {text} r named h =
    let (set, h) = past_throw_if (NetworkType.empty a.chain.network) _ _ _ h in
    let (whole, h) = past_throw_if (path_missing a.path) _ _ _ h in
    let v = settle-IsValid a (Reach-IsLegit r) (filled-ne a.chain.network.value set) named whole in
    let same : str (settle a) ≡ text = str-settle a ∙ ok_injective h in
    (subst (λ t. parse_urn t ≡ ok (settle a)) same (parse_urn-str (settle a) v), same)
