-- ===== src/DerivationPath/Layout/Forms.antt =====
-- src/derivation_path.cpp: the validators of the levels against the layouts that they stand for.
use mhda.Base.{
  ℕ, suc, ap, ◌≤◌, ◌≡◌, ◌≢◌, ◌↔◌, ◌⊎◌, inl, inr, refl, true, false, Bool, List, [], ◌∷◌, ◌==◌,
  arith, length, map, is_empty,
}
use mhda.DerivationPath.Class.{hard, soft}
use mhda.DerivationPath.Layout.{
  expect_purpose, expect_coin, validate_bip44_family, validate_bip32, validate_slip10,
  validate_cip11, validate_cip1852, validate_zip32, validate_levels_for,
}
use mhda.DerivationPath.Levels.Print.{exactly}
use mhda.DerivationPath.Levels.{RawLevel}
use mhda.DerivationPath.Text.{AddressIndex}
use mhda.Names.DerivationType
use mhda.Names.DerivationType.Cases.{Scheme, name}

-- purpose', coin', account', 0 or 1, and any index
abbrev pub IsFamily : ℕ → List AddressIndex → Type 0
IsFamily purpose ls =
    (coin : ℕ) × (account : ℕ) × (charge : ℕ) × (i : AddressIndex) × (charge ≤ 1)
    × (ls ≡ hard purpose ∷ hard coin ∷ hard account ∷ soft charge ∷ i ∷ [])

-- purpose', coin', account', any soft index, and any index
abbrev pub IsFixed : ℕ → ℕ → List AddressIndex → Type 0
IsFixed purpose coin ls =
    (account : ℕ) × (charge : ℕ) × (i : AddressIndex) × (ls
      ≡ hard purpose ∷ hard coin ∷ hard account ∷ soft charge ∷ i ∷ [])

-- account', 0 or 1, and any index
abbrev pub IsShort : List AddressIndex → Type 0
IsShort ls =
    (account : ℕ) × (charge : ℕ) × (i : AddressIndex) × (charge ≤ 1)
    × (ls ≡ hard account ∷ soft charge ∷ i ∷ [])

-- 32', 133', account', and it may be one more index
abbrev pub IsShielded : List AddressIndex → Type 0
IsShielded ls =
    ((account : ℕ) × (ls ≡ hard 32 ∷ hard 133 ∷ hard account ∷ []))
    ⊎ ((account : ℕ) × (i : AddressIndex) × (ls ≡ hard 32 ∷ hard 133 ∷ hard account ∷ i ∷ []))

-- The levels that a path of the type has.
abbrev pub HasLayout : Scheme → List AddressIndex → Type 0
HasLayout Scheme.root ls = ls ≡ []
HasLayout Scheme.bip32 ls = IsShort ls
HasLayout Scheme.bip44 ls = IsFamily 44 ls
HasLayout Scheme.bip49 ls = IsFamily 49 ls
HasLayout Scheme.bip54 ls = IsFamily 54 ls
HasLayout Scheme.bip74 ls = IsFamily 74 ls
HasLayout Scheme.bip84 ls = IsFamily 84 ls
HasLayout Scheme.bip86 ls = IsFamily 86 ls
HasLayout Scheme.slip10 ls = (ls ≢ []) × (length ls ≤ 255)
HasLayout Scheme.cip1852 ls = IsFixed 1852 1815 ls
HasLayout Scheme.cip11 ls = IsFixed 44 118 ls
HasLayout Scheme.zip32 ls = IsShielded ls

abbrev Five : List AddressIndex → Type 0
Five ls =
    (a : AddressIndex) × (b : AddressIndex) × (c : AddressIndex) × (d : AddressIndex)
    × (e : AddressIndex) × (ls ≡ a ∷ b ∷ c ∷ d ∷ e ∷ [])

five : (ls : List AddressIndex) → (length (map exactly ls) == 5) ≡ true → Five ls
five (a ∷ b ∷ c ∷ d ∷ e ∷ []) h = (a, b, c, d, e, refl)
five (a ∷ b ∷ c ∷ d ∷ e ∷ f ∷ r) h = absurd (ground arith)
five [] h = cc
five (a ∷ []) h = cc
five (a ∷ b ∷ []) h = cc
five (a ∷ b ∷ c ∷ []) h = cc
five (a ∷ b ∷ c ∷ d ∷ []) h = cc

IsFamily-form :
    (purpose : ℕ) (a b c d e : AddressIndex)
    → validate_bip44_family (map exactly (a ∷ b ∷ c ∷ d ∷ e ∷ [])) purpose 0 false ≡ true
    → IsFamily purpose (a ∷ b ∷ c ∷ d ∷ e ∷ [])
unfolding validate_bip44_family expect_purpose
IsFamily-form purpose a b c d e h = (b.index, c.index, d.index, e, ground arith, ground arith)

family_length :
    (purpose : ℕ) (ls : List AddressIndex)
    → validate_bip44_family (map exactly ls) purpose 0 false ≡ true
    → (length (map exactly ls) == 5) ≡ true
unfolding validate_bip44_family
family_length purpose ls h = ground arith

IsFamily-iff :
    (purpose : ℕ) (ls : List AddressIndex)
    → (validate_bip44_family (map exactly ls) purpose 0 false ≡ true) ↔ IsFamily purpose ls
IsFamily-iff purpose ls = (
  λ h.
      (let (a, b, c, d, e, shape) = five ls (family_length purpose ls h) in
        rw shape (IsFamily-form purpose a b c d e (rw shape at h))),
  λ (coin, account, charge, i, bound, e).
      rw e (unfold validate_bip44_family expect_purpose in ground arith),
)

-- Both layouts with a fixed coin.
module _ (v : List RawLevel → Bool) (purpose coin : ℕ)
    (sized : (ls : List RawLevel) → v ls ≡ true → (length ls == 5) ≡ true)
    (form : (a b c d e : AddressIndex)
      → v (map exactly (a ∷ b ∷ c ∷ d ∷ e ∷ [])) ≡ true
      → IsFixed purpose coin (a ∷ b ∷ c ∷ d ∷ e ∷ []))
    (valid : (account charge : ℕ) (i : AddressIndex)
      → v (map exactly (hard purpose ∷ hard coin ∷ hard account ∷ soft charge ∷ i ∷ []))
        ≡ true) where
  IsFixed-iff : (ls : List AddressIndex) → (v (map exactly ls) ≡ true) ↔ IsFixed purpose coin ls
  IsFixed-iff ls = (
    λ h.
        (let (a, b, c, d, e, shape) = five ls (sized (map exactly ls) h) in
          rw shape (form a b c d e (rw shape at h))),
    λ (account, charge, i, e). rw e (valid account charge i),
  )

cip11_iff : (ls : List AddressIndex) → (validate_cip11 (map exactly ls) ≡ true) ↔ IsFixed 44 118 ls
unfolding validate_cip11 expect_purpose expect_coin
cip11_iff =
    IsFixed-iff validate_cip11 44 118 (λ ls h. ground arith)
      (λ a b c d e h. (c.index, d.index, e, ground arith)) (λ account charge i. ground arith)

cip1852_iff :
    (ls : List AddressIndex) → (validate_cip1852 (map exactly ls) ≡ true) ↔ IsFixed 1852 1815 ls
unfolding validate_cip1852 expect_purpose expect_coin
cip1852_iff =
    IsFixed-iff validate_cip1852 1852 1815 (λ ls h. ground arith)
      (λ a b c d e h. (c.index, d.index, e, ground arith)) (λ account charge i. ground arith)

bip32_form : (ls : List AddressIndex) → validate_bip32 (map exactly ls) ≡ true → IsShort ls
unfolding validate_bip32
bip32_form (a ∷ b ∷ c ∷ []) h = (a.index, b.index, c, ground arith, ground arith)
bip32_form (a ∷ b ∷ c ∷ d ∷ r) h = absurd (ground arith)
bip32_form [] h = cc
bip32_form (a ∷ []) h = cc
bip32_form (a ∷ b ∷ []) h = cc

bip32_iff : (ls : List AddressIndex) → (validate_bip32 (map exactly ls) ≡ true) ↔ IsShort ls
bip32_iff ls =
    (bip32_form ls, λ (account, charge, i, bound, e). rw e (unfold validate_bip32 in ground arith))

zip32_form : (ls : List AddressIndex) → validate_zip32 (map exactly ls) ≡ true → IsShielded ls
unfolding validate_zip32 expect_purpose expect_coin
zip32_form (a ∷ b ∷ c ∷ []) h = inl (c.index, ground arith)
zip32_form (a ∷ b ∷ c ∷ d ∷ []) h = inr (c.index, d, ground arith)
zip32_form (a ∷ b ∷ c ∷ d ∷ e ∷ r) h = absurd (ground arith)
zip32_form [] h = cc
zip32_form (a ∷ []) h = cc
zip32_form (a ∷ b ∷ []) h = cc

zip32_valid : (ls : List AddressIndex) → IsShielded ls → validate_zip32 (map exactly ls) ≡ true
unfolding validate_zip32 expect_purpose expect_coin
zip32_valid ls (inl (account, e)) = rw e (ground arith)
zip32_valid ls (inr (account, i, e)) = rw e (ground arith)

length-exactly : (ls : List AddressIndex) → length (map exactly ls) ≡ length ls
length-exactly [] = refl
length-exactly (l ∷ ls) = ap suc (length-exactly ls)

slip10_iff :
    (ls : List AddressIndex)
    → (validate_slip10 (map exactly ls) ≡ true) ↔ ((ls ≢ []) × (length ls ≤ 255))
unfolding validate_slip10
slip10_iff [] = (λ h. cc, λ (ne, _). absurd (ne refl))
slip10_iff (l ∷ ls) = (
  λ h. (λ e. cc, ground (arith, length-exactly ls)),
  λ (_, short). ground (arith, length-exactly ls),
)

root_iff : (ls : List AddressIndex) → (is_empty (map exactly ls) ≡ true) ↔ (ls ≡ [])
root_iff [] = (λ h. refl, λ e. refl)
root_iff (l ∷ ls) = (λ h. cc, λ e. cc)

-- The validation of a type accepts levels, spelled with no leading zeros, exactly if they have the
-- layout of the type.
pub layout_iff :
    (s : Scheme) (ls : List AddressIndex)
    → (validate_levels_for (name s) (map exactly ls) ≡ true) ↔ HasLayout s ls
unfolding validate_levels_for DerivationType.eq
layout_iff Scheme.root ls = root_iff ls
layout_iff Scheme.bip32 ls = bip32_iff ls
layout_iff Scheme.bip44 ls = IsFamily-iff 44 ls
layout_iff Scheme.bip49 ls = IsFamily-iff 49 ls
layout_iff Scheme.bip54 ls = IsFamily-iff 54 ls
layout_iff Scheme.bip74 ls = IsFamily-iff 74 ls
layout_iff Scheme.bip84 ls = IsFamily-iff 84 ls
layout_iff Scheme.bip86 ls = IsFamily-iff 86 ls
layout_iff Scheme.slip10 ls = slip10_iff ls
layout_iff Scheme.cip1852 ls = cip1852_iff ls
layout_iff Scheme.cip11 ls = cip11_iff ls
layout_iff Scheme.zip32 ls = (zip32_form ls, zip32_valid ls)
