-- ===== src/DerivationPath/Parse/Valid.antt =====
-- src/derivation_path.cpp: the path that is built from levels that pass the validation, and the same
-- levels in the spelling of the printer.
use mhda.Base.{
  ℕ, suc, ◌≡◌, ◌≢◌, ◌⊎◌, refl, sym, ◌∙◌, ap, Bool, true, false, List, [], ◌∷◌, ◌==◌, arith, inl,
  inr, length, ◌||◌,
}
use mhda.DerivationPath.Layout.{
  expect_purpose, expect_coin, validate_bip44_family, validate_bip32, validate_slip10,
  validate_cip11, validate_cip1852, validate_zip32, validate_levels_for,
}
use mhda.DerivationPath.Levels.{RawLevel}
use mhda.DerivationPath.Parse.Shape
use mhda.DerivationPath.Parse.Shape.{IsFilled, respelled, five, three}
use mhda.Names.DerivationType
use mhda.Names.DerivationType.Cases.{Scheme, name}

abbrev Triple : List RawLevel → Type 0
Triple lvls = (a : RawLevel) × (b : RawLevel) × (c : RawLevel) × (lvls ≡ three a b c)

abbrev Quadruple : List RawLevel → Type 0
Quadruple lvls =
    (a : RawLevel) × (b : RawLevel) × (c : RawLevel) × (d : RawLevel) × (lvls ≡ a ∷ b ∷ c ∷ d ∷ [])

abbrev Quintuple : List RawLevel → Type 0
Quintuple lvls =
    (a : RawLevel) × (b : RawLevel) × (c : RawLevel) × (d : RawLevel) × (e : RawLevel) × (lvls
      ≡ five a b c d e)

three_levels : (lvls : List RawLevel) → (length lvls == 3) ≡ true → Triple lvls
three_levels (a ∷ b ∷ c ∷ []) h = (a, b, c, refl)
three_levels (a ∷ b ∷ c ∷ d ∷ r) h = absurd (ground arith)
three_levels [] h = cc
three_levels (a ∷ []) h = cc
three_levels (a ∷ b ∷ []) h = cc

four_levels : (lvls : List RawLevel) → (length lvls == 4) ≡ true → Quadruple lvls
four_levels (a ∷ b ∷ c ∷ d ∷ []) h = (a, b, c, d, refl)
four_levels (a ∷ b ∷ c ∷ d ∷ e ∷ r) h = absurd (ground arith)
four_levels [] h = cc
four_levels (a ∷ []) h = cc
four_levels (a ∷ b ∷ []) h = cc
four_levels (a ∷ b ∷ c ∷ []) h = cc

five_levels : (lvls : List RawLevel) → (length lvls == 5) ≡ true → Quintuple lvls
five_levels (a ∷ b ∷ c ∷ d ∷ e ∷ []) h = (a, b, c, d, e, refl)
five_levels (a ∷ b ∷ c ∷ d ∷ e ∷ f ∷ r) h = absurd (ground arith)
five_levels [] h = cc
five_levels (a ∷ []) h = cc
five_levels (a ∷ b ∷ []) h = cc
five_levels (a ∷ b ∷ c ∷ []) h = cc
five_levels (a ∷ b ∷ c ∷ d ∷ []) h = cc

three_or_four :
    (lvls : List RawLevel)
    → (length lvls == 3 || length lvls == 4) ≡ true
    → Triple lvls ⊎ Quadruple lvls
three_or_four (a ∷ b ∷ c ∷ []) h = inl (a, b, c, refl)
three_or_four (a ∷ b ∷ c ∷ d ∷ []) h = inr (a, b, c, d, refl)
three_or_four (a ∷ b ∷ c ∷ d ∷ e ∷ r) h = absurd (ground arith)
three_or_four [] h = cc
three_or_four (a ∷ []) h = cc
three_or_four (a ∷ b ∷ []) h = cc

-- What a type's layout gives for its levels.
abbrev pub IsReady : Scheme → List RawLevel → Type 0
IsReady s lvls = IsFilled s lvls × (validate_levels_for (name s) (respelled lvls) ≡ true)

module _ (a b c d e : RawLevel) where
  family_again :
      (purpose : ℕ)
      → validate_bip44_family (five a b c d e) purpose 0 false ≡ true
      → validate_bip44_family (respelled (five a b c d e)) purpose 0 false ≡ true
  unfolding validate_bip44_family expect_purpose
  family_again purpose h = ground arith

  cip11_again :
      validate_cip11 (five a b c d e) ≡ true → validate_cip11 (respelled (five a b c d e)) ≡ true
  unfolding validate_cip11 expect_purpose expect_coin
  cip11_again h = ground arith

  cip1852_again :
      validate_cip1852 (five a b c d e) ≡ true
      → validate_cip1852 (respelled (five a b c d e)) ≡ true
  unfolding validate_cip1852 expect_purpose expect_coin
  cip1852_again h = ground arith

module _ (a b c : RawLevel) where
  bip32_again :
      validate_bip32 (three a b c) ≡ true → validate_bip32 (respelled (three a b c)) ≡ true
  unfolding validate_bip32
  bip32_again h = ground arith

  zip32_again :
      validate_zip32 (three a b c) ≡ true → validate_zip32 (respelled (three a b c)) ≡ true
  unfolding validate_zip32 expect_purpose expect_coin
  zip32_again h = ground arith

  zip32_index_again :
      (d : RawLevel)
      → validate_zip32 (a ∷ b ∷ c ∷ d ∷ []) ≡ true
      → validate_zip32 (respelled (a ∷ b ∷ c ∷ d ∷ [])) ≡ true
  unfolding validate_zip32 expect_purpose expect_coin
  zip32_index_again d h = ground arith

length-respelled : (lvls : List RawLevel) → length (respelled lvls) ≡ length lvls
length-respelled [] = refl
length-respelled (l ∷ lvls) = ap suc (length-respelled lvls)

-- A type whose validation asks for five levels.
module _ (s : Scheme) (v : List RawLevel → Bool)
    (is_v : (lvls : List RawLevel) → validate_levels_for (name s) lvls ≡ v lvls)
    (sized : (lvls : List RawLevel) → v lvls ≡ true → (length lvls == 5) ≡ true)
    (filled : (a b c d e : RawLevel) → v (five a b c d e) ≡ true → IsFilled s (five a b c d e))
    (again : (a b c d e : RawLevel)
      → v (five a b c d e) ≡ true
      → v (respelled (five a b c d e)) ≡ true) where
  IsReady-five : (lvls : List RawLevel) → validate_levels_for (name s) lvls ≡ true → IsReady s lvls
  IsReady-five lvls h =
      let h' : v lvls ≡ true = sym (is_v lvls) ∙ h in
      let (a, b, c, d, e, shape) = five_levels lvls (sized lvls h') in
      let h'' : v (five a b c d e) ≡ true = rw shape at h' in
      rw shape (filled a b c d e h'', is_v (respelled (five a b c d e)) ∙ again a b c d e h'')

family_sized :
    (purpose : ℕ) (lvls : List RawLevel)
    → validate_bip44_family lvls purpose 0 false ≡ true
    → (length lvls == 5) ≡ true
unfolding validate_bip44_family
family_sized purpose lvls h = ground arith

cip11_sized : (lvls : List RawLevel) → validate_cip11 lvls ≡ true → (length lvls == 5) ≡ true
unfolding validate_cip11
cip11_sized lvls h = ground arith

cip1852_sized : (lvls : List RawLevel) → validate_cip1852 lvls ≡ true → (length lvls == 5) ≡ true
unfolding validate_cip1852
cip1852_sized lvls h = ground arith

bip32_sized : (lvls : List RawLevel) → validate_bip32 lvls ≡ true → (length lvls == 3) ≡ true
unfolding validate_bip32
bip32_sized lvls h = ground arith

zip32_sized :
    (lvls : List RawLevel)
    → validate_zip32 lvls ≡ true
    → (length lvls == 3 || length lvls == 4) ≡ true
unfolding validate_zip32
zip32_sized lvls h = ground arith

IsReady-bip32 : (lvls : List RawLevel) → validate_bip32 lvls ≡ true → IsReady Scheme.bip32 lvls
IsReady-bip32 lvls h =
    let (a, b, c, shape) = three_levels lvls (bip32_sized lvls h) in
    let h' : validate_bip32 (three a b c) ≡ true = rw shape at h in
    rw shape (
      Shape.bip32-IsFilled a b c h',
      unfold validate_levels_for DerivationType.eq in bip32_again a b c h',
    )

IsReady-zip32 : (lvls : List RawLevel) → validate_zip32 lvls ≡ true → IsReady Scheme.zip32 lvls
IsReady-zip32 lvls h = elim (three_or_four lvls (zip32_sized lvls h)) [
  | inl (a, b, c, shape) ↦
      (let h' : validate_zip32 (three a b c) ≡ true = rw shape at h in
        rw shape (
          Shape.zip32-IsFilled a b c h',
          unfold validate_levels_for DerivationType.eq in zip32_again a b c h',
        ))
  | inr (a, b, c, d, shape) ↦
      (let h' : validate_zip32 (a ∷ b ∷ c ∷ d ∷ []) ≡ true = rw shape at h in
        rw shape (
          Shape.zip32_index-IsFilled a b c d h',
          unfold validate_levels_for DerivationType.eq in zip32_index_again a b c d h',
        ))
]

IsReady-slip10 : (lvls : List RawLevel) → validate_slip10 lvls ≡ true → IsReady Scheme.slip10 lvls
unfolding validate_slip10 validate_levels_for DerivationType.eq
IsReady-slip10 [] h = cc
IsReady-slip10 (l ∷ lvls) h = (Shape.slip10-IsFilled l lvls, rw (length-respelled lvls) h)

-- Levels of a type's layout are built into a path with these levels, which prints as they do, and
-- the levels that this print is read as give the same path.
pub ready :
    (s : Scheme) (lvls : List RawLevel)
    → s ≢ Scheme.root
    → validate_levels_for (name s) lvls ≡ true
    → IsReady s lvls
unfolding validate_levels_for DerivationType.eq
ready Scheme.root lvls ne h = absurd (ne refl)
ready Scheme.bip32 lvls ne h = IsReady-bip32 lvls h
ready Scheme.bip44 lvls ne h =
    IsReady-five Scheme.bip44 _ (λ l. refl) (family_sized 44) Shape.bip44-IsFilled
      (λ a b c d e. family_again a b c d e 44) lvls h
ready Scheme.bip49 lvls ne h =
    IsReady-five Scheme.bip49 _ (λ l. refl) (family_sized 49) Shape.bip49-IsFilled
      (λ a b c d e. family_again a b c d e 49) lvls h
ready Scheme.bip54 lvls ne h =
    IsReady-five Scheme.bip54 _ (λ l. refl) (family_sized 54) Shape.bip54-IsFilled
      (λ a b c d e. family_again a b c d e 54) lvls h
ready Scheme.bip74 lvls ne h =
    IsReady-five Scheme.bip74 _ (λ l. refl) (family_sized 74) Shape.bip74-IsFilled
      (λ a b c d e. family_again a b c d e 74) lvls h
ready Scheme.bip84 lvls ne h =
    IsReady-five Scheme.bip84 _ (λ l. refl) (family_sized 84) Shape.bip84-IsFilled
      (λ a b c d e. family_again a b c d e 84) lvls h
ready Scheme.bip86 lvls ne h =
    IsReady-five Scheme.bip86 _ (λ l. refl) (family_sized 86) Shape.bip86-IsFilled
      (λ a b c d e. family_again a b c d e 86) lvls h
ready Scheme.slip10 lvls ne h = IsReady-slip10 lvls h
ready Scheme.cip1852 lvls ne h =
    IsReady-five Scheme.cip1852 _ (λ l. refl) cip1852_sized Shape.cip1852-IsFilled cip1852_again
      lvls h
ready Scheme.cip11 lvls ne h =
    IsReady-five Scheme.cip11 _ (λ l. refl) cip11_sized Shape.cip11-IsFilled cip11_again lvls h
ready Scheme.zip32 lvls ne h = IsReady-zip32 lvls h
