-- ===== src/DerivationPath/Parse/Shape.antt =====
-- src/derivation_path.cpp: the levels and the text of a path that the branches of `parse_fresh` build.
use mhda.Base.{
  ℕ, ◌≡◌, refl, ap, true, false, List, [], ◌∷◌, ◌++◌, append_assoc, Bytes, arith, map, codes,
}
use mhda.DerivationPath.Class.{
  DerivationPath, fresh, is_bip44_family, fixed_prefix, rebuild_levels, rebuild_from, hard, soft,
  str, str_from, append_index,
}
use mhda.DerivationPath.Layout.{
  expect_purpose, expect_coin, validate_bip44_family, validate_bip32, validate_cip11,
  validate_cip1852, validate_zip32,
}
use mhda.DerivationPath.Levels.Print.{exactly}
use mhda.DerivationPath.Levels.{RawLevel}
use mhda.DerivationPath.Parse.{fill, to_index}
use mhda.DerivationPath.Text.{
  AddressIndex, append_uint32, append_marker, append_levels, format_levels,
}
use mhda.Error.{ok}
use mhda.Names.DerivationType.Cases.{Scheme, name}

-- the levels with their digits spelled as the printer spells them
abbrev pub respelled : List RawLevel → List RawLevel
respelled lvls = map exactly (map to_index lvls)

-- what the branches of `parse_fresh` make of levels of the layout
abbrev pub IsFilled : Scheme → List RawLevel → Type 0
IsFilled s lvls =
    (p : DerivationPath) × (fill (fresh (name s)) lvls ≡ ok p)
    × (p.levels ≡ map to_index lvls)
    × (str p ≡ format_levels p.levels)
    × (p.type ≡ name s)
    × (fill (fresh (name s)) (respelled lvls) ≡ ok p)

-- The layouts of five levels print as their levels do.
pub text_five :
    (purpose coin account charge : ℕ) (i : AddressIndex)
    → append_index
        (append_uint32
            (append_uint32
                (append_uint32 (append_uint32 (codes "m/") purpose ++ codes "'/") coin
                  ++ codes "'/")
                account
              ++ codes "'/")
            charge
          ++ b'/' ∷ [])
        i
      ≡ format_levels (hard purpose ∷ hard coin ∷ hard account ∷ soft charge ∷ i ∷ [])
unfolding append_index format_levels append_levels append_uint32 append_marker
text_five purpose coin account charge i = simp append_assoc

pub text_three :
    (account charge : ℕ) (i : AddressIndex)
    → append_index
        (append_uint32 (append_uint32 (codes "m/") account ++ codes "'/") charge ++ b'/' ∷ [])
        i
      ≡ format_levels (hard account ∷ soft charge ∷ i ∷ [])
unfolding append_index format_levels append_levels append_uint32 append_marker
text_three account charge i = simp append_assoc

abbrev pub zip_front : ℕ → Bytes
zip_front account =
    append_uint32 (append_uint32 (append_uint32 (codes "m/") 32 ++ codes "'/") 133 ++ codes "'/")
      account

pub text_zip32 :
    (account : ℕ)
    → zip_front account ++ b'\'' ∷ [] ≡ format_levels (hard 32 ∷ hard 133 ∷ hard account ∷ [])
unfolding format_levels append_levels append_uint32 append_marker
text_zip32 account = simp append_assoc

pub text_zip32_index :
    (account : ℕ) (i : AddressIndex)
    → append_index ((zip_front account ++ b'\'' ∷ []) ++ b'/' ∷ []) i
      ≡ format_levels (hard 32 ∷ hard 133 ∷ hard account ∷ i ∷ [])
unfolding append_index format_levels append_levels append_uint32 append_marker
text_zip32_index account i = simp append_assoc

module _ (a b c d e : RawLevel) where
  abbrev pub five : List RawLevel
  five = a ∷ b ∷ c ∷ d ∷ e ∷ []

  family_levels :
      (purpose : ℕ)
      → validate_bip44_family five purpose 0 false ≡ true
      → ◌≡◌ {A = List AddressIndex}
          (hard purpose ∷ hard b.index ∷ hard c.index ∷ soft d.index ∷ to_index e ∷ [])
          (map to_index five)
  unfolding validate_bip44_family expect_purpose
  family_levels purpose h = ground arith

  pub bip44-IsFilled : validate_bip44_family five 44 0 false ≡ true → IsFilled Scheme.bip44 five
  unfolding fill is_bip44_family rebuild_levels fixed_prefix rebuild_from str str_from
  bip44-IsFilled h = (_, refl, family_levels 44 h, text_five 44 _ _ _ _, refl, refl)

  pub bip49-IsFilled : validate_bip44_family five 49 0 false ≡ true → IsFilled Scheme.bip49 five
  unfolding fill is_bip44_family rebuild_levels fixed_prefix rebuild_from str str_from
  bip49-IsFilled h = (_, refl, family_levels 49 h, text_five 49 _ _ _ _, refl, refl)

  pub bip54-IsFilled : validate_bip44_family five 54 0 false ≡ true → IsFilled Scheme.bip54 five
  unfolding fill is_bip44_family rebuild_levels fixed_prefix rebuild_from str str_from
  bip54-IsFilled h = (_, refl, family_levels 54 h, text_five 54 _ _ _ _, refl, refl)

  pub bip74-IsFilled : validate_bip44_family five 74 0 false ≡ true → IsFilled Scheme.bip74 five
  unfolding fill is_bip44_family rebuild_levels fixed_prefix rebuild_from str str_from
  bip74-IsFilled h = (_, refl, family_levels 74 h, text_five 74 _ _ _ _, refl, refl)

  pub bip84-IsFilled : validate_bip44_family five 84 0 false ≡ true → IsFilled Scheme.bip84 five
  unfolding fill is_bip44_family rebuild_levels fixed_prefix rebuild_from str str_from
  bip84-IsFilled h = (_, refl, family_levels 84 h, text_five 84 _ _ _ _, refl, refl)

  pub bip86-IsFilled : validate_bip44_family five 86 0 false ≡ true → IsFilled Scheme.bip86 five
  unfolding fill is_bip44_family rebuild_levels fixed_prefix rebuild_from str str_from
  bip86-IsFilled h = (_, refl, family_levels 86 h, text_five 86 _ _ _ _, refl, refl)

  cip11_levels :
      validate_cip11 five ≡ true
      → ◌≡◌ {A = List AddressIndex}
          (hard 44 ∷ hard 118 ∷ hard c.index ∷ soft d.index ∷ to_index e ∷ [])
          (map to_index five)
  unfolding validate_cip11 expect_purpose expect_coin
  cip11_levels h = ground arith

  pub cip11-IsFilled : validate_cip11 five ≡ true → IsFilled Scheme.cip11 five
  unfolding fill is_bip44_family rebuild_levels fixed_prefix rebuild_from str str_from
  cip11-IsFilled h = (_, refl, cip11_levels h, text_five 44 118 _ _ _, refl, refl)

  cip1852_levels :
      validate_cip1852 five ≡ true
      → ◌≡◌ {A = List AddressIndex}
          (hard 1852 ∷ hard 1815 ∷ hard c.index ∷ soft d.index ∷ to_index e ∷ [])
          (map to_index five)
  unfolding validate_cip1852 expect_purpose expect_coin
  cip1852_levels h = ground arith

  pub cip1852-IsFilled : validate_cip1852 five ≡ true → IsFilled Scheme.cip1852 five
  unfolding fill is_bip44_family rebuild_levels fixed_prefix rebuild_from str str_from
  cip1852-IsFilled h = (_, refl, cip1852_levels h, text_five 1852 1815 _ _ _, refl, refl)

module _ (a b c : RawLevel) where
  abbrev pub three : List RawLevel
  three = a ∷ b ∷ c ∷ []

  bip32_levels :
      validate_bip32 three ≡ true
      → ◌≡◌ {A = List AddressIndex}
          (hard a.index ∷ soft b.index ∷ to_index c ∷ [])
          (map to_index three)
  unfolding validate_bip32
  bip32_levels h = ground arith

  pub bip32-IsFilled : validate_bip32 three ≡ true → IsFilled Scheme.bip32 three
  unfolding fill is_bip44_family rebuild_levels str
  bip32-IsFilled h = (_, refl, bip32_levels h, text_three _ _ _, refl, refl)

  zip32_levels :
      validate_zip32 three ≡ true
      → ◌≡◌ {A = List AddressIndex} (hard 32 ∷ hard 133 ∷ hard c.index ∷ []) (map to_index three)
  unfolding validate_zip32 expect_purpose expect_coin
  zip32_levels h = ground arith

  pub zip32-IsFilled : validate_zip32 three ≡ true → IsFilled Scheme.zip32 three
  unfolding fill is_bip44_family rebuild_levels fixed_prefix rebuild_from str str_from
  zip32-IsFilled h = (_, refl, zip32_levels h, text_zip32 _, refl, refl)

  module _ (d : RawLevel) where
    zip32_index_levels :
        validate_zip32 (a ∷ b ∷ c ∷ d ∷ []) ≡ true
        → ◌≡◌ {A = List AddressIndex}
            (hard 32 ∷ hard 133 ∷ hard c.index ∷ to_index d ∷ [])
            (map to_index (a ∷ b ∷ c ∷ d ∷ []))
    unfolding validate_zip32 expect_purpose expect_coin
    zip32_index_levels h = ground arith

    pub zip32_index-IsFilled :
        validate_zip32 (a ∷ b ∷ c ∷ d ∷ []) ≡ true → IsFilled Scheme.zip32 (a ∷ b ∷ c ∷ d ∷ [])
    unfolding fill is_bip44_family rebuild_levels fixed_prefix rebuild_from str str_from
    zip32_index-IsFilled h = (_, refl, zip32_index_levels h, text_zip32_index _ _, refl, refl)

pub respelled_lem : (lvls : List RawLevel) → map to_index (respelled lvls) ≡ map to_index lvls
respelled_lem [] = refl
respelled_lem (l ∷ lvls) = ap (◌∷◌ (to_index l)) (respelled_lem lvls)

pub slip10-IsFilled : (l : RawLevel) (lvls : List RawLevel) → IsFilled Scheme.slip10 (l ∷ lvls)
unfolding fill is_bip44_family str
slip10-IsFilled l lvls = (_, refl, refl, refl, refl, rw (respelled_lem lvls))
