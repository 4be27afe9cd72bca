-- ===== src/DerivationPath/Construct/Fields.antt =====
-- src/derivation_path.cpp: the levels that the shortcut fields of the constructor stand for, and what a type
-- asks of them.
use mhda.Base.{ℕ, ◌<◌, ◌≤◌, ◌^◌, ◌≡◌, ◌≢◌, inr, refl, ap, List, [], ◌∷◌, All, arith, get_or}
use mhda.DerivationPath.Class.{
  DerivationPath, str, str_from, fixed_prefix, is_type, rebuild_levels, rebuild_from, hard, soft,
  no_index,
}
use mhda.DerivationPath.Construct.Sound.{given}
use mhda.DerivationPath.Layout.Forms.{HasLayout, IsFamily}
use mhda.DerivationPath.Levels.Print.{IsIndex31}
use mhda.DerivationPath.Parse.Shape.{text_five, text_three, text_zip32_index}
use mhda.DerivationPath.Text.{AddressIndex, format_levels}
use mhda.Names.DerivationType
use mhda.Names.DerivationType.Cases.{Scheme, name}
use mhda.Names.DerivationType.{DerivationType}

abbrev Is31 : ℕ → Type 0
Is31 n = n < 2 ^ 31

module _ (coin account charge : ℕ) (index : AddressIndex) where
  abbrev FamilyFits : Type 0
  FamilyFits = Is31 coin × Is31 account × (charge ≤ 1) × IsIndex31 index

  -- what the layout of a type asks of the fields
  abbrev pub FieldsFit : Scheme → Type 0
  FieldsFit Scheme.root = Unit
  FieldsFit Scheme.slip10 = ⊥
  FieldsFit Scheme.bip32 = Is31 account × (charge ≤ 1) × IsIndex31 index
  FieldsFit Scheme.cip11 = Is31 account × Is31 charge × IsIndex31 index
  FieldsFit Scheme.cip1852 = Is31 account × Is31 charge × IsIndex31 index
  FieldsFit Scheme.zip32 = Is31 account × IsIndex31 index
  FieldsFit Scheme.bip44 = FamilyFits
  FieldsFit Scheme.bip49 = FamilyFits
  FieldsFit Scheme.bip54 = FamilyFits
  FieldsFit Scheme.bip74 = FamilyFits
  FieldsFit Scheme.bip84 = FamilyFits
  FieldsFit Scheme.bip86 = FamilyFits

  -- the levels that the fields stand for
  abbrev family : ℕ → List AddressIndex
  family purpose = hard purpose ∷ hard coin ∷ hard account ∷ soft charge ∷ index ∷ []

  abbrev pub field_levels : Scheme → List AddressIndex
  field_levels Scheme.root = []
  field_levels Scheme.slip10 = []
  field_levels Scheme.bip32 = hard account ∷ soft charge ∷ index ∷ []
  field_levels Scheme.bip44 = family 44
  field_levels Scheme.bip49 = family 49
  field_levels Scheme.bip54 = family 54
  field_levels Scheme.bip74 = family 74
  field_levels Scheme.bip84 = family 84
  field_levels Scheme.bip86 = family 86
  field_levels Scheme.cip11 = hard 44 ∷ hard 118 ∷ hard account ∷ soft charge ∷ index ∷ []
  field_levels Scheme.cip1852 = hard 1852 ∷ hard 1815 ∷ hard account ∷ soft charge ∷ index ∷ []
  field_levels Scheme.zip32 = hard 32 ∷ hard 133 ∷ hard account ∷ index ∷ []

  abbrev rebuilt : Scheme → DerivationPath
  rebuilt s = rebuild_levels (given (name s) coin account charge index)

  pub rebuilt-levels : (s : Scheme) → (rebuilt s).levels ≡ field_levels s
  unfolding rebuild_levels rebuild_from fixed_prefix is_type DerivationType.eq
  rebuilt-levels Scheme.root = refl
  rebuilt-levels _ = refl

  pub text_rebuilt :
      (s : Scheme)
      → s ≢ Scheme.root
      → s ≢ Scheme.slip10
      → str (rebuilt s) ≡ format_levels (field_levels s)
  unfolding rebuild_levels rebuild_from fixed_prefix is_type DerivationType.eq str str_from
  text_rebuilt Scheme.root ne other = absurd (ne refl)
  text_rebuilt Scheme.slip10 ne other = absurd (other refl)
  text_rebuilt Scheme.bip32 ne other = text_three account charge index
  text_rebuilt Scheme.bip44 ne other = text_five 44 coin account charge index
  text_rebuilt Scheme.bip49 ne other = text_five 49 coin account charge index
  text_rebuilt Scheme.bip54 ne other = text_five 54 coin account charge index
  text_rebuilt Scheme.bip74 ne other = text_five 74 coin account charge index
  text_rebuilt Scheme.bip84 ne other = text_five 84 coin account charge index
  text_rebuilt Scheme.bip86 ne other = text_five 86 coin account charge index
  text_rebuilt Scheme.cip11 ne other = text_five 44 118 account charge index
  text_rebuilt Scheme.cip1852 ne other = text_five 1852 1815 account charge index
  text_rebuilt Scheme.zip32 ne other = text_zip32_index account index

  pub fits-HasLayout : (s : Scheme) → FieldsFit s → HasLayout s (field_levels s)
  fits-HasLayout Scheme.root f = refl
  fits-HasLayout Scheme.slip10 f = absurd f
  fits-HasLayout Scheme.bip32 f = (account, charge, index, f.1, refl)
  fits-HasLayout Scheme.cip11 f = (account, charge, index, refl)
  fits-HasLayout Scheme.cip1852 f = (account, charge, index, refl)
  fits-HasLayout Scheme.zip32 f = inr (account, index, refl)
  fits-HasLayout Scheme.bip44 f = (coin, account, charge, index, f.2, refl)
  fits-HasLayout Scheme.bip49 f = (coin, account, charge, index, f.2, refl)
  fits-HasLayout Scheme.bip54 f = (coin, account, charge, index, f.2, refl)
  fits-HasLayout Scheme.bip74 f = (coin, account, charge, index, f.2, refl)
  fits-HasLayout Scheme.bip84 f = (coin, account, charge, index, f.2, refl)
  fits-HasLayout Scheme.bip86 f = (coin, account, charge, index, f.2, refl)

  family_bounds : (purpose : ℕ) → Is31 purpose → FamilyFits → All IsIndex31 (family purpose)
  family_bounds purpose h f = (h, (f.0, (f.1, (omega (arith, f.2), (f.3, tt)))))

  pub fits-bounds : (s : Scheme) → FieldsFit s → All IsIndex31 (field_levels s)
  fits-bounds Scheme.root f = tt
  fits-bounds Scheme.slip10 f = tt
  fits-bounds Scheme.bip32 f = (f.0, (omega (arith, f.1), (f.2, tt)))
  fits-bounds Scheme.cip11 f = (omega arith, (omega arith, (f.0, (f.1, (f.2, tt)))))
  fits-bounds Scheme.cip1852 f = (omega arith, (omega arith, (f.0, (f.1, (f.2, tt)))))
  fits-bounds Scheme.zip32 f = (omega arith, (omega arith, (f.0, (f.1, tt))))
  fits-bounds Scheme.bip44 f = family_bounds 44 (omega arith) f
  fits-bounds Scheme.bip49 f = family_bounds 49 (omega arith) f
  fits-bounds Scheme.bip54 f = family_bounds 54 (omega arith) f
  fits-bounds Scheme.bip74 f = family_bounds 74 (omega arith) f
  fits-bounds Scheme.bip84 f = family_bounds 84 (omega arith) f
  fits-bounds Scheme.bip86 f = family_bounds 86 (omega arith) f

  -- the index of the level at a place
  abbrev place : ℕ → List AddressIndex → ℕ
  place i ls = (get_or ls i no_index).index

  family-fits :
      (purpose : ℕ)
      → IsFamily purpose (family purpose)
      → All IsIndex31 (family purpose)
      → FamilyFits
  family-fits purpose (_, _, c, _, small, e) (_, (a, (b, (_, (d, _))))) =
      let same : charge ≡ c = ap (place 3) e in (a, b, omega arith, d)

  pub layout-fits :
      (s : Scheme)
      → s ≢ Scheme.slip10
      → HasLayout s (field_levels s)
      → All IsIndex31 (field_levels s)
      → FieldsFit s
  layout-fits Scheme.root other h b = tt
  layout-fits Scheme.slip10 other h b = absurd (other refl)
  layout-fits Scheme.bip32 other (_, c, _, small, e) (a, (_, (d, _))) =
      let same : charge ≡ c = ap (place 1) e in (a, omega arith, d)
  layout-fits Scheme.cip11 other h (_, (_, (a, (b, (c, _))))) = (a, b, c)
  layout-fits Scheme.cip1852 other h (_, (_, (a, (b, (c, _))))) = (a, b, c)
  layout-fits Scheme.zip32 other h (_, (_, (a, (b, _)))) = (a, b)
  layout-fits Scheme.bip44 other h b = family-fits 44 h b
  layout-fits Scheme.bip49 other h b = family-fits 49 h b
  layout-fits Scheme.bip54 other h b = family-fits 54 h b
  layout-fits Scheme.bip74 other h b = family-fits 74 h b
  layout-fits Scheme.bip84 other h b = family-fits 84 h b
  layout-fits Scheme.bip86 other h b = family-fits 86 h b
