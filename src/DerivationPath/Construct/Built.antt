-- ===== src/DerivationPath/Construct/Built.antt =====
-- src/derivation_path.cpp: the constructor accepts the shortcut fields that fit the type.
use mathlib.Core.Path.{subst}
use mhda.Base.{ℕ, ◌≡◌, ◌≢◌, ◌↔◌, inl, inr, refl, sym, ◌∙◌, false, List, All}
use mhda.DerivationPath.Class.{DerivationPath, fresh, str, is_type, rebuild_levels}
use mhda.DerivationPath.Construct.Accepts.{layout-Prints, levels_eq_refl, canonical-HasLayout}
use mhda.DerivationPath.Construct.Sound.{given, construct-IsCanonical, rebuild_levels-type}
use mhda.DerivationPath.Construct.{construct, reparsed, check_levels, levels_eq}
use mhda.DerivationPath.Layout.Forms.{HasLayout}
use mhda.DerivationPath.Levels.Print.{IsIndex31}
use mhda.DerivationPath.Parse.{parse, parse_fresh}
use mhda.DerivationPath.Text.{AddressIndex, format_levels}
use mhda.Error.{ok}
use mhda.Names.DerivationType
use mhda.Names.DerivationType.Cases.{Scheme, name, name-is_valid, Scheme-root}
use mhda.Names.DerivationType.{DerivationType}
use mhda.DerivationPath.Construct.Fields.{
  FieldsFit, field_levels, rebuilt-levels, text_rebuilt, fits-HasLayout, fits-bounds, layout-fits,
}

module _ (coin account charge : ℕ) (index : AddressIndex) where
  abbrev Fit : Scheme → Type 0
  Fit = FieldsFit coin account charge index

  abbrev expected : Scheme → List AddressIndex
  expected = field_levels coin account charge index

  -- The constructor returns a path of this type, with the levels that the fields stand for, which is
  -- read back from its text.
  abbrev pub Constructs : DerivationType → Type 0
  Constructs dt =
      (p : DerivationPath) × (construct dt coin account charge index ≡ ok p)
      × ((s : Scheme) → dt ≡ name s → p.levels ≡ expected s)
      × (p.type ≡ dt)
      × (parse dt (str p) ≡ ok p)

  not_slip10 :
      (s : Scheme) → s ≢ Scheme.slip10 → DerivationType.eq (name s) DerivationType.slip10 ≡ false
  unfolding DerivationType.eq
  not_slip10 Scheme.slip10 other = absurd (other refl)
  not_slip10 _ other = refl

  slip10_only :
      (s : Scheme) → DerivationType.eq (name s) DerivationType.slip10 ≡ false → s ≢ Scheme.slip10
  unfolding DerivationType.eq
  slip10_only s h e = cc (rw e at h)

  construct_other :
      (s : Scheme) (p : DerivationPath)
      → s ≢ Scheme.root
      → s ≢ Scheme.slip10
      → parse (name s) (format_levels (expected s)) ≡ ok p
      → p.levels ≡ expected s
      → construct (name s) coin account charge index ≡ ok p
  unfolding construct reparsed check_levels
  construct_other s p ne other read levels = rw (
    name-is_valid s,
    not_slip10 s other,
    text_rebuilt coin account charge index s ne other,
    rebuilt-levels coin account charge index s,
    rebuild_levels-type (given (name s) coin account charge index),
    read,
    levels,
    levels_eq_refl (expected s),
  )

  construct-root :
      construct DerivationType.root coin account charge index ≡ ok (fresh DerivationType.root)
  unfolding construct reparsed check_levels parse parse_fresh is_type DerivationType.is_valid
      DerivationType.eq rebuild_levels str levels_eq
  construct-root = refl

  returned-Constructs :
      (dt : DerivationType) {p : DerivationPath}
      → construct dt coin account charge index ≡ ok p
      → Constructs dt
  returned-Constructs dt {p} h =
      let (_, levels, c, type) = construct-IsCanonical dt coin account charge index h in
      (
        p,
        h,
        (λ s e.
            subst (λ t. p.levels ≡ (rebuild_levels (given t coin account charge index)).levels) e
              levels
            ∙ rebuilt-levels coin account charge index s),
        type,
        subst (λ t. parse t (str p) ≡ ok p) type c.again,
      )

  fits-Constructs : (s : Scheme) → Fit s → Constructs (name s)
  fits-Constructs s f = elim (Scheme-root s) [
    | inl e ↦ rw e (returned-Constructs DerivationType.root construct-root)
    | inr ne ↦
        (let other : s ≢ Scheme.slip10 = λ e. subst Fit e f in
          let (p, read, levels) =
            layout-Prints s (expected s) ne (fits-HasLayout coin account charge index s f)
              (fits-bounds coin account charge index s f) in
          returned-Constructs (name s) (construct_other s p ne other read levels))
  ]

  Constructs-fits : (s : Scheme) → Constructs (name s) → Fit s
  Constructs-fits s (p, h, levels, _, _) =
      let (other, _, c, type) = construct-IsCanonical (name s) coin account charge index h in
      let shape : HasLayout s (expected s) =
        subst (HasLayout s) (levels s refl) (canonical-HasLayout s p c type) in
      layout-fits coin account charge index s (slip10_only s other) shape
        (subst (All IsIndex31) (levels s refl) c.bounded)

  constructed-scheme : (dt : DerivationType) → Constructs dt → (s : Scheme) × (dt ≡ name s) × Fit s
  constructed-scheme dt k =
      let (_, _, c, type) = construct-IsCanonical dt coin account charge index k.1 in
      let e = sym type ∙ c.type_is in (c.scheme, e, Constructs-fits c.scheme (subst Constructs e k))

  -- The constructor returns a path of the type given, with the levels that the fields stand for,
  -- which is read back from its text, if and only if the type is registered and the fields fit it.
  -- Of root nothing is asked, and slip10 never fits. All other types ask for an account and an
  -- index below 2^31; the bip44 family for a coin below 2^31 and a charge of 0 or 1, bip32 for a
  -- charge of 0 or 1, cip11 and cip1852 for a charge below 2^31.
  pub construct_iff : (dt : DerivationType) → Constructs dt ↔ ((s : Scheme) × (dt ≡ name s) × Fit s)
  construct_iff dt =
      (constructed-scheme dt, λ (s, e, f). subst Constructs (sym e) (fits-Constructs s f))
