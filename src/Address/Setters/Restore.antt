-- ===== src/Address/Setters/Restore.antt =====
-- src/address.cpp: the setters on the texts that `nss` prints.
use mathlib.Core.Path.{subst}
use mhda.Address.Components.{type_part, path_part}
use mhda.Address.Print.{has_derivation}
use mhda.Address.Setters.{
  move_path, set_derivation, set_derivation_type, set_derivation_path, set_path_of,
  scratch_derivation, requested_type, set_address_algorithm, set_address_format, set_address_prefix,
  set_address_suffix, set_wallet_type, set_wallet_id,
}
use mhda.Address.Valid.{IsPathSet, OrUnset, str-lower}
use mhda.Address.{Address, default}
use mhda.Base.{
  ◌≡◌, ◌≢◌, inl, inr, refl, sym, ap, ◌∙◌, true, [], Option, none, some, Bytes, All, All-imp,
}
use mhda.DerivationPath.Class
use mhda.DerivationPath.Class.{DerivationPath, fresh, is_type}
use mhda.DerivationPath.Parse.RoundTrip.{IsCanonical, parse-root}
use mhda.DerivationPath.Parse.{parse, parse_path, set_type}
use mhda.Detail.Ascii.Sets.{IsNssByte, IsLowerNss, All-all_nss_bytes, trim_nss, to_lower_self}
use mhda.Detail.Ascii.{trim, trim_left, trim_right, to_lower, ascii_lower, is_ascii_space}
use mhda.Detail.Quote.{validate_free_form_value}
use mhda.Error.{ok}
use mhda.Names.Algorithm
use mhda.Names.DerivationType
use mhda.Names.DerivationType.Cases.{Scheme, name, Scheme-root}
use mhda.Names.DerivationType.{DerivationType}
use mhda.Names.Format
use mhda.Names.Lower.{algorithm-IsLowerName, format-IsLowerName}
use mhda.Nss.Pairs.{ne-is_empty}

lower_trim : (s : Bytes) → All IsLowerNss s → to_lower (trim s) ≡ s
lower_trim s h = rw (trim_nss s (All-imp IsLowerNss IsNssByte (λ c p. p.0) s h)) (to_lower_self s h)

free_form : (k v : Bytes) → All IsNssByte v → validate_free_form_value k v ≡ ok tt
unfolding validate_free_form_value
free_form k v h = rw (All-all_nss_bytes v h)

no_algorithm :
    (a : Address) → set_address_algorithm [] a ≡ (record a { algorithm = Algorithm.unset }, ok tt)
unfolding set_address_algorithm to_lower trim trim_left trim_right
no_algorithm a = refl

no_format : (a : Address) → set_address_format [] a ≡ (record a { format = Format.unset }, ok tt)
unfolding set_address_format to_lower trim trim_left trim_right
no_format a = refl

pub restore_algorithm :
    (aa : Algorithm.Algorithm) (a : Address)
    → OrUnset aa.value (Algorithm.is_valid aa ≡ true)
    → set_address_algorithm aa.value a ≡ (record a { algorithm = aa }, ok tt)
unfolding set_address_algorithm
restore_algorithm aa a (inl e) =
    subst
      (λ (v : Bytes).
        set_address_algorithm v a ≡ (record a { algorithm = record { value = v } }, ok tt))
      (sym e) (no_algorithm a)
restore_algorithm aa a (inr h) =
    let (filled, low) = algorithm-IsLowerName aa h in
    rw (lower_trim aa.value low, ne-is_empty aa.value filled, h)

pub restore_format :
    (af : Format.Format) (a : Address)
    → OrUnset af.value (Format.is_valid af ≡ true)
    → set_address_format af.value a ≡ (record a { format = af }, ok tt)
unfolding set_address_format
restore_format af a (inl e) =
    subst
      (λ (v : Bytes). set_address_format v a ≡ (record a { format = record { value = v } }, ok tt))
      (sym e) (no_format a)
restore_format af a (inr h) =
    let (filled, low) = format-IsLowerName af h in
    rw (lower_trim af.value low, ne-is_empty af.value filled, h)

pub restore_prefix :
    (v : Bytes) (a : Address)
    → All IsNssByte v
    → set_address_prefix v a ≡ (record a { prefix = v }, ok tt)
unfolding set_address_prefix
restore_prefix v a h = rw (trim_nss v h, free_form _ v h)

pub restore_suffix :
    (v : Bytes) (a : Address)
    → All IsNssByte v
    → set_address_suffix v a ≡ (record a { suffix = v }, ok tt)
unfolding set_address_suffix
restore_suffix v a h = rw (trim_nss v h, free_form _ v h)

pub restore_wallet_type :
    (v : Bytes) (a : Address)
    → All IsNssByte v
    → set_wallet_type v a ≡ (record a { wallet_type = v }, ok tt)
unfolding set_wallet_type
restore_wallet_type v a h = rw (trim_nss v h, free_form _ v h)

pub restore_wallet_id :
    (v : Bytes) (a : Address)
    → All IsNssByte v
    → set_wallet_id v a ≡ (record a { wallet_id = v }, ok tt)
unfolding set_wallet_id
restore_wallet_id v a h = rw (trim_nss v h, free_form _ v h)

scratch-scheme :
    (s : Scheme) (t : Bytes) (p : DerivationPath)
    → s ≢ Scheme.root
    → All IsLowerNss t
    → parse (name s) t ≡ ok p
    → scratch_derivation (name s).value t default ≡ (record default { path = some p }, ok tt)
unfolding scratch_derivation set_derivation_type requested_type set_derivation_path set_path_of
    set_type parse parse_path to_lower trim trim_left trim_right ascii_lower is_ascii_space
    DerivationType.is_valid is_type DerivationType.eq
scratch-scheme Scheme.root t p ne low h = absurd (ne refl)
scratch-scheme _ t p ne low h = rw (lower_trim t low, h)

scratch-root :
    scratch_derivation [] [] default
    ≡ (record default { path = some (fresh DerivationType.root) }, ok tt)
unfolding scratch_derivation set_derivation_type requested_type set_derivation_path set_path_of
    set_type to_lower trim trim_left trim_right DerivationType.is_valid is_type DerivationType.eq
scratch-root = refl

has_derivation-scheme :
    (s : Scheme) (p : DerivationPath) → s ≢ Scheme.root → p.type ≡ name s → has_derivation p ≡ true
unfolding has_derivation is_type DerivationType.eq
has_derivation-scheme Scheme.root p ne e = absurd (ne refl)
has_derivation-scheme _ p ne e = rw e

restore_root :
    (p : DerivationPath) (a : Address)
    → fresh DerivationType.root ≡ p
    → set_derivation (type_part (some p)) (path_part (some p)) a
      ≡ (record a { path = some p }, ok tt)
unfolding set_derivation move_path type_part path_part has_derivation is_type DerivationType.eq
restore_root p a e = rw (← e, scratch-root)

again_as :
    (p : DerivationPath) (dt : DerivationType)
    → IsCanonical p
    → p.type ≡ dt
    → parse dt (Class.str p) ≡ ok p
again_as p dt c e = subst (λ t. parse t (Class.str p) ≡ ok p) e c.again

restore_scheme :
    (s : Scheme) (p : DerivationPath) (a : Address)
    → s ≢ Scheme.root
    → p.type ≡ name s
    → IsCanonical p
    → set_derivation (type_part (some p)) (path_part (some p)) a
      ≡ (record a { path = some p }, ok tt)
unfolding set_derivation move_path type_part path_part
restore_scheme s p a ne e c =
    let scratch =
      subst
        (λ (t : DerivationType).
          scratch_derivation t.value (Class.str p) default
          ≡ (record default { path = some p }, ok tt))
        (sym e) (scratch-scheme s (Class.str p) p ne (str-lower p c) (again_as p (name s) c e)) in
    rw (has_derivation-scheme s p ne e, scratch)

pub restore_derivation :
    (path : Option DerivationPath) (a : Address)
    → IsPathSet path
    → set_derivation (type_part path) (path_part path) a ≡ (record a { path = path }, ok tt)
restore_derivation none a h = absurd h
restore_derivation (some p) a c = elim (Scheme-root c.scheme) [
  | inl e ↦
      restore_root p a
        (parse-root (Class.str p) (again_as p (name Scheme.root) c (c.type_is ∙ ap name e)))
  | inr ne ↦ restore_scheme c.scheme p a ne c.type_is c
]
