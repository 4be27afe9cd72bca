-- ===== src/Parser/Marshal.antt =====
-- src/address.cpp: `marshal_text` and `unmarshal_text`.
use mathlib.Core.Path.{subst}
use mhda.Address.Print.{has_derivation, check_path_set, path_missing, marshal_text, str}
use mhda.Address.Valid.{IsValid, IsPathSet, str-no_levels}
use mhda.Address.{Address}
use mhda.Base.{
  ◌≡◌, ◌≢◌, refl, false, Bool, ◌&&◌, List, [], ◌∷◌, Option, none, some, Bytes, is_empty, arith, inl,
  inr,
}
use mhda.DerivationPath.Class.{DerivationPath, is_type}
use mhda.DerivationPath.Parse.RoundTrip.{IsCanonical}
use mhda.DerivationPath.Parse.{parse}
use mhda.DerivationPath.Text.{AddressIndex}
use mhda.DerivationPath.Parse.Agrees.{parse-blank}
use mhda.Error.{ok}
use mhda.Names.DerivationType
use mhda.Names.DerivationType.Cases.{Scheme, name, Scheme-root}
use mhda.Names.Lower.{network-IsLowerName}
use mhda.Nss.Pairs.{ne-is_empty}
use mhda.Parser.RoundTrip.{parse_urn-str}
use mhda.Parser.Sound.{parse_urn-IsValid}
use mhda.Parser.{parse_urn, unmarshal_text, assign_parsed}

underived :
    (s : Scheme) (p : DerivationPath) → s ≡ Scheme.root → p.type ≡ name s → has_derivation p ≡ false
unfolding has_derivation is_type DerivationType.eq
underived s p e t = rw (t, e)

blank_text :
    (p : DerivationPath) (dt : DerivationType.DerivationType)
    → IsCanonical p
    → p.type ≡ dt
    → p.levels ≡ []
    → parse dt [] ≡ ok p
blank_text p dt c t e =
    subst (λ x. parse x [] ≡ ok p) t
      (subst (λ x. parse p.type x ≡ ok p) (str-no_levels p e) c.again)

not_empty : (x : Bool) (l : List AddressIndex) → (l ≢ []) → x && is_empty l ≡ false
not_empty x [] h = absurd (h refl)
not_empty x (l ∷ ls) h = ground arith

pub path_missing-false : (o : Option DerivationPath) → IsPathSet o → path_missing o ≡ false
unfolding path_missing
path_missing-false none h = refl
path_missing-false (some p) c = elim (Scheme-root c.scheme) [
  | inl e ↦ rw (underived c.scheme p e c.type_is)
  | inr ne ↦
      not_empty (has_derivation p) p.levels
        (λ e. parse-blank c.scheme ne (blank_text p (name c.scheme) c c.type_is e))
]

marshal_text-IsValid : (a : Address) → IsValid a → marshal_text a ≡ ok (str a)
unfolding marshal_text check_path_set
marshal_text-IsValid a v = rw (
  ne-is_empty a.chain.network.value (network-IsLowerName a.chain.network v.network).0,
  path_missing-false a.path v.path,
)

-- An address that was parsed is marshalled, without an error, into its URN, and unmarshalling
-- this text puts exactly the parsed address in the place of any other.
pub unmarshal-marshal :
    (text : Bytes) {a : Address} (b : Address)
    → parse_urn text ≡ ok a
    → (marshal_text a ≡ ok (str a)) × (unmarshal_text (str a) b ≡ (a, ok tt))
unfolding unmarshal_text assign_parsed
unmarshal-marshal text {a} b h =
    let v = parse_urn-IsValid text h in (marshal_text-IsValid a v, rw (parse_urn-str a v))
