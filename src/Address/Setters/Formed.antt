-- ===== src/Address/Setters/Formed.antt =====
-- src/address.cpp: the setters, and what holds of an address whose chain and path are of given kinds.
use mhda.Address.Components.{IsCoin}
use mhda.Address.Setters.{
  set_coin_type, set_coin_of, set_address_algorithm, set_address_format, set_address_prefix,
  set_address_suffix, set_wallet_type, set_wallet_id, stored,
}
use mhda.Address.Valid.{OrUnset}
use mhda.Address.{Address}
use mhda.Base.{ℕ, ◌≡◌, inl, inr, refl, true, Option, none, some, Bytes, All, is_empty, Bool-cases}
use mhda.Chain.{Chain, set_coin, clear_coin}
use mhda.DerivationPath.Class.{DerivationPath}
use mhda.Detail.Ascii.Sets.{IsNssByte, all_nss_bytes-All}
use mhda.Detail.Ascii.{trim, to_lower, all_nss_bytes}
use mhda.Detail.Number.Value.{parse_uint32_iff}
use mhda.Detail.Number.{parse_uint32}
use mhda.Detail.Quote.{validate_free_form_value}
use mhda.Error.Method.{Method, ◌>>◌, continue}
use mhda.Error.{Result, ok, err}
use mhda.Names.Algorithm
use mhda.Names.Format

pub parse_uint32-IsCoin : (t : Bytes) (o : Option ℕ) → parse_uint32 t ≡ o → IsCoin o
parse_uint32-IsCoin t none e = tt
parse_uint32-IsCoin t (some ct) e = ((parse_uint32_iff t ct).0 e).3

module _ (IsChain : Chain → Type 0) (IsPath : Option DerivationPath → Type 0) where
  -- The chain and the path are of the given kinds, the names are registered or unset, and the
  -- other texts hold NSS bytes.
  pub record IsFormed (a : Address) : Type 0 where
    pub chain : IsChain a.chain
    pub path : IsPath a.path
    pub algorithm : OrUnset a.algorithm.value (Algorithm.is_valid a.algorithm ≡ true)
    pub format : OrUnset a.format.value (Format.is_valid a.format ≡ true)
    pub prefix : All IsNssByte a.prefix
    pub suffix : All IsNssByte a.suffix
    pub wallet_type : All IsNssByte a.wallet_type
    pub wallet_id : All IsNssByte a.wallet_id

  pub formed :
      (b : Address)
      → IsChain b.chain
      → IsPath b.path
      → OrUnset b.algorithm.value (Algorithm.is_valid b.algorithm ≡ true)
      → OrUnset b.format.value (Format.is_valid b.format ≡ true)
      → All IsNssByte b.prefix
      → All IsNssByte b.suffix
      → All IsNssByte b.wallet_type
      → All IsNssByte b.wallet_id
      → IsFormed b
  formed b c path aa af pre suf wt wi = record {
    chain = c;
    path = path;
    algorithm = aa;
    format = af;
    prefix = pre;
    suffix = suf;
    wallet_type = wt;
    wallet_id = wi;
  }

  -- Whatever the method does, it leaves a formed address formed.
  abbrev pub Keeps : Method Address (Unit {0}) → Type 0
  Keeps m = (a : Address) → IsFormed a → IsFormed (m a).0

  past :
      (k : Method Address (Unit {0})) (s : Address × Result (Unit {0}))
      → Keeps k
      → IsFormed s.0
      → IsFormed (continue s (λ _. k)).0
  past k (a, ok u) p v = p a v
  past k (a, err e) p v = v

  pub Keeps-then : (m k : Method Address (Unit {0})) → Keeps m → Keeps k → Keeps (m >> k)
  Keeps-then m k p q a v = past k (m a) q (p a v)

  -- a store behind `validate_free_form_value`
  keep_stored :
      (k t : Bytes) (a changed : Address)
      → IsFormed a
      → (All IsNssByte t → IsFormed changed)
      → IsFormed (stored a changed (validate_free_form_value k t)).0
  unfolding validate_free_form_value
  keep_stored k t a changed v f = elim (Bool-cases (all_nss_bytes t)) [
    | inl e ↦ rw e (f (all_nss_bytes-All t e))
    | inr e ↦ rw e v
  ]

  pub keep_prefix : (t : Bytes) → Keeps (set_address_prefix t)
  unfolding set_address_prefix
  keep_prefix t a v =
      keep_stored _ (trim t) a (record a { prefix = trim t }) v
        (λ h. formed _ v.chain v.path v.algorithm v.format h v.suffix v.wallet_type v.wallet_id)

  pub keep_suffix : (t : Bytes) → Keeps (set_address_suffix t)
  unfolding set_address_suffix
  keep_suffix t a v =
      keep_stored _ (trim t) a (record a { suffix = trim t }) v
        (λ h. formed _ v.chain v.path v.algorithm v.format v.prefix h v.wallet_type v.wallet_id)

  pub keep_wallet_type : (t : Bytes) → Keeps (set_wallet_type t)
  unfolding set_wallet_type
  keep_wallet_type t a v =
      keep_stored _ (trim t) a (record a { wallet_type = trim t }) v
        (λ h. formed _ v.chain v.path v.algorithm v.format v.prefix v.suffix h v.wallet_id)

  pub keep_wallet_id : (t : Bytes) → Keeps (set_wallet_id t)
  unfolding set_wallet_id
  keep_wallet_id t a v =
      keep_stored _ (trim t) a (record a { wallet_id = trim t }) v
        (λ h. formed _ v.chain v.path v.algorithm v.format v.prefix v.suffix v.wallet_type h)

  pub keep_algorithm : (t : Bytes) → Keeps (set_address_algorithm t)
  unfolding set_address_algorithm
  keep_algorithm t a v = elim (Bool-cases (is_empty (to_lower (trim t)))) [
    | inl e ↦ rw e (
        formed (record a { algorithm = Algorithm.unset }) v.chain v.path (inl refl) v.format
          v.prefix v.suffix v.wallet_type v.wallet_id)
    | inr e ↦ rw e (elim (Bool-cases (Algorithm.is_valid (record { value = to_lower (trim t) }))) [
      | inl h ↦ rw h (
          formed (record a { algorithm = record { value = to_lower (trim t) } }) v.chain v.path
            (inr h) v.format v.prefix v.suffix v.wallet_type v.wallet_id)
      | inr h ↦ rw h v
    ])
  ]

  pub keep_format : (t : Bytes) → Keeps (set_address_format t)
  unfolding set_address_format
  keep_format t a v = elim (Bool-cases (is_empty (to_lower (trim t)))) [
    | inl e ↦ rw e (
        formed (record a { format = Format.unset }) v.chain v.path v.algorithm (inl refl) v.prefix
          v.suffix v.wallet_type v.wallet_id)
    | inr e ↦ rw e (elim (Bool-cases (Format.is_valid (record { value = to_lower (trim t) }))) [
      | inl h ↦ rw h (
          formed (record a { format = record { value = to_lower (trim t) } }) v.chain v.path
            v.algorithm (inr h) v.prefix v.suffix v.wallet_type v.wallet_id)
      | inr h ↦ rw h v
    ])
  ]

  -- the kind of chain does not depend on the coin type
  abbrev pub IsCoinFree : Type 0
  IsCoinFree = (c : Chain) (o : Option ℕ) → IsCoin o → IsChain c → IsChain (record c { coin = o })

  keep_coin_of :
      IsCoinFree
      → (t : Bytes) (o : Option ℕ) (a : Address) → IsFormed a
      → IsCoin o
      → IsFormed (set_coin_of t o a).0
  unfolding set_coin_of
  keep_coin_of free t none a v h = v
  keep_coin_of free t (some ct) a v h =
      formed (record a { chain = set_coin ct a.chain }) (free a.chain (some ct) h v.chain) v.path
        v.algorithm v.format v.prefix v.suffix v.wallet_type v.wallet_id

  pub keep_coin : IsCoinFree → (t : Bytes) → Keeps (set_coin_type t)
  unfolding set_coin_type
  keep_coin free t a v = elim (Bool-cases (is_empty (trim t))) [
    | inl e ↦ rw e (
        formed (record a { chain = clear_coin a.chain }) (free a.chain none tt v.chain) v.path
          v.algorithm v.format v.prefix v.suffix v.wallet_type v.wallet_id)
    | inr e ↦ rw e (
        keep_coin_of free (trim t) (parse_uint32 (trim t)) a v
          (parse_uint32-IsCoin (trim t) (parse_uint32 (trim t)) refl))
  ]
