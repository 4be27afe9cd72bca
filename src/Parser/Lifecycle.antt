-- ===== src/Parser/Lifecycle.antt =====
-- The class `address` (include/mhda/address.hpp, src/address.cpp) under any sequence of calls, and
-- its text under `parse_urn`.
pub mod Text
pub mod Nameless
use mathlib.Core.Path.{subst}
use mhda.Address.Print.{
  has_derivation, check_path_set, path_missing, append_derivation, nss, str, marshal_text,
}
use mhda.Address.Setters.Formed.{
  formed, keep_coin, keep_prefix, keep_suffix, keep_wallet_type, keep_wallet_id, keep_algorithm,
  keep_format,
}
use mhda.Address.Setters.Legit.{
  IsLegitPath, IsLegit, IsLegit-path, IsLegit-chain, default-IsLegit, construct-IsLegit,
  keep_derivation_type, keep_derivation_path, keep_derivation,
}
use mhda.Address.Setters.Preserve.{IsValid-of}
use mhda.Address.Setters.{
  set_derivation_type, set_derivation_path, set_derivation, set_coin_type, set_address_algorithm,
  set_address_format, set_address_prefix, set_address_suffix, set_wallet_type, set_wallet_id,
  construct,
}
use mhda.Address.Valid.{IsValid, IsPathSet}
use mhda.Address.{Address, default}
use mhda.Base.{
  ◌≡◌, ◌≢◌, inl, inr, refl, sym, ap, ◌∙◌, true, false, Bool, [], ◌∷◌, Option, none, some, Bytes,
  Bool-cases, is_empty, ◌&&◌, if◌then◌else◌, arith,
}
use mhda.Chain.Lifecycle as ChainLife
use mhda.Chain.{Chain}
use mhda.DerivationPath.Class.{DerivationPath, fresh}
use mhda.DerivationPath.Lifecycle as PathLife
use mhda.DerivationPath.Parse.RoundTrip.{root-IsCanonical}
use mhda.Error.{Result, ok, err, past_throw_if, ok_injective}
use mhda.Names.DerivationType
use mhda.Names.NetworkType
use mhda.Parser.RoundTrip.{parse_urn-str}
use mhda.Parser.Sound.{parse_urn-IsValid, parse_nss-IsValid}
use mhda.Parser.{parse_urn, parse_nss, unmarshal_text, assign_parsed}

-- A call of a method that changes the address, whether it returns or throws; or a change through
-- the references that `get_chain()` and `path()` return.
pub data Step : Address → Address → Type 0 where
  coin_type_set : (t : Bytes) (a : Address) → Step a (set_coin_type t a).0
  algorithm_set : (t : Bytes) (a : Address) → Step a (set_address_algorithm t a).0
  format_set : (t : Bytes) (a : Address) → Step a (set_address_format t a).0
  prefix_set : (t : Bytes) (a : Address) → Step a (set_address_prefix t a).0
  suffix_set : (t : Bytes) (a : Address) → Step a (set_address_suffix t a).0
  wallet_type_set : (t : Bytes) (a : Address) → Step a (set_wallet_type t a).0
  wallet_id_set : (t : Bytes) (a : Address) → Step a (set_wallet_id t a).0
  derivation_type_set : (dt : Bytes) (a : Address) → Step a (set_derivation_type dt a).0
  derivation_path_set : (dp : Bytes) (a : Address) → Step a (set_derivation_path dp a).0
  derivation_set : (dt dp : Bytes) (a : Address) → Step a (set_derivation dt dp a).0
  unmarshalled : (t : Bytes) (a : Address) → Step a (unmarshal_text t a).0
  chain_called :
      (a : Address) {c : Chain} → ChainLife.Step a.chain c → Step a (record a { chain = c })
  chain_assigned : (a : Address) {c : Chain} → ChainLife.Reach c → Step a (record a { chain = c })
  path_called :
      (a : Address) {p q : DerivationPath}
      → a.path ≡ some p
      → PathLife.Step p q
      → Step a (record a { path = some q })
  path_assigned :
      (a : Address) {p : DerivationPath} → PathLife.Reach p → Step a (record a { path = some p })
  path_reset : (a : Address) → Step a (record a { path = none })

-- no path, or one that calls have made
abbrev pub MayReach : Option DerivationPath → Type 0
MayReach none = Unit
MayReach (some p) = PathLife.Reach p

-- an address that a constructor or an entry point gave, after any calls
pub data Reach : Address → Type 0 where
  default_made : Reach default
  constructed :
      (c : Chain) (o : Option DerivationPath) (aa af pre suf : Bytes) {a : Address}
      → ChainLife.Reach c
      → MayReach o
      → construct c o aa af pre suf ≡ ok a
      → Reach a
  of_urn : (text : Bytes) {a : Address} → parse_urn text ≡ ok a → Reach a
  of_nss : (text : Bytes) {a : Address} → parse_nss text ≡ ok a → Reach a
  next : {a b : Address} → Reach a → Step a b → Reach b

set-IsLegitPath : (o : Option DerivationPath) → IsPathSet o → IsLegitPath o
set-IsLegitPath none h = tt
set-IsLegitPath (some p) c = inl c

IsValid-IsLegit : (a : Address) → IsValid a → IsLegit a
IsValid-IsLegit a v =
    formed ChainLife.IsLegit IsLegitPath a (inr v.network, v.chain_bytes, v.coin)
      (set-IsLegitPath a.path v.path) v.algorithm v.format v.prefix v.suffix v.wallet_type
      v.wallet_id

assigned-IsLegit :
    (text : Bytes) (a : Address) (r : Result Address)
    → parse_urn text ≡ r
    → IsLegit a
    → IsLegit (assign_parsed a r).0
unfolding assign_parsed
assigned-IsLegit text a (ok b) e v = IsValid-IsLegit b (parse_urn-IsValid text e)
assigned-IsLegit text a (err f) e v = v

unmarshal-IsLegit : (text : Bytes) (a : Address) → IsLegit a → IsLegit (unmarshal_text text a).0
unfolding unmarshal_text
unmarshal-IsLegit text a v = assigned-IsLegit text a (parse_urn text) refl v

may-IsLegit : (o : Option DerivationPath) → MayReach o → IsLegitPath o
may-IsLegit none r = tt
may-IsLegit (some p) r = PathLife.Reach-IsLegit r

Step-IsLegit : {a b : Address} → Step a b → IsLegit a → IsLegit b
Step-IsLegit (coin_type_set t a) v =
    keep_coin ChainLife.IsLegit IsLegitPath (λ c o h (nt, bytes, _). (nt, bytes, h)) t a v
Step-IsLegit (algorithm_set t a) v = keep_algorithm ChainLife.IsLegit IsLegitPath t a v
Step-IsLegit (format_set t a) v = keep_format ChainLife.IsLegit IsLegitPath t a v
Step-IsLegit (prefix_set t a) v = keep_prefix ChainLife.IsLegit IsLegitPath t a v
Step-IsLegit (suffix_set t a) v = keep_suffix ChainLife.IsLegit IsLegitPath t a v
Step-IsLegit (wallet_type_set t a) v = keep_wallet_type ChainLife.IsLegit IsLegitPath t a v
Step-IsLegit (wallet_id_set t a) v = keep_wallet_id ChainLife.IsLegit IsLegitPath t a v
Step-IsLegit (derivation_type_set dt a) v = keep_derivation_type dt a v
Step-IsLegit (derivation_path_set dp a) v = keep_derivation_path dp a v
Step-IsLegit (derivation_set dt dp a) v = keep_derivation dt dp a v
Step-IsLegit (unmarshalled t a) v = unmarshal-IsLegit t a v
Step-IsLegit (chain_called a {c} s) v = IsLegit-chain a c v (ChainLife.Step-IsLegit s v.chain)
Step-IsLegit (chain_assigned a {c} r) v = IsLegit-chain a c v (ChainLife.Reach-IsLegit r)
Step-IsLegit (path_called a {p} {q} e s) v =
    IsLegit-path a (some q) v (PathLife.Step-IsLegit s (subst IsLegitPath e v.path))
Step-IsLegit (path_assigned a {p} r) v = IsLegit-path a (some p) v (PathLife.Reach-IsLegit r)
Step-IsLegit (path_reset a) v = IsLegit-path a none v tt

-- The chain and the path of an address are such as calls can make, and its texts are well formed,
-- after any calls.
pub Reach-IsLegit : {a : Address} → Reach a → IsLegit a
Reach-IsLegit default_made = default-IsLegit
Reach-IsLegit (constructed c o aa af pre suf rc ro h) =
    construct-IsLegit c o aa af pre suf (ChainLife.Reach-IsLegit rc) (may-IsLegit o ro) h
Reach-IsLegit (of_urn text {a} h) = IsValid-IsLegit a (parse_urn-IsValid text h)
Reach-IsLegit (of_nss text {a} h) = IsValid-IsLegit a (parse_nss-IsValid text h)
Reach-IsLegit (next r s) = Step-IsLegit s (Reach-IsLegit r)
