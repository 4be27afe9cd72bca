-- ===== src/Address/Setters/Legit.antt =====
-- src/address.cpp: the methods that set the derivation, and the constructor, on an address that any
-- calls have made. Its path may be missing, unset, or have a type only.
use mhda.Address.Setters.Formed.{
  IsFormed, formed, Keeps, Keeps-then, keep_algorithm, keep_format, keep_prefix, keep_suffix,
}
use mhda.Address.Setters.{
  set_derivation_type, set_derivation_path, set_derivation, set_path_of, scratch_derivation,
  move_path, emplaced, requested_type, set_address_algorithm, set_address_format,
  set_address_prefix, set_address_suffix, construct, unless_empty,
}
use mhda.Address.{Address, of_chain, default}
use mhda.Base.{◌≡◌, inl, inr, refl, [], ◌∷◌, Option, none, some, Bytes, Bool-cases, is_empty, ◌||◌}
use mhda.Chain
use mhda.Chain.Lifecycle as ChainLife
use mhda.Chain.{Chain}
use mhda.DerivationPath.Class.{DerivationPath, is_type}
use mhda.DerivationPath.Lifecycle as PathLife
use mhda.Detail.Ascii.{trim, to_lower}
use mhda.Error.Method.{Method, ◌>>◌, finished}
use mhda.Error.{Result, ok, err, err≢ok, ok_injective}
use mhda.Names.DerivationType

-- no path, or one that calls can make
abbrev pub IsLegitPath : Option DerivationPath → Type 0
IsLegitPath none = Unit
IsLegitPath (some p) = PathLife.IsLegit p

-- What calls can make of an address: its chain and its path are such, and its texts are well formed.
abbrev pub IsLegit : Address → Type 0
IsLegit = IsFormed ChainLife.IsLegit IsLegitPath

abbrev LegitKept : Method Address (Unit {0}) → Type 0
LegitKept = Keeps ChainLife.IsLegit IsLegitPath

pub IsLegit-path :
    (a : Address) (o : Option DerivationPath)
    → IsLegit a
    → IsLegitPath o
    → IsLegit (record a { path = o })
IsLegit-path a o v h =
    formed ChainLife.IsLegit IsLegitPath (record a { path = o }) v.chain h v.algorithm v.format
      v.prefix v.suffix v.wallet_type v.wallet_id

pub IsLegit-chain :
    (a : Address) (c : Chain) → IsLegit a → ChainLife.IsLegit c → IsLegit (record a { chain = c })
IsLegit-chain a c v h =
    formed ChainLife.IsLegit IsLegitPath (record a { chain = c }) h v.path v.algorithm v.format
      v.prefix v.suffix v.wallet_type v.wallet_id

emplaced-IsLegit : (o : Option DerivationPath) → IsLegitPath o → PathLife.IsLegit (emplaced o)
emplaced-IsLegit none h = PathLife.default-IsLegit
emplaced-IsLegit (some p) h = h

pub keep_derivation_type : (dt : Bytes) → LegitKept (set_derivation_type dt)
unfolding set_derivation_type
keep_derivation_type dt a v =
    let t = requested_type (to_lower (trim dt)) in
    elim (Bool-cases (DerivationType.is_valid t)) [
      | inl valid ↦ rw valid (
          IsLegit-path a _ v
            (PathLife.set_type-IsLegit t (emplaced a.path) (emplaced-IsLegit a.path v.path)))
      | inr bad ↦ rw bad v
    ]

keep_path_of :
    (t : Bytes) (p : DerivationPath) (a : Address)
    → IsLegit a
    → PathLife.IsLegit p
    → IsLegit (set_path_of t p a).0
unfolding set_path_of
keep_path_of t p a v h =
    elim (Bool-cases (is_type p DerivationType.root || DerivationType.empty p.type)) [
      | inl bare ↦ elim (Bool-cases (is_empty t)) [
        | inl blank ↦ rw (bare, blank) (IsLegit-path a (some p) v h)
        | inr text ↦ rw (bare, text) (IsLegit-path a (some p) v h)
      ]
      | inr typed ↦ rw typed (IsLegit-path a _ v (PathLife.parse_path-IsLegit (to_lower t) p h))
    ]

pub keep_derivation_path : (dp : Bytes) → LegitKept (set_derivation_path dp)
unfolding set_derivation_path
keep_derivation_path dp a v =
    keep_path_of (trim dp) (emplaced a.path) a v (emplaced-IsLegit a.path v.path)

pub of_chain-IsLegit :
    (c : Chain) (o : Option DerivationPath)
    → ChainLife.IsLegit c
    → IsLegitPath o
    → IsLegit (of_chain c o)
of_chain-IsLegit c o h k =
    formed ChainLife.IsLegit IsLegitPath (of_chain c o) h k (inl refl) (inl refl) tt tt tt tt

pub default-IsLegit : IsLegit default
default-IsLegit = of_chain-IsLegit Chain.default none (inl refl, tt, tt) tt

-- what a call that returned left
finished-IsLegit :
    (s : Address × Result (Unit {0})) {b : Address} → IsLegit s.0 → finished s ≡ ok b → IsLegit b
finished-IsLegit (a, ok u) v h = rw (← ok_injective h) v
finished-IsLegit (a, err e) v h = absurd (err≢ok h)

keep_moved :
    (a : Address) (r : Result Address)
    → IsLegit a
    → ((sc : Address) → r ≡ ok sc → IsLegit sc)
    → IsLegit (move_path a r).0
unfolding move_path
keep_moved a (ok sc) v f = IsLegit-path a sc.path v (f sc refl).path
keep_moved a (err e) v f = v

pub keep_derivation : (dt dp : Bytes) → LegitKept (set_derivation dt dp)
unfolding set_derivation scratch_derivation
keep_derivation dt dp a v =
    let both =
      Keeps-then ChainLife.IsLegit IsLegitPath (set_derivation_type dt) (set_derivation_path dp)
        (keep_derivation_type dt) (keep_derivation_path dp) default default-IsLegit in
    keep_moved a (finished (scratch_derivation dt dp default)) v
      (λ sc h. finished-IsLegit (scratch_derivation dt dp default) both h)

keep_unless :
    (set : Bytes → Method Address (Unit {0})) (t : Bytes)
    → LegitKept (set t)
    → LegitKept (unless_empty set t)
keep_unless set [] k a v = v
keep_unless set (c ∷ t) k a v = k a v

-- An address that the constructor gives, on a chain and a path that calls can make.
pub construct-IsLegit :
    (c : Chain) (o : Option DerivationPath) (aa af pre suf : Bytes) {a : Address}
    → ChainLife.IsLegit c
    → IsLegitPath o
    → construct c o aa af pre suf ≡ ok a
    → IsLegit a
unfolding construct
construct-IsLegit c o aa af pre suf hc ho h =
    let C = ChainLife.IsLegit in
    let R = IsLegitPath in
    let m1 = unless_empty set_address_algorithm aa in
    let m2 = unless_empty set_address_format af in
    let m3 = unless_empty set_address_prefix pre in
    let m4 = unless_empty set_address_suffix suf in
    let k1 = keep_unless set_address_algorithm aa (keep_algorithm C R aa) in
    let k2 = keep_unless set_address_format af (keep_format C R af) in
    let k3 = keep_unless set_address_prefix pre (keep_prefix C R pre) in
    let k4 = keep_unless set_address_suffix suf (keep_suffix C R suf) in
    let k34 = Keeps-then C R m3 m4 k3 k4 in
    let all = Keeps-then C R m1 (m2 >> (m3 >> m4)) k1 (Keeps-then C R m2 (m3 >> m4) k2 k34) in
    finished-IsLegit ((m1 >> (m2 >> (m3 >> m4))) (of_chain c o))
      (all (of_chain c o) (of_chain-IsLegit c o hc ho)) h
