-- ===== src/Address/Setters/Atomic.antt =====
-- src/address.cpp: the setters where they throw.
use mhda.Address.Setters.{
  move_path, set_derivation, scratch_derivation, set_coin_type, set_coin_of, set_address_algorithm,
  set_address_format, set_address_prefix, set_address_suffix, set_wallet_type, set_wallet_id,
  stored,
}
use mhda.Address.{Address, default}
use mhda.Base.{
  ℕ, ◌≡◌, inl, inr, sym, ap, true, false, Bool, Option, none, some, Bytes, is_empty, not,
  if◌then◌else◌, Bool-cases,
}
use mhda.Nss.{comp_address_prefix, comp_address_suffix, comp_wallet_type, comp_wallet_id}
use mhda.Detail.Quote.{quote}
use mhda.Names.Algorithm
use mhda.Names.Format
use mhda.Detail.Ascii.{trim, to_lower}
use mhda.Detail.Number.{parse_uint32}
use mhda.Detail.Quote.{validate_free_form_value}
use mhda.Error.Method.{Method, finished}
use mhda.Error.{Failure, Result, ok, err, parse_error, invalid_algorithm, invalid_format}

abbrev Outcome : Type 0
Outcome = Address × Result (Unit {0})

-- Where the method throws, it leaves its object as it was.
abbrev pub IsAtomic : Method Address (Unit {0}) → Type 0
IsAtomic m = (a b : Address) (e : Failure) → m a ≡ (b, err e) → b ≡ a

returned : {a b : Address} {e : Failure} → ◌≡◌ {A = Outcome} (a, ok tt) (b, err e) → ⊥
returned h = cc

-- a call that stores and returns, or throws and leaves `a`
stored_or_left :
    (c : Bool) (a x : Address) (f : Failure) {b : Address} {e : Failure}
    → ◌≡◌ {A = Outcome} (if c then (a, err f) else (x, ok tt)) (b, err e)
    → b ≡ a
stored_or_left true a x f h = sym (ap (λ (r : Outcome). r.0) h)
stored_or_left false a x f h = absurd (cc)

pub atomic_stored :
    (a x : Address) (r : Result (Unit {0})) {b : Address} {e : Failure}
    → stored a x r ≡ (b, err e)
    → b ≡ a
atomic_stored a x (ok u) h = absurd (cc)
atomic_stored a x (err f) h = sym (ap (λ (r : Outcome). r.0) h)

IsAtomic-prefix : (t : Bytes) → IsAtomic (set_address_prefix t)
unfolding set_address_prefix
IsAtomic-prefix t a b e h =
    atomic_stored a (record a { prefix = trim t })
      (validate_free_form_value comp_address_prefix (trim t)) h

IsAtomic-suffix : (t : Bytes) → IsAtomic (set_address_suffix t)
unfolding set_address_suffix
IsAtomic-suffix t a b e h =
    atomic_stored a (record a { suffix = trim t })
      (validate_free_form_value comp_address_suffix (trim t)) h

IsAtomic-wallet_type : (t : Bytes) → IsAtomic (set_wallet_type t)
unfolding set_wallet_type
IsAtomic-wallet_type t a b e h =
    atomic_stored a (record a { wallet_type = trim t })
      (validate_free_form_value comp_wallet_type (trim t)) h

IsAtomic-wallet_id : (t : Bytes) → IsAtomic (set_wallet_id t)
unfolding set_wallet_id
IsAtomic-wallet_id t a b e h =
    atomic_stored a (record a { wallet_id = trim t })
      (validate_free_form_value comp_wallet_id (trim t)) h

-- a name that may be unset: stored, refused, or cleared
named_or_left :
    (b c : Bool) (a x y : Address) (f : Failure) {out : Address} {e : Failure}
    → ◌≡◌ {A = Outcome}
        (if b then (x, ok tt) else (if c then (a, err f) else (y, ok tt)))
        (out, err e)
    → out ≡ a
named_or_left true c a x y f h = absurd (cc)
named_or_left false c a x y f h = stored_or_left c a y f h

IsAtomic-algorithm : (t : Bytes) → IsAtomic (set_address_algorithm t)
unfolding set_address_algorithm
IsAtomic-algorithm t a b e h =
    let low = to_lower (trim t) in
    named_or_left (is_empty low) (not (Algorithm.is_valid (record { value = low }))) a
      (record a { algorithm = Algorithm.unset }) (record a { algorithm = record { value = low } })
      (parse_error invalid_algorithm (quote low)) h

IsAtomic-format : (t : Bytes) → IsAtomic (set_address_format t)
unfolding set_address_format
IsAtomic-format t a b e h =
    let low = to_lower (trim t) in
    named_or_left (is_empty low) (not (Format.is_valid (record { value = low }))) a
      (record a { format = Format.unset }) (record a { format = record { value = low } })
      (parse_error invalid_format (quote low)) h

atomic_coin_of :
    (t : Bytes) (o : Option ℕ) (a : Address) {b : Address} {e : Failure}
    → set_coin_of t o a ≡ (b, err e)
    → b ≡ a
unfolding set_coin_of
atomic_coin_of t none a h = sym (ap (λ (r : Outcome). r.0) h)
atomic_coin_of t (some ct) a h = absurd (cc)

IsAtomic-coin : (t : Bytes) → IsAtomic (set_coin_type t)
unfolding set_coin_type
IsAtomic-coin t a b e h = elim (Bool-cases (is_empty (trim t))) [
  | inl blank ↦ absurd (returned (rw blank at h))
  | inr text ↦ atomic_coin_of (trim t) (parse_uint32 (trim t)) a (rw text at h)
]

atomic_moved :
    (a : Address) (r : Result Address) {b : Address} {e : Failure}
    → move_path a r ≡ (b, err e)
    → b ≡ a
unfolding move_path
atomic_moved a (ok sc) h = absurd (cc)
atomic_moved a (err f) h = sym (ap (λ (r : Outcome). r.0) h)

-- `set_coin_type`, `set_derivation`, the four `set_address_` methods and the two `set_wallet_`
-- methods are atomic: a call that throws leaves the whole address as it was.
pub setters-IsAtomic :
    (t u : Bytes)
    → IsAtomic (set_coin_type t)
      × IsAtomic (set_derivation t u)
      × IsAtomic (set_address_algorithm t)
      × IsAtomic (set_address_format t)
      × IsAtomic (set_address_prefix t)
      × IsAtomic (set_address_suffix t)
      × IsAtomic (set_wallet_type t)
      × IsAtomic (set_wallet_id t)
unfolding set_derivation
setters-IsAtomic t u = (
  IsAtomic-coin t,
  (λ a b e h. atomic_moved a (finished (scratch_derivation t u default)) h),
  IsAtomic-algorithm t,
  IsAtomic-format t,
  IsAtomic-prefix t,
  IsAtomic-suffix t,
  IsAtomic-wallet_type t,
  IsAtomic-wallet_id t,
)
