-- ===== src/Error.antt =====
-- include/mhda/error.hpp and src/error.cpp: the error codes, their messages, and exceptions as
-- values. A function that may throw returns a `Result`; a method that changes its object returns
-- the object beside the result, also when it throws.
pub mod Method
use mhda.Base.{Bytes, codes, Bool, true, false, is_empty, if◌then◌else◌, ◌++◌, ◌≡◌, refl, arith}

pub data ErrorCode : Type 0 where
  invalid_urn invalid_nss missing_network_type invalid_network_type : ErrorCode
  invalid_coin_type missing_chain_id invalid_derivation_type invalid_derivation_path : ErrorCode
  invalid_algorithm invalid_format incompatible uninitialized_address : ErrorCode
  invalid_value coin_type_in_chain_key invalid_chain_key : ErrorCode

unfoldable pub error_message : ErrorCode → Bytes
error_message invalid_urn = codes "mhda: not a valid mhda urn"
error_message invalid_nss = codes "mhda: cannot parse nss"
error_message missing_network_type = codes "mhda: \"nt\" is required"
error_message invalid_network_type = codes "mhda: invalid \"nt\""
error_message invalid_coin_type = codes "mhda: invalid \"ct\""
error_message missing_chain_id = codes "mhda: \"ci\" is required"
error_message invalid_derivation_type = codes "mhda: invalid \"dt\""
error_message invalid_derivation_path = codes "mhda: invalid \"dp\""
error_message invalid_algorithm = codes "mhda: invalid \"aa\""
error_message invalid_format = codes "mhda: invalid \"af\""
error_message incompatible = codes "mhda: incompatible network/algorithm/format"
error_message uninitialized_address = codes "mhda: address is not initialized"
error_message invalid_value = codes "mhda: invalid component value"
error_message coin_type_in_chain_key = codes "mhda: \"ct\" is not allowed in a chain key"
error_message invalid_chain_key = codes "mhda: not a valid chain key"

-- The text of `what()`. The constructor without a detail gives the same text as an empty one.
unfoldable pub compose : ErrorCode → Bytes → Bytes
compose c detail =
    if is_empty detail then error_message c else error_message c ++ (codes ": " ++ detail)

-- A `parse_error` with its detail, or the `std::invalid_argument` of the path constructor.
pub data Failure : Type 0 where
  parse_error : ErrorCode → Bytes → Failure
  invalid_argument : Bytes → Failure

unfoldable pub what : Failure → Bytes
what (parse_error c detail) = compose c detail
what (invalid_argument text) = text

pub data Result {ℓ} (A : Type ℓ) : Type ℓ where
  ok : A → Result A
  err : Failure → Result A

-- `throw parse_error(code, detail)`
abbrev pub throw {ℓ} : {A : Type ℓ} → ErrorCode → Bytes → Result A
throw code detail = err (parse_error code detail)

-- `if (test) throw parse_error(code, detail);`
abbrev pub throw_if : Bool → ErrorCode → Bytes → Result (Unit {0})
throw_if true code detail = throw code detail
throw_if false code detail = ok tt

-- A failure goes up past the statements that follow.
module _ {ℓ κ} {S : Type ℓ} {T : Type κ} where
  infixl 5 ◌>>=◌
  abbrev pub ◌>>=◌ : Result S → (S → Result T) → Result T
  err failure >>= next = err failure
  ok value >>= next = next value

  -- A sequence that returned did so statement by statement.
  pub >>=-eq-ok :
      (first : Result S) (next : S → Result T) {t : T}
      → (first >>= next) ≡ ok t
      → (s : S) × (first ≡ ok s) × (next s ≡ ok t)
  >>=-eq-ok (err failure) next h = absurd (cc)
  >>=-eq-ok (ok value) next h = (value, refl, h)

module _ {κ} {T : Type κ} where
  infixl 5 ◌>>◌
  abbrev pub ◌>>◌ : Result (Unit {0}) → Result T → Result T
  first >> next = first >>= λ _. next

pub throw_if-eq-ok : (b : Bool) (c : ErrorCode) (d : Bytes) → throw_if b c d ≡ ok tt → b ≡ false
throw_if-eq-ok true c d h = cc
throw_if-eq-ok false c d h = refl

pub ok_injective {ℓ} : {A : Type ℓ} {a b : A} → ok a ≡ ok b → a ≡ b
ok_injective h = cc

-- Past a test that throws.
pub past_throw {ℓ} :
    {A : Type ℓ} (b : Bool) (e : Failure) (r : Result A) {a : A}
    → (if b then err e else r) ≡ ok a
    → (b ≡ false) × (r ≡ ok a)
past_throw true e r h = absurd (cc)
past_throw false e r h = (refl, h)

pub past_throw_if {ℓ} :
    {A : Type ℓ} (b : Bool) (c : ErrorCode) (d : Bytes) (r : Result A) {a : A}
    → (throw_if b c d >> r) ≡ ok a
    → (b ≡ false) × (r ≡ ok a)
past_throw_if true c d r h = absurd (cc)
past_throw_if false c d r h = (refl, h)

pub err≢ok {ℓ} : {A : Type ℓ} {e : Failure} {a : A} → err e ≡ ok a → ⊥
err≢ok h = cc
