-- ===== src/Error/Method.antt =====
-- Methods that change their object and may throw: the object after the call stands beside the
-- result, so what a failed call leaves behind is part of the model.
use mhda.Error.{Result, ok, err}

abbrev pub Method {ℓ κ} : Type ℓ → Type κ → Type (ℓ ⊔ κ)
Method S A = S → S × Result A

module _ {ℓ κ μ} {S : Type ℓ} {A : Type κ} {B : Type μ} where
  abbrev pub continue : S × Result A → (A → Method S B) → S × Result B
  continue (s, ok a) f = f a s
  continue (s, err e) f = (s, err e)

infixl 5 ◌>>=◌ ◌>>◌
abbrev pub ◌>>=◌ {ℓ κ μ} :
    {S : Type ℓ} {A : Type κ} {B : Type μ} → Method S A → (A → Method S B) → Method S B
◌>>=◌ m f s = continue (m s) f

abbrev pub ◌>>◌ {ℓ μ} : {S : Type ℓ} {B : Type μ} → Method S (Unit {0}) → Method S B → Method S B
◌>>◌ m k s = continue (m s) (λ _. k)

-- The object, where the call returned.
abbrev pub finished {ℓ κ} : {S : Type ℓ} {A : Type κ} → S × Result A → Result S
finished (s, ok a) = ok s
finished (s, err e) = err e
