-- ===== src/Names/DerivationType/Cases.antt =====
-- The registered derivation types as an enumeration.
use mhda.Base.{◌⊎◌, ◌≡◌, refl, ap, ◌≢◌, inl, inr, true, Bytes, AnyEq, elem-AnyEq}
use mhda.Names.DerivationType
use mhda.Names.DerivationType.{DerivationType, dt_index, is_valid}

pub data Scheme : Type 0 where
  root bip32 bip44 bip49 bip54 bip74 bip84 bip86 slip10 cip1852 cip11 zip32 : Scheme

abbrev pub name : Scheme → DerivationType
name root = DerivationType.root
name bip32 = DerivationType.bip32
name bip44 = DerivationType.bip44
name bip49 = DerivationType.bip49
name bip54 = DerivationType.bip54
name bip74 = DerivationType.bip74
name bip84 = DerivationType.bip84
name bip86 = DerivationType.bip86
name slip10 = DerivationType.slip10
name cip1852 = DerivationType.cip1852
name cip11 = DerivationType.cip11
name zip32 = DerivationType.zip32

of_AnyEq : (v : Bytes) → AnyEq v dt_index → (s : Scheme) × (v ≡ (name s).value)
of_AnyEq v (inl e) = (root, e)
of_AnyEq v (inr (inl e)) = (bip32, e)
of_AnyEq v (inr (inr (inl e))) = (bip44, e)
of_AnyEq v (inr (inr (inr (inl e)))) = (bip49, e)
of_AnyEq v (inr (inr (inr (inr (inl e))))) = (bip54, e)
of_AnyEq v (inr (inr (inr (inr (inr (inl e)))))) = (bip74, e)
of_AnyEq v (inr (inr (inr (inr (inr (inr (inl e))))))) = (bip84, e)
of_AnyEq v (inr (inr (inr (inr (inr (inr (inr (inl e)))))))) = (bip86, e)
of_AnyEq v (inr (inr (inr (inr (inr (inr (inr (inr (inl e))))))))) = (slip10, e)
of_AnyEq v (inr (inr (inr (inr (inr (inr (inr (inr (inr (inl e)))))))))) = (cip1852, e)
of_AnyEq v (inr (inr (inr (inr (inr (inr (inr (inr (inr (inr (inl e))))))))))) = (cip11, e)
of_AnyEq v (inr (inr (inr (inr (inr (inr (inr (inr (inr (inr (inr (inl e)))))))))))) = (zip32, e)
of_AnyEq v (inr (inr (inr (inr (inr (inr (inr (inr (inr (inr (inr (inr (h))))))))))))) = absurd h

pub is_valid-Scheme : (dt : DerivationType) → is_valid dt ≡ true → (s : Scheme) × (dt ≡ name s)
unfolding is_valid
is_valid-Scheme dt h =
    let (s, e) = of_AnyEq dt.value (elem-AnyEq dt.value dt_index h) in
    (s, ap (λ (v : Bytes). record { value = v }) e)

pub name-is_valid : (s : Scheme) → is_valid (name s) ≡ true
unfolding is_valid
name-is_valid root = refl
name-is_valid _ = refl

pub Scheme-root : (s : Scheme) → (s ≡ root) ⊎ (s ≢ root)
Scheme-root root = inl refl
Scheme-root _ = inr (λ h. cc)
