-- ===== src/DerivationPath/Layout.antt =====
-- src/derivation_path.cpp: the layout that each derivation type asks of the levels. A read of
-- `lvls[i]` stands behind a test of the size; `no_level` is what the model reads out of range.
pub mod Forms
use mhda.Base.{
  ℕ, Bool, false, not, ◌&&◌, ◌||◌, List, leb, ltb, ◌==◌, if◌then◌else◌, is_empty, length, get_or,
  Bytes,
}
use mhda.DerivationPath.Levels.{RawLevel, parse_levels}
use mhda.Names.DerivationType
use mhda.Names.DerivationType.{DerivationType}
use mhda.Base.{Option, none, some}

abbrev no_level : RawLevel
no_level = record { index = 0; is_hardened = false; exact = false }

abbrev pub at : List RawLevel → ℕ → RawLevel
at lvls i = get_or lvls i no_level

unfoldable pub expect_purpose : List RawLevel → ℕ → Bool
expect_purpose lvls purpose =
    not (is_empty lvls)
    && (at lvls 0).index == purpose
    && (at lvls 0).is_hardened
    && (at lvls 0).exact

unfoldable pub expect_coin : List RawLevel → ℕ → Bool
expect_coin lvls coin =
    leb 2 (length lvls) && (at lvls 1).index == coin && (at lvls 1).is_hardened && (at lvls 1).exact

-- The early returns of `false`, as a conjunction.
unfoldable pub validate_bip44_family : List RawLevel → ℕ → ℕ → Bool → Bool
validate_bip44_family lvls purpose required_coin require_coin_match =
    length lvls == 5
    && expect_purpose lvls purpose
    && (at lvls 1).is_hardened
    && not (require_coin_match && not ((at lvls 1).index == required_coin))
    && (at lvls 2).is_hardened
    && not (at lvls 3).is_hardened
    && not (ltb 1 (at lvls 3).index)
    && (at lvls 3).exact

unfoldable pub validate_bip32 : List RawLevel → Bool
validate_bip32 lvls =
    length lvls == 3
    && (at lvls 0).is_hardened
    && not (at lvls 1).is_hardened
    && not (ltb 1 (at lvls 1).index)
    && (at lvls 1).exact

abbrev pub max_slip10_depth : ℕ
max_slip10_depth = 255

unfoldable pub validate_slip10 : List RawLevel → Bool
validate_slip10 lvls = not (is_empty lvls) && leb (length lvls) max_slip10_depth

unfoldable pub validate_cip11 : List RawLevel → Bool
validate_cip11 lvls =
    length lvls == 5
    && expect_purpose lvls 44
    && expect_coin lvls 118
    && (at lvls 2).is_hardened
    && not (at lvls 3).is_hardened

unfoldable pub validate_cip1852 : List RawLevel → Bool
validate_cip1852 lvls =
    length lvls == 5
    && expect_purpose lvls 1852
    && expect_coin lvls 1815
    && (at lvls 2).is_hardened
    && not (at lvls 3).is_hardened

unfoldable pub validate_zip32 : List RawLevel → Bool
validate_zip32 lvls =
    (length lvls == 3 || length lvls == 4)
    && expect_purpose lvls 32
    && expect_coin lvls 133
    && (at lvls 2).is_hardened

-- the arguments that the calls leave to their defaults
abbrev pub bip44_family : List RawLevel → ℕ → Bool
bip44_family lvls purpose = validate_bip44_family lvls purpose 0 false

unfoldable pub validate_levels_for : DerivationType → List RawLevel → Bool
validate_levels_for dt lvls =
    if DerivationType.eq dt DerivationType.root
    then is_empty lvls
    else if DerivationType.eq dt DerivationType.bip32
    then validate_bip32 lvls
    else if DerivationType.eq dt DerivationType.bip44
    then bip44_family lvls 44
    else if DerivationType.eq dt DerivationType.bip49
    then bip44_family lvls 49
    else if DerivationType.eq dt DerivationType.bip54
    then bip44_family lvls 54
    else if DerivationType.eq dt DerivationType.bip74
    then bip44_family lvls 74
    else if DerivationType.eq dt DerivationType.bip84
    then bip44_family lvls 84
    else if DerivationType.eq dt DerivationType.bip86
    then bip44_family lvls 86
    else if DerivationType.eq dt DerivationType.slip10
    then validate_slip10 lvls
    else if DerivationType.eq dt DerivationType.cip11
    then validate_cip11 lvls
    else if DerivationType.eq dt DerivationType.cip1852
    then validate_cip1852 lvls
    else if DerivationType.eq dt DerivationType.zip32
    then validate_zip32 lvls
    else false

-- the answer for the levels, where they could be read
unfoldable pub validate_read : DerivationType → Option (List RawLevel) → Bool
validate_read dt none = false
validate_read dt (some lvls) = validate_levels_for dt lvls

unfoldable pub validate_derivation_path : DerivationType → Bytes → Bool
validate_derivation_path dt path =
    if not (DerivationType.is_valid dt)
    then false
    else if DerivationType.eq dt DerivationType.root
    then is_empty path
    else validate_read dt (parse_levels path)
