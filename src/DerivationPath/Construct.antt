-- ===== src/DerivationPath/Construct.antt =====
-- The constructors of src/derivation_path.cpp: from the shortcut fields, and from levels.
pub mod Sound
pub mod Accepts
pub mod Fields
pub mod Built
use mhda.Base.{
  ℕ, Bool, true, not, ◌&&◌, ◌||◌, List, [], ◌∷◌, ◌++◌, codes, ◌==◌, leb, if◌then◌else◌, is_empty,
  length, get_or, false,
}
use mhda.DerivationPath.Class.{
  DerivationPath, fresh, no_index, is_type, is_bip44_family, rebuild_levels, str,
}
use mhda.DerivationPath.Parse.{parse}
use mhda.DerivationPath.Text.{AddressIndex, index_eq}
use mhda.Detail.Quote.{quote}
use mhda.Error.{
  invalid_argument, Result, ok, err, throw, ◌>>=◌, invalid_derivation_type, invalid_derivation_path,
}
use mhda.Names.DerivationType
use mhda.Names.DerivationType.{DerivationType}

-- `operator==` of the vectors
unfoldable pub levels_eq : List AddressIndex → List AddressIndex → Bool
levels_eq [] [] = true
levels_eq (a ∷ as') (b ∷ bs) = index_eq a b && levels_eq as' bs
levels_eq _ _ = false

-- `throw` unless the path that was parsed has the levels given
unfoldable pub check_levels : DerivationPath → List AddressIndex → Result DerivationPath
check_levels out levels =
    if not (levels_eq out.levels levels)
    then throw invalid_derivation_path
        (codes "levels do not form a " ++ (out.type.value ++ codes " path"))
    else ok out

unfoldable pub reparsed : DerivationPath → List AddressIndex → Result DerivationPath
reparsed dp levels = do out ← parse dp.type (str dp); check_levels out levels

-- the constructor
unfoldable pub construct : DerivationType → ℕ → ℕ → ℕ → AddressIndex → Result DerivationPath
construct dt coin account charge index =
    if not (DerivationType.is_valid dt)
    then throw invalid_derivation_type (quote dt.value)
    else if DerivationType.eq dt DerivationType.slip10
    then err (
        invalid_argument (
          codes "mhda: NewDerivationPath cannot construct SLIP10 paths; "
          ++ codes "use derivation_path::from_levels"))
    else (let self = rebuild_levels (record {
      type = dt;
      coin = coin;
      account = account;
      charge = charge;
      index = index;
      has_index = not (DerivationType.eq dt DerivationType.root);
      levels = [];
    }) in
        reparsed self self.levels)

-- `levels_[i]`, read behind a test of the size
abbrev pub level : DerivationPath → ℕ → AddressIndex
level p i = get_or p.levels i no_index

unfoldable pub populate_shortcuts_from_levels : DerivationPath → DerivationPath
populate_shortcuts_from_levels p =
    if is_type p DerivationType.bip32
    then if leb 3 (length p.levels)
      then record p {
        account = (level p 0).index;
        charge = (level p 1).index;
        index = level p 2;
        has_index = true;
      }
      else p
    else if is_bip44_family p || is_type p DerivationType.cip11 || is_type p DerivationType.cip1852
    then if leb 5 (length p.levels)
      then record p {
        coin = (level p 1).index;
        account = (level p 2).index;
        charge = (level p 3).index;
        index = level p 4;
        has_index = true;
      }
      else p
    else if is_type p DerivationType.zip32
    then (let p' =
          if leb 3 (length p.levels)
          then record p { coin = (level p 1).index; account = (level p 2).index }
          else p in
        if leb 4 (length p.levels) then record p' { index = level p 3; has_index = true } else p')
    else if is_type p DerivationType.slip10
    then record p { has_index = not (is_empty p.levels) }
    else p

unfoldable pub from_levels : DerivationType → List AddressIndex → Result DerivationPath
from_levels dt levels =
    if not (DerivationType.is_valid dt)
    then throw invalid_derivation_type (quote dt.value)
    else reparsed (populate_shortcuts_from_levels (record (fresh dt) { levels = levels })) levels
