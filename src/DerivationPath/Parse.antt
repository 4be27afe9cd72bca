-- ===== src/DerivationPath/Parse.antt =====
-- Parsing of src/derivation_path.cpp: `parse`, `parse_fresh`, `parse_path` and `set_type`. The first
-- two build a new path and return a `Result`; the last two change their object and are methods.
pub mod Shape
pub mod Valid
pub mod RoundTrip
pub mod Agrees
use mhda.Base.{
  ℕ, not, List, Option, none, some, Bytes, codes, ◌==◌, ◌++◌, if◌then◌else◌, is_empty, length, map,
  [], true, false,
}
use mhda.DerivationPath.Class.{
  DerivationPath, fresh, no_index, is_type, is_bip44_family, rebuild_levels,
}
use mhda.DerivationPath.Layout.{at, validate_levels_for}
use mhda.DerivationPath.Levels.{RawLevel, parse_levels}
use mhda.DerivationPath.Text.{AddressIndex}
use mhda.Detail.Quote.{quote}
use mhda.Error.Method.{Method}
use mhda.Error.{Result, ok, err, throw, invalid_derivation_type, invalid_derivation_path}
use mhda.Names.DerivationType
use mhda.Names.DerivationType.{DerivationType}

abbrev pub to_index : RawLevel → AddressIndex
to_index l = record { index = l.index; is_hardened = l.is_hardened }

-- The shortcut fields of the layouts, from the levels that are read at the same places.
abbrev pub set_family : DerivationPath → ℕ → List RawLevel → DerivationPath
set_family p coin lvls = record p {
  coin = coin;
  account = (at lvls 2).index;
  charge = (at lvls 3).index;
  index = to_index (at lvls 4);
  has_index = true;
}

-- the branches of `parse_fresh` behind the validation, for every type but root
unfoldable pub fill : DerivationPath → List RawLevel → Result DerivationPath
fill p lvls =
    if is_type p DerivationType.bip32
    then ok (
        rebuild_levels (record p {
          account = (at lvls 0).index;
          charge = (at lvls 1).index;
          index = to_index (at lvls 2);
          has_index = true;
        }))
    else if is_bip44_family p
    then ok (rebuild_levels (set_family p (at lvls 1).index lvls))
    else if is_type p DerivationType.cip11
    then ok (rebuild_levels (set_family p 118 lvls))
    else if is_type p DerivationType.cip1852
    then ok (rebuild_levels (set_family p 1815 lvls))
    else if is_type p DerivationType.slip10
    then ok
        (record p { levels = map to_index lvls; has_index = not (is_empty (map to_index lvls)) })
    else if is_type p DerivationType.zip32
    then ok (
        rebuild_levels (
          if length lvls == 4
          then record p {
            coin = 133;
            account = (at lvls 2).index;
            index = to_index (at lvls 3);
            has_index = true;
          }
          else record p {
            coin = 133;
            account = (at lvls 2).index;
            index = no_index;
            has_index = false;
          }))
    else throw invalid_derivation_type (quote p.type.value)

-- `!parse_levels(path, lvls) || !validate_levels_for(type_, lvls)`, and the branches behind it
unfoldable pub fill_read : DerivationPath → Bytes → Option (List RawLevel) → Result DerivationPath
fill_read p path none = throw invalid_derivation_path (quote path)
fill_read p path (some lvls) =
    if validate_levels_for p.type lvls
    then fill p lvls
    else throw invalid_derivation_path (quote path)

unfoldable pub parse_fresh : DerivationPath → Bytes → Result DerivationPath
parse_fresh p path =
    if not (DerivationType.is_valid p.type)
    then throw invalid_derivation_type (quote p.type.value)
    else if is_type p DerivationType.root
    then if is_empty path
      then ok (record p { levels = []; has_index = false })
      else throw invalid_derivation_path
          (codes "root derivation must have empty path, got " ++ quote path)
    else fill_read p path (parse_levels path)

-- what a method leaves when it only assigns a value built before: that value, or the old object
abbrev pub assigned {ℓ} : {S : Type ℓ} → S → Result S → S × Result (Unit {0})
assigned s (ok s') = (s', ok tt)
assigned s (err e) = (s, err e)

unfoldable pub parse_path : Bytes → Method DerivationPath (Unit {0})
parse_path path p = assigned p (parse_fresh (fresh p.type) path)

unfoldable pub set_type : DerivationType → Method DerivationPath (Unit {0})
set_type dt p =
    if not (DerivationType.is_valid dt)
    then (p, throw invalid_derivation_type (quote dt.value))
    else if DerivationType.eq dt p.type
    then (p, ok tt)
    else (fresh dt, ok tt)

-- the object that `dp.parse_path(path)` leaves, where it returns
unfoldable pub parse : DerivationType → Bytes → Result DerivationPath
parse dt path =
    if not (DerivationType.is_valid dt)
    then throw invalid_derivation_type (quote dt.value)
    else parse_fresh (fresh dt) path
