-- ===== src/Address/Setters.antt =====
-- The methods of src/address.cpp that change an address. What a call that throws leaves behind is
-- the first part of the pair.
pub mod Restore
pub mod Formed
pub mod Preserve
pub mod Derivation
pub mod Atomic
pub mod Legit
use mhda.Address.{Address, of_chain, default}
use mhda.Base.{ℕ, not, ◌||◌, ◌++◌, Option, none, some, Bytes, codes, if◌then◌else◌, is_empty}
use mhda.Chain.{Chain, set_coin, clear_coin}
use mhda.DerivationPath.Class.{DerivationPath, fresh, is_type}
use mhda.DerivationPath.Parse.{parse_path, set_type}
use mhda.Detail.Ascii.{trim, to_lower}
use mhda.Detail.Number.{parse_uint32}
use mhda.Detail.Quote.{quote, validate_free_form_value}
use mhda.Error.Method.{Method, ◌>>◌, finished}
use mhda.Error.{
  Result, ok, err, throw, invalid_derivation_type, invalid_derivation_path, invalid_coin_type,
  invalid_algorithm, invalid_format,
}
use mhda.Names.Algorithm
use mhda.Names.Algorithm.{Algorithm}
use mhda.Names.DerivationType
use mhda.Names.DerivationType.{DerivationType}
use mhda.Names.Format
use mhda.Names.Format.{Format}
use mhda.Nss.{comp_address_prefix, comp_address_suffix, comp_wallet_type, comp_wallet_id}

-- `path_->method(…)`, on the path that the address holds
abbrev pub on_path : Address → DerivationPath × Result (Unit {0}) → Address × Result (Unit {0})
on_path a (p, r) = (record a { path = some p }, r)

-- `if (!path_) path_.emplace();`, as the path that is then there
abbrev pub emplaced : Option DerivationPath → DerivationPath
emplaced none = fresh DerivationType.unset
emplaced (some p) = p

-- the type that a text of "dt" asks for
unfoldable pub requested_type : Bytes → DerivationType
requested_type lowered =
    if is_empty lowered then DerivationType.root else record { value = lowered }

unfoldable pub set_derivation_type : Bytes → Method Address (Unit {0})
set_derivation_type dt a =
    let lowered = to_lower (trim dt) in
    if not (DerivationType.is_valid (requested_type lowered))
    then (a, throw invalid_derivation_type (quote lowered))
    else on_path a (set_type (requested_type lowered) (emplaced a.path))

-- a root address takes no path
unfoldable pub set_path_of : Bytes → DerivationPath → Method Address (Unit {0})
set_path_of trimmed p a =
    if is_type p DerivationType.root || DerivationType.empty p.type
    then if not (is_empty trimmed)
      then (
        record a { path = some p },
        throw invalid_derivation_path
            (codes "root derivation must have empty path, got " ++ quote trimmed),
      )
      else (record a { path = some p }, ok tt)
    else on_path a (parse_path (to_lower trimmed) p)

unfoldable pub set_derivation_path : Bytes → Method Address (Unit {0})
set_derivation_path dp a = set_path_of (trim dp) (emplaced a.path) a

-- `scratch`, and the move of its path
unfoldable pub move_path : Address → Result Address → Address × Result (Unit {0})
move_path a (ok scratch) = (record a { path = scratch.path }, ok tt)
move_path a (err e) = (a, err e)

unfoldable pub scratch_derivation : Bytes → Bytes → Method Address (Unit {0})
scratch_derivation dt dp = do set_derivation_type dt; set_derivation_path dp

unfoldable pub set_derivation : Bytes → Bytes → Method Address (Unit {0})
set_derivation dt dp a = move_path a (finished (scratch_derivation dt dp default))

unfoldable pub set_coin_of : Bytes → Option ℕ → Method Address (Unit {0})
set_coin_of trimmed none a = (a, throw invalid_coin_type (quote trimmed))
set_coin_of trimmed (some v) a = (record a { chain = set_coin v a.chain }, ok tt)

unfoldable pub set_coin_type : Bytes → Method Address (Unit {0})
set_coin_type ct a =
    let trimmed = trim ct in
    if is_empty trimmed
    then (record a { chain = clear_coin a.chain }, ok tt)
    else set_coin_of trimmed (parse_uint32 trimmed) a

unfoldable pub set_address_algorithm : Bytes → Method Address (Unit {0})
set_address_algorithm aa a =
    let lowered = to_lower (trim aa) in
    if is_empty lowered
    then (record a { algorithm = Algorithm.unset }, ok tt)
    else if not (Algorithm.is_valid (record { value = lowered }))
    then (a, throw invalid_algorithm (quote lowered))
    else (record a { algorithm = record { value = lowered } }, ok tt)

unfoldable pub set_address_format : Bytes → Method Address (Unit {0})
set_address_format af a =
    let lowered = to_lower (trim af) in
    if is_empty lowered
    then (record a { format = Format.unset }, ok tt)
    else if not (Format.is_valid (record { value = lowered }))
    then (a, throw invalid_format (quote lowered))
    else (record a { format = record { value = lowered } }, ok tt)

-- the store behind `validate_free_form_value`
abbrev pub stored : Address → Address → Result (Unit {0}) → Address × Result (Unit {0})
stored a changed (ok _) = (changed, ok tt)
stored a changed (err e) = (a, err e)

unfoldable pub set_address_prefix : Bytes → Method Address (Unit {0})
set_address_prefix ap a =
    let trimmed = trim ap in
    stored a (record a { prefix = trimmed }) (validate_free_form_value comp_address_prefix trimmed)

unfoldable pub set_address_suffix : Bytes → Method Address (Unit {0})
set_address_suffix suffix a =
    let trimmed = trim suffix in
    stored a (record a { suffix = trimmed }) (validate_free_form_value comp_address_suffix trimmed)

unfoldable pub set_wallet_type : Bytes → Method Address (Unit {0})
set_wallet_type wt a =
    let trimmed = trim wt in
    stored a (record a { wallet_type = trimmed })
      (validate_free_form_value comp_wallet_type trimmed)

unfoldable pub set_wallet_id : Bytes → Method Address (Unit {0})
set_wallet_id wi a =
    let trimmed = trim wi in
    stored a (record a { wallet_id = trimmed }) (validate_free_form_value comp_wallet_id trimmed)

-- `if (!v.empty()) set(v);`
abbrev pub unless_empty : (Bytes → Method Address (Unit {0})) → Bytes → Method Address (Unit {0})
unless_empty set v a = if is_empty v then (a, ok tt) else set v a

-- the constructor that takes the format domain as texts
unfoldable pub construct :
    Chain → Option DerivationPath → Bytes → Bytes → Bytes → Bytes → Result Address
construct c path algorithm format prefix suffix = finished (
    (do
      unless_empty set_address_algorithm algorithm
      unless_empty set_address_format format
      unless_empty set_address_prefix prefix
      unless_empty set_address_suffix suffix)
      (of_chain c path))
