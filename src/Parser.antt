-- ===== src/Parser.antt =====
-- src/parser.cpp, and `unmarshal_text` of src/address.cpp: from a URN or an NSS to an address.
pub mod RoundTrip
pub mod Sound
pub mod Marshal
pub mod Unordered
pub mod Strict
pub mod Lifecycle
pub mod Digest
pub mod Frame
pub mod Legible
use mhda.Address.Setters.{
  set_derivation, set_address_algorithm, set_address_format, set_address_prefix, set_address_suffix,
  set_wallet_type, set_wallet_id,
}
use mhda.Address.Validate.{validate}
use mhda.Address.{Address, of_chain}
use mhda.Base.{not, [], Option, none, some, Bytes, if◌then◌else◌, length, drop, find, has_key}
use mhda.Chain.{build_chain}
use mhda.Detail.Ascii.{trim, trim_right, strip_rqf, has_prefix_fold}
use mhda.Error.Method.{Method, ◌>>◌, finished}
use mhda.Error.{Result, ok, err, throw, missing_network_type, invalid_urn}
use mhda.Error
use mhda.Nss.{
  Components, parse_nss_map, prefix_mhda, comp_network_type, comp_derivation_type,
  comp_derivation_path, comp_address_algorithm, comp_address_format, comp_address_prefix,
  comp_address_suffix, comp_wallet_type, comp_wallet_id,
}

abbrev pub or_blank : Option Bytes → Bytes
or_blank none = []
or_blank (some v) = v

-- the lambda `get`
unfoldable pub get : Bytes → Components → Bytes
get key m = or_blank (find key m)

unfoldable pub set_components : Components → Method Address (Unit {0})
set_components m = do
  set_derivation (get comp_derivation_type m) (get comp_derivation_path m)
  set_address_algorithm (get comp_address_algorithm m)
  set_address_format (get comp_address_format m)
  set_address_prefix (get comp_address_prefix m)
  set_address_suffix (get comp_address_suffix m)
  set_wallet_type (get comp_wallet_type m)
  set_wallet_id (get comp_wallet_id m)

unfoldable pub parse_address_from_components : Components → Result Address
parse_address_from_components m =
    Error.◌>>=◌ (build_chain m) (λ c. finished (set_components m (of_chain c none)))

unfoldable pub parse_address_nss : Bytes → Result Address
parse_address_nss nss = Error.◌>>=◌ (parse_nss_map nss) (λ components.
    if not (has_key comp_network_type components)
    then throw missing_network_type []
    else parse_address_from_components components)

unfoldable pub parse_urn : Bytes → Result Address
parse_urn src =
    let trimmed = trim src in
    if not (has_prefix_fold trimmed prefix_mhda)
    then throw invalid_urn []
    else parse_address_nss (trim_right (strip_rqf (drop (length prefix_mhda) trimmed)))

unfoldable pub parse_urn_strict : Bytes → Result Address
parse_urn_strict src = Error.◌>>=◌ (parse_urn src) (λ addr. Error.◌>>◌ (validate addr) (ok addr))

unfoldable pub parse_nss : Bytes → Result Address
parse_nss nss = parse_address_nss (trim nss)

-- `*this = parse_urn(data);`
unfoldable pub assign_parsed : Address → Result Address → Address × Result (Unit {0})
assign_parsed a (ok b) = (b, ok tt)
assign_parsed a (err e) = (a, err e)

unfoldable pub unmarshal_text : Bytes → Method Address (Unit {0})
unmarshal_text text a = assign_parsed a (parse_urn text)
