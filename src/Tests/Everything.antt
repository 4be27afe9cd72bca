-- ===== src/Tests/Everything.antt =====
-- One name that opens every definition, for runs at fixed inputs.
use mhda.Address
use mhda.Base
use mhda.Chain
use mhda.Compatibility
use mhda.DerivationPath
use mhda.Detail
use mhda.Error
use mhda.Names
use mhda.Nss
use mhda.Parser

unfoldable pub everything : Unit {0}
unfolding mhda.Address.Decimal.fill_digits mhda.Address.Decimal.push_digits
    mhda.Address.Decimal.append_uint32 mhda.DerivationPath.Text.index_eq mhda.Base.bytes_lt
    mhda.Names.Algorithm.lt mhda.Names.Format.lt mhda.Names.NetworkType.lt
    mhda.Names.DerivationType.lt mhda.Address.path_type mhda.Address.get_derivation_type
    mhda.Address.resolved_algorithm mhda.Address.resolved_format mhda.Address.Print.has_derivation
    mhda.Address.Print.append_coin mhda.Address.Print.append_part
    mhda.Address.Print.append_derivation mhda.Address.Print.nss mhda.Address.Print.str
    mhda.Address.Print.path_missing mhda.Address.Print.type_text mhda.Address.Print.check_path_set
    mhda.Address.Print.marshal_text mhda.Address.Setters.requested_type
    mhda.Address.Setters.set_derivation_type mhda.Address.Setters.set_path_of
    mhda.Address.Setters.set_derivation_path mhda.Address.Setters.move_path
    mhda.Address.Setters.scratch_derivation mhda.Address.Setters.set_derivation
    mhda.Address.Setters.set_coin_of mhda.Address.Setters.set_coin_type
    mhda.Address.Setters.set_address_algorithm mhda.Address.Setters.set_address_format
    mhda.Address.Setters.set_address_prefix mhda.Address.Setters.set_address_suffix
    mhda.Address.Setters.set_wallet_type mhda.Address.Setters.set_wallet_id
    mhda.Address.Setters.construct mhda.Address.Validate.check_hardened
    mhda.Address.Validate.check_derivation mhda.Address.Validate.check_path
    mhda.Address.Validate.validate mhda.Chain.set_network mhda.Chain.store_chain_id
    mhda.Chain.set_chain_id mhda.Chain.construct mhda.Chain.str mhda.Chain.eq
    mhda.Chain.build_network mhda.Chain.build_chain_id mhda.Chain.parse_coin mhda.Chain.build_coin
    mhda.Chain.build_chain mhda.Chain.from_nss mhda.Chain.count_colons mhda.Chain.only_identity
    mhda.Chain.from_key mhda.Compatibility.allows_algorithm mhda.Compatibility.allows_format
    mhda.Compatibility.allows_derivation mhda.Compatibility.entry
    mhda.Compatibility.default_algorithm mhda.Compatibility.default_format
    mhda.Compatibility.network_is_registered mhda.Compatibility.network_allows_algorithm
    mhda.Compatibility.network_allows_format mhda.Compatibility.derivation_algorithm
    mhda.Compatibility.derivation_allows_format mhda.Compatibility.network_allows_derivation
    mhda.DerivationPath.Class.is_type mhda.DerivationPath.Class.is_bip44_family
    mhda.DerivationPath.Class.fixed_prefix mhda.DerivationPath.Class.rebuild_from
    mhda.DerivationPath.Class.rebuild_levels mhda.DerivationPath.Class.append_index
    mhda.DerivationPath.Class.str_from mhda.DerivationPath.Class.str
    mhda.DerivationPath.Construct.levels_eq mhda.DerivationPath.Construct.check_levels
    mhda.DerivationPath.Construct.reparsed mhda.DerivationPath.Construct.construct
    mhda.DerivationPath.Construct.populate_shortcuts_from_levels
    mhda.DerivationPath.Construct.from_levels mhda.DerivationPath.Layout.expect_purpose
    mhda.DerivationPath.Layout.expect_coin mhda.DerivationPath.Layout.validate_bip44_family
    mhda.DerivationPath.Layout.validate_bip32 mhda.DerivationPath.Layout.validate_slip10
    mhda.DerivationPath.Layout.validate_cip11 mhda.DerivationPath.Layout.validate_cip1852
    mhda.DerivationPath.Layout.validate_zip32 mhda.DerivationPath.Layout.validate_levels_for
    mhda.DerivationPath.Layout.validate_read mhda.DerivationPath.Layout.validate_derivation_path
    mhda.DerivationPath.Levels.is_hardening_marker mhda.DerivationPath.Levels.strip_marker
    mhda.DerivationPath.Levels.spelled_exactly mhda.DerivationPath.Levels.parse_segment
    mhda.DerivationPath.Levels.any_empty mhda.DerivationPath.Levels.split_path
    mhda.DerivationPath.Levels.parse_segments mhda.DerivationPath.Levels.parse_levels
    mhda.DerivationPath.Parse.fill mhda.DerivationPath.Parse.fill_read
    mhda.DerivationPath.Parse.parse_fresh mhda.DerivationPath.Parse.parse_path
    mhda.DerivationPath.Parse.set_type mhda.DerivationPath.Parse.parse
    mhda.DerivationPath.Text.decimal_digits mhda.DerivationPath.Text.decimal
    mhda.DerivationPath.Text.append_uint32 mhda.DerivationPath.Text.append_marker
    mhda.DerivationPath.Text.append_levels mhda.DerivationPath.Text.format_levels
    mhda.Detail.Ascii.ascii_lower mhda.Detail.Ascii.is_ascii_space mhda.Detail.Ascii.trim_left
    mhda.Detail.Ascii.trim_right mhda.Detail.Ascii.trim mhda.Detail.Ascii.is_one_of
    mhda.Detail.Ascii.nss_byte mhda.Detail.Ascii.all_nss_bytes mhda.Detail.Ascii.to_lower
    mhda.Detail.Ascii.normalize mhda.Detail.Ascii.equal_bytes_fold
    mhda.Detail.Ascii.equal_ascii_fold mhda.Detail.Ascii.has_prefix_fold mhda.Detail.Ascii.strip_rqf
    mhda.Detail.Ascii.split_from mhda.Detail.Ascii.split mhda.Detail.Number.digit_value
    mhda.Detail.Number.push_digit mhda.Detail.Number.accumulate mhda.Detail.Number.parse_in_base
    mhda.Detail.Number.numeral mhda.Detail.Number.parse_uint32 mhda.Detail.Number.parse_uint31_dec
    mhda.Detail.Quote.hex_char mhda.Detail.Quote.quote_byte mhda.Detail.Quote.quote_bytes
    mhda.Detail.Quote.quote mhda.Detail.Quote.validate_free_form_value mhda.Error.error_message
    mhda.Error.compose mhda.Error.what mhda.Names.Algorithm.eq mhda.Names.Algorithm.is_valid
    mhda.Names.Algorithm.algorithm_from_string mhda.Names.DerivationType.eq
    mhda.Names.DerivationType.is_valid mhda.Names.DerivationType.derivation_type_from_string
    mhda.Names.Format.eq mhda.Names.Format.is_valid mhda.Names.Format.format_from_string
    mhda.Names.NetworkType.eq mhda.Names.NetworkType.is_valid
    mhda.Names.NetworkType.network_type_from_string mhda.Nss.is_known_component
    mhda.Nss.first_delimiter mhda.Nss.add_component mhda.Nss.add_components mhda.Nss.back
    mhda.Nss.parse_parts mhda.Nss.parse_delimited mhda.Nss.parse_nss_map mhda.Parser.get
    mhda.Parser.set_components mhda.Parser.parse_address_from_components
    mhda.Parser.parse_address_nss mhda.Parser.parse_urn mhda.Parser.parse_urn_strict
    mhda.Parser.parse_nss mhda.Parser.assign_parsed mhda.Parser.unmarshal_text mhda.Base.bytes_eq
    mhda.Base.elem mhda.Base.find mhda.Base.has_key
everything = tt
