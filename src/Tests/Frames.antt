-- ===== src/Tests/Frames.antt =====
-- The theorems on names, coin types, path tests and the frame of a URN at concrete inputs.
use mhda.Base.{
  ◌∷◌, ◌≤◌, ◌<◌, ◌≡◌, ◌↔◌, refl, arith, true, [], ◌++◌, some, inl, Bytes, codes, length, All, AnyEq,
}
use mhda.DerivationPath.Layout.{validate_derivation_path}
use mhda.DerivationPath.Parse.Agrees.{Parses, validate_derivation_path_iff}
use mhda.DerivationPath.Text.Room.{decimal_digits_ends}
use mhda.DerivationPath.Text.{decimal_digits, decimal, buffer_size}
use mhda.Detail.Ascii.{trim, equal_ascii_fold}
use mhda.Names.DerivationType
use mhda.Names.Spelling.{network, names, read, from_string_iff}
use mhda.Parser.Frame.{parse_urn-parse_nss}
use mhda.Parser.Legible.{refusals-IsLegible}
use mhda.ByKey.{main, main_args, is_help, describe, describe_parsed, verdict}
use mhda.ByKey.ExitCode.{IsAccepted, exit_code_iff}
use mhda.Error.{ok}
use mhda.Chain.{from_nss, from_key}
use mhda.Detail.Quote.Legible.{IsLegible}
use mhda.Parser.{parse_urn, parse_nss}
use mhda.Tests.Everything.{everything}
use mhda.Tests.Samples.{swapped}

validate_derivation_path_iff_example :
    (validate_derivation_path DerivationType.bip44 (codes "m/44h/60'/0H/0/7") ≡ true)
    ↔ Parses DerivationType.bip44 (codes "m/44h/60'/0H/0/7")
validate_derivation_path_iff_example =
    validate_derivation_path_iff DerivationType.bip44 (codes "m/44h/60'/0H/0/7")

decimal_digits_ends_example :
    (decimal_digits 16 4294967295 [] ≡ decimal_digits 10 4294967295 [])
    × (0 < length (decimal 4294967295))
    × (length (decimal 4294967295) ≤ 10)
    × (length (decimal 4294967295) < buffer_size)
decimal_digits_ends_example = decimal_digits_ends 16 4294967295 (omega arith) (omega arith)

from_string_iff_example : (read network (codes " Bitcoin\n") ≡ some (codes "bitcoin")) ↔ (
    AnyEq (codes "bitcoin") (names network)
    × (equal_ascii_fold (trim (codes " Bitcoin\n")) (codes "bitcoin") ≡ true))
from_string_iff_example = from_string_iff network (codes " Bitcoin\n") (codes "bitcoin")

parse_urn-parse_nss_example :
    parse_urn
      (codes " " ++ (codes "URN:Mhda:" ++ (codes "nt:ton:ci:1" ++ (codes "?+q" ++ codes "\n"))))
    ≡ parse_nss (codes "nt:ton:ci:1")
unfolding everything
parse_urn-parse_nss_example =
    parse_urn-parse_nss (codes " ") (codes "URN:Mhda:") (codes "nt:ton:ci:1") (codes "?+q")
      (codes "\n") (refl, tt) refl (ground arith) (inl refl) (refl, tt)

abbrev refused : Bytes
refused = codes "urn:mhda:nt:\n:ci:1"

refusals-IsLegible_example :
    IsLegible (parse_urn refused)
    × IsLegible (parse_nss refused)
    × IsLegible (from_nss refused)
    × IsLegible (from_key swapped refused)
refusals-IsLegible_example = refusals-IsLegible swapped refused (ground arith)

abbrev accepted : Bytes
accepted = codes "urn:mhda:nt:ton:ci:1"

exit_code_iff_example :
    ((main (accepted ∷ refused ∷ []) []).1 ≡ ok 0) ↔ All IsAccepted (accepted ∷ refused ∷ [])
unfolding is_help everything
exit_code_iff_example = exit_code_iff accepted (refused ∷ []) [] (refl, (refl, tt))

exit_codes : ((main (accepted ∷ []) []).1 ≡ ok 0) × ((main (accepted ∷ refused ∷ []) []).1 ≡ ok 2)
unfolding main main_args is_help describe describe_parsed verdict everything
exit_codes = (refl, refl)
