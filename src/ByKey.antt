-- ===== src/ByKey.antt =====
-- examples/by_key.cpp: the command-line tool. A stream is the text that is written to it, standard
-- input the list of its lines; an exception that nothing catches stands as the failed result.
pub mod ExitCode
use mhda.Address.Digest.{hash, nss_hash, hash256, nss_hash256}
use mhda.Address.Print.{nss, str}
use mhda.Address.Validate.{validate}
use mhda.Address.{Address, get_derivation_type, resolved_algorithm, resolved_format}
use mhda.Base.{
  ℕ, zero, suc, ◌+◌, Bool, true, false, not, ◌&&◌, ◌||◌, List, [], ◌∷◌, ◌++◌, Option, none, some,
  Bytes, codes, bytes_eq, is_empty, ltb, if◌then◌else◌,
}
use mhda.Chain
use mhda.DerivationPath.Class
use mhda.DerivationPath.Class.{DerivationPath}
use mhda.DerivationPath.Text.{AddressIndex, decimal}
use mhda.Error.{ErrorCode, Failure, Result, ok, err, parse_error, invalid_argument, what}
use mhda.Names.Algorithm
use mhda.Names.Format
use mhda.Parser.{parse_urn}

abbrev pub usage : Bytes
usage =
    codes "Usage: mhda_by_key <urn> [<urn>...]\n"
    ++ codes "       mhda_by_key                  (one URN per line on stdin)\n"

-- `out << label << value << "\n"`
abbrev line : Bytes → Bytes → Bytes
line label value = label ++ (value ++ codes "\n")

-- `static_cast<int>(e.code())`
unfoldable pub code_number : ErrorCode → ℕ
code_number ErrorCode.invalid_urn = 0
code_number ErrorCode.invalid_nss = 1
code_number ErrorCode.missing_network_type = 2
code_number ErrorCode.invalid_network_type = 3
code_number ErrorCode.invalid_coin_type = 4
code_number ErrorCode.missing_chain_id = 5
code_number ErrorCode.invalid_derivation_type = 6
code_number ErrorCode.invalid_derivation_path = 7
code_number ErrorCode.invalid_algorithm = 8
code_number ErrorCode.invalid_format = 9
code_number ErrorCode.incompatible = 10
code_number ErrorCode.uninitialized_address = 11
code_number ErrorCode.invalid_value = 12
code_number ErrorCode.coin_type_in_chain_key = 13
code_number ErrorCode.invalid_chain_key = 14

-- the report of a text that does not parse
unfoldable pub refusal : Bytes → ErrorCode → Bytes → Bytes
unfolding code_number
refusal urn c detail =
    line (codes "input  : ") urn
    ++ (codes "ERROR  : "
        ++ (what (parse_error c detail)
            ++ (codes " (code=" ++ (decimal (code_number c) ++ codes ")\n\n"))))

unfoldable pub coin_field : Option ℕ → Bytes
coin_field none = codes "(unset)"
coin_field (some ct) = decimal ct

-- `dp.str().empty() ? "(root)" : dp.str()`, and the same with another default
abbrev text_or : Bytes → Bytes → Bytes
text_or other s = if is_empty s then other else s

-- the loop over the levels, at level `i`
unfoldable pub print_levels : ℕ → List AddressIndex → Bytes
print_levels i [] = []
print_levels i (l ∷ lvls) =
    codes "    ["
    ++ (decimal i
        ++ (codes "] "
            ++ (line (decimal l.index)
                  (if l.is_hardened then codes "'  (hardened)" else codes "  (soft)")
                ++ print_levels (i + 1) lvls)))

unfoldable pub print_shortcuts : DerivationPath → Bytes
print_shortcuts dp =
    if dp.has_index
    then line (codes "  account    : ") (decimal dp.account)
      ++ (line (codes "  charge     : ") (decimal dp.charge)
          ++ line (codes "  index      : ")
              (decimal dp.index.index ++ (if dp.index.is_hardened then codes "'" else [])))
    else []

unfoldable pub print_path : Option DerivationPath → Bytes
unfolding print_levels print_shortcuts
print_path none = []
print_path (some dp) =
    line (codes "  path       : ") (text_or (codes "(root)") (Class.str dp))
    ++ ((if is_empty dp.levels then [] else codes "  levels     :\n" ++ print_levels 0 dp.levels)
        ++ print_shortcuts dp)

abbrev line_unless_empty : Bytes → Bytes → Bytes
line_unless_empty label v = if is_empty v then [] else line label v

unfoldable pub print_chain : Address → Bytes
unfolding coin_field
print_chain a =
    line (codes "canon. : ") (str a)
    ++ (line (codes "nss    : ") (nss a)
        ++ (codes "------- chain --------\n"
            ++ (line (codes "  network    : ") a.chain.network.value
                ++ (line (codes "  coin (slip): ") (coin_field a.chain.coin)
                    ++ (line (codes "  chain id   : ") a.chain.chain_id
                        ++ line (codes "  key        : ") (Chain.key a.chain))))))

unfoldable pub print_format : Address → Bytes
print_format a =
    let fmt = (resolved_format a).value in
    codes "------- format ------\n"
    ++ (line (codes "  algorithm  : ") (
          (resolved_algorithm a).value
          ++ (if Algorithm.empty a.algorithm then codes "  (default)" else []))
        ++ (line (codes "  format     : ") (
              text_or (codes "(unset)") fmt
              ++ (if Format.empty a.format && not (is_empty fmt) then codes "  (default)" else []))
            ++ (line_unless_empty (codes "  prefix     : ") a.prefix
                ++ line_unless_empty (codes "  suffix     : ") a.suffix)))

unfoldable pub print_wallet : Address → Bytes
print_wallet a =
    if not (is_empty a.wallet_type) || not (is_empty a.wallet_id)
    then codes "------- wallet ------\n"
      ++ (line_unless_empty (codes "  type       : ") a.wallet_type
          ++ line_unless_empty (codes "  id         : ") a.wallet_id)
    else []

unfoldable pub print_hashes : Address → Bytes
print_hashes a =
    codes "------- hashes ------\n"
    ++ (line (codes "  sha1(urn)  : ") (hash a)
        ++ (line (codes "  sha1(nss)  : ") (nss_hash a)
            ++ (line (codes "  sha256(urn): ") (hash256 a)
                ++ line (codes "  sha256(nss): ") (nss_hash256 a))))

unfoldable pub print_address : Bytes → Address → Bytes
unfolding print_chain print_path print_format print_wallet print_hashes
print_address urn a =
    line (codes "input  : ") urn
    ++ (print_chain a
        ++ (codes "------- derivation --\n"
            ++ (line (codes "  type       : ") (get_derivation_type a).value
                ++ (print_path a.path
                    ++ (print_format a
                        ++ (print_wallet a
                            ++ (print_hashes a ++ codes "------- validate ----\n")))))))

-- the verdict of `addr.validate()`, behind what is printed before it
unfoldable pub verdict : Bytes → Result (Unit {0}) → Bytes × Result ℕ
verdict out (ok _) = (out ++ codes "  strict     : OK\n\n", ok 0)
verdict out (err (parse_error c d)) =
    (out ++ (codes "  strict     : REJECTED (" ++ (what (parse_error c d) ++ codes ")\n\n")), ok 1)
verdict out (err (invalid_argument text)) = (out, err (invalid_argument text))

unfoldable pub describe_parsed : Bytes → Result Address → Bytes × Result ℕ
unfolding verdict
describe_parsed urn (ok a) = verdict (print_address urn a) (validate a)
describe_parsed urn (err (parse_error c d)) = (refusal urn c d, ok 2)
describe_parsed urn (err (invalid_argument text)) = ([], err (invalid_argument text))

unfoldable pub describe : Bytes → Bytes × Result ℕ
describe urn = describe_parsed urn (parse_urn urn)

-- `if (rc > worst_rc) worst_rc = rc;`
abbrev pub worse : ℕ → ℕ → ℕ
worse worst rc = if ltb worst rc then rc else worst

unfoldable pub is_help : Bytes → Bool
is_help urn = bytes_eq urn (codes "-h") || bytes_eq urn (codes "--help")

-- what the rest of a loop adds to the text of one round
abbrev pub behind : Bytes → Bytes × Result ℕ → Bytes × Result ℕ
behind out (more, r) = (out ++ more, r)

abbrev pub next_round : Bytes × Result ℕ → (ℕ → Bytes × Result ℕ) → Bytes × Result ℕ
next_round (out, ok rc) rest = behind out (rest rc)
next_round (out, err e) rest = (out, err e)

-- the loop over the arguments
unfoldable pub main_args : List Bytes → ℕ → Bytes × Result ℕ
main_args [] worst = ([], ok worst)
main_args (urn ∷ args) worst =
    if is_help urn
    then (usage, ok 0)
    else next_round (describe urn) (λ rc. main_args args (worse worst rc))

-- the loop over the lines of standard input, and the exit behind it
unfoldable pub main_lines : List Bytes → Bool → ℕ → Bytes × Result ℕ
main_lines [] any worst = ([], ok (if any then worst else 1))
main_lines (urn ∷ lines) any worst =
    if is_empty urn
    then main_lines lines any worst
    else next_round (describe urn) (λ rc. main_lines lines true (worse worst rc))

-- Standard output and the exit code; the usage that goes to standard error is left out.
unfoldable pub main : List Bytes → List Bytes → Bytes × Result ℕ
main [] lines = main_lines lines false 0
main (urn ∷ args) lines = main_args (urn ∷ args) 0
