-- ===== src/ByKey/ExitCode.antt =====
-- examples/by_key.cpp: the exit code of the tool.
use mhda.Address.Validate.{validate}
use mhda.Address.{Address}
use mhda.Base.{ℕ, ◌≡◌, ◌↔◌, refl, ap, ◌∙◌, arith, false, List, [], ◌∷◌, Bytes, All}
use mhda.ByKey.{
  describe, describe_parsed, print_address, verdict, worse, is_help, next_round, main_args, main,
}
use mhda.Error.{Result, ok, err, parse_error, invalid_argument, ok_injective, err≢ok, ◌>>=◌, ◌>>◌}
use mhda.Parser.{parse_urn, parse_urn_strict}

-- `parse_urn_strict` returns.
abbrev pub IsAccepted : Bytes → Type 0
IsAccepted urn = (a : Address) × (parse_urn_strict urn ≡ ok a)

-- The code of a verdict is 0 exactly if the checks behind the parser return.
verdict_iff :
    (out : Bytes) (a : Address) (v : Result (Unit {0}))
    → ((verdict out v).1 ≡ ok 0) ↔ ((b : Address) × ((v >> ok a) ≡ ok b))
unfolding verdict
verdict_iff out a (ok u) = (λ h. (a, refl), λ h. refl)
verdict_iff out a (err (parse_error c d)) =
    (λ h. let e : 1 ≡ 0 = ok_injective h in absurd (omega arith), λ h. absurd (err≢ok h.1))
verdict_iff out a (err (invalid_argument t)) = (λ h. absurd (err≢ok h), λ h. absurd (err≢ok h.1))

parsed_iff :
    (urn : Bytes) (r : Result Address)
    → ((describe_parsed urn r).1 ≡ ok 0)
      ↔ ((b : Address) × ((r >>= λ a. validate a >> ok a) ≡ ok b))
unfolding describe_parsed
parsed_iff urn (ok a) = verdict_iff (print_address urn a) a (validate a)
parsed_iff urn (err (parse_error c d)) =
    (λ h. let e : 2 ≡ 0 = ok_injective h in absurd (omega arith), λ h. absurd (err≢ok h.1))
parsed_iff urn (err (invalid_argument t)) = (λ h. absurd (err≢ok h), λ h. absurd (err≢ok h.1))

describe_iff : (urn : Bytes) → ((describe urn).1 ≡ ok 0) ↔ IsAccepted urn
unfolding describe parse_urn_strict
describe_iff urn = parsed_iff urn (parse_urn urn)

next_round_iff :
    (x : Bytes × Result ℕ) (rest : ℕ → Bytes × Result ℕ)
    → ((next_round x rest).1 ≡ ok 0) ↔ ((rc : ℕ) × (x.1 ≡ ok rc) × ((rest rc).1 ≡ ok 0))
next_round_iff (out, ok rc) rest =
    (λ h. (rc, refl, h), λ (rc', e, h). let same : rc ≡ rc' = ok_injective e in rw same h)
next_round_iff (out, err e) rest = (λ h. absurd (err≢ok h), λ (rc, e, h). absurd (err≢ok e))

worse_zero : (worst rc : ℕ) → (worse worst rc ≡ 0) ↔ ((worst ≡ 0) × (rc ≡ 0))
worse_zero worst rc = (λ h. (ground arith, ground arith), λ (e, d). ground arith)

-- The code behind the loop is 0 if it was before, and every text is accepted.
main_args_iff :
    (args : List Bytes) (worst : ℕ)
    → All (λ urn. is_help urn ≡ false) args
    → ((main_args args worst).1 ≡ ok 0) ↔ ((worst ≡ 0) × All IsAccepted args)
unfolding main_args
main_args_iff [] worst h = (λ e. (ok_injective e, tt), λ (e, _). ap ok e)
main_args_iff (urn ∷ args) worst (hu, h) =
    let rest = λ (rc : ℕ). main_args args (worse worst rc) in
    let round = next_round_iff (describe urn) rest in
    rw hu (
      λ e.
          let (rc, here, more) = round.0 e in
          let (low, every) = (main_args_iff args (worse worst rc) h).0 more in
          let (was, good) = (worse_zero worst rc).0 low in
          (was, ((describe_iff urn).0 (here ∙ ap ok good), every)),
      λ (was, (here, all)). round.1 (
        0,
        (describe_iff urn).1 here,
        (main_args_iff args (worse worst 0) h).1 ((worse_zero worst 0).1 (was, refl), all),
      ),
    )

-- With arguments, none of them a request for help, the exit code of the tool is 0 exactly if
-- parse_urn_strict returns for every one of them.
pub exit_code_iff :
    (urn : Bytes) (args lines : List Bytes)
    → All (λ u. is_help u ≡ false) (urn ∷ args)
    → ((main (urn ∷ args) lines).1 ≡ ok 0) ↔ All IsAccepted (urn ∷ args)
unfolding main
exit_code_iff urn args lines h =
    let loop = main_args_iff (urn ∷ args) 0 h in (λ e. (loop.0 e).1, λ all. loop.1 (refl, all))
