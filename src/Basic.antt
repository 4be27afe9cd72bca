-- ===== src/Basic.antt =====
-- examples/basic.cpp: the smoke program. Standard output is the text that is written to it; an
-- exception that nothing catches stands as the failed result.
use mhda.Address.Digest.{hash256}
use mhda.Address.{Address, resolved_algorithm, resolved_format}
use mhda.Base.{ℕ, ◌+◌, List, [], ◌∷◌, ◌++◌, Option, none, some, Bytes, codes, if◌then◌else◌}
use mhda.Chain
use mhda.Chain.{Iteration, from_key, key}
use mhda.DerivationPath.Class.{DerivationPath}
use mhda.DerivationPath.Text.{AddressIndex, decimal}
use mhda.Error.{Result, ok, err, parse_error, invalid_argument, incompatible}
use mhda.Parser.{parse_urn, parse_urn_strict}

abbrev Output : Type 0
Output = Bytes × Result ℕ

-- `std::cout << label << value << "\n"`, and what follows
abbrev say : Bytes → Bytes → Output → Output
say label value (out, r) = (label ++ (value ++ (codes "\n" ++ out)), r)

-- the rest of the program behind a call that may throw
abbrev pub go {ℓ} : {A : Type ℓ} → Result A → (A → Output) → Output
go (ok a) rest = rest a
go (err e) rest = ([], err e)

-- the handler of the strict parse: other codes print nothing
unfoldable pub caught : Result Address → Output → Output
caught (err (parse_error incompatible detail)) rest =
    say (codes "evm + ed25519 rejected, as expected") [] rest
caught (err (invalid_argument text)) rest = ([], err (invalid_argument text))
caught _ rest = rest

-- the loop over the levels, at level `i`
unfoldable pub print_each : ℕ → List AddressIndex → Output → Output
print_each i [] rest = rest
print_each i (l ∷ lvls) rest =
    say (codes "level[" ++ (decimal i ++ codes "] = "))
      (decimal l.index ++ (if l.is_hardened then codes " (hardened)" else []))
      (print_each (i + 1) lvls rest)

-- `path()->levels()`; without a path the model has no levels
abbrev path_levels : Option DerivationPath → List AddressIndex
path_levels none = []
path_levels (some p) = p.levels

unfoldable pub show_wallet : Output
show_wallet = go (parse_urn (codes "urn:mhda:nt:evm:ci:1:wt:web3:wi:5f2a8c31")) (λ wallet.
    say (codes "wallet     : ") (wallet.wallet_type ++ (codes " " ++ wallet.wallet_id)) ([], ok 0))

unfoldable pub show_path : Iteration → Address → Output
unfolding show_wallet print_each
show_path it bip = print_each 0 (path_levels bip.path) (
    say (codes "sha256     : ") (hash256 bip) (
      go (from_key it (key bip.chain))
        (λ parsed. say (codes "chain key  : ") (Chain.str parsed) show_wallet)))

unfoldable pub main : Iteration → Output
unfolding show_path caught
main it = go (parse_urn (codes "urn:mhda:nt:evm:ci:1")) (λ addr.
    say (codes "network    : ") addr.chain.network.value (
      say (codes "algorithm  : ") (resolved_algorithm addr).value (
        say (codes "format     : ") (resolved_format addr).value (
          caught (parse_urn_strict (codes "urn:mhda:nt:evm:ci:1:aa:ed25519")) (
            go (parse_urn (codes "urn:mhda:nt:evm:ci:1:dt:bip44:dp:m/44'/60'/0'/0/0"))
              (show_path it))))))
