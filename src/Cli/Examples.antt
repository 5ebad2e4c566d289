-- ===== src/Cli/Examples.antt =====
-- Options as they are typed.
use xfr.Prelude.{
  ◌↔◌, ℕ, ◌*◌, ◌≤◌, ◌≡◌, ◌⊎◌, refl, false, Option, none, some, List, [], ◌∷◌, ◌++◌, arith,
}
use xfr.Cli.Numbers.{print_digits, value, invalid_port, ok, err}
use xfr.Cli.Sizes.{parse_byte_budget}
use xfr.Cli.Suffixes.{kilo, letters, parse_byte_budget_lem}
use xfr.Cli.Address.{split_host_port, contains}
use xfr.Cli.Hosts.{split_host_port-bracketed}
use xfr.Cli.Options.{second, parse_test_duration, resolve_parallel_streams, validate}
use xfr.Cli.Accepted.{settings, SizeFits, KeyFits, validate-parse_test_duration}

parse_byte_budget_lem_example :
    parse_byte_budget (print_digits (1 ∷ 2 ∷ []) ++ letters false kilo) ≡ ok 12_288
unfolding value
parse_byte_budget_lem_example =
    parse_byte_budget_lem 1 (2 ∷ []) (omega arith, (omega arith, tt)) false kilo

split_host_port-bracketed_example :
    split_host_port
      (b'[' ∷ b':' ∷ b':' ∷ b'1' ∷ b']' ∷ b':' ∷ b'9' ∷ b'9' ∷ b'9' ∷ b'9' ∷ b'9' ∷ [])
    ≡ err invalid_port
unfolding contains value
split_host_port-bracketed_example =
    split_host_port-bracketed (b':' ∷ b':' ∷ b'1' ∷ []) 9 (9 ∷ 9 ∷ 9 ∷ 9 ∷ [])
      (omega arith, (omega arith, (omega arith, (omega arith, (omega arith, tt))))) refl

-- "30", with a reader that knows no suffix
abbrev no_suffixes : List ℕ → Option ℕ
no_suffixes s = none

abbrev thirty : List ℕ
thirty = b'3' ∷ b'0' ∷ []

validate-parse_test_duration_example :
    ((validate (settings 4 (30 * second) (some 1_400) false (some (115 ∷ []))) ≡ none)
      ↔ (SizeFits false (some 1_400) × KeyFits (some (115 ∷ []))))
    × ((30 * second ≡ 0) ⊎ (second ≤ 30 * second))
unfolding parse_test_duration resolve_parallel_streams
validate-parse_test_duration_example =
    validate-parse_test_duration no_suffixes thirty (30 * second) none (some 4) 4 (some 1_400) false
      (some (115 ∷ [])) refl refl
