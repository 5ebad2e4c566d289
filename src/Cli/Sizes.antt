-- ===== src/Cli/Sizes.antt =====
-- src/main.rs: bitrates, sizes and byte counts, numbers with a unit's letter.
use xfr.Prelude.{ℕ, ◌*◌, Option, none, some, List, leb, ◌==◌, if◌then◌else◌}
use xfr.Prelude.Words.{u64_max}
use xfr.Cli.Numbers.{
  invalid_number, overflow, zero_count, Outcome, ok, err, parse_uint, to_uppercase, ends_with,
  trim_end_matches, without_last,
}

-- a number and its unit, with the units of the letters G, M and K
abbrev pub trimmed_unit : ℕ → ℕ → ℕ → List ℕ → List ℕ × ℕ
trimmed_unit giga mega kilo s =
    if ends_with b'G' s
    then (trim_end_matches b'G' s, giga)
    else if ends_with b'M' s
    then (trim_end_matches b'M' s, mega)
    else if ends_with b'K' s
    then (trim_end_matches b'K' s, kilo)
    else (s, 1)

abbrev pub stripped_unit : ℕ → ℕ → ℕ → List ℕ → List ℕ × ℕ
stripped_unit giga mega kilo s =
    if ends_with b'G' s
    then (without_last s, giga)
    else if ends_with b'M' s
    then (without_last s, mega)
    else if ends_with b'K' s
    then (without_last s, kilo)
    else (s, 1)

-- the product in 64 bits
abbrev pub checked_mul : ℕ → ℕ → Outcome ℕ
checked_mul n unit = if leb (n * unit) u64_max then ok (n * unit) else err overflow

abbrev pub scaled : ℕ → Option ℕ → Outcome ℕ
scaled unit none = err invalid_number
scaled unit (some n) = checked_mul n unit

abbrev pub parse_scaled : List ℕ × ℕ → Outcome ℕ
parse_scaled (digits, unit) = scaled unit (parse_uint u64_max digits)

unfoldable pub parse_bitrate : List ℕ → Outcome ℕ
unfolding parse_uint ends_with trim_end_matches
parse_bitrate s = parse_scaled (trimmed_unit 1_000_000_000 1_000_000 1_000 (to_uppercase s))

-- with a usize of 64 bits
unfoldable pub parse_size : List ℕ → Outcome ℕ
unfolding parse_uint ends_with trim_end_matches
parse_size s = parse_scaled (trimmed_unit (1024 * 1024 * 1024) (1024 * 1024) 1024 (to_uppercase s))

abbrev pub no_zero : Outcome ℕ → Outcome ℕ
no_zero (err e) = err e
no_zero (ok total) = if total == 0 then err zero_count else ok total

unfoldable pub parse_byte_budget : List ℕ → Outcome ℕ
unfolding parse_uint ends_with without_last
parse_byte_budget s =
    no_zero (parse_scaled (stripped_unit (1024 * 1024 * 1024) (1024 * 1024) 1024 (to_uppercase s)))
