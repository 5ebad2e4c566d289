-- ===== src/Cli/Numbers.antt =====
-- src/main.rs: numbers in text, as `str::parse` reads them into an unsigned type, and the operations
-- on text that the parsers use.
use xfr.Auth.{PskError}
use xfr.Prelude.{
  ℕ, ◌+◌, ◌-◌, ◌*◌, ◌≤◌, ◌≡◌, ap, sym, ◌∙◌, Bool, true, false, ◌&&◌, Option, none, some, List, [],
  ◌∷◌, ◌++◌, map, leb, ◌==◌, if◌then◌else◌, arith, inl, inr, Bool-cases,
}

-- A value or an error, the messages as constructors.
pub data CliError : Type 0 where
  invalid_number : CliError
  overflow : CliError
  zero_count : CliError
  zero_duration : CliError
  part_of_second : CliError
  zero_window : CliError
  too_short : CliError
  too_long : CliError
  bad_stream_count : CliError
  port_conflict : CliError
  zero_port : CliError
  tos_too_large : CliError
  unknown_dscp : CliError
  unknown_family : CliError
  family_conflict : CliError
  unspecified_bind : CliError
  invalid_port : CliError
  invalid_bind : CliError
  bind_port_with_tcp : CliError
  bind_port_with_streams : CliError
  not_a_duration : CliError
  length_with_probe : CliError
  bad_payload_size : CliError
  bad_psk : PskError → CliError

pub data Outcome {ℓ} (A : Type ℓ) : Type ℓ where
  ok : A → Outcome A
  err : CliError → Outcome A

unfoldable pub is_digit : ℕ → Bool
is_digit c = leb b'0' c && leb c b'9'

-- the digits of a number no larger than `limit`
abbrev pub with_digit : ℕ → ℕ → ℕ → (ℕ → Option ℕ) → Option ℕ
with_digit limit acc c rest =
    let n = acc * 10 + (c - b'0') in if is_digit c && leb n limit then rest n else none

unfoldable pub parse_digits : ℕ → List ℕ → ℕ → Option ℕ
unfolding is_digit
parse_digits limit [] acc = some acc
parse_digits limit (c ∷ s) acc = with_digit limit acc c (parse_digits limit s)

abbrev pub without_plus : List ℕ → List ℕ
without_plus [] = []
without_plus (c ∷ s) = if c == b'+' then s else c ∷ s

abbrev pub non_empty_digits : ℕ → List ℕ → Option ℕ
non_empty_digits limit [] = none
non_empty_digits limit (c ∷ s) = parse_digits limit (c ∷ s) 0

-- `str::parse` into an unsigned integer no larger than `limit`, with or without a leading plus
unfoldable pub parse_uint : ℕ → List ℕ → Option ℕ
unfolding parse_digits
parse_uint limit s = non_empty_digits limit (without_plus s)

abbrev pub to_upper : ℕ → ℕ
to_upper c = if leb b'a' c && leb c b'z' then c - 32 else c

abbrev pub to_uppercase : List ℕ → List ℕ
to_uppercase s = map to_upper s

unfoldable pub ends_with : ℕ → List ℕ → Bool
ends_with c [] = false
ends_with c (d ∷ []) = c == d
ends_with c (d ∷ e ∷ s) = ends_with c (e ∷ s)

abbrev pub cons_unless_gone : ℕ → ℕ → List ℕ → List ℕ
cons_unless_gone c d [] = if c == d then [] else d ∷ []
cons_unless_gone c d (e ∷ s) = d ∷ e ∷ s

-- all of them that stand at the end
unfoldable pub trim_end_matches : ℕ → List ℕ → List ℕ
trim_end_matches c [] = []
trim_end_matches c (d ∷ s) = cons_unless_gone c d (trim_end_matches c s)

-- the text without its last character
unfoldable pub without_last : List ℕ → List ℕ
without_last [] = []
without_last (d ∷ []) = []
without_last (d ∷ e ∷ s) = d ∷ without_last (e ∷ s)

-- `value` is the number that digits stand for, after those read so far
unfoldable pub value : List ℕ → ℕ → ℕ
value [] acc = acc
value (d ∷ ds) acc = value ds (acc * 10 + d)

abbrev pub AllDigits : List ℕ → Type 0
AllDigits [] = Unit
AllDigits (d ∷ ds) = (d ≤ 9) × AllDigits ds

abbrev pub print_digits : List ℕ → List ℕ
print_digits ds = map (λ d. b'0' + d) ds

value-ge : (ds : List ℕ) (acc : ℕ) → acc ≤ value ds acc
unfolding value
value-ge [] acc = omega arith
value-ge (d ∷ ds) acc = omega (arith, value-ge ds (acc * 10 + d))

with_digit_lem :
    (limit acc d : ℕ) (rest : ℕ → Option ℕ)
    → d ≤ 9
    → with_digit limit acc (b'0' + d) rest
      ≡ (if leb (acc * 10 + d) limit then rest (acc * 10 + d) else none)
unfolding is_digit
with_digit_lem limit acc d rest h =
    let same : acc * 10 + (b'0' + d - b'0') ≡ acc * 10 + d = omega arith in
    let digit : is_digit (b'0' + d) ≡ true = ground arith in
    ap (λ n. if is_digit (b'0' + d) && leb n limit then rest n else none) same
    ∙ ap (λ b. if b && leb (acc * 10 + d) limit then rest (acc * 10 + d) else none) digit

-- Reading digits gives the number that they stand for, or nothing when it passes the limit on the
-- way, which it does exactly when it passes it in the end.
pub parse_digits-print_digits :
    (limit : ℕ) (ds : List ℕ) (acc : ℕ)
    → AllDigits ds
    → acc ≤ limit
    → parse_digits limit (print_digits ds) acc
      ≡ (if leb (value ds acc) limit then some (value ds acc) else none)
unfolding parse_digits value
parse_digits-print_digits limit [] acc digits h = ground arith
parse_digits-print_digits limit (d ∷ ds) acc digits h =
    let n = acc * 10 + d in
    let above = value-ge ds n in
    with_digit_lem limit acc d (parse_digits limit (print_digits ds)) digits.0
    ∙ elim (Bool-cases (leb n limit)) [
      | inl le ↦
          ap (λ b. if b then parse_digits limit (print_digits ds) n else none) le
          ∙ parse_digits-print_digits limit ds n digits.1 (ground (arith, le))
      | inr gt ↦
          let passes : leb (value ds n) limit ≡ false = ground (arith, gt, above) in
          ap (λ b. if b then parse_digits limit (print_digits ds) n else none) gt
          ∙ sym (ap (λ b. if b then some (value ds n) else none) passes)
    ]

-- Digits are read as the number that they stand for, unless it is larger than the type holds.
pub parse_uint-print_digits :
    (limit d : ℕ) (ds : List ℕ)
    → AllDigits (d ∷ ds)
    → parse_uint limit (print_digits (d ∷ ds))
      ≡ (if leb (value (d ∷ ds) 0) limit then some (value (d ∷ ds) 0) else none)
unfolding parse_uint
parse_uint-print_digits limit d ds digits =
    let no_plus : ((b'0' + d) == b'+') ≡ false = ground (arith, digits.0) in
    ap (λ b. non_empty_digits limit (if b then print_digits ds else print_digits (d ∷ ds))) no_plus
    ∙ parse_digits-print_digits limit (d ∷ ds) 0 digits (omega arith)

ends_with_last : (c : ℕ) (s : List ℕ) → ends_with c (s ++ c ∷ []) ≡ true
unfolding ends_with
ends_with_last c [] = ground arith
ends_with_last c (d ∷ []) = ground arith
ends_with_last c (d ∷ e ∷ s) = ends_with_last c (e ∷ s)
