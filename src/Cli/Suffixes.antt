-- ===== src/Cli/Suffixes.antt =====
-- What a number with a unit's letter is read as.
use xfr.Prelude.{
  ℕ, ◌+◌, ◌*◌, ◌≤◌, ◌<◌, ◌≡◌, refl, ap, ◌∙◌, Bool, true, false, none, some, List, [], ◌∷◌, ◌++◌,
  ++_nil, leb, ◌==◌, if◌then◌else◌, arith, inl, inr, Bool-cases,
}
use xfr.Prelude.Words.{u64_max}
use xfr.Cli.Numbers.{
  invalid_number, overflow, zero_count, Outcome, ok, err, to_upper, to_uppercase, ends_with,
  trim_end_matches, cons_unless_gone, without_last, value, AllDigits, print_digits,
  parse_uint-print_digits,
}
use xfr.Cli.Sizes.{
  trimmed_unit, stripped_unit, scaled, parse_scaled, parse_bitrate, parse_size, no_zero,
  parse_byte_budget,
}

pub data Suffix : Type 0 where
  no_suffix : Suffix
  kilo : Suffix
  mega : Suffix
  giga : Suffix

abbrev pub lower_or_upper : Bool → ℕ → ℕ
lower_or_upper true c = c + 32
lower_or_upper false c = c

abbrev pub letters : Bool → Suffix → List ℕ
letters lower no_suffix = []
letters lower kilo = lower_or_upper lower b'K' ∷ []
letters lower mega = lower_or_upper lower b'M' ∷ []
letters lower giga = lower_or_upper lower b'G' ∷ []

abbrev pub unit_of : ℕ → ℕ → ℕ → Suffix → ℕ
unit_of g m k no_suffix = 1
unit_of g m k kilo = k
unit_of g m k mega = m
unit_of g m k giga = g

to_uppercase_digits :
    (ds s : List ℕ)
    → AllDigits ds
    → to_uppercase (print_digits ds ++ s) ≡ print_digits ds ++ to_uppercase s
to_uppercase_digits [] s digits = refl
to_uppercase_digits (d ∷ ds) s digits =
    let same : to_upper (b'0' + d) ≡ b'0' + d = ground (arith, digits.0) in
    ap (λ c. c ∷ to_uppercase (print_digits ds ++ s)) same
    ∙ ap (λ t. (b'0' + d) ∷ t) (to_uppercase_digits ds s digits.1)

ends_with_append : (c e : ℕ) (s : List ℕ) → ends_with c (s ++ e ∷ []) ≡ (c == e)
unfolding ends_with
ends_with_append c e [] = refl
ends_with_append c e (d ∷ []) = refl
ends_with_append c e (d ∷ f ∷ s) = ends_with_append c e (f ∷ s)

ends_with_digits :
    (c : ℕ) (ds : List ℕ) → b'9' < c → AllDigits ds → ends_with c (print_digits ds) ≡ false
unfolding ends_with
ends_with_digits c [] h digits = refl
ends_with_digits c (d ∷ []) h digits = ground (arith, digits.0)
ends_with_digits c (d ∷ e ∷ ds) h digits = ends_with_digits c (e ∷ ds) h digits.1

without_last_append : (c : ℕ) (s : List ℕ) → without_last (s ++ c ∷ []) ≡ s
unfolding without_last
without_last_append c [] = refl
without_last_append c (d ∷ []) = refl
without_last_append c (d ∷ e ∷ s) = ap (λ t. d ∷ t) (without_last_append c (e ∷ s))

not_gone :
    (c d : ℕ) (ds : List ℕ)
    → b'9' < c
    → d ≤ 9
    → cons_unless_gone c (b'0' + d) (print_digits ds) ≡ print_digits (d ∷ ds)
not_gone c d [] h digit = ground arith
not_gone c d (e ∷ ds) h digit = refl

upper_letters : (lower : Bool) (x : Suffix) → to_uppercase (letters lower x) ≡ letters false x
upper_letters true no_suffix = refl
upper_letters true kilo = refl
upper_letters true mega = refl
upper_letters true giga = refl
upper_letters false no_suffix = refl
upper_letters false kilo = refl
upper_letters false mega = refl
upper_letters false giga = refl

trim_end_matches_digits :
    (c : ℕ) (ds : List ℕ)
    → b'9' < c
    → AllDigits ds
    → trim_end_matches c (print_digits ds ++ c ∷ []) ≡ print_digits ds
unfolding trim_end_matches
trim_end_matches_digits c [] h digits = ground arith
trim_end_matches_digits c (d ∷ ds) h digits =
    ap (cons_unless_gone c (b'0' + d)) (trim_end_matches_digits c ds h digits.1)
    ∙ not_gone c d ds h digits.0

uppercase_letters :
    (ds : List ℕ) (lower : Bool) (x : Suffix)
    → AllDigits ds
    → to_uppercase (print_digits ds ++ letters lower x) ≡ print_digits ds ++ letters false x
uppercase_letters ds lower x digits =
    to_uppercase_digits ds (letters lower x) digits
    ∙ ap (λ t. print_digits ds ++ t) (upper_letters lower x)

module _ (g m k : ℕ) (ds : List ℕ) (digits : AllDigits ds) where
  abbrev text : ℕ → List ℕ
  text c = print_digits ds ++ c ∷ []

  abbrev unit_by : (ℕ → List ℕ → List ℕ) → List ℕ → Bool → Bool → Bool → List ℕ × ℕ
  unit_by cut s in_g in_m in_k =
      if in_g
      then (cut b'G' s, g)
      else if in_m
      then (cut b'M' s, m)
      else if in_k
      then (cut b'K' s, k)
      else (s, 1)

  -- the cut takes the one letter off
  unit_by_lem :
      (cut : ℕ → List ℕ → List ℕ)
      → ((c : ℕ) → b'9' < c → cut c (text c) ≡ print_digits ds)
      → (x : Suffix)
      → let s = print_digits ds ++ letters false x in
        unit_by cut s (ends_with b'G' s) (ends_with b'M' s) (ends_with b'K' s)
        ≡ (print_digits ds, unit_of g m k x)
  unit_by_lem cut cuts no_suffix =
      ap (λ s. unit_by cut s (ends_with b'G' s) (ends_with b'M' s) (ends_with b'K' s))
        (++_nil (print_digits ds))
      ∙ ap
          (λ b.
            unit_by cut (print_digits ds) b (ends_with b'M' (print_digits ds))
              (ends_with b'K' (print_digits ds)))
          (ends_with_digits b'G' ds (omega arith) digits)
      ∙ ap (λ b. unit_by cut (print_digits ds) false b (ends_with b'K' (print_digits ds)))
          (ends_with_digits b'M' ds (omega arith) digits)
      ∙ ap (λ b. unit_by cut (print_digits ds) false false b)
          (ends_with_digits b'K' ds (omega arith) digits)
  unit_by_lem cut cuts kilo =
      ap (λ b. unit_by cut (text b'K') b (ends_with b'M' (text b'K')) (ends_with b'K' (text b'K')))
        (ends_with_append b'G' b'K' (print_digits ds))
      ∙ ap (λ b. unit_by cut (text b'K') false b (ends_with b'K' (text b'K')))
          (ends_with_append b'M' b'K' (print_digits ds))
      ∙ ap (λ b. unit_by cut (text b'K') false false b)
          (ends_with_append b'K' b'K' (print_digits ds))
      ∙ ap (λ t. (t, k)) (cuts b'K' (omega arith))
  unit_by_lem cut cuts mega =
      ap (λ b. unit_by cut (text b'M') b (ends_with b'M' (text b'M')) (ends_with b'K' (text b'M')))
        (ends_with_append b'G' b'M' (print_digits ds))
      ∙ ap (λ b. unit_by cut (text b'M') false b (ends_with b'K' (text b'M')))
          (ends_with_append b'M' b'M' (print_digits ds))
      ∙ ap (λ t. (t, m)) (cuts b'M' (omega arith))
  unit_by_lem cut cuts giga =
      ap (λ b. unit_by cut (text b'G') b (ends_with b'M' (text b'G')) (ends_with b'K' (text b'G')))
        (ends_with_append b'G' b'G' (print_digits ds))
      ∙ ap (λ t. (t, g)) (cuts b'G' (omega arith))

  trimmed_unit_lem :
      (lower : Bool) (x : Suffix)
      → trimmed_unit g m k (to_uppercase (print_digits ds ++ letters lower x))
        ≡ (print_digits ds, unit_of g m k x)
  trimmed_unit_lem lower x =
      ap (trimmed_unit g m k) (uppercase_letters ds lower x digits)
      ∙ unit_by_lem trim_end_matches (λ c h. trim_end_matches_digits c ds h digits) x

  stripped_unit_lem :
      (lower : Bool) (x : Suffix)
      → stripped_unit g m k (to_uppercase (print_digits ds ++ letters lower x))
        ≡ (print_digits ds, unit_of g m k x)
  stripped_unit_lem lower x =
      ap (stripped_unit g m k) (uppercase_letters ds lower x digits)
      ∙ unit_by_lem (λ c s. without_last s) (λ c h. without_last_append c (print_digits ds)) x

-- a number times a unit: an error where either is more than 64 bits hold
abbrev pub amount : ℕ → ℕ → Outcome ℕ
amount n unit =
    if leb n u64_max
    then if leb (n * unit) u64_max then ok (n * unit) else err overflow
    else err invalid_number

scaled-amount : (unit n : ℕ) → scaled unit (if leb n u64_max then some n else none) ≡ amount n unit
scaled-amount unit n = elim (Bool-cases (leb n u64_max)) [ inl e ↦ rw e refl | inr e ↦ rw e refl ]

-- a count of bytes in the unit of the letter: positive, and held in 64 bits with its number
abbrev pub byte_count : ℕ → Suffix → Outcome ℕ
byte_count n x =
    let bytes = n * unit_of (1024 * 1024 * 1024) (1024 * 1024) 1024 x in
    if leb n u64_max
    then if n == 0 then err zero_count else if leb bytes u64_max then ok bytes else err overflow
    else err invalid_number

no_zero-amount :
    (n : ℕ) (x : Suffix)
    → no_zero (amount n (unit_of (1024 * 1024 * 1024) (1024 * 1024) 1024 x)) ≡ byte_count n x
no_zero-amount n no_suffix = ground arith
no_zero-amount n kilo = ground arith
no_zero-amount n mega = ground arith
no_zero-amount n giga = ground arith

module _ (d : ℕ) (ds : List ℕ) (digits : AllDigits (d ∷ ds)) (lower : Bool) (x : Suffix) where
  abbrev written : List ℕ
  written = print_digits (d ∷ ds) ++ letters lower x

  parse_scaled_lem :
      (unit : ℕ) → parse_scaled (print_digits (d ∷ ds), unit) ≡ amount (value (d ∷ ds) 0) unit
  parse_scaled_lem unit =
      ap (scaled unit) (parse_uint-print_digits u64_max d ds digits)
      ∙ scaled-amount unit (value (d ∷ ds) 0)

  -- A bitrate is its number times the decimal unit of its letter, in either case; it is an error
  -- when the number or the product does not fit in 64 bits.
  pub parse_bitrate_lem :
      parse_bitrate written ≡ amount (value (d ∷ ds) 0) (unit_of 1_000_000_000 1_000_000 1_000 x)
  unfolding parse_bitrate
  parse_bitrate_lem =
      ap parse_scaled (trimmed_unit_lem 1_000_000_000 1_000_000 1_000 (d ∷ ds) digits lower x)
      ∙ parse_scaled_lem (unit_of 1_000_000_000 1_000_000 1_000 x)

  -- A size is its number times the binary unit of its letter.
  pub parse_size_lem :
      parse_size written
      ≡ amount (value (d ∷ ds) 0) (unit_of (1024 * 1024 * 1024) (1024 * 1024) 1024 x)
  unfolding parse_size
  parse_size_lem =
      ap parse_scaled
        (trimmed_unit_lem (1024 * 1024 * 1024) (1024 * 1024) 1024 (d ∷ ds) digits lower x)
      ∙ parse_scaled_lem (unit_of (1024 * 1024 * 1024) (1024 * 1024) 1024 x)

  -- A byte count is its number times the binary unit of its letter, in either case; a number or a
  -- product that does not fit in 64 bits is an error, and so is a count of zero.
  pub parse_byte_budget_lem : parse_byte_budget written ≡ byte_count (value (d ∷ ds) 0) x
  unfolding parse_byte_budget
  parse_byte_budget_lem =
      ap (λ p. no_zero (parse_scaled p))
        (stripped_unit_lem (1024 * 1024 * 1024) (1024 * 1024) 1024 (d ∷ ds) digits lower x)
      ∙ ap no_zero (parse_scaled_lem (unit_of (1024 * 1024 * 1024) (1024 * 1024) 1024 x))
      ∙ no_zero-amount (value (d ∷ ds) 0) x
