-- ===== src/Cli/Accepted.antt =====
-- The values that the parsers of options accept, before the checks that come after.
use xfr.Prelude.{
  ℕ, ◌/◌, ◌%◌, ◌≤◌, ◌<◌, ◌≡◌, refl, sym, ◌∙◌, ◌↔◌, length, Bool, true, false, ◌&&◌, Option, none,
  some, List, [], ◌∷◌, leb, ◌==◌, if◌then◌else◌, arith, inl, inr, ◌⊎◌, Bool-cases,
}
use xfr.Prelude.Words.{u32_max}
use xfr.Prelude.Bytes.{same_bytes}
use xfr.Udp.Wire.{validate_payload_size}
use xfr.Auth.{validate_psk}
use xfr.Cli.Numbers.{CliError, bad_stream_count, Outcome, ok, err, to_uppercase, parse_uint}
use xfr.Cli.Options.{
  second, or_else, unwrap_or, parse_duration, nonzero_duration, parse_nonzero_duration,
  whole_seconds, parse_rate_limit_window, test_duration, parse_test_duration,
  resolve_rate_limit_window, resolve_parallel_streams, dscp_names, lookup, named_dscp, dscp_of,
  parse_dscp, validate, ClientConfig, payload_size_error, psk_error, error_or,
}

in_range :
    (m n : ℕ)
    → (if leb 1 m && leb m 128 then ok m else err bad_stream_count) ≡ ok n
    → (leb 1 n && leb n 128) ≡ true
in_range m n h = elim (Bool-cases (leb 1 m && leb m 128)) [
  | inl e ↦ ground (arith, h, e)
  | inr e ↦ ground (arith, h, e)
]

-- A payload size in range, and no MTU probe beside it.
abbrev pub SizeFits : Bool → Option ℕ → Type 0
SizeFits mtu_probe none = Unit
SizeFits mtu_probe (some size) = (mtu_probe ≡ false) × (16 ≤ size) × (size ≤ 65_507)

-- A key of 1 to 1024 bytes.
abbrev pub KeyFits : Option (List ℕ) → Type 0
KeyFits none = Unit
KeyFits (some psk) = (1 ≤ length psk) × (length psk ≤ 1024)

abbrev pub settings : ℕ → ℕ → Option ℕ → Bool → Option (List ℕ) → ClientConfig
settings n d size mtu_probe psk = record {
  streams = n;
  duration = d;
  udp_payload_size = size;
  mtu_probe = mtu_probe;
  psk = psk;
}

size_checked :
    (mtu_probe : Bool) (size : Option ℕ)
    → (payload_size_error mtu_probe size ≡ none) ↔ SizeFits mtu_probe size
unfolding validate_payload_size
size_checked mtu_probe none = (λ h. tt, λ h. refl)
size_checked true (some size) = (λ h. absurd cc, λ h. absurd cc)
size_checked false (some size) =
    (λ h. (refl, ground (arith, h), ground (arith, h)), λ h. ground (arith, h.1, h.2))

key_checked : (psk : Option (List ℕ)) → (psk_error psk ≡ none) ↔ KeyFits psk
unfolding validate_psk
key_checked none = (λ h. tt, λ h. refl)
key_checked (some psk) =
    (λ h. (ground (arith, h), ground (arith, h)), λ h. ground (arith, h.0, h.1))

both_none : (a b : Option CliError) → (error_or a b ≡ none) ↔ ((a ≡ none) × (b ≡ none))
both_none none b = (λ h. (refl, h), λ h. h.1)
both_none (some e) b = (λ h. absurd cc, λ h. absurd (let e = h.0 in cc))

validate_lem :
    (n d : ℕ) (size : Option ℕ) (mtu_probe : Bool) (psk : Option (List ℕ))
    → (leb 1 n && leb n 128) ≡ true
    → d / second ≤ u32_max
    → (validate (settings n d size mtu_probe psk) ≡ none) ↔ (SizeFits mtu_probe size × KeyFits psk)
unfolding validate
validate_lem n d size mtu_probe psk counted few =
    let rest = error_or (payload_size_error mtu_probe size) (psk_error psk) in
    let fits : leb (d / second) u32_max ≡ true = ground (arith, few) in
    let e : validate (settings n d size mtu_probe psk) ≡ rest = rw (counted, fits) refl in
    let (out, back) = both_none (payload_size_error mtu_probe size) (psk_error psk) in
    (
      λ h.
          let (a, b) = out (sym e ∙ h) in
          ((size_checked mtu_probe size).0 a, (key_checked psk).0 b),
      λ (a, b). e ∙ back ((size_checked mtu_probe size).1 a, (key_checked psk).1 b),
    )

module _ (humantime : List ℕ → Option ℕ) where
  test_duration_lem :
      (o : Outcome ℕ) (d : ℕ)
      → test_duration humantime o ≡ ok d
      → (d / second ≤ u32_max) × ((d ≡ 0) ⊎ (second ≤ d))
  test_duration_lem (err e) d h = absurd (cc)
  test_duration_lem (ok x) d h = elim (Bool-cases (x == 0)) [
    | inl zero_long ↦
        let same : d ≡ 0 = ground (arith, h, zero_long) in (omega (arith, same), inl same)
    | inr long ↦
        let same : d ≡ x = ground (arith, h, long) in
        let enough : second ≤ x = ground (arith, h, long) in
        let few : x / second ≤ u32_max = ground (arith, h, long) in
        (omega (arith, same, few), inr (omega (arith, same, enough)))
  ]

  whole_seconds_lem :
      (o : Outcome ℕ) (w : ℕ)
      → whole_seconds humantime (nonzero_duration humantime o) ≡ ok w
      → 0 < w
  whole_seconds_lem (err e) w h = absurd (cc)
  whole_seconds_lem (ok d) w h = elim (Bool-cases (d == 0)) [
    | inl none_left ↦ ground (arith, h, none_left)
    | inr some_left ↦
        let whole : d % second ≡ 0 = ground (arith, h, some_left) in
        let same : w ≡ d / second = ground (arith, h, some_left) in
        ground (arith, whole, same, some_left)
  ]

  -- A window that the command line accepts is resolved to itself, whatever the configuration says.
  pub resolve_rate_limit_window-parse_rate_limit_window :
      (s : List ℕ) (config : Option ℕ) (w : ℕ)
      → parse_rate_limit_window humantime s ≡ ok w
      → resolve_rate_limit_window (some w) config ≡ ok w
  unfolding parse_rate_limit_window parse_nonzero_duration resolve_rate_limit_window
  resolve_rate_limit_window-parse_rate_limit_window s config w h =
      let some_time : 0 < w = whole_seconds_lem (parse_duration humantime s) w h in
      ground (arith, some_time)

  -- With a duration and a number of streams that were accepted, the client's settings pass their
  -- validation exactly when the payload size, if one is set, is 16 to 65507 bytes with no MTU probe
  -- asked for, and the key, if one is set, has 1 to 1024 bytes. The test has no duration or one of a second
  -- at least.
  pub validate-parse_test_duration :
      (s : List ℕ) (d : ℕ) (cli config : Option ℕ) (n : ℕ) (size : Option ℕ) (mtu_probe : Bool)
      (psk : Option (List ℕ))
      → parse_test_duration humantime s ≡ ok d
      → resolve_parallel_streams cli config ≡ ok n
      → ((validate (settings n d size mtu_probe psk) ≡ none)
          ↔ (SizeFits mtu_probe size × KeyFits psk))
        × ((d ≡ 0) ⊎ (second ≤ d))
  unfolding parse_test_duration resolve_parallel_streams
  validate-parse_test_duration s d cli config n size mtu_probe psk h streams =
      let (few, long) = test_duration_lem (parse_duration humantime s) d h in
      let counted : (leb 1 n && leb n 128) ≡ true =
        in_range (unwrap_or 1 (or_else cli config)) n streams in
      (validate_lem n d size mtu_probe psk counted few, long)

abbrev all_bytes : List (List ℕ × ℕ) → Bool
all_bytes [] = true
all_bytes ((name, tos) ∷ names) = leb tos 255 && all_bytes names

lookup-bound :
    (names : List (List ℕ × ℕ)) (s : List ℕ) (tos : ℕ)
    → all_bytes names ≡ true
    → lookup names s ≡ some tos
    → tos ≤ 255
lookup-bound [] s tos small h = absurd (cc)
lookup-bound ((name, t) ∷ names) s tos small h = elim (Bool-cases (same_bytes s name)) [
  | inl here ↦ ground (arith, h, here, small)
  | inr there ↦ lookup-bound names s tos (ground (arith, small)) (ground (arith, h, there))
]

named_dscp-bound :
    (o : Option ℕ) (tos : ℕ) → ((t : ℕ) → o ≡ some t → t ≤ 255) → named_dscp o ≡ ok tos → tos ≤ 255
named_dscp-bound none tos bound h = absurd (cc)
named_dscp-bound (some t) tos bound h = ground (arith, bound t refl, h)

dscp_of-bound : (s : List ℕ) (o : Option ℕ) (tos : ℕ) → dscp_of s o ≡ ok tos → tos ≤ 255
dscp_of-bound s (some n) tos h = ground (arith, h)
dscp_of-bound s none tos h =
    named_dscp-bound (lookup dscp_names (to_uppercase s)) tos
      (λ t e. lookup-bound dscp_names (to_uppercase s) t refl e) h

-- A DSCP value that is accepted, by its number or its name, is a byte.
pub parse_dscp-bound : (s : List ℕ) (tos : ℕ) → parse_dscp s ≡ ok tos → tos ≤ 255
unfolding parse_dscp
parse_dscp-bound s tos h = dscp_of-bound s (parse_uint u32_max s) tos h
