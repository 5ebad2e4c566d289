-- ===== src/Cli/Options.antt =====
-- src/main.rs: durations, the DSCP byte, and the resolution of options from the command line, the
-- environment, the configuration file and the defaults; src/client.rs, `ClientConfig::validate`. A
-- duration is in nanoseconds.
use xfr.Prelude.{
  ℕ, ◌*◌, ◌/◌, ◌%◌, Bool, true, false, not, ◌&&◌, Option, none, some, List, [], ◌∷◌, ltb, leb, ◌==◌,
  if◌then◌else◌,
}
use xfr.Prelude.Words.{u64_max, u32_max}
use xfr.Prelude.Bytes.{same_bytes}
use xfr.Cli.Numbers.{
  CliError, zero_duration, part_of_second, zero_window, too_short, too_long, bad_stream_count,
  port_conflict, zero_port, tos_too_large, unknown_dscp, not_a_duration, length_with_probe,
  bad_payload_size, bad_psk, Outcome, ok, err, parse_uint, to_uppercase,
}
use xfr.Cli.Sizes.{parse_size}
use xfr.Udp.Wire.{validate_payload_size}
use xfr.Auth.{PskError, validate_psk}

abbrev pub second : ℕ
second = 1_000_000_000

abbrev pub default_port : ℕ
default_port = 5201

abbrev pub or_else : Option ℕ → Option ℕ → Option ℕ
or_else (some n) b = some n
or_else none b = b

abbrev pub unwrap_or : ℕ → Option ℕ → ℕ
unwrap_or d none = d
unwrap_or d (some n) = n

-- with the crate that reads suffixed durations
module _ (humantime : List ℕ → Option ℕ) where
  abbrev suffixed : Option ℕ → Outcome ℕ
  suffixed none = err not_a_duration
  suffixed (some d) = ok d

  abbrev seconds_or : List ℕ → Option ℕ → Outcome ℕ
  seconds_or s none = suffixed (humantime s)
  seconds_or s (some secs) = ok (secs * second)

  unfoldable pub parse_duration : List ℕ → Outcome ℕ
  unfolding parse_uint
  parse_duration s = seconds_or s (parse_uint u64_max s)

  abbrev pub nonzero_duration : Outcome ℕ → Outcome ℕ
  nonzero_duration (err e) = err e
  nonzero_duration (ok d) = if d == 0 then err zero_duration else ok d

  unfoldable pub parse_nonzero_duration : List ℕ → Outcome ℕ
  unfolding parse_duration
  parse_nonzero_duration s = nonzero_duration (parse_duration s)

  abbrev pub whole_seconds : Outcome ℕ → Outcome ℕ
  whole_seconds (err e) = err e
  whole_seconds (ok d) = if not (d % second == 0) then err part_of_second else ok (d / second)

  unfoldable pub parse_rate_limit_window : List ℕ → Outcome ℕ
  unfolding parse_nonzero_duration
  parse_rate_limit_window s = whole_seconds (parse_nonzero_duration s)

  abbrev pub test_duration : Outcome ℕ → Outcome ℕ
  test_duration (err e) = err e
  test_duration (ok d) =
      if d == 0
      then ok 0
      else if ltb d second
      then err too_short
      else if ltb u32_max (d / second)
      then err too_long
      else ok d

  unfoldable pub parse_test_duration : List ℕ → Outcome ℕ
  unfolding parse_duration
  parse_test_duration s = test_duration (parse_duration s)

-- `window_secs` of the rate limiter's default
abbrev pub default_window_secs : ℕ
default_window_secs = 60

unfoldable pub resolve_rate_limit_window : Option ℕ → Option ℕ → Outcome ℕ
resolve_rate_limit_window cli config =
    let window_secs = unwrap_or default_window_secs (or_else cli config) in
    if window_secs == 0 then err zero_window else ok window_secs

abbrev in_seconds : Option ℕ → Option ℕ
in_seconds none = none
in_seconds (some secs) = some (secs * second)

abbrev pub resolve_server_max_duration : Option ℕ → Option ℕ → Option ℕ
resolve_server_max_duration cli preset = or_else cli (in_seconds preset)

abbrev pub resolve_server_port : Option ℕ → Option ℕ → ℕ
resolve_server_port cli config = unwrap_or default_port (or_else cli config)

-- the arguments: -t, --probe-mtu, -n, and the seconds of the configuration file
unfoldable pub resolve_client_duration : Option ℕ → Bool → Option ℕ → Option ℕ → ℕ
resolve_client_duration (some duration) probe_mtu byte_budget config = duration
resolve_client_duration none true byte_budget config = 60 * second
resolve_client_duration none false (some budget) config = 0
resolve_client_duration none false none config = unwrap_or (10 * second) (in_seconds config)

unfoldable pub resolve_parallel_streams : Option ℕ → Option ℕ → Outcome ℕ
resolve_parallel_streams cli config =
    let streams = unwrap_or 1 (or_else cli config) in
    if leb 1 streams && leb streams 128 then ok streams else err bad_stream_count

abbrev pub conflicts : Option ℕ → Option ℕ → Bool
conflicts (some target) (some cli) = not (target == cli)
conflicts none cli = false
conflicts (some target) none = false

-- the arguments: the target's, -p, XFR_PORT, and the configuration file's
unfoldable pub resolve_client_port : Option ℕ → Option ℕ → Option ℕ → Option ℕ → Outcome ℕ
resolve_client_port target cli env config =
    let port = unwrap_or default_port (or_else target (or_else cli (or_else env config))) in
    if conflicts target cli then err port_conflict else if port == 0 then err zero_port else ok port

abbrev as_some : Outcome ℕ → Outcome (Option ℕ)
as_some (err e) = err e
as_some (ok n) = ok (some n)

abbrev configured_size : Option (List ℕ) → Outcome (Option ℕ)
configured_size none = ok none
configured_size (some s) = as_some (parse_size s)

unfoldable pub resolve_window_size : Option ℕ → Option (List ℕ) → Outcome (Option ℕ)
resolve_window_size (some window) config = ok (some window)
resolve_window_size none config = configured_size config

-- the names and their bytes
abbrev pub dscp_names : List (List ℕ × ℕ)
dscp_names =
    ((b'C' ∷ b'S' ∷ b'0' ∷ []), 0)
    ∷ ((b'C' ∷ b'S' ∷ b'1' ∷ []), 32)
    ∷ ((b'C' ∷ b'S' ∷ b'2' ∷ []), 64)
    ∷ ((b'C' ∷ b'S' ∷ b'3' ∷ []), 96)
    ∷ ((b'C' ∷ b'S' ∷ b'4' ∷ []), 128)
    ∷ ((b'C' ∷ b'S' ∷ b'5' ∷ []), 160)
    ∷ ((b'C' ∷ b'S' ∷ b'6' ∷ []), 192)
    ∷ ((b'C' ∷ b'S' ∷ b'7' ∷ []), 224)
    ∷ ((b'A' ∷ b'F' ∷ b'1' ∷ b'1' ∷ []), 40)
    ∷ ((b'A' ∷ b'F' ∷ b'1' ∷ b'2' ∷ []), 48)
    ∷ ((b'A' ∷ b'F' ∷ b'1' ∷ b'3' ∷ []), 56)
    ∷ ((b'A' ∷ b'F' ∷ b'2' ∷ b'1' ∷ []), 72)
    ∷ ((b'A' ∷ b'F' ∷ b'2' ∷ b'2' ∷ []), 80)
    ∷ ((b'A' ∷ b'F' ∷ b'2' ∷ b'3' ∷ []), 88)
    ∷ ((b'A' ∷ b'F' ∷ b'3' ∷ b'1' ∷ []), 104)
    ∷ ((b'A' ∷ b'F' ∷ b'3' ∷ b'2' ∷ []), 112)
    ∷ ((b'A' ∷ b'F' ∷ b'3' ∷ b'3' ∷ []), 120)
    ∷ ((b'A' ∷ b'F' ∷ b'4' ∷ b'1' ∷ []), 136)
    ∷ ((b'A' ∷ b'F' ∷ b'4' ∷ b'2' ∷ []), 144)
    ∷ ((b'A' ∷ b'F' ∷ b'4' ∷ b'3' ∷ []), 152)
    ∷ ((b'E' ∷ b'F' ∷ []), 184)
    ∷ ((b'V' ∷ b'A' ∷ []), 172)
    ∷ []

abbrev pub lookup : List (List ℕ × ℕ) → List ℕ → Option ℕ
lookup [] s = none
lookup ((name, tos) ∷ names) s = if same_bytes s name then some tos else lookup names s

abbrev pub named_dscp : Option ℕ → Outcome ℕ
named_dscp none = err unknown_dscp
named_dscp (some tos) = ok tos

abbrev pub dscp_of : List ℕ → Option ℕ → Outcome ℕ
dscp_of s (some n) = if ltb 255 n then err tos_too_large else ok n
dscp_of s none = named_dscp (lookup dscp_names (to_uppercase s))

unfoldable pub parse_dscp : List ℕ → Outcome ℕ
unfolding parse_uint
parse_dscp s = dscp_of s (parse_uint u32_max s)

-- `ClientConfig`, the fields that `validate` reads
pub record ClientConfig : Type 0 where
  pub streams : ℕ  -- u8
  pub duration : ℕ
  pub udp_payload_size : Option ℕ  -- u16
  pub mtu_probe : Bool
  pub psk : Option (List ℕ)

abbrev pub payload_size_error : Bool → Option ℕ → Option CliError
payload_size_error mtu_probe none = none
payload_size_error mtu_probe (some size) =
    if mtu_probe
    then some length_with_probe
    else if validate_payload_size size
    then none
    else some bad_payload_size

abbrev pub as_cli_error : Option PskError → Option CliError
as_cli_error none = none
as_cli_error (some e) = some (bad_psk e)

abbrev pub psk_error : Option (List ℕ) → Option CliError
psk_error none = none
psk_error (some psk) = as_cli_error (validate_psk psk)

-- `?`: the error, or what comes after
abbrev pub error_or : Option CliError → Option CliError → Option CliError
error_or none next = next
error_or (some e) next = some e

unfoldable pub validate : ClientConfig → Option CliError
validate config =
    if not (leb 1 config.streams && leb config.streams 128)
    then some bad_stream_count
    else if not (leb (config.duration / second) u32_max)
    then some too_long
    else error_or (payload_size_error config.mtu_probe config.udp_payload_size)
        (psk_error config.psk)
