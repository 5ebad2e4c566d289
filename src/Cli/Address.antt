-- ===== src/Cli/Address.antt =====
-- src/main.rs, `split_host_port`, `parse_bind_address`, `validate_bind_address` and the address
-- family, and src/net.rs, `AddressFamily` and `match_bind_family`.
use xfr.Prelude.{
  ℕ, ◌+◌, Bool, true, false, not, ◌&&◌, ◌||◌, Option, none, some, List, [], ◌∷◌, map, ltb, leb,
  ◌==◌, if◌then◌else◌,
}
use xfr.Prelude.Words.{u16_max}
use xfr.Prelude.Bytes.{same_bytes}
use xfr.Acl.{IpAddr, v4, v6}
use xfr.Serve.Timeouts.{Protocol, tcp, udp, quic}
use xfr.Cli.Numbers.{
  CliError, unknown_family, family_conflict, unspecified_bind, invalid_port, invalid_bind,
  bind_port_with_tcp, bind_port_with_streams, Outcome, ok, err, parse_uint, ends_with, without_last,
}

pub data AddressFamily : Type 0 where
  v4_only : AddressFamily
  v6_only : AddressFamily
  dual_stack : AddressFamily

abbrev to_lower : ℕ → ℕ
to_lower c = if leb b'A' c && leb c b'Z' then c + 32 else c

abbrev pub is_one_of : List (List ℕ) → List ℕ → Bool
is_one_of [] s = false
is_one_of (t ∷ ts) s = same_bytes s t || is_one_of ts s

abbrev v4_names : List (List ℕ)
v4_names =
    (b'4' ∷ [])
    ∷ (b'v' ∷ b'4' ∷ [])
    ∷ (b'i' ∷ b'p' ∷ b'v' ∷ b'4' ∷ [])
    ∷ (b'v' ∷ b'4' ∷ b'o' ∷ b'n' ∷ b'l' ∷ b'y' ∷ [])
    ∷ (b'i' ∷ b'p' ∷ b'v' ∷ b'4' ∷ b'-' ∷ b'o' ∷ b'n' ∷ b'l' ∷ b'y' ∷ [])
    ∷ []

abbrev v6_names : List (List ℕ)
v6_names =
    (b'6' ∷ [])
    ∷ (b'v' ∷ b'6' ∷ [])
    ∷ (b'i' ∷ b'p' ∷ b'v' ∷ b'6' ∷ [])
    ∷ (b'v' ∷ b'6' ∷ b'o' ∷ b'n' ∷ b'l' ∷ b'y' ∷ [])
    ∷ (b'i' ∷ b'p' ∷ b'v' ∷ b'6' ∷ b'-' ∷ b'o' ∷ b'n' ∷ b'l' ∷ b'y' ∷ [])
    ∷ []

abbrev dual_names : List (List ℕ)
dual_names =
    (b'd' ∷ b'u' ∷ b'a' ∷ b'l' ∷ [])
    ∷ (b'd' ∷ b'u' ∷ b'a' ∷ b'l' ∷ b's' ∷ b't' ∷ b'a' ∷ b'c' ∷ b'k' ∷ [])
    ∷ (b'd' ∷ b'u' ∷ b'a' ∷ b'l' ∷ b'-' ∷ b's' ∷ b't' ∷ b'a' ∷ b'c' ∷ b'k' ∷ [])
    ∷ (b'b' ∷ b'o' ∷ b't' ∷ b'h' ∷ [])
    ∷ []

unfoldable pub family_of : List ℕ → Option AddressFamily
family_of s =
    let name = map to_lower s in
    if is_one_of v4_names name
    then some v4_only
    else if is_one_of v6_names name
    then some v6_only
    else if is_one_of dual_names name
    then some dual_stack
    else none

abbrev family_or_error : Option AddressFamily → Outcome AddressFamily
family_or_error none = err unknown_family
family_or_error (some family) = ok family

abbrev configured_family : Option (List ℕ) → Outcome AddressFamily
configured_family none = ok dual_stack
configured_family (some s) = family_or_error (family_of s)

unfoldable pub resolve_address_family : Bool → Bool → Option (List ℕ) → Outcome AddressFamily
unfolding family_of
resolve_address_family ipv4_only ipv6_only config_value =
    if ipv4_only
    then ok v4_only
    else if ipv6_only
    then ok v6_only
    else configured_family config_value

abbrev pub is_unspecified : IpAddr → Bool
is_unspecified (v4 a) = a == 0
is_unspecified (v6 a) = a == 0

abbrev pub is_ipv4 : IpAddr → Bool
is_ipv4 (v4 a) = true
is_ipv4 (v6 a) = false

-- a bind address decides before the configuration
unfoldable pub resolve_server_address_family :
    Option IpAddr → Bool → Bool → Option (List ℕ) → Outcome AddressFamily
unfolding resolve_address_family
resolve_server_address_family none ipv4_only ipv6_only config_value =
    resolve_address_family ipv4_only ipv6_only config_value
resolve_server_address_family (some ip) ipv4_only ipv6_only config_value =
    if is_unspecified ip
    then err unspecified_bind
    else if ipv4_only && not (is_ipv4 ip)
    then err family_conflict
    else if ipv6_only && is_ipv4 ip
    then err family_conflict
    else ok (if is_ipv4 ip then v4_only else v6_only)

-- the rest after a first bracket
abbrev pub strip_bracket : List ℕ → Option (List ℕ)
strip_bracket [] = none
strip_bracket (c ∷ s) = if c == b'[' then some s else none

abbrev pub put_before : ℕ → Option (List ℕ × List ℕ) → Option (List ℕ × List ℕ)
put_before c none = none
put_before c (some (before, after)) = some (c ∷ before, after)

unfoldable pub split_once : ℕ → List ℕ → Option (List ℕ × List ℕ)
split_once c [] = none
split_once c (d ∷ s) =
    let rest = put_before d (split_once c s) in if d == c then some ([], s) else rest

-- at the first "]:"
unfoldable pub split_close : List ℕ → Option (List ℕ × List ℕ)
split_close [] = none
split_close (d ∷ []) = none
split_close (d ∷ e ∷ s) =
    let rest = put_before d (split_close (e ∷ s)) in
    if d == b']' && e == b':' then some ([], s) else rest

unfoldable pub contains : ℕ → List ℕ → Bool
contains c [] = false
contains c (d ∷ s) = d == c || contains c s

abbrev pub port_or_error : List ℕ → Option ℕ → Outcome (List ℕ × Option ℕ)
port_or_error host none = err invalid_port
port_or_error host (some port) = ok (host, some port)

abbrev pub with_port : List ℕ × List ℕ → Outcome (List ℕ × Option ℕ)
with_port (host, port) = port_or_error host (parse_uint u16_max port)

abbrev pub after_colon : List ℕ → Option (List ℕ × List ℕ) → Outcome (List ℕ × Option ℕ)
after_colon s none = ok (s, none)
after_colon s (some (host, port)) =
    if not (contains b':' port) then with_port (host, port) else ok (s, none)

abbrev pub after_close : List ℕ → Option (List ℕ × List ℕ) → Outcome (List ℕ × Option ℕ)
after_close s (some split) = with_port split
after_close s none = after_colon s (split_once b':' s)

abbrev pub after_bracket : List ℕ → Option (List ℕ) → Outcome (List ℕ × Option ℕ)
after_bracket s none = after_colon s (split_once b':' s)
after_bracket s (some rest) =
    if ends_with b']' rest then ok (without_last rest, none) else after_close s (split_close rest)

unfoldable pub split_host_port : List ℕ → Outcome (List ℕ × Option ℕ)
unfolding split_once split_close contains parse_uint ends_with without_last
split_host_port s = after_bracket s (strip_bracket s)

pub record SocketAddr : Type 0 where
  pub ip : IpAddr
  pub port : ℕ  -- u16

abbrev or_zero : Option ℕ → ℕ
or_zero none = 0
or_zero (some port) = port

abbrev address_or_error : Option SocketAddr → Outcome SocketAddr
address_or_error none = err invalid_bind
address_or_error (some addr) = ok addr

-- with the reading of an address literal and its zone, which asks the system for interfaces
module _ (parse_ip_literal : List ℕ → ℕ → Outcome (Option SocketAddr)) where
  abbrev literal_or_error : Outcome (Option SocketAddr) → Outcome SocketAddr
  literal_or_error (err e) = err e
  literal_or_error (ok addr) = address_or_error addr

  abbrev bind_at : Outcome (List ℕ × Option ℕ) → Outcome SocketAddr
  bind_at (err e) = err e
  bind_at (ok (host, port)) = literal_or_error (parse_ip_literal host (or_zero port))

  unfoldable pub parse_bind_address : List ℕ → Outcome SocketAddr
  unfolding split_host_port
  parse_bind_address s = bind_at (split_host_port s)

abbrev pub is_tcp : Protocol → Bool
is_tcp tcp = true
is_tcp udp = false
is_tcp quic = false

-- `none` is Ok(())
unfoldable pub validate_bind_address : Option SocketAddr → Protocol → ℕ → Bool → Option CliError
validate_bind_address none protocol streams has_cport = none
validate_bind_address (some addr) protocol streams has_cport =
    if not (addr.port == 0)
    then if is_tcp protocol && not has_cport
      then some bind_port_with_tcp
      else if ltb 1 streams && not has_cport
      then some bind_port_with_streams
      else none
    else none

-- an unspecified address takes the family of the remote one
abbrev same_bool : Bool → Bool → Bool
same_bool true b = b
same_bool false b = not b

unfoldable pub match_bind_family : SocketAddr → SocketAddr → SocketAddr
match_bind_family bind remote =
    if is_unspecified bind.ip && not (same_bool (is_ipv4 bind.ip) (is_ipv4 remote.ip))
    then record { ip = if not (is_ipv4 remote.ip) then v6 0 else v4 0; port = bind.port }
    else bind
