-- ===== src/Client/Ports.antt =====
-- src/client.rs: the source ports that a client binds, for its control connection and its streams.
use xfr.Prelude.{
  ℕ, ◌+◌, ◌-◌, ◌%◌, ◌^◌, ◌≤◌, ◌<◌, ◌≡◌, ◌≢◌, min, Bool, true, false, not, ◌&&◌, Option, none, some,
  ltb, leb, ◌==◌, if◌then◌else◌, arith, inl, inr, Bool-cases,
}
use xfr.Prelude.Words.{u16_max}
use xfr.Serve.Timeouts.{Protocol, tcp}
use xfr.Cli.Address.{SocketAddr, is_tcp}

-- the fields of `ClientConfig` that are read here
pub record PortConfig : Type 0 where
  pub protocol : Protocol
  pub bind_addr : Option SocketAddr
  pub sequential_ports : Bool
  pub streams : ℕ  -- u8

abbrev pub set_port : ℕ → SocketAddr → SocketAddr
set_port port addr = record addr { port = port }

abbrev any_port : Option SocketAddr → Option SocketAddr
any_port none = none
any_port (some addr) = some (if not (addr.port == 0) then set_port 0 addr else addr)

unfoldable pub control_bind_addr : PortConfig → Option SocketAddr
control_bind_addr config =
    if not (is_tcp config.protocol) then config.bind_addr else any_port config.bind_addr

pub data BindBase : Type 0 where
  base : Option SocketAddr → BindBase
  no_bind_addr : BindBase
  no_fixed_port : BindBase
  ports_exceed : BindBase

abbrev sequential_from : ℕ → Option SocketAddr → BindBase
sequential_from stream_count none = no_bind_addr
sequential_from stream_count (some addr) =
    if addr.port == 0
    then no_fixed_port
    else if ltb u16_max (addr.port + (stream_count - 1))
    then ports_exceed
    else base (some addr)

unfoldable pub sequential_bind_base : Option SocketAddr → Bool → ℕ → BindBase
sequential_bind_base bind_addr sequential_ports stream_count =
    if sequential_ports then sequential_from stream_count bind_addr else base bind_addr

abbrev offset_by : ℕ → Option SocketAddr → Option SocketAddr
offset_by stream_index none = none
offset_by stream_index (some addr) =
    some (set_port ((addr.port + stream_index % 2 ^ 16) % 2 ^ 16) addr)

unfoldable pub stream_bind_addr : Option SocketAddr → Bool → ℕ → Option SocketAddr
stream_bind_addr base_bind_addr sequential_ports stream_index =
    if sequential_ports then offset_by stream_index base_bind_addr else base_bind_addr

-- u16::saturating_add
abbrev saturating_add16 : ℕ → ℕ → ℕ
saturating_add16 a b = min (a + b) u16_max

abbrev range_from : PortConfig → Option SocketAddr → Option (ℕ × ℕ)
range_from config none = none
range_from config (some addr) =
    if addr.port == 0
    then none
    else some (
      addr.port,
      if config.sequential_ports
          then saturating_add16 addr.port (config.streams - 1)
          else addr.port,
    )

unfoldable pub tcp_data_port_range : PortConfig → Option (ℕ × ℕ)
tcp_data_port_range config =
    if not (is_tcp config.protocol) then none else range_from config config.bind_addr

abbrev is_outside : ℕ → Option (ℕ × ℕ) → Bool
is_outside port none = true
is_outside port (some (start, end)) = not (leb start port && leb port end)

-- true is Ok(())
unfoldable pub validate_tcp_control_port : ℕ → PortConfig → Bool
unfolding tcp_data_port_range
validate_tcp_control_port control_port config = is_outside control_port (tcp_data_port_range config)

sequential_from_lem :
    (addr b : SocketAddr) (n : ℕ)
    → sequential_from n (some addr) ≡ base (some b)
    → (0 < addr.port) × (addr.port + (n - 1) ≤ u16_max)
sequential_from_lem addr b n h = elim (Bool-cases (addr.port == 0)) [
  | inl none_fixed ↦ ground (arith, h, none_fixed)
  | inr fixed ↦ elim (Bool-cases (ltb u16_max (addr.port + (n - 1)))) [
    | inl above ↦ ground (arith, h, fixed, above)
    | inr within ↦ ground (arith, fixed, within)
  ]
]

abbrev pub port_of : Option SocketAddr → ℕ
port_of none = 0
port_of (some addr) = addr.port

offset_port :
    (addr : SocketAddr) (n i : ℕ)
    → addr.port + (n - 1) ≤ u16_max
    → i < n
    → port_of (stream_bind_addr (some addr) true i) ≡ addr.port + i
unfolding stream_bind_addr
offset_port addr n i fits h = omega arith

-- The streams of a client with sequential ports each bind a port of their own, none of them zero or
-- above the largest port, once the ports were accepted.
pub stream_bind_addr-distinct :
    (addr b : SocketAddr) (n i j : ℕ)
    → sequential_bind_base (some addr) true n ≡ base (some b)
    → i < j
    → j < n
    → let port = λ (k : ℕ). port_of (stream_bind_addr (some addr) true k) in
      (port i ≢ port j) × (0 < port i) × (port j ≤ u16_max)
unfolding sequential_bind_base
stream_bind_addr-distinct addr b n i j h apart few =
    let (fixed, fits) = sequential_from_lem addr b n h in
    let first = offset_port addr n i fits (omega arith) in
    let second = offset_port addr n j fits few in
    (
      λ e. absurd (omega (arith, e, first, second)),
      omega (arith, first, fixed),
      omega (arith, second, fits),
    )

-- a TCP test bound to an address
abbrev pub tcp_config : SocketAddr → Bool → ℕ → PortConfig
tcp_config addr sequential streams = record {
  protocol = tcp;
  bind_addr = some addr;
  sequential_ports = sequential;
  streams = streams;
}

-- A control connection whose port was accepted has a port that no stream of a TCP test binds, be the
-- ports sequential or the same for all.
pub validate_tcp_control_port_apart :
    (addr b : SocketAddr) (sequential : Bool) (streams control_port i : ℕ)
    → addr.port ≢ 0
    → sequential_bind_base (some addr) sequential streams ≡ base (some b)
    → i < streams
    → validate_tcp_control_port control_port (tcp_config addr sequential streams) ≡ true
    → port_of (stream_bind_addr (some addr) sequential i) ≢ control_port
unfolding validate_tcp_control_port stream_bind_addr sequential_bind_base tcp_data_port_range
validate_tcp_control_port_apart addr b true streams control_port i fixed accepted few outside =
    let (pos, fits) = sequential_from_lem addr b streams accepted in
    let mine = offset_port addr streams i fits few in
    λ e. ground (arith, e, mine, fits, pos, few, outside)
validate_tcp_control_port_apart addr b false streams control_port i fixed accepted few outside =
    λ e. ground (arith, e, fixed, outside)
