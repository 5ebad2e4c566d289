-- ===== src/Serve/Timeouts.antt =====
-- src/serve.rs: how long a peer's first line is waited for, when a byte-budget test is complete,
-- and how long it drains. The active tests are the values of the server's map.
use xfr.Prelude.{
  ℕ, ◌*◌, ◌≤◌, ◌≡◌, ap, sym, ◌∙◌, min, max, Bool, true, ◌&&◌, ◌||◌, List, [], ◌∷◌, get_elem?, some,
  zero, suc, ltb, if◌then◌else◌, arith,
}
use xfr.Prelude.Words.{saturating_mul}
use xfr.Acl.{IpAddr, normalize_ip}
use xfr.Serve.Hello.{same_ip}

-- milliseconds
abbrev pub initial_read_timeout : ℕ
initial_read_timeout = 5_000

abbrev pub initial_read_timeout_per_stream_ms : ℕ
initial_read_timeout_per_stream_ms = 80

abbrev pub initial_read_timeout_max : ℕ
initial_read_timeout_max = 20_000

-- The fields that the timeout reads.
pub record ActiveTest : Type 0 where
  pub control_peer_ip : IpAddr
  pub expected_streams : ℕ  -- u8

-- filter, map, max, unwrap_or(0)
unfoldable pub max_streams : List ActiveTest → IpAddr → ℕ
max_streams [] peer_ip = 0
max_streams (t ∷ tests) peer_ip =
    let rest = max_streams tests peer_ip in
    if same_ip (normalize_ip t.control_peer_ip) peer_ip then max t.expected_streams rest else rest

unfoldable pub initial_read_timeout_for_peer : List ActiveTest → IpAddr → ℕ
initial_read_timeout_for_peer tests peer_ip =
    let scaled =
      saturating_mul (max_streams tests (normalize_ip peer_ip))
        initial_read_timeout_per_stream_ms in
    let timeout = if ltb initial_read_timeout scaled then scaled else initial_read_timeout in
    min timeout initial_read_timeout_max

pub data TestDirection : Type 0 where
  upload : TestDirection
  download : TestDirection
  bidir : TestDirection

unfoldable pub budget_transfer_complete : TestDirection → Bool → Bool → Bool
budget_transfer_complete upload client_finished server_send_done = client_finished
budget_transfer_complete download client_finished server_send_done = server_send_done
budget_transfer_complete bidir client_finished server_send_done =
    client_finished && server_send_done

pub data Protocol : Type 0 where
  tcp : Protocol
  udp : Protocol
  quic : Protocol

unfoldable pub finish_drain_grace : Protocol → ℕ
finish_drain_grace udp = 250
finish_drain_grace tcp = 10_000
finish_drain_grace quic = 10_000

unfoldable pub server_data_nodelay : Bool → Bool
server_data_nodelay client_requested = client_requested || true

max_streams-bound :
    (tests : List ActiveTest) (peer_ip : IpAddr) (i : ℕ) (t : ActiveTest)
    → get_elem? tests i ≡ some t
    → same_ip (normalize_ip t.control_peer_ip) peer_ip ≡ true
    → t.expected_streams ≤ max_streams tests peer_ip
unfolding max_streams
max_streams-bound [] peer_ip i t e h = absurd cc
max_streams-bound (u ∷ tests) peer_ip zero t e h =
    let same : u ≡ t = cc in
    let here : same_ip (normalize_ip u.control_peer_ip) peer_ip ≡ true =
      ap (λ v. same_ip (normalize_ip v.control_peer_ip) peer_ip) same ∙ h in
    let streams : t.expected_streams ≡ u.expected_streams =
      ap (λ v. v.expected_streams) (sym same) in
    ground (arith, here, streams)
max_streams-bound (u ∷ tests) peer_ip (suc i) t e h =
    ground (arith, max_streams-bound tests peer_ip i t e h)

-- The wait for a first line is between 5 and 20 seconds, and at least 80 ms for each stream of
-- every active test of the peer, up to those 20 seconds.
pub initial_read_timeout_lem :
    (tests : List ActiveTest) (peer_ip : IpAddr) (i : ℕ) (t : ActiveTest)
    → get_elem? tests i ≡ some t
    → same_ip (normalize_ip t.control_peer_ip) (normalize_ip peer_ip) ≡ true
    → let timeout = initial_read_timeout_for_peer tests peer_ip in
      (initial_read_timeout ≤ timeout)
      × (timeout ≤ initial_read_timeout_max)
      × (min (t.expected_streams * initial_read_timeout_per_stream_ms) initial_read_timeout_max
          ≤ timeout)
unfolding initial_read_timeout_for_peer
initial_read_timeout_lem tests peer_ip i t e h =
    ground (arith, max_streams-bound tests (normalize_ip peer_ip) i t e h)
