-- ===== src/Serve/Hello.antt =====
-- src/serve.rs, `check_udp_hello` and the dispatcher of single-port UDP hellos: a hello is decided
-- on under the lock, the socket made outside it, and the socket stored under the lock again. Tests
-- register their routes beside it and remove them. The routes are a function from tokens, and making
-- a socket is the network's.
pub mod Decisions
pub mod Retries
use mathlib.Core.Logic.{ite}
use xfr.Prelude.{
  replicate, ◌∷◌, [], ℕ, ◌<◌, ◌≡◌, refl, ap, sym, ◌∙◌, Bool, true, false, not, Option, none, some,
  List, length, get_elem?, set, get_elem?-set_self, leb, ◌==◌, if◌then◌else◌, arith,
}
use xfr.Acl.{IpAddr, v4, v6, normalize_ip}
use xfr.Udp.Wire.{UdpHelloPacket, decode_hello, udp_hello_kind_hello}

-- The fields that the checks and the dedupe read. The channel, the local address and the buffer
-- size go to the socket calls, and the statistics count their errors.
pub record UdpHelloRoute (Socket : Type 0) : Type 0 where
  pub control_peer_ip : IpAddr
  pub expected_streams : ℕ  -- u8
  pub sockets : List (Option Socket)

pub data UdpHelloVerdict : Type 0 where
  accept : UdpHelloVerdict
  resend : UdpHelloVerdict
  unknown_token : UdpHelloVerdict
  ip_mismatch : UdpHelloVerdict
  bad_stream_index : UdpHelloVerdict

-- what the dispatcher does after the verdict
pub data Action (Socket : Type 0) : Type 0 where
  create : List ℕ → ℕ → Action Socket  -- token, stream index
  resend_from : Socket → Action Socket
  drop_hello : Action Socket

abbrev pub Routes : Type 0 → Type 0
Routes Socket = List ℕ → Option (UdpHelloRoute Socket)

abbrev pub same_ip : IpAddr → IpAddr → Bool
same_ip (v4 a) (v4 b) = a == b
same_ip (v4 a) (v6 b) = false
same_ip (v6 a) (v4 b) = false
same_ip (v6 a) (v6 b) = a == b

module _ {Socket : Type 0} where
  abbrev pub has_socket : Option (Option Socket) → Bool
  has_socket none = false
  has_socket (some none) = false
  has_socket (some (some s)) = true

  unfoldable pub check_udp_hello :
      Option (UdpHelloRoute Socket) → UdpHelloPacket → IpAddr → UdpHelloVerdict
  check_udp_hello none pkt src_ip = unknown_token
  check_udp_hello (some route) pkt src_ip =
      if not (same_ip (normalize_ip src_ip) (normalize_ip route.control_peer_ip))
      then ip_mismatch
      else if leb route.expected_streams pkt.stream_index
      then bad_stream_index
      else if has_socket (get_elem? route.sockets pkt.stream_index)
      then resend
      else accept

  abbrev pub socket_at : Option (UdpHelloRoute Socket) → ℕ → Option (Option Socket)
  socket_at none i = none
  socket_at (some route) i = get_elem? route.sockets i

  abbrev pub resent : Option (Option Socket) → Action Socket
  resent none = drop_hello
  resent (some none) = drop_hello
  resent (some (some s)) = resend_from s

  abbrev pub act : UdpHelloVerdict → Option (UdpHelloRoute Socket) → UdpHelloPacket → Action Socket
  act accept route pkt = create pkt.token pkt.stream_index
  act resend route pkt = resent (socket_at route pkt.stream_index)
  act unknown_token route pkt = drop_hello
  act ip_mismatch route pkt = drop_hello
  act bad_stream_index route pkt = drop_hello

  abbrev pub decided :
      (List ℕ → Option (UdpHelloRoute Socket)) → IpAddr → Option UdpHelloPacket → Action Socket
  decided routes src_ip none = drop_hello
  decided routes src_ip (some pkt) =
      if not (pkt.kind == udp_hello_kind_hello)
      then drop_hello
      else act (check_udp_hello (routes pkt.token) pkt src_ip) (routes pkt.token) pkt

  -- one received datagram, up to the action
  unfoldable pub dispatch :
      (List ℕ → Option (UdpHelloRoute Socket)) → List ℕ → IpAddr → Action Socket
  dispatch routes data_bytes src_ip = decided routes src_ip (decode_hello data_bytes)

  abbrev pub with_socket :
      ℕ → Socket → Option (UdpHelloRoute Socket) → Option (UdpHelloRoute Socket)
  with_socket i socket none = none
  with_socket i socket (some route) =
      some (record route { sockets = set route.sockets i (some socket) })

  -- the socket stored, if the test has not ended in the meantime
  unfoldable pub store_socket :
      Discrete (List ℕ)
      → List ℕ
      → ℕ
      → Socket
      → (List ℕ → Option (UdpHelloRoute Socket))
      → List ℕ
      → Option (UdpHelloRoute Socket)
  store_socket same token i socket routes t =
      ite (same t token) (with_socket i socket (routes token)) (routes t)

  abbrev pub unless_vacant :
      IpAddr → ℕ → Option (UdpHelloRoute Socket) → Option (UdpHelloRoute Socket)
  unless_vacant peer streams (some route) = some route
  unless_vacant peer streams none = some (record {
    control_peer_ip = peer;
    expected_streams = streams;
    sockets = replicate streams none;
  })

  -- a test's route, under a token that is vacant
  unfoldable pub register_route :
      Discrete (List ℕ)
      → List ℕ
      → IpAddr
      → ℕ
      → (List ℕ → Option (UdpHelloRoute Socket))
      → List ℕ
      → Option (UdpHelloRoute Socket)
  register_route same candidate peer streams routes t =
      ite (same t candidate) (unless_vacant peer streams (routes t)) (routes t)

  -- `UdpRouteGuard::drop`
  unfoldable pub remove_route :
      Discrete (List ℕ)
      → List ℕ
      → (List ℕ → Option (UdpHelloRoute Socket))
      → List ℕ
      → Option (UdpHelloRoute Socket)
  remove_route same token routes t = ite (same t token) none (routes t)

  -- the socket made for the action, none where that fails
  abbrev pub performed :
      Discrete (List ℕ) → Routes Socket → Option Socket → Action Socket → Routes Socket
  performed same routes made drop_hello = routes
  performed same routes made (resend_from s) = routes
  performed same routes none (create token i) = routes
  performed same routes (some socket) (create token i) = store_socket same token i socket routes

-- A datagram that the dispatcher takes, with its source and the socket made if one is asked for,
-- or a test that begins or ends beside it. What happens between a decision and the store of its
-- socket stands after them.
pub data Event (Socket : Type 0) : Type 0 where
  received : List ℕ → IpAddr → Option Socket → Event Socket
  registered : List ℕ → IpAddr → ℕ → Event Socket
  ended : List ℕ → Event Socket

module _ {Socket : Type 0} (same : Discrete (List ℕ)) where
  unfoldable pub after : Event Socket → Routes Socket → Routes Socket
  after (received data_bytes src_ip made) routes =
      performed same routes made (dispatch routes data_bytes src_ip)
  after (registered candidate peer streams) routes =
      register_route same candidate peer streams routes
  after (ended token) routes = remove_route same token routes

  unfoldable pub after_all : List (Event Socket) → Routes Socket → Routes Socket
  unfolding after
  after_all [] routes = routes
  after_all (e ∷ events) routes = after_all events (after e routes)
