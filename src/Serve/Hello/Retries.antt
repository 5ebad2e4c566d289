-- ===== src/Serve/Hello/Retries.antt =====
-- A hello that is sent again, among the other hellos and tests of the server.
use mathlib.Core.Logic.{if_pos, if_neg}
use xfr.Prelude.{
  ℕ, ◌<◌, ◌≡◌, ◌≢◌, refl, ap, sym, ◌∙◌, true, false, not, Option, none, some, List, [], ◌∷◌, length,
  get_elem?, set, get_elem?-set_self, get_elem?-set_ne, ◌==◌, if◌then◌else◌, arith,
}
use xfr.Acl.{IpAddr, normalize_ip}
use xfr.Udp.Wire.{UdpHelloPacket, decode_hello, udp_hello_kind_hello}
use xfr.Serve.Hello.{
  UdpHelloRoute, accept, resend, Action, create, resend_from, drop_hello, same_ip, has_socket,
  check_udp_hello, socket_at, resent, act, decided, dispatch, with_socket, store_socket,
  register_route, unless_vacant, remove_route, Routes, performed, Event, received, registered,
  ended, after, after_all,
}
use xfr.Serve.Hello.Decisions.{accepted_in, stored_route, act_creates, gate, created_fresh}

-- No event ends the test of the token.
abbrev pub StaysRegistered : {Socket : Type 0} → List ℕ → List (Event Socket) → Type 0
StaysRegistered token [] = Unit
StaysRegistered token (received bytes src_ip made ∷ events) = StaysRegistered token events
StaysRegistered token (registered candidate peer streams ∷ events) = StaysRegistered token events
StaysRegistered token (ended t ∷ events) = (token ≢ t) × StaysRegistered token events

module _ {Socket : Type 0} where
  -- The stream has its socket, and a hello for it from `src_ip` is answered from that.
  abbrev Holds : Routes Socket → List ℕ → ℕ → IpAddr → Socket → Type 0
  Holds routes token i src_ip socket =
      (route : UdpHelloRoute Socket) × (routes token ≡ some route)
      × (same_ip (normalize_ip src_ip) (normalize_ip route.control_peer_ip) ≡ true)
      × (i < route.expected_streams)
      × (get_elem? route.sockets i ≡ some (some socket))

  answered :
      (routes : Routes Socket) (bytes : List ℕ) (pkt : UdpHelloPacket) (src_ip : IpAddr)
      (socket : Socket)
      → decode_hello bytes ≡ some pkt
      → (pkt.kind == udp_hello_kind_hello) ≡ true
      → Holds routes pkt.token pkt.stream_index src_ip socket
      → dispatch routes bytes src_ip ≡ resend_from socket
  unfolding dispatch check_udp_hello
  answered routes bytes pkt src_ip socket d hello (route, found, from, below, stored) =
      let present : has_socket (get_elem? route.sockets pkt.stream_index) ≡ true =
        ap has_socket stored in
      let again : check_udp_hello (some route) pkt src_ip ≡ resend =
        ground (arith, from, below, present) in
      ap (decided routes src_ip) d
      ∙ ap
          (λ b.
            if not b
            then drop_hello
            else act (check_udp_hello (routes pkt.token) pkt src_ip) (routes pkt.token) pkt)
          hello
      ∙ ap (λ o. act (check_udp_hello o pkt src_ip) o pkt) found
      ∙ ap (λ v. act v (some route) pkt) again
      ∙ ap resent stored

  module _ (same : Discrete (List ℕ)) (token : List ℕ) (i : ℕ) (src_ip : IpAddr)
      (socket : Socket) where
    Holds-store_socket :
        (routes : Routes Socket) (t : List ℕ) (j : ℕ) (s : Socket)
        → has_socket (socket_at (routes t) j) ≡ false
        → Holds routes token i src_ip socket
        → Holds (store_socket same t j s routes) token i src_ip socket
    unfolding store_socket
    Holds-store_socket routes t j s fresh (route, found, from, below, stored) =
        elim (same token t) [
          | yes here ↦
              let there : socket_at (routes t) j ≡ get_elem? route.sockets j =
                ap (λ o. socket_at o j) (ap routes (sym here) ∙ found) in
              let apart : j ≢ i = λ e. absurd (
                let full : has_socket (get_elem? route.sockets j) ≡ true =
                  ap (λ x. has_socket (get_elem? route.sockets x)) e ∙ ap has_socket stored in
                let clash : true ≡ false = sym full ∙ ap has_socket (sym there) ∙ fresh in cc) in
              (
                record route { sockets = set route.sockets j (some s) },
                if_pos (same token t) here (with_socket j s (routes t)) (routes token)
                    ∙ ap (λ o. with_socket j s (routes o)) (sym here)
                    ∙ ap (with_socket j s) found,
                from,
                below,
                get_elem?-set_ne route.sockets (some s) apart ∙ stored,
              )
          | no elsewhere ↦ (
            route,
            if_neg (same token t) elsewhere (with_socket j s (routes t)) (routes token) ∙ found,
            from,
            below,
            stored,
          )
        ]

    Holds-performed :
        (routes : Routes Socket) (made : Option Socket) (a : Action Socket)
        → ((t : List ℕ) (j : ℕ) → a ≡ create t j → has_socket (socket_at (routes t) j) ≡ false)
        → Holds routes token i src_ip socket
        → Holds (performed same routes made a) token i src_ip socket
    Holds-performed routes made drop_hello fresh holds = holds
    Holds-performed routes made (resend_from s) fresh holds = holds
    Holds-performed routes none (create t j) fresh holds = holds
    Holds-performed routes (some s) (create t j) fresh holds =
        Holds-store_socket routes t j s (fresh t j refl) holds

    Holds-register_route :
        (routes : Routes Socket) (candidate : List ℕ) (peer : IpAddr) (streams : ℕ)
        → Holds routes token i src_ip socket
        → Holds (register_route same candidate peer streams routes) token i src_ip socket
    unfolding register_route
    Holds-register_route routes candidate peer streams (route, found, from, below, stored) = (
      route,
      (elim (same token candidate) [
        | yes here ↦
            if_pos (same token candidate) here (unless_vacant peer streams (routes token))
              (routes token)
            ∙ ap (unless_vacant peer streams) found
        | no elsewhere ↦
            if_neg (same token candidate) elsewhere (unless_vacant peer streams (routes token))
              (routes token)
            ∙ found
      ]),
      from,
      below,
      stored,
    )

    Holds-remove_route :
        (routes : Routes Socket) (t : List ℕ)
        → token ≢ t
        → Holds routes token i src_ip socket
        → Holds (remove_route same t routes) token i src_ip socket
    unfolding remove_route
    Holds-remove_route routes t elsewhere (route, found, from, below, stored) =
        (route, if_neg (same token t) elsewhere none (routes token) ∙ found, from, below, stored)

    Holds-after_all :
        (events : List (Event Socket)) (routes : Routes Socket)
        → StaysRegistered token events
        → Holds routes token i src_ip socket
        → Holds (after_all same events routes) token i src_ip socket
    unfolding after_all dispatch
    Holds-after_all [] routes stays holds = holds
    Holds-after_all (received bytes src made ∷ events) routes stays holds =
        Holds-after_all events (after same (received bytes src made) routes) stays (
          Holds-performed routes made (dispatch routes bytes src)
            (created_fresh routes (decode_hello bytes) src) holds)
    Holds-after_all (registered candidate peer streams ∷ events) routes stays holds =
        Holds-after_all events (after same (registered candidate peer streams) routes) stays
          (Holds-register_route routes candidate peer streams holds)
    Holds-after_all (ended t ∷ events) routes stays holds =
        Holds-after_all events (after same (ended t) routes) stays.1
          (Holds-remove_route routes t stays.0 holds)

  -- Once a hello has been accepted for a test with a slot for each of its streams, and its socket
  -- made, and for as long as the test does not end, the same hello from the same address is answered
  -- from that socket, so that it makes no second one, whatever hellos arrive and whatever other tests
  -- begin and end in between.
  pub hello_retried :
      (same : Discrete (List ℕ)) (routes : Routes Socket) (route : UdpHelloRoute Socket)
      (bytes : List ℕ) (pkt : UdpHelloPacket) (src_ip : IpAddr) (socket : Socket)
      (events : List (Event Socket))
      → decode_hello bytes ≡ some pkt
      → routes pkt.token ≡ some route
      → length route.sockets ≡ route.expected_streams
      → dispatch routes bytes src_ip ≡ create pkt.token pkt.stream_index
      → StaysRegistered pkt.token events
      → dispatch (after_all same (received bytes src_ip (some socket) ∷ events) routes) bytes src_ip
        ≡ resend_from socket
  unfolding after_all dispatch store_socket
  hello_retried same routes route bytes pkt src_ip socket events d r sized h stays =
      let seen = ap (decided routes src_ip) (sym d) ∙ h in
      let (hello, acted) =
        gate (pkt.kind == udp_hello_kind_hello)
          (act (check_udp_hello (routes pkt.token) pkt src_ip) (routes pkt.token) pkt) pkt.token
          pkt.stream_index seen in
      let accepted =
        act_creates (check_udp_hello (routes pkt.token) pkt src_ip) (routes pkt.token) pkt pkt.token
          pkt.stream_index acted in
      let first : check_udp_hello (some route) pkt src_ip ≡ accept =
        ap (λ o. check_udp_hello o pkt src_ip) (sym r) ∙ accepted in
      let (from, below, fresh) = accepted_in route pkt src_ip first in
      let stored = get_elem?-set_self route.sockets pkt.stream_index (some socket) (omega arith) in
      let now = store_socket same pkt.token pkt.stream_index socket routes in
      let start : Holds now pkt.token pkt.stream_index src_ip socket = (
        record route { sockets = set route.sockets pkt.stream_index (some socket) },
        stored_route same routes route pkt socket r,
        from,
        below,
        stored,
      ) in
      let later =
        Holds-after_all same pkt.token pkt.stream_index src_ip socket events now stays start in
      ap
        (λ a. dispatch (after_all same events (performed same routes (some socket) a)) bytes src_ip)
        h
      ∙ answered (after_all same events now) bytes pkt src_ip socket d hello later
