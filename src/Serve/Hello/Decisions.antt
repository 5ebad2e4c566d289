-- ===== src/Serve/Hello/Decisions.antt =====
-- What an action of the hello dispatcher says of the route that it was decided on.
use mathlib.Core.Logic.{if_pos}
use xfr.Prelude.{
  ℕ, ◌<◌, ◌≡◌, refl, ap, sym, ◌∙◌, Bool, true, false, not, Option, none, some, List, get_elem?, set,
  ◌==◌, if◌then◌else◌, arith,
}
use xfr.Acl.{IpAddr, normalize_ip}
use xfr.Udp.Wire.{UdpHelloPacket, udp_hello_kind_hello}
use xfr.Serve.Hello.{
  UdpHelloRoute, UdpHelloVerdict, accept, resend, unknown_token, ip_mismatch, bad_stream_index,
  Action, create, drop_hello, same_ip, has_socket, check_udp_hello, socket_at, resent, act, decided,
  with_socket, store_socket, Routes,
}

module _ {Socket : Type 0} where
  pub accepted_in :
      (route : UdpHelloRoute Socket) (pkt : UdpHelloPacket) (src_ip : IpAddr)
      → check_udp_hello (some route) pkt src_ip ≡ accept
      → (same_ip (normalize_ip src_ip) (normalize_ip route.control_peer_ip) ≡ true)
        × (pkt.stream_index < route.expected_streams)
        × (has_socket (get_elem? route.sockets pkt.stream_index) ≡ false)
  unfolding check_udp_hello
  accepted_in route pkt src_ip h = ground arith

  resent_only :
      (o : Option (Option Socket)) (token : List ℕ) (i : ℕ) → resent o ≡ create token i → ⊥
  resent_only none token i h = cc
  resent_only (some none) token i h = cc
  resent_only (some (some s)) token i h = cc

  pub stored_route :
      (same : Discrete (List ℕ)) (routes : List ℕ → Option (UdpHelloRoute Socket))
      (route : UdpHelloRoute Socket) (pkt : UdpHelloPacket) (socket : Socket)
      → routes pkt.token ≡ some route
      → store_socket same pkt.token pkt.stream_index socket routes pkt.token
        ≡ some (record route { sockets = set route.sockets pkt.stream_index (some socket) })
  unfolding store_socket
  stored_route same routes route pkt socket r =
      if_pos (same pkt.token pkt.token) refl
        (with_socket pkt.stream_index socket (routes pkt.token)) (routes pkt.token)
      ∙ ap (with_socket pkt.stream_index socket) r

  pub act_creates :
      (v : UdpHelloVerdict) (route : Option (UdpHelloRoute Socket)) (pkt : UdpHelloPacket)
      (token : List ℕ) (i : ℕ)
      → act v route pkt ≡ create token i
      → v ≡ accept
  act_creates accept route pkt token i h = refl
  act_creates resend route pkt token i h =
      absurd (resent_only (socket_at route pkt.stream_index) token i h)
  act_creates unknown_token route pkt token i h = absurd cc
  act_creates ip_mismatch route pkt token i h = absurd cc
  act_creates bad_stream_index route pkt token i h = absurd cc

  pub gate :
      (b : Bool) (next : Action Socket) (token : List ℕ) (i : ℕ)
      → (if not b then drop_hello else next) ≡ create token i
      → (b ≡ true) × (next ≡ create token i)
  gate true next token i h = (refl, h)
  gate false next token i h = absurd cc

  fresh_for :
      (o : Option (UdpHelloRoute Socket)) (pkt : UdpHelloPacket) (src_ip : IpAddr)
      → check_udp_hello o pkt src_ip ≡ accept
      → has_socket (socket_at o pkt.stream_index) ≡ false
  unfolding check_udp_hello
  fresh_for none pkt src_ip h = absurd cc
  fresh_for (some route) pkt src_ip h = (accepted_in route pkt src_ip h).2

  -- A socket is made only for a stream that has none.
  pub created_fresh :
      (routes : Routes Socket) (o : Option UdpHelloPacket) (src_ip : IpAddr) (token : List ℕ)
      (i : ℕ)
      → decided routes src_ip o ≡ create token i
      → has_socket (socket_at (routes token) i) ≡ false
  created_fresh routes none src_ip token i h = absurd cc
  created_fresh routes (some pkt) src_ip token i h =
      let (hello, acted) =
        gate (pkt.kind == udp_hello_kind_hello)
          (act (check_udp_hello (routes pkt.token) pkt src_ip) (routes pkt.token) pkt) token i h in
      let v = check_udp_hello (routes pkt.token) pkt src_ip in
      let accepted : v ≡ accept = act_creates v (routes pkt.token) pkt token i acted in
      let first : Action Socket = create pkt.token pkt.stream_index in
      let made : first ≡ create token i =
        ap (λ w. act w (routes pkt.token) pkt) (sym accepted) ∙ acted in
      let same_token : pkt.token ≡ token = cc in
      let same_index : pkt.stream_index ≡ i = cc in
      ap (λ t. has_socket (socket_at (routes t) i)) (sym same_token)
      ∙ ap (λ j. has_socket (socket_at (routes pkt.token) j)) (sym same_index)
      ∙ fresh_for (routes pkt.token) pkt src_ip accepted
