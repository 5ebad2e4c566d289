-- ===== src/Client/Examples.antt =====
-- A client bound to three ports, and the progress of two streams.
use xfr.Prelude.{ℕ, ◌≢◌, refl, true, none, some, List, [], ◌∷◌, arith}
use xfr.Acl.{v4}
use xfr.Cli.Address.{SocketAddr}
use xfr.Udp.Feedback.{UdpIntervalProgress}
use xfr.Client.Ports.{
  sequential_bind_base, stream_bind_addr, port_of, validate_tcp_control_port,
  validate_tcp_control_port_apart,
}
use xfr.Client.Progress.{apply_all, IsInOrder, apply_all-IsInOrder}

abbrev at_port : ℕ → SocketAddr
at_port port = record { ip = v4 0x7f000001; port = port }

abbrev fixed : (at_port 4000).port ≢ 0
fixed e = omega (arith, e)

validate_tcp_control_port_apart_example :
    port_of (stream_bind_addr (some (at_port 4000)) true 2) ≢ 4003
unfolding sequential_bind_base validate_tcp_control_port
validate_tcp_control_port_apart_example =
    validate_tcp_control_port_apart (at_port 4000) (at_port 4000) true 3 4003 2 fixed refl
      (omega arith) refl

abbrev seen : ℕ → ℕ → UdpIntervalProgress
seen received lost = record { packets_received = received; packets_lost = lost }

apply_all-IsInOrder_example : IsInOrder (apply_all none (seen 5 1 ∷ seen 4 2 ∷ seen 6 0 ∷ []))
apply_all-IsInOrder_example = apply_all-IsInOrder none (seen 5 1 ∷ seen 4 2 ∷ seen 6 0 ∷ [])

abbrev reports : List (List ℕ)
reports = (10 ∷ 20 ∷ []) ∷ (15 ∷ 20 ∷ []) ∷ []
