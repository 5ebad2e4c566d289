-- ===== src/Serve/Examples.antt =====
-- A test of two streams, and its first hello twice.
use mathlib.Core.List.{List-discrete}
use xfr.Prelude.Bytes.{same_bytes}
use xfr.Prelude.{
  if◌then◌else◌, get_or, ◌≢◌, ℕ, ◌≡◌, refl, arith, none, some, List, [], ◌∷◌, ap, inl, ℕ_discrete,
}
use xfr.Acl.{v4, normalize_ip}
use xfr.Udp.Wire.{UdpHelloPacket, encode_hello, decode_hello}
use xfr.Udp.Wire.RoundTrips.{decode-encode_hello}
use xfr.Serve.Hello.{
  Routes, UdpHelloRoute, create, resend_from, decided, dispatch, check_udp_hello, Event, received,
  registered, ended, after_all,
}
use xfr.Serve.Hello.Retries.{hello_retried}
use xfr.Serve.Timeouts.{ActiveTest}

abbrev route : UdpHelloRoute ℕ
route = record { control_peer_ip = v4 1; expected_streams = 2; sockets = none ∷ none ∷ [] }

abbrev test : ActiveTest
test = record { control_peer_ip = v4 1; expected_streams = 100 }

abbrev token : List ℕ
token = 1 ∷ 2 ∷ 3 ∷ 4 ∷ 5 ∷ 6 ∷ 7 ∷ 8 ∷ 9 ∷ 10 ∷ 11 ∷ 12 ∷ 13 ∷ 14 ∷ 15 ∷ 16 ∷ []

abbrev hello : UdpHelloPacket
hello = record { kind = 1; stream_index = 1; token = token }

abbrev routes : Routes ℕ
routes t = if same_bytes t token then some route else none

-- the token of another test
abbrev other : List ℕ
other = 9 ∷ 2 ∷ 3 ∷ 4 ∷ 5 ∷ 6 ∷ 7 ∷ 8 ∷ 9 ∷ 10 ∷ 11 ∷ 12 ∷ 13 ∷ 14 ∷ 15 ∷ 16 ∷ []

tokens_apart : token ≢ other
tokens_apart e = let heads : 1 ≡ 9 = ap (λ t. get_or t 0 0) e in absurd (omega (arith, heads))

hello_decoded : decode_hello (encode_hello hello) ≡ some hello
hello_decoded = decode-encode_hello hello (inl refl) (omega arith) refl

first_hello : dispatch routes (encode_hello hello) (v4 1) ≡ create token 1
unfolding dispatch check_udp_hello normalize_ip
first_hello = ap (decided routes (v4 1)) hello_decoded

-- Another test begins, its hello comes, the other stream gets its socket, and the other test ends.
abbrev busy : List (Event ℕ)
busy =
    registered other (v4 2) 1
    ∷ received (encode_hello (record { kind = 1; stream_index = 0; token = other })) (v4 2)
        (some 78)
    ∷ received (encode_hello (record { kind = 1; stream_index = 0; token = token })) (v4 1)
        (some 79)
    ∷ received (encode_hello hello) (v4 1) (some 80)
    ∷ ended other
    ∷ []

hello_retried_example :
    dispatch
      (after_all
        (List-discrete ℕ_discrete)
        (received (encode_hello hello) (v4 1) (some 77) ∷ busy)
        routes)
      (encode_hello hello)
      (v4 1)
    ≡ resend_from 77
hello_retried_example =
    hello_retried (List-discrete ℕ_discrete) routes route (encode_hello hello) hello (v4 1) 77 busy
      hello_decoded refl refl first_hello (tokens_apart, tt)
