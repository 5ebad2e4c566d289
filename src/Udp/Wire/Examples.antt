-- ===== src/Udp/Wire/Examples.antt =====
-- Packets of the data plane at concrete values.
use xfr.Prelude.{ℕ, ◌≤◌, ◌≡◌, ◌↔◌, refl, true, some, List, [], ◌∷◌, replicate, arith}
use xfr.Udp.Wire.{
  UdpPacketHeader, UdpFeedbackPacket, encode_feedback, decode_feedback, UdpHelloPacket,
  classify_shared_datagram, quic,
}
use xfr.Udp.Wire.RoundTrips.{decode-encode_feedback}
use xfr.Udp.Wire.Lanes.{classify-quic}
use xfr.Udp.Token.{parse_hello_token, parse_hello_token-plus, with_plus_signs, hex_value}

abbrev header : UdpPacketHeader
header = record { sequence = 70_000; timestamp_us = 1_234_567 }

abbrev packet : List ℕ
packet = replicate 36 0

abbrev feedback : UdpFeedbackPacket
feedback = record { stream_id = 3; elapsed_ms = 500; packets_received = 9_000; packets_lost = 12 }

decode-encode_feedback_example :
    ((encode_feedback feedback packet).1 ≡ true)
    × (decode_feedback (encode_feedback feedback packet).0 ≡ some feedback)
decode-encode_feedback_example =
    decode-encode_feedback feedback packet (omega arith) (omega arith) (omega arith) (omega arith)
      refl

abbrev token : List ℕ
token = replicate 16 0xa7

abbrev hello : UdpHelloPacket
hello = record { kind = 1; stream_index = 2; token = token }

classify-quic_example : (classify_shared_datagram (0xc3 ∷ []) ≡ quic) ↔ (64 ≤ 0xc3)
classify-quic_example = classify-quic 0xc3 [] (omega arith)

abbrev sevens : List ℕ
sevens = replicate 16 b'7'

parse_hello_token-plus_example : parse_hello_token (with_plus_signs sevens) ≡ some (replicate 16 7)
unfolding hex_value
parse_hello_token-plus_example =
    parse_hello_token-plus sevens (replicate 16 7)
      (
        refl,
        (
          refl,
          (
            refl,
            (
              refl,
              (
                refl,
                (
                  refl,
                  (
                    refl,
                    (refl, (refl, (refl, (refl, (refl, (refl, (refl, (refl, (refl, tt))))))))),
                  ),
                ),
              ),
            ),
          ),
        ),
      )
      refl
