-- ===== src/Udp/Wire/Lanes.antt =====
-- Which lane a datagram falls into: the hello, QUIC, data and feedback framings.
use Prim.Native.Nat.{bit_and}
use xfr.Prelude.{
  ℕ, ◌*◌, ◌%◌, ◌^◌, ◌≤◌, ◌<◌, ◌≡◌, ◌↔◌, false, not, none, some, List, ◌∷◌, length, arith, ltb, ◌==◌,
}
use xfr.Prelude.Bits.{bit_at, bit_and-single}
use xfr.Udp.Wire.{
  UdpHelloPacket, decode_hello, xfr_hello, quic, classify_first, classify_shared_datagram,
  UdpPacketHeader, encode_header, decode_feedback,
}

-- Every datagram that the hello decoder accepts is diverted to the hello dispatcher.
pub classify-decode_hello :
    (datagram : List ℕ) (p : UdpHelloPacket)
    → decode_hello datagram ≡ some p
    → classify_shared_datagram datagram ≡ xfr_hello
unfolding decode_hello classify_shared_datagram
classify-decode_hello datagram p h = ground arith

first_byte_bits :
    (b : ℕ)
    → b < 256
    → ((bit_and b 128 == 0) ≡ ltb (b % 256) 128) × ((bit_and b 64 == 0) ≡ ltb (b % 128) 64)
unfolding bit_at
first_byte_bits b h =
    let high : (bit_and b (2 ^ 7) == 0) ≡ not (bit_at b 7) = bit_and-single 7 b in
    let next : (bit_and b (2 ^ 6) == 0) ≡ not (bit_at b 6) = bit_and-single 6 b in
    (ground (arith, high), ground (arith, next))

-- A nonempty datagram goes to the QUIC endpoint exactly when one of the two top bits of its first
-- byte is set, so a hello never does.
pub classify-quic :
    (b : ℕ) (rest : List ℕ) → b < 256 → (classify_shared_datagram (b ∷ rest) ≡ quic) ↔ (64 ≤ b)
unfolding classify_shared_datagram classify_first
classify-quic b rest h =
    let (high, next) = first_byte_bits b h in
    (λ q. ground (arith, high, next), λ q. ground (arith, high, next))

-- A data packet is never read as feedback, at any payload size, while its sequence is below
-- 0x58465246 * 2^32, the value that would spell the feedback magic in its first four bytes.
pub decode_feedback-encode_header :
    (p : UdpPacketHeader) (buffer : List ℕ)
    → p.sequence < 0x58465246 * 2 ^ 32
    → 16 ≤ length buffer
    → decode_feedback (encode_header p buffer).0 ≡ none
unfolding encode_header decode_feedback
decode_feedback-encode_header p buffer s room =
    let fits : ltb (length buffer) 16 ≡ false = ground arith in rw fits (ground arith)
