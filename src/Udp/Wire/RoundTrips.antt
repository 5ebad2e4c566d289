-- ===== src/Udp/Wire/RoundTrips.antt =====
-- Encoding and decoding of the data-plane packets.
use xfr.Prelude.{
  ◌⊎◌, length-append, take-append_exact, ℕ, ◌≤◌, ◌≡◌, refl, true, false, some, List, [], length,
  drop, arith, ltb, length-drop,
}
use xfr.Prelude.Words.{u16_max, u64_max}
use xfr.Prelude.Bytes.{from_be_bytes-to_be_bytes}
use xfr.Udp.Wire.{
  UdpPacketHeader, encode_header, decode_header, UdpFeedbackPacket, encode_feedback,
  decode_feedback, UdpHelloPacket, encode_hello, decode_hello,
}

-- A header written into a buffer reads back.
pub decode-encode_header :
    (p : UdpPacketHeader) (buffer : List ℕ)
    → p.sequence ≤ u64_max
    → p.timestamp_us ≤ u64_max
    → 16 ≤ length buffer
    → ((encode_header p buffer).1 ≡ true) × (decode_header (encode_header p buffer).0 ≡ some p)
unfolding encode_header decode_header
decode-encode_header p buffer s t room =
    let fits : ltb (length buffer) 16 ≡ false = ground arith in
    rw fits (
      refl,
      ground (
        arith,
        from_be_bytes-to_be_bytes 8 p.sequence (omega arith),
        from_be_bytes-to_be_bytes 8 p.timestamp_us (omega arith),
      ),
    )

-- A feedback packet written into a buffer of its exact size reads back, whatever the buffer held.
pub decode-encode_feedback :
    (p : UdpFeedbackPacket) (buffer : List ℕ)
    → p.stream_id ≤ u16_max
    → p.elapsed_ms ≤ u64_max
    → p.packets_received ≤ u64_max
    → p.packets_lost ≤ u64_max
    → length buffer ≡ 36
    → ((encode_feedback p buffer).1 ≡ true)
      × (decode_feedback (encode_feedback p buffer).0 ≡ some p)
unfolding encode_feedback decode_feedback
decode-encode_feedback p buffer s e r l size =
    let fits : ltb (length buffer) 36 ≡ false = ground arith in
    let rest : length
          (drop 8 (drop 8 (drop 8 (drop 2 (drop 2 (drop 2 (drop 1 (drop 1 (drop 4 buffer)))))))))
        ≡ 0 =
      simp length-drop (omega arith) in
    rw fits (
      refl,
      ground (
        arith,
        rest,
        from_be_bytes-to_be_bytes 2 p.stream_id (omega arith),
        from_be_bytes-to_be_bytes 8 p.elapsed_ms (omega arith),
        from_be_bytes-to_be_bytes 8 p.packets_received (omega arith),
        from_be_bytes-to_be_bytes 8 p.packets_lost (omega arith),
      ),
    )

-- A hello or ack packet reads back from its 24 bytes.
pub decode-encode_hello :
    (p : UdpHelloPacket)
    → (p.kind ≡ 1) ⊎ (p.kind ≡ 2)
    → p.stream_index ≤ u16_max
    → length p.token ≡ 16
    → decode_hello (encode_hello p) ≡ some p
unfolding encode_hello decode_hello
decode-encode_hello p k s t = rw t (
    ground (
      arith,
      length-append p.token [],
      take-append_exact 16 p.token [] t,
      from_be_bytes-to_be_bytes 2 p.stream_index (omega arith),
    ))
