-- ===== src/Udp/Wire.antt =====
-- src/udp.rs: the packets of the data plane. Buffers are lists of bytes; an `encode` into a
-- buffer returns the buffer that it leaves and its verdict. A slice past the end of its buffer is cut
-- short, where the source would panic.
pub mod RoundTrips
pub mod Lanes
mod Examples
use Prim.Native.Nat.{bit_and}
use xfr.Prelude.{
  ℕ, ◌+◌, Bool, true, false, not, ◌&&◌, ◌||◌, Option, none, some, List, [], ◌∷◌, ◌++◌, length,
  replicate, get_or, ltb, leb, ◌==◌, if◌then◌else◌,
}
use xfr.Prelude.Bytes.{slice, copy_at, same_bytes, to_be_bytes, from_be_bytes}

abbrev pub udp_header_size : ℕ
udp_header_size = 16

abbrev pub max_udp_payload_size : ℕ
max_udp_payload_size = 65_507

-- true where the source returns Ok
unfoldable pub validate_payload_size : ℕ → Bool
validate_payload_size size = leb udp_header_size size && leb size max_udp_payload_size

abbrev pub udp_feedback_size : ℕ
udp_feedback_size = 36

-- b"XFRF"
abbrev pub udp_feedback_magic : List ℕ
udp_feedback_magic = b'X' ∷ b'F' ∷ b'R' ∷ b'F' ∷ []

abbrev pub udp_feedback_version : ℕ
udp_feedback_version = 1

abbrev pub udp_feedback_kind_receiver_progress : ℕ
udp_feedback_kind_receiver_progress = 1

pub record UdpFeedbackPacket : Type 0 where
  pub stream_id : ℕ  -- u16
  pub elapsed_ms : ℕ  -- u64
  pub packets_received : ℕ  -- u64
  pub packets_lost : ℕ  -- u64

unfoldable pub encode_feedback : UdpFeedbackPacket → List ℕ → List ℕ × Bool
encode_feedback p buffer =
    if ltb (length buffer) udp_feedback_size
    then (buffer, false)
    else let b = copy_at 0 udp_feedback_magic buffer in
      let b = copy_at 4 (udp_feedback_version ∷ []) b in
      let b = copy_at 5 (udp_feedback_kind_receiver_progress ∷ []) b in
      let b = copy_at 6 (to_be_bytes 2 0) b in
      let b = copy_at 8 (to_be_bytes 2 p.stream_id) b in
      let b = copy_at 10 (to_be_bytes 2 0) b in
      let b = copy_at 12 (to_be_bytes 8 p.elapsed_ms) b in
      let b = copy_at 20 (to_be_bytes 8 p.packets_received) b in
      let b = copy_at 28 (to_be_bytes 8 p.packets_lost) b in (b, true)

unfoldable pub decode_feedback : List ℕ → Option UdpFeedbackPacket
decode_feedback buffer =
    if not (length buffer == udp_feedback_size)
    then none
    else if not (same_bytes (slice 0 4 buffer) udp_feedback_magic)
    then none
    else if not (get_or buffer 4 0 == udp_feedback_version)
    then none
    else if not (get_or buffer 5 0 == udp_feedback_kind_receiver_progress)
    then none
    else some (record {
      stream_id = from_be_bytes (slice 8 10 buffer);
      elapsed_ms = from_be_bytes (slice 12 20 buffer);
      packets_received = from_be_bytes (slice 20 28 buffer);
      packets_lost = from_be_bytes (slice 28 36 buffer);
    })

-- b"\x00XFR"
abbrev pub udp_hello_magic : List ℕ
udp_hello_magic = 0 ∷ b'X' ∷ b'F' ∷ b'R' ∷ []

abbrev pub udp_hello_size : ℕ
udp_hello_size = 24

abbrev pub udp_hello_version : ℕ
udp_hello_version = 1

abbrev pub udp_hello_kind_hello : ℕ
udp_hello_kind_hello = 1

abbrev pub udp_hello_kind_ack : ℕ
udp_hello_kind_ack = 2

abbrev pub udp_hello_token_len : ℕ
udp_hello_token_len = 16

pub record UdpHelloPacket : Type 0 where
  pub kind : ℕ  -- u8
  pub stream_index : ℕ  -- u16
  pub token : List ℕ  -- [u8; 16]

unfoldable pub encode_hello : UdpHelloPacket → List ℕ
encode_hello p =
    let b = replicate udp_hello_size 0 in
    let b = copy_at 0 udp_hello_magic b in
    let b = copy_at 4 (udp_hello_version ∷ []) b in
    let b = copy_at 5 (p.kind ∷ []) b in
    let b = copy_at 6 (to_be_bytes 2 p.stream_index) b in copy_at 8 p.token b

unfoldable pub decode_hello : List ℕ → Option UdpHelloPacket
decode_hello buffer =
    let kind = get_or buffer 5 0 in
    if not (length buffer == udp_hello_size)
    then none
    else if not (same_bytes (slice 0 4 buffer) udp_hello_magic)
    then none
    else if not (get_or buffer 4 0 == udp_hello_version)
    then none
    else if not (kind == udp_hello_kind_hello || kind == udp_hello_kind_ack)
    then none
    else some (record {
      kind = kind;
      stream_index = from_be_bytes (slice 6 8 buffer);
      token = slice 8 24 buffer;
    })

pub data SharedSocketLane : Type 0 where
  xfr_hello quic xfr_stray : SharedSocketLane

-- the match on `datagram.first()`
unfoldable pub classify_first : List ℕ → SharedSocketLane
classify_first [] = xfr_stray
classify_first (b ∷ rest) =
    if not (bit_and b 0x80 == 0)
    then quic
    else if not (bit_and b 0x40 == 0)
    then quic
    else xfr_stray

unfoldable pub classify_shared_datagram : List ℕ → SharedSocketLane
classify_shared_datagram datagram =
    if length datagram == udp_hello_size && same_bytes (slice 0 4 datagram) udp_hello_magic
    then xfr_hello
    else classify_first datagram

pub record UdpPacketHeader : Type 0 where
  pub sequence : ℕ  -- u64
  pub timestamp_us : ℕ  -- u64

unfoldable pub encode_header : UdpPacketHeader → List ℕ → List ℕ × Bool
encode_header p buffer =
    if ltb (length buffer) udp_header_size
    then (buffer, false)
    else let b = copy_at 0 (to_be_bytes 8 p.sequence) buffer in
      let b = copy_at 8 (to_be_bytes 8 p.timestamp_us) b in (b, true)

unfoldable pub decode_header : List ℕ → Option UdpPacketHeader
decode_header buffer =
    if ltb (length buffer) udp_header_size
    then none
    else some (record {
      sequence = from_be_bytes (slice 0 8 buffer);
      timestamp_us = from_be_bytes (slice 8 16 buffer);
    })
