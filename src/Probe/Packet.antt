-- ===== src/Probe/Packet.antt =====
-- src/probe.rs, `ProbePacket`: the wire format of the probe lane.
use xfr.Prelude.{
  ℕ, ◌+◌, ◌≤◌, ◌≡◌, ◌⊎◌, inl, inr, refl, Bool, false, not, ◌&&◌, ◌||◌, Option, none, some, List, [],
  ◌∷◌, ◌++◌, length, drop, length-drop, take, length-take, take-append, ap, ◌∙◌, ◌-◌, arith, get_or,
  ltb, ◌==◌, if◌then◌else◌,
}
use xfr.Prelude.Words.{u16_max, u32_max}
use xfr.Prelude.Bytes.{
  slice, copy_at, same_bytes, to_be_bytes, from_be_bytes, from_be_bytes-to_be_bytes,
}

-- b"XFRP"
abbrev pub probe_magic : List ℕ
probe_magic = b'X' ∷ b'F' ∷ b'R' ∷ b'P' ∷ []

abbrev pub probe_version : ℕ
probe_version = 1

abbrev pub probe_header_size : ℕ
probe_header_size = 16

abbrev pub probe_kind_probe : ℕ
probe_kind_probe = 1

abbrev pub probe_kind_ack : ℕ
probe_kind_ack = 2

abbrev pub probe_kind_echo : ℕ
probe_kind_echo = 3

pub record ProbePacket : Type 0 where
  pub kind : ℕ  -- u8
  pub seq : ℕ  -- u32
  pub declared_size : ℕ  -- u16

abbrev pub wire_len : ProbePacket → ℕ
wire_len p = if p.kind == probe_kind_ack then probe_header_size else p.declared_size

unfoldable pub encode_probe : ProbePacket → List ℕ → List ℕ × Option ℕ
encode_probe p buffer =
    if ltb (wire_len p) probe_header_size || ltb (length buffer) (wire_len p)
    then (buffer, none)
    else let b = copy_at 0 probe_magic buffer in
      let b = copy_at 4 (probe_version ∷ []) b in
      let b = copy_at 5 (p.kind ∷ []) b in
      let b = copy_at 6 (to_be_bytes 2 0) b in
      let b = copy_at 8 (to_be_bytes 4 p.seq) b in
      let b = copy_at 12 (to_be_bytes 2 p.declared_size) b in
      let b = copy_at 14 (to_be_bytes 2 0) b in (b, some (wire_len p))

-- The check of padded kinds: the declared size must fit the header and the datagram.
abbrev pub bad_padding : ℕ → ℕ → ℕ → Bool
bad_padding kind declared received =
    (kind == probe_kind_probe || kind == probe_kind_echo)
    && (ltb declared probe_header_size || ltb received declared)

unfoldable pub decode_probe : List ℕ → Option ProbePacket
decode_probe buffer =
    let kind = get_or buffer 5 0 in
    let declared_size = from_be_bytes (slice 12 14 buffer) in
    if ltb (length buffer) probe_header_size || not (same_bytes (slice 0 4 buffer) probe_magic)
    then none
    else if not (get_or buffer 4 0 == probe_version)
    then none
    else if not (kind == probe_kind_probe || kind == probe_kind_ack || kind == probe_kind_echo)
    then none
    else if bad_padding kind declared_size (length buffer)
    then none
    else some (record {
      kind = kind;
      seq = from_be_bytes (slice 8 12 buffer);
      declared_size = declared_size;
    })

abbrev pub IsKind : ℕ → Type 0
IsKind k = (k ≡ 1) ⊎ ((k ≡ 2) ⊎ (k ≡ 3))

-- The header of an encoded packet.
abbrev header_of : ProbePacket → List ℕ
header_of p =
    probe_magic
    ++ (probe_version ∷ p.kind ∷ to_be_bytes 2 0)
    ++ to_be_bytes 4 p.seq
    ++ to_be_bytes 2 p.declared_size
    ++ to_be_bytes 2 0

decode-header_of :
    (p : ProbePacket) (padding : List ℕ)
    → IsKind p.kind
    → p.seq ≤ u32_max
    → p.declared_size ≤ u16_max
    → 16 ≤ p.declared_size
    → (p.kind ≡ 2) ⊎ (p.declared_size ≡ 16 + length padding)
    → decode_probe (header_of p ++ padding) ≡ some p
unfolding decode_probe
decode-header_of p padding k s z lo fits =
    let seq_back = from_be_bytes-to_be_bytes 4 p.seq (omega arith) in
    let size_back = from_be_bytes-to_be_bytes 2 p.declared_size (omega arith) in
    rw (seq_back, size_back) (ground arith)

-- the untouched rest of the buffer
abbrev tail_of : List ℕ → List ℕ
tail_of buffer = drop 2 (drop 2 (drop 4 (drop 2 (drop 1 (drop 1 (drop 4 buffer))))))

length-tail_of :
    (buffer : List ℕ) → 16 ≤ length buffer → length (tail_of buffer) + 16 ≡ length buffer
length-tail_of buffer h = simp length-drop (omega arith)

-- A packet of any kind, encoded into a buffer with room for its declared size, is sent at its wire
-- length, 16 bytes for an ack and the declared size for a probe or an echo, and the datagram of
-- that length reads back.
pub decode-encode_probe :
    (p : ProbePacket) (buffer : List ℕ)
    → IsKind p.kind
    → p.seq ≤ u32_max
    → p.declared_size ≤ u16_max
    → 16 ≤ p.declared_size
    → p.declared_size ≤ length buffer
    → ((encode_probe p buffer).1 ≡ some (if p.kind == 2 then 16 else p.declared_size))
      × (decode_probe (take (wire_len p) (encode_probe p buffer).0) ≡ some p)
unfolding encode_probe
decode-encode_probe p buffer k s z lo room =
    let fits : (ltb (wire_len p) 16 || ltb (length buffer) (wire_len p)) ≡ false = ground arith in
    let at_least : 16 ≤ wire_len p = ground arith in
    let cut = take-append (wire_len p) (header_of p) (tail_of buffer) at_least in
    let size : (p.kind ≡ 2)
        ⊎ (p.declared_size ≡ 16 + length (take (wire_len p - 16) (tail_of buffer))) =
      elim k [
        | inl a ↦ inr (rw length-take (ground (arith, length-tail_of buffer)))
        | inr b ↦ elim b [
          | inl ack ↦ inl ack
          | inr echo ↦ inr (rw length-take (ground (arith, length-tail_of buffer)))
        ]
      ] in
    rw fits (
      refl,
      ap decode_probe cut
          ∙ decode-header_of p (take (wire_len p - 16) (tail_of buffer)) k s z lo size,
    )
