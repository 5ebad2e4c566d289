-- ===== src/Protocol.antt =====
-- src/protocol.rs: version compatibility, capabilities, timestamp formats, the streams that carried
-- nothing, and the check of a TestAck. Text is a list of ASCII codes.
pub mod Versions
mod Examples
use xfr.Prelude.{
  ℕ, ◌+◌, ◌-◌, ◌*◌, Bool, true, false, not, ◌&&◌, ◌||◌, Option, none, some, List, [], ◌∷◌, ltb, leb,
  ◌==◌, if◌then◌else◌, min,
}
use xfr.Prelude.Words.{u8_max, u32_max}
use xfr.Prelude.Bytes.{same_bytes}

abbrev pub push_digit : ℕ → ℕ → Option ℕ
push_digit acc c =
    if leb b'0' c && leb c b'9' && leb (acc * 10 + (c - b'0')) u32_max
    then some (acc * 10 + (c - b'0'))
    else none

unfoldable pub parse_digits : Option ℕ → List ℕ → Option ℕ
parse_digits none s = none
parse_digits (some acc) [] = some acc
parse_digits (some acc) (c ∷ s) = parse_digits (push_digit acc c) s

-- str::parse::<u32>, which allows a leading plus sign
unfoldable pub parse_u32 : List ℕ → Option ℕ
parse_u32 [] = none
parse_u32 (c ∷ []) = parse_digits (some 0) (c ∷ [])
parse_u32 (c ∷ d ∷ s) =
    if c == b'+' then parse_digits (some 0) (d ∷ s) else parse_digits (some 0) (c ∷ d ∷ s)

abbrev pub cons_first : ℕ → List ℕ × List (List ℕ) → List ℕ × List (List ℕ)
cons_first c (first, parts) = (c ∷ first, parts)

abbrev pub new_part : List ℕ × List (List ℕ) → List ℕ × List (List ℕ)
new_part (first, parts) = ([], first ∷ parts)

-- version.split('.'): the first part and the others
unfoldable pub split_dots : List ℕ → List ℕ × List (List ℕ)
split_dots [] = ([], [])
split_dots (c ∷ s) =
    let rest = split_dots s in if c == b'.' then new_part rest else cons_first c rest

abbrev pub then_major : Option ℕ → Option ℕ → Option ℕ
then_major none major = none
then_major (some part) major = major

-- the loop over the other parts; an empty part does not parse
unfoldable pub check_parts : List (List ℕ) → Option ℕ → Option ℕ
check_parts [] major = major
check_parts (part ∷ parts) major = then_major (parse_u32 part) (check_parts parts major)

abbrev pub major_of : List ℕ × List (List ℕ) → Option ℕ
major_of (first, parts) = then_major (parse_u32 first) (check_parts parts (parse_u32 first))

unfoldable pub parse_protocol_major : List ℕ → Option ℕ
parse_protocol_major version = major_of (split_dots version)

abbrev pub same_major : Option ℕ → Option ℕ → Bool
same_major none b = false
same_major (some a) none = false
same_major (some a) (some b) = a == b

unfoldable pub versions_compatible : List ℕ → List ℕ → Bool
versions_compatible version_a version_b =
    same_major (parse_protocol_major version_a) (parse_protocol_major version_b)

unfoldable pub any_is : List ℕ → List (List ℕ) → Bool
any_is name [] = false
any_is name (c ∷ caps) = same_bytes c name || any_is name caps

unfoldable pub capability_advertised : Option (List (List ℕ)) → List ℕ → Bool
capability_advertised none name = false
capability_advertised (some caps) name = any_is name caps

-- SUPPORTED_CAPABILITIES is a parameter of the filter
unfoldable pub capabilities_without : List (List ℕ) → List ℕ → List (List ℕ)
capabilities_without [] excluded = []
capabilities_without (c ∷ caps) excluded =
    let rest = capabilities_without caps excluded in
    if not (same_bytes c excluded) then c ∷ rest else rest

pub data TimestampFormat : Type 0 where
  relative : TimestampFormat
  iso8601 : TimestampFormat
  unix : TimestampFormat

unfoldable pub next : TimestampFormat → TimestampFormat
next relative = iso8601
next iso8601 = unix
next unix = relative

unfoldable pub prev : TimestampFormat → TimestampFormat
prev relative = unix
prev iso8601 = relative
prev unix = iso8601

-- The fields that count_zero_byte_streams reads.
pub record StreamResult : Type 0 where
  pub bytes : ℕ
  pub bytes_sent : Option ℕ
  pub bytes_received : Option ℕ

abbrev pub is_zero : Option ℕ → Bool
is_zero none = false
is_zero (some n) = n == 0

unfoldable pub zero_byte_count : List StreamResult → ℕ
zero_byte_count [] = 0
zero_byte_count (s ∷ streams) =
    let rest = zero_byte_count streams in
    if s.bytes == 0 || is_zero s.bytes_sent || is_zero s.bytes_received then 1 + rest else rest

-- u8::try_from(n).unwrap_or(u8::MAX)
unfoldable pub count_zero_byte_streams : List StreamResult → ℕ
count_zero_byte_streams streams = min (zero_byte_count streams) u8_max

-- The fields of the message TestAck that its check reads.
pub record TestAck : Type 0 where
  pub data_ports : List ℕ
  pub udp_token : Option (List ℕ)

-- true is Ok
abbrev pub ack_ok : Option (List ℕ) → List ℕ → Bool
ack_ok none ports = true
ack_ok (some token) [] = true
ack_ok (some token) (p ∷ ports) = false

unfoldable pub validate_ack : TestAck → Bool
validate_ack a = ack_ok a.udp_token a.data_ports
