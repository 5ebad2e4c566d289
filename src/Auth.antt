-- ===== src/Auth.antt =====
-- src/auth.rs: the challenge and response under a pre-shared key, the constant-time comparison,
-- which src/control_crypto.rs repeats, and the key file's checks. HMAC-SHA256 and `str::trim` are
-- parameters; text is its UTF-8 bytes.
pub mod Comparison
pub mod KeyFile
pub mod Permissions
mod Examples
use Prim.Native.Nat.{bit_and, bit_or, bit_xor}
use xfr.Prelude.{
  ℕ, zero, suc, ◌/◌, ◌%◌, ◌⊎◌, inl, inr, Bool, true, false, not, ◌&&◌, Option, none, some, List, [],
  ◌∷◌, ◌++◌, length, get_or, max, ltb, ◌==◌, if◌then◌else◌,
}
use xfr.Prelude.Bytes.{copy_at, to_le_bytes, same_bytes}
use xfr.Udp.Token.{hex_digit}

-- result |= x ^ y for the indices i, i + 1, ... of `left` rounds
unfoldable pub scan : List ℕ → List ℕ → ℕ → ℕ → ℕ → ℕ
scan a b zero i result = result
scan a b (suc left) i result =
    scan a b left (suc i) (bit_or result (bit_xor (get_or a i 0) (get_or b i 0)))

unfoldable pub constant_time_eq : List ℕ → List ℕ → Bool
constant_time_eq a b =
    let len = max (length a) (length b) in
    bit_or (scan a b len 0 0) (if length a == length b then 0 else 1) == 0

-- bytes.iter().map(|b| format!("{:02x}", b)).collect()
unfoldable pub hex_encode : List ℕ → List ℕ
hex_encode [] = []
hex_encode (b ∷ bytes) = hex_digit (b / 16) ∷ hex_digit (b % 16) ∷ hex_encode bytes

-- HMAC-SHA256: key, message
module _ (hmac : List ℕ → List ℕ → List ℕ) where
  unfoldable pub compute_response_with_key : List ℕ → List ℕ → List ℕ
  compute_response_with_key nonce key = hex_encode (hmac key nonce)

  unfoldable pub verify_response_with_key : List ℕ → List ℕ → List ℕ → Bool
  verify_response_with_key nonce key response =
      constant_time_eq (compute_response_with_key nonce key) response

-- Rejecting any access by the group or others: true is Ok.
unfoldable pub require_owner_only_permissions : ℕ → Bool
require_owner_only_permissions mode = bit_and (bit_and mode 0o777) 0o077 == 0

-- the ACL of a systemd credential before the service's user is written into it
abbrev pub credential_acl : List ℕ
credential_acl =
    2 ∷ 0 ∷ 0 ∷ 0 ∷ 1 ∷ 0 ∷ 4 ∷ 0 ∷ 255 ∷ 255 ∷ 255 ∷ 255 ∷ 2 ∷ 0 ∷ 4 ∷ 0 ∷ 0 ∷ 0 ∷ 0 ∷ 0 ∷ 4 ∷ 0
    ∷ 0 ∷ 0 ∷ 255 ∷ 255 ∷ 255 ∷ 255 ∷ 16 ∷ 0 ∷ 4 ∷ 0 ∷ 255 ∷ 255 ∷ 255 ∷ 255 ∷ 32 ∷ 0 ∷ 0 ∷ 0 ∷ 255
    ∷ 255 ∷ 255 ∷ 255 ∷ []

unfoldable pub service_credential_permissions : ℕ → ℕ → Bool → List ℕ → ℕ → Bool
service_credential_permissions owner mode regular acl uid =
    let expected = copy_at 16 (to_le_bytes 4 uid) credential_acl in
    (owner == 0) && (bit_and mode 0o7777 == 0o440) && regular && same_bytes acl expected

-- What the open handle shows: its metadata, the access ACL if one fits the buffer whole, and the
-- text, none where reading fails.
pub record File : Type 0 where
  pub mode : ℕ
  pub owner : ℕ
  pub regular : Bool
  pub access_acl : Option (List ℕ)
  pub content : Option (List ℕ)

unfoldable pub is_service_credential : ℕ → File → Bool
is_service_credential euid file = elim file.access_acl [
  | none ↦ false
  | some acl ↦
      (length acl == 44)
      && service_credential_permissions file.owner file.mode file.regular acl euid
]

pub data PskError : Type 0 where
  open_failed : PskError
  overly_broad : ℕ → PskError
  read_failed : PskError
  too_long : ℕ → PskError
  empty_psk : PskError

abbrev pub max_psk_length : ℕ
max_psk_length = 1024

-- none is Ok
unfoldable pub validate_psk : List ℕ → Option PskError
validate_psk psk =
    if ltb max_psk_length (length psk)
    then some (too_long (length psk))
    else if length psk == 0
    then some empty_psk
    else none

abbrev pub validated : List ℕ → Option PskError → PskError ⊎ List ℕ
validated psk none = inr psk
validated psk (some e) = inl e

abbrev pub read_content : (List ℕ → List ℕ) → Option (List ℕ) → PskError ⊎ List ℕ
read_content trim none = inl read_failed
read_content trim (some content) = validated (trim content) (validate_psk (trim content))

-- On Linux: the file's handle, none where it cannot be opened, and the effective user.
unfoldable pub read_psk_file : (List ℕ → List ℕ) → ℕ → Option File → PskError ⊎ List ℕ
read_psk_file trim euid none = inl open_failed
read_psk_file trim euid (some file) =
    if not (require_owner_only_permissions file.mode) && not (is_service_credential euid file)
    then inl (overly_broad (bit_and file.mode 0o777))
    else read_content trim file.content

pub record AuthConfig : Type 0 where
  pub psk : Option (List ℕ)

unfoldable pub is_required : AuthConfig → Bool
is_required c = elim c.psk [ none ↦ false | some psk ↦ true ]

unfoldable pub validate : AuthConfig → Option PskError
validate c = elim c.psk [ none ↦ none | some psk ↦ validate_psk psk ]
