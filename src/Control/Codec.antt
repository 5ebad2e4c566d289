-- ===== src/Control/Codec.antt =====
-- src/control_crypto.rs, `ControlCodec`: one direction of the protected channel. The cipher is the
-- ChaCha20-Poly1305 of the `chacha20poly1305` crate, a parameter.
pub mod Security
use xfr.Prelude.{
  ℕ, ◌+◌, ◌≤◌, ◌≡◌, ◌⊎◌, inl, inr, Bool, not, Option, none, some, List, [], ◌∷◌, ◌++◌, length, take,
  drop, ◌==◌, ltb, if◌then◌else◌, replicate,
}
use xfr.Prelude.Words.{u64_max}
use xfr.Prelude.Bytes.{copy_at, to_le_bytes, from_le_bytes}

-- key, nonce, additional data, then the message or the ciphertext with its tag
pub record Aead : Type 0 where
  pub encrypt : List ℕ → List ℕ → List ℕ → List ℕ → Option (List ℕ)
  pub decrypt : List ℕ → List ℕ → List ℕ → List ℕ → Option (List ℕ)

-- A longest frame of the protected channel, and the tag's length.
abbrev pub max_frame : ℕ
max_frame = 1_048_576

abbrev pub tag_len : ℕ
tag_len = 16

-- What the crate documents: decryption under the same key, nonce and additional data undoes
-- encryption, a ciphertext is its message and a 16-byte tag, and a message far below the cipher's
-- limit of 2^38 - 64 bytes encrypts.
pub record IsAead (aead : Aead) : Type 0 where
  pub decrypt-encrypt :
      (key nonce aad msg sealed : List ℕ)
      → aead.encrypt key nonce aad msg ≡ some sealed
      → aead.decrypt key nonce aad sealed ≡ some msg
  pub length-encrypt :
      (key nonce aad msg sealed : List ℕ)
      → aead.encrypt key nonce aad msg ≡ some sealed
      → length sealed ≡ length msg + tag_len
  pub encrypt_total :
      (key nonce aad msg : List ℕ)
      → length msg ≤ max_frame
      → (sealed : List ℕ) × (aead.encrypt key nonce aad msg ≡ some sealed)

pub data Direction : Type 0 where
  c2s : Direction
  s2c : Direction

abbrev pub tag : Direction → ℕ
tag c2s = 0
tag s2c = 1

pub record ControlCodec : Type 0 where
  pub key : List ℕ  -- the cipher's key
  pub direction : Direction
  pub seq : ℕ  -- u64

-- The errors of the control channel, I/O errors of the socket aside.
pub data ControlError : Type 0 where
  encryption_failed : ControlError
  decryption_failed : ControlError
  sequence_overflow : ControlError
  frame_too_short : ControlError
  sequence_mismatch : ℕ → ℕ → ControlError  -- expected, got
  frame_too_large : ℕ → ControlError
  line_too_long : ControlError
  unexpected_eof : ControlError

unfoldable pub new : List ℕ → Direction → ControlCodec
new key direction = record { key = key; direction = direction; seq = 0 }

abbrev pub nonce_len : ℕ
nonce_len = 12

unfoldable pub nonce : ControlCodec → List ℕ
nonce c = copy_at 0 (to_le_bytes 8 c.seq) (replicate nonce_len 0)

unfoldable pub aad : ControlCodec → List ℕ
aad c = to_le_bytes 8 c.seq ++ tag c.direction ∷ []

-- seq.checked_add(1), before the result is returned
abbrev pub advance : ControlCodec → List ℕ → ControlCodec × (ControlError ⊎ List ℕ)
advance c out =
    if c.seq == u64_max then (c, inl sequence_overflow) else (record c { seq = c.seq + 1 }, inr out)

abbrev pub after_encrypt : ControlCodec → Option (List ℕ) → ControlCodec × (ControlError ⊎ List ℕ)
after_encrypt c none = (c, inl encryption_failed)
after_encrypt c (some ciphertext) = advance c (to_le_bytes 8 c.seq ++ ciphertext)

abbrev pub after_decrypt : ControlCodec → Option (List ℕ) → ControlCodec × (ControlError ⊎ List ℕ)
after_decrypt c none = (c, inl decryption_failed)
after_decrypt c (some plaintext) = advance c plaintext

module _ (aead : Aead) where
  unfoldable pub seal : ControlCodec → List ℕ → ControlCodec × (ControlError ⊎ List ℕ)
  seal c plaintext = after_encrypt c (aead.encrypt c.key (nonce c) (aad c) plaintext)

  unfoldable pub open_frame : ControlCodec → List ℕ → ControlCodec × (ControlError ⊎ List ℕ)
  open_frame c payload =
      let seq = from_le_bytes (take 8 payload) in
      if ltb (length payload) (8 + tag_len)
      then (c, inl frame_too_short)
      else if not (seq == c.seq)
      then (c, inl (sequence_mismatch c.seq seq))
      else after_decrypt c (aead.decrypt c.key (nonce c) (aad c) (drop 8 payload))
