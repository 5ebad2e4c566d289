-- ===== src/Control/Transport.antt =====
-- src/control_crypto.rs, `ProtectedControl` and its halves: control messages as lines of plain text
-- or as length-prefixed sealed frames. Text is its UTF-8 bytes.
pub mod Session
use xfr.Prelude.{
  ℕ, ◌+◌, ◌%◌, ◌^◌, ◌⊎◌, inl, inr, Bool, true, false, Option, none, some, List, [], ◌∷◌, ◌++◌,
  length, ltb, if◌then◌else◌,
}
use xfr.Prelude.Bytes.{to_be_bytes, from_be_bytes}
use xfr.Control.Codec.{
  Aead, ControlCodec, ControlError, frame_too_large, unexpected_eof, max_frame, seal, open_frame,
}
use xfr.Control.Reader.{Reader, Line, read_exact, read_within}

pub data ProtectedControl : Type 0 where
  plaintext : ProtectedControl
  protected : ControlCodec → ControlCodec → ProtectedControl  -- send, recv

pub data ControlReader : Type 0 where
  plain_reader : ControlReader
  protected_reader : ControlCodec → ControlReader

pub data ControlWriter : Type 0 where
  plain_writer : ControlWriter
  protected_writer : ControlCodec → ControlWriter

-- the codecs of the directions client to server and server to client
unfoldable pub protected_client : ControlCodec → ControlCodec → ProtectedControl
protected_client up down = protected up down

unfoldable pub protected_server : ControlCodec → ControlCodec → ProtectedControl
protected_server up down = protected down up

unfoldable pub is_protected : ProtectedControl → Bool
is_protected plaintext = false
is_protected (protected send recv) = true

unfoldable pub split : ProtectedControl → ControlReader × ControlWriter
split plaintext = (plain_reader, plain_writer)
split (protected send recv) = (protected_reader recv, protected_writer send)

-- the longest line of the plain text channel
abbrev pub max_control_line : ℕ
max_control_line = 1_048_576

-- the reading half, the buffered reader and the message read
pub record Received : Type 0 where
  pub control : ControlReader
  pub reader : Reader
  pub message : ControlError ⊎ List ℕ

-- the count of the line's bytes is not passed on
abbrev pub line_received : Line → Received
line_received (reader, inl e) = record { control = plain_reader; reader = reader; message = inl e }
line_received (reader, inr (n, line)) = record {
  control = plain_reader;
  reader = reader;
  message = inr line;
}

abbrev pub frame_encoded :
    ControlCodec × (ControlError ⊎ List ℕ) → ControlWriter × (ControlError ⊎ List ℕ)
frame_encoded (send, inl e) = (protected_writer send, inl e)
frame_encoded (send, inr payload) =
    (protected_writer send, inr (to_be_bytes 4 (length payload % 2 ^ 32) ++ payload))

-- `write_message` of the unsplit transport
abbrev pub written :
    ControlCodec
    → ControlCodec × (ControlError ⊎ List ℕ)
    → ProtectedControl × (ControlError ⊎ List ℕ)
written recv (send, inl e) = (protected send recv, inl e)
written recv (send, inr payload) =
    (protected send recv, inr (to_be_bytes 4 (length payload % 2 ^ 32) ++ payload))

module _ (aead : Aead) where
  unfoldable pub encode_message : ControlWriter → List ℕ → ControlWriter × (ControlError ⊎ List ℕ)
  encode_message plain_writer serialized = (plain_writer, inr (serialized ++ 10 ∷ []))
  encode_message (protected_writer send) serialized = frame_encoded (seal aead send serialized)

  -- the writer and the bytes put on the wire, or the error before any was written
  unfoldable pub write_message :
      ProtectedControl → List ℕ → ProtectedControl × (ControlError ⊎ List ℕ)
  write_message plaintext serialized = (plaintext, inr (serialized ++ 10 ∷ []))
  write_message (protected send recv) serialized = written recv (seal aead send serialized)

  module _ (lossy : List ℕ → List ℕ) where
    abbrev pub opened : Reader → ControlCodec × (ControlError ⊎ List ℕ) → Received
    opened reader (recv, inl e) = record {
      control = protected_reader recv;
      reader = reader;
      message = inl e;
    }
    opened reader (recv, inr plain) = record {
      control = protected_reader recv;
      reader = reader;
      message = inr (lossy plain);
    }

    abbrev pub payload_read : ControlCodec → Option (List ℕ × Reader) → Received
    payload_read recv none = record {
      control = protected_reader recv;
      reader = [];
      message = inl unexpected_eof;
    }
    payload_read recv (some (payload, reader)) = opened reader (open_frame aead recv payload)

    abbrev pub length_read : ControlCodec → Option (List ℕ × Reader) → Received
    length_read recv none = record {
      control = protected_reader recv;
      reader = [];
      message = inl unexpected_eof;
    }
    length_read recv (some (len_buf, reader)) =
        let len = from_be_bytes len_buf in
        if ltb max_frame len
        then record {
          control = protected_reader recv;
          reader = reader;
          message = inl (frame_too_large len);
        }
        else payload_read recv (read_exact len reader)

    unfoldable pub read_message : ControlReader → Reader → Received
    read_message plain_reader reader = line_received (read_within max_control_line lossy reader)
    read_message (protected_reader recv) reader = length_read recv (read_exact 4 reader)
