-- ===== src/Control/Examples.antt =====
-- A toy cipher for the examples: the message and sixteen zero bytes of tag.
use xfr.Prelude.{
  ℕ, ◌+◌, ◌-◌, ◌≡◌, refl, sym, ap, ◌∙◌, inl, inr, Option, some, List, [], ◌∷◌, ◌++◌, length, take,
  drop, map, arith, length-append, take-append_exact, ++_nil,
}
use xfr.Prelude.Bytes.{from_le_bytes}
use xfr.Control.Codec.{
  Aead, IsAead, ControlCodec, c2s, s2c, sequence_mismatch, new, seal, open_frame,
}
use xfr.Control.Codec.Security.{open_all, no_replay, open-seal}
use xfr.Control.Reader.{
  Reader, flatten, read_bounded_line, read_within, read_line_loop, newline_pos, max_line_length,
}
use xfr.Control.Reader.Lines.{Returns, read_within_lem}
use xfr.Control.Reader.Limits.{IsBounded, read_within-IsBounded}
use xfr.Control.Keys.{info, derive_keys, derive_pair_with_key}
use xfr.Control.Keys.Handshake.{sides_agree}
use xfr.Control.Transport.{
  split, protected_client, protected_server, protected_reader, protected_writer, encode_message,
}
use xfr.Control.Transport.Session.{write_all, read_all, read_all-write_all}

abbrev toy_tag : List ℕ
toy_tag = 0 ∷ 0 ∷ 0 ∷ 0 ∷ 0 ∷ 0 ∷ 0 ∷ 0 ∷ 0 ∷ 0 ∷ 0 ∷ 0 ∷ 0 ∷ 0 ∷ 0 ∷ 0 ∷ []

abbrev toy : Aead
toy = record {
  encrypt = λ key nonce aad msg. some (msg ++ toy_tag);
  decrypt = λ key nonce aad sealed. some (take (length sealed - 16) sealed);
}

toy-sealed : (msg sealed : List ℕ) → some (msg ++ toy_tag) ≡ some sealed → sealed ≡ msg ++ toy_tag
toy-sealed msg sealed e = cc

toy-length :
    (msg sealed : List ℕ) → some (msg ++ toy_tag) ≡ some sealed → length sealed ≡ length msg + 16
toy-length msg sealed e = ap length (toy-sealed msg sealed e) ∙ length-append msg toy_tag

toy-IsAead : IsAead toy
toy-IsAead = record {
  decrypt-encrypt = λ key nonce aad msg sealed e.
      let n : length msg ≡ length sealed - 16 = omega (arith, toy-length msg sealed e) in
      ap (λ s. some (take (length sealed - 16) s)) (toy-sealed msg sealed e)
      ∙ ap some (take-append_exact (length sealed - 16) msg toy_tag n);
  length-encrypt = λ key nonce aad msg sealed e. toy-length msg sealed e;
  encrypt_total = λ key nonce aad msg fits. (msg ++ toy_tag, refl);
}

abbrev hello : List ℕ
hello = 104 ∷ 105 ∷ []

abbrev codec : ControlCodec
codec = record { key = []; direction = c2s; seq = 7 }

abbrev frame : List ℕ
frame = 7 ∷ 0 ∷ 0 ∷ 0 ∷ 0 ∷ 0 ∷ 0 ∷ 0 ∷ 104 ∷ 105 ∷ toy_tag

open-seal_example :
    (frame' : List ℕ) × (seal toy codec hello ≡ (record codec { seq = 8 }, inr frame'))
    × (open_frame toy codec frame' ≡ (record codec { seq = 8 }, inr hello))
    × (length frame' ≡ 26)
open-seal_example = open-seal toy codec hello toy-IsAead (omega arith) (omega arith)

opens : (open_frame toy codec frame).1 ≡ inr hello
unfolding open_frame from_le_bytes
opens = refl

no_replay_example :
    let later = open_all toy (open_frame toy codec frame).0 (frame ∷ hello ∷ []) in
    open_frame toy later frame
    ≡ (later, inl (sequence_mismatch later.seq (from_le_bytes (take 8 frame))))
no_replay_example = no_replay toy codec frame hello (frame ∷ hello ∷ []) opens

-- "hi\n" and the next line's start, in two chunks
abbrev cut_line : Reader
cut_line = (104 ∷ []) ∷ (105 ∷ 10 ∷ 111 ∷ []) ∷ []

read_within_lem_example :
    Returns max_line_length
      (λ b. b)
      (read_within max_line_length (λ b. b) cut_line)
      3
      (104 ∷ 105 ∷ 10 ∷ [])
      (111 ∷ [])
read_within_lem_example =
    read_within_lem max_line_length (λ b. b) cut_line hello (111 ∷ []) (λ b ascii. refl)
      (omega arith, (omega arith, tt)) (refl, (refl, tt)) refl (omega arith)

line_read : (read_within max_line_length (λ b. b) cut_line).1 ≡ inr (3, 104 ∷ 105 ∷ 10 ∷ [])
unfolding read_bounded_line read_within read_line_loop newline_pos
line_read = refl

read_within-IsBounded_example :
    IsBounded max_line_length
      (λ b. b)
      (read_within max_line_length (λ b. b) cut_line)
      3
      (104 ∷ 105 ∷ 10 ∷ [])
      (length (flatten cut_line))
read_within-IsBounded_example =
    read_within-IsBounded max_line_length (λ b. b) cut_line (104 ∷ 105 ∷ 10 ∷ []) 3
      (λ bytes. omega arith) line_read

abbrev wire : List ℕ
wire = (write_all toy (λ b. b) (protected_writer codec) (hello ∷ [] ∷ [])).1

read_all-write_all_example :
    let result =
      read_all toy (λ b. b) 2 (protected_reader codec) (take 9 wire ∷ drop 9 wire ∷ []) in
    (result.1 ≡ map inr (hello ∷ [] ∷ [])) × (flatten result.0 ≡ [])
unfolding write_all encode_message seal
read_all-write_all_example =
    read_all-write_all toy (λ b. b) codec (hello ∷ [] ∷ []) [] (take 9 wire ∷ drop 9 wire ∷ [])
      toy-IsAead (omega arith, refl, (omega arith, refl, tt)) (omega arith) refl

-- the info string's last byte as the key
abbrev toy_hkdf : List ℕ → List ℕ → List ℕ → Option (List ℕ)
toy_hkdf salt key info = some (salt ++ info)

abbrev up : ControlCodec
up = new (1 ∷ 2 ∷ info c2s) c2s

abbrev down : ControlCodec
down = new (1 ∷ 2 ∷ info s2c) s2c

abbrev wire_up : List ℕ
wire_up = (write_all toy (λ b. b) (protected_writer up) (hello ∷ [])).1

sides_agree_example :
    ((read_all toy (λ b. b) 1 (protected_reader up) (wire_up ∷ [])).1 ≡ map inr (hello ∷ []))
    × ((read_all toy (λ b. b) 0 (protected_reader down) []).1 ≡ map inr [])
unfolding derive_pair_with_key derive_keys protected_client protected_server split write_all
sides_agree_example =
    sides_agree toy_hkdf toy (λ b. b) (1 ∷ []) (2 ∷ []) [] up down (hello ∷ []) [] (wire_up ∷ []) []
      toy-IsAead refl (omega arith, refl, tt) tt (omega arith) (omega arith)
      (++_nil wire_up ∙ sym (++_nil wire_up)) refl
