-- ===== src/Control/Transport/Session.antt =====
-- A session over the protected channel, message by message.
use xfr.Prelude.{
  ℕ, zero, suc, ◌+◌, ◌-◌, ◌/◌, ◌%◌, ◌^◌, ◌≤◌, ◌<◌, ◌≡◌, refl, ap, sym, ◌∙◌, ◌⊎◌, inl, inr, false,
  some, List, [], ◌∷◌, ◌++◌, length, take, drop, map, ltb, leb, if◌then◌else◌, arith, Bool-cases,
  length-append, ++_assoc,
}
use xfr.Prelude.Words.{u64_max}
use xfr.Prelude.Bytes.{to_be_bytes, from_be_bytes, from_be_bytes-to_be_bytes}
use xfr.Control.Codec.{
  Aead, IsAead, ControlCodec, ControlError, frame_too_large, max_frame, open_frame,
}
use xfr.Control.Codec.Security.{open-seal}
use xfr.Control.Reader.{Reader, read_exact, prepend, flatten}
use xfr.Control.Transport.{
  ControlReader, ControlWriter, protected_reader, protected_writer, frame_encoded, encode_message,
  opened, payload_read, length_read, read_message,
}

within :
    (front chunk tail rest : List ℕ)
    → chunk ++ tail ≡ front ++ rest
    → length front ≤ length chunk
    → (take (length front) chunk ≡ front) × (drop (length front) chunk ++ tail ≡ rest)
within [] chunk tail rest e le = (refl, e)
within (f ∷ front) [] tail rest e le = absurd (omega arith)
within (f ∷ front) (c ∷ chunk) tail rest e le =
    let same : c ≡ f = cc in
    let (taken, left) = within front chunk tail rest (cc) (omega arith) in (cc, left)

beyond :
    (front chunk tail rest : List ℕ)
    → chunk ++ tail ≡ front ++ rest
    → length chunk ≤ length front
    → (front' : List ℕ) × (front ≡ chunk ++ front') × (tail ≡ front' ++ rest)
beyond front [] tail rest e le = (front, refl, e)
beyond [] (c ∷ chunk) tail rest e le = absurd (omega arith)
beyond (f ∷ front) (c ∷ chunk) tail rest e le =
    let same : c ≡ f = cc in
    let (front', split, after) = beyond front chunk tail rest (cc) (omega arith) in
    (front', cc, after)

-- `read_exact` takes the stream's first bytes, however it is cut.
take-read_exact :
    (n : ℕ) (reader : Reader) (front rest : List ℕ)
    → length front ≡ n
    → flatten reader ≡ front ++ rest
    → (left : Reader) × (read_exact n reader ≡ some (front, left)) × (flatten left ≡ rest)
unfolding read_exact
take-read_exact n [] [] rest size e = ([], ground arith, e)
take-read_exact n [] (b ∷ front) rest size e = absurd cc
take-read_exact n (chunk ∷ chunks) front rest size e = elim (Bool-cases (leb n (length chunk))) [
  | inl fits ↦
      let (taken, left) = within front chunk (flatten chunks) rest e (ground arith) in
      (
        drop n chunk ∷ chunks,
        ap
              (λ b.
                if b
                then some (take n chunk, drop n chunk ∷ chunks)
                else prepend chunk (read_exact (n - length chunk) chunks))
              fits
            ∙ ap (λ t. some (t, drop n chunk ∷ chunks)) (ap (λ k. take k chunk) (sym size) ∙ taken),
        ap (λ k. drop k chunk ++ flatten chunks) (sym size) ∙ left,
      )
  | inr short ↦
      let (front', split, after) = beyond front chunk (flatten chunks) rest e (ground arith) in
      let size' : length front' ≡ n - length chunk =
        omega (arith, length-append chunk front', ap length split, size) in
      let (reader, read, left) =
        take-read_exact (n - length chunk) chunks front' rest size' after in
      (
        reader,
        ap
              (λ b.
                if b
                then some (take n chunk, drop n chunk ∷ chunks)
                else prepend chunk (read_exact (n - length chunk) chunks))
              short
            ∙ ap (prepend chunk) read
            ∙ ap (λ t. some (t, reader)) (sym split),
        left,
      )
]

length-to_be_bytes : (k n : ℕ) → length (to_be_bytes k n) ≡ k
length-to_be_bytes zero n = refl
length-to_be_bytes (suc k) n =
    omega (
      arith,
      length-append (to_be_bytes k (n / 256)) (n % 256 ∷ []),
      length-to_be_bytes k (n / 256),
    )

module _ (aead : Aead) (lossy : List ℕ → List ℕ) where
  -- Messages written one after the other: the bytes on the wire.
  abbrev after_encode : List ℕ → ControlWriter × (ControlError ⊎ List ℕ) → ControlWriter × List ℕ
  after_encode wire (writer, inl e) = (writer, wire)
  after_encode wire (writer, inr bytes) = (writer, bytes ++ wire)

  unfoldable pub write_all : ControlWriter → List (List ℕ) → ControlWriter × List ℕ
  write_all writer [] = (writer, [])
  write_all writer (m ∷ ms) =
      let one = encode_message aead writer m in
      let rest = write_all one.0 ms in after_encode rest.1 (rest.0, one.1)

  -- Reading a number of messages, each with its outcome.
  unfoldable pub read_all : ℕ → ControlReader → Reader → Reader × List (ControlError ⊎ List ℕ)
  read_all zero control reader = (reader, [])
  read_all (suc n) control reader =
      let one = read_message aead lossy control reader in
      let rest = read_all n one.control one.reader in (rest.0, one.message ∷ rest.1)

  -- every message fits a frame, is valid UTF-8
  abbrev pub AllSendable : List (List ℕ) → Type 0
  AllSendable [] = Unit
  AllSendable (m ∷ ms) = (length m + 24 ≤ max_frame) × (lossy m ≡ m) × AllSendable ms

  length_ok :
      (c : ControlCodec) (header payload : List ℕ) (n : ℕ) (r1 r2 : Reader)
      → from_be_bytes header ≡ n
      → n ≤ max_frame
      → read_exact n r1 ≡ some (payload, r2)
      → length_read aead lossy c (some (header, r1))
        ≡ opened aead lossy r2 (open_frame aead c payload)
  length_ok c header payload n r1 r2 number fits read = rw number (
      let small : ltb max_frame n ≡ false = ground arith in
      ap
        (λ b.
          if b
          then record {
            control = protected_reader c;
            reader = r1;
            message = inl (frame_too_large n);
          }
          else payload_read aead lossy c (read_exact n r1))
        small
      ∙ ap (payload_read aead lossy c) read)

  one_message :
      (c : ControlCodec) (m rest : List ℕ) (reader : Reader)
      → IsAead aead
      → length m + 24 ≤ max_frame
      → lossy m ≡ m
      → c.seq < u64_max
      → (bytes : List ℕ) × (encode_message aead (protected_writer c) m
          ≡ (protected_writer (record c { seq = c.seq + 1 }), inr bytes))
        × (flatten reader ≡ bytes ++ rest
            → (left : Reader) × (read_message aead lossy (protected_reader c) reader ≡ record {
              control = protected_reader (record c { seq = c.seq + 1 });
              reader = left;
              message = inr m;
            })
              × (flatten left ≡ rest))
  unfolding encode_message read_message
  one_message c m rest reader laws fits valid h =
      let (frame, sealed, opens, size) = open-seal aead c m laws (omega arith) h in
      let header = to_be_bytes 4 (length frame % 2 ^ 32) in
      let small : length frame % 2 ^ 32 ≡ length frame = omega arith in
      let number : from_be_bytes header ≡ length frame =
        from_be_bytes-to_be_bytes 4 (length frame % 2 ^ 32) (omega arith) ∙ small in
      (
        header ++ frame,
        ap frame_encoded sealed,
        λ e.
            let cut = e ∙ ++_assoc header frame rest in
            let (r1, read1, left1) =
              take-read_exact 4 reader header (frame ++ rest)
                (length-to_be_bytes 4 (length frame % 2 ^ 32)) cut in
            let (r2, read2, left2) = take-read_exact (length frame) r1 frame rest refl left1 in
            (
              r2,
              ap (length_read aead lossy c) read1
                  ∙ length_ok c header frame (length frame) r1 r2 number (omega arith) read2
                  ∙ ap (opened aead lossy r2) opens
                  ∙ ap
                      (λ t. record {
                        control = protected_reader (record c { seq = c.seq + 1 });
                        reader = r2;
                        message = inr t;
                      })
                      valid,
              left2,
            ),
      )

  -- The messages that one side seals and writes are what the other reads, in order and without an
  -- error, however the stream is cut into chunks and whatever follows on it: for codecs in step,
  -- messages of UTF-8 text that fit a frame and fewer of them than sequence numbers are left.
  pub read_all-write_all :
      (c : ControlCodec) (ms : List (List ℕ)) (rest : List ℕ) (reader : Reader)
      → IsAead aead
      → AllSendable ms
      → c.seq + length ms ≤ u64_max
      → flatten reader ≡ (write_all (protected_writer c) ms).1 ++ rest
      → let result = read_all (length ms) (protected_reader c) reader in
        (result.1 ≡ map inr ms) × (flatten result.0 ≡ rest)
  unfolding write_all read_all
  read_all-write_all c [] rest reader laws ok room e = (refl, e)
  read_all-write_all c (m ∷ ms) rest reader laws ok room e =
      let after = record c { seq = c.seq + 1 } in
      let later = (write_all (protected_writer after) ms).1 in
      let (bytes, encoded, reads) =
        one_message c m (later ++ rest) reader laws ok.0 ok.1 (omega arith) in
      let wire : (write_all (protected_writer c) (m ∷ ms)).1 ≡ bytes ++ later =
        ap (λ one. (after_encode (write_all one.0 ms).1 ((write_all one.0 ms).0, one.1)).1)
          encoded in
      let (left, read, behind) = reads (e ∙ ap (λ w. w ++ rest) wire ∙ ++_assoc bytes later rest) in
      let (messages, end) = read_all-write_all after ms rest left laws ok.2 (omega arith) behind in
      (
        ap (λ o. o.message ∷ (read_all (length ms) o.control o.reader).1) read
            ∙ ap (λ l. inr m ∷ l) messages,
        ap (λ o. flatten (read_all (length ms) o.control o.reader).0) read ∙ end,
      )
