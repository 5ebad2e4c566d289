-- ===== src/Control/Codec/Security.antt =====
-- The sequence numbers of the codec: replayed frames, and frames in order.
use xfr.Prelude.{
  ℕ, zero, suc, ◌+◌, ◌≤◌, ◌<◌, ◌≡◌, refl, ap, ◌∙◌, ◌/◌, inl, inr, Option, none, some, List, [], ◌∷◌,
  ◌++◌, length, take, drop, arith, take-append_exact, drop-append_exact, length-append,
}
use xfr.Prelude.Words.{u64_max}
use xfr.Prelude.Bytes.{to_le_bytes, from_le_bytes, from_le_bytes-to_le_bytes}
use xfr.Control.Codec.{
  Aead, IsAead, ControlCodec, sequence_mismatch, seal, open_frame, after_encrypt, after_decrypt,
  nonce, aad, tag_len, max_frame,
}

pub length-to_le_bytes : (k n : ℕ) → length (to_le_bytes k n) ≡ k
length-to_le_bytes zero n = refl
length-to_le_bytes (suc k) n = omega (arith, length-to_le_bytes k (n / 256))

after_decrypt_accepts :
    (c : ControlCodec) (o : Option (List ℕ)) (msg : List ℕ)
    → (after_decrypt c o).1 ≡ inr msg
    → (after_decrypt c o).0.seq ≡ c.seq + 1
after_decrypt_accepts c none msg h = ground arith
after_decrypt_accepts c (some plain) msg h = ground arith

after_decrypt_mono : (c : ControlCodec) (o : Option (List ℕ)) → c.seq ≤ (after_decrypt c o).0.seq
after_decrypt_mono c none = omega arith
after_decrypt_mono c (some plain) = ground arith

module _ (aead : Aead) where
  -- Opening payload after payload, whatever the outcomes.
  unfoldable pub open_all : ControlCodec → List (List ℕ) → ControlCodec
  open_all c [] = c
  open_all c (p ∷ ps) = open_all (open_frame aead c p).0 ps

  pub seal_lem :
      (c : ControlCodec) (msg sealed : List ℕ)
      → aead.encrypt c.key (nonce c) (aad c) msg ≡ some sealed
      → c.seq < u64_max
      → seal aead c msg ≡ (record c { seq = c.seq + 1 }, inr (to_le_bytes 8 c.seq ++ sealed))
  unfolding seal
  seal_lem c msg sealed e h = ap (after_encrypt c) e ∙ ground arith

  -- A payload that opens carries the expected number, and the codec expects the next one.
  open_accepts :
      (c : ControlCodec) (p msg : List ℕ)
      → (open_frame aead c p).1 ≡ inr msg
      → (from_le_bytes (take 8 p) ≡ c.seq) × ((open_frame aead c p).0.seq ≡ c.seq + 1)
  unfolding open_frame
  open_accepts c p msg h =
      ground (arith, after_decrypt_accepts c (aead.decrypt c.key (nonce c) (aad c) (drop 8 p)) msg)

  open_mono : (c : ControlCodec) (p : List ℕ) → c.seq ≤ (open_frame aead c p).0.seq
  unfolding open_frame
  open_mono c p =
      ground (arith, after_decrypt_mono c (aead.decrypt c.key (nonce c) (aad c) (drop 8 p)))

  open_all_mono : (c : ControlCodec) (ps : List (List ℕ)) → c.seq ≤ (open_all c ps).seq
  unfolding open_all
  open_all_mono c [] = omega arith
  open_all_mono c (p ∷ ps) = omega (arith, open_mono c p, open_all_mono (open_frame aead c p).0 ps)

  open_stale :
      (c : ControlCodec) (p : List ℕ)
      → tag_len + 8 ≤ length p
      → from_le_bytes (take 8 p) < c.seq
      → open_frame aead c p ≡ (c, inl (sequence_mismatch c.seq (from_le_bytes (take 8 p))))
  unfolding open_frame
  open_stale c p long h = ground arith

  open_long :
      (c : ControlCodec) (p msg : List ℕ)
      → (open_frame aead c p).1 ≡ inr msg
      → tag_len + 8 ≤ length p
  unfolding open_frame
  open_long c p msg h = ground arith

  -- A payload that was opened is refused from then on, as a sequence mismatch that leaves the codec
  -- as it was, whatever payloads an attacker has it open in between.
  pub no_replay :
      (c : ControlCodec) (p msg : List ℕ) (between : List (List ℕ))
      → (open_frame aead c p).1 ≡ inr msg
      → let later = open_all (open_frame aead c p).0 between in
        open_frame aead later p
        ≡ (later, inl (sequence_mismatch later.seq (from_le_bytes (take 8 p))))
  no_replay c p msg between h =
      open_stale _ p (open_long c p msg h)
        (omega (arith, open_accepts c p msg h, open_all_mono (open_frame aead c p).0 between))

  open_lem :
      (c : ControlCodec) (frame sealed msg : List ℕ)
      → 24 ≤ length frame
      → from_le_bytes (take 8 frame) ≡ c.seq
      → drop 8 frame ≡ sealed
      → aead.decrypt c.key (nonce c) (aad c) sealed ≡ some msg
      → c.seq < u64_max
      → open_frame aead c frame ≡ (record c { seq = c.seq + 1 }, inr msg)
  unfolding open_frame
  open_lem c frame sealed msg long number rest e h =
      let plain : after_decrypt c (aead.decrypt c.key (nonce c) (aad c) (drop 8 frame))
          ≡ (record c { seq = c.seq + 1 }, inr msg) =
        ap (λ x. after_decrypt c (aead.decrypt c.key (nonce c) (aad c) x)) rest
        ∙ (ap (after_decrypt c) e ∙ ground arith) in
      ground arith

  -- The peer's codec, at the same sequence number below the last, opens a sealed frame to its
  -- message, and both codecs advance alike.
  pub open-seal :
      (c : ControlCodec) (msg : List ℕ)
      → IsAead aead
      → length msg ≤ max_frame
      → c.seq < u64_max
      → (frame : List ℕ) × (seal aead c msg ≡ (record c { seq = c.seq + 1 }, inr frame))
        × (open_frame aead c frame ≡ (record c { seq = c.seq + 1 }, inr msg))
        × (length frame ≡ length msg + 24)
  open-seal c msg laws fits h =
      let (sealed, e) = laws.encrypt_total c.key (nonce c) (aad c) msg fits in
      let width = length-to_le_bytes 8 c.seq in
      let first : take 8 (to_le_bytes 8 c.seq ++ sealed) ≡ to_le_bytes 8 c.seq =
        take-append_exact 8 (to_le_bytes 8 c.seq) sealed width in
      let rest : drop 8 (to_le_bytes 8 c.seq ++ sealed) ≡ sealed =
        drop-append_exact 8 (to_le_bytes 8 c.seq) sealed width in
      let number = from_le_bytes-to_le_bytes 8 c.seq (omega arith) in
      let size : length (to_le_bytes 8 c.seq ++ sealed) ≡ length msg + 24 = omega (
        arith,
        length-append (to_le_bytes 8 c.seq) sealed,
        width,
        laws.length-encrypt c.key (nonce c) (aad c) msg sealed e,
      ) in
      (
        to_le_bytes 8 c.seq ++ sealed,
        seal_lem c msg sealed e h,
        open_lem c (to_le_bytes 8 c.seq ++ sealed) sealed msg (omega arith)
            (ap from_le_bytes first ∙ number) rest
            (laws.decrypt-encrypt c.key (nonce c) (aad c) msg sealed e) h,
        size,
      )
