-- ===== src/Control/Keys/Handshake.antt =====
-- Two sides with the same nonces and key material, in either direction.
use xfr.Prelude.{
  ℕ, ◌≤◌, ◌≡◌, ◌↔◌, sym, ap, inr, true, Option, none, some, List, [], ◌++◌, length, map, arith,
}
use xfr.Prelude.Words.{u64_max}
use xfr.Auth.Comparison.{constant_time_eq_iff}
use xfr.Control.Codec.{Aead, IsAead, ControlCodec, new}
use xfr.Control.Reader.{Reader, flatten}
use xfr.Control.Transport.{split, protected_client, protected_server}
use xfr.Control.Transport.Session.{write_all, read_all, AllSendable, read_all-write_all}
use xfr.Control.Keys.{
  DerivedKeys, derive_keys, codecs_of, derive_pair_with_key, compared,
  compute_server_proof_with_key, verify_server_proof_with_key,
}

some_inj {ℓ} : {A : Type ℓ} {x y : A} → some x ≡ some y → x ≡ y
some_inj h = cc

module _ (hkdf : List ℕ → List ℕ → List ℕ → Option (List ℕ)) where
  codecs_start :
      (keys : Option DerivedKeys) (up down : ControlCodec)
      → codecs_of hkdf keys ≡ some (up, down)
      → (up.seq ≡ 0) × (down.seq ≡ 0)
  unfolding new
  codecs_start none up down h = absurd cc
  codecs_start (some keys) up down h =
      (sym (ap (λ p. p.0.seq) (some_inj h)), sym (ap (λ p. p.1.seq) (some_inj h)))

  compared_iff :
      (hmac : List ℕ → List ℕ → List ℕ) (expected : List ℕ) (actual : Option (List ℕ))
      → (compared hkdf hmac expected actual ≡ some true) ↔ (actual ≡ some expected)
  compared_iff hmac expected none = (λ h. absurd cc, λ h. absurd cc)
  compared_iff hmac expected (some actual) =
      let iff = constant_time_eq_iff actual expected in
      (λ h. ap some (iff.0 (some_inj h)), λ e. ap some (iff.1 (some_inj e)))

  -- A proof is verified exactly when it is the one computed from the same transcript, nonces and
  -- key material.
  pub verify_server_proof_iff :
      (hmac : List ℕ → List ℕ → List ℕ)
      (client_hello server_hello client_nonce server_nonce key_material expected : List ℕ)
      → (verify_server_proof_with_key hkdf hmac client_hello server_hello client_nonce server_nonce
            key_material expected
          ≡ some true)
        ↔ (compute_server_proof_with_key hkdf hmac client_hello server_hello client_nonce
              server_nonce key_material
            ≡ some expected)
  unfolding verify_server_proof_with_key
  verify_server_proof_iff hmac ch sh cn sn key expected =
      compared_iff hmac expected (compute_server_proof_with_key hkdf hmac ch sh cn sn key)

  -- The client's writer and the server's reader, and the server's writer and the client's reader,
  -- made by both sides from the same nonces and key material: the messages sealed by one, UTF-8
  -- text that fits a frame, are read in order by the other, however the streams are cut.
  pub sides_agree :
      (aead : Aead) (lossy : List ℕ → List ℕ) (client_nonce server_nonce key_material : List ℕ)
      (up down : ControlCodec) (sent answered : List (List ℕ)) (at_server at_client : Reader)
      → IsAead aead
      → derive_pair_with_key hkdf client_nonce server_nonce key_material ≡ some (up, down)
      → AllSendable aead lossy sent
      → AllSendable aead lossy answered
      → length sent ≤ u64_max
      → length answered ≤ u64_max
      → let client = split (protected_client up down) in
        let server = split (protected_server up down) in
        flatten at_server ≡ (write_all aead lossy client.1 sent).1 ++ []
        → flatten at_client ≡ (write_all aead lossy server.1 answered).1 ++ []
        → ((read_all aead lossy (length sent) server.0 at_server).1 ≡ map inr sent)
          × ((read_all aead lossy (length answered) client.0 at_client).1 ≡ map inr answered)
  unfolding derive_pair_with_key split protected_client protected_server
  sides_agree aead lossy cn sn key up down sent answered at_server at_client laws pair ok_up ok_down
        few_up few_down wire_up wire_down =
      let (up_seq, down_seq) = codecs_start (derive_keys hkdf cn sn key) up down pair in
      (
        (read_all-write_all aead lossy up sent [] at_server laws ok_up (omega arith) wire_up).0,
        (read_all-write_all aead lossy down answered [] at_client laws ok_down (omega arith)
            wire_down).0,
      )
