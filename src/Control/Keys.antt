-- ===== src/Control/Keys.antt =====
-- src/control_crypto.rs: the directional keys, the server's proof and the pair of codecs.
-- HKDF-SHA256 and HMAC-SHA256 are parameters; text is its UTF-8 bytes.
pub mod Handshake
use xfr.Prelude.{ℕ, Bool, Option, none, some, List, [], ◌∷◌, ◌++◌}
use xfr.Auth.{constant_time_eq, hex_encode}
use xfr.Control.Codec.{ControlCodec, Direction, c2s, s2c, new}

-- "xfr-protected-control-" and the direction
abbrev pub info : Direction → List ℕ
info c2s =
    120 ∷ 102 ∷ 114 ∷ 45 ∷ 112 ∷ 114 ∷ 111 ∷ 116 ∷ 101 ∷ 99 ∷ 116 ∷ 101 ∷ 100 ∷ 45 ∷ 99 ∷ 111 ∷ 110
    ∷ 116 ∷ 114 ∷ 111 ∷ 108 ∷ 45 ∷ 99 ∷ 50 ∷ 115 ∷ []
info s2c =
    120 ∷ 102 ∷ 114 ∷ 45 ∷ 112 ∷ 114 ∷ 111 ∷ 116 ∷ 101 ∷ 99 ∷ 116 ∷ 101 ∷ 100 ∷ 45 ∷ 99 ∷ 111 ∷ 110
    ∷ 116 ∷ 114 ∷ 111 ∷ 108 ∷ 45 ∷ 115 ∷ 50 ∷ 99 ∷ []

-- "xfr-protected-control-s2c-auth"
abbrev pub auth_info : List ℕ
auth_info =
    120 ∷ 102 ∷ 114 ∷ 45 ∷ 112 ∷ 114 ∷ 111 ∷ 116 ∷ 101 ∷ 99 ∷ 116 ∷ 101 ∷ 100 ∷ 45 ∷ 99 ∷ 111 ∷ 110
    ∷ 116 ∷ 114 ∷ 111 ∷ 108 ∷ 45 ∷ 115 ∷ 50 ∷ 99 ∷ 45 ∷ 97 ∷ 117 ∷ 116 ∷ 104 ∷ []

pub record DerivedKeys : Type 0 where
  pub c2s_key : List ℕ
  pub s2c_key : List ℕ
  pub s2c_auth_key : List ℕ

-- the three results of `expand`, each with its `?`
abbrev pub all_keys : Option (List ℕ) → Option (List ℕ) → Option (List ℕ) → Option DerivedKeys
all_keys none s2c_key auth_key = none
all_keys (some up) none auth_key = none
all_keys (some up) (some down) none = none
all_keys (some up) (some down) (some auth) =
    some (record { c2s_key = up; s2c_key = down; s2c_auth_key = auth })

-- HKDF's 32 bytes for a salt, the key material and an info string, none where `expand` fails
module _ (hkdf : List ℕ → List ℕ → List ℕ → Option (List ℕ)) where
  unfoldable pub derive_keys : List ℕ → List ℕ → List ℕ → Option DerivedKeys
  derive_keys client_nonce server_nonce key_material =
      let expand = hkdf (client_nonce ++ server_nonce) key_material in
      all_keys (expand (info c2s)) (expand (info s2c)) (expand auth_info)

  -- the codecs of the directions client to server and server to client
  abbrev pub codecs_of : Option DerivedKeys → Option (ControlCodec × ControlCodec)
  codecs_of none = none
  codecs_of (some keys) = some (new keys.c2s_key c2s, new keys.s2c_key s2c)

  unfoldable pub derive_pair_with_key :
      List ℕ → List ℕ → List ℕ → Option (ControlCodec × ControlCodec)
  derive_pair_with_key client_nonce server_nonce key_material =
      codecs_of (derive_keys client_nonce server_nonce key_material)

  -- HMAC-SHA256: key, message; two updates take the messages one after the other
  module _ (hmac : List ℕ → List ℕ → List ℕ) where
    abbrev pub proof_of : List ℕ → List ℕ → Option DerivedKeys → Option (List ℕ)
    proof_of client_hello server_hello none = none
    proof_of client_hello server_hello (some keys) =
        some (hex_encode (hmac keys.s2c_auth_key (client_hello ++ server_hello)))

    unfoldable pub compute_server_proof_with_key :
        List ℕ → List ℕ → List ℕ → List ℕ → List ℕ → Option (List ℕ)
    compute_server_proof_with_key client_hello server_hello client_nonce server_nonce key_material =
        proof_of client_hello server_hello (derive_keys client_nonce server_nonce key_material)

    abbrev pub compared : List ℕ → Option (List ℕ) → Option Bool
    compared expected none = none
    compared expected (some actual) = some (constant_time_eq actual expected)

    unfoldable pub verify_server_proof_with_key :
        List ℕ → List ℕ → List ℕ → List ℕ → List ℕ → List ℕ → Option Bool
    verify_server_proof_with_key client_hello server_hello client_nonce server_nonce key_material
          expected =
        compared expected (
          compute_server_proof_with_key client_hello server_hello client_nonce server_nonce
            key_material)
