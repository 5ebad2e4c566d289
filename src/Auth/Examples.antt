-- ===== src/Auth/Examples.antt =====
-- A toy MAC, and key files of two kinds.
use xfr.Prelude.{ℕ, ◌≡◌, ◌↔◌, inr, true, none, some, List, [], ◌∷◌, ◌++◌}
use xfr.Auth.{File, constant_time_eq, read_psk_file}
use xfr.Auth.Comparison.{constant_time_eq_iff}
use xfr.Auth.KeyFile.{Accepted, read_psk_file_iff}

abbrev key : List ℕ
key = 115 ∷ 51 ∷ []

constant_time_eq_iff_example : (constant_time_eq key (key ++ 0 ∷ []) ≡ true) ↔ (key ≡ key ++ 0 ∷ [])
constant_time_eq_iff_example = constant_time_eq_iff key (key ++ 0 ∷ [])

abbrev key_file : File
key_file = record {
  mode = 0o100600;
  owner = 1000;
  regular = true;
  access_acl = none;
  content = some key;
}

read_psk_file_iff_example :
    (read_psk_file (λ t. t) 1000 (some key_file) ≡ inr key) ↔ Accepted (λ t. t) 1000 key_file key
read_psk_file_iff_example = read_psk_file_iff (λ t. t) 1000 key_file key
