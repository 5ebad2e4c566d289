-- ===== src/Auth/KeyFile.antt =====
-- Which key files are accepted.
use Prim.Native.Nat.{bit_and}
use xfr.Prelude.{
  ℕ, ◌≤◌, ◌≡◌, ◌%◌, ◌⊎◌, ◌↔◌, refl, inl, inr, Bool, true, false, Option, none, some, List, length,
  if◌then◌else◌, arith, not, ◌&&◌, ap, sym, subst, ◌∙◌,
}
use xfr.Auth.Permissions.{IsServiceCredential, allowed_iff}
use xfr.Auth.{
  File, PskError, read_psk_file, read_content, validated, validate_psk,
  require_owner_only_permissions, is_service_credential, max_psk_length, overly_broad,
}

validate_psk_ok :
    (psk : List ℕ) → validate_psk psk ≡ none → (1 ≤ length psk) × (length psk ≤ max_psk_length)
unfolding validate_psk
validate_psk_ok psk h = ground arith

validate_psk_fits :
    (psk : List ℕ) → 1 ≤ length psk → length psk ≤ max_psk_length → validate_psk psk ≡ none
unfolding validate_psk
validate_psk_fits psk low high = ground arith

-- What a key read from a file is known to be.
abbrev pub Accepted : (List ℕ → List ℕ) → ℕ → File → List ℕ → Type 0
Accepted trim euid file psk =
    ((file.mode % 64 ≡ 0) ⊎ IsServiceCredential euid file)
    × ((text : List ℕ) × (file.content ≡ some text) × (psk ≡ trim text))
    × (1 ≤ length psk)
    × (length psk ≤ max_psk_length)

validated_ok :
    (psk key : List ℕ) (e : Option PskError) → validated psk e ≡ inr key → (e ≡ none) × (key ≡ psk)
validated_ok psk key none h = (refl, cc)
validated_ok psk key (some e) h = absurd cc

read_content_ok :
    (trim : List ℕ → List ℕ) (content : Option (List ℕ)) (psk : List ℕ)
    → read_content trim content ≡ inr psk
    → ((text : List ℕ) × (content ≡ some text) × (psk ≡ trim text))
      × (1 ≤ length psk)
      × (length psk ≤ max_psk_length)
read_content_ok trim none psk h = absurd cc
read_content_ok trim (some text) psk h =
    let (valid, same) = validated_ok (trim text) psk (validate_psk (trim text)) h in
    let (low, high) = validate_psk_ok (trim text) valid in
    (
      (text, refl, same),
      subst (λ k. 1 ≤ length k) (sym same) low,
      subst (λ k. length k ≤ max_psk_length) (sym same) high,
    )

read_content_fits :
    (trim : List ℕ → List ℕ) (text : List ℕ)
    → 1 ≤ length (trim text)
    → length (trim text) ≤ max_psk_length
    → read_content trim (some text) ≡ inr (trim text)
read_content_fits trim text low high =
    ap (validated (trim text)) (validate_psk_fits (trim text) low high)

gate_open :
    (a b : Bool) (e : PskError) (r : PskError ⊎ List ℕ)
    → (a ≡ true) ⊎ (b ≡ true)
    → (if not a && not b then inl e else r) ≡ r
gate_open true b e r h = refl
gate_open false true e r h = refl
gate_open false false e r (inl h) = absurd cc
gate_open false false e r (inr h) = absurd cc

gate_passed :
    (a b : Bool) (e : PskError) (r : PskError ⊎ List ℕ) (psk : List ℕ)
    → (if not a && not b then inl e else r) ≡ inr psk
    → ((a ≡ true) ⊎ (b ≡ true)) × (r ≡ inr psk)
gate_passed true b e r psk h = (inl refl, h)
gate_passed false true e r psk h = (inr refl, h)
gate_passed false false e r psk h = absurd cc

-- A key file gives a key exactly when its mode has no bit of the group's or of others', or it is a
-- regular file of root's with mode 0440 whose ACL is the one of a service credential for the
-- effective user, and when its text, trimmed, is the key, of 1 to 1024 bytes.
pub read_psk_file_iff :
    (trim : List ℕ → List ℕ) (euid : ℕ) (file : File) (psk : List ℕ)
    → (read_psk_file trim euid (some file) ≡ inr psk) ↔ Accepted trim euid file psk
unfolding read_psk_file
read_psk_file_iff trim euid file psk = (
  λ h.
      let (allowed, read) =
        gate_passed (require_owner_only_permissions file.mode) (is_service_credential euid file)
          (overly_broad (bit_and file.mode 0o777)) (read_content trim file.content) psk h in
      let (text, low, high) = read_content_ok trim file.content psk read in
      ((allowed_iff euid file).0 allowed, text, low, high),
  λ (allowed, (text, e, same), low, high).
      gate_open (require_owner_only_permissions file.mode) (is_service_credential euid file)
        (overly_broad (bit_and file.mode 0o777)) (read_content trim file.content)
        ((allowed_iff euid file).1 allowed)
      ∙ ap (read_content trim) e
      ∙ read_content_fits trim text (subst (λ k. 1 ≤ length k) same low)
          (subst (λ k. length k ≤ max_psk_length) same high)
      ∙ ap inr (sym same),
)
