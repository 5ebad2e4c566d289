-- ===== src/Auth/Permissions.antt =====
-- Which permissions a key file may have, in the bits of its mode and the entries of its ACL.
use Prim.Native.Nat.{bit_and}
use xfr.Prelude.{
  ℕ, ◌≡◌, ◌%◌, ◌++◌, ◌==◌, ◌⊎◌, ◌↔◌, refl, inl, inr, Bool, true, false, Option, none, some, List,
  length, arith, ◌&&◌, ap, sym, subst, ◌∙◌,
}
use xfr.Prelude.Bits.{bit_and-lower9, bit_and-lower6, bit_and-lower12}
use xfr.Prelude.Words.{u32_max}
use xfr.Prelude.Bytes.{to_le_bytes, copy_at, same_bytes, same_bytes-eq, same_bytes_refl}
use xfr.Auth.{
  File, require_owner_only_permissions, is_service_credential, credential_acl,
  service_credential_permissions,
}

-- The access ACL of a systemd credential for user `uid`, by its entries: a tag, permissions and an
-- id, which is all ones where the tag needs none.
abbrev pub acl_entry : ℕ → ℕ → ℕ → List ℕ
acl_entry tag perm id = to_le_bytes 2 tag ++ (to_le_bytes 2 perm ++ to_le_bytes 4 id)

abbrev pub service_acl : ℕ → List ℕ
service_acl uid =
    to_le_bytes 4 2
    ++ (acl_entry 1 4 u32_max
        ++ (acl_entry 2 4 uid
            ++ (acl_entry 4 0 u32_max ++ (acl_entry 16 4 u32_max ++ acl_entry 32 0 u32_max))))

-- A regular file of root's, of mode 0440, whose access ACL lets the user `euid` read it.
abbrev pub IsServiceCredential : ℕ → File → Type 0
IsServiceCredential euid file =
    (file.owner ≡ 0)
    × (file.mode % 4096 ≡ 0o440)
    × (file.regular ≡ true)
    × (file.access_acl ≡ some (service_acl euid))

written_acl : (uid : ℕ) → copy_at 16 (to_le_bytes 4 uid) credential_acl ≡ service_acl uid
written_acl uid = refl

owner_only : (mode : ℕ) → (require_owner_only_permissions mode ≡ true) ↔ (mode % 64 ≡ 0)
unfolding require_owner_only_permissions
owner_only mode =
    let e : bit_and (bit_and mode 511) 63 ≡ mode % 64 =
      bit_and-lower6 (bit_and mode 511) ∙ omega (arith, bit_and-lower9 mode) in
    (λ h. ground (arith, h, e), λ h. ground (arith, h, e))

all_four :
    (a b c d : Bool) → (a && b && c && d) ≡ true → (a ≡ true) × (b ≡ true) × (c ≡ true) × (d ≡ true)
all_four true true true true h = (refl, refl, refl, refl)
all_four true true true false h = absurd cc
all_four true true false d h = absurd cc
all_four true false c d h = absurd cc
all_four false b c d h = absurd cc

credential_permissions :
    (owner mode : ℕ) (regular : Bool) (acl : List ℕ) (euid : ℕ)
    → service_credential_permissions owner mode regular acl euid ≡ true
    → (owner ≡ 0) × (mode % 4096 ≡ 0o440) × (regular ≡ true) × (acl ≡ service_acl euid)
unfolding service_credential_permissions
credential_permissions owner mode regular acl euid h =
    let expected = copy_at 16 (to_le_bytes 4 euid) credential_acl in
    let (root, reads, kind, same) =
      all_four (owner == 0) (bit_and mode 4095 == 0o440) regular (same_bytes acl expected) h in
    (
      ground (arith, root),
      ground (arith, reads, bit_and-lower12 mode),
      kind,
      same_bytes-eq acl expected same ∙ written_acl euid,
    )

credential_allowed :
    (owner mode : ℕ) (regular : Bool) (euid : ℕ)
    → owner ≡ 0
    → mode % 4096 ≡ 0o440
    → regular ≡ true
    → service_credential_permissions owner mode regular (service_acl euid) euid ≡ true
unfolding service_credential_permissions
credential_allowed owner mode regular euid root reads kind =
    let same : same_bytes (service_acl euid) (service_acl euid) ≡ true =
      same_bytes_refl (service_acl euid) in
    let bits : bit_and mode 4095 ≡ 0o440 = bit_and-lower12 mode ∙ reads in
    rw (root, bits, kind) same

both : {a b : Bool} → (a && b) ≡ true → (a ≡ true) × (b ≡ true)
both {a = true} h = (refl, h)
both {a = false} h = absurd cc

credential_iff :
    (euid mode owner : ℕ) (regular : Bool) (access_acl content : Option (List ℕ))
    → let file : File = record {
      mode = mode;
      owner = owner;
      regular = regular;
      access_acl = access_acl;
      content = content;
    } in
      (is_service_credential euid file ≡ true) ↔ IsServiceCredential euid file
unfolding is_service_credential
credential_iff euid mode owner regular none content =
    (λ h. absurd cc, λ (root, reads, kind, acl). absurd cc)
credential_iff euid mode owner regular (some acl) content = (
  λ h.
      let (sized, allowed) = both h in
      let (root, reads, kind, same) = credential_permissions owner mode regular acl euid allowed in
      (root, reads, kind, ap some same),
  λ (root, reads, kind, same).
      let e : acl ≡ service_acl euid = cc in
      subst
        (λ a. (length a == 44 && service_credential_permissions owner mode regular a euid) ≡ true)
        (sym e) (credential_allowed owner mode regular euid root reads kind),
)

pub allowed_iff :
    (euid : ℕ) (file : File)
    → ((require_owner_only_permissions file.mode ≡ true) ⊎ (is_service_credential euid file ≡ true))
      ↔ ((file.mode % 64 ≡ 0) ⊎ IsServiceCredential euid file)
allowed_iff euid file =
    let (out, back) =
      credential_iff euid file.mode file.owner file.regular file.access_acl file.content in
    (
      λ h. elim h [ inl a ↦ inl ((owner_only file.mode).0 a) | inr b ↦ inr (out b) ],
      λ h. elim h [ inl a ↦ inl ((owner_only file.mode).1 a) | inr b ↦ inr (back b) ],
    )
