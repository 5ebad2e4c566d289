-- ===== src/Protocol/Versions.antt =====
-- Which versions understand each other, and what a server that hides a capability advertises.
use xfr.Prelude.{
  ℕ, ◌≡◌, refl, ap, sym, ◌∙◌, Bool, true, false, not, ◌||◌, ◌&&◌, some, List, [], ◌∷◌, ◌++◌, ◌==◌,
  if◌then◌else◌,
}
use xfr.Prelude.Bytes.{same_bytes, same_bytes-eq}
use xfr.Protocol.{
  parse_u32, split_dots, cons_first, new_part, then_major, check_parts, major_of,
  parse_protocol_major, same_major, versions_compatible, any_is, capability_advertised,
  capabilities_without,
}

-- A part of a version has no dot in it.
abbrev pub NoDot : List ℕ → Type 0
NoDot [] = Unit
NoDot (c ∷ s) = ((c == b'.') ≡ false) × NoDot s

split_dots-part : (s : List ℕ) → NoDot s → split_dots s ≡ (s, [])
unfolding split_dots
split_dots-part [] h = refl
split_dots-part (c ∷ s) h =
    ap (λ b. if b then new_part (split_dots s) else cons_first c (split_dots s)) h.0
    ∙ ap (cons_first c) (split_dots-part s h.1)

split_dots-append :
    (s rest : List ℕ)
    → NoDot s
    → split_dots (s ++ b'.' ∷ rest) ≡ (s, (split_dots rest).0 ∷ (split_dots rest).1)
unfolding split_dots
split_dots-append [] rest h = refl
split_dots-append (c ∷ s) rest h =
    ap
      (λ b.
        if b
        then new_part (split_dots (s ++ b'.' ∷ rest))
        else cons_first c (split_dots (s ++ b'.' ∷ rest)))
      h.0
    ∙ ap (cons_first c) (split_dots-append s rest h.1)

major-two_parts :
    (major minor : List ℕ) (m n : ℕ)
    → NoDot major
    → NoDot minor
    → parse_u32 major ≡ some m
    → parse_u32 minor ≡ some n
    → parse_protocol_major (major ++ b'.' ∷ minor) ≡ some m
unfolding parse_protocol_major check_parts
major-two_parts major minor m n one two p q =
    ap major_of
      (split_dots-append major minor one ∙ ap (λ r. (major, r.0 ∷ r.1)) (split_dots-part minor two))
    ∙ ap (λ o. then_major o (then_major (parse_u32 minor) o)) p
    ∙ ap (λ o. then_major o (some m)) q

-- Versions of a major and a minor number are compatible exactly when their major numbers agree,
-- whatever the minor ones are.
pub versions_compatible_lem :
    (major minor major' minor' : List ℕ) (m n m' n' : ℕ)
    → NoDot major
    → NoDot minor
    → NoDot major'
    → NoDot minor'
    → parse_u32 major ≡ some m
    → parse_u32 minor ≡ some n
    → parse_u32 major' ≡ some m'
    → parse_u32 minor' ≡ some n'
    → versions_compatible (major ++ b'.' ∷ minor) (major' ++ b'.' ∷ minor') ≡ (m == m')
unfolding versions_compatible
versions_compatible_lem major minor major' minor' m n m' n' a b c d p q r s =
    ap (λ o. same_major o (parse_protocol_major (major' ++ b'.' ∷ minor')))
      (major-two_parts major minor m n a b p q)
    ∙ ap (same_major (some m)) (major-two_parts major' minor' m' n' c d r s)

none_left : (z : Bool) → false ≡ (not z && false)
none_left true = refl
none_left false = refl

-- one capability: excluded or not, the name or not, the name excluded or not
kept :
    (x y z w r : Bool)
    → r ≡ (not z && w)
    → (y ≡ true → z ≡ x)
    → (if not x then y || r else r) ≡ (not z && (y || w))
kept true true z w r h same =
    h ∙ ap (λ b. not b && w) (same refl) ∙ sym (ap (λ b. not b && true) (same refl))
kept true false z w r h same = h
kept false true z w r h same = sym (ap (λ b. not b && true) (same refl))
kept false false z w r h same = h

any_kept :
    (b : Bool) (c name : List ℕ) (caps : List (List ℕ))
    → any_is name (if b then c ∷ caps else caps)
      ≡ (if b then same_bytes c name || any_is name caps else any_is name caps)
unfolding any_is
any_kept true c name caps = refl
any_kept false c name caps = refl

-- A capability that is filtered out is not advertised, and every other one is advertised exactly if
-- it was before.
pub capability_advertised-without :
    (caps : List (List ℕ)) (excluded name : List ℕ)
    → capability_advertised (some (capabilities_without caps excluded)) name
      ≡ (not (same_bytes name excluded) && capability_advertised (some caps) name)
unfolding capability_advertised capabilities_without any_is
capability_advertised-without [] excluded name = none_left (same_bytes name excluded)
capability_advertised-without (c ∷ caps) excluded name =
    let z = same_bytes name excluded in
    any_kept (not (same_bytes c excluded)) c name (capabilities_without caps excluded)
    ∙ kept (same_bytes c excluded) (same_bytes c name) z (any_is name caps)
        (any_is name (capabilities_without caps excluded))
        (capability_advertised-without caps excluded name)
        (λ is. ap (λ n. same_bytes n excluded) (sym (same_bytes-eq c name is)))
