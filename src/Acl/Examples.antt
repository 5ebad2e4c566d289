-- ===== src/Acl/Examples.antt =====
-- Networks that are a prefix of the number, of an IPv4 address.
use xfr.Prelude.{ℕ, ◌+◌, ◌*◌, ◌/◌, ◌^◌, ◌≡◌, ◌⊎◌, ◌↔◌, arith, Bool, true, false, [], ◌∷◌, ◌==◌}
use xfr.Acl.{IpAddr, v4, v6, normalize_ip, Acl, is_allowed, matched_rule}
use xfr.Acl.Decisions.{
  normalize_ip_mapped, Covers, is_allowed_iff, verdict, matched_rule-is_allowed,
}

-- a /24 network is the number of its prefix
abbrev contains : ℕ → IpAddr → Bool
contains n (v4 a) = a / 256 == n
contains n (v6 a) = false

abbrev acl : Acl ℕ
acl = record { allow = 7 ∷ 8 ∷ []; deny = 9 ∷ [] }

normalize_ip_mapped_example : normalize_ip (v6 (0xffff * 2 ^ 32 + 1792)) ≡ v4 1792
normalize_ip_mapped_example = normalize_ip_mapped 1792 (omega arith)

is_allowed_iff_example : (is_allowed contains acl (v4 2050) ≡ true) ↔ (
    ¬ Covers contains acl.deny (normalize_ip (v4 2050))
    × ((acl.allow ≡ []) ⊎ Covers contains acl.allow (normalize_ip (v4 2050))))
is_allowed_iff_example = is_allowed_iff contains acl (v4 2050)

matched_rule-is_allowed_example :
    is_allowed contains acl (v4 2050)
    ≡ verdict contains acl.allow (matched_rule contains acl (v4 2050))
matched_rule-is_allowed_example = matched_rule-is_allowed contains acl (v4 2050)
