-- ===== src/Probe/Search/PathLimit.antt =====
-- The search on a path that carries exactly the sizes up to a limit.
use xfr.Prelude.{
  ℕ, suc, ◌≤◌, ◌<◌, ◌≡◌, inl, inr, Bool, true, false, Option, none, some, arith, ltb, min,
  if◌then◌else◌, Bool-cases,
}
use xfr.Probe.Search
use xfr.Probe.Search.{SizeVerdict, pass, fail, local_limit, SizeSearch, run_search, forward_max}
use xfr.Probe.Search.Convergence.{Blocked, IsDefinite}
use xfr.Probe.Search.Ladder.{
  Settled, nothing, everything, best_found, size_search_settles, smallest, largest,
}

-- The path carries the sizes up to `limit` and no other.
pub record HasLimit (oracle : ℕ → SizeVerdict) (limit : ℕ) : Type 0 where
  pub carries : (size : ℕ) → size ≤ limit → oracle size ≡ pass
  pub drops : (size : ℕ) → limit < size → Blocked (oracle size)

HasLimit-IsDefinite :
    (oracle : ℕ → SizeVerdict) (limit : ℕ) → HasLimit oracle limit → IsDefinite oracle
HasLimit-IsDefinite oracle limit h size = elim (Bool-cases (ltb limit size)) [
  | inl over ↦ inr (h.drops size (ground arith))
  | inr under ↦ inl (h.carries size (ground arith))
]

pass-le :
    (oracle : ℕ → SizeVerdict) (limit size : ℕ)
    → HasLimit oracle limit
    → oracle size ≡ pass
    → size ≤ limit
pass-le oracle limit size h ok = elim (Bool-cases (ltb limit size)) [
  | inl over ↦ elim (h.drops size (ground arith)) [ inl e ↦ cc | inr e ↦ cc ]
  | inr under ↦ ground arith
]

Blocked-lt :
    (oracle : ℕ → SizeVerdict) (limit size : ℕ)
    → HasLimit oracle limit
    → Blocked (oracle size)
    → limit < size
Blocked-lt oracle limit size h bad = elim (Bool-cases (ltb limit size)) [
  | inl over ↦ ground arith
  | inr under ↦ let ok = h.carries size (ground arith) in elim bad [ inl e ↦ cc | inr e ↦ cc ]
]

-- the answer that the search owes
abbrev pub answer : Bool → ℕ → Option ℕ
answer is_ipv6 limit =
    if ltb limit (smallest is_ipv6) then none else some (min limit (largest is_ipv6))

bounds : (is_ipv6 : Bool) → smallest is_ipv6 ≤ largest is_ipv6
bounds true = omega arith
bounds false = omega arith

Settled-answer :
    (oracle : ℕ → SizeVerdict) (limit : ℕ) (is_ipv6 : Bool) (r : Option SizeSearch)
    → HasLimit oracle limit
    → Settled oracle (smallest is_ipv6) (largest is_ipv6) r
    → (final : SizeSearch) × (r ≡ some final) × (forward_max final ≡ answer is_ipv6 limit)
Settled-answer oracle limit is_ipv6 r h (nothing final e low bad) =
    let under = Blocked-lt oracle limit (smallest is_ipv6) h bad in
    let t : ltb limit (smallest is_ipv6) ≡ true = ground arith in (final, e, rw t low)
Settled-answer oracle limit is_ipv6 r h (everything final e low ok) =
    let over = pass-le oracle limit (largest is_ipv6) h ok in
    let t : ltb limit (smallest is_ipv6) ≡ false = ground (arith, bounds is_ipv6) in
    let m : min limit (largest is_ipv6) ≡ largest is_ipv6 = omega arith in (final, e, rw (t, m) low)
Settled-answer oracle limit is_ipv6 r h (best_found final best e low at_least below ok bad) =
    let over = pass-le oracle limit best h ok in
    let under = Blocked-lt oracle limit (suc best) h bad in
    let t : ltb limit (smallest is_ipv6) ≡ false = ground arith in
    let m : min limit (largest is_ipv6) ≡ best = omega arith in (final, e, rw (t, m) low)

-- The search finds the path's limit exactly: on a path that carries the sizes up to a limit and no
-- other, with 24 rounds or more, the result is the limit, capped by the largest size that is
-- tried, or nothing if the limit lies below the smallest one.
pub size_search_exact :
    (fuel : ℕ) (is_ipv6 : Bool) (oracle : ℕ → SizeVerdict) (limit : ℕ)
    → HasLimit oracle limit
    → 24 ≤ fuel
    → (final : SizeSearch) × (run_search fuel oracle (Search.new is_ipv6) ≡ some final)
      × (forward_max final ≡ answer is_ipv6 limit)
size_search_exact fuel is_ipv6 oracle limit h enough =
    Settled-answer oracle limit is_ipv6 _ h
      (size_search_settles fuel is_ipv6 oracle (HasLimit-IsDefinite oracle limit h) enough)
