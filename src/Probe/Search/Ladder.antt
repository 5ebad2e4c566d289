-- ===== src/Probe/Search/Ladder.antt =====
-- The ladder phase of the size search, and the search as a whole.
use xfr.Prelude.{
  ℕ, zero, suc, ◌+◌, ◌^◌, ◌≤◌, ◌<◌, ◌≡◌, ◌∙◌, inl, inr, refl, ap, Bool, true, false, Option, none,
  some, List, [], ◌∷◌, arith, length, if◌then◌else◌,
}
use xfr.Probe.Search
use xfr.Probe.Search.{
  SizeVerdict, pass, fail, local_limit, untested, SizeSearch, climb, at_or_above, drop_to,
  next_size, fresh_size, next_at, binary_midpoint, midpoint_of, after_climb, record_verdict,
  raise_low, lower_high, bracket, run_search, search_round, size_ladder, forward_max,
}
use xfr.Probe.Search.Convergence.{
  Blocked, IsDefinite, Found, bracketed, run_search-stop, run_search-probe, binary-Found,
}

abbrev climbing : List ℕ → ℕ → Option ℕ → SizeSearch
climbing ladder idx lo = record {
  ladder = ladder;
  ladder_idx = idx;
  low = lo;
  high = none;
  in_binary = false;
  pending = none;
}

abbrev Under : Option ℕ → ℕ → Type 0
Under none r = Unit
Under (some l) r = l < r

abbrev Ascending : ℕ → List ℕ → Type 0
Ascending l [] = Unit
Ascending l (r ∷ rs) = (l < r) × Ascending r rs

abbrev last_of : ℕ → List ℕ → ℕ
last_of l [] = l
last_of l (r ∷ rs) = last_of r rs

le-last_of : (l : ℕ) (rs : List ℕ) → Ascending l rs → l ≤ last_of l rs
le-last_of l [] h = omega arith
le-last_of l (r ∷ rs) h = omega (arith, le-last_of r rs h.1)

drop_to-suc : (idx r : ℕ) (xs rs : List ℕ) → drop_to idx xs ≡ r ∷ rs → drop_to (idx + 1) xs ≡ rs
drop_to-suc zero r [] rs h = cc
drop_to-suc zero r (x ∷ xs) rs h = ground (arith, h)
drop_to-suc (suc idx) r [] rs h = cc
drop_to-suc (suc idx) r (x ∷ xs) rs h =
    let e : suc idx + 1 ≡ suc (idx + 1) = omega arith in rw e (drop_to-suc idx r xs rs h)

next-rung :
    (ladder : List ℕ) (idx r : ℕ) (lo : Option ℕ) {rs : List ℕ}
    → drop_to idx ladder ≡ r ∷ rs
    → next_size (climbing ladder idx lo)
      ≡ (record (climbing ladder idx lo) { pending = some r }, some r)
unfolding next_size fresh_size
next-rung ladder idx r lo e = ap (λ rs. after_climb (climbing ladder idx lo) (climb none idx rs)) e

next-top :
    (ladder : List ℕ) (idx : ℕ) (lo : Option ℕ)
    → drop_to idx ladder ≡ []
    → next_size (climbing ladder idx lo)
      ≡ (record (climbing ladder idx lo) { in_binary = true }, none)
unfolding next_size fresh_size
next-top ladder idx none e = ap (λ rs. after_climb (climbing ladder idx none) (climb none idx rs)) e
next-top ladder idx (some l) e =
    ap (λ rs. after_climb (climbing ladder idx (some l)) (climb none idx rs)) e

climb-skips :
    (r idx : ℕ) (rs : List ℕ) → Ascending r rs → climb (some r) idx rs ≡ (idx + length rs, none)
unfolding climb at_or_above
climb-skips r idx rs h = skip idx r rs (omega arith) h
  where
    skip :
        (i low : ℕ) (xs : List ℕ)
        → r ≤ low
        → Ascending low xs
        → climb (some r) i xs ≡ (i + length xs, none)
    skip i low [] le a = ground arith
    skip i low (x ∷ xs) le a = ground (arith, skip (i + 1) x xs (omega arith) a.1)

abbrev capped : List ℕ → ℕ → Option ℕ → ℕ → SizeSearch
capped ladder idx lo r = record (climbing ladder idx lo) { high = some r }

record_rung_pass :
    (ladder : List ℕ) (idx r : ℕ) (lo : Option ℕ) (v : SizeVerdict)
    → v ≡ pass
    → Under lo r
    → record_verdict (record (climbing ladder idx lo) { pending = some r }) r v
      ≡ climbing ladder (idx + 1) (some r)
unfolding record_verdict
record_rung_pass ladder idx r none v e h = rw e refl
record_rung_pass ladder idx r (some l) v e h = rw e (ground arith)

record_rung-Blocked :
    (ladder : List ℕ) (idx r : ℕ) (lo : Option ℕ) (v : SizeVerdict)
    → Blocked v
    → record_verdict (record (climbing ladder idx lo) { pending = some r }) r v
      ≡ capped ladder (idx + 1) lo r
unfolding record_verdict
record_rung-Blocked ladder idx r lo v (inl e) = rw e refl
record_rung-Blocked ladder idx r lo v (inr e) = rw e refl

-- Above a failure the rest of the ladder is skipped, and the search turns binary.
capped-bracketed :
    (ladder : List ℕ) (idx l r : ℕ) (rs : List ℕ)
    → drop_to idx ladder ≡ rs
    → Ascending r rs
    → next_size (capped ladder idx (some l) r) ≡ next_size (bracketed ladder (idx + length rs) l r)
unfolding next_size fresh_size
capped-bracketed ladder idx l r rs e a =
    ap (after_climb (capped ladder idx (some l) r))
      (ap (climb (some r) idx) e ∙ climb-skips r idx rs a)

capped-none :
    (ladder : List ℕ) (idx r : ℕ) (rs : List ℕ)
    → drop_to idx ladder ≡ rs
    → Ascending r rs
    → next_size (capped ladder idx none r)
      ≡ (record (capped ladder idx none r) { ladder_idx = idx + length rs; in_binary = true }, none)
unfolding next_size fresh_size
capped-none ladder idx r rs e a =
    ap (after_climb (capped ladder idx none r)) (ap (climb (some r) idx) e ∙ climb-skips r idx rs a)

-- How a search from `lo` to `hi` can end: with the first size blocked, with the last one passing,
-- or with a best size right below a blocked one.
pub data Settled (oracle : ℕ → SizeVerdict) (lo hi : ℕ) (r : Option SizeSearch) : Type 0 where
  nothing :
      (final : SizeSearch)
      → r ≡ some final
      → forward_max final ≡ none
      → Blocked (oracle lo)
      → Settled oracle lo hi r
  everything :
      (final : SizeSearch)
      → r ≡ some final
      → forward_max final ≡ some hi
      → oracle hi ≡ pass
      → Settled oracle lo hi r
  best_found :
      (final : SizeSearch) (best : ℕ)
      → r ≡ some final
      → forward_max final ≡ some best
      → lo ≤ best
      → best < hi
      → oracle best ≡ pass
      → Blocked (oracle (suc best))
      → Settled oracle lo hi r

Found-Settled :
    (oracle : ℕ → SizeVerdict) (lo l hi h : ℕ) (r : Option SizeSearch)
    → lo ≤ l
    → h ≤ hi
    → Found oracle l h r
    → Settled oracle lo hi r
unfolding forward_max
Found-Settled oracle lo l hi h r p q f =
    best_found f.final f.best f.returns f.low_best (omega (arith, f.at_least))
      (omega (arith, f.below)) f.passes f.blocked_above

search-same :
    (fuel : ℕ) (oracle : ℕ → SizeVerdict) (s t : SizeSearch)
    → next_size s ≡ next_size t
    → run_search fuel oracle s ≡ run_search fuel oracle t
unfolding run_search
search-same zero oracle s t e = refl
search-same (suc fuel) oracle s t e = ap (search_round (run_search fuel oracle) oracle) e

module _ (k : ℕ) (oracle : ℕ → SizeVerdict) (d : IsDefinite oracle) (ladder : List ℕ) (lo hi : ℕ)
    (small : hi ≤ 2 ^ k) where
  -- From a rung that passed, the search settles.
  climb_settles :
      (fuel idx l : ℕ) (rs : List ℕ)
      → drop_to idx ladder ≡ rs
      → lo ≤ l
      → Ascending l rs
      → last_of l rs ≡ hi
      → oracle l ≡ pass
      → length rs + k + 1 < fuel
      → Settled oracle lo hi (run_search fuel oracle (climbing ladder idx (some l)))
  unfolding forward_max
  climb_settles zero idx l rs e low a top ok enough = absurd (omega arith)
  climb_settles (suc fuel) idx l [] e low a top ok enough =
      everything _ (run_search-stop fuel oracle _ (next-top ladder idx (some l) e)) (ap some top)
        (rw (← top) ok)
  climb_settles (suc fuel) idx l (r ∷ rs) e low a top ok enough =
      let more = drop_to-suc idx r ladder rs e in
      rw (run_search-probe fuel oracle _ (next-rung ladder idx r (some l) e)) (elim (d r) [
        | inl good ↦
            rw (record_rung_pass ladder idx r (some l) (oracle r) good a.0)
              (climb_settles fuel (idx + 1) r rs more (omega arith) a.1 top good (omega arith))
        | inr stuck ↦ rw (record_rung-Blocked ladder idx r (some l) (oracle r) stuck) (
            rw (search-same fuel oracle _ _ (capped-bracketed ladder (idx + 1) l r rs more a.1)) (
              Found-Settled oracle lo l hi r _ low (omega (arith, le-last_of r rs a.1)) (
                binary-Found fuel k oracle ladder (idx + 1 + length rs) l r d (omega arith) a.0
                  (omega (arith, le-last_of r rs a.1)) ok stuck)))
      ])

  first-Blocked :
      (fuel : ℕ) (rs : List ℕ)
      → drop_to 1 ladder ≡ rs
      → Ascending lo rs
      → Blocked (oracle lo)
      → 0 < fuel
      → Settled oracle lo hi (run_search fuel oracle (capped ladder 1 none lo))
  unfolding forward_max
  first-Blocked zero rs e a stuck some_fuel = absurd (omega arith)
  first-Blocked (suc fuel) rs e a stuck some_fuel =
      nothing _ (run_search-stop fuel oracle _ (capped-none ladder 1 lo rs e a)) refl stuck

  -- The whole search, from its first rung.
  search_settles :
      (fuel : ℕ) (rs : List ℕ)
      → ladder ≡ lo ∷ rs
      → Ascending lo rs
      → last_of lo rs ≡ hi
      → length ladder + k + 1 < fuel
      → Settled oracle lo hi (run_search fuel oracle (climbing ladder 0 none))
  unfolding forward_max
  search_settles zero rs e a top enough = absurd (omega arith)
  search_settles (suc fuel) rs e a top enough =
      let size : length ladder ≡ suc (length rs) = ap length e in
      let more = drop_to-suc 0 lo ladder rs e in
      rw (run_search-probe fuel oracle _ (next-rung ladder 0 lo none e)) (elim (d lo) [
        | inl good ↦
            rw (record_rung_pass ladder 0 lo none (oracle lo) good tt)
              (climb_settles fuel 1 lo rs more (omega arith) a top good (omega (arith, size)))
        | inr stuck ↦
            rw (record_rung-Blocked ladder 0 lo none (oracle lo) stuck)
              (first-Blocked fuel rs more a stuck (omega arith))
      ])

-- The search of `SizeSearch::new`, between the family's smallest and largest payloads.
abbrev pub smallest : Bool → ℕ
smallest is_ipv6 = if is_ipv6 then 1232 else 548

abbrev pub largest : Bool → ℕ
largest is_ipv6 = if is_ipv6 then 9168 else 9188

-- The size search ends on every path, lossy ones included: for either address family and any
-- forward verdicts (each a pass, a fail or a local limit), 24 rounds of `next_size` and `record`
-- are enough, and the search ends with nothing if the smallest size is blocked, with the largest
-- size if that passes, or with a size that passes right below a size that is blocked.
pub size_search_settles :
    (fuel : ℕ) (is_ipv6 : Bool) (oracle : ℕ → SizeVerdict)
    → IsDefinite oracle
    → 24 ≤ fuel
    → Settled oracle
        (smallest is_ipv6)
        (largest is_ipv6)
        (run_search fuel oracle (Search.new is_ipv6))
unfolding Search.new
size_search_settles fuel true oracle d enough =
    search_settles 14 oracle d (size_ladder true) 1232 9168 (omega arith) fuel _ refl (omega arith)
      refl (omega arith)
size_search_settles fuel false oracle d enough =
    search_settles 14 oracle d (size_ladder false) 548 9188 (omega arith) fuel _ refl (omega arith)
      refl (omega arith)
