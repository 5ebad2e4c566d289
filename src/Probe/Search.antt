-- ===== src/Probe/Search.antt =====
-- src/probe.rs, `size_ladder` and `SizeSearch`: a ladder of sizes, then a binary search between
-- the largest size that passed and the smallest that failed. The driver keeps no sockets.
pub mod Convergence
pub mod Ladder
pub mod PathLimit
mod Examples
use xfr.Prelude.{
  ℕ, zero, suc, ◌+◌, ◌-◌, ◌/◌, ◌≤◌, ◌<◌, ◌≡◌, Bool, true, false, ◌&&◌, ◌||◌, not, Option, none,
  some, List, [], ◌∷◌, ◌++◌, map, get_elem?, ltb, leb, ◌==◌, if◌then◌else◌,
}

pub data SizeVerdict : Type 0 where
  pass fail local_limit untested : SizeVerdict

unfoldable pub ip_overhead : Bool → ℕ
ip_overhead is_ipv6 = if is_ipv6 then 48 else 28

abbrev pub min_probe_payload_v4 : ℕ
min_probe_payload_v4 = 548

unfoldable pub min_probe_payload : Bool → ℕ
unfolding ip_overhead
min_probe_payload is_ipv6 = if is_ipv6 then 1280 - ip_overhead true else min_probe_payload_v4

-- the wire MTUs of the ladder
abbrev pub wire_sizes : List ℕ
wire_sizes = 576 ∷ 1280 ∷ 1492 ∷ 1500 ∷ 4352 ∷ 9000 ∷ 9216 ∷ []

-- .filter(|&p| (lo..=hi).contains(&p))
unfoldable pub keep_between : ℕ → ℕ → List ℕ → List ℕ
keep_between lo hi [] = []
keep_between lo hi (p ∷ ps) =
    let rest = keep_between lo hi ps in if leb lo p && leb p hi then p ∷ rest else rest

-- if ladder.first() != Some(&p) { ladder.insert(0, p) }
unfoldable pub ensure_first : ℕ → List ℕ → List ℕ
ensure_first p [] = p ∷ []
ensure_first p (x ∷ xs) = if x == p then x ∷ xs else p ∷ x ∷ xs

-- if ladder.last() != Some(&p) { ladder.push(p) }
unfoldable pub ensure_last : ℕ → List ℕ → List ℕ
ensure_last p [] = p ∷ []
ensure_last p (x ∷ []) = if x == p then x ∷ [] else x ∷ p ∷ []
ensure_last p (x ∷ y ∷ xs) = x ∷ ensure_last p (y ∷ xs)

-- Vec::dedup
unfoldable pub dedup : List ℕ → List ℕ
dedup [] = []
dedup (x ∷ []) = x ∷ []
dedup (x ∷ y ∷ xs) = let rest = dedup (y ∷ xs) in if x == y then rest else x ∷ rest

unfoldable pub size_ladder : Bool → List ℕ
unfolding ip_overhead min_probe_payload keep_between ensure_first ensure_last dedup
size_ladder is_ipv6 =
    let overhead = ip_overhead is_ipv6 in
    let min_payload = min_probe_payload is_ipv6 in
    let max_payload = 9216 - overhead in
    let ladder = keep_between min_payload max_payload (map (λ wire. wire - overhead) wire_sizes) in
    dedup (ensure_last max_payload (ensure_first min_payload ladder))

pub record SizeSearch : Type 0 where
  pub ladder : List ℕ
  pub ladder_idx : ℕ
  pub low : Option ℕ
  pub high : Option ℕ
  pub in_binary : Bool
  pub pending : Option ℕ

unfoldable pub new : Bool → SizeSearch
unfolding size_ladder
new is_ipv6 = record {
  ladder = size_ladder is_ipv6;
  ladder_idx = 0;
  low = none;
  high = none;
  in_binary = false;
  pending = none;
}

unfoldable pub midpoint_of : Option ℕ → Option ℕ → Option ℕ
midpoint_of none high = none
midpoint_of (some low) none = none
midpoint_of (some low) (some high) =
    if leb (high - low) 1 then none else some (low + (high - low) / 2)

unfoldable pub binary_midpoint : SizeSearch → Option ℕ
unfolding midpoint_of
binary_midpoint s = midpoint_of s.low s.high

-- self.high.is_some_and(|h| size >= h)
unfoldable pub at_or_above : Option ℕ → ℕ → Bool
at_or_above none size = false
at_or_above (some h) size = leb h size

-- The loop over the ladder from `ladder_idx`: `rungs` are the entries from there on. It returns the
-- index where it stopped and the rung, or none past the end.
unfoldable pub climb : Option ℕ → ℕ → List ℕ → ℕ × Option ℕ
climb high idx [] = (idx, none)
climb high idx (size ∷ rungs) =
    let above = climb high (idx + 1) rungs in
    if at_or_above high size then above else (idx, some size)

abbrev pub drop_to : ℕ → List ℕ → List ℕ
drop_to zero xs = xs
drop_to (suc n) [] = []
drop_to (suc n) (x ∷ xs) = drop_to n xs

-- past the ladder the search turns binary
unfoldable pub after_climb : SizeSearch → ℕ × Option ℕ → SizeSearch × Option ℕ
after_climb s (idx, some size) = (record s { ladder_idx = idx; pending = some size }, some size)
after_climb s (idx, none) =
    let next = binary_midpoint s in
    (record s { ladder_idx = idx; in_binary = true; pending = next }, next)

-- what `next_size` does when nothing is pending
unfoldable pub fresh_size : SizeSearch → SizeSearch × Option ℕ
unfolding after_climb binary_midpoint climb at_or_above
fresh_size s =
    if not s.in_binary
    then after_climb s (climb s.high s.ladder_idx (drop_to s.ladder_idx s.ladder))
    else let next = binary_midpoint s in (record s { pending = next }, next)

unfoldable pub next_at : Option ℕ → SizeSearch → SizeSearch × Option ℕ
next_at (some p) s = (s, some p)
next_at none s = fresh_size s

unfoldable pub next_size : SizeSearch → SizeSearch × Option ℕ
unfolding next_at
next_size s = next_at s.pending s

-- self.low.is_none_or(|l| size > l), then the new low; and the dual for the high
unfoldable pub raise_low : Option ℕ → ℕ → Option ℕ
raise_low none size = some size
raise_low (some l) size = if ltb l size then some size else some l

unfoldable pub lower_high : Option ℕ → ℕ → Option ℕ
lower_high none size = some size
lower_high (some h) size = if ltb size h then some size else some h

-- The bracket after a verdict. The source's assertion against `Untested` is compiled out of
-- release builds, where the verdict changes nothing.
unfoldable pub bracket : SizeVerdict → ℕ → SizeSearch → SizeSearch
bracket pass size s = record s { low = raise_low s.low size }
bracket fail size s = record s { high = lower_high s.high size }
bracket local_limit size s = record s { high = lower_high s.high size }
bracket untested size s = s

unfoldable pub record_verdict : SizeSearch → ℕ → SizeVerdict → SizeSearch
unfolding bracket raise_low lower_high
record_verdict s size forward = bracket forward size (record s {
  pending = none;
  ladder_idx = if not s.in_binary then s.ladder_idx + 1 else s.ladder_idx;
})

unfoldable pub forward_max : SizeSearch → Option ℕ
forward_max s = s.low

-- one turn of the loop, with the turns after it
abbrev pub search_round :
    (SizeSearch → Option SizeSearch) → (ℕ → SizeVerdict) → SizeSearch × Option ℕ → Option SizeSearch
search_round rest oracle (s, none) = some s
search_round rest oracle (s, some size) = rest (record_verdict s size (oracle size))

-- The loop of `run_probe`: probe, record, until `next_size` is none. `oracle` is the path's forward
-- verdict for a size; none means that the fuel ran out.
unfoldable pub run_search : ℕ → (ℕ → SizeVerdict) → SizeSearch → Option SizeSearch
run_search zero oracle s = none
run_search (suc fuel) oracle s = search_round (run_search fuel oracle) oracle (next_size s)
