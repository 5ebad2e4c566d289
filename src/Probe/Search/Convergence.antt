-- ===== src/Probe/Search/Convergence.antt =====
-- The binary search's rounds on any path, lossy ones included.
use native.Mathlib.Nat.{pow-suc}
use xfr.Prelude.{
  ℕ, zero, suc, ◌+◌, ◌-◌, ◌/◌, ◌^◌, ◌≤◌, ◌<◌, ◌≡◌, ◌⊎◌, inl, inr, refl, ap, true, false, Option,
  none, some, List, arith, leb, Bool-cases,
}
use xfr.Probe.Search.{
  SizeVerdict, pass, fail, local_limit, SizeSearch, next_size, fresh_size, record_verdict,
  run_search, search_round,
}

-- The size did not get through.
abbrev pub Blocked : SizeVerdict → Type 0
Blocked v = (v ≡ fail) ⊎ (v ≡ local_limit)

-- `run_probe` reports one of three forward verdicts, and never `Untested`.
abbrev pub IsDefinite : (ℕ → SizeVerdict) → Type 0
IsDefinite oracle = (size : ℕ) → (oracle size ≡ pass) ⊎ Blocked (oracle size)

-- The search returned, and its largest passing size stands right below a blocked one.
pub record Found (oracle : ℕ → SizeVerdict) (lo hi : ℕ) (r : Option SizeSearch) : Type 0 where
  pub final : SizeSearch
  pub returns : r ≡ some final
  pub best : ℕ
  pub low_best : final.low ≡ some best
  pub at_least : lo ≤ best
  pub below : best < hi
  pub passes : oracle best ≡ pass
  pub blocked_above : Blocked (oracle (suc best))

Found-mono :
    (oracle : ℕ → SizeVerdict) (lo lo' hi hi' : ℕ) (r : Option SizeSearch)
    → lo ≤ lo'
    → hi' ≤ hi
    → Found oracle lo' hi' r
    → Found oracle lo hi r
Found-mono oracle lo lo' hi hi' r p q f = record {
  final = f.final;
  returns = f.returns;
  best = f.best;
  low_best = f.low_best;
  at_least = omega (arith, f.at_least);
  below = omega (arith, f.below);
  passes = f.passes;
  blocked_above = f.blocked_above;
}

-- The state of the binary phase with a bracket.
abbrev pub bracketed : List ℕ → ℕ → ℕ → ℕ → SizeSearch
bracketed ladder idx l h = record {
  ladder = ladder;
  ladder_idx = idx;
  low = some l;
  high = some h;
  in_binary = true;
  pending = none;
}

record_pass :
    (ladder : List ℕ) (idx l h p : ℕ) (v : SizeVerdict)
    → v ≡ pass
    → l < p
    → record_verdict (record (bracketed ladder idx l h) { pending = some p }) p v
      ≡ bracketed ladder idx p h
unfolding record_verdict
record_pass ladder idx l h p v e lt = rw e (ground arith)

record-Blocked :
    (ladder : List ℕ) (idx l h p : ℕ) (v : SizeVerdict)
    → Blocked v
    → p < h
    → record_verdict (record (bracketed ladder idx l h) { pending = some p }) p v
      ≡ bracketed ladder idx l p
unfolding record_verdict
record-Blocked ladder idx l h p v (inl e) lt = rw e (ground arith)
record-Blocked ladder idx l h p v (inr e) lt = rw e (ground arith)

next-closed :
    (ladder : List ℕ) (idx l h : ℕ)
    → h - l ≤ 1
    → next_size (bracketed ladder idx l h) ≡ (bracketed ladder idx l h, none)
unfolding next_size fresh_size
next-closed ladder idx l h c = let e : leb (h - l) 1 ≡ true = ground arith in rw e refl

next-middle :
    (ladder : List ℕ) (idx l h : ℕ)
    → 1 < h - l
    → next_size (bracketed ladder idx l h) ≡ (
      record (bracketed ladder idx l h) { pending = some (l + (h - l) / 2) },
      some (l + (h - l) / 2),
    )
unfolding next_size fresh_size
next-middle ladder idx l h c = let e : leb (h - l) 1 ≡ false = ground arith in rw e refl

pub run_search-stop :
    (fuel : ℕ) (oracle : ℕ → SizeVerdict) (s : SizeSearch) {s' : SizeSearch}
    → next_size s ≡ (s', none)
    → run_search (suc fuel) oracle s ≡ some s'
unfolding run_search
run_search-stop fuel oracle s e = ap (search_round (run_search fuel oracle) oracle) e

pub run_search-probe :
    (fuel : ℕ) (oracle : ℕ → SizeVerdict) (s : SizeSearch) {s' : SizeSearch} {p : ℕ}
    → next_size s ≡ (s', some p)
    → run_search (suc fuel) oracle s ≡ run_search fuel oracle (record_verdict s' p (oracle p))
unfolding run_search
run_search-probe fuel oracle s e = ap (search_round (run_search fuel oracle) oracle) e

binary_closed :
    (fuel : ℕ) (oracle : ℕ → SizeVerdict) (ladder : List ℕ) (idx l h : ℕ)
    → l < h
    → h - l ≤ 1
    → oracle l ≡ pass
    → Blocked (oracle h)
    → Found oracle l h (run_search (suc fuel) oracle (bracketed ladder idx l h))
binary_closed fuel oracle ladder idx l h lt closed ok bad = record {
  final = bracketed ladder idx l h;
  returns = run_search-stop fuel oracle _ (next-closed ladder idx l h closed);
  best = l;
  low_best = refl;
  at_least = omega arith;
  below = lt;
  passes = ok;
  blocked_above = let e : suc l ≡ h = omega arith in rw e bad;
}

-- Halving closes any bracket of at most 2^k sizes within k + 1 rounds.
pub binary-Found :
    (fuel k : ℕ) (oracle : ℕ → SizeVerdict) (ladder : List ℕ) (idx l h : ℕ)
    → IsDefinite oracle
    → k < fuel
    → l < h
    → h - l ≤ 2 ^ k
    → oracle l ≡ pass
    → Blocked (oracle h)
    → Found oracle l h (run_search fuel oracle (bracketed ladder idx l h))
binary-Found zero k oracle ladder idx l h d enough lt gap ok bad = absurd (omega arith)
binary-Found (suc fuel) zero oracle ladder idx l h d enough lt gap ok bad =
    binary_closed fuel oracle ladder idx l h lt (omega arith) ok bad
binary-Found (suc fuel) (suc k) oracle ladder idx l h d enough lt gap ok bad =
    let mid = l + (h - l) / 2 in
    let half : h - l - (h - l) / 2 ≤ 2 ^ k = omega (arith, pow-suc 2 k) in
    elim (Bool-cases (leb (h - l) 1)) [
      | inl closed ↦ binary_closed fuel oracle ladder idx l h lt (ground arith) ok bad
      | inr wide ↦
          rw (run_search-probe fuel oracle _ (next-middle ladder idx l h (ground arith)))
            (elim (d mid) [
              | inl good ↦ rw (record_pass ladder idx l h mid (oracle mid) good (ground arith)) (
                  Found-mono oracle l mid h h _ (omega arith) (omega arith) (
                    binary-Found fuel k oracle ladder idx mid h d (omega arith) (ground arith)
                      (omega arith) good bad))
              | inr stuck ↦
                  rw (record-Blocked ladder idx l h mid (oracle mid) stuck (ground arith)) (
                    Found-mono oracle l l h mid _ (omega arith) (omega arith) (
                      binary-Found fuel k oracle ladder idx l mid d (omega arith) (ground arith)
                        (omega arith) ok stuck))
            ])
    ]
