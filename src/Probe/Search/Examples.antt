-- ===== src/Probe/Search/Examples.antt =====
-- Searches over concrete paths.
use xfr.Prelude.{ℕ, ◌≡◌, refl, inl, inr, false, some, arith, leb, if◌then◌else◌}
use xfr.Probe.Search
use xfr.Probe.Search.{
  SizeVerdict, pass, fail, SizeSearch, run_search, forward_max, size_ladder, next_size, fresh_size,
  record_verdict,
}
use xfr.Probe.Search.Ladder.{Settled, size_search_settles}
use xfr.Probe.Search.PathLimit.{HasLimit, size_search_exact}

-- A path of wire MTU 1450 over IPv4.
abbrev tunnel : ℕ → SizeVerdict
tunnel size = if leb size 1422 then pass else fail

tunnel-HasLimit : HasLimit tunnel 1422
tunnel-HasLimit = record { carries = λ size h. ground arith; drops = λ size h. inl (ground arith) }

-- A path that drops everything.
abbrev dead : ℕ → SizeVerdict
dead size = fail

size_search_settles_example : Settled dead 548 9188 (run_search 24 dead (Search.new false))
size_search_settles_example =
    size_search_settles 24 false dead (λ size. inr (inl refl)) (omega arith)

size_search_exact_example :
    (final : SizeSearch) × (run_search 24 tunnel (Search.new false) ≡ some final)
    × (forward_max final ≡ some 1422)
size_search_exact_example = size_search_exact 24 false tunnel 1422 tunnel-HasLimit (omega arith)
