-- ===== src/RateLimit/Examples.antt =====
-- Addresses as numbers, two tests an address.
use xfr.Prelude.{ℕ, ◌≡◌, List, [], ◌∷◌, ℕ_discrete}
use xfr.RateLimit.{RateLimiter, check, cleanup, current_count, new}
use xfr.RateLimit.Admission.{
  Op, admit, drop_guard, tick, run, IsExact, run-IsExact, current_count-cleanup,
}

abbrev history : List (Op ℕ)
history =
    admit 7 0
    ∷ admit 7 1
    ∷ admit 7 2
    ∷ tick 3
    ∷ admit 9 3
    ∷ drop_guard 1
    ∷ tick 400
    ∷ admit 7 401
    ∷ []

run-IsExact_example :
    IsExact ℕ_discrete 2 (run ℕ_discrete (record { limiter = new 2 60; guards = [] }) history)
run-IsExact_example = run-IsExact ℕ_discrete 2 60 history

-- one test of address 7 admitted
abbrev one_admitted : RateLimiter ℕ
one_admitted = (check ℕ_discrete 5 (new 1 60) 7).0

current_count-cleanup_example :
    current_count (cleanup 400 one_admitted) 7 ≡ current_count one_admitted 7
current_count-cleanup_example = current_count-cleanup 400 one_admitted 7
