-- ===== src/RateLimit/Admission.antt =====
-- The rate limiter with its guards: every admitted test holds a guard, whose drop releases its
-- slot, while checks, drops and cleanups come in any order.
use mathlib.Core.Logic.{ite, if_pos}
use mathlib.Core.Path.{sym, ◌∙◌}
use xfr.Prelude.{
  ℕ, zero, suc, ◌+◌, ◌-◌, ◌≤◌, ◌<◌, ◌≡◌, refl, ap, inl, inr, ◌⊎◌, Option, none, some, List, [], ◌∷◌,
  get_elem?, arith, leb, Bool-cases,
}
use xfr.RateLimit.{
  IpState, RateLimiter, RateLimitError, count_of, check, release, cleanup, current_count, update,
  released, entry_or_insert, new,
}

-- The limiter and the live guards, each holding its address.
pub record World (Ip : Type 0) : Type 0 where
  pub limiter : RateLimiter Ip
  pub guards : List Ip

-- A test asks for admission, a guard is dropped, or the cleanup task ticks.
pub data Op (Ip : Type 0) : Type 0 where
  admit : Ip → ℕ → Op Ip
  drop_guard : ℕ → Op Ip
  tick : ℕ → Op Ip

abbrev remove_at : {Ip : Type 0} → List Ip → ℕ → List Ip
remove_at [] i = []
remove_at (x ∷ xs) zero = xs
remove_at (x ∷ xs) (suc i) = x ∷ remove_at xs i

-- Cleanup changes no address's count.
pub current_count-cleanup :
    {Ip : Type 0} (now : ℕ) (l : RateLimiter Ip) (ip : Ip)
    → current_count (cleanup now l) ip ≡ current_count l ip
unfolding current_count cleanup
current_count-cleanup now l ip = ground arith

module _ {Ip : Type 0} (same : Discrete Ip) where
  -- How many live guards an address holds.
  unfoldable pub tally : Ip → List Ip → ℕ
  tally ip [] = 0
  tally ip (g ∷ guards) = ite (same ip g) 1 0 + tally ip guards

  -- An Ok makes a guard.
  abbrev after_check : Ip → List Ip → RateLimiter Ip × Option (RateLimitError Ip) → World Ip
  after_check ip guards (l, none) = record { limiter = l; guards = ip ∷ guards }
  after_check ip guards (l, some e) = record { limiter = l; guards = guards }

  abbrev after_drop : Option Ip → ℕ → World Ip → World Ip
  after_drop none i w = w
  after_drop (some ip) i w = record {
    limiter = release same w.limiter ip;
    guards = remove_at w.guards i;
  }

  unfoldable pub step : World Ip → Op Ip → World Ip
  step w (admit ip now) = after_check ip w.guards (check same now w.limiter ip)
  step w (drop_guard i) = after_drop (get_elem? w.guards i) i w
  step w (tick now) = record w { limiter = cleanup now w.limiter }

  unfoldable pub run : World Ip → List (Op Ip) → World Ip
  run w [] = w
  run w (op ∷ ops) = run (step w op) ops

  -- What every address can rely on.
  pub record IsExact (max : ℕ) (w : World Ip) : Type 0 where
    pub limit : w.limiter.max_per_ip ≡ max
    pub counts : (ip : Ip) → current_count w.limiter ip ≡ tally ip w.guards
    pub bounded : (ip : Ip) → tally ip w.guards ≤ max

  tally-remove_at :
      (guards : List Ip) (i : ℕ) (g ip : Ip)
      → get_elem? guards i ≡ some g
      → tally ip (remove_at guards i) + ite (same ip g) 1 0 ≡ tally ip guards
  unfolding tally
  tally-remove_at [] i g ip h = cc
  tally-remove_at (x ∷ xs) zero g ip h = let e : x ≡ g = cc in rw e (omega arith)
  tally-remove_at (x ∷ xs) (suc i) g ip h = omega (arith, tally-remove_at xs i g ip h)

  -- an entry of one address replaced
  count-update :
      (limits : Ip → Option IpState) (ip : Ip) (entry : Option IpState) (j : Ip)
      → count_of (update same limits ip entry j)
        ≡ ite (same j ip) (count_of entry) (count_of (limits j))
  unfolding update
  count-update limits ip entry j =
      elim (same j ip)
        as (λ d. count_of (ite d entry (limits j)) ≡ ite d (count_of entry) (count_of (limits j))) [
          | yes p ↦ refl
          | no p ↦ refl
        ]

  own_at :
      (ip j : Ip) (d : Dec (j ≡ ip)) (n : ℕ) (f : Ip → ℕ) → ite d (n + f ip) (f j) ≡ ite d n 0 + f j
  own_at ip j (yes p) n f = ap (λ x. n + f x) (sym p)
  own_at ip j (no p) n f = omega arith

  keep_at : (ip j : Ip) (d : Dec (j ≡ ip)) (f : Ip → ℕ) → ite d (f ip) (f j) ≡ f j
  keep_at ip j (yes p) f = ap f (sym p)
  keep_at ip j (no p) f = refl

  entry_count : (now : ℕ) (o : Option IpState) → (entry_or_insert now o).count ≡ count_of o
  entry_count now none = refl
  entry_count now (some s) = refl

  check_refused :
      (now : ℕ) (l : RateLimiter Ip) (ip : Ip)
      → l.max_per_ip ≤ current_count l ip
      → check same now l ip ≡ (
        record l { limits = update same l.limits ip (some (entry_or_insert now (l.limits ip))) },
        some (record { ip = ip; current = current_count l ip; max = l.max_per_ip }),
      )
  unfolding check current_count
  check_refused now l ip full = rw (entry_count now (l.limits ip)) (ground arith)

  check_admitted :
      (now : ℕ) (l : RateLimiter Ip) (ip : Ip)
      → current_count l ip < l.max_per_ip
      → check same now l ip ≡ (
        record l {
          limits =
              update same l.limits ip
                (some (record { count = current_count l ip + 1; last_access = now }));
        },
        none,
      )
  unfolding check current_count
  check_admitted now l ip room = rw (entry_count now (l.limits ip)) (ground arith)

  count-refused :
      (now : ℕ) (l : RateLimiter Ip) (ip j : Ip)
      → current_count
          (record l { limits = update same l.limits ip (some (entry_or_insert now (l.limits ip))) })
          j
        ≡ current_count l j
  unfolding current_count
  count-refused now l ip j =
      count-update l.limits ip (some (entry_or_insert now (l.limits ip))) j
      ∙ rw (entry_count now (l.limits ip)) (keep_at ip j (same j ip) (λ i. count_of (l.limits i)))

  count-admitted :
      (now : ℕ) (l : RateLimiter Ip) (ip j : Ip)
      → current_count
          (record l {
            limits =
                update same l.limits ip
                  (some (record { count = current_count l ip + 1; last_access = now }));
          })
          j
        ≡ ite (same j ip) 1 0 + current_count l j
  unfolding current_count
  count-admitted now l ip j =
      count-update l.limits ip (some (record { count = current_count l ip + 1; last_access = now }))
        j
      ∙ let e : current_count l ip + 1 ≡ 1 + current_count l ip = omega arith in
        rw e (own_at ip j (same j ip) 1 (λ i. count_of (l.limits i)))

  tally-held :
      (guards : List Ip) (i : ℕ) (g : Ip) → get_elem? guards i ≡ some g → 1 ≤ tally g guards
  tally-held guards i g h =
      let e : ite {C = ℕ} (same g g) 1 0 ≡ 1 = if_pos (same g g) refl 1 0 in
      omega (arith, tally-remove_at guards i g g h)

  count-released : (o : Option IpState) → count_of (released o) ≡ count_of o - 1
  count-released none = refl
  count-released (some s) = refl

  released_at :
      (ip j : Ip) (d : Dec (j ≡ ip)) (f : Ip → ℕ)
      → 1 ≤ f ip
      → ite d (f ip - 1) (f j) + ite d 1 0 ≡ f j
  released_at ip j (yes p) f h = let e : f j ≡ f ip = ap f p in omega arith
  released_at ip j (no p) f h = omega arith

  count-release :
      (l : RateLimiter Ip) (ip j : Ip)
      → 1 ≤ current_count l ip
      → current_count (release same l ip) j + ite (same j ip) 1 0 ≡ current_count l j
  unfolding release current_count
  count-release l ip j held = rw (count-update l.limits ip (released (l.limits ip)) j) (
      rw (count-released (l.limits ip))
        (released_at ip j (same j ip) (λ i. count_of (l.limits i)) held))

  new-IsExact : (max window : ℕ) → IsExact max (record { limiter = new max window; guards = [] })
  unfolding new current_count tally
  new-IsExact max window = record { limit = refl; counts = λ ip. refl; bounded = λ ip. omega arith }

  room_for :
      (ip j : Ip) (d : Dec (j ≡ ip)) (max : ℕ) (f : Ip → ℕ)
      → f ip < max
      → f j ≤ max
      → ite d 1 0 + f j ≤ max
  room_for ip j (yes p) max f h le = let e : f j ≡ f ip = ap f p in omega arith
  room_for ip j (no p) max f h le = omega arith

  dropped_count :
      (max i : ℕ) (w : World Ip) (ip j : Ip)
      → get_elem? w.guards i ≡ some ip
      → IsExact max w
      → current_count (release same w.limiter ip) j ≡ tally j (remove_at w.guards i)
  dropped_count max i w ip j h ok =
      let held : 1 ≤ current_count w.limiter ip =
        omega (arith, tally-held w.guards i ip h, ok.counts ip) in
      omega
        (arith, count-release w.limiter ip j held, tally-remove_at w.guards i ip j h, ok.counts j)

  admit-IsExact :
      (max now : ℕ) (ip : Ip) (w : World Ip)
      → IsExact max w
      → IsExact max (after_check ip w.guards (check same now w.limiter ip))
  unfolding tally
  admit-IsExact max now ip w ok =
      elim (Bool-cases (leb w.limiter.max_per_ip (current_count w.limiter ip))) [
        | inl h ↦
            let full : w.limiter.max_per_ip ≤ current_count w.limiter ip = ground arith in
            rw (check_refused now w.limiter ip full) (record {
              limit = ok.limit;
              counts = λ j. count-refused now w.limiter ip j ∙ ok.counts j;
              bounded = ok.bounded;
            })
        | inr h ↦
            let room : current_count w.limiter ip < w.limiter.max_per_ip = ground arith in
            rw (check_admitted now w.limiter ip room) (record {
              limit = ok.limit;
              counts = λ j.
                  count-admitted now w.limiter ip j
                  ∙ ap (λ n. ite (same j ip) 1 0 + n) (ok.counts j);
              bounded = λ j.
                  room_for ip j (same j ip) max (λ i. tally i w.guards)
                    (omega (arith, ok.limit, ok.counts ip)) (ok.bounded j);
            })
      ]

  drop-IsExact :
      (max i : ℕ) (w : World Ip) (held : Option Ip)
      → get_elem? w.guards i ≡ held
      → IsExact max w
      → IsExact max (after_drop held i w)
  unfolding release
  drop-IsExact max i w none h ok = ok
  drop-IsExact max i w (some ip) h ok = record {
    limit = ok.limit;
    counts = λ j. dropped_count max i w ip j h ok;
    bounded = λ j. omega (arith, ok.bounded j, tally-remove_at w.guards i ip j h);
  }

  step-IsExact : (max : ℕ) (w : World Ip) (op : Op Ip) → IsExact max w → IsExact max (step w op)
  unfolding step cleanup
  step-IsExact max w (admit ip now) ok = admit-IsExact max now ip w ok
  step-IsExact max w (drop_guard i) ok = drop-IsExact max i w (get_elem? w.guards i) refl ok
  step-IsExact max w (tick now) ok = record {
    limit = ok.limit;
    counts = λ j. current_count-cleanup now w.limiter j ∙ ok.counts j;
    bounded = ok.bounded;
  }

  run-IsExact_from :
      (max : ℕ) (w : World Ip) (ops : List (Op Ip)) → IsExact max w → IsExact max (run w ops)
  unfolding run
  run-IsExact_from max w [] ok = ok
  run-IsExact_from max w (op ∷ ops) ok =
      run-IsExact_from max (step w op) ops (step-IsExact max w op ok)

  -- In any order of admissions, drops and cleanup ticks from a new limiter, every address's count
  -- is its number of live guards and never exceeds the maximum.
  pub run-IsExact :
      (max window : ℕ) (ops : List (Op Ip))
      → IsExact max (run (record { limiter = new max window; guards = [] }) ops)
  run-IsExact max window ops = run-IsExact_from max _ ops (new-IsExact max window)

  -- A check is refused exactly when the address's count has reached the maximum, the error reports
  -- that count, and no count changes; otherwise only that address's count goes up, by one.
  pub check_lem :
      (now : ℕ) (l : RateLimiter Ip) (ip j : Ip)
      → ((l.max_per_ip ≤ current_count l ip)
          × ((check same now l ip).1
              ≡ some (record { ip = ip; current = current_count l ip; max = l.max_per_ip }))
          × (current_count (check same now l ip).0 j ≡ current_count l j))
        ⊎ ((current_count l ip < l.max_per_ip)
            × ((check same now l ip).1 ≡ none)
            × (current_count (check same now l ip).0 j ≡ ite (same j ip) 1 0 + current_count l j))
  check_lem now l ip j = elim (Bool-cases (leb l.max_per_ip (current_count l ip))) [
    | inl h ↦
        let full : l.max_per_ip ≤ current_count l ip = ground arith in
        rw (check_refused now l ip full) (inl (full, refl, count-refused now l ip j))
    | inr h ↦
        let room : current_count l ip < l.max_per_ip = ground arith in
        rw (check_admitted now l ip room) (inr (room, refl, count-admitted now l ip j))
  ]
