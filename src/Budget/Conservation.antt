-- ===== src/Budget/Conservation.antt =====
-- The invariant of the shared budget, and the exact transfer.
use xfr.Prelude.{
  ℕ, ◌+◌, ◌-◌, ◌≤◌, ◌<◌, ◌≡◌, ◌⊎◌, inl, inr, refl, min, Bool, true, false, ◌&&◌, not, some, arith,
  ltb, ◌==◌, get_elem?, set, Bool-cases,
}
use xfr.Prelude.Words.{u64_max}
use xfr.Budget.{ByteBudget, ClaimState, trying, returned, exchange, attempt, refund}
use xfr.Budget.Shared.{
  idle, claiming, holding, finished, System, after_attempt, Step, load, try, write, Reach, here,
  next, start,
}
use xfr.Budget.Senders.{
  held, any_live, held-set, any_live-set_live, any_live-set_dead, held-idle, any_live-idle,
  AllFinished, finished-quiet,
}

-- Every byte of the total is in the budget, in the hands of a loop, or written; and while bytes
-- remain, some loop has yet to see the budget empty.
pub record Conserves (total : ℕ) (s : System) : Type 0 where
  pub bytes : s.budget.remaining + held s.senders + s.written ≡ total
  pub live : (s.budget.remaining ≡ 0) ⊎ (any_live s.senders ≡ true)

-- The three outcomes of a round: the budget was seen empty, it moved, or the bytes are ours.
data Outcome (b : ByteBudget) (want current : ℕ) (r : ByteBudget × ClaimState) : Type 0 where
  spent : current ≡ 0 → r ≡ (b, returned 0) → Outcome b want current r
  moved : 0 < current → r ≡ (b, trying b.remaining) → Outcome b want current r
  taken :
      0 < min current want
      → b.remaining ≡ current
      → r ≡ (record { remaining = current - min current want }, returned (min current want))
      → Outcome b want current r

attempt-Outcome :
    (spurious : Bool) (b : ByteBudget) (want current : ℕ)
    → 0 < want
    → Outcome b want current (attempt spurious b want current)
unfolding attempt exchange
attempt-Outcome spurious b want current pos = elim (Bool-cases (min current want == 0)) [
  | inl nothing ↦ spent (ground arith) (rw nothing refl)
  | inr bytes ↦ elim (Bool-cases (not spurious && b.remaining == current)) [
    | inl same ↦ taken (ground arith) (ground arith) (rw (bytes, same) refl)
    | inr other ↦ moved (ground arith) (rw (bytes, other) refl)
  ]
]

module _ (total : ℕ) (fits : total ≤ u64_max) (s : System) (c : Conserves total s) where
  load-Conserves :
      (i want : ℕ)
      → get_elem? s.senders i ≡ some idle
      → Conserves total (record s { senders = set s.senders i (claiming want s.budget.remaining) })
  load-Conserves i want h = record {
    bytes = omega (arith, c.bytes, held-set s.senders i idle (claiming want s.budget.remaining) h);
    live = elim (Bool-cases (ltb 0 s.budget.remaining)) [
      | inl more ↦ inr (any_live-set_live s.senders i idle _ h more)
      | inr gone ↦ inl (ground arith)
    ];
  }

  write-Conserves :
      (i claimed n : ℕ)
      → get_elem? s.senders i ≡ some (holding claimed)
      → n ≤ claimed
      → Conserves total (record {
        budget = refund s.budget (claimed - n);
        senders = set s.senders i idle;
        written = s.written + n;
      })
  unfolding refund
  write-Conserves i claimed n h short =
      let moved = held-set s.senders i (holding claimed) idle h in
      record {
        bytes = ground (arith, c.bytes, moved);
        live = inr (any_live-set_live s.senders i (holding claimed) idle h refl);
      }

  -- the state after a round with outcome `r`
  abbrev tried : ℕ → ℕ → ByteBudget × ClaimState → System
  tried i want r = record s { budget = r.0; senders = set s.senders i (after_attempt want r.1) }

  tried-Conserves :
      (i want current : ℕ) (r : ByteBudget × ClaimState)
      → get_elem? s.senders i ≡ some (claiming want current)
      → Outcome s.budget want current r
      → Conserves total (tried i want r)
  unfolding after_attempt
  tried-Conserves i want current r h (spent seen e) = rw e (record {
    bytes = omega (arith, c.bytes, held-set s.senders i (claiming want current) finished h);
    live = elim c.live [
      | inl gone ↦ inl gone
      | inr others ↦
          inr
            (any_live-set_dead s.senders i (claiming want current) finished h (ground arith) others)
    ];
  })
  tried-Conserves i want current r h (moved pos e) = rw e (record {
    bytes = omega (
      arith,
      c.bytes,
      held-set s.senders i (claiming want current) (claiming want s.budget.remaining) h,
    );
    live = elim (Bool-cases (ltb 0 s.budget.remaining)) [
      | inl more ↦ inr (any_live-set_live s.senders i (claiming want current) _ h more)
      | inr gone ↦ inl (ground arith)
    ];
  })
  tried-Conserves i want current r h (taken pos same e) =
      let granted = min current want in
      let not_zero : (granted == 0) ≡ false = ground arith in
      rw (e, not_zero)
        (record {
          bytes = omega (
            arith,
            c.bytes,
            held-set s.senders i (claiming want current) (holding granted) h,
            same,
          );
          live =
              inr (any_live-set_live s.senders i (claiming want current) (holding granted) h refl);
        })

Step-Conserves :
    (total : ℕ) {s t : System} → total ≤ u64_max → Conserves total s → Step s t → Conserves total t
Step-Conserves total {s} fits c (load i want h pos) = load-Conserves total fits s c i want h
Step-Conserves total {s} fits c (try i want current spurious h pos) =
    tried-Conserves total fits s c i want current (attempt spurious s.budget want current) h
      (attempt-Outcome spurious s.budget want current pos)
Step-Conserves total {s} fits c (write i claimed n h short) =
    write-Conserves total fits s c i claimed n h short

start-Conserves : (total loops : ℕ) → 0 < loops → Conserves total (start total loops)
unfolding start
start-Conserves total loops pos = record {
  bytes = omega (arith, held-idle loops);
  live = elim (any_live-idle loops) [ inl empty ↦ absurd (omega arith) | inr idles ↦ inr idles ];
}

-- However the loads, exchanges (failing at will) and writes of the send loops interleave, every
-- byte of the budget is unclaimed, in the hands of one loop, or written: claims never add up to
-- more than the budget, and no short write loses a byte.
pub Reach-Conserves :
    (total loops : ℕ) (s : System)
    → total ≤ u64_max
    → 0 < loops
    → Reach (start total loops) s
    → Conserves total s
Reach-Conserves total loops s fits pos here = start-Conserves total loops pos
Reach-Conserves total loops s fits pos (next {t} r st) =
    Step-Conserves total fits (Reach-Conserves total loops t fits pos r) st

-- When every send loop has seen the budget spent and left, exactly the budget has been written,
-- however the steps interleaved and whichever writes were short.
pub transfer_exact :
    (total loops : ℕ) (s : System)
    → total ≤ u64_max
    → 0 < loops
    → Reach (start total loops) s
    → AllFinished s.senders
    → s.written ≡ total
transfer_exact total loops s fits pos r done =
    let c = Reach-Conserves total loops s fits pos r in
    let (none_held, none_live) = finished-quiet s.senders done in
    elim c.live [ inl gone ↦ omega (arith, c.bytes) | inr others ↦ cc ]
