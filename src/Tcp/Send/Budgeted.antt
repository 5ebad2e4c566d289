-- ===== src/Tcp/Send/Budgeted.antt =====
-- The send loop and its budget, on every way out of the loop.
use xfr.Prelude.{
  ℕ, ◌+◌, ◌-◌, ◌≤◌, ◌<◌, ◌≡◌, ◌≢◌, ◌⊎◌, refl, ap, sym, subst, ◌∙◌, min, Bool, true, false, not,
  ◌&&◌, Option, none, some, List, [], ◌∷◌, arith, leb, ◌==◌, Bool-cases, inl, inr, if◌then◌else◌,
}
use xfr.Prelude.Words.{u64_max}
use xfr.Budget.{ByteBudget, claim_or_full, refund_unwritten, refund}
use xfr.Budget.Sequential.{claim_lem}
use xfr.Tcp.Teardown.{ErrorKind, clamped}
use xfr.Tcp.Send.{
  Race, cancel_changed, pause_changed, deadline_passed, wrote, failed_write, Round, SendConfig,
  SendLoop, Flow, running, ended, failed, after_race, after_error, is_demotion, is_teardown,
  on_claim, attempt_write, on_pause, round, send_loop, continue_with,
}

-- The bytes sent and those left in the budget make the total, and the next write has a slice.
pub record IsBudgeted (c : SendConfig) (total : ℕ) (s : SendLoop) : Type 0 where
  pub b : ByteBudget
  pub budget : s.budget ≡ some b
  pub bytes : s.bytes_sent + b.remaining ≡ total
  pub offset : s.chunk_offset < c.buffer_len

-- the budget with a claim taken from it
abbrev pub taken : ByteBudget → ℕ → ByteBudget
taken b n = record { remaining = b.remaining - n }

pub refund_taken :
    (b : ByteBudget) (claimed n : ℕ)
    → b.remaining ≤ u64_max
    → claimed ≤ b.remaining
    → n ≤ claimed
    → refund_unwritten (some (taken b claimed)) claimed n ≡ some (taken b n)
unfolding refund_unwritten refund
refund_taken b claimed n fits le short = ground arith

pub claim_taken :
    (b : ByteBudget) (want : ℕ)
    → claim_or_full (some b) want
      ≡ (some (taken b (min b.remaining want)), some (min b.remaining want))
unfolding claim_or_full
claim_taken b want =
    let left : b.remaining - want ≡ b.remaining - min b.remaining want = omega arith in
    ap (λ p. (some p.0, p.1)) (claim_lem b want)
    ∙ ap (λ n. (some (record { remaining = n }), some (min b.remaining want))) left

-- What a failed write leaves as it is. Where the error is returned, the bytes sent may be lowered to
-- those acknowledged.
record Keeps (budget : Option ByteBudget) (s : SendLoop) (p : SendLoop × Flow) : Type 0 where
  pub given_back : p.0.budget ≡ budget
  pub fewer : p.0.bytes_sent ≤ s.bytes_sent
  pub same : (p.1 ≡ failed) ⊎ (p.0.bytes_sent ≡ s.bytes_sent)
  pub at : p.0.chunk_offset ≡ s.chunk_offset

chosen :
    {budget : Option ByteBudget} {s : SendLoop} {p q : SendLoop × Flow} (b : Bool)
    → Keeps budget s p
    → Keeps budget s q
    → Keeps budget s (if b then p else q)
chosen true first second = first
chosen false first second = second

clamped_le : (sent : ℕ) (acked : Option ℕ) → clamped sent acked ≤ sent
clamped_le sent none = omega arith
clamped_le sent (some n) = ground arith

error-Keeps :
    (c : SendConfig) (budget : Option ByteBudget) (claimed : ℕ) (r : Round) (e : ErrorKind)
    (s : SendLoop)
    → Keeps (refund_unwritten budget claimed 0) s (after_error c budget claimed r e s)
unfolding after_error
error-Keeps c budget claimed r e s =
    chosen (is_demotion s.zerocopy e)
      (record { given_back = refl; fewer = omega arith; same = inr refl; at = refl })
      (chosen (is_teardown c s.deadline r e)
        (record { given_back = refl; fewer = omega arith; same = inr refl; at = refl })
        (record {
          given_back = refl;
          fewer = clamped_le s.bytes_sent r.acked;
          same = inl refl;
          at = refl;
        }))

-- The state that an iteration leaves: as before, but for the bytes sent of a send that failed.
pub record IsHeld (c : SendConfig) (total : ℕ) (p : SendLoop × Flow) : Type 0 where
  pub b : ByteBudget
  pub budget : p.0.budget ≡ some b
  pub at_most : p.0.bytes_sent + b.remaining ≤ total
  pub bytes : (p.1 ≡ failed) ⊎ (p.0.bytes_sent + b.remaining ≡ total)
  pub offset : p.0.chunk_offset < c.buffer_len

module _ (c : SendConfig) (total : ℕ) (small : total ≤ u64_max) where
  kept :
      (b : ByteBudget) (claimed : ℕ) (s t : SendLoop)
      → s.bytes_sent + b.remaining ≡ total
      → s.chunk_offset < c.buffer_len
      → claimed ≤ b.remaining
      → (t.budget ≡ refund_unwritten (some (taken b claimed)) claimed 0)
        × (t.bytes_sent ≡ s.bytes_sent)
        × (t.chunk_offset ≡ s.chunk_offset)
      → IsBudgeted c total t
  kept b claimed s t bytes offset le (budget, sent, at) = record {
    b = taken b 0;
    budget = budget ∙ refund_taken b claimed 0 (omega arith) le (omega arith);
    bytes = omega arith;
    offset = omega arith;
  }

  held : (s : SendLoop) (flow : Flow) → IsBudgeted c total s → IsHeld c total (s, flow)
  held s flow ok = record {
    b = ok.b;
    budget = ok.budget;
    at_most = omega (arith, ok.bytes);
    bytes = inr ok.bytes;
    offset = ok.offset;
  }

  pub IsBudgeted-IsHeld :
      (p : SendLoop × Flow) → p.1 ≢ failed → IsHeld c total p → IsBudgeted c total p.0
  IsBudgeted-IsHeld p going ok = record {
    b = ok.b;
    budget = ok.budget;
    bytes = elim ok.bytes [ inl gone ↦ absurd (going gone) | inr same ↦ same ];
    offset = ok.offset;
  }

  race-IsHeld :
      (b : ByteBudget) (claimed : ℕ) (r : Round) (race : Race) (s : SendLoop)
      → s.bytes_sent + b.remaining ≡ total
      → s.chunk_offset < c.buffer_len
      → claimed ≤ b.remaining
      → IsHeld c total (after_race c (some (taken b claimed)) claimed r race s)
  unfolding after_race
  race-IsHeld b claimed r cancel_changed s bytes offset le =
      held _ ended (kept b claimed s _ bytes offset le (refl, refl, refl))
  race-IsHeld b claimed r pause_changed s bytes offset le =
      held _ running (kept b claimed s _ bytes offset le (refl, refl, refl))
  race-IsHeld b claimed r deadline_passed s bytes offset le =
      held _ ended (kept b claimed s _ bytes offset le (refl, refl, refl))
  race-IsHeld b claimed r (wrote n) s bytes offset le = record {
    b = taken b (min n claimed);
    budget = refund_taken b claimed (min n claimed) (omega arith) le (omega arith);
    at_most = omega arith;
    bytes = inr (omega arith);
    offset = ground arith;
  }
  race-IsHeld b claimed r (failed_write e) s bytes offset le =
      let keeps = error-Keeps c (some (taken b claimed)) claimed r e s in
      record {
        b = taken b 0;
        budget = keeps.given_back ∙ refund_taken b claimed 0 (omega arith) le (omega arith);
        at_most = omega (arith, keeps.fewer, bytes);
        bytes = elim keeps.same [
          | inl gone ↦ inl gone
          | inr equal ↦ inr (omega (arith, equal, bytes))
        ];
        offset = omega (arith, keeps.at, offset);
      }

  claimed-IsHeld :
      (b : ByteBudget) (claimed : ℕ) (r : Round) (s : SendLoop)
      → s.bytes_sent + b.remaining ≡ total
      → s.chunk_offset < c.buffer_len
      → claimed ≤ b.remaining
      → IsHeld c total (on_claim c r s (some (taken b claimed)) (some claimed))
  claimed-IsHeld b claimed r s bytes offset le = elim (Bool-cases (claimed == 0)) [
    | inl nothing ↦ rw nothing (record {
      b = taken b claimed;
      budget = refl;
      at_most = ground arith;
      bytes = inr (ground arith);
      offset = offset;
    })
    | inr something ↦ rw something (race-IsHeld b claimed r r.race s bytes offset le)
  ]

  claim-IsHeld :
      (r : Round) (s : SendLoop) → IsBudgeted c total s → IsHeld c total (attempt_write c r s)
  claim-IsHeld r s ok =
      let want = c.buffer_len - s.chunk_offset in
      let claimed = min ok.b.remaining want in
      subst (λ p. IsHeld c total (on_claim c r s p.0 p.1))
        (sym (ap (λ o. claim_or_full o want) ok.budget ∙ claim_taken ok.b want))
        (claimed-IsHeld ok.b claimed r s ok.bytes ok.offset (omega arith))

  pause-IsHeld :
      (r : Round) (paused : Option (Bool × ℕ)) (s : SendLoop)
      → IsBudgeted c total s
      → IsHeld c total (on_pause c r paused s)
  unfolding on_pause
  pause-IsHeld r (some (true, time)) s ok = held s ended ok
  pause-IsHeld r (some (false, time)) s ok =
      held _ running (record { b = ok.b; budget = ok.budget; bytes = ok.bytes; offset = ok.offset })
  pause-IsHeld r none s ok = elim (Bool-cases (not c.is_infinite && leb s.deadline r.now)) [
    | inl over ↦ rw over (held s ended ok)
    | inr more ↦ rw more (claim-IsHeld r s ok)
  ]

  pub round-IsHeld :
      (r : Round) (s : SendLoop) → IsBudgeted c total s → IsHeld c total (round c r s)
  unfolding round
  round-IsHeld r s ok = elim (Bool-cases r.cancelled) [
    | inl gone ↦ rw gone (held s ended ok)
    | inr more ↦ rw more (pause-IsHeld r r.paused s ok)
  ]

  continued-IsHeld :
      (rest : SendLoop → SendLoop × Flow)
      → ((s : SendLoop) → IsBudgeted c total s → IsHeld c total (rest s))
      → (p : SendLoop × Flow) → IsHeld c total p
      → IsHeld c total (continue_with rest p)
  continued-IsHeld rest step (s, running) ok =
      step s (IsBudgeted-IsHeld (s, running) (λ e. absurd (cc)) ok)
  continued-IsHeld rest step (s, ended) ok = ok
  continued-IsHeld rest step (s, failed) ok = ok

  -- However a byte-budget send goes, whether it is cancelled, paused, past its deadline, short of
  -- writes or demoted from sendfile: the bytes sent and the bytes left in the budget make the total.
  -- When it fails, where the bytes sent are lowered to those acknowledged, they make no more than
  -- the total. The next write always starts inside the buffer.
  pub send_loop-IsHeld :
      (rounds : List Round) (s : SendLoop)
      → IsBudgeted c total s
      → IsHeld c total (send_loop c rounds s)
  unfolding send_loop
  send_loop-IsHeld [] s ok = held s running ok
  send_loop-IsHeld (r ∷ rounds) s ok =
      continued-IsHeld (send_loop c rounds) (send_loop-IsHeld rounds) (round c r s)
        (round-IsHeld r s ok)
