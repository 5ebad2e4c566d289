-- ===== src/Tcp/Send/Delivery.antt =====
-- The send loop over iterations that each write something.
use xfr.Prelude.{
  ℕ, ◌-◌, ◌≤◌, ◌<◌, ◌≡◌, ◌≢◌, refl, ap, sym, subst, ◌∙◌, min, true, false, not, ◌&&◌, Option, none,
  some, List, [], ◌∷◌, length, arith, leb, ◌==◌, Bool-cases, inl, inr, ◌⊎◌, if◌then◌else◌,
}
use xfr.Prelude.Words.{u64_max}
use xfr.Budget.{ByteBudget, claim_or_full}
use xfr.Tcp.Send.{
  wrote, Round, SendConfig, SendLoop, Flow, running, ended, failed, after_race, on_claim,
  attempt_write, on_pause, round, send_loop, continue_with,
}
use xfr.Tcp.Send.Budgeted.{
  IsBudgeted, IsBudgeted-IsHeld, round-IsHeld, claim_taken, refund_taken, taken,
}

-- An iteration in which the socket takes at least one byte and nothing interrupts.
pub record Writes (r : Round) : Type 0 where
  pub not_cancelled : r.cancelled ≡ false
  pub not_paused : r.paused ≡ none
  pub bytes : ℕ
  pub some_bytes : 0 < bytes
  pub written : r.race ≡ wrote bytes
  pub awake : r.sleep_cancelled ≡ false

abbrev pub AllWrite : List Round → Type 0
AllWrite [] = Unit
AllWrite (r ∷ rounds) = Writes r × AllWrite rounds

abbrev pub left : Option ByteBudget → ℕ
left none = 0
left (some b) = b.remaining

module _ (c : SendConfig) (total : ℕ) (small : total ≤ u64_max)
    (untimed : c.is_infinite ≡ true) where
  -- the iteration down to its claim
  down_to_claim : (r : Round) (s : SendLoop) → Writes r → round c r s ≡ attempt_write c r s
  unfolding round on_pause
  down_to_claim r s w =
      ap (λ b. if b then (s, ended) else on_pause c r r.paused s) w.not_cancelled
      ∙ ap (λ p. on_pause c r p s) w.not_paused
      ∙ ap (λ b. if not b && leb s.deadline r.now then (s, ended) else attempt_write c r s) untimed

  claimed_some :
      (b : ByteBudget) (claimed : ℕ) (r : Round) (s : SendLoop)
      → Writes r
      → 0 < claimed
      → claimed ≤ b.remaining
      → b.remaining ≤ u64_max
      → let t = on_claim c r s (some (taken b claimed)) (some claimed) in
        (t.1 ≡ running) × (left t.0.budget < b.remaining)
  unfolding after_race
  claimed_some b claimed r s w positive le fits =
      let wrote_some : on_claim c r s (some (taken b claimed)) (some claimed)
          ≡ after_race c (some (taken b claimed)) claimed r (wrote w.bytes) s =
        ground (arith, ap (λ x. after_race c (some (taken b claimed)) claimed r x s) w.written) in
      let n = min w.bytes claimed in
      let given : left (after_race c (some (taken b claimed)) claimed r (wrote w.bytes) s).0.budget
          ≡ b.remaining - n =
        ap left (refund_taken b claimed n fits le (omega arith)) in
      (
        ap (λ p. p.1) wrote_some ∙ ground (arith, w.awake),
        subst (λ (m : ℕ). m < b.remaining) (sym (ap (λ p. left p.0.budget) wrote_some ∙ given))
            (omega (arith, w.some_bytes)),
      )

  claim-Writes :
      (b : ByteBudget) (r : Round) (s : SendLoop)
      → Writes r
      → s.chunk_offset < c.buffer_len
      → b.remaining ≤ u64_max
      → let want = c.buffer_len - s.chunk_offset in
        let t =
          on_claim c r s (some (taken b (min b.remaining want))) (some (min b.remaining want)) in
        ((b.remaining ≡ 0) × (t.1 ≡ ended) × (t.0.bytes_sent ≡ s.bytes_sent))
        ⊎ ((t.1 ≡ running) × (left t.0.budget < b.remaining))
  claim-Writes b r s w offset fits = elim (Bool-cases (b.remaining == 0)) [
    | inl empty ↦
        let nothing : min b.remaining (c.buffer_len - s.chunk_offset) ≡ 0 = ground arith in
        inl (ground arith, rw nothing refl, rw nothing refl)
    | inr more ↦ inr (
        claimed_some b (min b.remaining (c.buffer_len - s.chunk_offset)) r s w (ground arith)
          (omega arith) fits)
  ]

  -- one writing iteration: the budget is spent, or it falls
  spent_or_falls :
      (r : Round) (s : SendLoop)
      → Writes r
      → IsBudgeted c total s
      → ((left s.budget ≡ 0)
          × ((round c r s).1 ≡ ended)
          × ((round c r s).0.bytes_sent ≡ s.bytes_sent))
        ⊎ (((round c r s).1 ≡ running) × (left (round c r s).0.budget < left s.budget))
  spent_or_falls r s w ok =
      let want = c.buffer_len - s.chunk_offset in
      let seen : round c r s
          ≡ on_claim c r s (some (taken ok.b (min ok.b.remaining want)))
              (some (min ok.b.remaining want)) =
        down_to_claim r s w
        ∙ ap (λ p. on_claim c r s p.0 p.1)
            (ap (λ o. claim_or_full o want) ok.budget ∙ claim_taken ok.b want) in
      rw (seen, ap left ok.budget) (claim-Writes ok.b r s w ok.offset (omega (arith, ok.bytes)))

  when_ended :
      (rest : SendLoop → SendLoop × Flow) (p : SendLoop × Flow)
      → p.1 ≡ ended
      → continue_with rest p ≡ p
  when_ended rest (s, running) e = absurd (cc)
  when_ended rest (s, ended) e = refl
  when_ended rest (s, failed) e = absurd (cc)

  when_running :
      (rest : SendLoop → SendLoop × Flow) (p : SendLoop × Flow)
      → p.1 ≡ running
      → continue_with rest p ≡ rest p.0
  when_running rest (s, running) e = refl
  when_running rest (s, ended) e = absurd (cc)
  when_running rest (s, failed) e = absurd (cc)

  running_on : {p : Flow} → p ≡ running → p ≢ failed
  running_on e f = absurd (cc)

  all_sent : (s : SendLoop) → IsBudgeted c total s → left s.budget ≡ 0 → s.bytes_sent ≡ total
  all_sent s ok empty = omega (arith, ok.bytes, ap left ok.budget)

  -- A byte-budget send without a deadline that is neither cancelled nor paused ends with exactly the
  -- budget sent, once there have been more iterations than bytes and each has written something.
  pub send_loop_delivers :
      (rounds : List Round) (s : SendLoop)
      → IsBudgeted c total s
      → AllWrite rounds
      → left s.budget < length rounds
      → ((send_loop c rounds s).1 ≡ ended) × ((send_loop c rounds s).0.bytes_sent ≡ total)
  unfolding send_loop
  send_loop_delivers [] s ok writing enough = absurd (omega arith)
  send_loop_delivers (r ∷ rounds) s ok writing enough = elim (spent_or_falls r s writing.0 ok) [
    | inl (empty, stop, same) ↦
        rw (when_ended (send_loop c rounds) (round c r s) stop) (stop, same ∙ all_sent s ok empty)
    | inr (more, falls) ↦ rw (when_running (send_loop c rounds) (round c r s) more) (
        send_loop_delivers rounds (round c r s).0
          (IsBudgeted-IsHeld c total small (round c r s) (λ e. running_on more e)
            (round-IsHeld c total small r s ok))
          writing.1 (omega arith))
  ]
