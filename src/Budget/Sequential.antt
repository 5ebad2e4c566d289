-- ===== src/Budget/Sequential.antt =====
-- The budget seen by one sender: what a claim grants, and a transfer as a whole.
use xfr.Prelude.{
  ℕ, ◌+◌, ◌-◌, ◌≤◌, ◌≡◌, min, ap, none, some, List, [], ◌∷◌, arith, ltb, if◌then◌else◌,
}
use xfr.Prelude.Words.{u64_max}
use xfr.Budget.{
  ByteBudget, attempt, exchange, claim, refund, claim_or_full, refund_unwritten, claim_datagram,
}

-- An undisturbed claim returns in its first round with the smaller of the budget and the wish, and
-- takes exactly that from the budget.
pub claim_lem :
    (b : ByteBudget) (want : ℕ)
    → claim b want ≡ (record { remaining = b.remaining - want }, some (min b.remaining want))
unfolding claim attempt exchange
claim_lem b want = ground arith

-- A claim whose write was short gives back the rest: the budget falls by what was written.
pub refund-claim :
    (b : ByteBudget) (want written : ℕ)
    → b.remaining ≤ u64_max
    → written ≤ min b.remaining want
    → refund_unwritten (some (claim b want).0) (min b.remaining want) written
      ≡ some (record { remaining = b.remaining - written })
unfolding refund_unwritten refund
refund-claim b want written fits short = rw claim_lem (ground arith)

-- Reserve, write everything, repeat: the wishes of one sender in order.
unfoldable pub send_all : ByteBudget → List ℕ → ByteBudget × ℕ
send_all b [] = (b, 0)
send_all b (want ∷ wants) =
    let (b', sent) = send_all (claim b want).0 wants in (b', min b.remaining want + sent)

unfoldable pub sum_of : List ℕ → ℕ
sum_of [] = 0
sum_of (x ∷ xs) = x + sum_of xs

-- Whole writes take the smaller of the budget and their sum, and the rest stays in the budget; so
-- claims never exceed the budget in total, and spend it when enough is asked for.
pub send_all_total :
    (b : ByteBudget) (wants : List ℕ)
    → ((send_all b wants).1 ≡ min b.remaining (sum_of wants))
      × ((send_all b wants).0.remaining ≡ b.remaining - sum_of wants)
unfolding send_all sum_of
send_all_total b [] = omega arith
send_all_total b (want ∷ wants) =
    let rest = send_all_total (record { remaining = b.remaining - want }) wants in
    rw (ap (λ p. p.0) (claim_lem b want)) (omega (arith, rest))

-- A datagram claim is none exactly when less than one 16-byte header is left or asked for; else it
-- is the smaller of the budget and the packet, and leaves the rest of the budget.
pub claim_datagram_lem :
    (b : ByteBudget) (packet_size : ℕ)
    → claim_datagram (some b) packet_size ≡ (
      some (record { remaining = b.remaining - packet_size }),
      if ltb (min b.remaining packet_size) 16 then none else some (min b.remaining packet_size),
    )
unfolding claim_datagram claim_or_full
claim_datagram_lem b packet_size = rw claim_lem (ground arith)
