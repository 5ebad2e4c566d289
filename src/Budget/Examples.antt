-- ===== src/Budget/Examples.antt =====
-- Transfers over a budget of 100 bytes.
use xfr.Prelude.{ℕ, ◌≡◌, refl, false, none, some, List, [], ◌∷◌, arith}
use xfr.Budget.{ByteBudget, claim, refund, claim_datagram, attempt, exchange}
use xfr.Budget.Sequential.{claim_lem, claim_datagram_lem}
use xfr.Budget.Shared.{
  Sender, finished, System, start, Reach, here, next, load, try, write, after_attempt,
}
use xfr.Budget.Conservation.{Conserves, Reach-Conserves, transfer_exact}

abbrev hundred : ByteBudget
hundred = record { remaining = 100 }

claim_lem_example : claim hundred 64 ≡ (record { remaining = 36 }, some 64)
claim_lem_example = claim_lem hundred 64

abbrev wishes : List ℕ
wishes = 64 ∷ 64 ∷ 64 ∷ []

claim_datagram_lem_example :
    claim_datagram (some (record { remaining = 10 })) 1400 ≡ (some (record { remaining = 0 }), none)
claim_datagram_lem_example = claim_datagram_lem (record { remaining = 10 }) 1400

-- One loop sends 100 bytes in one write, sees the budget spent and leaves.
abbrev with_sender : ℕ → Sender → ℕ → System
with_sender remaining s written = record {
  budget = record { remaining = remaining };
  senders = s ∷ [];
  written = written;
}

run_one : Reach (start 100 1) (with_sender 0 finished 100)
unfolding start attempt exchange after_attempt refund
run_one =
    next
      (next
        (next
          (next (next here (load 0 100 refl (omega arith)))
            (try 0 100 100 false refl (omega arith)))
          (write 0 100 100 refl (omega arith)))
        (load 0 100 refl (omega arith)))
      (try 0 100 0 false refl (omega arith))

Reach-Conserves_example : Conserves 100 (with_sender 0 finished 100)
Reach-Conserves_example =
    Reach-Conserves 100 1 (with_sender 0 finished 100) (omega arith) (omega arith) run_one

transfer_exact_example : (with_sender 0 finished 100).written ≡ 100
transfer_exact_example =
    transfer_exact 100 1 (with_sender 0 finished 100) (omega arith) (omega arith) run_one (refl, tt)
