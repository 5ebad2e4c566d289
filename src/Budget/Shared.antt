-- ===== src/Budget/Shared.antt =====
-- The budget shared by any number of send loops whose steps interleave: loads, attempts of the
-- compare-exchange, and writes, each by one loop.
use xfr.Prelude.{
  ℕ, ◌+◌, ◌-◌, ◌≤◌, ◌<◌, ◌≡◌, Bool, some, List, ◌==◌, get_elem?, set, replicate, if◌then◌else◌,
}
use xfr.Budget
use xfr.Budget.{ByteBudget, ClaimState, trying, returned, exchange, attempt, refund}

-- Where one send loop stands: between writes, inside `claim`, between claim and write, or out of
-- its loop because a claim granted nothing.
pub data Sender : Type 0 where
  idle : Sender
  claiming : ℕ → ℕ → Sender
  holding : ℕ → Sender
  finished : Sender

pub record System : Type 0 where
  pub budget : ByteBudget
  pub senders : List Sender
  pub written : ℕ

-- What the loop does with the outcome of one attempt.
unfoldable pub after_attempt : ℕ → ClaimState → Sender
after_attempt want (trying current) = claiming want current
after_attempt want (returned granted) = if granted == 0 then finished else holding granted

pub data Step (s : System) : System → Type 0 where
  load :
      (i want : ℕ)
      → get_elem? s.senders i ≡ some idle
      → 0 < want
      → Step s (record s { senders = set s.senders i (claiming want s.budget.remaining) })
  try :
      (i want current : ℕ) (spurious : Bool)
      → get_elem? s.senders i ≡ some (claiming want current)
      → 0 < want
      → Step s (record s {
        budget = (attempt spurious s.budget want current).0;
        senders = set s.senders i (after_attempt want (attempt spurious s.budget want current).1);
      })
  write :
      (i claimed n : ℕ)
      → get_elem? s.senders i ≡ some (holding claimed)
      → n ≤ claimed
      → Step s (record {
        budget = refund s.budget (claimed - n);
        senders = set s.senders i idle;
        written = s.written + n;
      })

pub data Reach (s : System) : System → Type 0 where
  here : Reach s s
  next : {t u : System} → Reach s t → Step t u → Reach s u

unfoldable pub start : ℕ → ℕ → System
unfolding Budget.new
start total loops = record {
  budget = Budget.new total;
  senders = replicate loops idle;
  written = 0;
}
