-- ===== src/Budget/Senders.antt =====
-- What the send loops of a shared budget hold, and which of them are still live.
use xfr.Prelude.{
  ℕ, zero, suc, ◌+◌, ◌≡◌, ◌⊎◌, inl, inr, refl, Bool, true, false, ◌||◌, some, List, [], ◌∷◌, arith,
  ltb, get_elem?, set, replicate,
}
use xfr.Budget.Shared.{Sender, idle, claiming, holding, finished}

abbrev held_by : Sender → ℕ
held_by (holding n) = n
held_by _ = 0

unfoldable pub held : List Sender → ℕ
held [] = 0
held (x ∷ xs) = held_by x + held xs

-- A loop that has not yet seen the budget empty.
abbrev is_live : Sender → Bool
is_live idle = true
is_live (claiming want current) = ltb 0 current
is_live (holding n) = true
is_live finished = false

unfoldable pub any_live : List Sender → Bool
any_live [] = false
any_live (x ∷ xs) = is_live x || any_live xs

pub held-set :
    (xs : List Sender) (i : ℕ) (old new : Sender)
    → get_elem? xs i ≡ some old
    → held (set xs i new) + held_by old ≡ held xs + held_by new
unfolding held
held-set [] i old new h = cc
held-set (x ∷ xs) zero old new h = let e : x ≡ old = cc in rw e (omega arith)
held-set (x ∷ xs) (suc i) old new h = omega (arith, held-set xs i old new h)

pub any_live-set_live :
    (xs : List Sender) (i : ℕ) (old new : Sender)
    → get_elem? xs i ≡ some old
    → is_live new ≡ true
    → any_live (set xs i new) ≡ true
unfolding any_live
any_live-set_live [] i old new h l = cc
any_live-set_live (x ∷ xs) zero old new h l = rw l refl
any_live-set_live (x ∷ xs) (suc i) old new h l = ground (arith, any_live-set_live xs i old new h l)

pub any_live-set_dead :
    (xs : List Sender) (i : ℕ) (old new : Sender)
    → get_elem? xs i ≡ some old
    → is_live old ≡ false
    → any_live xs ≡ true
    → any_live (set xs i new) ≡ true
unfolding any_live
any_live-set_dead [] i old new h l a = cc
any_live-set_dead (x ∷ xs) zero old new h l a =
    let e : x ≡ old = cc in ground (arith, rw (e, l) at a)
any_live-set_dead (x ∷ xs) (suc i) old new h l a =
    ground (arith, any_live-set_dead xs i old new h l)

pub held-idle : (loops : ℕ) → held (replicate loops idle) ≡ 0
unfolding held
held-idle zero = refl
held-idle (suc loops) = omega (arith, held-idle loops)

pub any_live-idle : (loops : ℕ) → (loops ≡ 0) ⊎ (any_live (replicate loops idle) ≡ true)
unfolding any_live
any_live-idle zero = inl refl
any_live-idle (suc loops) = inr refl

abbrev pub AllFinished : List Sender → Type 0
AllFinished [] = Unit
AllFinished (x ∷ xs) = (x ≡ finished) × AllFinished xs

pub finished-quiet : (xs : List Sender) → AllFinished xs → (held xs ≡ 0) × (any_live xs ≡ false)
unfolding held any_live
finished-quiet [] h = (refl, refl)
finished-quiet (x ∷ xs) h =
    let rest = finished-quiet xs h.1 in rw h.0 (omega (arith, rest.0), rest.1)
