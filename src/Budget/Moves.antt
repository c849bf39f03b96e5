-- ===== src/Budget/Moves.antt =====
-- What a call of the budget service does to sound tables.
use quinn_ai.Prelude.{ℤ, ◌+ℤ◌, ◌≡◌, refl, ◌⊎◌, inl, inr}
use quinn_ai.Budget.Tables.{Tables}
use quinn_ai.Budget.Action.{BudgetError, Result, ok, err, Store, then_do, pure}
use quinn_ai.Budget.Rows.{total_available}
use quinn_ai.Budget.Sound.{IsSound}
use quinn_ai.Budget.Steps.{clean}

-- What a call that began at the tables `t` has done, by how it ended: it kept them sound and raised
-- what is available in all by `x`, or it raised and left them alone.
abbrev pub Moves : {A : Type 0} → Tables → ℤ → Result A × Store → Type 0
Moves t x (ok _, s) =
    (t' : Tables) × (s ≡ clean t')
    × IsSound t'
    × (total_available t'.balances ≡ total_available t.balances +ℤ x)
Moves t x (err _, s) = s ≡ clean t

-- What follows without touching the tables keeps what a call has done.
pub Moves-pure :
    {A B : Type 0} (t : Tables) (x : ℤ) (r : Result A × Store) (k : A → B)
    → Moves t x r
    → Moves t x (then_do r (λ a. pure (k a)))
Moves-pure t x (ok a, s) k m = m
Moves-pure t x (err e, s) k m = m

pub Result-cases :
    {A : Type 0} (r : Result A) → ((e : BudgetError) × (r ≡ err e)) ⊎ ((a : A) × (r ≡ ok a))
Result-cases (err e) = inl (e, refl)
Result-cases (ok a) = inr (a, refl)
