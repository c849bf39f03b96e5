-- ===== src/Budget/Run.antt =====
-- Sequences of calls of `BudgetService` and `BudgetEnforcer` (cli/core/budget/), each made by a
-- caller that catches what it raises.
use quinn_ai.Prelude.{
  ℕ, String, Bool, List, [], ◌∷◌, Option, ℤ, pos, ◌+ℤ◌, negate, int_laws, none, some, ◌≡◌, refl,
  sym, ap, subst, ◌∙◌, ◌⊎◌, inl, inr, Option-cases,
}
use quinn_ai.Budget.Tables.{Slot, Details, Tables}
use quinn_ai.Budget.Action.{BudgetError, Result, ok, err, Store}
use quinn_ai.Budget.Checks.{current_allocation}
use quinn_ai.Budget.Service.{
  allocate_from_pool, delegate_budget, ensure_worker_funded, revoke_unused,
}
use quinn_ai.Budget.Rows.{total_available}
use quinn_ai.Budget.Sound.{IsSound}
use quinn_ai.Budget.Steps.{clean}
use quinn_ai.Budget.Moves.{Moves}
use quinn_ai.Budget.Delegate.{delegate_budget-Moves}
use quinn_ai.Budget.Allocate.{allocate_from_pool-Moves}
use quinn_ai.Budget.Spend.{charge, charge-Moves}
use quinn_ai.Budget.Fund.{ensure_worker_funded-Moves}
use quinn_ai.Budget.Refunds.{taker}
use quinn_ai.Budget.Revoke.{unused_credits, leaves_tables, revoke_unused-Returns}

pub data Operation : Type 0 where
  allocate : String → Slot → ℤ → Bool → Option ℤ → Operation
  delegate : String → String → String → ℤ → Bool → Operation
  fund : String → String → ℤ → String → Operation
  spend_on : String → ℤ → ℤ → Details → Operation
  revoke : String → Operation

-- what a caller learns of a call: that it raised, or that it returned, and the credits that
-- `revoke_unused` returns
abbrev pub Outcome : Type 0
Outcome = Result (Option ℤ) × Store

abbrev pub outcome : {A : Type 0} → (A → Option ℤ) → Result A × Store → Outcome
outcome f (ok a, s) = (ok (f a), s)
outcome f (err e, s) = (err e, s)

abbrev pub nothing_told : {A : Type 0} → A → Option ℤ
nothing_told _ = none

unfoldable pub perform : ℕ → Operation → Store → Outcome
perform now (allocate pool_id slot amount can limit) s =
    outcome nothing_told (allocate_from_pool pool_id slot amount can limit s)
perform now (delegate id source target amount system) s =
    outcome nothing_told (delegate_budget now id source target amount system s)
perform now (fund id worker amount ceo) s =
    outcome nothing_told (ensure_worker_funded now id worker amount ceo s)
perform now (spend_on worker estimate cost details) s =
    outcome nothing_told (charge now worker estimate cost details s)
perform now (revoke worker) s = outcome (λ x. some x) (revoke_unused now worker s)

-- The calls in their order, each at its time.
unfoldable pub run : List (ℕ × Operation) → Store → Store
unfolding perform
run [] s = s
run ((now, op) ∷ ops) s = run ops (perform now op s).1

-- What a budget promises of an operation: its outcome, and the sum of what is available before and
-- after it. What raises changes nothing; an allocation that is granted adds its amount and a spend
-- that is accepted takes its cost; delegating and funding only move credits; and what is revoked
-- either stays in the tables, with the source, or leaves them.
pub data Ledger : Operation → Result (Option ℤ) → ℤ → ℤ → Type 0 where
  refused : {op : Operation} {e : BudgetError} {x : ℤ} → Ledger op (err e) x x
  granted :
      {pool_id : String} {slot : Slot} {amount x : ℤ} {can : Bool} {limit : Option ℤ}
      → Ledger (allocate pool_id slot amount can limit) (ok none) x (x +ℤ amount)
  delegated :
      {id source target : String} {amount x : ℤ} {system : Bool}
      → Ledger (delegate id source target amount system) (ok none) x (x +ℤ pos 0)
  funded :
      {id worker ceo : String} {amount x : ℤ}
      → Ledger (fund id worker amount ceo) (ok none) x (x +ℤ pos 0)
  charged :
      {worker : String} {estimate cost x : ℤ} {details : Details}
      → Ledger (spend_on worker estimate cost details) (ok none) x (x +ℤ negate cost)
  returned : {worker : String} {x a : ℤ} → Ledger (revoke worker) (ok (some a)) x (x +ℤ pos 0)
  dropped : {worker : String} {x a : ℤ} → Ledger (revoke worker) (ok (some a)) x (x +ℤ negate a)

-- an operation that ends in sound tables, and whose outcome and effect on the sum the ledger allows
abbrev pub Refines : Operation → Tables → Outcome → Type 0
Refines op t (result, s) =
    (t' : Tables) × (s ≡ clean t')
    × IsSound t'
    × Ledger op result (total_available t.balances) (total_available t'.balances)

Moves-Refines :
    {A : Type 0} (op : Operation) (t : Tables) (x : ℤ) (r : Result A × Store)
    → IsSound t
    → Ledger op (ok none) (total_available t.balances) (total_available t.balances +ℤ x)
    → Moves t x r
    → Refines op t (outcome nothing_told r)
Moves-Refines op t x (ok a, s) sound step (t', e, fits, total) =
    (t', e, fits, subst (Ledger op (ok none) (total_available t.balances)) (sym total) step)
Moves-Refines op t x (err why, s) sound step e = (t, e, sound, refused)

-- What is revoked leaves the tables as a whole or not at all.
leaves_cases :
    (now : ℕ) (w : String) (t : Tables) (sound : IsSound t)
    → (leaves_tables now w t sound ≡ unused_credits now w t sound)
      ⊎ (leaves_tables now w t sound ≡ pos 0)
leaves_cases now w t sound = elim (Option-cases (current_allocation now t w)) [
  | inl nothing ↦ rw (nothing, leaves_tables) (inr refl)
  | inr (a, found) ↦ elim (Option-cases (taker now t a.source_worker_id)) [
    | inl nobody ↦ rw (found, nobody, leaves_tables, unused_credits) (inl refl)
    | inr (c, back) ↦ rw (found, back, leaves_tables) (inr refl)
  ]
]

revoke-Ledger :
    (worker : String) (x y a left : ℤ)
    → (left ≡ a) ⊎ (left ≡ pos 0)
    → y ≡ x +ℤ negate left
    → Ledger (revoke worker) (ok (some a)) x y
revoke-Ledger worker x y a left (inl all) total =
    subst (Ledger (revoke worker) (ok (some a)) x) (sym (total ∙ ap (λ z. x +ℤ negate z) all))
      dropped
revoke-Ledger worker x y a left (inr nothing) total =
    let same : negate left ≡ pos 0 = rw nothing (omega int_laws) in
    subst (Ledger (revoke worker) (ok (some a)) x) (sym (total ∙ ap (λ z. x +ℤ z) same)) returned

-- While the database takes every write, each operation on sound tables ends in sound tables, and its
-- outcome and its effect on the sum of what is available are such as the ledger allows: if it
-- raises, the sum is as it was, and if it returns, the sum is raised by an allocation's amount or
-- lowered by a spend's cost, unchanged by delegating and funding, and after a revocation the same or
-- lower by just the credits that are returned.
pub perform-Refines :
    (now : ℕ) (op : Operation) (t : Tables) → IsSound t → Refines op t (perform now op (clean t))
unfolding perform
perform-Refines now (allocate pool_id slot amount can limit) t sound =
    Moves-Refines _ t amount (allocate_from_pool pool_id slot amount can limit (clean t)) sound
      granted (allocate_from_pool-Moves pool_id slot amount can limit t sound)
perform-Refines now (delegate id source target amount system) t sound =
    Moves-Refines _ t (pos 0) (delegate_budget now id source target amount system (clean t)) sound
      delegated (delegate_budget-Moves now id source target amount system t sound)
perform-Refines now (fund id worker amount ceo) t sound =
    Moves-Refines _ t (pos 0) (ensure_worker_funded now id worker amount ceo (clean t)) sound funded
      (ensure_worker_funded-Moves now id worker amount ceo t sound)
perform-Refines now (spend_on worker estimate cost details) t sound =
    Moves-Refines _ t (negate cost) (charge now worker estimate cost details (clean t)) sound
      charged (charge-Moves now worker t sound cost details estimate)
perform-Refines now (revoke worker) t sound =
    let (t', e, fits, _, total) = revoke_unused-Returns now worker t sound in
    rw e (
      t',
      refl,
      fits,
      revoke-Ledger worker (total_available t.balances) (total_available t'.balances)
          (unused_credits now worker t sound) (leaves_tables now worker t sound)
          (leaves_cases now worker t sound) total,
    )

-- Credits are exact here, and the database takes every write. Then however the calls follow each
-- other, sound tables end sound: no balance is ever below zero, every balance is what its columns
-- leave, and no pool gives more than it has.
pub run-IsSound :
    (ops : List (ℕ × Operation)) (t : Tables)
    → IsSound t
    → (t' : Tables) × (run ops (clean t) ≡ clean t') × IsSound t'
unfolding run
run-IsSound [] t sound = (t, refl, sound)
run-IsSound ((now, op) ∷ ops) t sound =
    let (t', e, fits, _) = perform-Refines now op t sound in
    let (last, e', fits') = run-IsSound ops t' fits in (last, ap (run ops) e ∙ e', fits')
