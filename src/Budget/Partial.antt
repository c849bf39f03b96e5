-- ===== src/Budget/Partial.antt =====
-- What the transaction of `delegate_budget` (cli/core/budget/service.py) leaves behind when the
-- database refuses its last write: each function of cli/core/queries/budget/ that it calls commits.
use quinn_ai.Prelude.{
  ℕ, String, Bool, true, false, List, [], ◌∷◌, Option, none, some, ℤ, pos, ◌+ℤ◌, negate, ◌≡◌, refl,
  subst, ◌∙◌,
}
use quinn_ai.Budget.Tables.{
  BudgetAllocation, BudgetTransaction, Tables, is_worker_manager, get_worker_balance,
}
use quinn_ai.Budget.Action.{ok, err, Store, operational_error, write, transaction}
use quinn_ai.Budget.Writes.{
  has_allocation, has_worker, create_budget_allocation, create_budget_balance, insert_allocation,
  insert_balance, new_balance, insert_transaction, create_budget_transaction,
}
use quinn_ai.Budget.Checks.{can_pay, check_delegation}
use quinn_ai.Budget.Service.{slot_from, found_allocation, pass_on, delegate_budget}
use quinn_ai.Budget.Rows.{total_available}
use quinn_ai.Budget.After.{posted}
use quinn_ai.Budget.Sound.{IsSound, founded-IsSound}
use quinn_ai.Budget.Pools.{founded-IsFunded}
use quinn_ai.Budget.Steps.{CanFound, CanFound-insert, insert_balance-some, row, with_row}
use quinn_ai.Budget.Totals.{founded_old, has-In, posted-total, total-append, gain-transfer_out}
use quinn_ai.Budget.Approval.{check-Approved}
use quinn_ai.Budget.Delegate.{with_target, out, source_row}

-- committed tables, with the faults to come
abbrev pub facing : List Bool → Tables → Store
facing faults t = record { tables = t; committed = t; faults = faults }

taken :
    (change : Tables → Option Tables) (t t' : Tables) (rest : List Bool)
    → change t ≡ some t'
    → write change (facing (false ∷ rest) t) ≡ (ok tt, facing rest t')
unfolding write
taken change t t' rest e = rw e refl

post_taken :
    (txn : BudgetTransaction) (t : Tables) (rest : List Bool)
    → has_allocation t txn.allocation_id ≡ true
    → has_worker t txn.worker_id ≡ true
    → create_budget_transaction txn (facing (false ∷ rest) t) ≡ (ok txn, facing rest (posted txn t))
unfolding create_budget_transaction insert_transaction
post_taken txn t rest a w =
    let e : insert_transaction txn t ≡ some (posted txn t) = rw (a, w, insert_transaction) refl in
    rw (taken (insert_transaction txn) t (posted txn t) rest e, create_budget_transaction) refl

-- the faults of a database that takes three writes and refuses the fourth
abbrev pub fourth : List Bool
fourth = false ∷ false ∷ false ∷ true ∷ []

module _ (now : ℕ) (id source target : String) (amount : ℤ) (system : Bool) (t : Tables)
    (sound : IsSound t) where
  -- If the delegation is approved and its rows can be written, but the database refuses the last
  -- write, then `delegate_budget` raises, and the debit of the source stays although no credit of the
  -- target was entered: what is available in all tables has fallen by the amount.
  pub delegate_budget_partial :
      (a : BudgetAllocation)
      → check_delegation now t source target amount system ≡ ok a
      → CanFound (slot_from id target a) (some source) none amount a.delegation_limit t
      → let (r, s) = delegate_budget now id source target amount system (facing fourth t) in
        (r ≡ err operational_error)
        × (s.committed ≡ s.tables)
        × (total_available s.tables.balances ≡ total_available t.balances +ℤ negate amount)
  unfolding delegate_budget pass_on transaction found_allocation create_budget_allocation
      create_budget_balance
  delegate_budget_partial a approved can_found =
      let ok_to = check-Approved now t source target amount system approved in
      let can = is_worker_manager t target in
      let limit = a.delegation_limit in
      let slot = slot_from id target a in
      let (i, at_a) = source_row now id source target amount system t a can sound ok_to in
      let known : has_allocation t a.slot.allocation_id ≡ true =
        subst (λ x. has_allocation t x ≡ true) at_a (has-In t sound i) in
      let pays : can_pay (get_worker_balance now t source) amount ≡ true =
        rw (ok_to.has_balance, ok_to.covered) refl in
      let debited = with_target now id source target amount system t a can in
      let txn = out now id source target amount system t a can in
      let old = founded_old slot (some source) none amount can limit t a.slot.allocation_id known in
      let fits =
        founded-IsSound t sound slot (some source) none amount can limit can_found.new_id
          can_found.worker (founded-IsFunded slot (some source) amount can limit t sound.funded) in
      let total =
        posted-total debited fits txn old
        ∙ rw (total-append t.balances slot, gain-transfer_out amount can_found.positive) refl in
      rw
        (
          approved,
          pays,
          can_found.positive,
          can_found.good_limit,
          taken (insert_allocation (row slot (some source) none amount can limit t)) t
              (with_row slot (some source) none amount can limit t) (false ∷ false ∷ true ∷ [])
              (CanFound-insert slot (some source) none amount can limit t can_found),
          taken (insert_balance (new_balance slot (pos 0)))
              (with_row slot (some source) none amount can limit t) debited (false ∷ true ∷ [])
              (insert_balance-some slot (some source) none amount can limit t sound can_found),
          post_taken txn debited (true ∷ []) old (can_found.from can),
          delegate_budget,
          pass_on,
          found_allocation,
          create_budget_allocation,
          create_budget_balance,
        )
        (refl, refl, total)
