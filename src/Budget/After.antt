-- ===== src/Budget/After.antt =====
-- The tables of budgets behind a write that was taken.
use quinn_ai.Prelude.{String, Bool, [], ◌∷◌, ◌++◌, Option, ℤ, pos}
use quinn_ai.Budget.Tables.{Slot, BudgetTransaction, Tables}
use quinn_ai.Budget.Writes.{new_allocation, new_balance, on_transaction}

-- the tables behind the writes that found an allocation
abbrev pub founded : Slot → Option String → Option String → ℤ → Bool → Option ℤ → Tables → Tables
founded slot source_worker_id pool_id amount can_delegate delegation_limit t = record t {
  allocations =
      t.allocations
      ++ new_allocation slot source_worker_id pool_id amount can_delegate delegation_limit ∷ [];
  balances = t.balances ++ new_balance slot (pos 0) ∷ [];
}

-- the tables behind a transaction
abbrev pub posted : BudgetTransaction → Tables → Tables
posted txn t = record t {
  transactions = t.transactions ++ txn ∷ [];
  balances = on_transaction txn t.balances;
}
