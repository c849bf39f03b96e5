-- ===== src/Budget/Writes.antt =====
-- The queries of cli/core/queries/budget/ that write, with the constraints and the trigger of
-- cli/core/db/schema.py that they meet.
use quinn_ai.Prelude.{
  String, Bool, true, false, not, ◌&&◌, List, [], ◌∷◌, ◌++◌, Option, none, some, map, any, lookup,
  ◌==◌, string_eq, if◌then◌else◌, ℤ, pos, ◌+ℤ◌, ◌-ℤ◌, negate, abs, leb_ℤ, ltb_ℤ,
}
use quinn_ai.Budget.Tables.{
  Slot, BudgetAllocation, BudgetBalance, TransactionType, allocation, spend, reserve, release,
  transfer_out, transfer_in, adjustment, refund, BudgetTransaction, Tables,
}
use quinn_ai.Budget.Action.{Action, value_error, require, lift, pure, write, ◌>>◌}

-- the foreign keys: the row that is named is there
abbrev pub has_worker : Tables → String → Bool
has_worker t id = elim (lookup id t.workers) [ none ↦ false | some _ ↦ true ]

abbrev pub has_pool : Tables → String → Bool
has_pool t id = any (λ p. p.id == id) t.pools

unfoldable pub has_allocation : Tables → String → Bool
has_allocation t id = any (λ a. a.slot.allocation_id == id) t.allocations

-- from a pool or from a worker, and not from both
abbrev pub has_source : Tables → BudgetAllocation → Bool
has_source t a = elim a.source_worker_id [
  | none ↦ elim a.pool_id [ none ↦ false | some p ↦ has_pool t p ]
  | some w ↦ elim a.pool_id [ none ↦ has_worker t w | some _ ↦ false ]
]

-- `CHECK (spent_credits + reserved_credits <= allocated_credits)`
abbrev pub is_covered : BudgetAllocation → Bool
is_covered a = leb_ℤ (a.spent_credits +ℤ a.reserved_credits) a.allocated_credits

unfoldable pub insert_allocation : BudgetAllocation → Tables → Option Tables
unfolding has_allocation
insert_allocation a t =
    if not (has_allocation t a.slot.allocation_id)
      && has_worker t a.slot.worker_id
      && has_source t a
      && is_covered a
    then some (record t { allocations = t.allocations ++ a ∷ [] })
    else none

abbrev pub new_allocation :
    Slot → Option String → Option String → ℤ → Bool → Option ℤ → BudgetAllocation
new_allocation slot source_worker_id pool_id allocated_credits can_delegate delegation_limit =
    record {
      slot = slot;
      source_worker_id = source_worker_id;
      pool_id = pool_id;
      allocated_credits = allocated_credits;
      spent_credits = pos 0;
      reserved_credits = pos 0;
      can_delegate = can_delegate;
      delegation_limit = delegation_limit;
    }

abbrev pub is_positive : ℤ → Bool
is_positive x = ltb_ℤ (pos 0) x

abbrev pub is_good_limit : Option ℤ → Bool
is_good_limit none = true
is_good_limit (some l) = is_positive l

unfoldable pub create_budget_allocation :
    Slot → Option String → Option String → ℤ → Bool → Option ℤ → Action BudgetAllocation
unfolding write insert_allocation
create_budget_allocation slot source_worker_id pool_id allocated_credits can_delegate
      delegation_limit =
    do
      lift (require (is_positive allocated_credits) value_error)
      lift (require (is_good_limit delegation_limit) value_error)
      let row =
          new_allocation slot source_worker_id pool_id allocated_credits can_delegate
            delegation_limit
      write (insert_allocation row)
      pure row

abbrev pub new_balance : Slot → ℤ → BudgetBalance
new_balance slot allocated = record {
  slot = slot;
  allocated = allocated;
  spent = pos 0;
  reserved = pos 0;
  available = allocated;
  delegated = pos 0;
}

unfoldable pub insert_balance : BudgetBalance → Tables → Option Tables
unfolding has_allocation
insert_balance b t =
    if not (any (λ c. c.slot.allocation_id == b.slot.allocation_id) t.balances)
      && has_allocation t b.slot.allocation_id
      && has_worker t b.slot.worker_id
    then some (record t { balances = t.balances ++ b ∷ [] })
    else none

unfoldable pub create_budget_balance : Slot → ℤ → Action BudgetBalance
unfolding write insert_balance
create_budget_balance slot allocated = do
  let row = new_balance slot allocated
  write (insert_balance row)
  pure row

-- The trigger `update_budget_balance_on_transaction`: what is added to each column.
abbrev pub more_spent : TransactionType → ℤ → ℤ
more_spent spend x = abs x
more_spent refund x = negate (abs x)
more_spent _ x = pos 0

abbrev pub more_reserved : TransactionType → ℤ → ℤ
more_reserved reserve x = abs x
more_reserved release x = negate (abs x)
more_reserved _ x = pos 0

abbrev pub more_delegated : TransactionType → ℤ → ℤ
more_delegated transfer_out x = abs x
more_delegated _ x = pos 0

abbrev pub more_allocated : TransactionType → ℤ → ℤ
more_allocated allocation x = x
more_allocated transfer_in x = x
more_allocated adjustment x = x
more_allocated _ x = pos 0

-- the `SET` of the trigger, whose right-hand sides read the row as it was
unfoldable pub update_balance : TransactionType → ℤ → BudgetBalance → BudgetBalance
update_balance kind x b = record b {
  spent = b.spent +ℤ more_spent kind x;
  reserved = b.reserved +ℤ more_reserved kind x;
  delegated = b.delegated +ℤ more_delegated kind x;
  allocated = b.allocated +ℤ more_allocated kind x;
  available =
      b.allocated
      +ℤ more_allocated kind x
      -ℤ (b.spent +ℤ more_spent kind x)
      -ℤ (b.reserved +ℤ more_reserved kind x)
      -ℤ (b.delegated +ℤ more_delegated kind x);
}

unfoldable pub on_transaction : BudgetTransaction → List BudgetBalance → List BudgetBalance
unfolding update_balance
on_transaction txn rows =
    map
      (λ b.
        if b.slot.allocation_id == txn.allocation_id
        then update_balance txn.kind txn.amount b
        else b)
      rows

unfoldable pub insert_transaction : BudgetTransaction → Tables → Option Tables
unfolding has_allocation on_transaction
insert_transaction txn t =
    if has_allocation t txn.allocation_id && has_worker t txn.worker_id
    then some (record t {
      transactions = t.transactions ++ txn ∷ [];
      balances = on_transaction txn t.balances;
    })
    else none

unfoldable pub create_budget_transaction : BudgetTransaction → Action BudgetTransaction
unfolding write insert_transaction
create_budget_transaction txn = do write (insert_transaction txn); pure txn
