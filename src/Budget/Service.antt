-- ===== src/Budget/Service.antt =====
-- `BudgetService` of cli/core/budget/service.py. The id of a new allocation is an argument.
use quinn_ai.Prelude.{
  ℕ, String, Bool, true, false, Option, none, some, if◌then◌else◌, ℤ, pos, ◌-ℤ◌, negate, leb_ℤ,
}
use Prim.Native.String.{◌++◌ as str_append}
use quinn_ai.Budget.Tables.{
  Slot, BudgetAllocation, BudgetBalance, BudgetPool, TransactionType, allocation, transfer_out,
  transfer_in, adjustment, refund, BudgetTransaction, Tables, get_worker_balance, is_worker_manager,
}
use quinn_ai.Budget.Action.{
  Action, ok, allocation_error, insufficient, require, lift, pure, transaction, ◌>>=◌, ◌>>◌,
}
use quinn_ai.Budget.Writes.{
  create_budget_allocation, create_budget_balance, create_budget_transaction,
}
use quinn_ai.Budget.Checks.{
  enough_in_pool, check_pool, current_allocation, can_pay, check_delegation,
}

-- a transaction with a description only
abbrev pub movement : String → String → TransactionType → ℤ → String → BudgetTransaction
movement allocation_id worker_id kind amount description = record {
  allocation_id = allocation_id;
  worker_id = worker_id;
  kind = kind;
  amount = amount;
  details = record {
    provider = none;
    model = none;
    input_tokens = none;
    output_tokens = none;
    reference_type = none;
    reference_id = none;
    description = some description;
  };
}

-- the writes that found an allocation with its balance, and enter its credits
unfoldable pub found_allocation :
    Slot → Option String → Option String → ℤ → Bool → Option ℤ → Action (Unit {0})
unfolding create_budget_allocation create_budget_balance
found_allocation slot source_worker_id pool_id amount can_delegate delegation_limit = do
  create_budget_allocation slot source_worker_id pool_id amount can_delegate delegation_limit
  create_budget_balance slot (pos 0)
  pure tt

-- the transaction of `allocate_from_pool`
unfoldable pub fund_from_pool : String → BudgetPool → Slot → ℤ → Bool → Option ℤ → Action (Unit {0})
unfolding found_allocation create_budget_transaction enough_in_pool
fund_from_pool pool_id pool slot amount can_delegate delegation_limit = do
  (λ s. lift (enough_in_pool s.tables pool_id pool amount) s)
  found_allocation slot none (some pool_id) amount can_delegate delegation_limit
  create_budget_transaction (
      movement slot.allocation_id slot.worker_id allocation amount
        (str_append "Initial allocation from pool " pool_id))
  pure tt

unfoldable pub allocate_from_pool : String → Slot → ℤ → Bool → Option ℤ → Action String
unfolding check_pool fund_from_pool transaction
allocate_from_pool pool_id slot amount can_delegate delegation_limit = do
  pool ← (λ s. lift (check_pool s.tables pool_id amount) s)
  transaction (fund_from_pool pool_id pool slot amount can_delegate delegation_limit)
  pure slot.allocation_id

-- the slot of the new allocation, which takes the period of the source
abbrev pub slot_from : String → String → BudgetAllocation → Slot
slot_from allocation_id worker_id source_alloc = record {
  allocation_id = allocation_id;
  worker_id = worker_id;
  period_start = source_alloc.slot.period_start;
  period_end = source_alloc.slot.period_end;
}

-- the transaction of `delegate_budget`
unfoldable pub pass_on :
    ℕ → String → String → String → ℤ → Bool → BudgetAllocation → Action (Unit {0})
unfolding found_allocation create_budget_transaction
pass_on now allocation_id source_worker_id target_worker_id amount target_can_delegate
      source_alloc =
    do
      (λ s.
          lift
            (require (can_pay (get_worker_balance now s.tables source_worker_id) amount)
              (allocation_error insufficient))
            s)
      found_allocation (slot_from allocation_id target_worker_id source_alloc)
          (some source_worker_id) none amount target_can_delegate source_alloc.delegation_limit
      create_budget_transaction (
          movement source_alloc.slot.allocation_id source_worker_id transfer_out (negate amount)
            (str_append "Delegated to " target_worker_id))
      create_budget_transaction (
          movement allocation_id target_worker_id transfer_in amount
            (str_append "Received from " source_worker_id))
      pure tt

unfoldable pub delegate_budget : ℕ → String → String → String → ℤ → Bool → Action String
unfolding check_delegation pass_on transaction
delegate_budget now allocation_id source_worker_id target_worker_id amount system_source = do
  source_alloc ← (λ s.
      lift (check_delegation now s.tables source_worker_id target_worker_id amount system_source) s)
  target_can_delegate ← (λ s. (ok (is_worker_manager s.tables target_worker_id), s))
  transaction (
      pass_on now allocation_id source_worker_id target_worker_id amount target_can_delegate
        source_alloc)
  pure allocation_id

-- `bal.available if bal else 0.0`
abbrev pub available_of : Option BudgetBalance → ℤ
available_of none = pos 0
available_of (some b) = b.available

unfoldable pub ensure_worker_funded : ℕ → String → String → ℤ → String → Action (Unit {0})
unfolding delegate_budget
ensure_worker_funded now allocation_id worker_id amount ceo_id s =
    let available = available_of (get_worker_balance now s.tables worker_id) in
    let fund = delegate_budget now allocation_id ceo_id worker_id (amount -ℤ available) true in
    if leb_ℤ amount available then (ok tt, s) else (fund >>= λ _. pure tt) s

unfoldable pub has_sufficient_budget : ℕ → Tables → String → ℤ → Bool
has_sufficient_budget now t worker_id amount = elim (get_worker_balance now t worker_id) [
  | none ↦ false
  | some b ↦ leb_ℤ amount b.available
]

-- `not balance or balance.available <= 0` is false
abbrev pub unused : Option BudgetBalance → Option ℤ
unused none = none
unused (some b) = if leb_ℤ b.available (pos 0) then none else some b.available

-- the refund to the source, if there is one
unfoldable pub return_to_source : ℕ → Option String → String → ℤ → Action (Unit {0})
unfolding create_budget_transaction current_allocation
return_to_source now none worker_id amount s = (ok tt, s)
return_to_source now (some source) worker_id amount s =
    elim (current_allocation now s.tables source) [
      | none ↦ (ok tt, s)
      | some source_alloc ↦
          (create_budget_transaction (
                movement source_alloc.slot.allocation_id source refund amount
                  (str_append "Recovered from terminated worker " worker_id))
              >> pure tt)
            s
    ]

-- the writes of `revoke_unused`
unfoldable pub give_back : ℕ → String → BudgetAllocation → ℤ → Action ℤ
unfolding create_budget_transaction return_to_source
give_back now worker_id alloc amount = do
  create_budget_transaction (
      movement alloc.slot.allocation_id worker_id adjustment (negate amount)
        "Budget revoked on worker termination")
  return_to_source now alloc.source_worker_id worker_id amount
  pure amount

unfoldable pub revoke_unused : ℕ → String → Action ℤ
unfolding give_back current_allocation
revoke_unused now worker_id s = elim (current_allocation now s.tables worker_id) [
  | none ↦ (ok (pos 0), s)
  | some alloc ↦ elim (unused (get_worker_balance now s.tables worker_id)) [
    | none ↦ (ok (pos 0), s)
    | some amount ↦ give_back now worker_id alloc amount s
  ]
]
