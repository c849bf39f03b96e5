-- ===== src/Budget/Checks.antt =====
-- What `BudgetService` of cli/core/budget/service.py tests before it writes.
use quinn_ai.Prelude.{
  ℕ, String, Bool, false, not, ◌||◌, List, [], ◌∷◌, Option, none, some, lookup, ◌==◌, string_eq,
  if◌then◌else◌, ltb, ℤ, pos, ◌-ℤ◌, leb_ℤ, ltb_ℤ,
}
use quinn_ai.Budget.Tables.{
  BudgetAllocation, BudgetBalance, BudgetPool, Tables, is_open_at, get_budget_pool,
  get_pool_allocated_total, get_worker_allocations, get_worker_balance, first_row,
}
use quinn_ai.Budget.Writes.{is_positive}
use quinn_ai.Budget.Action.{
  Result, ok, allocation_error, not_positive, pool_not_found, insufficient_pool, worker_not_found,
  not_a_report, no_allocation, cannot_delegate, over_limit, no_balance, insufficient, require,
  or_raise, if_ok as ◌>>=◌,
}

infixl 5 ◌>>◌
abbrev ◌>>◌ {ℓ} : {B : Type ℓ} → Result (Unit {0}) → Result B → Result B
m >> k = ◌>>=◌ m (λ _. k)

-- the test of the funds of a pool, which is made twice
unfoldable pub enough_in_pool : Tables → String → BudgetPool → ℤ → Result (Unit {0})
enough_in_pool t pool_id pool amount =
    require (not (ltb_ℤ (pool.total_credits -ℤ get_pool_allocated_total t pool_id) amount))
      (allocation_error insufficient_pool)

unfoldable pub check_pool : Tables → String → ℤ → Result BudgetPool
unfolding enough_in_pool
check_pool t pool_id amount = do
  require (is_positive amount) (allocation_error not_positive)
  pool ← or_raise (get_budget_pool t pool_id) (allocation_error pool_not_found)
  enough_in_pool t pool_id pool amount
  ok pool

-- the loop of `_get_current_allocation`, with `current` so far
unfoldable pub pick_current :
    ℕ → Option BudgetAllocation → List BudgetAllocation → Option BudgetAllocation
pick_current now current [] = current
pick_current now none (a ∷ rows) =
    pick_current now (if is_open_at now a.slot then some a else none) rows
pick_current now (some c) (a ∷ rows) =
    pick_current now
      (if is_open_at now a.slot
        then (if ltb c.slot.period_start a.slot.period_start then some a else some c)
        else some c)
      rows

-- `current or (allocations[0] if allocations else None)`
abbrev pub or_first : Option BudgetAllocation → List BudgetAllocation → Option BudgetAllocation
or_first (some c) rows = some c
or_first none rows = first_row rows

unfoldable pub current_allocation : ℕ → Tables → String → Option BudgetAllocation
unfolding pick_current
current_allocation now t worker_id =
    let rows = get_worker_allocations t worker_id in or_first (pick_current now none rows) rows

abbrev pub names_manager : Option String → String → Bool
names_manager manager_id id = elim manager_id [ none ↦ false | some m ↦ m == id ]

-- `delegation_limit and amount > delegation_limit`
abbrev pub exceeds : Option ℤ → ℤ → Bool
exceeds none amount = false
exceeds (some l) amount =
    if leb_ℤ l (pos 0) then (if leb_ℤ (pos 0) l then false else ltb_ℤ l amount) else ltb_ℤ l amount

abbrev pub can_pay : Option BudgetBalance → ℤ → Bool
can_pay none amount = false
can_pay (some b) amount = not (ltb_ℤ b.available amount)

unfoldable pub check_delegation : ℕ → Tables → String → String → ℤ → Bool → Result BudgetAllocation
unfolding current_allocation
check_delegation now t source_worker_id target_worker_id amount system_source = do
  require (is_positive amount) (allocation_error not_positive)
  manager_id ← or_raise (lookup target_worker_id t.workers) (allocation_error worker_not_found)
  require (system_source || names_manager manager_id source_worker_id)
      (allocation_error not_a_report)
  source_alloc ←
      or_raise (current_allocation now t source_worker_id) (allocation_error no_allocation)
  require (system_source || source_alloc.can_delegate) (allocation_error cannot_delegate)
  require (system_source || not (exceeds source_alloc.delegation_limit amount))
      (allocation_error over_limit)
  source_balance ←
      or_raise (get_worker_balance now t source_worker_id) (allocation_error no_balance)
  require (not (ltb_ℤ source_balance.available amount)) (allocation_error insufficient)
  ok source_alloc
