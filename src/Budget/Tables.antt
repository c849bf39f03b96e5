-- ===== src/Budget/Tables.antt =====
-- The tables of budgets in cli/core/db/schema.py, and the reading queries of
-- cli/core/queries/budget/. Credits are whole multiples of the smallest unit in use. Rows are kept
-- in the order of insertion, and a query that leaves the order open answers in this one. One
-- reading of the clock serves a whole call. The columns created_at, updated_at and metadata are
-- left out, and so is the id of a transaction, which no query here reads.
use quinn_ai.Prelude.{
  ℕ, String, Bool, true, false, List, [], ◌∷◌, Option, none, some, filter, Dict, ◌==◌, string_eq,
  if◌then◌else◌, leb, ℤ, pos, ◌+ℤ◌,
}

-- the columns that `budget_allocations` and `budget_balances` share
pub record Slot : Type 0 where
  pub allocation_id : String
  pub worker_id : String
  pub period_start : ℕ
  pub period_end : ℕ

pub record BudgetAllocation : Type 0 where
  pub slot : Slot
  pub source_worker_id : Option String
  pub pool_id : Option String
  pub allocated_credits : ℤ
  pub spent_credits : ℤ
  pub reserved_credits : ℤ
  pub can_delegate : Bool
  pub delegation_limit : Option ℤ

-- The credits are whole multiples of a smallest unit, where the code has floats and REAL columns.
pub record BudgetBalance : Type 0 where
  pub slot : Slot
  pub allocated : ℤ
  pub spent : ℤ
  pub reserved : ℤ
  pub available : ℤ
  pub delegated : ℤ

pub data TransactionType : Type 0 where
  allocation spend reserve release transfer_out transfer_in adjustment refund : TransactionType

-- the provider, the tokens and the reference of a transaction
pub record Details : Type 0 where
  pub provider : Option String
  pub model : Option String
  pub input_tokens : Option ℕ
  pub output_tokens : Option ℕ
  pub reference_type : Option String
  pub reference_id : Option String
  pub description : Option String

pub record BudgetTransaction : Type 0 where
  pub allocation_id : String
  pub worker_id : String
  pub kind : TransactionType
  pub amount : ℤ
  pub details : Details

pub record BudgetPool : Type 0 where
  pub id : String
  pub name : String
  pub total_credits : ℤ
  pub period_start : ℕ
  pub period_end : ℕ

-- `workers` holds the manager of each worker.
pub record Tables : Type 0 where
  pub pools : List BudgetPool
  pub allocations : List BudgetAllocation
  pub transactions : List BudgetTransaction
  pub balances : List BudgetBalance
  pub workers : Dict (Option String)

abbrev pub allocation_slot : BudgetAllocation → Slot
allocation_slot a = a.slot

abbrev pub balance_slot : BudgetBalance → Slot
balance_slot b = b.slot

-- `first_row`: the first of the rows
abbrev pub first_row : {A : Type 0} → List A → Option A
first_row [] = none
first_row (a ∷ _) = some a

-- `ORDER BY period_start DESC`. Rows with the same start keep their order here, which SQL leaves open.
unfoldable pub insert_recent : {A : Type 0} → (A → Slot) → A → List A → List A
insert_recent at a [] = a ∷ []
insert_recent at a (b ∷ rows) =
    let rest = insert_recent at a rows in
    if leb (at b).period_start (at a).period_start then a ∷ b ∷ rows else b ∷ rest

unfoldable pub recent_first : {A : Type 0} → (A → Slot) → List A → List A
recent_first at [] = []
recent_first at (a ∷ rows) = insert_recent at a (recent_first at rows)

-- `worker_id = ?`
abbrev pub is_of : String → Slot → Bool
is_of worker_id s = s.worker_id == worker_id

-- `period_start <= ? AND period_end >= ?`
abbrev pub is_open_at : ℕ → Slot → Bool
is_open_at now s = if leb s.period_start now then leb now s.period_end else false

abbrev pub is_current : ℕ → String → Slot → Bool
is_current now worker_id s = if is_of worker_id s then is_open_at now s else false

-- the rows of a worker whose period covers the time, the latest period first
unfoldable pub current_row : {A : Type 0} → (A → Slot) → ℕ → String → List A → Option A
unfolding recent_first
current_row at now worker_id rows =
    first_row (recent_first at (filter (λ a. is_current now worker_id (at a)) rows))

unfoldable pub get_budget_allocation : Tables → String → Option BudgetAllocation
get_budget_allocation t id = first_row (filter (λ a. a.slot.allocation_id == id) t.allocations)

unfoldable pub get_worker_allocations : Tables → String → List BudgetAllocation
unfolding recent_first
get_worker_allocations t worker_id =
    recent_first allocation_slot (filter (λ a. is_of worker_id a.slot) t.allocations)

unfoldable pub get_current_allocation : ℕ → Tables → String → Option BudgetAllocation
unfolding current_row
get_current_allocation now t worker_id = current_row allocation_slot now worker_id t.allocations

unfoldable pub get_budget_balance : Tables → String → Option BudgetBalance
get_budget_balance t id = first_row (filter (λ b. b.slot.allocation_id == id) t.balances)

unfoldable pub get_worker_balance : ℕ → Tables → String → Option BudgetBalance
unfolding current_row
get_worker_balance now t worker_id = current_row balance_slot now worker_id t.balances

unfoldable pub get_budget_pool : Tables → String → Option BudgetPool
get_budget_pool t id = first_row (filter (λ p. p.id == id) t.pools)

-- `pool_id = ?`
abbrev pub is_from_pool : String → BudgetAllocation → Bool
is_from_pool pool_id a = elim a.pool_id [ none ↦ false | some p ↦ p == pool_id ]

unfoldable pub get_allocations_by_pool : Tables → String → List BudgetAllocation
get_allocations_by_pool t pool_id = filter (is_from_pool pool_id) t.allocations

unfoldable pub sum_allocated : List BudgetAllocation → ℤ
sum_allocated [] = pos 0
sum_allocated (a ∷ rows) = a.allocated_credits +ℤ sum_allocated rows

-- `COALESCE(SUM(allocated_credits), 0)`
unfoldable pub get_pool_allocated_total : Tables → String → ℤ
unfolding get_allocations_by_pool sum_allocated
get_pool_allocated_total t pool_id = sum_allocated (get_allocations_by_pool t pool_id)

unfoldable pub has_direct_report : String → Dict (Option String) → Bool
has_direct_report id [] = false
has_direct_report id ((_, manager_id) ∷ rows) =
    let rest = has_direct_report id rows in
    elim manager_id [ none ↦ rest | some m ↦ if m == id then true else rest ]

unfoldable pub is_worker_manager : Tables → String → Bool
unfolding has_direct_report
is_worker_manager t worker_id = has_direct_report worker_id t.workers
