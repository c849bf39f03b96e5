-- ===== src/Budget/Enforcer.antt =====
-- cli/core/budget/enforcer.py: the checks around a call of a provider, `BudgetEnforcer`, and
-- `complete_with_budget` of cli/providers/registry/budget.py. A credit unit is 10^-8 dollars, so
-- that the price of each token in cli/core/constants/budget.py is a whole number. The texts of
-- messages and the log are left out.
use quinn_ai.Prelude.{
  ℕ, ◌+◌, ◌*◌, String, Bool, true, false, not, Dict, ◌∷◌, [], Option, none, some, lookup, string_eq,
  if◌then◌else◌, ℤ, pos, ◌-ℤ◌, negate, abs, leb_ℤ, ltb_ℤ,
}
use quinn_ai.Budget.Tables.{
  BudgetAllocation, BudgetBalance, spend, Details, BudgetTransaction, Tables, get_worker_balance,
  get_current_allocation,
}
use quinn_ai.Budget.Action.{
  Action, Result, ok, err, value_error, runtime_error, attribute_error, no_budget_allocation,
  budget_exhausted, require, if_ok, lift, pure, then_do, ◌>>=◌, ◌>>◌,
}
use quinn_ai.Budget.Writes.{is_positive, create_budget_transaction}

-- the cost of one token, in credit units
pub record Rates : Type 0 where
  pub input : ℕ
  pub output : ℕ

abbrev pub default_rates : Dict Rates
default_rates =
    ("budget", record { input = 25; output = 125 })
    ∷ ("standard", record { input = 300; output = 1500 })
    ∷ ("advanced", record { input = 300; output = 1500 })
    ∷ ("premium", record { input = 1500; output = 7500 })
    ∷ []

-- with `DEFAULT_COST_PER_1K_TOKENS`, and standard pricing for another tier
unfoldable pub rates_of : String → Rates
unfolding lookup
rates_of tier = elim (lookup tier default_rates) [
  | none ↦ record { input = 300; output = 1500 }
  | some r ↦ r
]

-- `lower` is Python's `str.lower`; no BudgetConfig is given.
unfoldable pub estimate_cost : (String → String) → String → ℕ → ℕ → ℤ
unfolding rates_of
estimate_cost lower model_tier input_tokens output_tokens =
    let rates = rates_of (lower model_tier) in
    pos (input_tokens * rates.input + output_tokens * rates.output)

pub record BudgetCheckResult : Type 0 where
  pub allowed : Bool
  pub worker_id : String
  pub allocation_id : String
  pub available : ℤ
  pub required : ℤ
  pub remaining_after : ℤ

-- `allocated_credits - spent_credits - reserved_credits`
abbrev pub unspent : BudgetAllocation → ℤ
unspent a = a.allocated_credits -ℤ a.spent_credits -ℤ a.reserved_credits

-- the allocation that a worker spends from, and what is left of it
abbrev pub funds_from : Option BudgetBalance → Option BudgetAllocation → Result (String × ℤ)
funds_from (some b) a = ok (b.slot.allocation_id, b.available)
funds_from none (some a) = ok (a.slot.allocation_id, unspent a)
funds_from none none = err no_budget_allocation

unfoldable pub funds : ℕ → Tables → String → Result (String × ℤ)
funds now t worker_id =
    funds_from (get_worker_balance now t worker_id) (get_current_allocation now t worker_id)

unfoldable pub check_budget : ℕ → Tables → String → ℤ → Result BudgetCheckResult
unfolding funds
check_budget now t worker_id required = if_ok (funds now t worker_id) (λ (id, available).
    ok (record {
      allowed = leb_ℤ required available;
      worker_id = worker_id;
      allocation_id = id;
      available = available;
      required = required;
      remaining_after = if leb_ℤ required available then available -ℤ required else pos 0;
    }))

unfoldable pub enforce_budget : ℕ → Tables → String → ℤ → Result BudgetCheckResult
unfolding check_budget
enforce_budget now t worker_id required = if_ok (check_budget now t worker_id required) (λ result.
    if result.allowed then ok result else err (budget_exhausted required result.available))

abbrev pub spending : String → String → ℤ → Details → BudgetTransaction
spending allocation_id worker_id amount details = record {
  allocation_id = allocation_id;
  worker_id = worker_id;
  kind = spend;
  amount = amount;
  details = details;
}

-- what `record_spend` tests before it writes
unfoldable pub check_spend : ℕ → Tables → String → ℤ → Result (Unit {0})
unfolding funds
check_spend now t worker_id amount = if_ok (require (is_positive amount) value_error) (λ _.
    if_ok (funds now t worker_id) (λ (_, available).
      require (not (ltb_ℤ available (abs amount))) (budget_exhausted (abs amount) available)))

unfoldable pub record_spend : ℕ → String → String → ℤ → Details → Action BudgetTransaction
unfolding check_spend create_budget_transaction
record_spend now worker_id allocation_id amount details = do
  (λ s. lift (check_spend now s.tables worker_id amount) s)
  create_budget_transaction (spending allocation_id worker_id (negate (abs amount)) details)

-- a BudgetAllocation has no field `amount`
unfoldable pub get_remaining_budget : ℕ → Tables → String → Result ℤ
get_remaining_budget now t worker_id = elim (get_worker_balance now t worker_id) [
  | some b ↦ ok b.available
  | none ↦ elim (get_current_allocation now t worker_id) [
    | none ↦ ok (pos 0)
    | some _ ↦ err attribute_error
  ]
]

pub record BudgetEnforcer : Type 0 where
  pub worker_id : String
  pub estimated_cost : ℤ
  pub check_result : Option BudgetCheckResult
  pub recorded : Bool

abbrev pub new_enforcer : String → ℤ → BudgetEnforcer
new_enforcer worker_id estimated_cost = record {
  worker_id = worker_id;
  estimated_cost = estimated_cost;
  check_result = none;
  recorded = false;
}

-- `__enter__`
unfoldable pub enter : ℕ → BudgetEnforcer → Action BudgetEnforcer
unfolding enforce_budget
enter now e = do
  result ← (λ s. lift (enforce_budget now s.tables e.worker_id e.estimated_cost) s)
  pure (record e { check_result = some result })

-- the method `record`
unfoldable pub record_cost : ℕ → BudgetEnforcer → ℤ → Details → Action BudgetEnforcer
unfolding record_spend
record_cost now e actual_cost details s = elim e.check_result [
  | none ↦ (err runtime_error, s)
  | some result ↦
      then_do (record_spend now e.worker_id result.allocation_id actual_cost details s)
        (λ _. pure (record e { recorded = true }))
]
