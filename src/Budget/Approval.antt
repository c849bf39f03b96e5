-- ===== src/Budget/Approval.antt =====
-- What the checks of `delegate_budget` and of `allocate_from_pool` in cli/core/budget/service.py
-- establish.
use quinn_ai.Prelude.{
  ℕ, String, Bool, true, false, Option, none, some, lookup, string_eq, ℤ, ◌-ℤ◌, ltb_ℤ, ◌≡◌, ap, ◌∙◌,
  inl, inr, arith, Option-cases, eq_iff,
}
use quinn_ai.Budget.Tables.{
  BudgetAllocation, BudgetBalance, BudgetPool, Tables, get_budget_pool, get_pool_allocated_total,
  get_worker_balance,
}
use quinn_ai.Budget.Action.{ok}
use quinn_ai.Budget.Writes.{is_positive}
use quinn_ai.Budget.Checks.{
  names_manager, exceeds, current_allocation, check_delegation, check_pool, enough_in_pool,
}

-- What holds when a delegation from an allocation is approved.
pub record Approved (now : ℕ) (t : Tables) (source target : String) (amount : ℤ) (system : Bool)
    (a : BudgetAllocation) : Type 0 where
  pub positive : is_positive amount ≡ true
  pub found : current_allocation now t source ≡ some a
  pub balance : BudgetBalance
  pub has_balance : get_worker_balance now t source ≡ some balance
  pub covered : ltb_ℤ balance.available amount ≡ false
  pub reports : system ≡ false → lookup target t.workers ≡ some (some source)
  pub may_delegate : system ≡ false → a.can_delegate ≡ true
  pub within_limit : system ≡ false → exceeds a.delegation_limit amount ≡ false

names_manager-some : (m : Option String) (id : String) → names_manager m id ≡ true → m ≡ some id
names_manager-some none id h = ground arith
names_manager-some (some m) id h = ground (arith, eq_iff m id)

pub check-Approved :
    (now : ℕ) (t : Tables) (source target : String) (amount : ℤ) (system : Bool)
    {a : BudgetAllocation}
    → check_delegation now t source target amount system ≡ ok a
    → Approved now t source target amount system a
unfolding check_delegation
check-Approved now t source target amount system {a} h =
    elim (Option-cases (lookup target t.workers)) [
      | inl unknown ↦ ground (arith, h, unknown)
      | inr (m, known) ↦ elim (Option-cases (current_allocation now t source)) [
        | inl unfunded ↦ ground (arith, h, known, unfunded)
        | inr (a', funded) ↦ elim (Option-cases (get_worker_balance now t source)) [
          | inl unbalanced ↦ ground (arith, h, known, funded, unbalanced)
          | inr (b, balanced) ↦ record {
            positive = ground arith;
            found = ground arith;
            balance = b;
            has_balance = balanced;
            covered = ground arith;
            reports = λ peer. ground (arith, names_manager-some m source);
            may_delegate = λ peer. ground arith;
            within_limit = λ peer. ground arith;
          }
        ]
      ]
    ]

-- What holds when an allocation from a pool is approved.
pub record InPool (t : Tables) (pool_id : String) (amount : ℤ) (pool : BudgetPool) : Type 0 where
  pub positive : is_positive amount ≡ true
  pub found : get_budget_pool t pool_id ≡ some pool
  pub covered : ltb_ℤ (pool.total_credits -ℤ get_pool_allocated_total t pool_id) amount ≡ false

pub check-InPool :
    (t : Tables) (pool_id : String) (amount : ℤ) {pool : BudgetPool}
    → check_pool t pool_id amount ≡ ok pool
    → InPool t pool_id amount pool
unfolding check_pool enough_in_pool
check-InPool t pool_id amount {pool} h = elim (Option-cases (get_budget_pool t pool_id)) [
  | inl unknown ↦ ground (arith, h, unknown)
  | inr (p, known) ↦
      let same : p ≡ pool = ground arith in
      record { positive = ground arith; found = known ∙ ap some same; covered = ground arith }
]
