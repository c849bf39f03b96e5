-- ===== src/Delegation/Hiring.antt =====
-- `can_hire` of cli/core/worker/hiring.py. What it reads of other rows is given: the number of direct
-- reports, the maximum of them, and the cost of the workers under this one, which is `none` if the
-- query fails.
use quinn_ai.Prelude.{
  ℕ, ◌+◌, String, Bool, true, false, not, List, [], ◌∷◌, Option, none, some, lookup, ltb, leb,
  if◌then◌else◌,
}
use quinn_ai.Delegation.Grants.{Database, expire_delegations}
use quinn_ai.Delegation.Authority.{HiringScope, from_json, can_hire_role, can_afford_cost}

-- the reasons of the answer
pub data Reason : Type 0 where
  ok no_authority role_refused cost_refused max_reports_reached budget_exceeded : Reason

-- `get_hiring_authority_scope` of a worker whose row is read anew
unfoldable pub stored_scope : String → Database → Option String
stored_scope id db = elim (lookup id db.workers) [ none ↦ none | some w ↦ w.hiring_authority_scope ]

abbrev pub is_empty : List String → Bool
is_empty [] = true
is_empty (role ∷ roles) = false

-- `scope.max_total_budget > 0` and the sum
unfoldable pub over_budget : HiringScope → Option ℕ → ℕ → Bool
over_budget scope none cost = false
over_budget scope (some cumulative) cost =
    if ltb 0 scope.max_total_budget then ltb scope.max_total_budget (cumulative + cost) else false

unfoldable pub judge : HiringScope → String → ℕ → ℕ → ℕ → Option ℕ → Bool × Reason
judge scope role cost reports max_reports cumulative =
    if is_empty scope.allowed_roles
    then (false, no_authority)
    else if not (can_hire_role scope role)
    then (false, role_refused)
    else if not (can_afford_cost scope cost)
    then (false, cost_refused)
    else if leb max_reports reports
    then (false, max_reports_reached)
    else if over_budget scope cumulative cost
    then (false, budget_exceeded)
    else (true, ok)

unfoldable pub can_hire :
    (String → HiringScope)
    → ℕ
    → String
    → String
    → ℕ
    → ℕ
    → ℕ
    → Option ℕ
    → Database
    → (Bool × Reason) × Database
can_hire loads now id role cost reports max_reports cumulative db =
    let (expired_ids, db') = expire_delegations now db in
    (judge (from_json loads (stored_scope id db')) role cost reports max_reports cumulative, db')
