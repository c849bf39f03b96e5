-- ===== src/Delegation/Authority.antt =====
-- `delegate_authority` of cli/core/worker/delegation.py, with HiringScope of
-- cli/core/worker/hiring.py. `loads` is json.loads with the fields that are read from
-- it, and `to_json` is HiringScope.to_json. What
-- another process does to the tables between the reading of the version and the writing is given as
-- a function. Caches and events are left out.
use quinn_ai.Prelude.{
  ℕ, String, Bool, true, false, not, List, [], ◌∷◌, Option, none, some, filter, elem, ltb, leb,
  ◌==◌, string_eq, if◌then◌else◌,
}
use quinn_ai.Delegation.Grants.{
  DelegationGrant, WorkerRow, Database, Outcome, done, value_error, integrity_error, new_grant,
  create_delegation_grant, get_worker_delegation_version, update_worker_delegation,
}
use quinn_ai.Delegation.Cycles.{check_delegation_cycle}

pub record HiringScope : Type 0 where
  pub allowed_roles : List String
  pub max_cost : ℕ
  pub max_total_budget : ℕ

abbrev pub empty_scope : HiringScope
empty_scope = record { allowed_roles = []; max_cost = 0; max_total_budget = 0 }

unfoldable pub from_json : (String → HiringScope) → Option String → HiringScope
from_json loads none = empty_scope
from_json loads (some text) = if text == "" then empty_scope else loads text

unfoldable pub can_hire_role : HiringScope → String → Bool
can_hire_role scope role =
    if elem "*" scope.allowed_roles then true else elem role scope.allowed_roles

unfoldable pub can_afford_cost : HiringScope → ℕ → Bool
can_afford_cost scope cost = leb cost scope.max_cost

-- what the code reads of a worker
pub record WorkerInfo : Type 0 where
  pub id : String
  pub lifecycle_status : String
  pub manager_id : Option String

pub data DelegationError : Type 0 where
  self_delegation delegator_terminated delegate_terminated not_a_report circular role_not_allowed
        cost_too_high budget_too_high already_delegated integrity concurrent :
      DelegationError

unfoldable pub is_report : String → Option String → Bool
is_report boss none = false
is_report boss (some manager) = manager == boss

-- the guards on the two workers
unfoldable pub worker_error : WorkerInfo → WorkerInfo → Option DelegationError
unfolding is_report
worker_error self report =
    if report.id == self.id
    then some self_delegation
    else if self.lifecycle_status == "terminated"
    then some delegator_terminated
    else if report.lifecycle_status == "terminated"
    then some delegate_terminated
    else if not (is_report self.id report.manager_id)
    then some not_a_report
    else none

-- the loop over the roles
unfoldable pub all_roles : HiringScope → List String → Bool
all_roles own [] = true
all_roles own (role ∷ roles) =
    let rest = all_roles own roles in if not (can_hire_role own role) then false else rest

-- the guards on the scope and the budget
unfoldable pub scope_error : HiringScope → ℕ → HiringScope → ℕ → Option DelegationError
scope_error own own_budget scope budget =
    if not (all_roles own scope.allowed_roles)
    then some role_not_allowed
    else if ltb own.max_cost scope.max_cost
    then some cost_too_high
    else if ltb own_budget budget
    then some budget_too_high
    else none

-- How a call ends: with the grant, by an exception, or it is still searching for cycles.
pub data Delegated : Type 0 where
  granted : DelegationGrant → Database → Delegated
  refused : DelegationError → Database → Delegated
  still_searching : Delegated

-- `DELETE FROM delegation_grants WHERE id = ?`
unfoldable pub delete_grant : String → Database → Database
delete_grant id db = record db { grants = filter (λ g. not (g.id == id)) db.grants }

-- what follows the update with its lock
abbrev pub locked : DelegationGrant → Bool × Database → Delegated
locked g (true, db) = granted g db
locked g (false, db) = refused concurrent (delete_grant g.id db)

-- what follows the creation of the grant
abbrev pub created : ℕ → Outcome DelegationGrant → Delegated
created version (value_error db) = refused already_delegated db
created version (integrity_error db) = refused integrity db
created version (done g db) = locked g (
    update_worker_delegation g.delegate_id (some g.scope) g.budget_amount (some g.delegator_id)
      g.expires_at version db)

-- the part that writes
unfoldable pub write_grant : (Database → Database) → ℕ → DelegationGrant → Database → Delegated
write_grant others now g db =
    created (get_worker_delegation_version db g.delegate_id)
      (create_delegation_grant now g (others db))

-- what follows the test for cycles
abbrev pub unless_cycle : Option Bool → Option DelegationError → Delegated → Database → Delegated
unless_cycle none e rest db = still_searching
unless_cycle (some true) e rest db = refused circular db
unless_cycle (some false) (some e) rest db = refused e db
unless_cycle (some false) none rest db = rest

-- the arguments of a call, with the id that generate_id gives
pub record Offer : Type 0 where
  pub grant_id : String
  pub budget : ℕ
  pub scope : HiringScope
  pub granted_by_cli_user : Option String
  pub expires_at : Option ℕ

unfoldable pub offered :
    (HiringScope → String) → ℕ → WorkerInfo → WorkerInfo → Offer → DelegationGrant
unfolding new_grant
offered to_json now self report offer =
    new_grant now offer.grant_id self.id report.id (to_json offer.scope) offer.budget
      offer.granted_by_cli_user offer.expires_at

-- `own` is the cached row of the delegator.
unfoldable pub delegate_authority :
    (HiringScope → String)
    → (String → HiringScope)
    → (Database → Database)
    → ℕ
    → ℕ
    → WorkerInfo
    → WorkerInfo
    → WorkerRow
    → Offer
    → Database
    → Delegated
delegate_authority to_json loads others fuel now self report own offer db =
    elim (worker_error self report) [
      | some e ↦ refused e db
      | none ↦
          unless_cycle (check_delegation_cycle fuel now db self.id report.id)
            (scope_error (from_json loads own.hiring_authority_scope) own.delegated_budget
              offer.scope offer.budget)
            (write_grant others now (offered to_json now self report offer) db) db
    ]
