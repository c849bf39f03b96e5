-- ===== src/Delegation/Bounds.antt =====
-- What `delegate_authority` of cli/core/worker/delegation.py lets a worker pass on.
use quinn_ai.Prelude.{
  ℕ, ◌+◌, ◌≤◌, ◌<◌, String, Bool, true, false, List, [], ◌∷◌, Option, none, some, elem, length,
  ◌==◌, string_eq, ◌≡◌, refl, sym, subst, inl, inr, arith, Bool-cases, Option-cases, eq_iff, ◌∙◌,
}
use quinn_ai.Delegation.Grants.{DelegationGrant, WorkerRow, Database}
use quinn_ai.Delegation.Cycles.{check_delegation_cycle}
use quinn_ai.Delegation.Subtree.{Below}
use quinn_ai.Delegation.Check.{check_delegation_cycle_iff}
use quinn_ai.Delegation.Authority.{
  HiringScope, from_json, can_hire_role, can_afford_cost, WorkerInfo, DelegationError, is_report,
  worker_error, all_roles, scope_error, Delegated, granted, refused, write_grant, Offer, offered,
  unless_cycle, delegate_authority,
}

-- A scope that allows no more than another.
pub record IsWithin (scope own : HiringScope) : Type 0 where
  pub roles : (role : String) → can_hire_role scope role ≡ true → can_hire_role own role ≡ true
  pub costs : (cost : ℕ) → can_afford_cost scope cost ≡ true → can_afford_cost own cost ≡ true

all_roles-elem :
    (own : HiringScope) (roles : List String) (role : String)
    → all_roles own roles ≡ true
    → elem role roles ≡ true
    → can_hire_role own role ≡ true
unfolding all_roles
all_roles-elem own [] role all i = ground arith
all_roles-elem own (r ∷ roles) role all i = elim (Bool-cases (role == r)) [
  | inl same ↦
      subst (λ x. can_hire_role own x ≡ true) (sym ((eq_iff role r).0 same)) (ground (arith, all))
  | inr other ↦ all_roles-elem own roles role (ground (arith, all)) (ground (arith, i, other))
]

wildcard :
    (own : HiringScope) (role : String)
    → can_hire_role own "*" ≡ true
    → can_hire_role own role ≡ true
unfolding can_hire_role
wildcard own role h = ground (arith, h)

all_roles-can_hire_role :
    (own scope : HiringScope) (role : String)
    → all_roles own scope.allowed_roles ≡ true
    → can_hire_role scope role ≡ true
    → can_hire_role own role ≡ true
all_roles-can_hire_role own scope role all h = elim (Bool-cases (elem "*" scope.allowed_roles)) [
  | inl any_role ↦ wildcard own role (all_roles-elem own scope.allowed_roles "*" all any_role)
  | inr listed ↦
      all_roles-elem own scope.allowed_roles role all
        (unfold can_hire_role in ground (arith, h, listed))
]

scope_error-none :
    (own : HiringScope) (own_budget : ℕ) (scope : HiringScope) (budget : ℕ)
    → scope_error own own_budget scope budget ≡ none
    → IsWithin scope own × (budget ≤ own_budget)
unfolding scope_error
scope_error-none own own_budget scope budget h =
    let all : all_roles own scope.allowed_roles ≡ true = ground (arith, h) in
    let cheaper : scope.max_cost ≤ own.max_cost = ground (arith, h) in
    (
      record {
        roles = λ role r. all_roles-can_hire_role own scope role all r;
        costs = λ cost c. unfold can_afford_cost in ground (arith, c, cheaper);
      },
      ground (arith, h),
    )

worker_error-none :
    (self report : WorkerInfo) → worker_error self report ≡ none → report.manager_id ≡ some self.id
unfolding worker_error is_report
worker_error-none self report h = elim (Option-cases report.manager_id) [
  | inl nobody ↦ ground (arith, h, nobody)
  | inr (m, e) ↦ ground (arith, h, e, eq_iff m self.id)
]

pub unless_cycle-granted :
    (answer : Option Bool) (e : Option DelegationError) (rest : Delegated) (db : Database)
    {g : DelegationGrant} {db' : Database}
    → unless_cycle answer e rest db ≡ granted g db'
    → (answer ≡ some false) × (e ≡ none) × (rest ≡ granted g db')
unless_cycle-granted none e rest db h = cc
unless_cycle-granted (some true) e rest db h = cc
unless_cycle-granted (some false) (some e) rest db h = cc
unless_cycle-granted (some false) none rest db h = (refl, refl, h)

module _ (to_json : HiringScope → String) (loads : String → HiringScope)
    (others : Database → Database) (fuel now : ℕ) (self report : WorkerInfo) (own : WorkerRow)
    (offer : Offer) (db : Database) where
  authority-fine :
      worker_error self report ≡ none
      → delegate_authority to_json loads others fuel now self report own offer db
        ≡ unless_cycle
            (check_delegation_cycle fuel now db self.id report.id)
            (scope_error
              (from_json loads own.hiring_authority_scope)
              own.delegated_budget
              offer.scope
              offer.budget)
            (write_grant others now (offered to_json now self report offer) db)
            db
  unfolding delegate_authority
  authority-fine fine = rw (fine, delegate_authority) refl

  authority-wrong :
      (e : DelegationError)
      → worker_error self report ≡ some e
      → delegate_authority to_json loads others fuel now self report own offer db ≡ refused e db
  unfolding delegate_authority
  authority-wrong e wrong = rw (wrong, delegate_authority) refl

  pub passed :
      {g' : DelegationGrant} {db' : Database}
      → delegate_authority to_json loads others fuel now self report own offer db ≡ granted g' db'
      → (worker_error self report ≡ none)
        × (unless_cycle
              (check_delegation_cycle fuel now db self.id report.id)
              (scope_error
                (from_json loads own.hiring_authority_scope)
                own.delegated_budget
                offer.scope
                offer.budget)
              (write_grant others now (offered to_json now self report offer) db)
              db
            ≡ granted g' db')
  passed h = elim (Option-cases (worker_error self report)) [
    | inr (e, wrong) ↦ ground (arith, h, authority-wrong e wrong)
    | inl fine ↦ (fine, sym (authority-fine fine) ∙ h)
  ]

  -- If `delegate_authority` grants, with two rounds more than there are grants, then the receiver is a
  -- direct report; no path of unrevoked grants leads from the receiver down to the delegator, nor are
  -- they the same; the scope allows no role and no cost that the delegator's own does not; and the
  -- budget is not above the delegator's.
  pub delegate_authority-IsWithin :
      (g' : DelegationGrant) (db' : Database)
      → length db.grants + 1 < fuel
      → delegate_authority to_json loads others fuel now self report own offer db ≡ granted g' db'
      → (report.manager_id ≡ some self.id)
        × (Below db report.id self.id → ⊥)
        × IsWithin offer.scope (from_json loads own.hiring_authority_scope)
        × (offer.budget ≤ own.delegated_budget)
  delegate_authority-IsWithin g' db' enough h =
      let (fine, rest) = passed h in
      let (no_cycle, in_scope, _) =
        unless_cycle-granted (check_delegation_cycle fuel now db self.id report.id)
          (scope_error (from_json loads own.hiring_authority_scope) own.delegated_budget offer.scope
            offer.budget)
          (write_grant others now (offered to_json now self report offer) db) db rest in
      let (answer, e, right) = check_delegation_cycle_iff now db fuel self.id report.id enough in
      let (within, affordable) =
        scope_error-none (from_json loads own.hiring_authority_scope) own.delegated_budget
          offer.scope offer.budget in_scope in
      (
        worker_error-none self report fine,
        λ below. let yes_cycle = right.1 below in ground (arith, no_cycle, e, yes_cycle),
        within,
        affordable,
      )
