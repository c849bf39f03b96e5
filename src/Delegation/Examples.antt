-- ===== src/Delegation/Examples.antt =====
-- The theorems on delegation at concrete tables.
use quinn_ai.Prelude.{
  ℕ, String, Bool, true, false, [], ◌∷◌, Option, none, some, lookup, sort_by, insert_by, ◌≡◌, refl,
  ◌↔◌, arith,
}
use quinn_ai.Delegation.Grants.{
  DelegationGrant, WorkerRow, Database, get_delegation_grant, fetchone, grants_to, if_active,
  is_active, is_unrevoked, is_past, insert_grant, create_delegation_grant, accepts,
  update_worker_delegation, get_delegations_by_delegator, granted_by,
}
use quinn_ai.Delegation.Cycles.{
  get_delegation_subtree, search_below, visit, add_new, check_delegation_cycle,
}
use quinn_ai.Delegation.Revoke.{revoke_delegation_grant}
use quinn_ai.Delegation.Subtree.{Below}
use quinn_ai.Delegation.Search.{get_delegation_subtree_iff}
use quinn_ai.Delegation.Cycles.{get_delegation_subtree}
use quinn_ai.Prelude.{elem, List}
use quinn_ai.Delegation.Check.{check_delegation_cycle_iff}
use quinn_ai.Prelude.{if◌then◌else◌, ◌==◌, string_eq}
use quinn_ai.Delegation.Cascade.{HasEnded, revoke_delegation_grant_ends}
use quinn_ai.Prelude.{◌≤◌, insert}
use quinn_ai.Prelude.{here, there}
use quinn_ai.Delegation.Grants.{is_due}
use quinn_ai.Delegation.Hiring.{can_hire, no_authority}
use quinn_ai.Delegation.Lapse.{can_hire-due}
use quinn_ai.Delegation.Grants.{get_worker_delegation_version, new_grant}
use quinn_ai.Delegation.Cycles.{get_delegation_chain, chain_from, in_subtree}
use quinn_ai.Delegation.Authority.{
  HiringScope, WorkerInfo, from_json, can_hire_role, is_report, worker_error, all_roles,
  scope_error, granted, write_grant, Offer, offered, delegate_authority,
}
use quinn_ai.Delegation.Bounds.{IsWithin, delegate_authority-IsWithin}
use quinn_ai.Delegation.Versions.{delegate_authority-version}
use quinn_ai.Delegation.Conflicts.{get-create_iff}

abbrev grant : String → String → String → Option ℕ → DelegationGrant
grant id delegator_id delegate_id expires_at = record {
  id = id;
  delegator_id = delegator_id;
  delegate_id = delegate_id;
  scope = "{}";
  budget_amount = 100;
  granted_at = 1;
  expires_at = expires_at;
  revoked_at = none;
  revoked_by = none;
  revoke_reason = none;
  granted_by_cli_user = none;
}

abbrev worker : WorkerRow
worker = record {
  hiring_authority_scope = none;
  delegated_budget = 0;
  delegated_by = none;
  delegation_expires_at = none;
  delegation_version = 4;
}

-- The chief delegates to the lead, and the lead to the dev, until time 10.
abbrev db : Database
db = record {
  grants = grant "g1" "ceo" "lead" none ∷ grant "g2" "lead" "dev" (some 10) ∷ [];
  workers = ("ceo", worker) ∷ ("lead", worker) ∷ ("dev", worker) ∷ [];
}

get_delegation_subtree_iff_example :
    (subtree : List String) × (get_delegation_subtree 5 db "ceo" ≡ some subtree)
    × ((x : String) → (elem x subtree ≡ true) ↔ Below db "ceo" x)
get_delegation_subtree_iff_example = get_delegation_subtree_iff 5 db "ceo" (omega arith)

check_delegation_cycle_iff_example :
    (answer : Bool) × (check_delegation_cycle 4 5 db "dev" "ceo" ≡ some answer)
    × ((answer ≡ true) ↔ Below db "ceo" "dev")
check_delegation_cycle_iff_example = check_delegation_cycle_iff 5 db 4 "dev" "ceo" (omega arith)

-- At time 20 a second grant to the dev is created, and the expired one hides it.
abbrev db_later : Database
db_later = record db {
  grants =
      grant "g1" "ceo" "lead" none
      ∷ grant "g2" "lead" "dev" (some 10)
      ∷ grant "g3" "lead" "dev" none
      ∷ [];
}

get-create_iff_example :
    (get_delegation_grant 20 db_later "dev" ≡ some (grant "g3" "lead" "dev" none))
    ↔ (fetchone (grants_to "dev") db.grants ≡ none)
unfolding create_delegation_grant insert_grant accepts get_delegation_grant if_active is_active
    is_past fetchone grants_to is_unrevoked lookup
get-create_iff_example =
    get-create_iff 20 (grant "g3" "lead" "dev" none) (grant "g3" "lead" "dev" none) db db_later refl
      refl

-- The ranks in `db`.
abbrev rank : String → ℕ
rank w = if w == "ceo" then 2 else if w == "lead" then 1 else 0

revoke_delegation_grant_ends_example :
    HasEnded rank (revoke_delegation_grant 3 5 "ceo" "board" none true db)
revoke_delegation_grant_ends_example =
    revoke_delegation_grant_ends rank 3 5 "ceo" "board" none true db
      (omega arith, (omega arith, tt)) (omega arith)

-- The lead passes a part of its authority on to a new worker.
abbrev lead : WorkerInfo
lead = record { id = "lead"; lifecycle_status = "active"; manager_id = some "ceo" }

abbrev trainee : WorkerInfo
trainee = record { id = "new"; lifecycle_status = "active"; manager_id = some "lead" }

abbrev own_row : WorkerRow
own_row = record worker { hiring_authority_scope = some "{*}"; delegated_budget = 500 }

abbrev scope_of : String → HiringScope
scope_of text = record { allowed_roles = "*" ∷ []; max_cost = 60; max_total_budget = 900 }

abbrev json_of : HiringScope → String
json_of scope = "{engineer}"

abbrev offer : Offer
offer = record {
  grant_id = "g3";
  budget = 100;
  scope = record { allowed_roles = "engineer" ∷ []; max_cost = 40; max_total_budget = 0 };
  granted_by_cli_user = none;
  expires_at = none;
}

abbrev with_trainee : Database
with_trainee = record db { workers = ("new", worker) ∷ db.workers }

-- Another process hires somebody else meanwhile.
abbrev hires : Database → Database
hires d = record d { workers = ("zed", worker) ∷ d.workers }

abbrev written : DelegationGrant
written = record (grant "g3" "lead" "new" none) { scope = "{engineer}"; granted_at = 5 }

-- the tables behind the call
abbrev granted_db : Database
granted_db = record {
  grants = grant "g1" "ceo" "lead" none ∷ grant "g2" "lead" "dev" (some 10) ∷ written ∷ [];
  workers =
      ("zed", worker)
      ∷ (
        "new",
        record {
          hiring_authority_scope = some "{engineer}";
          delegated_budget = 100;
          delegated_by = some "lead";
          delegation_expires_at = none;
          delegation_version = 5;
        },
      )
      ∷ db.workers;
}

granted_offer :
    delegate_authority json_of scope_of hires 4 5 lead trainee own_row offer with_trainee
    ≡ granted written granted_db
unfolding delegate_authority worker_error is_report check_delegation_cycle get_delegation_chain
    chain_from in_subtree get_delegation_subtree search_below visit add_new
    get_delegations_by_delegator granted_by sort_by insert_by is_unrevoked get_delegation_grant
    if_active is_active is_past fetchone grants_to scope_error all_roles can_hire_role from_json
    write_grant create_delegation_grant insert_grant accepts get_worker_delegation_version
    update_worker_delegation lookup insert offered new_grant
granted_offer = refl

delegate_authority-IsWithin_example :
    (trainee.manager_id ≡ some "lead")
    × (Below with_trainee "new" "lead" → ⊥)
    × IsWithin offer.scope (from_json scope_of (some "{*}"))
    × (100 ≤ 500)
delegate_authority-IsWithin_example =
    delegate_authority-IsWithin json_of scope_of hires 4 5 lead trainee own_row offer with_trainee
      written granted_db (omega arith) granted_offer

delegate_authority-version_example :
    get_worker_delegation_version (hires with_trainee) "new"
    ≡ get_worker_delegation_version with_trainee "new"
delegate_authority-version_example =
    delegate_authority-version json_of scope_of hires 4 5 lead trainee own_row offer written
      with_trainee granted_db granted_offer

-- At time 20 the dev has the scope of its newer grant.
abbrev with_scope : Database
with_scope = record db_later {
  workers = ("dev", record worker { hiring_authority_scope = some "{*}" }) ∷ [];
}

can_hire-due_example :
    (can_hire scope_of 20 "dev" "engineer" 30 0 5 (some 0) with_scope).0 ≡ (false, no_authority)
unfolding is_due is_unrevoked
can_hire-due_example =
    can_hire-due scope_of 20 "engineer" 30 0 5 (some 0) with_scope
      (grant "g2" "lead" "dev" (some 10)) (there (here refl)) refl
