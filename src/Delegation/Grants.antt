-- ===== src/Delegation/Grants.antt =====
-- The tables delegation_grants and workers, and the queries of cli/core/queries/delegation.py on
-- them. Rows are read in the order in which they were inserted; one reading of the clock, in
-- seconds, serves a whole call. A budget is a natural number. The columns updated_at and metadata,
-- and the audit table that triggers fill, are left out.
use quinn_ai.Prelude.{
  ℕ, suc, String, Bool, true, false, not, ◌&&◌, List, [], ◌∷◌, ◌++◌, Option, none, some, map,
  filter, Dict, lookup, insert, sort_by, ltb, leb, nat_beq, any, ◌==◌, string_eq, if◌then◌else◌,
}

pub record DelegationGrant : Type 0 where
  pub id : String
  pub delegator_id : String
  pub delegate_id : String
  pub scope : String
  pub budget_amount : ℕ
  pub granted_at : ℕ
  pub expires_at : Option ℕ
  pub revoked_at : Option ℕ
  pub revoked_by : Option String
  pub revoke_reason : Option String
  pub granted_by_cli_user : Option String

-- `revoked_at IS NULL`
unfoldable pub is_unrevoked : DelegationGrant → Bool
is_unrevoked g = elim g.revoked_at [ none ↦ true | some _ ↦ false ]

-- `expires_at is not None and expires_at < now`
unfoldable pub is_past : ℕ → Option ℕ → Bool
is_past now none = false
is_past now (some t) = ltb t now

unfoldable pub is_active : ℕ → DelegationGrant → Bool
unfolding is_unrevoked is_past
is_active now g = if is_unrevoked g then not (is_past now g.expires_at) else false

-- the columns of a row of `workers` that delegation writes
pub record WorkerRow : Type 0 where
  pub hiring_authority_scope : Option String
  pub delegated_budget : ℕ
  pub delegated_by : Option String
  pub delegation_expires_at : Option ℕ
  pub delegation_version : ℕ

pub record Database : Type 0 where
  pub grants : List DelegationGrant
  pub workers : Dict WorkerRow

-- `fetchone`: the first row that passes a test
unfoldable pub fetchone : (DelegationGrant → Bool) → List DelegationGrant → Option DelegationGrant
fetchone p [] = none
fetchone p (g ∷ gs) = let rest = fetchone p gs in if p g then some g else rest

-- `delegate_id = ? AND revoked_at IS NULL`
unfoldable pub grants_to : String → DelegationGrant → Bool
grants_to delegate_id g = if g.delegate_id == delegate_id then is_unrevoked g else false

-- a grant, unless it is expired
unfoldable pub if_active : ℕ → Option DelegationGrant → Option DelegationGrant
if_active now none = none
if_active now (some g) = if is_active now g then some g else none

unfoldable pub get_delegation_grant : ℕ → Database → String → Option DelegationGrant
get_delegation_grant now db delegate_id = if_active now (fetchone (grants_to delegate_id) db.grants)

unfoldable pub get_delegation_grant_by_id : Database → String → Option DelegationGrant
get_delegation_grant_by_id db grant_id = fetchone (λ g. g.id == grant_id) db.grants

-- `delegator_id = ?`, and `revoked_at IS NULL` unless the revoked ones are asked for
unfoldable pub granted_by : Bool → String → DelegationGrant → Bool
granted_by include_revoked delegator_id g =
    if g.delegator_id == delegator_id
    then (if include_revoked then true else is_unrevoked g)
    else false

abbrev pub granted_time : DelegationGrant → ℕ
granted_time g = g.granted_at

unfoldable pub get_delegations_by_delegator : Bool → Database → String → List DelegationGrant
get_delegations_by_delegator include_revoked db delegator_id =
    sort_by granted_time (filter (granted_by include_revoked delegator_id) db.grants)

-- What a call that changes the tables comes to.
pub data Outcome (A : Type 0) : Type 0 where
  done : A → Database → Outcome A
  value_error integrity_error : Database → Outcome A

abbrev pub has_worker : Database → String → Bool
has_worker db id = elim (lookup id db.workers) [ none ↦ false | some _ ↦ true ]

-- the constraints of the table: the primary key, the foreign keys, and the check
unfoldable pub accepts : Database → DelegationGrant → Bool
accepts db g =
    not (any (λ h. h.id == g.id) db.grants)
    && has_worker db g.delegator_id
    && has_worker db g.delegate_id
    && not (g.delegator_id == g.delegate_id)

unfoldable pub new_grant :
    ℕ → String → String → String → String → ℕ → Option String → Option ℕ → DelegationGrant
new_grant now grant_id delegator_id delegate_id scope budget granted_by_cli_user expires_at =
    record {
      id = grant_id;
      delegator_id = delegator_id;
      delegate_id = delegate_id;
      scope = scope;
      budget_amount = budget;
      granted_at = now;
      expires_at = expires_at;
      revoked_at = none;
      revoked_by = none;
      revoke_reason = none;
      granted_by_cli_user = granted_by_cli_user;
    }

unfoldable pub insert_grant : DelegationGrant → Database → Outcome DelegationGrant
unfolding accepts
insert_grant g db =
    if accepts db g then done g (record db { grants = db.grants ++ g ∷ [] }) else integrity_error db

-- `create_delegation_grant` of the grant that the arguments describe
unfoldable pub create_delegation_grant : ℕ → DelegationGrant → Database → Outcome DelegationGrant
create_delegation_grant now g db = elim (get_delegation_grant now db g.delegate_id) [
  | some _ ↦ value_error db
  | none ↦ insert_grant g db
]

-- `UPDATE delegation_grants SET revoked_at, revoked_by, revoke_reason WHERE id = ?`
unfoldable pub set_revoked :
    ℕ → String → Option String → String → List DelegationGrant → List DelegationGrant
set_revoked now by reason id gs =
    map
      (λ g.
        if g.id == id
        then record g { revoked_at = some now; revoked_by = some by; revoke_reason = reason }
        else g)
      gs

-- `UPDATE workers SET ...` that takes the delegated authority away
abbrev pub cleared : WorkerRow → WorkerRow
cleared w = record {
  hiring_authority_scope = none;
  delegated_budget = 0;
  delegated_by = none;
  delegation_expires_at = none;
  delegation_version = suc w.delegation_version;
}

unfoldable pub clear_worker : String → Dict WorkerRow → Dict WorkerRow
clear_worker id workers = elim (lookup id workers) [
  | none ↦ workers
  | some w ↦ insert id (cleared w) workers
]

-- `expires_at IS NOT NULL AND expires_at <= ? AND revoked_at IS NULL`
unfoldable pub is_due : ℕ → DelegationGrant → Bool
is_due now g = elim g.expires_at [
  | none ↦ false
  | some t ↦ if leb t now then is_unrevoked g else false
]

unfoldable pub expire_one : ℕ → DelegationGrant → Database → Database
unfolding set_revoked clear_worker
expire_one now g db = record {
  grants = set_revoked now "system" (some "expired") g.id db.grants;
  workers = clear_worker g.delegate_id db.workers;
}

unfoldable pub expire_each : ℕ → List DelegationGrant → Database → Database
expire_each now [] db = db
expire_each now (g ∷ gs) db = expire_each now gs (expire_one now g db)

unfoldable pub expire_delegations : ℕ → Database → List String × Database
expire_delegations now db =
    let rows = filter (is_due now) db.grants in (map (λ g. g.id) rows, expire_each now rows db)

unfoldable pub get_worker_delegation_version : Database → String → ℕ
get_worker_delegation_version db worker_id = elim (lookup worker_id db.workers) [
  | none ↦ 0
  | some w ↦ w.delegation_version
]

-- The update with its test of the version: `true` if a row was written.
unfoldable pub update_worker_delegation :
    String → Option String → ℕ → Option String → Option ℕ → ℕ → Database → Bool × Database
update_worker_delegation worker_id scope budget delegated_by expires_at expected_version db =
    elim (lookup worker_id db.workers) [
      | none ↦ (false, db)
      | some w ↦
          if nat_beq w.delegation_version expected_version
          then (
            true,
            record db {
              workers =
                  insert worker_id
                    (record {
                      hiring_authority_scope = scope;
                      delegated_budget = budget;
                      delegated_by = delegated_by;
                      delegation_expires_at = expires_at;
                      delegation_version = suc w.delegation_version;
                    })
                    db.workers;
            },
          )
          else (false, db)
    ]
