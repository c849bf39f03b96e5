-- ===== src/Delegation/Versions.antt =====
-- The optimistic lock of `delegate_authority` of cli/core/worker/delegation.py.
use quinn_ai.Prelude.{
  ℕ, String, Bool, true, false, Option, none, some, Dict, lookup, string_eq, ◌≡◌, refl, sym, ap,
  inl, inr, arith, Bool-cases, Option-cases, ◌∙◌, nat_beq,
}
use quinn_ai.Delegation.Grants.{
  DelegationGrant, new_grant, WorkerRow, Database, Outcome, done, value_error, integrity_error,
  create_delegation_grant, get_worker_delegation_version, update_worker_delegation,
  get_delegation_grant, insert_grant, accepts,
}
use quinn_ai.Delegation.Cycles.{check_delegation_cycle}
use quinn_ai.Delegation.Authority.{
  HiringScope, from_json, WorkerInfo, scope_error, granted, locked, created, write_grant, Offer,
  offered, delegate_authority,
}
use quinn_ai.Delegation.Bounds.{unless_cycle-granted, passed}

locked-granted :
    (g : DelegationGrant) (r : Bool × Database) {g' : DelegationGrant} {db' : Database}
    → locked g r ≡ granted g' db'
    → r.0 ≡ true
locked-granted g (true, db) h = refl
locked-granted g (false, db) h = cc

create-workers :
    (now : ℕ) (g g' : DelegationGrant) (db d : Database)
    → create_delegation_grant now g db ≡ done g' d
    → (g' ≡ g) × (d.workers ≡ db.workers)
unfolding create_delegation_grant insert_grant
create-workers now g g' db d h = elim (Option-cases (get_delegation_grant now db g.delegate_id)) [
  | inr (old, found) ↦ ground (arith, h, found)
  | inl free ↦ elim (Bool-cases (accepts db g)) [
    | inl good ↦ ground (arith, h, free, good)
    | inr bad ↦ ground (arith, h, free, bad)
  ]
]

update-version :
    (id : String) (scope : Option String) (budget : ℕ) (by : Option String) (expires : Option ℕ)
    (version : ℕ) (db : Database)
    → (update_worker_delegation id scope budget by expires version db).0 ≡ true
    → get_worker_delegation_version db id ≡ version
unfolding update_worker_delegation get_worker_delegation_version
update-version id scope budget by expires version db h =
    elim (Option-cases (lookup id db.workers)) [
      | inl nobody ↦ ground (arith, h, nobody)
      | inr (w, found) ↦ elim (Bool-cases (nat_beq w.delegation_version version)) [
        | inr stale ↦ ground (arith, h, found, stale)
        | inl current ↦ rw (found, get_worker_delegation_version) (ground (arith, current))
      ]
    ]

version_in : String → Dict WorkerRow → ℕ
version_in id workers = elim (lookup id workers) [ none ↦ 0 | some w ↦ w.delegation_version ]

created-granted :
    (now version : ℕ) (g : DelegationGrant) (db : Database) (o : Outcome DelegationGrant)
    {g' : DelegationGrant} {db' : Database}
    → create_delegation_grant now g db ≡ o
    → created version o ≡ granted g' db'
    → get_worker_delegation_version db g.delegate_id ≡ version
unfolding get_worker_delegation_version version_in
created-granted now version g db (value_error d) e h = cc
created-granted now version g db (integrity_error d) e h = cc
created-granted now version g db (done k d) e h =
    let (same, workers) = create-workers now g k db d e in
    let current =
      update-version k.delegate_id (some k.scope) k.budget_amount (some k.delegator_id) k.expires_at
        version d (locked-granted k _ h) in
    ap (version_in g.delegate_id) (sym workers)
    ∙ ap (λ x. version_in x.delegate_id d.workers) (sym same)
    ∙ current

-- If `delegate_authority` grants, no other process changed the version of the receiver's row between
-- the reading of the version and the writing of the grant.
pub delegate_authority-version :
    (to_json : HiringScope → String) (loads : String → HiringScope) (others : Database → Database)
    (fuel now : ℕ) (self report : WorkerInfo) (own : WorkerRow) (offer : Offer)
    (g' : DelegationGrant) (db db' : Database)
    → delegate_authority to_json loads others fuel now self report own offer db ≡ granted g' db'
    → get_worker_delegation_version (others db) report.id
      ≡ get_worker_delegation_version db report.id
unfolding write_grant offered new_grant
delegate_authority-version to_json loads others fuel now self report own offer g' db db' h =
    let (_, rest) = passed to_json loads others fuel now self report own offer db h in
    let (_, _, written) =
      unless_cycle-granted (check_delegation_cycle fuel now db self.id report.id)
        (scope_error (from_json loads own.hiring_authority_scope) own.delegated_budget offer.scope
          offer.budget)
        (write_grant others now (offered to_json now self report offer) db) db rest in
    created-granted now (get_worker_delegation_version db report.id)
      (offered to_json now self report offer) (others db) _ refl written
