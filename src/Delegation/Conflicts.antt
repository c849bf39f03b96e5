-- ===== src/Delegation/Conflicts.antt =====
-- What stands in the way of a call: an expired grant that is still in the table, or a change by
-- another process.
use quinn_ai.Prelude.{
  ℕ, suc, String, Bool, true, false, List, [], ◌∷◌, ◌++◌, Option, none, some, lookup, lookup-insert,
  nat_beq, ◌≡◌, refl, sym, ap, ◌↔◌, inl, inr, arith, Bool-cases, Option-cases, string_eq, eq_refl,
  ◌∙◌,
}
use quinn_ai.Delegation.Grants.{
  DelegationGrant, WorkerRow, Database, done, get_delegation_grant, fetchone, grants_to, if_active,
  is_active, insert_grant, create_delegation_grant, accepts, update_worker_delegation,
  get_delegations_by_delegator,
}
use quinn_ai.Delegation.Revoke.{
  Revoked, value_error as revoke_error, revoke_each, revoke_own, revoke_delegation_grant,
  nothing_revoked, RevokeResult,
}

fetchone-new :
    (p : DelegationGrant → Bool) (gs : List DelegationGrant) (g : DelegationGrant)
    → p g ≡ true
    → fetchone p gs ≡ none
    → fetchone p (gs ++ g ∷ []) ≡ some g
unfolding fetchone
fetchone-new p [] g own h = rw own refl
fetchone-new p (k ∷ gs) g own h = elim (Bool-cases (p k)) [
  | inl passed ↦ ground (arith, h, passed)
  | inr dropped ↦ rw dropped (fetchone-new p gs g own (ground (arith, h, dropped)))
]

fetchone-old :
    (p : DelegationGrant → Bool) (gs : List DelegationGrant) (g old : DelegationGrant)
    → fetchone p gs ≡ some old
    → fetchone p (gs ++ g ∷ []) ≡ some old
unfolding fetchone
fetchone-old p [] g old h = ground arith
fetchone-old p (k ∷ gs) g old h = elim (Bool-cases (p k)) [
  | inl passed ↦ rw passed (ground (arith, h, passed))
  | inr dropped ↦ rw dropped (fetchone-old p gs g old (ground (arith, h, dropped)))
]

if_active-some :
    (now : ℕ) (g : DelegationGrant) → is_active now g ≡ true → if_active now (some g) ≡ some g
unfolding if_active
if_active-some now g h = rw (h, if_active) refl

-- What a successful `create_delegation_grant` has found and done.
created-row :
    (now : ℕ) (g g' : DelegationGrant) (db db' : Database)
    → create_delegation_grant now g db ≡ done g' db'
    → (get_delegation_grant now db g.delegate_id ≡ none) × (db'.grants ≡ db.grants ++ g ∷ [])
unfolding create_delegation_grant insert_grant
created-row now g g' db db' h = elim (Option-cases (get_delegation_grant now db g.delegate_id)) [
  | inr (old, found) ↦ ground (arith, h, found)
  | inl free ↦ elim (Bool-cases (accepts db g)) [
    | inl good ↦ ground (arith, h, free, good)
    | inr refused ↦ ground (arith, h, free, refused)
  ]
]

-- A grant that `create_delegation_grant` wrote, and that is not past already, is what
-- `get_delegation_grant` finds for its delegate exactly if the table held no unrevoked grant to that
-- delegate before. An expired one that is not marked as revoked hides it.
pub get-create_iff :
    (now : ℕ) (g g' : DelegationGrant) (db db' : Database)
    → is_active now g ≡ true
    → create_delegation_grant now g db ≡ done g' db'
    → (get_delegation_grant now db' g.delegate_id ≡ some g)
      ↔ (fetchone (grants_to g.delegate_id) db.grants ≡ none)
unfolding get_delegation_grant is_active grants_to
get-create_iff now g g' db db' active h =
    let p = grants_to g.delegate_id in
    let (free, rows) = created-row now g g' db db' h in
    let own : p g ≡ true = ground (arith, active, eq_refl g.delegate_id) in
    elim (Option-cases (fetchone p db.grants)) [
      | inl nobody ↦ (
        (λ _. nobody),
        λ _.
            ap (if_active now) (ap (fetchone p) rows ∙ fetchone-new p db.grants g own nobody)
            ∙ if_active-some now g active,
      )
      | inr (old, found) ↦
          let hidden : get_delegation_grant now db' g.delegate_id ≡ none =
            ap (if_active now) (ap (fetchone p) rows ∙ fetchone-old p db.grants g old found)
            ∙ sym (ap (if_active now) found)
            ∙ free in
          ((λ shown. ground (arith, hidden, shown)), λ nobody. ground (arith, found, nobody))
    ]

update-hit :
    (id : String) (scope : Option String) (budget : ℕ) (by : Option String) (expires : Option ℕ)
    (version : ℕ) (db : Database)
    → (update_worker_delegation id scope budget by expires version db).0 ≡ true
    → (w : WorkerRow) × (lookup id
          (update_worker_delegation id scope budget by expires version db).1.workers
        ≡ some w)
      × (w.delegation_version ≡ suc version)
unfolding update_worker_delegation
update-hit id scope budget by expires version db h = elim (Option-cases (lookup id db.workers)) [
  | inl nobody ↦ ground (arith, h, nobody)
  | inr (w, found) ↦ elim (Bool-cases (nat_beq w.delegation_version version)) [
    | inr stale ↦ ground (arith, h, found, stale)
    | inl current ↦
        let written : WorkerRow = record {
          hiring_authority_scope = scope;
          delegated_budget = budget;
          delegated_by = by;
          delegation_expires_at = expires;
          delegation_version = suc w.delegation_version;
        } in
        (
          written,
          rw (found, current, update_worker_delegation)
              (ground (arith, lookup-insert id id written db.workers, eq_refl id)),
          ground (arith, current),
        )
  ]
]

update-miss :
    (id : String) (scope : Option String) (budget : ℕ) (by : Option String) (expires : Option ℕ)
    (version : ℕ) (db : Database) (w : WorkerRow)
    → lookup id db.workers ≡ some w
    → w.delegation_version ≡ suc version
    → update_worker_delegation id scope budget by expires version db ≡ (false, db)
unfolding update_worker_delegation
update-miss id scope budget by expires version db w found later =
    let stale : nat_beq w.delegation_version version ≡ false = ground (arith, later) in
    rw (found, stale, update_worker_delegation) refl

-- An update of a worker's authority goes through only once for the version that it expects: a second
-- one with the same version changes nothing.
pub update_worker_delegation_once :
    (id : String) (version : ℕ) (db : Database) (scope scope' : Option String) (budget budget' : ℕ)
    (by by' : Option String) (expires expires' : Option ℕ)
    → (update_worker_delegation id scope budget by expires version db).0 ≡ true
    → update_worker_delegation id scope' budget' by' expires' version
        (update_worker_delegation id scope budget by expires version db).1
      ≡ (false, (update_worker_delegation id scope budget by expires version db).1)
update_worker_delegation_once id version db scope scope' budget budget' by by' expires expires' h =
    let (w, found, later) = update-hit id scope budget by expires version db h in
    update-miss id scope' budget' by' expires' version
      (update_worker_delegation id scope budget by expires version db).1 w found later

revoke_each-error :
    (call : String → Database → Revoked) (g : DelegationGrant) (gs : List DelegationGrant)
    (acc : RevokeResult) (db db' : Database)
    → call g.delegate_id db ≡ revoke_error db'
    → revoke_each call (g ∷ gs) acc db ≡ revoke_error db'
unfolding revoke_each
revoke_each-error call g gs acc db db' h = rw (h, revoke_each) refl

revoke-none :
    (fuel now : ℕ) (id by : String) (reason : Option String) (cascade : Bool) (db : Database)
    → get_delegation_grant now db id ≡ none
    → revoke_delegation_grant (suc fuel) now id by reason cascade db ≡ revoke_error db
unfolding revoke_delegation_grant
revoke-none fuel now id by reason cascade db h = rw (h, revoke_delegation_grant) refl

revoke-cascade :
    (fuel now : ℕ) (id by : String) (reason : Option String) (db : Database) (own : DelegationGrant)
    (gs : List DelegationGrant)
    → get_delegation_grant now db id ≡ some own
    → get_delegations_by_delegator false db id ≡ gs
    → revoke_delegation_grant (suc fuel) now id by reason true db
      ≡ revoke_own now id by reason own (
          revoke_each
            (λ i d.
              revoke_delegation_grant fuel now i by
                (some "cascade: parent delegation revoked")
                true
                d)
            gs
            nothing_revoked
            db)
unfolding revoke_delegation_grant
revoke-cascade fuel now id by reason db own gs h e = rw (h, e, revoke_delegation_grant) refl

-- A cascading revocation raises ValueError and revokes nothing, not even the delegate's own active
-- grant, if the first grant that the delegate gave, in the order of time, is unrevoked and its
-- receiver has no active grant: an expired grant below blocks the revocation above it.
pub revoke_delegation_grant-expired :
    (fuel now : ℕ) (id by : String) (reason : Option String) (db : Database)
    (own below : DelegationGrant) (others : List DelegationGrant)
    → get_delegation_grant now db id ≡ some own
    → get_delegations_by_delegator false db id ≡ below ∷ others
    → get_delegation_grant now db below.delegate_id ≡ none
    → revoke_delegation_grant (suc (suc fuel)) now id by reason true db ≡ revoke_error db
unfolding revoke_own
revoke_delegation_grant-expired fuel now id by reason db own below others has_own gave expired =
    let why : Option String = some "cascade: parent delegation revoked" in
    revoke-cascade (suc fuel) now id by reason db own (below ∷ others) has_own gave
    ∙ ap (revoke_own now id by reason own) (
        revoke_each-error (λ i d. revoke_delegation_grant (suc fuel) now i by why true d) below
          others nothing_revoked db db
          (revoke-none fuel now below.delegate_id by why true db expired))
