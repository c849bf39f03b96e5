-- ===== src/Delegation/Lapse.antt =====
-- What an expired grant does to the hiring of its delegate.
use quinn_ai.Prelude.{
  ℕ, String, true, false, List, [], ◌∷◌, Option, none, some, filter, In, here, there, In-filter,
  Dict, lookup, lookup-insert, ◌≡◌, refl, sym, subst, inl, inr, arith, Option-cases, string_eq,
  eq_iff, eq_refl,
}
use quinn_ai.Delegation.Grants.{
  DelegationGrant, WorkerRow, Database, is_due, cleared, clear_worker, expire_one, expire_each,
  expire_delegations,
}
use quinn_ai.Delegation.Authority.{HiringScope, from_json}
use quinn_ai.Delegation.Hiring.{no_authority, stored_scope, judge, can_hire}

scope_in : String → Dict WorkerRow → Option String
scope_in id workers = elim (lookup id workers) [ none ↦ none | some w ↦ w.hiring_authority_scope ]

scope_in-row :
    (id : String) (workers : Dict WorkerRow) {w : WorkerRow}
    → lookup id workers ≡ some w
    → scope_in id workers ≡ w.hiring_authority_scope
unfolding scope_in
scope_in-row id workers h = rw (h, scope_in) refl

-- Clearing a worker takes its scope away, and gives none to another.
clear_worker-own :
    (id : String) (workers : Dict WorkerRow) → scope_in id (clear_worker id workers) ≡ none
unfolding clear_worker scope_in
clear_worker-own id workers = elim (Option-cases (lookup id workers)) [
  | inl nobody ↦ rw (nobody, clear_worker) (ground (arith, nobody))
  | inr (w, found) ↦
      rw (found, clear_worker) (ground (arith, lookup-insert id id (cleared w) workers, eq_refl id))
]

clear_worker-other :
    (id other : String) (workers : Dict WorkerRow)
    → scope_in id workers ≡ none
    → scope_in id (clear_worker other workers) ≡ none
unfolding clear_worker scope_in
clear_worker-other id other workers h = elim (Option-cases (lookup other workers)) [
  | inl nobody ↦ rw (nobody, clear_worker) h
  | inr (w, found) ↦
      rw (found, clear_worker)
        (ground (arith, h, lookup-insert other id (cleared w) workers, eq_iff other id))
]

expire_each-none :
    (now : ℕ) (gs : List DelegationGrant) (db : Database) (id : String)
    → scope_in id db.workers ≡ none
    → scope_in id (expire_each now gs db).workers ≡ none
unfolding expire_each expire_one
expire_each-none now [] db id h = h
expire_each-none now (g ∷ gs) db id h =
    expire_each-none now gs (expire_one now g db) id
      (clear_worker-other id g.delegate_id db.workers h)

expire_each-In :
    (now : ℕ) (gs : List DelegationGrant) (db : Database) {g : DelegationGrant}
    → In g gs
    → scope_in g.delegate_id (expire_each now gs db).workers ≡ none
unfolding expire_each expire_one
expire_each-In now [] db i = elim i [ ]
expire_each-In now (k ∷ gs) db {g} (here e) =
    subst (λ x. scope_in x.delegate_id (expire_each now gs (expire_one now k db)).workers ≡ none)
      (sym e)
      (expire_each-none now gs (expire_one now k db) k.delegate_id
        (clear_worker-own k.delegate_id db.workers))
expire_each-In now (k ∷ gs) db (there i) = expire_each-In now gs (expire_one now k db) i

judge-empty :
    (loads : String → HiringScope) (text : Option String) (role : String)
    (cost reports max_reports : ℕ) (cumulative : Option ℕ)
    → text ≡ none
    → judge (from_json loads text) role cost reports max_reports cumulative ≡ (false, no_authority)
unfolding judge from_json
judge-empty loads none role cost reports max_reports cumulative h = refl
judge-empty loads (some t) role cost reports max_reports cumulative h = ground arith

-- If any grant to a worker is due and not revoked, `can_hire` answers that the worker has no hiring
-- authority, whatever other grants it has, active ones included.
pub can_hire-due :
    (loads : String → HiringScope) (now : ℕ) (role : String) (cost reports max_reports : ℕ)
    (cumulative : Option ℕ) (db : Database) (g : DelegationGrant)
    → In g db.grants
    → is_due now g ≡ true
    → (can_hire loads now g.delegate_id role cost reports max_reports cumulative db).0
      ≡ (false, no_authority)
unfolding can_hire expire_delegations stored_scope scope_in
can_hire-due loads now role cost reports max_reports cumulative db g i due =
    judge-empty loads _ role cost reports max_reports cumulative (
      expire_each-In now (filter (is_due now) db.grants) db
        (In-filter (is_due now) db.grants i due))
