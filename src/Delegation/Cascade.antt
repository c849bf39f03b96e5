-- ===== src/Delegation/Cascade.antt =====
-- The recursion of `revoke_delegation_grant` of cli/core/queries/delegation.py ends.
use quinn_ai.Prelude.{
  ℕ, zero, suc, ◌<◌, String, Bool, true, false, List, [], ◌∷◌, Option, some, filter, All, All-map,
  All-mapped, All-filter, All-sort_by, subst, inl, inr, arith, Option-cases, string_eq, eq_iff,
}
use quinn_ai.Delegation.Grants.{
  DelegationGrant, Database, get_delegation_grant, get_delegations_by_delegator, granted_by,
  granted_time, set_revoked,
}
use quinn_ai.Delegation.Revoke.{
  RevokeResult, Revoked, revoked, value_error, still_running, and_then, revoke_each, revoke_own,
  revoke_below, extend, nothing_revoked, revoke_delegation_grant,
}

module _ (rank : String → ℕ) where
  -- Each grant goes from a higher worker to a lower one.
  abbrev Lowers : DelegationGrant → Type 0
  Lowers g = rank g.delegate_id < rank g.delegator_id

  abbrev pub IsRanked : Database → Type 0
  IsRanked db = All Lowers db.grants

  -- The call ended, and the grants still go downwards.
  abbrev pub HasEnded : Revoked → Type 0
  HasEnded (revoked r db) = IsRanked db
  HasEnded (value_error db) = IsRanked db
  HasEnded (still_running db) = ⊥

  set_revoked-ranked :
      (now : ℕ) (by : String) (reason : Option String) (id : String) (gs : List DelegationGrant)
      → All Lowers gs
      → All Lowers (set_revoked now by reason id gs)
  unfolding set_revoked
  set_revoked-ranked now by reason id gs all =
      All-mapped Lowers _ gs (All-map gs (λ g h. ground (arith, h)) all)

  revoke_own-HasEnded :
      (now : ℕ) (id by : String) (reason : Option String) (own : DelegationGrant) (r : Revoked)
      → HasEnded r
      → HasEnded (revoke_own now id by reason own r)
  unfolding revoke_own
  revoke_own-HasEnded now id by reason own (revoked acc db) h =
      set_revoked-ranked now by reason own.id db.grants h
  revoke_own-HasEnded now id by reason own (value_error db) h = h
  revoke_own-HasEnded now id by reason own (still_running db) h = h

  -- what a recursive call must do
  abbrev Ends : (String → Database → Revoked) → DelegationGrant → Type 0
  Ends call g = (db : Database) → IsRanked db → HasEnded (call g.delegate_id db)

  and_then-HasEnded :
      (rest : RevokeResult → Database → Revoked) (r : Revoked)
      → ((sub : RevokeResult) (db : Database) → IsRanked db → HasEnded (rest sub db))
      → HasEnded r
      → HasEnded (and_then rest r)
  and_then-HasEnded rest (revoked sub db) ends h = ends sub db h
  and_then-HasEnded rest (value_error db) ends h = h
  and_then-HasEnded rest (still_running db) ends h = h

  revoke_each-HasEnded :
      (call : String → Database → Revoked) (gs : List DelegationGrant) (acc : RevokeResult)
      (db : Database)
      → All (Ends call) gs
      → IsRanked db
      → HasEnded (revoke_each call gs acc db)
  unfolding revoke_each
  revoke_each-HasEnded call [] acc db ends h = h
  revoke_each-HasEnded call (g ∷ gs) acc db ends h =
      and_then-HasEnded (λ sub db'. revoke_each call gs (extend acc sub) db')
        (call g.delegate_id db)
        (λ sub db' h'. revoke_each-HasEnded call gs (extend acc sub) db' ends.1 h') (ends.0 db h)

  revoke_below-HasEnded :
      (cascade : Bool) (call : String → Database → Revoked) (gs : List DelegationGrant)
      (db : Database)
      → All (Ends call) gs
      → IsRanked db
      → HasEnded (revoke_below cascade call gs db)
  revoke_below-HasEnded true call gs db ends h =
      revoke_each-HasEnded call gs nothing_revoked db ends h
  revoke_below-HasEnded false call gs db ends h = h

  -- the grants that a worker gave lead below it
  gave-lower :
      (db : Database) (id : String)
      → IsRanked db
      → All (λ g. rank g.delegate_id < rank id) (get_delegations_by_delegator false db id)
  unfolding get_delegations_by_delegator granted_by
  gave-lower db id h =
      All-sort_by granted_time (λ g. rank g.delegate_id < rank id)
        (filter (granted_by false id) db.grants)
        (All-map (filter (granted_by false id) db.grants)
          (λ g (lower, own).
            subst (λ x. rank g.delegate_id < rank x)
              ((eq_iff g.delegator_id id).0 (ground (arith, own))) lower)
          (All-filter Lowers (granted_by false id) db.grants h))

  -- Where each grant goes from a worker of a higher rank to one of a lower, a revocation, cascading or
  -- not, returns or raises ValueError, and each grant still goes so: calls as deep as the rank of the
  -- delegate, and one more, are enough.
  pub revoke_delegation_grant_ends :
      (fuel now : ℕ) (id by : String) (reason : Option String) (cascade : Bool) (db : Database)
      → IsRanked db
      → rank id < fuel
      → HasEnded (revoke_delegation_grant fuel now id by reason cascade db)
  unfolding revoke_delegation_grant
  revoke_delegation_grant_ends zero now id by reason cascade db h enough =
      absurd (omega (arith, enough))
  revoke_delegation_grant_ends (suc fuel) now id by reason cascade db h enough =
      elim (Option-cases (get_delegation_grant now db id)) [
        | inl nobody ↦ rw (nobody, revoke_delegation_grant) h
        | inr (own, found) ↦
            rw (found, revoke_delegation_grant)
              (revoke_own-HasEnded now id by reason own _ (
                revoke_below-HasEnded cascade
                  (λ i d.
                    revoke_delegation_grant fuel now i by
                      (some "cascade: parent delegation revoked") true d)
                  (get_delegations_by_delegator false db id) db
                  (All-map (get_delegations_by_delegator false db id)
                    (λ g lower d h'.
                      revoke_delegation_grant_ends fuel now g.delegate_id by
                        (some "cascade: parent delegation revoked") true d h'
                        (omega (arith, lower, enough)))
                    (gave-lower db id h))
                  h))
      ]
