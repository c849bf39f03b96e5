-- ===== src/Delegation/Revoke.antt =====
-- `revoke_delegation_grant` of cli/core/queries/delegation.py. Its recursion runs on fuel.
use quinn_ai.Prelude.{
  ℕ, zero, suc, ◌+◌, String, Bool, true, false, List, [], ◌∷◌, ◌++◌, Option, none, some,
}
use quinn_ai.Delegation.Grants.{
  DelegationGrant, Database, get_delegation_grant, get_delegations_by_delegator, set_revoked,
  clear_worker,
}

pub record RevokeResult : Type 0 where
  pub revoked_grant_ids : List String
  pub cascade_count : ℕ
  pub affected_workers : List String

-- How a call ends: it returns, it raises ValueError, or it is still running. The changes of the
-- tables up to there are committed.
pub data Revoked : Type 0 where
  revoked : RevokeResult → Database → Revoked
  value_error still_running : Database → Revoked

unfoldable pub extend : RevokeResult → RevokeResult → RevokeResult
extend acc sub = record {
  revoked_grant_ids = acc.revoked_grant_ids ++ sub.revoked_grant_ids;
  cascade_count = acc.cascade_count + (1 + sub.cascade_count);
  affected_workers = acc.affected_workers ++ sub.affected_workers;
}

-- what follows a recursive call, if it returns
abbrev pub and_then : (RevokeResult → Database → Revoked) → Revoked → Revoked
and_then rest (revoked sub db) = rest sub db
and_then rest (value_error db) = value_error db
and_then rest (still_running db) = still_running db

-- the loop over the grants that the delegate gave, with the recursive call
unfoldable pub revoke_each :
    (String → Database → Revoked) → List DelegationGrant → RevokeResult → Database → Revoked
unfolding extend
revoke_each call [] acc db = revoked acc db
revoke_each call (g ∷ gs) acc db =
    and_then (λ sub db'. revoke_each call gs (extend acc sub) db') (call g.delegate_id db)

-- the grant itself, behind the loop
unfoldable pub revoke_own :
    ℕ → String → String → Option String → DelegationGrant → Revoked → Revoked
revoke_own now delegate_id by reason grant (revoked acc db) =
    revoked
      (record {
        revoked_grant_ids = acc.revoked_grant_ids ++ grant.id ∷ [];
        cascade_count = acc.cascade_count;
        affected_workers = acc.affected_workers ++ delegate_id ∷ [];
      })
      (record {
        grants = set_revoked now by reason grant.id db.grants;
        workers = clear_worker delegate_id db.workers;
      })
revoke_own now delegate_id by reason grant (value_error db) = value_error db
revoke_own now delegate_id by reason grant (still_running db) = still_running db

abbrev pub nothing_revoked : RevokeResult
nothing_revoked = record { revoked_grant_ids = []; cascade_count = 0; affected_workers = [] }

-- `if cascade:` with the loop
abbrev pub revoke_below :
    Bool → (String → Database → Revoked) → List DelegationGrant → Database → Revoked
revoke_below true call gs db = revoke_each call gs nothing_revoked db
revoke_below false call gs db = revoked nothing_revoked db

unfoldable pub revoke_delegation_grant :
    ℕ → ℕ → String → String → Option String → Bool → Database → Revoked
revoke_delegation_grant zero now delegate_id by reason cascade db = still_running db
revoke_delegation_grant (suc fuel) now delegate_id by reason cascade db =
    elim (get_delegation_grant now db delegate_id) [
      | none ↦ value_error db
      | some grant ↦ revoke_own now delegate_id by reason grant (
          revoke_below cascade
            (λ id d.
              revoke_delegation_grant fuel now id by (some "cascade: parent delegation revoked")
                true d)
            (get_delegations_by_delegator false db delegate_id) db)
    ]
