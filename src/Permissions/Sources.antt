-- ===== src/Permissions/Sources.antt =====
-- check_channel_permission of cli/core/permissions/access_control.py as the largest of its sources.
use quinn_ai.Prelude.{
  ℕ, ◌≤◌, String, some, List, [], ◌∷◌, ◌==◌, string_eq, ltb, All, Bool-cases, ◌≡◌, ◌↔◌, inl, inr,
  arith,
}
use quinn_ai.Permissions.Tables.{
  WorkerEntry, Channel, TeamMember, AccessTables, select_one, get_permission_for_grantee,
}
use quinn_ai.Permissions.Access.{
  level_of, maximum, highest_grant, check_subscription_permission, check_team_membership_permission,
  check_primary_team_permission, check_direct_grant_permission, check_team_grant_permission,
  check_ceo_permission, check_global_permission, check_channel_permission,
  get_worker_team_memberships,
}

maximum_iff : (n : ℕ) (xs : List ℕ) → (maximum xs ≤ n) ↔ All (λ x. x ≤ n) xs
unfolding maximum
maximum_iff n [] = (λ _. tt, λ _. ground arith)
maximum_iff n (x ∷ xs) = (
  λ below. (ground (arith, below), (maximum_iff n xs).0 (ground (arith, below))),
  λ all. let rest : maximum xs ≤ n = (maximum_iff n xs).1 all.1 in ground (arith, rest, all.0),
)

-- what a team that the worker is a member of is granted on the resource
abbrev pub team_grant : AccessTables → String → TeamMember → ℕ
team_grant t resource_id m =
    level_of (get_permission_for_grantee t (some resource_id) "team" m.team_id)

highest_grant_iff :
    (t : AccessTables) (resource_id : String) (n : ℕ) (ms : List TeamMember) (highest : ℕ)
    → (highest_grant t resource_id ms highest ≤ n)
      ↔ ((highest ≤ n) × All (λ m. team_grant t resource_id m ≤ n) ms)
unfolding highest_grant
highest_grant_iff t resource_id n [] highest = (λ below. (below, tt), λ both. both.0)
highest_grant_iff t resource_id n (m ∷ ms) highest =
    let level = team_grant t resource_id m in
    elim (Bool-cases (ltb highest level)) [
      | inl e ↦
          let rest = highest_grant_iff t resource_id n ms level in
          rw e (
            λ below. (ground (arith, e, (rest.0 below).0), ((rest.0 below).0, (rest.0 below).1)),
            λ all. rest.1 (all.1.0, all.1.1),
          )
      | inr e ↦
          let rest = highest_grant_iff t resource_id n ms highest in
          rw e (
            λ below. ((rest.0 below).0, (ground (arith, e, (rest.0 below).0), (rest.0 below).1)),
            λ all. rest.1 (all.0, all.1.1),
          )
    ]

-- For a worker and a channel that exist, the level is at most `n` exactly if each source gives at
-- most `n`: the subscription, the membership in the channel's team, the worker's own team, the
-- grant to the worker, the role, the global grant, and the grants to each of the worker's teams.
pub check_channel_permission_iff :
    (t : AccessTables) (worker_id channel_id : String) (worker : WorkerEntry) (channel : Channel)
    (n : ℕ)
    → select_one (λ w. w.id == worker_id) t.workers ≡ some worker
    → select_one (λ c. c.id == channel_id) t.channels ≡ some channel
    → (check_channel_permission t worker_id channel_id ≤ n) ↔ (
        All
          (λ x. x ≤ n)
          (check_subscription_permission t worker_id channel
            ∷ check_team_membership_permission t worker_id channel
            ∷ check_primary_team_permission worker channel
            ∷ check_direct_grant_permission t worker_id channel.id
            ∷ check_ceo_permission worker
            ∷ check_global_permission t worker_id
            ∷ [])
        × All (λ m. team_grant t channel.id m ≤ n) (get_worker_team_memberships t worker_id))
unfolding check_channel_permission check_team_grant_permission
check_channel_permission_iff t worker_id channel_id worker channel n known there =
    let teams = highest_grant_iff t channel.id n (get_worker_team_memberships t worker_id) 0 in
    let all = maximum_iff n (
      check_subscription_permission t worker_id channel
      ∷ check_team_membership_permission t worker_id channel
      ∷ check_primary_team_permission worker channel
      ∷ check_direct_grant_permission t worker_id channel.id
      ∷ check_team_grant_permission t worker_id channel.id
      ∷ check_ceo_permission worker
      ∷ check_global_permission t worker_id
      ∷ []) in
    rw (check_channel_permission, known, there)
      (
        λ below.
            let (a, (b, (c, (d, (e, rest))))) = all.0 below in
            ((a, (b, (c, (d, rest)))), (teams.0 e).1),
        λ each.
            let (a, (b, (c, (d, rest)))) = each.0 in
            all.1 (a, (b, (c, (d, (teams.1 (ground arith, each.1), rest))))),
      )
