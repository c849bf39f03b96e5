-- ===== src/Permissions/Access.antt =====
-- cli/core/permissions/access_control.py: the levels of a worker on a channel and on a bead.
use quinn_ai.Prelude.{
  ℕ, String, Bool, Option, none, some, List, [], ◌∷◌, filter, ◌==◌, string_eq, ◌&&◌, if◌then◌else◌,
  leb, ltb,
}
use quinn_ai.Permissions.Tables.{
  WorkerEntry, Channel, TeamMember, Permission, EffectivePermission, AccessTables, select_one,
  get_permission_for_grantee,
}

-- the level of a row, if there is one
abbrev pub level_of : Option Permission → ℕ
level_of none = 0
level_of (some p) = p.level

abbrev pub role_level : String → ℕ
role_level role = if role == "admin" then 5 else if role == "lead" then 4 else 3

abbrev pub member_level : Option TeamMember → ℕ
member_level none = 0
member_level (some m) = role_level m.role

unfoldable pub check_subscription_permission : AccessTables → String → Channel → ℕ
unfolding select_one
check_subscription_permission t worker_id channel =
    elim (select_one (λ s. (s.channel_id == channel.id) && (s.worker_id == worker_id))
      t.subscriptions) [ none ↦ 0 | some _ ↦ 2 ]

-- An empty text, too, is no team.
abbrev pub has_team : Option String → Option String
has_team none = none
has_team (some team_id) = if team_id == "" then none else some team_id

unfoldable pub check_team_membership_permission : AccessTables → String → Channel → ℕ
unfolding select_one
check_team_membership_permission t worker_id channel = elim (has_team channel.team_id) [
  | none ↦ 0
  | some team_id ↦
      member_level
        (select_one (λ m. (m.team_id == team_id) && (m.worker_id == worker_id)) t.team_members)
]

abbrev pub check_primary_team_permission : WorkerEntry → Channel → ℕ
check_primary_team_permission worker channel = elim (has_team channel.team_id) [
  | none ↦ 0
  | some team_id ↦ if worker.team_id == team_id then 3 else 0
]

unfoldable pub check_direct_grant_permission : AccessTables → String → String → ℕ
unfolding get_permission_for_grantee
check_direct_grant_permission t worker_id resource_id =
    level_of (get_permission_for_grantee t (some resource_id) "worker" worker_id)

-- the loop over the teams of a worker
unfoldable pub highest_grant : AccessTables → String → List TeamMember → ℕ → ℕ
unfolding get_permission_for_grantee
highest_grant t resource_id [] highest = highest
highest_grant t resource_id (m ∷ ms) highest =
    let level = level_of (get_permission_for_grantee t (some resource_id) "team" m.team_id) in
    highest_grant t resource_id ms (if ltb highest level then level else highest)

abbrev pub get_worker_team_memberships : AccessTables → String → List TeamMember
get_worker_team_memberships t worker_id = filter (λ m. m.worker_id == worker_id) t.team_members

unfoldable pub check_team_grant_permission : AccessTables → String → String → ℕ
unfolding highest_grant
check_team_grant_permission t worker_id resource_id =
    highest_grant t resource_id (get_worker_team_memberships t worker_id) 0

abbrev pub check_ceo_permission : WorkerEntry → ℕ
check_ceo_permission worker = if worker.role == "ceo" then 5 else 0

unfoldable pub check_global_permission : AccessTables → String → ℕ
unfolding get_permission_for_grantee
check_global_permission t worker_id =
    level_of (get_permission_for_grantee t none "worker" worker_id)

-- Python's `max`, of numbers and 0
unfoldable pub maximum : List ℕ → ℕ
maximum [] = 0
maximum (x ∷ xs) = let rest = maximum xs in if ltb rest x then x else rest

unfoldable pub check_channel_permission : AccessTables → String → String → ℕ
unfolding select_one check_subscription_permission check_team_membership_permission
    check_direct_grant_permission check_team_grant_permission check_global_permission maximum
check_channel_permission t worker_id channel_id =
    elim (select_one (λ w. w.id == worker_id) t.workers) [
      | none ↦ 0
      | some worker ↦ elim (select_one (λ c. c.id == channel_id) t.channels) [
        | none ↦ 0
        | some channel ↦ maximum (
            check_subscription_permission t worker_id channel
            ∷ check_team_membership_permission t worker_id channel
            ∷ check_primary_team_permission worker channel
            ∷ check_direct_grant_permission t worker_id channel.id
            ∷ check_team_grant_permission t worker_id channel.id
            ∷ check_ceo_permission worker
            ∷ check_global_permission t worker_id
            ∷ [])
      ]
    ]

abbrev pub cached_level : Option EffectivePermission → ℕ
cached_level none = 0
cached_level (some e) = e.level

-- A source without a row adds nothing to the list, which `max` sees as it would see a 0.
unfoldable pub check_bead_permission : AccessTables → String → String → ℕ
unfolding select_one check_direct_grant_permission check_team_grant_permission
    check_global_permission maximum
check_bead_permission t worker_id bead_id = elim (select_one (λ w. w.id == worker_id) t.workers) [
  | none ↦ 0
  | some worker ↦ maximum (
      cached_level (
        select_one (λ e. (e.worker_id == worker_id) && (e.bead_id == bead_id))
          t.effective_permissions)
      ∷ check_direct_grant_permission t worker_id bead_id
      ∷ check_team_grant_permission t worker_id bead_id
      ∷ check_ceo_permission worker
      ∷ check_global_permission t worker_id
      ∷ [])
]

abbrev pub can_worker_access_channel : AccessTables → String → String → ℕ → Bool
unfolding check_channel_permission
can_worker_access_channel t worker_id channel_id level =
    leb level (check_channel_permission t worker_id channel_id)

abbrev pub can_worker_access_bead : AccessTables → String → String → ℕ → Bool
unfolding check_bead_permission
can_worker_access_bead t worker_id bead_id level =
    leb level (check_bead_permission t worker_id bead_id)
