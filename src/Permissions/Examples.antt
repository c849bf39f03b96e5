-- ===== src/Permissions/Examples.antt =====
-- The theorems about permissions at concrete tables.
use quinn_ai.Prelude.{◌≤◌, String, none, some, [], ◌∷◌, ◌==◌, string_eq, All, ◌≡◌, ◌↔◌, refl}
use quinn_ai.Permissions.Tables.{
  WorkerEntry, Channel, Permission, AccessTables, select_one, get_permission_for_grantee,
  grant_permission, insert_or_replace,
}
use quinn_ai.Permissions.Access.{
  check_channel_permission, check_subscription_permission, check_team_membership_permission,
  check_primary_team_permission, check_direct_grant_permission, check_ceo_permission,
  check_global_permission, check_bead_permission, get_worker_team_memberships,
}
use quinn_ai.Permissions.Grants.{
  check_global_permission-grant_permission, check_bead_permission-grant_permission,
}
use quinn_ai.Permissions.Sources.{team_grant, check_channel_permission_iff}

abbrev ann : WorkerEntry
ann = record { id = "ann"; role = "manager"; team_id = "press" }

abbrev news : Channel
news = record { id = "news"; team_id = some "press" }

-- ann has every right everywhere
abbrev all_rights : Permission
all_rights = record {
  id = "p1";
  bead_id = none;
  grantee_type = "worker";
  grantee_id = "ann";
  level = 5;
}

abbrev tables : AccessTables
tables = record {
  workers = ann ∷ [];
  channels = news ∷ [];
  subscriptions = record { channel_id = "news"; worker_id = "ann" } ∷ [];
  team_members = record { team_id = "press"; worker_id = "ann"; role = "lead" } ∷ [];
  permissions = all_rights ∷ [];
  effective_permissions = [];
}

-- a grant that is meant to take them away
abbrev no_rights : Permission
no_rights = record {
  id = "p2";
  bead_id = none;
  grantee_type = "worker";
  grantee_id = "ann";
  level = 0;
}

abbrev bead_grant : Permission
bead_grant = record {
  id = "p3";
  bead_id = some "bd-1";
  grantee_type = "worker";
  grantee_id = "ann";
  level = 3;
}

lead : check_team_membership_permission tables "ann" news ≡ 4
unfolding check_team_membership_permission select_one
lead = refl

check_global_permission-grant_permission_example :
    (check_global_permission (insert_or_replace no_rights tables) "ann" ≡ 5)
    × (check_global_permission tables "ann" ≡ 5)
unfolding grant_permission get_permission_for_grantee select_one
check_global_permission-grant_permission_example =
    check_global_permission-grant_permission no_rights all_rights tables
      (insert_or_replace no_rights tables) "ann" refl (refl, tt) refl refl

check_bead_permission-grant_permission_example :
    (get_permission_for_grantee (insert_or_replace bead_grant tables) (some "bd-1") "worker" "ann"
      ≡ some bead_grant)
    × (◌≡◌ {A = String} "worker" "worker"
        → select_one (λ (w : WorkerEntry). w.id == "ann") tables.workers ≡ some ann
        → 3 ≤ check_bead_permission (insert_or_replace bead_grant tables) "ann" "bd-1")
unfolding grant_permission
check_bead_permission-grant_permission_example =
    check_bead_permission-grant_permission bead_grant tables (insert_or_replace bead_grant tables)
      "bd-1" ann refl refl

check_channel_permission_iff_example : (check_channel_permission tables "ann" "news" ≤ 5) ↔ (
    All
      (λ x. x ≤ 5)
      (check_subscription_permission tables "ann" news
        ∷ check_team_membership_permission tables "ann" news
        ∷ check_primary_team_permission ann news
        ∷ check_direct_grant_permission tables "ann" "news"
        ∷ check_ceo_permission ann
        ∷ check_global_permission tables "ann"
        ∷ [])
    × All (λ m. team_grant tables "news" m ≤ 5) (get_worker_team_memberships tables "ann"))
unfolding select_one
check_channel_permission_iff_example =
    check_channel_permission_iff tables "ann" "news" ann news 5 refl refl
