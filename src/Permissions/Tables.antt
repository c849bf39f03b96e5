-- ===== src/Permissions/Tables.antt =====
-- The rows that access control reads (cli/core/db/schema.py), and grant_permission and
-- get_permission_for_grantee of cli/core/queries/permission.py.
use quinn_ai.Prelude.{
  ℕ, String, Bool, true, false, not, Option, none, some, List, [], ◌∷◌, ◌++◌, filter, ◌==◌,
  string_eq, ◌&&◌, ◌||◌, if◌then◌else◌, leb,
}

pub record WorkerEntry : Type 0 where
  pub id : String
  pub role : String
  pub team_id : String

pub record Channel : Type 0 where
  pub id : String
  pub team_id : Option String

pub record Subscription : Type 0 where
  pub channel_id : String
  pub worker_id : String

pub record TeamMember : Type 0 where
  pub team_id : String
  pub worker_id : String
  pub role : String

pub record Permission : Type 0 where
  pub id : String
  pub bead_id : Option String
  pub grantee_type : String
  pub grantee_id : String
  pub level : ℕ

pub record EffectivePermission : Type 0 where
  pub worker_id : String
  pub bead_id : String
  pub level : ℕ

pub record AccessTables : Type 0 where
  pub workers : List WorkerEntry
  pub channels : List Channel
  pub subscriptions : List Subscription
  pub team_members : List TeamMember
  pub permissions : List Permission
  pub effective_permissions : List EffectivePermission

-- `fetchone`: the first row that the query matches, in the order of insertion
unfoldable pub select_one {ℓ} : {A : Type ℓ} → (A → Bool) → List A → Option A
select_one p [] = none
select_one p (x ∷ xs) = let rest = select_one p xs in if p x then some x else rest

-- SQL's `column = ?`, which a NULL on either side does not meet
abbrev pub sql_equal : Option String → Option String → Bool
sql_equal none _ = false
sql_equal (some _) none = false
sql_equal (some a) (some b) = a == b

abbrev pub is_null : Option String → Bool
is_null none = true
is_null (some _) = false

-- `grantee_type = ? AND grantee_id = ?`
abbrev pub is_grant_to : String → String → Permission → Bool
is_grant_to grantee_type grantee_id p =
    (p.grantee_type == grantee_type) && (p.grantee_id == grantee_id)

-- the tests of the two queries of `get_permission_for_grantee`
abbrev pub is_grant_for : Option String → String → String → Permission → Bool
is_grant_for none grantee_type grantee_id p =
    is_null p.bead_id && is_grant_to grantee_type grantee_id p
is_grant_for (some bead_id) grantee_type grantee_id p =
    sql_equal p.bead_id (some bead_id) && is_grant_to grantee_type grantee_id p

unfoldable pub get_permission_for_grantee :
    AccessTables → Option String → String → String → Option Permission
unfolding select_one
get_permission_for_grantee t bead_id grantee_type grantee_id =
    select_one (is_grant_for bead_id grantee_type grantee_id) t.permissions

-- the two CHECK constraints
abbrev pub accepts_permission : Permission → Bool
accepts_permission p = ((p.grantee_type == "worker") || (p.grantee_type == "team")) && leb p.level 5

-- PRIMARY KEY, and UNIQUE(bead_id, grantee_type, grantee_id), in which a NULL equals no NULL
abbrev pub conflicts : Permission → Permission → Bool
conflicts new p =
    (p.id == new.id)
    || (sql_equal p.bead_id new.bead_id && is_grant_to new.grantee_type new.grantee_id p)

-- INSERT OR REPLACE: the rows that the new one conflicts with are deleted.
unfoldable pub insert_or_replace : Permission → AccessTables → AccessTables
insert_or_replace new t = record t {
  permissions = filter (λ p. not (conflicts new p)) t.permissions ++ new ∷ [];
}

-- `none` is an IntegrityError
unfoldable pub grant_permission : Permission → AccessTables → Option AccessTables
unfolding insert_or_replace
grant_permission new t = if accepts_permission new then some (insert_or_replace new t) else none
