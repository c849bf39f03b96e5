-- ===== src/Escalation/Loader.antt =====
-- InMemoryOrgLoader and build_standard_topology of shared/org/topology.py. The loader's state is the
-- dictionary `_workers`.
use quinn_ai.Prelude.{
  ℕ, String, Bool, true, false, List, [], ◌∷◌, Option, none, some, map, filter, Dict, lookup,
  insert, values, ◌==◌, string_eq,
}
use quinn_ai.Escalation.Topology.{OrgTopology, WorkerSpec, create_simple_topology}

pub record OrgWorker : Type 0 where
  pub id : String
  pub name : String
  pub boss_id : Option String
  pub is_manager : Bool
  pub role_id : String
  pub team_id : Option String
  pub skills : Option (Dict ℕ)
  pub cost : ℕ

unfoldable pub add_worker : OrgWorker → Dict OrgWorker → Dict OrgWorker
add_worker w workers = insert w.id w workers

unfoldable pub add_workers : List OrgWorker → Dict OrgWorker → Dict OrgWorker
unfolding add_worker
add_workers [] workers = workers
add_workers (w ∷ ws) workers = add_workers ws (add_worker w workers)

unfoldable pub load_workers : Dict OrgWorker → List OrgWorker
load_workers workers = values workers

abbrev pub worker_spec : OrgWorker → WorkerSpec
worker_spec w = record { id = w.id; name = w.name; boss_id = w.boss_id }

unfoldable pub load_topology : Dict OrgWorker → OrgTopology
load_topology workers = create_simple_topology (map worker_spec (values workers))

unfoldable pub get_worker : String → Dict OrgWorker → Option OrgWorker
get_worker id workers = lookup id workers

-- `w.team_id == team_id`
unfoldable pub in_team : String → Option String → Bool
in_team team none = false
in_team team (some t) = t == team

unfoldable pub get_team_members : String → Dict OrgWorker → List OrgWorker
unfolding in_team
get_team_members team workers = filter (λ w. in_team team w.team_id) (values workers)

-- The organisation of build_standard_topology.
unfoldable pub standard_worker :
    String → String → Option String → Bool → String → Option String → OrgWorker
standard_worker id name boss_id is_manager role_id team_id = record {
  id = id;
  name = name;
  boss_id = boss_id;
  is_manager = is_manager;
  role_id = role_id;
  team_id = team_id;
  skills = none;
  cost = 50;
}

unfoldable pub standard_workers : List OrgWorker
unfolding standard_worker
standard_workers =
    standard_worker "ceo" "CEO" none true "executive" none
    ∷ standard_worker "eng-director" "Engineering Director" (some "ceo") true "director"
        (some "engineering")
    ∷ standard_worker "prod-director" "Product Director" (some "ceo") true "director"
        (some "product")
    ∷ standard_worker "eng-manager-1" "Engineering Manager" (some "eng-director") true "manager"
        (some "engineering")
    ∷ record (standard_worker "dev-1" "Developer 1" (some "eng-manager-1") false "developer"
        (some "engineering")) { skills = some (("coding", 80) ∷ ("reasoning", 70) ∷ []) }
    ∷ record (standard_worker "dev-2" "Developer 2" (some "eng-manager-1") false "developer"
        (some "engineering")) { skills = some (("coding", 75) ∷ ("reasoning", 65) ∷ []); cost = 45 }
    ∷ []

unfoldable pub build_standard_topology : OrgTopology
build_standard_topology = load_topology (add_workers standard_workers [])
