-- ===== src/Lifecycle/Config.antt =====
-- cli/core/lifecycle.py: where the configuration of a bead type is read from, and how it is saved.
use quinn_ai.Prelude.{
  ℕ, String, Bool, true, false, Option, none, some, List, [], ◌∷◌, Dict, lookup, insert, ◌==◌,
  string_eq, nat_eq, if◌then◌else◌, ◌&&◌,
}

-- The keys that the code reads of a parsed configuration. `others` counts the other keys, which
-- matter only in so far as a dict with one is not empty.
pub record LifecycleDict : Type 0 where
  pub states : Option (List String)
  pub terminal_states : Option (List String)
  pub initial_state : Option String
  pub transitions : Option (Dict (List String))
  pub others : ℕ

-- what `_get_lifecycle_for_type` returns
pub record Lifecycle : Type 0 where
  pub states : List String
  pub terminal : List String
  pub initial : String
  pub transitions : Dict (List String)

pub data Failure : Type 0 where
  index_error file_not_found : Failure
  invalid_state : (state : String) → Failure
  invalid_transition : (allowed : List String) → Failure
  cannot_close : (terminal : List String) → Failure
  bead_blocked : (blocking : List String) → Failure

pub data Validated (A : Type 0) : Type 0 where
  valid : A → Validated A
  raised : Failure → Validated A

-- The module's globals, the databases by their path as tables of JSON texts, and what is read of
-- the YAML file: `none` where it is missing or cannot be read.
pub record LifecycleStore : Type 0 where
  pub databases : Dict (Dict String)
  pub yaml : Option (Dict LifecycleDict)
  pub config_cache : Option (Dict LifecycleDict)
  pub db_path : Option String

abbrev pub value_or {ℓ} : {A : Type ℓ} → A → Option A → A
value_or a none = a
value_or _ (some b) = b

abbrev pub is_missing {ℓ} : {A : Type ℓ} → Option A → Bool
is_missing none = true
is_missing (some _) = false

-- `if db_config`: a dict without a key is as good as none
abbrev pub lacks_keys : LifecycleDict → Bool
lacks_keys c =
    is_missing c.states
    && is_missing c.terminal_states
    && is_missing c.initial_state
    && is_missing c.transitions
    && (c.others == 0)

abbrev pub unless_empty : Option LifecycleDict → Option LifecycleDict
unless_empty none = none
unless_empty (some c) = if lacks_keys c then none else some c

-- `cfg.get("states", ["open"])[0]`
abbrev pub first_state : Option (List String) → Option String
first_state none = some "open"
first_state (some []) = none
first_state (some (x ∷ _)) = some x

-- The default of `initial_state` is computed whether or not the key is there.
unfoldable pub resolve : LifecycleDict → Validated Lifecycle
resolve c = elim (first_state c.states) [
  | none ↦ raised index_error
  | some first ↦ valid (record {
    states = value_or [] c.states;
    terminal = value_or [] c.terminal_states;
    initial = value_or first c.initial_state;
    transitions = value_or [] c.transitions;
  })
]

-- a dict of the sources in turn, else what follows
abbrev pub try_source : Option LifecycleDict → Validated Lifecycle → Validated Lifecycle
try_source none next = next
try_source (some c) _ = resolve c

-- LIFECYCLE_STATES and LIFECYCLE_INITIAL_STATES of cli/core/constants/beads.py
abbrev pub task_lifecycle : Lifecycle
task_lifecycle = record {
  states = "investigation" ∷ "planning" ∷ "implementation" ∷ "review" ∷ "done" ∷ [];
  terminal = "done" ∷ "rejected" ∷ "abandoned" ∷ [];
  initial = "investigation";
  transitions =
      (("investigation", "planning" ∷ "rejected" ∷ "abandoned" ∷ [])
        ∷ ("planning", "implementation" ∷ "investigation" ∷ "rejected" ∷ "abandoned" ∷ [])
        ∷ ("implementation", "review" ∷ "planning" ∷ "rejected" ∷ "abandoned" ∷ [])
        ∷ ("review", "done" ∷ "implementation" ∷ "rejected" ∷ "abandoned" ∷ [])
        ∷ ("done", [])
        ∷ ("rejected", [])
        ∷ ("abandoned", [])
        ∷ []);
}

abbrev pub bug_lifecycle : Lifecycle
bug_lifecycle = record {
  states = "triage" ∷ "investigation" ∷ "fixing" ∷ "review" ∷ "done" ∷ [];
  terminal = "done" ∷ "wontfix" ∷ "duplicate" ∷ [];
  initial = "triage";
  transitions =
      (("triage", "investigation" ∷ "wontfix" ∷ "duplicate" ∷ [])
        ∷ ("investigation", "fixing" ∷ "triage" ∷ "wontfix" ∷ "duplicate" ∷ [])
        ∷ ("fixing", "review" ∷ "investigation" ∷ "wontfix" ∷ [])
        ∷ ("review", "done" ∷ "fixing" ∷ "wontfix" ∷ [])
        ∷ ("done", [])
        ∷ ("wontfix", [])
        ∷ ("duplicate", [])
        ∷ []);
}

abbrev pub feature_lifecycle : Lifecycle
feature_lifecycle = record {
  states = "discovery" ∷ "design" ∷ "implementation" ∷ "review" ∷ "done" ∷ [];
  terminal = "done" ∷ "rejected" ∷ "deferred" ∷ [];
  initial = "discovery";
  transitions =
      (("discovery", "design" ∷ "rejected" ∷ "deferred" ∷ [])
        ∷ ("design", "implementation" ∷ "discovery" ∷ "rejected" ∷ "deferred" ∷ [])
        ∷ ("implementation", "review" ∷ "design" ∷ "rejected" ∷ "deferred" ∷ [])
        ∷ ("review", "done" ∷ "implementation" ∷ "rejected" ∷ "deferred" ∷ [])
        ∷ ("done", [])
        ∷ ("rejected", [])
        ∷ ("deferred", [])
        ∷ []);
}

abbrev pub default_lifecycle : Lifecycle
default_lifecycle = record {
  states = "open" ∷ "in_progress" ∷ "done" ∷ [];
  terminal = "done" ∷ "closed" ∷ [];
  initial = "open";
  transitions =
      (("open", "in_progress" ∷ "done" ∷ "closed" ∷ [])
        ∷ ("in_progress", "done" ∷ "open" ∷ "closed" ∷ [])
        ∷ ("done", [])
        ∷ ("closed", [])
        ∷ []);
}

unfoldable pub built_in : String → Lifecycle
built_in bead_type =
    if bead_type == "task"
    then task_lifecycle
    else if bead_type == "bug"
    then bug_lifecycle
    else if bead_type == "feature"
    then feature_lifecycle
    else default_lifecycle

abbrev pub load_lifecycle_config : LifecycleStore → Dict LifecycleDict × LifecycleStore
load_lifecycle_config s = elim s.config_cache [
  | some config ↦ (config, s)
  | none ↦ let config = value_or [] s.yaml in (config, record s { config_cache = some config })
]

abbrev pub clear_lifecycle_cache : LifecycleStore → LifecycleStore
clear_lifecycle_cache s = record s { config_cache = none }

abbrev pub set_database_path : String → LifecycleStore → LifecycleStore
set_database_path path s = clear_lifecycle_cache (record s { db_path = some path })

-- an empty text, which `if config_json` passes over, as a missing row
abbrev pub filled_text : Option String → Option String
filled_text none = none
filled_text (some text) = if text == "" then none else some text

-- the row of a type in the database at a path, if there is one
unfoldable pub config_text : Dict (Dict String) → String → String → Option String
unfolding lookup
config_text databases path bead_type = elim (lookup path databases) [
  | none ↦ none
  | some rows ↦ filled_text (lookup bead_type rows)
]

-- `loads` and `dumps` are those of the json module; `loads` is `none` where the text is no JSON.
unfoldable pub load_from_database :
    (String → Option LifecycleDict) → LifecycleStore → String → Option LifecycleDict
unfolding config_text
load_from_database loads s bead_type = elim s.db_path [
  | none ↦ none
  | some path ↦ elim (config_text s.databases path bead_type) [
    | none ↦ none
    | some text ↦ loads text
  ]
]

-- what follows the database's own entry, given the YAML entries
abbrev pub from_config :
    (String → Option LifecycleDict)
    → String
    → Dict LifecycleDict × LifecycleStore
    → Validated Lifecycle × LifecycleStore
unfolding lookup load_from_database built_in
from_config loads bead_type (config, s) = (
  try_source (lookup bead_type config) (
      try_source (lookup "default" config) (
        try_source (unless_empty (load_from_database loads s "default"))
          (valid (built_in bead_type)))),
  s,
)

unfoldable pub get_lifecycle_for_type :
    (String → Option LifecycleDict) → String → LifecycleStore → Validated Lifecycle × LifecycleStore
unfolding load_from_database resolve from_config
get_lifecycle_for_type loads bead_type s =
    elim (unless_empty (load_from_database loads s bead_type)) [
      | some c ↦ (resolve c, s)
      | none ↦ from_config loads bead_type (load_lifecycle_config s)
    ]

-- A path without a database raises, before anything is written or cleared.
unfoldable pub save_lifecycle_config :
    (LifecycleDict → String)
    → String
    → String
    → LifecycleDict
    → LifecycleStore
    → Validated (Unit {0}) × LifecycleStore
unfolding lookup insert
save_lifecycle_config dumps path bead_type config s = elim (lookup path s.databases) [
  | none ↦ (raised file_not_found, s)
  | some rows ↦ (
    valid tt,
    clear_lifecycle_cache
        (record s { databases = insert path (insert bead_type (dumps config) rows) s.databases }),
  )
]
