-- ===== src/Lifecycle/Examples.antt =====
-- Runs of the lifecycle's code, and the theorems about it at concrete arguments.
use quinn_ai.Prelude.{
  String, true, false, Option, none, some, [], ◌∷◌, lookup, ◌==◌, string_eq, if◌then◌else◌, All,
  ◌≡◌, ◌↔◌, refl,
}
use quinn_ai.Lifecycle.Config.{
  LifecycleDict, LifecycleStore, valid, raised, index_error, clear_lifecycle_cache, resolve,
  built_in, save_lifecycle_config, get_lifecycle_for_type,
}
use quinn_ai.Lifecycle.Validate.{
  check_transition, check_close, is_terminal, validate_state_transition,
}
use quinn_ai.Lifecycle.Wrapper.{
  Shown, BeadInfo, get_command_from_args, get_bead_id_from_args, get_bead_info,
  check_lifecycle_transition,
}
use quinn_ai.Lifecycle.Saved.{JsonLaws, get_lifecycle_for_type-save_lifecycle_config}
use quinn_ai.Lifecycle.Walks.{stay, step, CanFinish, Walk-CanFinish}
use quinn_ai.Lifecycle.Commands.{IsSettled, check_lifecycle_transition-close}
use quinn_ai.Lifecycle.Spelling.{check_lifecycle_transition-update}

-- a configuration in which a bead is made and then sold
abbrev shop : LifecycleDict
shop = record {
  states = some ("made" ∷ "sold" ∷ []);
  terminal_states = some ("sold" ∷ []);
  initial_state = none;
  transitions = some (("made", "sold" ∷ []) ∷ []);
  others = 0;
}

abbrev store : LifecycleStore
store = record {
  databases = ("quinn.db", []) ∷ [];
  yaml = none;
  config_cache = none;
  db_path = some "quinn.db";
}

-- A list without a state raises, even where an initial state is given.
no_states :
    resolve (record {
      states = some [];
      terminal_states = none;
      initial_state = some "open";
      transitions = none;
      others = 0;
    })
    ≡ raised index_error
unfolding resolve
no_states = refl

abbrev answer : String → Option Shown
answer _ = some (record {
  type = some "task";
  status = some "done";
  depends_on = some ("bd-2" ∷ []);
  dependencies_depends_on = none;
  dependencies_blocks = none;
})

abbrev info : BeadInfo
info = record { type = "task"; status = "done"; depends_on = "bd-2" ∷ [] }

-- A status with a dash that stands before the bead's id is read as the id.
dashed_status :
    get_bead_id_from_args ("update" ∷ "--status" ∷ "in-review" ∷ "bd-1" ∷ []) ≡ some "in-review"
unfolding get_bead_id_from_args
dashed_status = refl

Walk-CanFinish_example :
    CanFinish (built_in "task") "planning"
    × ((y : String)
        → check_close "planning" (built_in "task") ≡ valid tt
        → ¬ (check_transition "planning" y (built_in "task") ≡ valid tt))
unfolding check_transition built_in
Walk-CanFinish_example = Walk-CanFinish "task" "planning" (step refl stay)

abbrev dumps : LifecycleDict → String
dumps _ = "{}"

abbrev loads : String → Option LifecycleDict
loads text = if text == "{}" then some shop else none

json : JsonLaws loads dumps shop
json = record { loads-dumps = refl; loads_empty = refl }

get_lifecycle_for_type-save_lifecycle_config_example :
    (let after = (save_lifecycle_config dumps "quinn.db" "task" shop store).1 in
      (get_lifecycle_for_type loads "task" after ≡ (resolve shop, after))
      × ((other : String)
          → (◌==◌ {A = String} "task" other) ≡ false
          → (◌==◌ {A = String} "task" "default") ≡ false
          → (get_lifecycle_for_type loads other after).0
            ≡ (get_lifecycle_for_type loads other (clear_lifecycle_cache store)).0))
unfolding lookup
get_lifecycle_for_type-save_lifecycle_config_example =
    get_lifecycle_for_type-save_lifecycle_config loads dumps shop json "quinn.db" "task" [] store
      refl refl refl

-- what is read of the store, in which nothing is configured for a task
abbrev read : LifecycleStore
read = record {
  databases = ("quinn.db", []) ∷ [];
  yaml = none;
  config_cache = some [];
  db_path = some "quinn.db";
}

check_lifecycle_transition-close_example :
    (check_lifecycle_transition loads (λ t. t) answer ("close" ∷ "bd-1" ∷ []) false store
      ≡ (valid tt, read))
    ↔ ((is_terminal (built_in "task") "done" ≡ true)
        × All (λ b. IsSettled (λ t. t) answer (get_bead_info answer b)) ("bd-2" ∷ []))
unfolding get_bead_info get_bead_id_from_args get_command_from_args get_lifecycle_for_type
check_lifecycle_transition-close_example =
    check_lifecycle_transition-close (λ t. t) answer loads ("close" ∷ "bd-1" ∷ []) "bd-1" info
      (built_in "task") store read refl refl refl refl

check_lifecycle_transition-update_example :
    (let checked = validate_state_transition loads "task" "done" "review" store in
      (check_lifecycle_transition loads
          (λ t. t)
          answer
          ("update" ∷ "bd-1" ∷ "--status" ∷ "review" ∷ [])
          false
          store
        ≡ checked)
      × (check_lifecycle_transition loads
            (λ t. t)
            answer
            ("update" ∷ "bd-1" ∷ "--status=review" ∷ [])
            false
            store
          ≡ checked))
unfolding get_bead_info
check_lifecycle_transition-update_example =
    check_lifecycle_transition-update loads (λ t. t) answer "bd-1" "review" info store refl refl
      refl
