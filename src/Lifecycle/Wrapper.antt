-- ===== src/Lifecycle/Wrapper.antt =====
-- The check before a `bd` command: check_lifecycle_transition of cli/core/bd_wrapper.py, what it
-- reads of the arguments and of the bead, and parse_status_from_args of cli/core/lifecycle.py.
use Prim.Native.String.{len, slice}
use text.Mathlib.Text.{starts_with, find?}
use quinn_ai.Prelude.{
  String, Bool, true, false, Option, none, some, List, [], ◌∷◌, ◌==◌, string_eq, if◌then◌else◌, not,
  ◌&&◌, elem, filter,
}
use quinn_ai.Lifecycle.Config.{
  LifecycleDict, LifecycleStore, Validated, bead_blocked, valid, raised, value_or,
}
use quinn_ai.Lifecycle.Validate.{validate_state_transition, validate_can_close}

abbrev pub is_option : String → Bool
is_option arg = starts_with arg "-"

-- Python's `"-" in arg`
abbrev pub has_dash : String → Bool
has_dash arg = elim (find? arg "-") [ none ↦ false | some _ ↦ true ]

unfoldable pub get_command_from_args : List String → Option String
get_command_from_args [] = none
get_command_from_args (arg ∷ args) =
    let rest = get_command_from_args args in if not (is_option arg) then some arg else rest

-- the loop of `_get_bead_id_from_args`, once the command is found
unfoldable pub find_bead_id : List String → Option String
find_bead_id [] = none
find_bead_id (arg ∷ args) =
    let rest = find_bead_id args in
    if is_option arg then rest else if has_dash arg then some arg else rest

unfoldable pub get_bead_id_from_args : List String → Option String
unfolding find_bead_id
get_bead_id_from_args [] = none
get_bead_id_from_args (arg ∷ args) =
    let rest = get_bead_id_from_args args in if is_option arg then rest else find_bead_id args

abbrev pub is_status_flag : String → Bool
is_status_flag arg = elem arg ("--status" ∷ "--state" ∷ "-s" ∷ [])

abbrev pub next_arg : List String → Option String
next_arg [] = none
next_arg (x ∷ _) = some x

-- `arg.split("=", 1)[1]` is what follows the prefix, whose `=` is the first one.
unfoldable pub parse_status_from_args : List String → Option String
parse_status_from_args [] = none
parse_status_from_args (arg ∷ args) =
    let rest = parse_status_from_args args in
    if is_status_flag arg
    then next_arg args
    else if starts_with arg "--status="
    then some (slice arg 9 (len arg))
    else if starts_with arg "--state="
    then some (slice arg 8 (len arg))
    else rest

-- the keys that are read of the JSON that `bd show` prints
pub record Shown : Type 0 where
  pub type : Option String
  pub status : Option String
  pub depends_on : Option (List String)
  pub dependencies_depends_on : Option (List String)
  pub dependencies_blocks : Option (List String)

pub record BeadInfo : Type 0 where
  pub type : String
  pub status : String
  pub depends_on : List String

-- Python's `xs or ys` on lists
abbrev pub or_list : List String → List String → List String
or_list [] ys = ys
or_list (x ∷ xs) _ = x ∷ xs

-- `show` is what `bd show` answers, and `none` where it fails in whatever way.
unfoldable pub get_bead_info : (String → Option Shown) → String → Option BeadInfo
get_bead_info show bead_id = elim (show bead_id) [
  | none ↦ none
  | some shown ↦ some (record {
    type = value_or "default" shown.type;
    status = value_or "open" shown.status;
    depends_on = or_list (value_or [] shown.depends_on) (
        or_list (value_or [] shown.dependencies_depends_on)
          (value_or [] shown.dependencies_blocks));
  })
]

abbrev pub closed_statuses : List String
closed_statuses =
    "closed" ∷ "done" ∷ "rejected" ∷ "abandoned" ∷ "wontfix" ∷ "duplicate" ∷ "deferred" ∷ []

-- A bead of which nothing is known is passed over. `lower` is Python's `str.lower`.
abbrev pub is_open_blocker : (String → String) → Option BeadInfo → Bool
is_open_blocker lower none = false
is_open_blocker lower (some info) = not (elem (lower info.status) closed_statuses)

unfoldable pub get_open_blockers :
    (String → String) → (String → Option Shown) → List String → List String
unfolding get_bead_info
get_open_blockers lower show ids =
    filter (λ bead_id. is_open_blocker lower (get_bead_info show bead_id)) ids

-- the blocking beads, once the bead's own state lets it close
abbrev pub unless_blocked :
    List String → Validated (Unit {0}) × LifecycleStore → Validated (Unit {0}) × LifecycleStore
unless_blocked blocking (raised e, s) = (raised e, s)
unless_blocked [] (valid u, s) = (valid u, s)
unless_blocked (b ∷ bs) (valid u, s) = (raised (bead_blocked (b ∷ bs)), s)

module _ (loads : String → Option LifecycleDict) (lower : String → String)
    (show : String → Option Shown) where
  unfoldable pub check_close_command :
      BeadInfo → LifecycleStore → Validated (Unit {0}) × LifecycleStore
  unfolding validate_can_close get_open_blockers
  check_close_command info s =
      unless_blocked (get_open_blockers lower show info.depends_on)
        (validate_can_close loads info.type info.status s)

  unfoldable pub check_update_command :
      Option String → BeadInfo → LifecycleStore → Validated (Unit {0}) × LifecycleStore
  unfolding validate_state_transition
  check_update_command none info s = (valid tt, s)
  check_update_command (some target_state) info s =
      if not (target_state == "") && not (target_state == info.status)
      then validate_state_transition loads info.type info.status target_state s
      else (valid tt, s)

  -- the check of a command on a bead
  unfoldable pub check_command :
      List String
      → String
      → Option BeadInfo
      → LifecycleStore
      → Validated (Unit {0}) × LifecycleStore
  unfolding check_close_command check_update_command parse_status_from_args
  check_command args command none s = (valid tt, s)
  check_command args command (some info) s =
      if command == "close"
      then check_close_command info s
      else if command == "update"
      then check_update_command (parse_status_from_args args) info s
      else (valid tt, s)

  unfoldable pub check_lifecycle_transition :
      List String → Bool → LifecycleStore → Validated (Unit {0}) × LifecycleStore
  unfolding get_command_from_args get_bead_id_from_args get_bead_info check_command
  check_lifecycle_transition args true s = (valid tt, s)
  check_lifecycle_transition args false s = elim (get_command_from_args args) [
    | none ↦ (valid tt, s)
    | some command ↦ elim (get_bead_id_from_args args) [
      | none ↦ (valid tt, s)
      | some bead_id ↦ check_command args command (get_bead_info show bead_id) s
    ]
  ]
