-- ===== src/Lifecycle/Spelling.antt =====
-- The two spellings of a status in the arguments of `bd update`: parse_status_from_args of
-- cli/core/lifecycle.py under check_lifecycle_transition of cli/core/bd_wrapper.py.
use Prim.Native.String.{len, slice, ◌++◌ as str_append}
use text.Mathlib.Text.{starts_with}
use text.Mathlib.TextBridge.{IsPrefix}
use text.Mathlib.TextEquality.{starts_with_iff}
use text.Mathlib.TextPositions.{len-append, slice-append_right, starts_with-append}
use text.Mathlib.TextLemmas.{append_assoc}
use quinn_ai.Prelude.{
  String, Bool, true, false, not, Option, some, List, [], ◌∷◌, ◌==◌, string_eq, if◌then◌else◌, ◌||◌,
  Bool-cases, ◌≡◌, refl, sym, subst, ap, ◌∙◌, inl, inr, eq_iff, arith,
}
use quinn_ai.Lifecycle.Config.{LifecycleDict, LifecycleStore, valid}
use quinn_ai.Lifecycle.Validate.{validate_state_transition}
use quinn_ai.Lifecycle.Wrapper.{
  Shown, BeadInfo, get_bead_info, check_update_command, is_option, has_dash, is_status_flag,
  find_bead_id, get_command_from_args, get_bead_id_from_args, parse_status_from_args, check_command,
  check_lifecycle_transition,
}

-- a test that tells two texts apart
apart : (f : String → Bool) (x y : String) → f x ≡ true → f y ≡ false → (x == y) ≡ false
apart f x y at_x at_y = elim (Bool-cases (x == y)) [
  | inr other ↦ other
  | inl same ↦
      let there : f y ≡ true = subst (λ z. f z ≡ true) ((eq_iff x y).0 same) at_x in
      ground (arith, at_y, there)
]

-- what does not begin with a dash does not begin with a text that does
no_dash :
    (p rest arg : String)
    → str_append "-" rest ≡ p
    → is_option arg ≡ false
    → starts_with arg p ≡ false
no_dash p rest arg begins plain = elim (Bool-cases (starts_with arg p)) [
  | inr other ↦ other
  | inl same ↦
      let whole : IsPrefix p arg = (starts_with_iff arg p).0 same in
      let split : str_append "-" (str_append rest whole.0) ≡ arg =
        sym (append_assoc "-" rest whole.0) ∙ ap (λ q. str_append q whole.0) begins ∙ whole.1 in
      let option : is_option arg ≡ true =
        (starts_with_iff arg "-").1 (str_append rest whole.0, split) in
      ground (arith, plain, option)
]

-- what `--status=` begins is none of the flags
spelled : (v : String) → is_status_flag (str_append "--status=" v) ≡ false
spelled v =
    let begins = starts_with-append "--status=" v in
    let f : String → Bool = λ x. starts_with x "--status=" in
    let x = str_append "--status=" v in
    rw
      (
        apart f x "--status" begins refl,
        apart f x "--state" begins refl,
        apart f x "-s" begins refl,
      )
      refl

plain_arg : (arg : String) → is_option arg ≡ false → is_status_flag arg ≡ false
plain_arg arg plain =
    let f : String → Bool = λ x. not (is_option x) in
    let at : f arg ≡ true = ap not plain in
    rw (apart f arg "--status" at refl, apart f arg "--state" at refl, apart f arg "-s" at refl)
      refl

pub value_after :
    (v : String) → slice (str_append "--status=" v) 9 (len (str_append "--status=" v)) ≡ v
value_after v =
    ap (λ n. slice (str_append "--status=" v) 9 n) (len-append "--status=" v)
    ∙ slice-append_right "--status=" v

-- `bd update <id>` with a status in either spelling
parse-plain :
    (id : String) (args : List String)
    → is_option id ≡ false
    → parse_status_from_args ("update" ∷ id ∷ args) ≡ parse_status_from_args args
unfolding parse_status_from_args
parse-plain id args plain =
    rw
      (
        parse_status_from_args,
        plain_arg id plain,
        no_dash "--status=" "-status=" id refl plain,
        no_dash "--state=" "-state=" id refl plain,
      )
      refl

parse-joined : (v : String) → parse_status_from_args (str_append "--status=" v ∷ []) ≡ some v
unfolding parse_status_from_args
parse-joined v =
    rw (parse_status_from_args, spelled v, starts_with-append "--status=" v, value_after v) refl

module _ (loads : String → Option LifecycleDict) (lower : String → String)
    (show : String → Option Shown) where
  -- an update of the bead `id`, which parses to a status
  update-parsed :
      (id v : String) (args : List String) (info : BeadInfo) (s : LifecycleStore)
      → is_option id ≡ false
      → has_dash id ≡ true
      → get_bead_info show id ≡ some info
      → parse_status_from_args args ≡ some v
      → check_lifecycle_transition loads lower show ("update" ∷ id ∷ args) false s ≡ (
          if v == "" || v == info.status
          then (valid tt, s)
          else validate_state_transition loads info.type info.status v s)
  unfolding check_lifecycle_transition check_command check_update_command get_command_from_args
      get_bead_id_from_args find_bead_id
  update-parsed id v args info s plain dash found status =
      rw
        (
          check_lifecycle_transition,
          get_command_from_args,
          get_bead_id_from_args,
          find_bead_id,
          plain,
          dash,
          found,
          check_command,
          parse-plain id args plain,
          status,
        )
        (elim (Bool-cases (v == "")) [
          | inl blank ↦ rw blank refl
          | inr filled ↦ elim (Bool-cases (v == info.status)) [
            | inl same ↦ rw (filled, same) refl
            | inr other ↦ rw (filled, other) refl
          ]
        ])

  -- For an id that contains a dash and does not begin with one, `update <id> --status <v>` and
  -- `update <id> --status=<v>` are checked alike when `bd show` knows the bead: an empty status
  -- and the one that the bead has pass unchecked, and any other is validated as a transition from
  -- the bead's status.
  pub check_lifecycle_transition-update :
      (id v : String) (info : BeadInfo) (s : LifecycleStore)
      → is_option id ≡ false
      → has_dash id ≡ true
      → get_bead_info show id ≡ some info
      → (let checked =
            if v == "" || v == info.status
            then (valid tt, s)
            else validate_state_transition loads info.type info.status v s in
          (check_lifecycle_transition loads lower show ("update" ∷ id ∷ "--status" ∷ v ∷ []) false s
            ≡ checked)
          × (check_lifecycle_transition loads lower show
                ("update" ∷ id ∷ str_append "--status=" v ∷ [])
                false
                s
              ≡ checked))
  unfolding parse_status_from_args
  check_lifecycle_transition-update id v info s plain dash found = (
    update-parsed id v ("--status" ∷ v ∷ []) info s plain dash found refl,
    update-parsed id v (str_append "--status=" v ∷ []) info s plain dash found (parse-joined v),
  )
