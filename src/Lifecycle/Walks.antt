-- ===== src/Lifecycle/Walks.antt =====
-- The updates that validate_state_transition of cli/core/lifecycle.py lets pass, one after the other,
-- under the tables of cli/core/constants/beads.py.
use quinn_ai.Prelude.{
  String, true, List, [], ◌∷◌, ◌==◌, string_eq, elem, All, Bool-cases, ◌≡◌, refl, sym, subst, inl,
  inr, eq_iff, arith,
}
use quinn_ai.Lifecycle.Config.{
  Lifecycle, valid, built_in, task_lifecycle, bug_lifecycle, feature_lifecycle, default_lifecycle,
}
use quinn_ai.Lifecycle.Validate.{
  is_valid_state, is_terminal, get_allowed_transitions, can_transition, check_transition,
  check_close,
}

-- a sequence of updates that pass, from one state to another
pub data Walk (c : Lifecycle) : String → String → Type 0 where
  stay : {x : String} → Walk c x x
  step : {x y z : String} → check_transition x y c ≡ valid tt → Walk c y z → Walk c x z

-- from this state there are updates to one in which the bead may be closed
abbrev pub CanFinish : Lifecycle → String → Type 0
CanFinish c x = (y : String) × Walk c x y × (check_close y c ≡ valid tt)

abbrev then_finish :
    (c : Lifecycle) (x y : String)
    → check_transition x y c ≡ valid tt
    → CanFinish c y
    → CanFinish c x
then_finish c x y e (z, w, closed) = (z, step e w, closed)

pub All-elem {ℓ} :
    (P : String → Type ℓ) (x : String) (xs : List String) → All P xs → elem x xs ≡ true → P x
All-elem P x [] all found = ground (arith, found)
All-elem P x (y ∷ xs) (p, all) found = elim (Bool-cases (x == y)) [
  | inl same ↦ subst P (sym ((eq_iff x y).0 same)) p
  | inr other ↦ All-elem P x xs all (ground (arith, found, other))
]

abbrev FinishesAll : Lifecycle → Type 0
FinishesAll c = All (CanFinish c) c.states × All (CanFinish c) c.terminal

task-FinishesAll : FinishesAll task_lifecycle
unfolding check_transition check_close
task-FinishesAll =
    let done : CanFinish task_lifecycle "done" = ("done", stay, refl) in
    let review : CanFinish task_lifecycle "review" =
      then_finish task_lifecycle "review" "done" refl done in
    let implementation : CanFinish task_lifecycle "implementation" =
      then_finish task_lifecycle "implementation" "review" refl review in
    let planning : CanFinish task_lifecycle "planning" =
      then_finish task_lifecycle "planning" "implementation" refl implementation in
    let investigation : CanFinish task_lifecycle "investigation" =
      then_finish task_lifecycle "investigation" "planning" refl planning in
    (
      (investigation, (planning, (implementation, (review, (done, tt))))),
      (done, (("rejected", stay, refl), (("abandoned", stay, refl), tt))),
    )

bug-FinishesAll : FinishesAll bug_lifecycle
unfolding check_transition check_close
bug-FinishesAll =
    let done : CanFinish bug_lifecycle "done" = ("done", stay, refl) in
    let review : CanFinish bug_lifecycle "review" =
      then_finish bug_lifecycle "review" "done" refl done in
    let fixing : CanFinish bug_lifecycle "fixing" =
      then_finish bug_lifecycle "fixing" "review" refl review in
    let investigation : CanFinish bug_lifecycle "investigation" =
      then_finish bug_lifecycle "investigation" "fixing" refl fixing in
    let triage : CanFinish bug_lifecycle "triage" =
      then_finish bug_lifecycle "triage" "investigation" refl investigation in
    (
      (triage, (investigation, (fixing, (review, (done, tt))))),
      (done, (("wontfix", stay, refl), (("duplicate", stay, refl), tt))),
    )

feature-FinishesAll : FinishesAll feature_lifecycle
unfolding check_transition check_close
feature-FinishesAll =
    let done : CanFinish feature_lifecycle "done" = ("done", stay, refl) in
    let review : CanFinish feature_lifecycle "review" =
      then_finish feature_lifecycle "review" "done" refl done in
    let implementation : CanFinish feature_lifecycle "implementation" =
      then_finish feature_lifecycle "implementation" "review" refl review in
    let design : CanFinish feature_lifecycle "design" =
      then_finish feature_lifecycle "design" "implementation" refl implementation in
    let discovery : CanFinish feature_lifecycle "discovery" =
      then_finish feature_lifecycle "discovery" "design" refl design in
    (
      (discovery, (design, (implementation, (review, (done, tt))))),
      (done, (("rejected", stay, refl), (("deferred", stay, refl), tt))),
    )

default-FinishesAll : FinishesAll default_lifecycle
unfolding check_transition check_close
default-FinishesAll =
    let done : CanFinish default_lifecycle "done" = ("done", stay, refl) in
    let in_progress : CanFinish default_lifecycle "in_progress" =
      then_finish default_lifecycle "in_progress" "done" refl done in
    let opened : CanFinish default_lifecycle "open" =
      then_finish default_lifecycle "open" "in_progress" refl in_progress in
    ((opened, (in_progress, (done, tt))), (done, (("closed", stay, refl), tt)))

-- a property of the four tables is one of each type's lifecycle
each_built_in :
    (P : Lifecycle → Type 0)
    → P task_lifecycle
    → P bug_lifecycle
    → P feature_lifecycle
    → P default_lifecycle
    → (bead_type : String) → P (built_in bead_type)
unfolding built_in
each_built_in P task bug feature default bead_type = elim (Bool-cases (bead_type == "task")) [
  | inl a ↦ rw (built_in, a) task
  | inr a ↦ elim (Bool-cases (bead_type == "bug")) [
    | inl b ↦ rw (built_in, a, b) bug
    | inr b ↦ elim (Bool-cases (bead_type == "feature")) [
      | inl d ↦ rw (built_in, a, b, d) feature
      | inr d ↦ rw (built_in, a, b, d) default
    ]
  ]
]

built_in-FinishesAll : (bead_type : String) → FinishesAll (built_in bead_type)
built_in-FinishesAll =
    each_built_in FinishesAll task-FinishesAll bug-FinishesAll feature-FinishesAll
      default-FinishesAll

abbrev HasValidInitial : Lifecycle → Type 0
HasValidInitial c = is_valid_state c c.initial ≡ true

abbrev IsFinal : Lifecycle → Type 0
unfolding get_allowed_transitions
IsFinal c = All (λ x. get_allowed_transitions c x ≡ []) c.terminal

abbrev IsTable : Lifecycle → Type 0
IsTable c = HasValidInitial c × IsFinal c

built_in-IsTable : (bead_type : String) → IsTable (built_in bead_type)
unfolding IsFinal
built_in-IsTable =
    each_built_in IsTable (refl, (refl, (refl, (refl, tt)))) (refl, (refl, (refl, (refl, tt))))
      (refl, (refl, (refl, (refl, tt)))) (refl, (refl, (refl, tt)))

module _ (c : Lifecycle) where
  passed-valid :
      (x y : String)
      → check_transition x y c ≡ valid tt
      → (is_valid_state c y ≡ true) × (can_transition c x y ≡ true)
  unfolding check_transition
  passed-valid x y passed = (ground (arith, passed), ground (arith, passed))

  closed-terminal : (x : String) → check_close x c ≡ valid tt → is_terminal c x ≡ true
  unfolding check_close
  closed-terminal x closed = ground (arith, closed)

  Walk-valid : {x y : String} → Walk c x y → is_valid_state c x ≡ true → is_valid_state c y ≡ true
  Walk-valid stay at = at
  Walk-valid (step {x} {y} passed w) at = Walk-valid w (passed-valid x y passed).0

  closed_stays :
      IsFinal c
      → (x y : String) → check_close x c ≡ valid tt
      → ¬ (check_transition x y c ≡ valid tt)
  unfolding can_transition IsFinal
  closed_stays final x y closed passed =
      let nowhere : get_allowed_transitions c x ≡ [] =
        All-elem (λ z. get_allowed_transitions c z ≡ []) x c.terminal final
          (closed-terminal x closed) in
      let there : elem y (get_allowed_transitions c x) ≡ true = (passed-valid x y passed).1 in
      ground (arith, subst (λ ys. elem y ys ≡ true) nowhere there)

  valid-CanFinish : FinishesAll c → (x : String) → is_valid_state c x ≡ true → CanFinish c x
  valid-CanFinish all x at = elim (Bool-cases (elem x c.states)) [
    | inl e ↦ All-elem (CanFinish c) x c.states all.0 e
    | inr e ↦ All-elem (CanFinish c) x c.terminal all.1 (ground (arith, at, e))
  ]

-- Under the tables of the constants, a bead of any type that went from its type's initial state
-- through updates that pass is never stuck: some further updates pass that lead to a state in which
-- it may be closed; and if it may be closed already, no update passes any more.
pub Walk-CanFinish :
    (bead_type x : String)
    → Walk (built_in bead_type) (built_in bead_type).initial x
    → CanFinish (built_in bead_type) x
      × ((y : String)
          → check_close x (built_in bead_type) ≡ valid tt
          → ¬ (check_transition x y (built_in bead_type) ≡ valid tt))
Walk-CanFinish bead_type x w =
    let c = built_in bead_type in
    let table = built_in-IsTable bead_type in
    (
      valid-CanFinish c (built_in-FinishesAll bead_type) x (Walk-valid c w table.0),
      λ y closed. closed_stays c table.1 x y closed,
    )
