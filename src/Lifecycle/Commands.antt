-- ===== src/Lifecycle/Commands.antt =====
-- What check_lifecycle_transition of cli/core/bd_wrapper.py lets pass of `bd close` and `bd update`.
use quinn_ai.Prelude.{
  String, true, false, Option, none, some, List, [], ◌∷◌, string_eq, elem, All, Bool-cases, ◌≡◌,
  ◌↔◌, refl, ap, inl, inr, arith,
}
use quinn_ai.Lifecycle.Config.{
  LifecycleDict, Lifecycle, LifecycleStore, Validated, valid, raised, get_lifecycle_for_type,
}
use quinn_ai.Lifecycle.Validate.{is_terminal, check_close, validate_can_close}
use quinn_ai.Lifecycle.Wrapper.{
  Shown, BeadInfo, closed_statuses, is_open_blocker, get_open_blockers, get_bead_info,
  get_command_from_args, get_bead_id_from_args, unless_blocked, check_close_command, check_command,
  check_lifecycle_transition,
}

closes-terminal :
    (c : Lifecycle) (x : String) → (check_close x c ≡ valid tt) ↔ (is_terminal c x ≡ true)
unfolding check_close
closes-terminal c x = (λ closed. ground (arith, closed), λ final. ground (arith, final))

unblocked :
    (bs : List String) (v : Validated (Unit {0})) (s : LifecycleStore)
    → (unless_blocked bs (v, s) ≡ (valid tt, s)) ↔ ((v ≡ valid tt) × (bs ≡ []))
unblocked bs (raised e) s = (λ h. ground (arith, ap (λ r. r.0) h), λ h. ground (arith, h.0))
unblocked [] (valid tt) s = (λ h. (refl, refl), λ h. refl)
unblocked (b ∷ bs) (valid tt) s = (λ h. ground (arith, ap (λ r. r.0) h), λ h. ground (arith, h.1))

module _ (lower : String → String) (show : String → Option Shown) where
  -- nothing is known of the bead, or its status is one of the closed ones
  abbrev pub IsSettled : Option BeadInfo → Type 0
  IsSettled none = Unit {0}
  IsSettled (some info) = elem (lower info.status) closed_statuses ≡ true

  IsSettled-blocker : (o : Option BeadInfo) → (is_open_blocker lower o ≡ false) ↔ IsSettled o
  IsSettled-blocker none = (λ _. tt, λ _. refl)
  IsSettled-blocker (some info) = (λ h. ground (arith, h), λ h. ground (arith, h))

  blockers-All :
      (ids : List String)
      → (get_open_blockers lower show ids ≡ []) ↔ All (λ b. IsSettled (get_bead_info show b)) ids
  unfolding get_open_blockers
  blockers-All [] = (λ _. tt, λ _. refl)
  blockers-All (b ∷ ids) = elim (Bool-cases (is_open_blocker lower (get_bead_info show b))) [
    | inl e ↦ rw e (
      λ h. ground (arith, h),
      λ h. ground (arith, e, (IsSettled-blocker (get_bead_info show b)).1 h.0),
    )
    | inr e ↦ rw e (
      λ h. ((IsSettled-blocker (get_bead_info show b)).0 e, (blockers-All ids).0 h),
      λ h. (blockers-All ids).1 h.1,
    )
  ]

  -- Where the lifecycle of the bead's type can be read, the check lets `bd close` of a bead that
  -- `bd show` knows pass exactly when the bead's status is terminal for its type and each bead that
  -- it depends on either is one of which `bd show` says nothing or has, in lower case, one of the
  -- closed statuses.
  pub check_lifecycle_transition-close :
      (loads : String → Option LifecycleDict) (args : List String) (bead_id : String)
      (info : BeadInfo) (c : Lifecycle) (s read : LifecycleStore)
      → get_command_from_args args ≡ some "close"
      → get_bead_id_from_args args ≡ some bead_id
      → get_bead_info show bead_id ≡ some info
      → get_lifecycle_for_type loads info.type s ≡ (valid c, read)
      → (check_lifecycle_transition loads lower show args false s ≡ (valid tt, read)) ↔ (
          (is_terminal c info.status ≡ true)
          × All (λ b. IsSettled (get_bead_info show b)) info.depends_on)
  unfolding check_lifecycle_transition check_command check_close_command validate_can_close
  check_lifecycle_transition-close loads args bead_id info c s read command id found config =
      let gate =
        unblocked (get_open_blockers lower show info.depends_on) (check_close info.status c) read in
      let close = closes-terminal c info.status in
      let blockers = blockers-All info.depends_on in
      rw (check_lifecycle_transition, command, id, found, config)
        (
          λ passed. (close.0 (gate.0 passed).0, blockers.0 (gate.0 passed).1),
          λ fine. gate.1 (close.1 fine.0, blockers.1 fine.1),
        )
