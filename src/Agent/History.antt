-- ===== src/Agent/History.antt =====
-- What the history of shared/pyterm/agent_state.py records, over every sequence of method calls.
use quinn_ai.Prelude.{
  ℕ, ◌+◌, Bool, true, false, List, [], ◌∷◌, ◌++◌, ◌≡◌, refl, ◌⊎◌, inl, inr, arith, All, elem,
  Bool-cases, All-append, count_true,
}
use quinn_ai.Agent.{
  AgentState, idle, agent_eq, Transition, AgentStateMachine, new_machine, valid_agent_transitions,
  can_transition, transition, force_transition, on_change, on_enter, on_exit, reset, is_active,
  is_idle, is_paused, is_error,
}

-- A call of a method that changes the machine.
pub data Op (C : Type 0) : Type 0 where
  go : ℕ → AgentState → Op C
  force : ℕ → AgentState → Op C
  add_change : C → Op C
  add_enter add_exit : AgentState → C → Op C
  clear : ℕ → Op C

module _ {C : Type 0} where
  abbrev pub apply : Op C → AgentStateMachine C → AgentStateMachine C
  apply (go now new) m = (transition now new m).0
  apply (force now new) m = (force_transition now new m).0
  apply (add_change c) m = on_change c m
  apply (add_enter s c) m = on_enter s c m
  apply (add_exit s c) m = on_exit s c m
  apply (clear now) m = reset now m

  abbrev pub run : List (Op C) → AgentStateMachine C → AgentStateMachine C
  run [] m = m
  run (o ∷ os) m = run os (apply o m)

-- The entries lead from `s` to `t`, each starting where the one before it ends.
abbrev pub Chain : AgentState → List Transition → AgentState → Type 0
Chain s [] t = s ≡ t
Chain s (e ∷ es) t = (s ≡ e.old_state) × Chain e.new_state es t

Chain-append :
    (s t u : AgentState) (es : List Transition) (now : ℕ)
    → Chain s es t
    → Chain s (es ++ (record { old_state = t; new_state = u; at = now }) ∷ []) u
Chain-append s t u [] now h = (h, refl)
Chain-append s t u (e ∷ es) now h = (h.0, Chain-append e.new_state t u es now h.1)

abbrev pub last_time : ℕ → List Transition → ℕ
last_time t [] = t
last_time t (e ∷ es) = last_time e.at es

last_time-append :
    (t : ℕ) (es : List Transition) (e : Transition) → last_time t (es ++ e ∷ []) ≡ e.at
last_time-append t [] e = refl
last_time-append t (x ∷ xs) e = last_time-append x.at xs e

module _ {C : Type 0} where
  -- The history leads from `idle` to the current state.
  abbrev pub IsTracked : AgentStateMachine C → Type 0
  IsTracked m = Chain idle m.transition_history m.state

  transition-IsTracked :
      (now : ℕ) (new : AgentState) (m : AgentStateMachine C)
      → IsTracked m
      → IsTracked (transition now new m).0
  unfolding transition
  transition-IsTracked now new m h =
      ground (arith, Chain-append idle m.state new m.transition_history now h)

  apply-IsTracked : (o : Op C) (m : AgentStateMachine C) → IsTracked m → IsTracked (apply o m)
  unfolding force_transition on_change on_enter on_exit reset
  apply-IsTracked (go now new) m h = transition-IsTracked now new m h
  apply-IsTracked (force now new) m h = Chain-append idle m.state new m.transition_history now h
  apply-IsTracked (add_change c) m h = h
  apply-IsTracked (add_enter s c) m h = h
  apply-IsTracked (add_exit s c) m h = h
  apply-IsTracked (clear now) m h = refl

  run-IsTracked_from :
      (os : List (Op C)) (m : AgentStateMachine C) → IsTracked m → IsTracked (run os m)
  run-IsTracked_from [] m h = h
  run-IsTracked_from (o ∷ os) m h = run-IsTracked_from os (apply o m) (apply-IsTracked o m h)

  -- After any method calls on a new machine, forced transitions and resets included, the history
  -- is unbroken: it starts in `idle`, each entry starts in the state where the one before it
  -- ended, and the last ends in the machine's state.
  pub run-IsTracked : (start : ℕ) (os : List (Op C)) → IsTracked (run os (new_machine start))
  unfolding new_machine
  run-IsTracked start os = run-IsTracked_from os (new_machine start) refl

  abbrev pub is_force : Op C → Bool
  is_force (force now new) = true
  is_force _ = false

  -- Every entry of the history is a move that the table lists.
  abbrev pub HasValidHistory : AgentStateMachine C → Type 0
  HasValidHistory m =
      All (λ e. elem e.new_state (valid_agent_transitions e.old_state) ≡ true) m.transition_history

  transition-HasValidHistory :
      (now : ℕ) (new : AgentState) (m : AgentStateMachine C)
      → HasValidHistory m
      → HasValidHistory (transition now new m).0
  unfolding transition
  transition-HasValidHistory now new m h = elim (Bool-cases (can_transition m new)) [
    | inl can ↦ rw can (
        All-append (λ e. elem e.new_state (valid_agent_transitions e.old_state) ≡ true)
          m.transition_history _ h (can, tt))
    | inr cannot ↦ rw cannot h
  ]

  apply-HasValidHistory :
      (o : Op C) (m : AgentStateMachine C)
      → is_force o ≡ false
      → HasValidHistory m
      → HasValidHistory (apply o m)
  unfolding on_change on_enter on_exit reset
  apply-HasValidHistory (go now new) m f h = transition-HasValidHistory now new m h
  apply-HasValidHistory (force now new) m f h = cc
  apply-HasValidHistory (add_change c) m f h = h
  apply-HasValidHistory (add_enter s c) m f h = h
  apply-HasValidHistory (add_exit s c) m f h = h
  apply-HasValidHistory (clear now) m f h = tt

  run-HasValidHistory_from :
      (os : List (Op C)) (m : AgentStateMachine C)
      → All (λ o. is_force o ≡ false) os
      → HasValidHistory m
      → HasValidHistory (run os m)
  run-HasValidHistory_from [] m f h = h
  run-HasValidHistory_from (o ∷ os) m f h =
      run-HasValidHistory_from os (apply o m) f.1 (apply-HasValidHistory o m f.0 h)

  -- After any method calls on a new machine, none of them a forced transition, every entry of the
  -- history is a move that the table lists.
  pub run-HasValidHistory :
      (start : ℕ) (os : List (Op C))
      → All (λ o. is_force o ≡ false) os
      → HasValidHistory (run os (new_machine start))
  unfolding new_machine
  run-HasValidHistory start os f = run-HasValidHistory_from os (new_machine start) f tt

  -- An accepted transition does what a forced one does, with the same callbacks; a refused one
  -- leaves the machine as it is and calls nothing; and only moves of the table are accepted.
  pub transition-force_transition :
      (now : ℕ) (new : AgentState) (m : AgentStateMachine C)
      → let t = transition now new m in
        let f = force_transition now new m in
        ((t.1 ≡ true)
          × (elem new (valid_agent_transitions m.state) ≡ true)
          × (t.0 ≡ f.0)
          × (t.2 ≡ f.1))
        ⊎ ((t.1 ≡ false)
            × (elem new (valid_agent_transitions m.state) ≡ false)
            × (t.0 ≡ m)
            × (t.2 ≡ []))
  unfolding transition force_transition
  transition-force_transition now new m = elim (Bool-cases (can_transition m new)) [
    | inl can ↦ inl (rw can refl, can, rw can refl, rw can refl)
    | inr cannot ↦ inr (rw cannot refl, cannot, rw cannot refl, rw cannot refl)
  ]

  -- Of the four predicates on the state exactly one holds.
  pub predicates_exclusive :
      (m : AgentStateMachine C)
      → count_true (is_active m)
          + count_true (is_idle m)
          + count_true (is_paused m)
          + count_true (is_error m)
        ≡ 1
  unfolding is_active is_idle is_paused is_error
  predicates_exclusive m = ground arith
