-- ===== src/State/Examples.antt =====
-- The theorems on shared/core/state.py at concrete inputs.
use quinn_ai.Prelude.{[], ◌∷◌, refl, ◌⊎◌}
use quinn_ai.State.{
  pending, onboarding, active, working, opened, in_progress, review, closed, can_transition_worker,
  transition_worker, transition_work, offboarding,
}
use quinn_ai.State.Mapping.{Follows, Unmatched, transition-simulation}
use quinn_ai.State.Paths.{WorkerPath, WorkPath}

transition-simulation_example :
    Follows working offboarding ⊎ (Unmatched working offboarding × (¬ Follows working offboarding))
unfolding can_transition_worker
transition-simulation_example = transition-simulation working offboarding refl

abbrev first_day : WorkerPath pending working
unfolding transition_worker
first_day =
    WorkerPath.move {b = onboarding} refl
      (WorkerPath.move {b = active} refl (WorkerPath.move {b = working} refl WorkerPath.done))

abbrev finished : WorkPath opened (in_progress ∷ review ∷ closed ∷ []) closed
unfolding transition_work
finished = WorkPath.move refl (WorkPath.move refl (WorkPath.move refl WorkPath.done))
