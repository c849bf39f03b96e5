-- ===== src/Budget/Completion.antt =====
-- `complete_with_budget` of cli/providers/registry/budget.py: a provider is selected, the budget is
-- enforced, the provider is called, and the cost is recorded.
use quinn_ai.Prelude.{
  ℕ, ◌/◌, String, Dict, Option, none, some, ℤ, pos, ◌+ℤ◌, negate, ◌≡◌, refl, ap, ◌∙◌, inl, inr,
  Option-cases,
}
use Prim.Native.String.{◌++◌ as str_append}
use quinn_ai.Providers.Models.{tier_value}
use quinn_ai.Providers.Registry.{ProviderRegistry}
use quinn_ai.Providers.Selection.{
  Selection, selected, selection_error, value_error, ProviderSelection, select_provider_for_worker,
}
use quinn_ai.Budget.Tables.{Details, Tables, get_worker_balance}
use quinn_ai.Budget.Action.{BudgetError, Result, ok, err, Store, then_do}
use quinn_ai.Budget.Enforcer.{
  BudgetEnforcer, new_enforcer, estimate_cost, enter, record_cost, get_remaining_budget,
  enforce_budget,
}
use quinn_ai.Budget.Rows.{total_available}
use quinn_ai.Budget.Sound.{IsSound}
use quinn_ai.Budget.Steps.{clean}
use quinn_ai.Budget.Moves.{Moves, Result-cases}
use quinn_ai.Budget.Spend.{charge, charge-Moves, no_allocation}

-- the `usage` of a provider's answer
pub record Usage : Type 0 where
  pub input_tokens : Option ℕ
  pub output_tokens : Option ℕ

pub record Request : Type 0 where
  pub worker_id : String
  pub worker_cost : ℕ
  pub worker_skills : Dict ℕ
  pub total_chars : ℕ
  pub max_tokens : ℕ
  pub preferred_provider : Option String
  pub reference_type : Option String
  pub reference_id : Option String

-- An exception of the provider, of whatever kind, is `provider_error`.
pub data Completion : Type 0 where
  completed : (cost budget_remaining : ℤ) → Completion
  budget_error : BudgetError → Completion
  not_selected provider_error : Completion

abbrev pub tokens_or : ℕ → Option ℕ → ℕ
tokens_or default none = default
tokens_or default (some n) = n

abbrev pub details_of : Request → ProviderSelection → ℕ → ℕ → Details
details_of q s input_tokens output_tokens = record {
  provider = some s.provider.name;
  model = some s.model.id;
  input_tokens = some input_tokens;
  output_tokens = some output_tokens;
  reference_type = q.reference_type;
  reference_id = q.reference_id;
  description =
      some (str_append "Completion via " (str_append s.provider.name (str_append "/" s.model.id)));
}

abbrev pub estimated : (String → String) → Request → ProviderSelection → ℤ
estimated lower q s = estimate_cost lower (tier_value s.tier) (q.total_chars / 4) q.max_tokens

abbrev pub actual : (String → String) → Request → ProviderSelection → Usage → ℤ
actual lower q s u =
    estimate_cost lower (tier_value s.tier) (tokens_or (q.total_chars / 4) u.input_tokens)
      (tokens_or 0 u.output_tokens)

-- what is read once the cost is recorded
abbrev pub read_remaining : ℕ → String → ℤ → Result BudgetEnforcer × Store → Completion × Store
read_remaining now worker_id cost (ok _, s) = elim (get_remaining_budget now s.tables worker_id) [
  | ok left ↦ (completed cost left, s)
  | err e ↦ (budget_error e, s)
]
read_remaining now worker_id cost (err e, s) = (budget_error e, s)

-- inside `with BudgetEnforcer(...)`: the call of the provider, and `enforcer.record`
abbrev pub call_provider :
    (String → String)
    → ℕ
    → Request
    → ProviderSelection
    → Option Usage
    → Result BudgetEnforcer × Store
    → Completion × Store
call_provider lower now q s answer (err e, db) = (budget_error e, db)
call_provider lower now q s none (ok e, db) = (provider_error, db)
call_provider lower now q s (some u) (ok e, db) =
    read_remaining now q.worker_id (actual lower q s u) (
      record_cost now e (actual lower q s u)
        (details_of q s (tokens_or (q.total_chars / 4) u.input_tokens)
          (tokens_or 0 u.output_tokens))
        db)

-- `call` is what the provider answers to the request, by provider and model; `none` is an exception.
unfoldable pub complete_with_budget :
    (String → String)
    → (String → String → Option Usage)
    → ℕ
    → ProviderRegistry
    → Request
    → Store
    → Completion × Store
unfolding select_provider_for_worker estimate_cost enter record_cost get_remaining_budget
complete_with_budget lower call now r q db =
    elim (select_provider_for_worker r q.worker_cost q.worker_skills q.preferred_provider none) [
      | value_error ↦ (not_selected, db)
      | selection_error _ ↦ (not_selected, db)
      | selected s ↦
          call_provider lower now q s (call s.provider.name s.model.id)
            (enter now (new_enforcer q.worker_id (estimated lower q s)) db)
    ]

-- On sound tables the remaining budget is read without an exception.
get_remaining_budget-ok :
    (now : ℕ) (w : String) (t : Tables)
    → IsSound t
    → (left : ℤ) × (get_remaining_budget now t w ≡ ok left)
unfolding get_remaining_budget
get_remaining_budget-ok now w t sound = elim (Option-cases (get_worker_balance now t w)) [
  | inr (b, found) ↦ (b.available, rw (found, get_remaining_budget) refl)
  | inl nothing ↦
      (pos 0, rw (nothing, no_allocation now w t sound nothing, get_remaining_budget) refl)
]

-- What a call that began at the tables `t` has done: a completion has charged its cost, and anything
-- else has left the tables alone.
abbrev pub Charges : Tables → Completion × Store → Type 0
Charges t (completed cost left, s) =
    (t' : Tables) × (s ≡ clean t')
    × IsSound t'
    × (total_available t'.balances ≡ total_available t.balances +ℤ negate cost)
Charges t (budget_error e, s) = s ≡ clean t
Charges t (not_selected, s) = s ≡ clean t
Charges t (provider_error, s) = s ≡ clean t

read_remaining-Charges :
    (now : ℕ) (w : String) (cost : ℤ) (t : Tables) (r : Result BudgetEnforcer × Store)
    → Moves t (negate cost) r
    → Charges t (read_remaining now w cost r)
read_remaining-Charges now w cost t (ok e, s) (t', at, sound, total) =
    let (left, read) = get_remaining_budget-ok now w t' sound in
    let read_s : get_remaining_budget now s.tables w ≡ ok left =
      ap (λ d. get_remaining_budget now d.tables w) at ∙ read in
    rw (read_s, read_remaining) (t', at, sound, total)
read_remaining-Charges now w cost t (err e, s) at = at

-- the call with its two steps is a charge
call-charge :
    (lower : String → String) (now : ℕ) (q : Request) (s : ProviderSelection) (u : Usage)
    (r : Result BudgetEnforcer × Store)
    → call_provider lower now q s (some u) r
      ≡ read_remaining now q.worker_id (actual lower q s u) (
          then_do r (λ e. record_cost now e (actual lower q s u) (
            details_of q s
              (tokens_or (q.total_chars / 4) u.input_tokens)
              (tokens_or 0 u.output_tokens))))
call-charge lower now q s u (ok e, db) = refl
call-charge lower now q s u (err e, db) = refl

enter-store :
    (now : ℕ) (e : BudgetEnforcer) (db : Store)
    → (r : Result BudgetEnforcer) × (enter now e db ≡ (r, db))
unfolding enter
enter-store now e db =
    elim (Result-cases (enforce_budget now db.tables e.worker_id e.estimated_cost)) [
      | inl (why, refused) ↦ (err why, rw (refused, enter) refl)
      | inr (result, fine) ↦ (ok (record e { check_result = some result }), rw (fine, enter) refl)
    ]

failed-Charges :
    (lower : String → String) (now : ℕ) (q : Request) (s : ProviderSelection) (t : Tables)
    (r : Result BudgetEnforcer)
    → Charges t (call_provider lower now q s none (r, clean t))
failed-Charges lower now q s t (ok e) = refl
failed-Charges lower now q s t (err e) = refl

-- On sound tables, and while the database takes every write, a completion lowers what is available
-- by its cost and keeps the tables sound. If no provider is selected, the budget is short, or the
-- provider raises, the tables stay as they were.
pub complete_with_budget-Charges :
    (lower : String → String) (call : String → String → Option Usage) (now : ℕ)
    (r : ProviderRegistry) (q : Request) (t : Tables)
    → IsSound t
    → Charges t (complete_with_budget lower call now r q (clean t))
unfolding complete_with_budget charge
complete_with_budget-Charges lower call now r q t sound =
    by_selection
      (select_provider_for_worker r q.worker_cost q.worker_skills q.preferred_provider none) refl
  where
    by_selection :
        (choice : Selection ProviderSelection)
        → select_provider_for_worker r q.worker_cost q.worker_skills q.preferred_provider none
          ≡ choice
        → Charges t (complete_with_budget lower call now r q (clean t))
    by_selection value_error e = rw (e, complete_with_budget) refl
    by_selection (selection_error names) e = rw (e, complete_with_budget) refl
    by_selection (selected s) e = elim (Option-cases (call s.provider.name s.model.id)) [
      | inl raised ↦
          let (result, entered) =
            enter-store now (new_enforcer q.worker_id (estimated lower q s)) (clean t) in
          rw (e, raised, entered, complete_with_budget) (failed-Charges lower now q s t result)
      | inr (u, answer) ↦
          rw
            (
              e,
              answer,
              call-charge lower now q s u
                  (enter now (new_enforcer q.worker_id (estimated lower q s)) (clean t)),
              complete_with_budget,
            )
            (read_remaining-Charges now q.worker_id (actual lower q s u) t _ (
              charge-Moves now q.worker_id t sound (actual lower q s u)
                (details_of q s (tokens_or (q.total_chars / 4) u.input_tokens)
                  (tokens_or 0 u.output_tokens))
                (estimated lower q s)))
    ]
