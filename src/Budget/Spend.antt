-- ===== src/Budget/Spend.antt =====
-- `record_spend` and `BudgetEnforcer` of cli/core/budget/enforcer.py.
use quinn_ai.Prelude.{
  ℕ, String, true, none, some, if◌then◌else◌, ℤ, pos, ◌+ℤ◌, ◌-ℤ◌, ◌≤ℤ◌, negate, abs, leb_ℤ,
  int_laws, ◌≡◌, refl, sym, ap, subst, ◌∙◌, ◌⊎◌, All-get, In, inl, inr, arith, Bool-cases,
  Option-cases,
}
use quinn_ai.Budget.Tables.{
  BudgetBalance, Details, spend, Tables, get_worker_balance, get_current_allocation, current_row,
  allocation_slot, balance_slot,
}
use quinn_ai.Budget.Action.{Action, ok, err, ◌>>=◌, budget_exhausted, no_budget_allocation}
use quinn_ai.Budget.Writes.{is_positive, has_worker}
use quinn_ai.Budget.Enforcer.{
  BudgetCheckResult, BudgetEnforcer, new_enforcer, spending, funds, check_budget, enforce_budget,
  check_spend, record_spend, enter, record_cost,
}
use quinn_ai.Budget.Rows.{gain, total_available}
use quinn_ai.Budget.After.{posted}
use quinn_ai.Budget.Sound.{IsSound, posted-IsSound, current_balance}
use quinn_ai.Budget.Steps.{clean, post}
use quinn_ai.Budget.Totals.{has-In, posted-total, covers_debit, gain-spend}
use quinn_ai.Budget.Current.{itself, slot_of, slot-current_row, current_allocation-In}
use quinn_ai.Budget.Moves.{Moves, Moves-pure, Result-cases}

-- `with BudgetEnforcer(...) as enforcer: ...; enforcer.record(...)` in one reading of the clock
unfoldable pub charge : ℕ → String → ℤ → ℤ → Details → Action BudgetEnforcer
unfolding enter record_cost
charge now worker_id estimated_cost actual_cost details = do
  entered ← enter now (new_enforcer worker_id estimated_cost)
  record_cost now entered actual_cost details

module _ (now : ℕ) (w : String) (t : Tables) (sound : IsSound t) where
  pub no_allocation : get_worker_balance now t w ≡ none → get_current_allocation now t w ≡ none
  unfolding get_worker_balance get_current_allocation
  no_allocation e =
      let same : slot_of allocation_slot (get_current_allocation now t w) ≡ none =
        slot-current_row allocation_slot now w t.allocations
        ∙ ap (λ slots. current_row itself now w slots) (sym sound.paired)
        ∙ sym (slot-current_row balance_slot now w t.balances)
        ∙ ap (slot_of balance_slot) e in
      elim (Option-cases (get_current_allocation now t w)) [
        | inl nothing ↦ nothing
        | inr (a, found) ↦ ground (arith, same, found)
      ]

  -- A worker spends from its current balance, or has none to spend from.
  funds_cases :
      (funds now t w ≡ err no_budget_allocation)
      ⊎ ((b : BudgetBalance) × (get_worker_balance now t w ≡ some b)
          × (funds now t w ≡ ok (b.slot.allocation_id, b.available)))
  unfolding funds
  funds_cases = elim (Option-cases (get_worker_balance now t w)) [
    | inl nothing ↦ inl (rw (nothing, no_allocation nothing, funds) refl)
    | inr (b, found) ↦ inr (b, found, rw (found, funds) refl)
  ]

  pub known_worker :
      {b : BudgetBalance} → get_worker_balance now t w ≡ some b → has_worker t w ≡ true
  known_worker e =
      let (a, found, _, _) = current_balance t sound now w e in
      let (i, of_w) = current_allocation-In now t w found in
      subst (λ x. has_worker t x ≡ true) of_w
        (All-get (λ r. has_worker t r.slot.worker_id ≡ true) t.allocations sound.owners i)

  module _ (amount : ℤ) (details : Details) where
    abbrev pub spent_from : String → Tables
    spent_from id = posted (spending id w (negate (abs amount)) details) t

    spent-IsSound :
        {b : BudgetBalance}
        → In b t.balances
        → is_positive amount ≡ true
        → amount ≤ℤ b.available
        → IsSound (spent_from b.slot.allocation_id)
          × (total_available (spent_from b.slot.allocation_id).balances
              ≡ total_available t.balances +ℤ negate amount)
    spent-IsSound {b} i positive enough =
        let gains = gain-spend amount positive in
        let id = b.slot.allocation_id in
        let txn = spending id w (negate (abs amount)) details in
        let left : pos 0 ≤ℤ b.available +ℤ gain spend (negate (abs amount)) =
          rw gains (omega (int_laws, enough)) in
        (
          posted-IsSound t sound txn
              (covers_debit t sound id (gain spend (negate (abs amount))) i refl left),
          posted-total t sound txn (has-In t sound i) ∙ rw gains refl,
        )

    spend_fine :
        {b : BudgetBalance} {u : Unit {0}}
        → get_worker_balance now t w ≡ some b
        → check_spend now t w amount ≡ ok u
        → (is_positive amount ≡ true) × (amount ≤ℤ b.available)
    unfolding check_spend funds
    spend_fine e fine = ground arith

    -- `record_spend` on the allocation that the worker's current balance belongs to either raises and
    -- leaves the tables as they were, or it keeps them sound and lowers what is available by the
    -- amount.
    pub record_spend-Moves :
        {b : BudgetBalance}
        → get_worker_balance now t w ≡ some b
        → Moves t (negate amount) (record_spend now w b.slot.allocation_id amount details (clean t))
    unfolding record_spend
    record_spend-Moves {b} e =
        let id = b.slot.allocation_id in
        let txn = spending id w (negate (abs amount)) details in
        let (a, found, same, i) = current_balance t sound now w e in
        elim (Result-cases (check_spend now t w amount)) [
          | inl (why, refused) ↦ rw (refused, record_spend) refl
          | inr (_, fine) ↦
              let (positive, enough) = spend_fine e fine in
              let (fits, total) = spent-IsSound i positive enough in
              rw (fine, post txn t (has-In t sound i) (known_worker e), record_spend)
                (spent_from id, refl, fits, total)
        ]

    abbrev approval : ℤ → BudgetBalance → BudgetCheckResult
    approval estimate b = record {
      allowed = true;
      worker_id = w;
      allocation_id = b.slot.allocation_id;
      available = b.available;
      required = estimate;
      remaining_after = b.available -ℤ estimate;
    }

    enforce-funded :
        (estimate : ℤ) {b : BudgetBalance}
        → get_worker_balance now t w ≡ some b
        → enforce_budget now t w estimate ≡ (
            if leb_ℤ estimate b.available
            then ok (approval estimate b)
            else err (budget_exhausted estimate b.available))
    unfolding enforce_budget check_budget funds
    enforce-funded estimate {b} e = elim (Bool-cases (leb_ℤ estimate b.available)) [
      | inl enough ↦ rw (e, enough, enforce_budget) refl
      | inr short ↦ rw (e, short, enforce_budget) refl
    ]

    enforce-none :
        (estimate : ℤ)
        → funds now t w ≡ err no_budget_allocation
        → enforce_budget now t w estimate ≡ err no_budget_allocation
    unfolding enforce_budget check_budget
    enforce-none estimate e = rw (e, enforce_budget) refl

    abbrev recorded_as : ℤ → BudgetBalance → BudgetEnforcer
    recorded_as estimate b = record {
      worker_id = w;
      estimated_cost = estimate;
      check_result = some (approval estimate b);
      recorded = true;
    }

    -- A provider call with `BudgetEnforcer` either raises and leaves the tables as they were, or it
    -- keeps them sound and lowers what is available by its actual cost.
    pub charge-Moves :
        (estimate : ℤ) → Moves t (negate amount) (charge now w estimate amount details (clean t))
    unfolding charge enter record_cost
    charge-Moves estimate = elim funds_cases [
      | inl unfunded ↦ rw (enforce-none estimate unfunded, charge) refl
      | inr (b, e, _) ↦ elim (Bool-cases (leb_ℤ estimate b.available)) [
        | inr short ↦ rw (enforce-funded estimate e, short, charge) refl
        | inl enough ↦
            rw (enforce-funded estimate e, enough, charge)
              (Moves-pure t (negate amount) _ (λ _. recorded_as estimate b) (record_spend-Moves e))
      ]
    ]
