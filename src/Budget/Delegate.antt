-- ===== src/Budget/Delegate.antt =====
-- `delegate_budget` of cli/core/budget/service.py: it passes credits on whole, or leaves the tables
-- as they were.
use quinn_ai.Prelude.{
  ℕ, String, Bool, true, List, [], ◌∷◌, ◌++◌, none, some, In, here, there, string_eq, ℤ, pos, ◌+ℤ◌,
  ◌≤ℤ◌, negate, int_laws, ◌≡◌, refl, sym, ap, subst, ◌∙◌, ◌⊎◌, inl, inr, arith,
}
use Prim.Native.String.{◌++◌ as str_append}
use quinn_ai.Budget.Tables.{
  Slot, BudgetAllocation, BudgetBalance, BudgetTransaction, Tables, get_worker_balance,
  is_worker_manager, transfer_out, transfer_in,
}
use quinn_ai.Budget.Action.{BudgetError, ok, err, transaction}
use quinn_ai.Budget.Writes.{is_positive, has_allocation, new_balance}
use quinn_ai.Budget.Checks.{can_pay, check_delegation}
use quinn_ai.Budget.Service.{movement, slot_from, pass_on, delegate_budget}
use quinn_ai.Budget.Rows.{gain, total_available}
use quinn_ai.Budget.After.{founded, posted}
use quinn_ai.Budget.Sound.{IsSound, founded-IsSound, posted-IsSound, current_balance}
use quinn_ai.Budget.Steps.{clean, post, CanFound, found_cases}
use quinn_ai.Budget.Totals.{
  founded_new, founded_old, has-In, posted-total, covers_debit, covers_credit, total-append,
  gain-transfer_out, gain-allocated,
}
use quinn_ai.Budget.Pools.{founded-IsFunded}
use quinn_ai.Budget.Moves.{Moves, Result-cases}
use quinn_ai.Budget.Approval.{Approved, check-Approved}

In-append :
    (rows : List BudgetBalance) (c : BudgetBalance) {b : BudgetBalance}
    → In b rows
    → In b (rows ++ c ∷ [])
In-append [] c i = elim i [ ]
In-append (x ∷ rows) c (here e) = here e
In-append (x ∷ rows) c (there i) = there (In-append rows c i)

cancel_transfer :
    (x amount : ℤ)
    → is_positive amount ≡ true
    → x +ℤ gain transfer_out (negate amount) +ℤ gain transfer_in amount ≡ x +ℤ pos 0
cancel_transfer x amount positive =
    rw (gain-transfer_out amount positive, (gain-allocated amount).1) (omega int_laws)

debit_fits :
    (v amount : ℤ)
    → is_positive amount ≡ true
    → amount ≤ℤ v
    → pos 0 ≤ℤ v +ℤ gain transfer_out (negate amount)
debit_fits v amount positive enough =
    rw (gain-transfer_out amount positive) (omega (int_laws, enough))

module _ (now : ℕ) (id source target : String) (amount : ℤ) (system : Bool) (t : Tables)
    (a : BudgetAllocation) (can : Bool) where
  abbrev new_slot : Slot
  new_slot = slot_from id target a

  abbrev pub with_target : Tables
  with_target = founded new_slot (some source) none amount can a.delegation_limit t

  abbrev pub out : BudgetTransaction
  out =
      movement a.slot.allocation_id source transfer_out (negate amount)
        (str_append "Delegated to " target)

  abbrev pub into : BudgetTransaction
  into = movement id target transfer_in amount (str_append "Received from " source)

  abbrev passed_on : Tables
  passed_on = posted into (posted out with_target)

  passed_on-IsSound :
      IsSound t
      → Approved now t source target amount system a
      → CanFound new_slot (some source) none amount a.delegation_limit t
      → {b : BudgetBalance} → In b t.balances
      → b.slot.allocation_id ≡ a.slot.allocation_id
      → amount ≤ℤ b.available
      → IsSound passed_on
        × (total_available passed_on.balances ≡ total_available t.balances +ℤ pos 0)
  unfolding has_allocation
  passed_on-IsSound sound ok_to can_found {b} i at_a enough =
      let fits =
        founded-IsSound t sound new_slot (some source) none amount can a.delegation_limit
          can_found.new_id can_found.worker
          (founded-IsFunded new_slot (some source) amount can a.delegation_limit t sound.funded) in
      let known : has_allocation t a.slot.allocation_id ≡ true =
        subst (λ x. has_allocation t x ≡ true) at_a (has-In t sound i) in
      let fits_out = posted-IsSound with_target fits out (
        covers_debit with_target fits a.slot.allocation_id (gain transfer_out (negate amount))
          (In-append t.balances (new_balance new_slot (pos 0)) i) at_a
          (debit_fits b.available amount ok_to.positive enough)) in
      let credit : pos 0 ≤ℤ gain transfer_in amount =
        let positive = ok_to.positive in rw (gain-allocated amount).1 (ground (arith, positive)) in
      let fits_in =
        posted-IsSound (posted out with_target) fits_out into
          (covers_credit (posted out with_target) fits_out id (gain transfer_in amount) credit) in
      let old =
        founded_old new_slot (some source) none amount can a.delegation_limit t a.slot.allocation_id
          known in
      let new = founded_new new_slot (some source) none amount can a.delegation_limit t in
      (
        fits_in,
        posted-total (posted out with_target) fits_out into new
            ∙ ap (λ x. x +ℤ gain transfer_in amount)
                (posted-total with_target fits out old
                  ∙ ap (λ x. x +ℤ gain transfer_out (negate amount))
                      (total-append t.balances new_slot))
            ∙ cancel_transfer (total_available t.balances) amount ok_to.positive,
      )

  -- the balance that the approval read is the one of the allocation
  pub source_row :
      IsSound t
      → (ok_to : Approved now t source target amount system a)
      → In ok_to.balance t.balances × (ok_to.balance.slot.allocation_id ≡ a.slot.allocation_id)
  source_row sound ok_to =
      let (a', found, same, i) = current_balance t sound now source ok_to.has_balance in
      let this : a' ≡ a = ground (arith, found, ok_to.found) in
      (i, ap (λ s. s.allocation_id) (sym same) ∙ ap (λ r. r.slot.allocation_id) this)

  pass_on_cases :
      IsSound t
      → Approved now t source target amount system a
      → ((e : BudgetError) × (transaction (pass_on now id source target amount can a) (clean t)
            ≡ (err e, clean t)))
        ⊎ (CanFound new_slot (some source) none amount a.delegation_limit t
            × (transaction (pass_on now id source target amount can a) (clean t)
                ≡ (ok tt, clean passed_on)))
  unfolding pass_on transaction
  pass_on_cases sound ok_to =
      let (i, at_a) = source_row sound ok_to in
      let pays : can_pay (get_worker_balance now t source) amount ≡ true =
        rw (ok_to.has_balance, ok_to.covered) refl in
      elim (found_cases new_slot (some source) none amount can a.delegation_limit t sound) [
        | inl (e, refused) ↦ inl (e, rw (pays, refused, transaction, pass_on) refl)
        | inr (can_found, done) ↦
            let known : has_allocation t a.slot.allocation_id ≡ true =
              subst (λ x. has_allocation t x ≡ true) at_a (has-In t sound i) in
            let debit =
              post out with_target
                (founded_old new_slot (some source) none amount can a.delegation_limit t
                  a.slot.allocation_id known)
                (can_found.from can) in
            let credit =
              post into (posted out with_target)
                (founded_new new_slot (some source) none amount can a.delegation_limit t)
                can_found.worker in
            inr (can_found, rw (pays, done, debit, credit, transaction, pass_on) refl)
      ]

module _ (now : ℕ) (id source target : String) (amount : ℤ) (system : Bool) (t : Tables)
    (sound : IsSound t) where
  -- the tables behind a delegation from the allocation `a`
  abbrev pub after_delegation : BudgetAllocation → Tables
  after_delegation a = passed_on now id source target amount system t a (is_worker_manager t target)

  -- A delegation is refused whole, or made whole.
  pub delegate_cases :
      ((e : BudgetError) × (delegate_budget now id source target amount system (clean t)
          ≡ (err e, clean t)))
      ⊎ ((a : BudgetAllocation) × Approved now t source target amount system a
          × CanFound (slot_from id target a) (some source) none amount a.delegation_limit t
          × (delegate_budget now id source target amount system (clean t)
              ≡ (ok id, clean (after_delegation a))))
  unfolding delegate_budget
  delegate_cases = elim (Result-cases (check_delegation now t source target amount system)) [
    | inl (e, refused) ↦ inl (e, rw (refused, delegate_budget) refl)
    | inr (a, approved) ↦
        let ok_to = check-Approved now t source target amount system approved in
        elim (pass_on_cases now id source target amount system t a (is_worker_manager t target)
          sound ok_to) [
            | inl (e, refused) ↦ inl (e, rw (approved, refused, delegate_budget) refl)
            | inr (can_found, done) ↦
                inr (a, ok_to, can_found, rw (approved, done, delegate_budget) refl)
          ]
  ]

  -- `delegate_budget` either raises and leaves the tables as they were, or it keeps them sound and
  -- what is available in all of them together.
  pub delegate_budget-Moves :
      Moves t (pos 0) (delegate_budget now id source target amount system (clean t))
  delegate_budget-Moves = elim delegate_cases [
    | inl (e, refused) ↦ rw refused refl
    | inr (a, ok_to, can_found, done) ↦
        let can = is_worker_manager t target in
        let (i, at_a) = source_row now id source target amount system t a can sound ok_to in
        let enough = ok_to.covered in
        let (fits, total) =
          passed_on-IsSound now id source target amount system t a can sound ok_to can_found i at_a
            (ground (arith, enough)) in
        rw done (after_delegation a, refl, fits, total)
  ]
