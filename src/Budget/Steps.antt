-- ===== src/Budget/Steps.antt =====
-- The writes of the budget on tables without an open transaction, while the database takes every
-- write.
use quinn_ai.Prelude.{
  String, Bool, true, false, not, ◌&&◌, List, [], ◌∷◌, ◌++◌, Option, none, some, map, elem, any,
  ◌==◌, string_eq, ℤ, pos, ◌+ℤ◌, ◌≡◌, refl, sym, ap, ◌∙◌, ◌⊎◌, inl, inr, arith, Bool-cases, eq_iff,
  eq_refl,
}
use quinn_ai.Budget.Tables.{
  Slot, BudgetAllocation, BudgetBalance, BudgetTransaction, Tables, balance_slot,
}
use quinn_ai.Budget.Action.{BudgetError, ok, err, Store, integrity_error, value_error, write}
use quinn_ai.Budget.Writes.{
  has_allocation, has_worker, has_source, is_covered, is_positive, is_good_limit, insert_allocation,
  new_allocation, create_budget_allocation, insert_balance, new_balance, create_budget_balance,
  insert_transaction, create_budget_transaction,
}
use quinn_ai.Budget.Service.{found_allocation}
use quinn_ai.Budget.Rows.{ids}
use quinn_ai.Budget.After.{founded, posted}
use quinn_ai.Budget.Sound.{IsSound, any-elem}

-- no open transaction, no fault to come
abbrev pub clean : Tables → Store
clean t = record { tables = t; committed = t; faults = [] }

pub write-some :
    (change : Tables → Option Tables) (t t' : Tables)
    → change t ≡ some t'
    → write change (clean t) ≡ (ok tt, clean t')
unfolding write
write-some change t t' e = rw e refl

pub write-none :
    (change : Tables → Option Tables) (t : Tables)
    → change t ≡ none
    → write change (clean t) ≡ (err integrity_error, clean t)
unfolding write
write-none change t e = rw e refl

-- A transaction whose allocation and worker are there is entered.
pub post :
    (txn : BudgetTransaction) (t : Tables)
    → has_allocation t txn.allocation_id ≡ true
    → has_worker t txn.worker_id ≡ true
    → create_budget_transaction txn (clean t) ≡ (ok txn, clean (posted txn t))
unfolding create_budget_transaction insert_transaction
post txn t a w =
    let e : insert_transaction txn t ≡ some (posted txn t) = rw (a, w, insert_transaction) refl in
    rw (write-some (insert_transaction txn) t (posted txn t) e, create_budget_transaction) refl

-- One that is not refused was entered.
pub post_cases :
    (txn : BudgetTransaction) (t : Tables)
    → ((e : BudgetError) × (create_budget_transaction txn (clean t) ≡ (err e, clean t)))
      ⊎ (create_budget_transaction txn (clean t) ≡ (ok txn, clean (posted txn t)))
unfolding create_budget_transaction insert_transaction
post_cases txn t =
    elim (Bool-cases (has_allocation t txn.allocation_id && has_worker t txn.worker_id)) [
      | inl fine ↦
          let e : insert_transaction txn t ≡ some (posted txn t) =
            rw (fine, insert_transaction) refl in
          inr (
            rw (write-some (insert_transaction txn) t (posted txn t) e, create_budget_transaction)
              refl)
      | inr bad ↦
          let e : insert_transaction txn t ≡ none = rw (bad, insert_transaction) refl in
          inl (
            integrity_error,
            rw (write-none (insert_transaction txn) t e, create_budget_transaction) refl,
          )
    ]

-- what `found_allocation` needs
pub record CanFound (slot : Slot) (source pool : Option String) (amount : ℤ) (limit : Option ℤ)
    (t : Tables) : Type 0 where
  pub positive : is_positive amount ≡ true
  pub good_limit : is_good_limit limit ≡ true
  pub new_id : has_allocation t slot.allocation_id ≡ false
  pub worker : has_worker t slot.worker_id ≡ true
  pub from : (can : Bool) → has_source t (new_allocation slot source pool amount can limit) ≡ true

module _ (slot : Slot) (source pool : Option String) (amount : ℤ) (can : Bool) (limit : Option ℤ)
    (t : Tables) where
  abbrev pub row : BudgetAllocation
  row = new_allocation slot source pool amount can limit

  abbrev pub with_row : Tables
  with_row = record t { allocations = t.allocations ++ row ∷ [] }

  insert-CanFound :
      is_positive amount ≡ true
      → is_good_limit limit ≡ true
      → (insert_allocation row t ≡ none)
        ⊎ (CanFound slot source pool amount limit t × (insert_allocation row t ≡ some with_row))
  unfolding insert_allocation
  insert-CanFound p l =
      elim (Bool-cases (
        not (has_allocation t slot.allocation_id)
        && has_worker t slot.worker_id
        && has_source t row
        && is_covered row)) [
          | inl fine ↦ inr (
            record {
              positive = p;
              good_limit = l;
              new_id = ground arith;
              worker = ground arith;
              from = λ can'. ground arith;
            },
            rw (fine, insert_allocation) refl,
          )
          | inr bad ↦ inl (rw (bad, insert_allocation) refl)
        ]

  -- What is needed is enough for the row to be taken.
  pub CanFound-insert :
      CanFound slot source pool amount limit t → insert_allocation row t ≡ some with_row
  unfolding insert_allocation
  CanFound-insert c =
      let up = c.positive in
      let covered : is_covered row ≡ true = unfold ◌+ℤ◌ in ground (arith, up) in
      rw (c.new_id, c.worker, c.from can, covered, insert_allocation) refl

  any_append :
      (xs : List BudgetAllocation)
      → any (λ a. a.slot.allocation_id == slot.allocation_id) (xs ++ row ∷ []) ≡ true
  any_append [] = rw (eq_refl slot.allocation_id) refl
  any_append (a ∷ xs) = ground (arith, any_append xs)

  any-balances :
      (rows : List BudgetBalance)
      → any (λ b. b.slot.allocation_id == slot.allocation_id) rows
        ≡ elem slot.allocation_id (ids (map balance_slot rows))
  any-balances [] = refl
  any-balances (b ∷ rows) = ground (
    arith,
    any-balances rows,
    eq_iff b.slot.allocation_id slot.allocation_id,
    eq_iff slot.allocation_id b.slot.allocation_id,
  )

  pub insert_balance-some :
      IsSound t
      → CanFound slot source pool amount limit t
      → insert_balance (new_balance slot (pos 0)) with_row
        ≡ some (founded slot source pool amount can limit t)
  unfolding insert_balance has_allocation
  insert_balance-some sound can_found =
      let free =
        any-balances t.balances
        ∙ ap (λ slots. elem slot.allocation_id (ids slots)) sound.paired
        ∙ sym (any-elem slot.allocation_id t.allocations)
        ∙ can_found.new_id in
      rw (free, any_append t.allocations, can_found.worker, insert_balance) refl

  -- An allocation is founded whole, or refused with the tables as they were.
  pub found_cases :
      IsSound t
      → ((e : BudgetError) × (found_allocation slot source pool amount can limit (clean t)
            ≡ (err e, clean t)))
        ⊎ (CanFound slot source pool amount limit t
            × (found_allocation slot source pool amount can limit (clean t)
                ≡ (ok tt, clean (founded slot source pool amount can limit t))))
  unfolding found_allocation create_budget_allocation create_budget_balance
  found_cases sound = elim (Bool-cases (is_positive amount)) [
    | inr not_positive ↦
        inl (value_error, rw (not_positive, found_allocation, create_budget_allocation) refl)
    | inl positive ↦ elim (Bool-cases (is_good_limit limit)) [
      | inr bad_limit ↦
          inl
            (value_error, rw (positive, bad_limit, found_allocation, create_budget_allocation) refl)
      | inl good_limit ↦ elim (insert-CanFound positive good_limit) [
        | inl refused ↦ inl (
          integrity_error,
          rw
              (
                positive,
                good_limit,
                write-none (insert_allocation row) t refused,
                found_allocation,
                create_budget_allocation,
              )
              refl,
        )
        | inr (can_found, e) ↦ inr (
          can_found,
          rw
              (
                positive,
                good_limit,
                write-some (insert_allocation row) t with_row e,
                write-some (insert_balance (new_balance slot (pos 0))) with_row
                    (founded slot source pool amount can limit t)
                    (insert_balance-some sound can_found),
                found_allocation,
                create_budget_allocation,
              )
              refl,
        )
      ]
    ]
  ]
