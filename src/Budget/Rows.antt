-- ===== src/Budget/Rows.antt =====
-- What a transaction does to the rows of budget_balances: the trigger of cli/core/db/schema.py.
use quinn_ai.Prelude.{
  +ℤ_swap, +ℤ_shift, ℤ_columns, String, true, false, List, [], ◌∷◌, map, All, elem, IsDistinct,
  ◌==◌, string_eq, if◌then◌else◌, ℤ, pos, ◌+ℤ◌, ◌-ℤ◌, int_laws, ◌≡◌, refl, ◌∙◌, subst, inl, inr,
  arith, Bool-cases, eq_iff,
}
use quinn_ai.Budget.Tables.{Slot, BudgetBalance, TransactionType, BudgetTransaction, balance_slot}
use quinn_ai.Budget.Writes.{
  more_spent, more_reserved, more_delegated, more_allocated, update_balance, on_transaction,
}

-- The column `available` is what the other columns leave.
abbrev pub IsBalanced : BudgetBalance → Type 0
IsBalanced b = b.available ≡ b.allocated -ℤ b.spent -ℤ b.reserved -ℤ b.delegated

-- by how much a transaction raises `available`
abbrev pub gain : TransactionType → ℤ → ℤ
gain kind x =
    more_allocated kind x -ℤ more_spent kind x -ℤ more_reserved kind x -ℤ more_delegated kind x

pub update-gain :
    (kind : TransactionType) (x : ℤ) (b : BudgetBalance)
    → IsBalanced b
    → (update_balance kind x b).available ≡ b.available +ℤ gain kind x
unfolding update_balance
update-gain kind x b h =
    ℤ_columns b.allocated b.spent b.reserved b.delegated b.available (more_allocated kind x)
      (more_spent kind x) (more_reserved kind x) (more_delegated kind x) h

pub update-IsBalanced :
    (kind : TransactionType) (x : ℤ) (b : BudgetBalance) → IsBalanced (update_balance kind x b)
unfolding update_balance
update-IsBalanced kind x b = refl

-- `available` summed over the rows
unfoldable pub total_available : List BudgetBalance → ℤ
total_available [] = pos 0
total_available (b ∷ rows) = b.available +ℤ total_available rows

-- `available` of the row with this id, and nothing where there is none
unfoldable pub available_at : String → List BudgetBalance → ℤ
available_at id [] = pos 0
available_at id (b ∷ rows) =
    let rest = available_at id rows in if b.slot.allocation_id == id then b.available else rest

-- the ids of the rows
abbrev pub ids : List Slot → List String
ids slots = map (λ s. s.allocation_id) slots

module _ (txn : BudgetTransaction) where
  abbrev hit : BudgetBalance → BudgetBalance
  hit b =
      if b.slot.allocation_id == txn.allocation_id then update_balance txn.kind txn.amount b else b

  pub slots-on_transaction :
      (rows : List BudgetBalance)
      → map balance_slot (on_transaction txn rows) ≡ map balance_slot rows
  unfolding on_transaction update_balance
  slots-on_transaction [] = refl
  slots-on_transaction (b ∷ rows) = elim (Bool-cases (b.slot.allocation_id == txn.allocation_id)) [
    | inl this ↦ rw (this, slots-on_transaction rows) refl
    | inr other ↦ rw (other, slots-on_transaction rows) refl
  ]

  pub All-on_transaction :
      (P : BudgetBalance → Type 0) (rows : List BudgetBalance)
      → All
          (λ b.
            P b
            × (b.slot.allocation_id ≡ txn.allocation_id → P (update_balance txn.kind txn.amount b)))
          rows
      → All P (on_transaction txn rows)
  unfolding on_transaction
  All-on_transaction P [] ps = tt
  All-on_transaction P (b ∷ rows) ps =
      elim (Bool-cases (b.slot.allocation_id == txn.allocation_id)) [
        | inl this ↦ rw this (
          ps.0.1 ((eq_iff b.slot.allocation_id txn.allocation_id).0 this),
          All-on_transaction P rows ps.1,
        )
        | inr other ↦ rw other (ps.0.0, All-on_transaction P rows ps.1)
      ]

  -- A transaction of an allocation that is not there changes no balance.
  pub total-untouched :
      (rows : List BudgetBalance)
      → elem txn.allocation_id (ids (map balance_slot rows)) ≡ false
      → total_available (on_transaction txn rows) ≡ total_available rows
  unfolding on_transaction total_available
  total-untouched [] h = refl
  total-untouched (b ∷ rows) h = elim (Bool-cases (b.slot.allocation_id == txn.allocation_id)) [
    | inl this ↦ ground (
      arith,
      eq_iff b.slot.allocation_id txn.allocation_id,
      eq_iff txn.allocation_id b.slot.allocation_id,
      h,
    )
    | inr other ↦ rw (other, total-untouched rows (ground (arith, h))) refl
  ]

  -- One that is there, and balanced, gains by the transaction, and so does the total.
  pub total-on_transaction :
      (rows : List BudgetBalance)
      → IsDistinct (ids (map balance_slot rows))
      → All IsBalanced rows
      → elem txn.allocation_id (ids (map balance_slot rows)) ≡ true
      → total_available (on_transaction txn rows) ≡ total_available rows +ℤ gain txn.kind txn.amount
  unfolding on_transaction total_available
  total-on_transaction [] d h i = ground arith
  total-on_transaction (b ∷ rows) d h i =
      elim (Bool-cases (b.slot.allocation_id == txn.allocation_id)) [
        | inl this ↦
            let e = (eq_iff b.slot.allocation_id txn.allocation_id).0 this in
            let rest =
              total-untouched rows
                (subst (λ x. elem x (ids (map balance_slot rows)) ≡ false) e d.0) in
            rw (this, rest, update-gain txn.kind txn.amount b h.0)
              (+ℤ_swap b.available (gain txn.kind txn.amount) (total_available rows))
        | inr other ↦
            let j : elem txn.allocation_id (ids (map balance_slot rows)) ≡ true = ground (
              arith,
              i,
              eq_iff b.slot.allocation_id txn.allocation_id,
              eq_iff txn.allocation_id b.slot.allocation_id,
            ) in
            rw (other, total-on_transaction rows d.1 h.1 j)
              (+ℤ_shift b.available (total_available rows) (gain txn.kind txn.amount))
      ]

  hit-slot : (b : BudgetBalance) → (hit b).slot ≡ b.slot
  unfolding update_balance
  hit-slot b = elim (Bool-cases (b.slot.allocation_id == txn.allocation_id)) [
    | inl this ↦ rw this refl
    | inr other ↦ rw other refl
  ]

  -- Elsewhere nothing is gained.
  available-elsewhere :
      (id : String) (rows : List BudgetBalance)
      → (txn.allocation_id == id) ≡ false
      → available_at id (on_transaction txn rows) ≡ available_at id rows
  unfolding on_transaction available_at
  available-elsewhere id [] differs = refl
  available-elsewhere id (b ∷ rows) differs = elim (Bool-cases (b.slot.allocation_id == id)) [
    | inl at ↦
        let other : (b.slot.allocation_id == txn.allocation_id) ≡ false = ground (
          arith,
          at,
          differs,
          eq_iff b.slot.allocation_id id,
          eq_iff b.slot.allocation_id txn.allocation_id,
          eq_iff txn.allocation_id id,
        ) in
        rw (other, at) refl
    | inr not_at ↦ rw (hit-slot b, not_at, available-elsewhere id rows differs) refl
  ]

  -- Of the rows, the one of the transaction's allocation gains, and no other.
  pub available-on_transaction :
      (id : String) (rows : List BudgetBalance)
      → All IsBalanced rows
      → elem txn.allocation_id (ids (map balance_slot rows)) ≡ true
      → available_at id (on_transaction txn rows)
        ≡ available_at id rows
          +ℤ (if txn.allocation_id == id then gain txn.kind txn.amount else pos 0)
  unfolding on_transaction available_at
  available-on_transaction id [] h i = ground arith
  available-on_transaction id (b ∷ rows) h i = elim (Bool-cases (txn.allocation_id == id)) [
    | inr differs ↦ rw differs (available-elsewhere id (b ∷ rows) differs ∙ omega int_laws)
    | inl this ↦ elim (Bool-cases (b.slot.allocation_id == id)) [
      | inl at ↦
          let hits : (b.slot.allocation_id == txn.allocation_id) ≡ true = ground (
            arith,
            at,
            this,
            eq_iff b.slot.allocation_id id,
            eq_iff b.slot.allocation_id txn.allocation_id,
            eq_iff txn.allocation_id id,
          ) in
          rw (this, hit-slot b, at, hits) (update-gain txn.kind txn.amount b h.0)
      | inr not_at ↦
          let later : elem txn.allocation_id (ids (map balance_slot rows)) ≡ true = ground (
            arith,
            i,
            not_at,
            this,
            eq_iff b.slot.allocation_id id,
            eq_iff txn.allocation_id b.slot.allocation_id,
            eq_iff txn.allocation_id id,
          ) in
          let rest : available_at id (on_transaction txn rows)
              ≡ available_at id rows +ℤ gain txn.kind txn.amount =
            available-on_transaction id rows h.1 later ∙ rw this refl in
          rw (this, hit-slot b, not_at) rest
    ]
  ]
