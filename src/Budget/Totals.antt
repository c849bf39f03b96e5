-- ===== src/Budget/Totals.antt =====
-- The sum of what is available in the tables of budgets, and what each write makes of it.
use quinn_ai.Prelude.{
  String, Bool, true, List, [], ◌∷◌, ◌++◌, Option, map, All, All-map, In, here, there, elem, any,
  ◌==◌, string_eq, ℤ, pos, ◌+ℤ◌, ◌≤ℤ◌, negate, abs, int_laws, ◌≡◌, refl, sym, ap, subst, ◌∙◌, arith,
  eq_iff, eq_refl, if◌then◌else◌,
}
use quinn_ai.Budget.Tables.{
  Slot, BudgetAllocation, BudgetBalance, BudgetTransaction, Tables, balance_slot, allocation,
  transfer_out, transfer_in, adjustment, spend, refund,
}
use quinn_ai.Budget.Writes.{has_allocation, new_allocation, new_balance, is_positive}
use quinn_ai.Budget.Rows.{
  gain, total_available, ids, total-on_transaction, available_at, available-on_transaction,
}
use quinn_ai.Budget.After.{founded, posted}
use quinn_ai.Budget.Sound.{IsSound, any-elem, In-ids, row_unique}

pub total-append :
    (rows : List BudgetBalance) (slot : Slot)
    → total_available (rows ++ new_balance slot (pos 0) ∷ []) ≡ total_available rows
unfolding total_available
total-append [] slot = unfold ◌+ℤ◌ in refl
total-append (b ∷ rows) slot = ap (λ x. b.available +ℤ x) (total-append rows slot)

pub any_before :
    (id : String) (xs : List BudgetAllocation) (a : BudgetAllocation)
    → any (λ r. r.slot.allocation_id == id) xs ≡ true
    → any (λ r. r.slot.allocation_id == id) (xs ++ a ∷ []) ≡ true
any_before id [] a h = ground arith
any_before id (x ∷ xs) a h = ground (arith, any_before id xs a)

any_last :
    (xs : List BudgetAllocation) (a : BudgetAllocation)
    → any (λ r. r.slot.allocation_id == a.slot.allocation_id) (xs ++ a ∷ []) ≡ true
any_last [] a = rw (eq_refl a.slot.allocation_id) refl
any_last (x ∷ xs) a = ground (arith, any_last xs a)

module _ (slot : Slot) (source pool : Option String) (amount : ℤ) (can : Bool) (limit : Option ℤ)
    (t : Tables) where
  pub founded_new :
      has_allocation (founded slot source pool amount can limit t) slot.allocation_id ≡ true
  unfolding has_allocation
  founded_new = any_last t.allocations (new_allocation slot source pool amount can limit)

  pub founded_old :
      (id : String)
      → has_allocation t id ≡ true
      → has_allocation (founded slot source pool amount can limit t) id ≡ true
  unfolding has_allocation
  founded_old id = any_before id t.allocations (new_allocation slot source pool amount can limit)

module _ (t : Tables) (sound : IsSound t) where
  has_balance :
      (id : String)
      → has_allocation t id ≡ true
      → elem id (ids (map balance_slot t.balances)) ≡ true
  unfolding has_allocation
  has_balance id h =
      ap (λ slots. elem id (ids slots)) sound.paired ∙ sym (any-elem id t.allocations) ∙ h

  -- The allocation of a balance is there.
  pub has-In : {b : BudgetBalance} → In b t.balances → has_allocation t b.slot.allocation_id ≡ true
  unfolding has_allocation
  has-In {b} i =
      any-elem b.slot.allocation_id t.allocations
      ∙ ap (λ slots. elem b.slot.allocation_id (ids slots)) (sym sound.paired)
      ∙ In-ids t.balances i

  pub posted-total :
      (txn : BudgetTransaction)
      → has_allocation t txn.allocation_id ≡ true
      → total_available (posted txn t).balances
        ≡ total_available t.balances +ℤ gain txn.kind txn.amount
  posted-total txn h =
      total-on_transaction txn t.balances sound.distinct sound.balanced
        (has_balance txn.allocation_id h)

  -- A transaction is a gain of its allocation, and of no other.
  pub posted-available :
      (txn : BudgetTransaction) (id : String)
      → has_allocation t txn.allocation_id ≡ true
      → available_at id (posted txn t).balances
        ≡ available_at id t.balances
          +ℤ (if txn.allocation_id == id then gain txn.kind txn.amount else pos 0)
  posted-available txn id h =
      available-on_transaction txn id t.balances sound.balanced (has_balance txn.allocation_id h)

  -- A transaction that takes no more than one balance holds leaves every balance solvent.
  pub covers_debit :
      (id : String) (x : ℤ) {b : BudgetBalance}
      → In b t.balances
      → b.slot.allocation_id ≡ id
      → pos 0 ≤ℤ b.available +ℤ x
      → All (λ c. c.slot.allocation_id ≡ id → pos 0 ≤ℤ c.available +ℤ x) t.balances
  covers_debit id x {b} i e enough =
      All-map t.balances
        (λ c same at. subst (λ d. pos 0 ≤ℤ d.available +ℤ x) (sym (same (at ∙ sym e))) enough)
        (row_unique t.balances sound.distinct i)

  pub covers_credit :
      (id : String) (x : ℤ)
      → pos 0 ≤ℤ x
      → All (λ c. c.slot.allocation_id ≡ id → pos 0 ≤ℤ c.available +ℤ x) t.balances
  covers_credit id x more =
      All-map t.balances (λ c solvent _. omega (int_laws, solvent, more)) sound.solvent

-- What the transactions of the service and of the enforcer gain.
pub gain-transfer_out : (x : ℤ) → is_positive x ≡ true → gain transfer_out (negate x) ≡ negate x
gain-transfer_out x h = grind (int_laws, h)

pub gain-spend : (x : ℤ) → is_positive x ≡ true → gain spend (negate (abs x)) ≡ negate x
gain-spend x h = grind (int_laws, h)

pub gain-refund : (x : ℤ) → is_positive x ≡ true → gain refund x ≡ x
gain-refund x h = grind (int_laws, h)

-- Credits enter and leave at their own sign.
pub gain-allocated :
    (x : ℤ) → (gain allocation x ≡ x) × (gain transfer_in x ≡ x) × (gain adjustment x ≡ x)
gain-allocated x = (omega int_laws, omega int_laws, omega int_laws)

any_at :
    (id : String) (rows : List BudgetAllocation) {a : BudgetAllocation}
    → In a rows
    → a.slot.allocation_id ≡ id
    → any (λ r. r.slot.allocation_id == id) rows ≡ true
any_at id [] i e = elim i [ ]
any_at id (r ∷ rows) {a} (here same) e =
    let at_id = ap (λ x. x.slot.allocation_id) (sym same) ∙ e in
    ground (arith, at_id, eq_iff r.slot.allocation_id id)
any_at id (r ∷ rows) (there i) e = ground (arith, any_at id rows i e)

pub has_row :
    (t : Tables) {a : BudgetAllocation}
    → In a t.allocations
    → has_allocation t a.slot.allocation_id ≡ true
unfolding has_allocation
has_row t {a} i = any_at a.slot.allocation_id t.allocations i refl
