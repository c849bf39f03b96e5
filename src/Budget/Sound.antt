-- ===== src/Budget/Sound.antt =====
-- What the tables of budgets keep to: each allocation has its balance, each balance is what its
-- columns leave, and none is overdrawn.
use quinn_ai.Prelude.{
  IsDistinct, ℕ, String, Bool, true, false, List, [], ◌∷◌, ◌++◌, Option, some, map, All, All-append,
  All-map, In, here, there, elem, any, ◌==◌, string_eq, ℤ, pos, ◌+ℤ◌, ◌≤ℤ◌, int_laws, ◌≡◌, refl,
  sym, ap, subst, ◌∙◌, inl, inr, arith, Option-cases, eq_iff,
}
use quinn_ai.Budget.Tables.{
  Slot, BudgetAllocation, BudgetBalance, BudgetTransaction, Tables, allocation_slot, balance_slot,
  current_row, get_current_allocation, get_worker_balance,
}
use quinn_ai.Budget.Writes.{has_worker, has_allocation, new_allocation, new_balance, update_balance}
use quinn_ai.Budget.After.{founded, posted}
use quinn_ai.Budget.Pools.{IsFunded, posted-IsFunded}
use quinn_ai.Budget.Checks.{current_allocation}
use quinn_ai.Budget.Current.{
  itself, slot_of, slot-current_row, current_row-In, current_allocation-query,
}
use quinn_ai.Budget.Rows.{
  IsBalanced, gain, update-gain, update-IsBalanced, ids, slots-on_transaction, All-on_transaction,
}

abbrev pub IsSolvent : BudgetBalance → Type 0
IsSolvent b = pos 0 ≤ℤ b.available

pub record IsSound (t : Tables) : Type 0 where
  pub paired : map balance_slot t.balances ≡ map allocation_slot t.allocations
  pub distinct : IsDistinct (ids (map balance_slot t.balances))
  pub owners : All (λ a. has_worker t a.slot.worker_id ≡ true) t.allocations
  pub balanced : All IsBalanced t.balances
  pub solvent : All IsSolvent t.balances
  pub funded : IsFunded t

map-append :
    {A B : Type 0} (f : A → B) (xs : List A) (a : A) → map f (xs ++ a ∷ []) ≡ map f xs ++ f a ∷ []
map-append f [] a = refl
map-append f (x ∷ xs) a = ap (λ r. f x ∷ r) (map-append f xs a)

-- Whether an id is among those of the rows is what the constraint of the primary key asks.
pub any-elem :
    (id : String) (rows : List BudgetAllocation)
    → any (λ a. a.slot.allocation_id == id) rows ≡ elem id (ids (map allocation_slot rows))
any-elem id [] = refl
any-elem id (a ∷ rows) =
    ground (arith, any-elem id rows, eq_iff a.slot.allocation_id id, eq_iff id a.slot.allocation_id)

elem_append :
    (id x : String) (xs : List String)
    → elem x xs ≡ false
    → (x == id) ≡ false
    → elem x (xs ++ id ∷ []) ≡ false
elem_append id x [] out other = ground (arith, other)
elem_append id x (y ∷ xs) out other = ground (arith, elem_append id x xs, out, other)

IsDistinct-append :
    (id : String) (xs : List String)
    → IsDistinct xs
    → elem id xs ≡ false
    → IsDistinct (xs ++ id ∷ [])
IsDistinct-append id [] d new = (refl, tt)
IsDistinct-append id (x ∷ xs) d new = (
  elem_append id x xs d.0 (ground (arith, new, eq_iff id x, eq_iff x id)),
  IsDistinct-append id xs d.1 (ground (arith, new)),
)

IsSolvent-after :
    (txn : BudgetTransaction) (rows : List BudgetBalance)
    → All IsBalanced rows
    → All IsSolvent rows
    → All
        (λ b.
          b.slot.allocation_id ≡ txn.allocation_id
          → pos 0 ≤ℤ b.available +ℤ gain txn.kind txn.amount)
        rows
    → All
        (λ b.
          IsSolvent b
          × (b.slot.allocation_id ≡ txn.allocation_id
              → IsSolvent (update_balance txn.kind txn.amount b)))
        rows
IsSolvent-after txn [] balanced solvent enough = tt
IsSolvent-after txn (b ∷ rows) balanced solvent enough = (
  (
    solvent.0,
    λ this.
        subst (λ x. pos 0 ≤ℤ x) (sym (update-gain txn.kind txn.amount b balanced.0))
          (enough.0 this),
  ),
  IsSolvent-after txn rows balanced.1 solvent.1 enough.1,
)

pub In-ids :
    (rows : List BudgetBalance) {b : BudgetBalance}
    → In b rows
    → elem b.slot.allocation_id (ids (map balance_slot rows)) ≡ true
In-ids [] i = elim i [ ]
In-ids (c ∷ rows) {b} (here e) =
    let same = ap (λ r. r.slot.allocation_id) e in
    ground (arith, same, eq_iff b.slot.allocation_id c.slot.allocation_id)
In-ids (c ∷ rows) (there i) = ground (arith, In-ids rows i)

strangers :
    (rows : List BudgetBalance) (b : BudgetBalance)
    → elem b.slot.allocation_id (ids (map balance_slot rows)) ≡ false
    → All (λ c. c.slot.allocation_id ≡ b.slot.allocation_id → c ≡ b) rows
strangers [] b out = tt
strangers (c ∷ rows) b out = (
  λ same. ground (arith, out, same, eq_iff b.slot.allocation_id c.slot.allocation_id),
  strangers rows b (ground (arith, out)),
)

-- Of distinct rows, one that has the id of another is that one.
pub row_unique :
    (rows : List BudgetBalance) {b : BudgetBalance}
    → IsDistinct (ids (map balance_slot rows))
    → In b rows
    → All (λ c. c.slot.allocation_id ≡ b.slot.allocation_id → c ≡ b) rows
row_unique [] d i = elim i [ ]
row_unique (c ∷ rows) {b} d (here e) = (
  λ _. sym e,
  strangers rows b
      (subst (λ r. elem r.slot.allocation_id (ids (map balance_slot rows)) ≡ false) (sym e) d.0),
)
row_unique (c ∷ rows) {b} d (there i) = (
  λ same.
      let stands = In-ids rows i in
      let out = subst (λ x. elem x (ids (map balance_slot rows)) ≡ false) same d.0 in
      ground (arith, stands, out),
  row_unique rows d.1 i,
)

module _ (t : Tables) (sound : IsSound t) where
  -- An allocation under a new id, with its empty balance, keeps the tables sound.
  pub founded-IsSound :
      (slot : Slot) (source pool : Option String) (amount : ℤ) (can : Bool) (limit : Option ℤ)
      → has_allocation t slot.allocation_id ≡ false
      → has_worker t slot.worker_id ≡ true
      → IsFunded (founded slot source pool amount can limit t)
      → IsSound (founded slot source pool amount can limit t)
  unfolding has_allocation
  founded-IsSound slot source pool amount can limit new known funds = record {
    paired =
        map-append balance_slot t.balances (new_balance slot (pos 0))
        ∙ ap (λ r. r ++ slot ∷ []) sound.paired
        ∙ sym (
            map-append allocation_slot t.allocations
              (new_allocation slot source pool amount can limit));
    distinct =
        subst (λ slots. IsDistinct (ids slots))
          (sym (map-append balance_slot t.balances (new_balance slot (pos 0))))
          (subst IsDistinct
            (sym (map-append (λ s. s.allocation_id) (map balance_slot t.balances) slot))
            (IsDistinct-append slot.allocation_id (ids (map balance_slot t.balances)) sound.distinct
              (ap (λ slots. elem slot.allocation_id (ids slots)) sound.paired
                ∙ sym (any-elem slot.allocation_id t.allocations)
                ∙ new)));
    owners =
        All-append (λ a. has_worker t a.slot.worker_id ≡ true) t.allocations _ sound.owners
          (known, tt);
    balanced = All-append IsBalanced t.balances _ sound.balanced (omega int_laws, tt);
    solvent = All-append IsSolvent t.balances _ sound.solvent (omega arith, tt);
    funded = funds;
  }

  -- A transaction that no balance of its allocation is too low for keeps the tables sound.
  pub posted-IsSound :
      (txn : BudgetTransaction)
      → All
          (λ b.
            b.slot.allocation_id ≡ txn.allocation_id
            → pos 0 ≤ℤ b.available +ℤ gain txn.kind txn.amount)
          t.balances
      → IsSound (posted txn t)
  posted-IsSound txn enough = record {
    paired = slots-on_transaction txn t.balances ∙ sound.paired;
    distinct =
        subst (λ slots. IsDistinct (ids slots)) (sym (slots-on_transaction txn t.balances))
          sound.distinct;
    owners = sound.owners;
    balanced = All-on_transaction txn IsBalanced t.balances (
        All-map t.balances (λ b p. (p, λ _. update-IsBalanced txn.kind txn.amount b))
          sound.balanced);
    solvent =
        All-on_transaction txn IsSolvent t.balances
          (IsSolvent-after txn t.balances sound.balanced sound.solvent enough);
    funded = posted-IsFunded txn t sound.funded;
  }

  -- The current balance of a worker belongs to the allocation that `_get_current_allocation` gives.
  pub current_balance :
      (now : ℕ) (w : String) {b : BudgetBalance}
      → get_worker_balance now t w ≡ some b
      → (a : BudgetAllocation) × (current_allocation now t w ≡ some a)
        × (a.slot ≡ b.slot)
        × In b t.balances
  unfolding get_worker_balance get_current_allocation
  current_balance now w {b} e =
      let same : slot_of allocation_slot (get_current_allocation now t w) ≡ some b.slot =
        slot-current_row allocation_slot now w t.allocations
        ∙ ap (λ slots. current_row itself now w slots) (sym sound.paired)
        ∙ sym (slot-current_row balance_slot now w t.balances)
        ∙ ap (slot_of balance_slot) e in
      elim (Option-cases (get_current_allocation now t w)) [
        | inl nothing ↦ ground (arith, same, nothing)
        | inr (a, found) ↦ (
          a,
          rw (current_allocation-query now t w, found) refl,
          ground (arith, same, found),
          (current_row-In balance_slot now w t.balances e).0,
        )
      ]
