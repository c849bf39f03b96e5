-- ===== src/Budget/Pools.antt =====
-- The pools of credits, which `allocate_from_pool` of cli/core/budget/service.py draws on.
use quinn_ai.Prelude.{
  String, Bool, false, List, [], ◌∷◌, ◌++◌, Option, none, some, filter, ◌==◌, string_eq,
  if◌then◌else◌, ℤ, pos, ◌+ℤ◌, ◌-ℤ◌, ◌≤ℤ◌, ltb_ℤ, int_laws, ◌≡◌, refl, sym, subst, ◌∙◌, inl, inr,
  arith, Bool-cases, eq_iff, eq_refl,
}
use quinn_ai.Budget.Tables.{
  BudgetTransaction, Slot, BudgetAllocation, BudgetPool, Tables, is_from_pool, get_budget_pool,
  get_allocations_by_pool, get_pool_allocated_total, sum_allocated,
}
use quinn_ai.Budget.Writes.{new_allocation}
use quinn_ai.Budget.After.{founded, posted}
use quinn_ai.Budget.Approval.{InPool}

-- No more than its credits is allocated from a pool that is there.
abbrev pub IsWithin : Option BudgetPool → ℤ → Type 0
IsWithin none total = Unit
IsWithin (some p) total = total ≤ℤ p.total_credits

abbrev pub IsFunded : Tables → Type 0
IsFunded t = (id : String) → IsWithin (get_budget_pool t id) (get_pool_allocated_total t id)

room_left :
    (credits total amount : ℤ)
    → ltb_ℤ (credits -ℤ total) amount ≡ false
    → total +ℤ amount ≤ℤ credits
room_left credits total amount room =
    let covered : amount ≤ℤ credits -ℤ total = ground (arith, room) in omega (int_laws, covered)

sum-append :
    (rows : List BudgetAllocation) (a : BudgetAllocation) (id : String)
    → sum_allocated (filter (is_from_pool id) (rows ++ a ∷ []))
      ≡ sum_allocated (filter (is_from_pool id) rows)
        +ℤ (if is_from_pool id a then a.allocated_credits else pos 0)
unfolding sum_allocated
sum-append [] a id = elim (Bool-cases (is_from_pool id a)) [
  | inl this ↦ rw this (omega int_laws)
  | inr other ↦ rw other (omega int_laws)
]
sum-append (r ∷ rows) a id = elim (Bool-cases (is_from_pool id r)) [
  | inl this ↦ rw (this, sum-append rows a id) (omega int_laws)
  | inr other ↦ rw (other, sum-append rows a id) refl
]

module _ (slot : Slot) (source pool : Option String) (amount : ℤ) (can : Bool) (limit : Option ℤ)
    (t : Tables) where
  pub founded_total :
      (id : String)
      → get_pool_allocated_total (founded slot source pool amount can limit t) id
        ≡ get_pool_allocated_total t id
          +ℤ (if is_from_pool id (new_allocation slot source pool amount can limit)
              then amount
              else pos 0)
  unfolding get_pool_allocated_total get_allocations_by_pool
  founded_total id = sum-append t.allocations (new_allocation slot source pool amount can limit) id

-- An allocation from another worker takes nothing from a pool.
pub founded-IsFunded :
    (slot : Slot) (source : Option String) (amount : ℤ) (can : Bool) (limit : Option ℤ) (t : Tables)
    → IsFunded t
    → IsFunded (founded slot source none amount can limit t)
unfolding get_budget_pool
founded-IsFunded slot source amount can limit t funded id =
    subst (IsWithin (get_budget_pool t id))
      (sym (founded_total slot source none amount can limit t id ∙ omega int_laws)) (funded id)

IsWithin-room :
    (p : Option BudgetPool) (total amount : ℤ) {q : BudgetPool}
    → p ≡ some q
    → ltb_ℤ (q.total_credits -ℤ total) amount ≡ false
    → IsWithin p (total +ℤ amount)
IsWithin-room none total amount e room = ground arith
IsWithin-room (some p) total amount {q} e room =
    let this : p ≡ q = ground arith in
    subst (λ r. total +ℤ amount ≤ℤ r.total_credits) (sym this)
      (room_left q.total_credits total amount room)

-- One from a pool that has room for it leaves the pool within its credits.
pub drawn-IsFunded :
    (pool_id : String) (slot : Slot) (amount : ℤ) (can : Bool) (limit : Option ℤ) (t : Tables)
    (pool : BudgetPool)
    → InPool t pool_id amount pool
    → IsFunded t
    → IsFunded (founded slot none (some pool_id) amount can limit t)
unfolding get_budget_pool
drawn-IsFunded pool_id slot amount can limit t pool in_pool funded id =
    elim (Bool-cases (pool_id == id)) [
      | inr other ↦
          subst (IsWithin (get_budget_pool t id))
            (sym (
              founded_total slot none (some pool_id) amount can limit t id
              ∙ rw other (omega int_laws)))
            (funded id)
      | inl this ↦
          subst
            (λ x.
              IsWithin (get_budget_pool t x)
                (get_pool_allocated_total (founded slot none (some pool_id) amount can limit t) x))
            ((eq_iff pool_id id).0 this)
            (subst (IsWithin (get_budget_pool t pool_id))
              (sym (
                founded_total slot none (some pool_id) amount can limit t pool_id
                ∙ rw (eq_refl pool_id) refl))
              (IsWithin-room (get_budget_pool t pool_id) (get_pool_allocated_total t pool_id) amount
                in_pool.found in_pool.covered))
    ]

-- A transaction changes no allocation.
pub posted-IsFunded : (txn : BudgetTransaction) (t : Tables) → IsFunded t → IsFunded (posted txn t)
unfolding get_budget_pool get_pool_allocated_total get_allocations_by_pool
posted-IsFunded txn t funded id = funded id
