-- ===== src/Budget/Allocate.antt =====
-- `allocate_from_pool` of cli/core/budget/service.py.
use quinn_ai.Prelude.{
  String, Bool, Option, none, some, string_eq, ℤ, pos, ◌+ℤ◌, ◌≤ℤ◌, ◌≡◌, refl, ◌∙◌, inl, inr, arith,
}
use Prim.Native.String.{◌++◌ as str_append}
use quinn_ai.Budget.Tables.{Slot, BudgetPool, BudgetTransaction, Tables, allocation}
use quinn_ai.Budget.Action.{transaction}
use quinn_ai.Budget.Checks.{check_pool, enough_in_pool}
use quinn_ai.Budget.Service.{movement, fund_from_pool, allocate_from_pool}
use quinn_ai.Budget.Rows.{gain, total_available}
use quinn_ai.Budget.After.{founded, posted}
use quinn_ai.Budget.Sound.{IsSound, founded-IsSound, posted-IsSound}
use quinn_ai.Budget.Steps.{clean, post, CanFound, found_cases}
use quinn_ai.Budget.Totals.{founded_new, posted-total, covers_credit, total-append, gain-allocated}
use quinn_ai.Budget.Pools.{drawn-IsFunded}
use quinn_ai.Budget.Moves.{Moves, Moves-pure, Result-cases}
use quinn_ai.Budget.Approval.{InPool, check-InPool}

module _ (pool_id : String) (slot : Slot) (amount : ℤ) (can : Bool) (limit : Option ℤ)
    (t : Tables) where
  abbrev pub initial : BudgetTransaction
  initial =
      movement slot.allocation_id slot.worker_id allocation amount
        (str_append "Initial allocation from pool " pool_id)

  abbrev pub with_funds : Tables
  with_funds = posted initial (founded slot none (some pool_id) amount can limit t)

  with_funds-IsSound :
      (pool : BudgetPool)
      → IsSound t
      → InPool t pool_id amount pool
      → CanFound slot none (some pool_id) amount limit t
      → IsSound with_funds
        × (total_available with_funds.balances ≡ total_available t.balances +ℤ amount)
  with_funds-IsSound pool sound in_pool can_found =
      let empty = founded slot none (some pool_id) amount can limit t in
      let fits =
        founded-IsSound t sound slot none (some pool_id) amount can limit can_found.new_id
          can_found.worker
          (drawn-IsFunded pool_id slot amount can limit t pool in_pool sound.funded) in
      let gains = (gain-allocated amount).0 in
      let positive = can_found.positive in
      let credit : pos 0 ≤ℤ gain allocation amount = rw gains (ground (arith, positive)) in
      (
        posted-IsSound empty fits initial
            (covers_credit empty fits slot.allocation_id (gain allocation amount) credit),
        posted-total empty fits initial (founded_new slot none (some pool_id) amount can limit t)
            ∙ rw (total-append t.balances slot, gains) refl,
      )

  -- Once the pool has enough, the transaction goes through, or the tables refuse the new row.
  pub fund_cases :
      (pool : BudgetPool)
      → IsSound t
      → InPool t pool_id amount pool
      → Moves t amount (transaction (fund_from_pool pool_id pool slot amount can limit) (clean t))
  unfolding fund_from_pool transaction enough_in_pool
  fund_cases pool sound in_pool =
      elim (found_cases slot none (some pool_id) amount can limit t sound) [
        | inl (e, refused) ↦ rw (in_pool.covered, refused, transaction, fund_from_pool) refl
        | inr (can_found, done) ↦
            let credit =
              post initial (founded slot none (some pool_id) amount can limit t)
                (founded_new slot none (some pool_id) amount can limit t) can_found.worker in
            let (fits, total) = with_funds-IsSound pool sound in_pool can_found in
            rw (in_pool.covered, done, credit, transaction, fund_from_pool)
              (with_funds, refl, fits, total)
      ]

  -- `allocate_from_pool` either raises and leaves the tables as they were, or it keeps them sound and
  -- raises what is available in all of them by the amount.
  pub allocate_from_pool-Moves :
      IsSound t → Moves t amount (allocate_from_pool pool_id slot amount can limit (clean t))
  unfolding allocate_from_pool
  allocate_from_pool-Moves sound = elim (Result-cases (check_pool t pool_id amount)) [
    | inl (e, refused) ↦ rw (refused, allocate_from_pool) refl
    | inr (pool, approved) ↦
        let moved = fund_cases pool sound (check-InPool t pool_id amount approved) in
        rw (approved, allocate_from_pool) (Moves-pure t amount _ (λ _. slot.allocation_id) moved)
  ]
