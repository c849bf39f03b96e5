-- ===== src/Budget/Revoke.antt =====
-- `revoke_unused` of cli/core/budget/service.py.
use quinn_ai.Prelude.{
  ℕ, String, true, none, some, In, ℤ, pos, ◌+ℤ◌, ◌-ℤ◌, ◌≤ℤ◌, negate, int_laws, +ℤ_shift, ◌==◌,
  string_eq, ◌≡◌, refl, sym, ap, subst, ◌∙◌, inl, inr, arith, Bool-cases, Option-cases,
}
use quinn_ai.Budget.Tables.{
  BudgetAllocation, BudgetBalance, BudgetTransaction, Tables, adjustment, refund,
  get_worker_balance,
}
use quinn_ai.Budget.Action.{ok}
use quinn_ai.Budget.Writes.{has_allocation, is_positive}
use quinn_ai.Budget.Checks.{current_allocation}
use quinn_ai.Budget.Service.{movement, unused, return_to_source, give_back, revoke_unused}
use quinn_ai.Budget.Rows.{gain, total_available, available_at}
use quinn_ai.Budget.After.{posted}
use quinn_ai.Budget.Sound.{IsSound, posted-IsSound, current_balance}
use quinn_ai.Budget.Steps.{clean, post}
use quinn_ai.Budget.Totals.{
  has-In, posted-total, posted-available, covers_debit, covers_credit, gain-refund, gain-allocated,
}
use quinn_ai.Budget.Spend.{known_worker}
use quinn_ai.Budget.Refunds.{
  Returns, only_at, available_of_unused, taker, taker-posted, return-none, refund_to, taker-known,
  return-some, plus_zero, unused-some,
}

module _ (now : ℕ) (w : String) (t : Tables) (sound : IsSound t) where
  module _ (a : BudgetAllocation) (b : BudgetBalance) (has : get_worker_balance now t w ≡ some b)
      (found : current_allocation now t w ≡ some a)
      (positive : is_positive b.available ≡ true) where
    abbrev debit : BudgetTransaction
    debit =
        movement a.slot.allocation_id w adjustment (negate b.available)
          "Budget revoked on worker termination"

    same_id : (In b t.balances) × (b.slot.allocation_id ≡ a.slot.allocation_id)
    same_id =
        let (a', found', same, i) = current_balance t sound now w has in
        let this : a' ≡ a = ground (arith, found, found') in
        (i, ap (λ s. s.allocation_id) (sym same) ∙ ap (λ r. r.slot.allocation_id) this)

    debited :
        IsSound (posted debit t)
        × (total_available (posted debit t).balances ≡ total_available t.balances -ℤ b.available)
        × ((id : String)
            → available_at id (posted debit t).balances
              ≡ available_at id t.balances +ℤ only_at a.slot.allocation_id (negate b.available) id)
        × (has_allocation t a.slot.allocation_id ≡ true)
    debited =
        let (i, at_a) = same_id in
        let known = subst (λ x. has_allocation t x ≡ true) at_a (has-In t sound i) in
        let gains = (gain-allocated (negate b.available)).2 in
        (
          posted-IsSound t sound debit (
              covers_debit t sound a.slot.allocation_id (gain adjustment (negate b.available)) i
                at_a (rw gains (omega int_laws))),
          posted-total t sound debit known ∙ rw gains (omega int_laws),
          λ id.
              posted-available t sound debit id known
              ∙ ap (λ x. available_at id t.balances +ℤ only_at a.slot.allocation_id x id) gains,
          known,
        )

    -- Without an allocation of a source, the credits leave the tables.
    give_back-lost :
        taker now t a.source_worker_id ≡ none
        → Returns t b.available
            (λ id. only_at a.slot.allocation_id (negate b.available) id +ℤ pos 0)
            (negate b.available)
            (give_back now w a b.available (clean t))
    unfolding give_back return_to_source
    give_back-lost nobody =
        let (fits, total, each, known) = debited in
        let gone = taker-posted now t debit a.source_worker_id ∙ nobody in
        rw
          (
            post debit t known (known_worker now w t sound has),
            return-none now (posted debit t) a.source_worker_id w b.available gone,
            give_back,
          )
          (
            posted debit t,
            refl,
            fits,
            λ id.
                each id
                ∙ ap (λ x. available_at id t.balances +ℤ x)
                    (plus_zero (only_at a.slot.allocation_id (negate b.available) id)),
            total ∙ omega int_laws,
          )

    -- With one, they go back to it.
    give_back-kept :
        (c : BudgetAllocation)
        → taker now t a.source_worker_id ≡ some c
        → Returns t b.available
            (λ id.
              only_at a.slot.allocation_id (negate b.available) id
              +ℤ only_at c.slot.allocation_id b.available id)
            (negate (pos 0))
            (give_back now w a b.available (clean t))
    unfolding give_back return_to_source
    give_back-kept c back =
        let (fits, total, each, known) = debited in
        let takes = taker-posted now t debit a.source_worker_id ∙ back in
        let (row, _, _) = taker-known now (posted debit t) a.source_worker_id fits takes in
        let gains = gain-refund b.available positive in
        let credit : pos 0 ≤ℤ gain refund b.available = rw gains (ground (arith, positive)) in
        let txn = refund_to c w b.available in
        rw
          (
            post debit t known (known_worker now w t sound has),
            return-some now (posted debit t) a.source_worker_id w b.available fits takes,
            give_back,
          )
          (
            posted txn (posted debit t),
            refl,
            posted-IsSound (posted debit t) fits txn (
                covers_credit (posted debit t) fits c.slot.allocation_id (gain refund b.available)
                  credit),
            λ id.
                posted-available (posted debit t) fits txn id row
                ∙ ap
                    (λ x.
                      available_at id (posted debit t).balances
                      +ℤ only_at c.slot.allocation_id x id)
                    gains
                ∙ ap (λ x. x +ℤ only_at c.slot.allocation_id b.available id) (each id)
                ∙ sym (
                    +ℤ_shift (available_at id t.balances)
                      (only_at a.slot.allocation_id (negate b.available) id)
                      (only_at c.slot.allocation_id b.available id)),
            posted-total (posted debit t) fits txn row ∙ rw (gains, total) (omega int_laws),
          )

  -- the unused credits of the worker, and where they go
  abbrev pub unused_credits : ℤ
  unused_credits = elim (current_allocation now t w) [
    | none ↦ pos 0
    | some _ ↦ available_of_unused (unused (get_worker_balance now t w))
  ]

  abbrev pub leaves_tables : ℤ
  leaves_tables = elim (current_allocation now t w) [
    | none ↦ pos 0
    | some a ↦ elim (taker now t a.source_worker_id) [
      | none ↦ available_of_unused (unused (get_worker_balance now t w))
      | some _ ↦ pos 0
    ]
  ]

  -- what the call takes from the worker's allocation and gives to the one of its source, by id
  abbrev pub revoked_at : String → ℤ
  revoked_at id = elim (current_allocation now t w) [
    | none ↦ pos 0
    | some a ↦
        only_at a.slot.allocation_id
          (negate (available_of_unused (unused (get_worker_balance now t w)))) id
        +ℤ (elim (taker now t a.source_worker_id) [
          | none ↦ pos 0
          | some c ↦
              only_at c.slot.allocation_id
                (available_of_unused (unused (get_worker_balance now t w))) id
        ])
  ]

  nothing_moves : Returns t (pos 0) (λ id. pos 0) (negate (pos 0)) (ok (pos 0), clean t)
  nothing_moves = (t, refl, sound, λ id. omega int_laws, omega int_laws)

  only_at_zero :
      (k id : String) → (only_at k (pos 0) id ≡ pos 0) × (only_at k (negate (pos 0)) id ≡ pos 0)
  only_at_zero k id = elim (Bool-cases (k == id)) [
    | inl e ↦ rw e (refl, omega int_laws)
    | inr e ↦ rw e (refl, refl)
  ]

  pub revoke_unused-Returns :
      Returns t unused_credits revoked_at (negate leaves_tables) (revoke_unused now w (clean t))
  unfolding revoke_unused
  revoke_unused-Returns = elim (Option-cases (current_allocation now t w)) [
    | inl nothing ↦
        rw (nothing, revoke_unused, unused_credits, leaves_tables, revoked_at) nothing_moves
    | inr (a, found) ↦ elim (Option-cases (unused (get_worker_balance now t w))) [
      | inl used ↦ elim (Option-cases (taker now t a.source_worker_id)) [
        | inl nobody ↦
            rw (found, nobody, used, revoke_unused, unused_credits, leaves_tables, revoked_at)
              (
                t,
                refl,
                sound,
                λ id. rw (only_at_zero a.slot.allocation_id id).1 (
                    plus_zero (available_at id t.balances)
                    ∙ ap (λ x. available_at id t.balances +ℤ x) (plus_zero (pos 0))),
                omega int_laws,
              )
        | inr (c, back) ↦
            rw (found, back, used, revoke_unused, unused_credits, leaves_tables, revoked_at)
              (
                t,
                refl,
                sound,
                λ id.
                    rw
                      (
                        (only_at_zero a.slot.allocation_id id).1,
                        (only_at_zero c.slot.allocation_id id).0,
                      )
                      (plus_zero (available_at id t.balances)
                        ∙ ap (λ x. available_at id t.balances +ℤ x) (plus_zero (pos 0))),
                omega int_laws,
              )
      ]
      | inr (x, left) ↦
          let (b, has, positive) = unused-some (get_worker_balance now t w) x left in
          elim (Option-cases (taker now t a.source_worker_id)) [
            | inl nobody ↦
                rw
                  (
                    found, nobody, has, positive, revoke_unused, unused_credits, leaves_tables,
                    revoked_at,
                  )
                  (give_back-lost a b has found (ground (arith, positive)) nobody)
            | inr (c, back) ↦
                rw
                  (
                    found, back, has, positive, revoke_unused, unused_credits, leaves_tables,
                    revoked_at,
                  )
                  (give_back-kept a b has found (ground (arith, positive)) c back)
          ]
    ]
  ]
