-- ===== src/Budget/Fund.antt =====
-- `ensure_worker_funded` of cli/core/budget/service.py.
use quinn_ai.Prelude.{
  ℕ, String, true, false, some, [], ◌∷◌, All, All-append, All-map, All-get, All-In, string_eq, ℤ,
  pos, ◌+ℤ◌, ◌-ℤ◌, ◌≤ℤ◌, leb_ℤ, ltb_ℤ, int_laws, negate, upper, lower, ◌+◌, ◌<◌, ◌≡◌, refl, sym, ap,
  subst, ◌∙◌, inl, inr, arith, Bool-cases, Option-cases,
}
use quinn_ai.Budget.Tables.{
  BudgetAllocation, is_worker_manager, BudgetBalance, Tables, get_worker_balance, is_current,
  balance_slot, transfer_out, transfer_in,
}
use quinn_ai.Budget.Action.{ok, then_do, pure}
use quinn_ai.Budget.Service.{
  slot_from, available_of, has_sufficient_budget, delegate_budget, ensure_worker_funded,
}
use quinn_ai.Budget.Writes.{
  is_positive, update_balance, has_allocation, new_balance, on_transaction,
}
use quinn_ai.Budget.Current.{current_row-In}
use quinn_ai.Budget.Rows.{IsBalanced, update-gain, All-on_transaction}
use quinn_ai.Budget.Totals.{gain-transfer_out, gain-allocated, has-In}
use quinn_ai.Budget.Sound.{IsSound}
use quinn_ai.Budget.Steps.{clean}
use quinn_ai.Budget.Moves.{Moves, Moves-pure}
use quinn_ai.Budget.Delegate.{
  delegate_budget-Moves, delegate_cases, after_delegation, with_target, out, into,
}

-- Facts on numbers that the two steps of a delegation need.
ground_less : (v x : ℤ) → is_positive x ≡ true → v +ℤ negate x ≤ℤ v
ground_less v x h = let up : pos 1 ≤ℤ x = ground (arith, h) in omega (int_laws, up)

ltb_trans : (x y z : ℤ) → x ≤ℤ y → ltb_ℤ y z ≡ true → ltb_ℤ x z ≡ true
ltb_trans x y z h less = ground arith

le_trans : (x y z : ℤ) → x ≤ℤ y → y ≤ℤ z → x ≤ℤ z
le_trans x y z h k = omega arith

short_of :
    (u amount v : ℤ)
    → u ≤ℤ pos 0
    → ltb_ℤ (pos 0) v ≡ true
    → ltb_ℤ (u +ℤ (amount -ℤ v)) amount ≡ true
short_of u amount v low some_left =
    let left : pos 1 ≤ℤ v = ground (arith, some_left) in
    let less : upper (u +ℤ (amount -ℤ v)) + lower amount
        < upper amount + lower (u +ℤ (amount -ℤ v)) =
      omega (int_laws, left, low) in
    ground (arith, less)

module _ (now : ℕ) (id w : String) (amount : ℤ) (ceo : String) (t : Tables) where
  -- `ensure_worker_funded` either raises and leaves the tables as they were, or it keeps them sound
  -- and what is available in all of them together.
  pub ensure_worker_funded-Moves :
      IsSound t → Moves t (pos 0) (ensure_worker_funded now id w amount ceo (clean t))
  unfolding ensure_worker_funded
  ensure_worker_funded-Moves sound =
      elim (Bool-cases (leb_ℤ amount (available_of (get_worker_balance now t w)))) [
        | inl enough ↦ rw (enough, ensure_worker_funded) (t, refl, sound, omega int_laws)
        | inr short ↦
            rw (short, ensure_worker_funded)
              (Moves-pure t (pos 0) _ (λ _. tt)
                (delegate_budget-Moves now id ceo w
                  (amount -ℤ available_of (get_worker_balance now t w)) true t sound))
      ]

  -- a balance of the worker that is current and less than asked for
  abbrev pub IsShort : BudgetBalance → Type 0
  IsShort b = is_current now w b.slot ≡ true → ltb_ℤ b.available amount ≡ true

  short_balance : All IsShort t.balances → has_sufficient_budget now t w amount ≡ false
  unfolding has_sufficient_budget get_worker_balance
  short_balance short = elim (Option-cases (get_worker_balance now t w)) [
    | inl nothing ↦ rw (nothing, has_sufficient_budget) refl
    | inr (b, found) ↦
        let (i, current) = current_row-In balance_slot now w t.balances found in
        let less = All-get IsShort t.balances short i current in
        let no : leb_ℤ amount b.available ≡ false = ground (arith, less) in
        rw (found, no, has_sufficient_budget) refl
  ]

-- what holds of each row while the new allocation under `id` is still empty
abbrev IsUnfilled : ℕ → String → String → ℤ → BudgetBalance → Type 0
IsUnfilled now id w amount b =
    IsBalanced b
    × (is_current now w b.slot ≡ true → ltb_ℤ b.available amount ≡ true)
    × (b.slot.allocation_id ≡ id → b.available ≤ℤ pos 0)

debit-IsUnfilled :
    (now : ℕ) (id w : String) (amount x : ℤ) (b : BudgetBalance)
    → is_positive x ≡ true
    → IsUnfilled now id w amount b
    → IsUnfilled now id w amount (update_balance transfer_out (negate x) b)
unfolding update_balance
debit-IsUnfilled now id w amount x b positive (balanced, short, empty) =
    let less : (update_balance transfer_out (negate x) b).available ≤ℤ b.available =
      rw (update-gain transfer_out (negate x) b balanced, gain-transfer_out x positive)
        (ground_less b.available x positive) in
    (
      refl,
      λ current. ltb_trans _ b.available amount less (short current),
      λ at_id. le_trans _ b.available (pos 0) less (empty at_id),
    )

credit-IsShort :
    (now : ℕ) (id w : String) (amount v : ℤ) (b : BudgetBalance)
    → ltb_ℤ (pos 0) v ≡ true
    → IsUnfilled now id w amount b
    → b.slot.allocation_id ≡ id
    → ltb_ℤ (update_balance transfer_in (amount -ℤ v) b).available amount ≡ true
credit-IsShort now id w amount v b some_left (balanced, short, empty) at_id =
    rw (update-gain transfer_in (amount -ℤ v) b balanced, (gain-allocated (amount -ℤ v)).1)
      (short_of b.available amount v (empty at_id) some_left)

module _ (now : ℕ) (id w : String) (amount : ℤ) (ceo : String) (t : Tables) (sound : IsSound t)
    (short : All (IsShort now id w amount ceo t) t.balances) where
  All-IsUnfilled : has_allocation t id ≡ false → All (IsUnfilled now id w amount) t.balances
  All-IsUnfilled new =
      All-map t.balances
        (λ c i. (
          All-get IsBalanced t.balances sound.balanced i,
          All-get (IsShort now id w amount ceo t) t.balances short i,
          λ at_id.
              let there_is = subst (λ x. has_allocation t x ≡ true) at_id (has-In t sound i) in
              ground (arith, there_is, new),
        ))
        (All-In t.balances)

  -- the rows behind a delegation of what is missing
  after-IsShort :
      (v : ℤ) (a : BudgetAllocation)
      → ltb_ℤ (pos 0) v ≡ true
      → is_positive (amount -ℤ v) ≡ true
      → pos 1 ≤ℤ amount
      → has_allocation t id ≡ false
      → All
          (IsShort now id w amount ceo t)
          (after_delegation now id ceo w (amount -ℤ v) true t sound a).balances
  after-IsShort v a some_left positive some_asked new =
      let x = amount -ℤ v in
      let can = is_worker_manager t w in
      let start =
        All-append (IsUnfilled now id w amount) t.balances
          (new_balance (slot_from id w a) (pos 0) ∷ []) (All-IsUnfilled new)
          ((omega int_laws, λ _. ground (arith, some_asked), λ _. omega arith), tt) in
      let rows = (with_target now id ceo w x true t a can).balances in
      let debited =
        All-on_transaction (out now id ceo w x true t a can) (IsUnfilled now id w amount) rows
          (All-map rows (λ b u. (u, λ _. debit-IsUnfilled now id w amount x b positive u)) start) in
      let later = on_transaction (out now id ceo w x true t a can) rows in
      All-on_transaction (into now id ceo w x true t a can) (IsShort now id w amount ceo t) later (
        All-map later
          (λ b u. (u.1, λ at_id _. credit-IsShort now id w amount v b some_left u at_id)) debited)

  -- If every current balance of the worker is below the amount, and the one that is read is above
  -- zero, then no success of `ensure_worker_funded` makes the worker's budget sufficient.
  pub ensure_worker_funded-short :
      {b : BudgetBalance} (t' : Tables)
      → get_worker_balance now t w ≡ some b
      → ltb_ℤ (pos 0) b.available ≡ true
      → ensure_worker_funded now id w amount ceo (clean t) ≡ (ok tt, clean t')
      → has_sufficient_budget now t' w amount ≡ false
  unfolding ensure_worker_funded get_worker_balance
  ensure_worker_funded-short {b} t' found some_left done =
      let (i, current) = current_row-In balance_slot now w t.balances found in
      let less = All-get (IsShort now id w amount ceo t) t.balances short i current in
      let not_enough : leb_ℤ amount b.available ≡ false = ground (arith, less) in
      let asks : ensure_worker_funded now id w amount ceo (clean t)
          ≡ then_do (delegate_budget now id ceo w (amount -ℤ b.available) true (clean t))
              (λ _. pure tt) =
        rw (found, not_enough, ensure_worker_funded) refl in
      elim (delegate_cases now id ceo w (amount -ℤ b.available) true t sound) [
        | inl (e, refused) ↦ ground (arith, sym asks ∙ done, refused)
        | inr (a, approved, can_found, moved) ↦
            let same : after_delegation now id ceo w (amount -ℤ b.available) true t sound a ≡ t' =
              ap (λ r. r.1.tables)
                (ap (λ r. then_do r (λ _. pure tt)) (sym moved) ∙ sym asks ∙ done) in
            short_balance now id w amount ceo t' (
              subst (λ s. All (IsShort now id w amount ceo t) s.balances) same
                (after-IsShort b.available a some_left approved.positive
                  (ground (arith, less, some_left)) can_found.new_id))
      ]
