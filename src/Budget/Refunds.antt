-- ===== src/Budget/Refunds.antt =====
-- Where `revoke_unused` of cli/core/budget/service.py sends what it takes: the refund to the source of
-- an allocation, and what a call of it leaves behind.
use quinn_ai.Prelude.{
  ℕ, String, true, false, Option, none, some, All-get, ℤ, pos, ◌+ℤ◌, leb_ℤ, int_laws, if◌then◌else◌,
  ◌==◌, string_eq, ◌≡◌, refl, sym, ap, subst, ◌∙◌, inl, inr, arith, Bool-cases,
}
use Prim.Native.String.{◌++◌ as str_append}
use quinn_ai.Budget.Tables.{
  BudgetAllocation, BudgetBalance, BudgetTransaction, Tables, refund, get_worker_allocations,
}
use quinn_ai.Budget.Action.{Result, ok, Store}
use quinn_ai.Budget.Writes.{has_allocation, has_worker, create_budget_transaction}
use quinn_ai.Budget.Checks.{current_allocation}
use quinn_ai.Budget.Service.{movement, unused, return_to_source}
use quinn_ai.Budget.Current.{current_allocation-In}
use quinn_ai.Budget.Rows.{total_available, available_at}
use quinn_ai.Budget.After.{posted}
use quinn_ai.Budget.Sound.{IsSound}
use quinn_ai.Budget.Steps.{clean, post}
use quinn_ai.Budget.Totals.{has_row}

-- A call returns `a`, keeps the tables sound, and raises what is available in each allocation by
-- `change` and in all of them by `x`.
abbrev pub Returns : Tables → ℤ → (String → ℤ) → ℤ → Result ℤ × Store → Type 0
Returns t a change x r =
    (t' : Tables) × (r ≡ (ok a, clean t'))
    × IsSound t'
    × ((id : String) → available_at id t'.balances ≡ available_at id t.balances +ℤ change id)
    × (total_available t'.balances ≡ total_available t.balances +ℤ x)

-- `x` for the allocation of this id
abbrev pub only_at : String → ℤ → String → ℤ
only_at allocation_id x id = if allocation_id == id then x else pos 0

abbrev pub available_of_unused : Option ℤ → ℤ
available_of_unused none = pos 0
available_of_unused (some x) = x

-- the allocation of the source that takes a refund
abbrev pub taker : ℕ → Tables → Option String → Option BudgetAllocation
taker now t none = none
taker now t (some source) = current_allocation now t source

pub taker-posted :
    (now : ℕ) (t : Tables) (txn : BudgetTransaction) (source : Option String)
    → taker now (posted txn t) source ≡ taker now t source
unfolding current_allocation get_worker_allocations
taker-posted now t txn none = refl
taker-posted now t txn (some s) = refl

pub return-none :
    (now : ℕ) (t : Tables) (source : Option String) (w : String) (amount : ℤ)
    → taker now t source ≡ none
    → return_to_source now source w amount (clean t) ≡ (ok tt, clean t)
unfolding return_to_source
return-none now t none w amount e = refl
return-none now t (some s) w amount e = rw (e, return_to_source) refl

abbrev pub refund_from : BudgetAllocation → String → String → ℤ → BudgetTransaction
refund_from c source w amount =
    movement c.slot.allocation_id source refund amount
      (str_append "Recovered from terminated worker " w)

-- the refund that the source of an allocation gets
abbrev pub refund_to : BudgetAllocation → String → ℤ → BudgetTransaction
refund_to c w amount = refund_from c c.slot.worker_id w amount

pub taker-known :
    (now : ℕ) (t : Tables) (source : Option String) {c : BudgetAllocation}
    → IsSound t
    → taker now t source ≡ some c
    → (has_allocation t c.slot.allocation_id ≡ true)
      × (has_worker t c.slot.worker_id ≡ true)
      × (source ≡ some c.slot.worker_id)
taker-known now t none sound e = ground arith
taker-known now t (some s) sound e =
    let (i, at_s) = current_allocation-In now t s e in
    (
      has_row t i,
      All-get (λ r. has_worker t r.slot.worker_id ≡ true) t.allocations sound.owners i,
      ap some (sym at_s),
    )

pub return-some :
    (now : ℕ) (t : Tables) (source : Option String) (w : String) (amount : ℤ) {c : BudgetAllocation}
    → IsSound t
    → taker now t source ≡ some c
    → return_to_source now source w amount (clean t)
      ≡ (ok tt, clean (posted (refund_to c w amount) t))
unfolding return_to_source
return-some now t none w amount sound e = ground arith
return-some now t (some s) w amount {c} sound e =
    let (row, owner, named) = taker-known now t (some s) sound e in
    let at_s : s ≡ c.slot.worker_id = ground (arith, named) in
    let entered = post (refund_to c w amount) t row owner in
    let entered =
      subst
        (λ x.
          create_budget_transaction (refund_from c x w amount) (clean t)
          ≡ (ok (refund_from c x w amount), clean (posted (refund_from c x w amount) t)))
        (sym at_s) (post (refund_to c w amount) t row owner) in
    rw (e, entered, return_to_source)
      (ap (λ x. (ok tt, clean (posted (refund_from c x w amount) t))) at_s)

pub plus_zero : (x : ℤ) → x ≡ x +ℤ pos 0
plus_zero x = omega int_laws

pub some_apart : (x : ℤ) → ¬ (none ≡ some x)
some_apart x e = ground (arith, e)

pub unused-some :
    (o : Option BudgetBalance) (x : ℤ)
    → unused o ≡ some x
    → (b : BudgetBalance) × (o ≡ some b) × (leb_ℤ b.available (pos 0) ≡ false)
unused-some none x e = ground (arith, e)
unused-some (some b) x e = elim (Bool-cases (leb_ℤ b.available (pos 0))) [
  | inl used ↦ absurd (some_apart x (sym (rw used refl) ∙ e))
  | inr positive ↦ (b, refl, positive)
]
