-- ===== src/Budget/Action.antt =====
-- What a call on the database of budgets does: it returns or raises, and leaves a store. `Database`
-- of cli/core/db/connection.py has the tables as the open transaction sees them and as they were
-- committed last.
use quinn_ai.Prelude.{if◌then◌else◌, Bool, true, false, List, [], ◌∷◌, Option, none, some, ℤ}
use quinn_ai.Budget.Tables.{Tables}

-- the reasons of a BudgetAllocationError
pub data Refusal : Type 0 where
  not_positive pool_not_found insufficient_pool worker_not_found not_a_report : Refusal
  no_allocation cannot_delegate over_limit no_balance insufficient : Refusal

pub data BudgetError : Type 0 where
  allocation_error : Refusal → BudgetError
  value_error integrity_error operational_error runtime_error attribute_error : BudgetError
  no_budget_allocation : BudgetError
  budget_exhausted : ℤ → ℤ → BudgetError

pub data Result {ℓ} (A : Type ℓ) : Type ℓ where
  ok : A → Result A
  err : BudgetError → Result A

-- `faults` says of each of the next writes whether the database refuses it from outside, because it
-- is locked or its disk is full; behind its end nothing is refused.
pub record Store : Type 0 where
  pub tables : Tables
  pub committed : Tables
  pub faults : List Bool

abbrev pub Action {ℓ} : Type ℓ → Type ℓ
Action A = Store → Result A × Store

infixl 5 ◌>>=◌ ◌>>◌
-- after an exception nothing more is done
abbrev pub then_do {ℓ κ} :
    {A : Type ℓ} {B : Type κ} → Result A × Store → (A → Action B) → Result B × Store
then_do (ok a, s) k = k a s
then_do (err e, s) k = (err e, s)

abbrev pub ◌>>=◌ {ℓ κ} : {A : Type ℓ} {B : Type κ} → Action A → (A → Action B) → Action B
(m >>= k) s = then_do (m s) k

abbrev pub ◌>>◌ {ℓ κ} : {A : Type ℓ} {B : Type κ} → Action A → Action B → Action B
m >> k = m >>= λ _. k

abbrev pub pure {ℓ} : {A : Type ℓ} → A → Action A
pure a s = (ok a, s)

-- a computed result, which changes nothing
abbrev pub lift {ℓ} : {A : Type ℓ} → Result A → Action A
lift r s = (r, s)

-- `raise` unless the test holds
abbrev pub require : Bool → BudgetError → Result (Unit {0})
require true e = ok tt
require false e = err e

abbrev pub or_raise : {A : Type 0} → Option A → BudgetError → Result A
or_raise none e = err e
or_raise (some a) e = ok a

-- one check after another
abbrev pub if_ok {ℓ κ} : {A : Type ℓ} {B : Type κ} → Result A → (A → Result B) → Result B
if_ok (ok a) k = k a
if_ok (err e) k = err e

-- `connection.commit()` and `connection.rollback()`
abbrev pub commit : Store → Store
commit s = record s { committed = s.tables }

abbrev pub rollback : Store → Store
rollback s = record s { tables = s.committed }

-- `with db.transaction():` around an action
abbrev pub close_transaction {ℓ} : {A : Type ℓ} → Result A × Store → Result A × Store
close_transaction (ok a, s) = (ok a, commit s)
close_transaction (err e, s) = (err e, rollback s)

unfoldable pub transaction {ℓ} : {A : Type ℓ} → Action A → Action A
transaction act s = close_transaction (act s)

-- a statement that writes: `none` where a constraint of the tables does not hold
abbrev pub statement : Option Tables → Store → Result (Unit {0}) × Store
statement none s = (err integrity_error, s)
statement (some t) s = (ok tt, record s { tables = t })

abbrev pub execute : (Tables → Option Tables) → Action (Unit {0})
execute change s = elim s.faults [
  | [] ↦ statement (change s.tables) s
  | refused ∷ rest ↦
      if refused
      then (err operational_error, record s { faults = rest })
      else statement (change s.tables) (record s { faults = rest })
]

abbrev pub committing {ℓ} : {A : Type ℓ} → Result A × Store → Result A × Store
committing (ok a, s) = (ok a, commit s)
committing (err e, s) = (err e, s)

-- `db.execute(...)` and then `db.connection.commit()`, as each function of the queries does
unfoldable pub write : (Tables → Option Tables) → Action (Unit {0})
write change s = committing (execute change s)
