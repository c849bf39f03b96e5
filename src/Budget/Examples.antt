-- ===== src/Budget/Examples.antt =====
-- The theorems on budgets at concrete tables.
use quinn_ai.Prelude.{
  ℕ, suc, String, true, false, List, [], ◌∷◌, Option, none, some, ℤ, pos, ◌+ℤ◌, ◌-ℤ◌, negate,
  of_parts, lookup, ◌==◌, string_eq, ◌≡◌, refl, arith, Bool-cases, inl, inr,
}
use quinn_ai.Budget.Tables.{
  Slot, BudgetAllocation, BudgetBalance, Details, Tables, get_budget_pool, get_allocations_by_pool,
  sum_allocated, get_pool_allocated_total, get_worker_allocations, get_worker_balance, recent_first,
  insert_recent, current_row, is_worker_manager, has_direct_report,
}
use quinn_ai.Budget.Action.{write, transaction, err, operational_error}
use quinn_ai.Budget.Writes.{
  has_worker, has_allocation, insert_allocation, create_budget_allocation, insert_balance,
  create_budget_balance, insert_transaction, on_transaction, update_balance,
  create_budget_transaction,
}
use quinn_ai.Budget.Checks.{pick_current, current_allocation, check_delegation}
use quinn_ai.Budget.Service.{
  found_allocation, pass_on, slot_from, delegate_budget, has_sufficient_budget,
  ensure_worker_funded,
}
use quinn_ai.Budget.Rows.{total_available}
use quinn_ai.Budget.Sound.{IsSound}
use quinn_ai.Budget.Steps.{clean, CanFound}
use quinn_ai.Budget.Delegate.{after_delegation}
use quinn_ai.Budget.Fund.{ensure_worker_funded-short}
use quinn_ai.Budget.Partial.{facing, fourth, delegate_budget_partial}
use quinn_ai.Providers.Models.{budget, Provider}
use quinn_ai.Providers.Registry.{ProviderRegistry, new_registry}
use quinn_ai.Budget.Completion.{
  Usage, Request, Charges, complete_with_budget, complete_with_budget-Charges,
}
use quinn_ai.Budget.Run.{Operation, perform, run, Refines, perform-Refines, run-IsSound}

abbrev slot : String → String → Slot
slot id worker_id = record {
  allocation_id = id;
  worker_id = worker_id;
  period_start = 10;
  period_end = 40;
}

abbrev allocation_of : String → String → Option String → Option String → ℤ → BudgetAllocation
allocation_of id worker_id source pool credits = record {
  slot = slot id worker_id;
  source_worker_id = source;
  pool_id = pool;
  allocated_credits = credits;
  spent_credits = pos 0;
  reserved_credits = pos 0;
  can_delegate = true;
  delegation_limit = none;
}

abbrev balance_of : String → String → ℤ → ℤ → ℤ → BudgetBalance
balance_of id worker_id allocated delegated available = record {
  slot = slot id worker_id;
  allocated = allocated;
  spent = pos 0;
  reserved = pos 0;
  available = available;
  delegated = delegated;
}

-- The chief has 600 of the pool's 1000, and has passed 5 of them on to the dev, who reports to the
-- lead.
abbrev org : Tables
org = record {
  pools =
      record {
        id = "main";
        name = "org-main";
        total_credits = pos 1000;
        period_start = 0;
        period_end = 90;
      }
      ∷ [];
  allocations =
      allocation_of "a1" "ceo" none (some "main") (pos 600)
      ∷ allocation_of "a2" "dev" (some "ceo") none (pos 5)
      ∷ [];
  transactions = [];
  balances =
      balance_of "a1" "ceo" (pos 600) (pos 5) (pos 595)
      ∷ balance_of "a2" "dev" (pos 5) (pos 0) (pos 5)
      ∷ [];
  workers = ("ceo", none) ∷ ("lead", some "ceo") ∷ ("dev", some "lead") ∷ [];
}

org-IsSound : IsSound org
unfolding lookup get_budget_pool get_pool_allocated_total get_allocations_by_pool sum_allocated ◌-ℤ◌
    ◌+ℤ◌ of_parts
org-IsSound = record {
  paired = refl;
  distinct = (refl, (refl, tt));
  owners = (refl, (refl, tt));
  balanced = (refl, (refl, tt));
  solvent = (omega arith, (omega arith, tt));
  funded = λ id. elim (Bool-cases ("main" == id)) [
    | inl this ↦ rw this (omega arith)
    | inr other ↦ rw other tt
  ];
}

abbrev no_details : Details
no_details = record {
  provider = none;
  model = none;
  input_tokens = none;
  output_tokens = none;
  reference_type = none;
  reference_id = none;
  description = none;
}

-- a day of calls
abbrev day : List (ℕ × Operation)
day =
    (20, Operation.delegate "a3" "ceo" "lead" (pos 100) false)
    ∷ (21, Operation.spend_on "lead" (pos 30) (pos 40) no_details)
    ∷ (22, Operation.fund "a4" "dev" (pos 20) "ceo")
    ∷ (23, Operation.revoke "lead")
    ∷ (24, Operation.allocate "main" (slot "a5" "ceo") (pos 500) true none)
    ∷ []

run-IsSound_example : (t' : Tables) × (run day (clean org) ≡ clean t') × IsSound t'
run-IsSound_example = run-IsSound day org org-IsSound

perform-Refines_example :
    Refines (Operation.revoke "lead") org (perform 23 (Operation.revoke "lead") (clean org))
perform-Refines_example = perform-Refines 23 (Operation.revoke "lead") org org-IsSound

abbrev chief : BudgetAllocation
chief = allocation_of "a1" "ceo" none (some "main") (pos 600)

can_found :
    (id target : String) (amount : ℕ)
    → has_allocation org id ≡ false
    → has_worker org target ≡ true
    → CanFound (slot_from id target chief) (some "ceo") none (pos (suc amount)) none org
unfolding lookup
can_found id target amount new known = record {
  positive = ground arith;
  good_limit = refl;
  new_id = new;
  worker = known;
  from = λ can. refl;
}

delegate_budget_partial_example :
    let (r, s) = delegate_budget 20 "a3" "ceo" "lead" (pos 100) false (facing fourth org) in
    (r ≡ err operational_error)
    × (s.committed ≡ s.tables)
    × (total_available s.tables.balances ≡ total_available org.balances +ℤ negate (pos 100))
unfolding check_delegation current_allocation pick_current get_worker_allocations get_worker_balance
    current_row recent_first insert_recent lookup has_allocation
delegate_budget_partial_example =
    delegate_budget_partial 20 "a3" "ceo" "lead" (pos 100) false org org-IsSound chief refl
      (can_found "a3" "lead" 99 refl refl)

-- The dev has 5 and gets 15 more, in an allocation of their own.
ensure_worker_funded-short_example :
    has_sufficient_budget 20
      (after_delegation 20 "a4" "ceo" "dev" (pos 15) true org org-IsSound chief)
      "dev"
      (pos 20)
    ≡ false
unfolding ensure_worker_funded delegate_budget pass_on transaction found_allocation
    create_budget_allocation create_budget_balance create_budget_transaction write insert_allocation
    insert_balance insert_transaction on_transaction update_balance has_allocation check_delegation
    current_allocation pick_current get_worker_allocations get_worker_balance current_row
    recent_first insert_recent is_worker_manager has_direct_report lookup ◌-ℤ◌ ◌+ℤ◌ of_parts
ensure_worker_funded-short_example =
    ensure_worker_funded-short 20 "a4" "dev" (pos 20) "ceo" org org-IsSound
      (λ current. ground arith, (λ _. refl, tt)) {b = balance_of "a2" "dev" (pos 5) (pos 0) (pos 5)}
      (after_delegation 20 "a4" "ceo" "dev" (pos 15) true org org-IsSound chief) refl refl refl

-- A provider with one model answers with 9 tokens in and 2 out.
abbrev vendor : Provider
vendor = record {
  name = "main";
  models =
      record {
        id = "small-1";
        name = "Small";
        cost_tier = (0, 100);
        capabilities = record {
          coding = true;
          reasoning = true;
          research = true;
          tool_use = true;
          long_context = true;
        };
        tier = some budget;
        tiers = none;
      }
      ∷ [];
}

abbrev request : Request
request = record {
  worker_id = "ceo";
  worker_cost = 10;
  worker_skills = [];
  total_chars = 40;
  max_tokens = 1;
  preferred_provider = none;
  reference_type = none;
  reference_id = none;
}

abbrev answer : String → String → Option Usage
answer provider model = some (record { input_tokens = some 9; output_tokens = some 2 })

abbrev registry : ProviderRegistry
registry = record new_registry { providers = ("main", vendor) ∷ [] }

complete_with_budget-Charges_example :
    Charges org (complete_with_budget (λ s. s) answer 20 registry request (clean org))
complete_with_budget-Charges_example =
    complete_with_budget-Charges (λ s. s) answer 20 registry request org org-IsSound
