-- ===== src/Budget/Current.antt =====
-- The current row of a worker: the query on allocations, the query on balances, and the loop of
-- `_get_current_allocation` in cli/core/budget/service.py.
use quinn_ai.Prelude.{
  ℕ, ◌≤◌, String, Bool, true, false, List, [], ◌∷◌, Option, none, some, map, filter, All, In,
  All-filter, All-In, leb, ltb, string_eq, if◌then◌else◌, ◌≡◌, refl, sym, ap, subst, ◌∙◌, inl, inr,
  arith, Bool-cases, Option-cases, eq_iff,
}
use quinn_ai.Budget.Tables.{
  Slot, BudgetAllocation, Tables, allocation_slot, first_row, insert_recent, recent_first, is_of,
  is_open_at, is_current, current_row, get_worker_allocations, get_current_allocation,
}
use quinn_ai.Budget.Checks.{pick_current, or_first, current_allocation}

-- the slot of a row that may be there
abbrev pub slot_of : {A : Type 0} → (A → Slot) → Option A → Option Slot
slot_of at none = none
slot_of at (some a) = some (at a)

abbrev pub itself : Slot → Slot
itself s = s

module _ {A : Type 0} (at : A → Slot) where
  filter-map :
      (p : Slot → Bool) (rows : List A)
      → map at (filter (λ a. p (at a)) rows) ≡ filter p (map at rows)
  filter-map p [] = refl
  filter-map p (a ∷ rows) = elim (Bool-cases (p (at a))) [
    | inl yes_p ↦ rw (yes_p, filter-map p rows) refl
    | inr no_p ↦ rw (no_p, filter-map p rows) refl
  ]

  insert_recent-map :
      (a : A) (rows : List A)
      → map at (insert_recent at a rows) ≡ insert_recent itself (at a) (map at rows)
  unfolding insert_recent
  insert_recent-map a [] = refl
  insert_recent-map a (b ∷ rows) = elim (Bool-cases (leb (at b).period_start (at a).period_start)) [
    | inl first ↦ rw first refl
    | inr later ↦ rw (later, insert_recent-map a rows) refl
  ]

  recent_first-map :
      (rows : List A) → map at (recent_first at rows) ≡ recent_first itself (map at rows)
  unfolding recent_first
  recent_first-map [] = refl
  recent_first-map (a ∷ rows) =
      insert_recent-map a (recent_first at rows)
      ∙ ap (insert_recent itself (at a)) (recent_first-map rows)

  first_row-map : (rows : List A) → slot_of at (first_row rows) ≡ first_row (map at rows)
  first_row-map [] = refl
  first_row-map (a ∷ rows) = refl

  -- The slot of the current row is determined by the slots of the rows.
  pub slot-current_row :
      (now : ℕ) (w : String) (rows : List A)
      → slot_of at (current_row at now w rows) ≡ current_row itself now w (map at rows)
  unfolding current_row
  slot-current_row now w rows =
      first_row-map (recent_first at (filter (λ a. is_current now w (at a)) rows))
      ∙ ap first_row (
          recent_first-map (filter (λ a. is_current now w (at a)) rows)
          ∙ ap (recent_first itself) (filter-map (is_current now w) rows))

  -- later periods do not come behind earlier ones
  abbrev pub IsRecentFirst : List A → Type 0
  IsRecentFirst [] = Unit
  IsRecentFirst (a ∷ rows) =
      All (λ b. (at b).period_start ≤ (at a).period_start) rows × IsRecentFirst rows

  All-insert_recent :
      (P : A → Type 0) (a : A) (rows : List A) → P a → All P rows → All P (insert_recent at a rows)
  unfolding insert_recent
  All-insert_recent P a [] p ps = (p, tt)
  All-insert_recent P a (b ∷ rows) p ps =
      elim (Bool-cases (leb (at b).period_start (at a).period_start)) [
        | inl first ↦ rw first (p, ps)
        | inr later ↦ rw later (ps.0, All-insert_recent P a rows p ps.1)
      ]

  before-All :
      (k n : ℕ) (rows : List A)
      → n ≤ k
      → All (λ b. (at b).period_start ≤ n) rows
      → All (λ b. (at b).period_start ≤ k) rows
  before-All k n [] h all = tt
  before-All k n (b ∷ rows) h all = (omega (arith, all.0), before-All k n rows h all.1)

  insert_recent-IsRecentFirst :
      (a : A) (rows : List A) → IsRecentFirst rows → IsRecentFirst (insert_recent at a rows)
  unfolding insert_recent
  insert_recent-IsRecentFirst a [] s = (tt, tt)
  insert_recent-IsRecentFirst a (b ∷ rows) s =
      elim (Bool-cases (leb (at b).period_start (at a).period_start)) [
        | inl first ↦
            let le : (at b).period_start ≤ (at a).period_start = ground arith in
            rw first ((le, before-All (at a).period_start (at b).period_start rows le s.0), s)
        | inr later ↦
            let le : (at a).period_start ≤ (at b).period_start = ground arith in
            rw later (
              All-insert_recent (λ c. (at c).period_start ≤ (at b).period_start) a rows le s.0,
              insert_recent-IsRecentFirst a rows s.1,
            )
      ]

  pub recent_first-IsRecentFirst : (rows : List A) → IsRecentFirst (recent_first at rows)
  unfolding recent_first
  recent_first-IsRecentFirst [] = tt
  recent_first-IsRecentFirst (a ∷ rows) =
      insert_recent-IsRecentFirst a (recent_first at rows) (recent_first-IsRecentFirst rows)

  insert_recent_latest :
      (a : A) (rows : List A)
      → All (λ b. (at b).period_start ≤ (at a).period_start) rows
      → insert_recent at a rows ≡ a ∷ rows
  unfolding insert_recent
  insert_recent_latest a [] all = refl
  insert_recent_latest a (b ∷ rows) all = ground arith

  filter_before :
      (p : A → Bool) (k : ℕ) (rows : List A)
      → All (λ b. (at b).period_start ≤ k) rows
      → All (λ b. (at b).period_start ≤ k) (filter p rows)
  filter_before p k [] all = tt
  filter_before p k (b ∷ rows) all = elim (Bool-cases (p b)) [
    | inl yes_p ↦ rw yes_p (all.0, filter_before p k rows all.1)
    | inr no_p ↦ rw no_p (filter_before p k rows all.1)
  ]

  filter-insert_recent :
      (p : A → Bool) (a : A) (rows : List A)
      → IsRecentFirst rows
      → filter p (insert_recent at a rows)
        ≡ (if p a then insert_recent at a (filter p rows) else filter p rows)
  unfolding insert_recent
  filter-insert_recent p a [] s = ground arith
  filter-insert_recent p a (b ∷ rows) s =
      elim (Bool-cases (leb (at b).period_start (at a).period_start)) [
        | inl first ↦
            let le : (at b).period_start ≤ (at a).period_start = ground arith in
            let front = insert_recent_latest a (filter p (b ∷ rows)) (
              filter_before p (at a).period_start (b ∷ rows)
                (le, before-All (at a).period_start (at b).period_start rows le s.0)) in
            rw (first, front) refl
        | inr later ↦ ground (arith, filter-insert_recent p a rows s.1)
      ]

  -- Filtering rows and putting the latest first can change places.
  pub filter-recent_first :
      (p : A → Bool) (rows : List A)
      → filter p (recent_first at rows) ≡ recent_first at (filter p rows)
  unfolding recent_first
  filter-recent_first p [] = refl
  filter-recent_first p (a ∷ rows) =
      filter-insert_recent p a (recent_first at rows) (recent_first-IsRecentFirst rows)
      ∙ ground (arith, filter-recent_first p rows)

  pub All-recent_first :
      (P : A → Type 0) (rows : List A) → All P rows → All P (recent_first at rows)
  unfolding recent_first
  All-recent_first P [] ps = tt
  All-recent_first P (a ∷ rows) ps =
      All-insert_recent P a (recent_first at rows) ps.0 (All-recent_first P rows ps.1)

  first_row-All :
      (P : A → Type 0) (rows : List A) {a : A} → All P rows → first_row rows ≡ some a → P a
  first_row-All P [] ps e = ground arith
  first_row-All P (b ∷ rows) {a} ps e = let same : b ≡ a = ground arith in subst P same ps.0

  -- The current row of a worker is one of the rows, and it is current.
  pub current_row-In :
      (now : ℕ) (w : String) (rows : List A) {a : A}
      → current_row at now w rows ≡ some a
      → In a rows × (is_current now w (at a) ≡ true)
  unfolding current_row
  current_row-In now w rows e =
      let hits = filter (λ a. is_current now w (at a)) rows in
      first_row-All (λ a. In a rows × (is_current now w (at a) ≡ true)) (recent_first at hits)
        (All-recent_first (λ a. In a rows × (is_current now w (at a) ≡ true)) hits
          (All-filter (λ a. In a rows) (λ a. is_current now w (at a)) rows (All-In rows)))
        e

filter-and :
    {A : Type 0} (p q : A → Bool) (rows : List A)
    → filter (λ a. if p a then q a else false) rows ≡ filter q (filter p rows)
filter-and p q [] = refl
filter-and p q (a ∷ rows) = ground (arith, filter-and p q rows)

pick_current-some :
    (now : ℕ) (c : BudgetAllocation) (rows : List BudgetAllocation)
    → All (λ a. a.slot.period_start ≤ c.slot.period_start) rows
    → pick_current now (some c) rows ≡ some c
unfolding pick_current
pick_current-some now c [] all = refl
pick_current-some now c (a ∷ rows) all = elim (Bool-cases (is_open_at now a.slot)) [
  | inl open_now ↦
      let not_later : ltb c.slot.period_start a.slot.period_start ≡ false = ground (arith, all.0) in
      rw (open_now, not_later) (pick_current-some now c rows all.1)
  | inr shut ↦ rw shut (pick_current-some now c rows all.1)
]

pick_current-filter :
    (now : ℕ) (rows : List BudgetAllocation)
    → IsRecentFirst allocation_slot rows
    → pick_current now none rows ≡ first_row (filter (λ a. is_open_at now a.slot) rows)
unfolding pick_current
pick_current-filter now [] s = refl
pick_current-filter now (a ∷ rows) s = elim (Bool-cases (is_open_at now a.slot)) [
  | inl open_now ↦ rw open_now (pick_current-some now a rows s.0)
  | inr shut ↦ rw shut (pick_current-filter now rows s.1)
]

loop-query :
    (now : ℕ) (t : Tables) (w : String)
    → pick_current now none (get_worker_allocations t w) ≡ get_current_allocation now t w
unfolding get_worker_allocations get_current_allocation current_row
loop-query now t w =
    let rows = filter (λ a. is_of w a.slot) t.allocations in
    pick_current-filter now (recent_first allocation_slot rows)
      (recent_first-IsRecentFirst allocation_slot rows)
    ∙ ap first_row (
        filter-recent_first allocation_slot (λ a. is_open_at now a.slot) rows
        ∙ ap (recent_first allocation_slot)
            (sym (filter-and (λ a. is_of w a.slot) (λ a. is_open_at now a.slot) t.allocations)))

-- In the order in which rows stand here, the loop gives what the query gives, else the first row.
pub current_allocation-query :
    (now : ℕ) (t : Tables) (w : String)
    → current_allocation now t w
      ≡ or_first (get_current_allocation now t w) (get_worker_allocations t w)
unfolding current_allocation
current_allocation-query now t w =
    ap (λ c. or_first c (get_worker_allocations t w)) (loop-query now t w)

first_row-In :
    (w : String) (rows : List BudgetAllocation) {a : BudgetAllocation}
    → first_row (recent_first allocation_slot (filter (λ r. is_of w r.slot) rows)) ≡ some a
    → In a rows × (is_of w a.slot ≡ true)
first_row-In w rows =
    let hits = filter (λ r. is_of w r.slot) rows in
    first_row-All allocation_slot (λ a. In a rows × (is_of w a.slot ≡ true))
      (recent_first allocation_slot hits)
      (All-recent_first allocation_slot (λ a. In a rows × (is_of w a.slot ≡ true)) hits
        (All-filter (λ a. In a rows) (λ a. is_of w a.slot) rows (All-In rows)))

-- The allocation that `_get_current_allocation` gives is one of the worker's.
pub current_allocation-In :
    (now : ℕ) (t : Tables) (w : String) {a : BudgetAllocation}
    → current_allocation now t w ≡ some a
    → In a t.allocations × (a.slot.worker_id ≡ w)
unfolding get_current_allocation get_worker_allocations
current_allocation-In now t w {a} e = elim (Option-cases (get_current_allocation now t w)) [
  | inl nothing ↦
      let first : first_row (get_worker_allocations t w) ≡ some a =
        sym (current_allocation-query now t w ∙ rw nothing refl) ∙ e in
      let (i, of_w) = first_row-In w t.allocations first in (i, (eq_iff a.slot.worker_id w).0 of_w)
  | inr (c, found) ↦
      let same : c ≡ a = ground (arith, current_allocation-query now t w, found, e) in
      let (i, current) = current_row-In allocation_slot now w t.allocations found in
      (
        subst (λ r. In r t.allocations) same i,
        subst (λ r. r.slot.worker_id ≡ w) same
            ((eq_iff c.slot.worker_id w).0 (ground (arith, current))),
      )
]
