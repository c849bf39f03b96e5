-- ===== src/Prelude/Sort.antt =====
-- Python's `list.sort(key=...)`: a stable sort.
use Prim.Native.Nat.{ℕ, suc, ◌≤◌}
use mathlib.Core.Path.{◌≡◌, refl, sym, ap, subst, ◌∙◌}
use mathlib.Core.Logic.{inl, inr}
use mathlib.Core.Bool.{Bool, false}
use mathlib.Core.List.{List, [], ◌∷◌}
use native.Mathlib.Omega.{arith}
use quinn_ai.Prelude.Tests.{leb, nat_beq, if◌then◌else◌, Bool-cases}
use quinn_ai.Prelude.Lists.{All, In, here, there, filter, length}

module _ {ℓ} {A : Type ℓ} (key : A → ℕ) where
  -- before the first item whose key is not smaller
  unfoldable pub insert_by : A → List A → List A
  insert_by x [] = x ∷ []
  insert_by x (y ∷ ys) =
      let rest = insert_by x ys in if leb (key x) (key y) then x ∷ y ∷ ys else y ∷ rest

  unfoldable pub sort_by : List A → List A
  unfolding insert_by
  sort_by [] = []
  sort_by (x ∷ xs) = insert_by x (sort_by xs)

  abbrev pub IsSortedBy : List A → Type 0
  IsSortedBy [] = Unit
  IsSortedBy (x ∷ xs) = All (λ y. key x ≤ key y) xs × IsSortedBy xs

  All-le_trans : (a b : ℕ) (xs : List A) → a ≤ b → All (λ y. b ≤ key y) xs → All (λ y. a ≤ key y) xs
  All-le_trans a b [] h all = tt
  All-le_trans a b (x ∷ xs) h all = (omega (arith, all.0), All-le_trans a b xs h all.1)

  pub All-insert_by {κ} :
      (P : A → Type κ) (x : A) (ys : List A) → P x → All P ys → All P (insert_by x ys)
  unfolding insert_by
  All-insert_by P x [] p all = (p, tt)
  All-insert_by P x (y ∷ ys) p all = elim (Bool-cases (leb (key x) (key y))) [
    | inl first ↦ rw first (p, all)
    | inr later ↦ rw later (all.0, All-insert_by P x ys p all.1)
  ]

  pub All-sort_by {κ} : (P : A → Type κ) (xs : List A) → All P xs → All P (sort_by xs)
  unfolding sort_by
  All-sort_by P [] all = tt
  All-sort_by P (x ∷ xs) all = All-insert_by P x (sort_by xs) all.0 (All-sort_by P xs all.1)

  insert_by-All {κ} :
      (P : A → Type κ) (x : A) (ys : List A) → All P (insert_by x ys) → P x × All P ys
  unfolding insert_by
  insert_by-All P x [] ps = (ps.0, tt)
  insert_by-All P x (y ∷ ys) ps = elim (Bool-cases (leb (key x) (key y))) [
    | inl first ↦ subst (λ b. All P (if b then x ∷ y ∷ ys else y ∷ insert_by x ys)) first ps
    | inr later ↦
        let (first, rest) : P y × All P (insert_by x ys) =
          subst (λ b. All P (if b then x ∷ y ∷ ys else y ∷ insert_by x ys)) later ps in
        let (p, all) = insert_by-All P x ys rest in (p, (first, all))
  ]

  pub sort_by-All {κ} : (P : A → Type κ) (xs : List A) → All P (sort_by xs) → All P xs
  unfolding sort_by
  sort_by-All P [] ps = tt
  sort_by-All P (x ∷ xs) ps =
      let (p, rest) = insert_by-All P x (sort_by xs) ps in (p, sort_by-All P xs rest)

  insert_by-here : (x : A) (ys : List A) → In x (insert_by x ys)
  unfolding insert_by
  insert_by-here x [] = here refl
  insert_by-here x (y ∷ ys) = elim (Bool-cases (leb (key x) (key y))) [
    | inl first ↦ rw first (here refl)
    | inr later ↦ rw later (there (insert_by-here x ys))
  ]

  insert_by-there : (x : A) (ys : List A) {a : A} → In a ys → In a (insert_by x ys)
  unfolding insert_by
  insert_by-there x [] i = there i
  insert_by-there x (y ∷ ys) (here e) = elim (Bool-cases (leb (key x) (key y))) [
    | inl first ↦ rw first (there (here e))
    | inr later ↦ rw later (here e)
  ]
  insert_by-there x (y ∷ ys) (there i) = elim (Bool-cases (leb (key x) (key y))) [
    | inl first ↦ rw first (there (there i))
    | inr later ↦ rw later (there (insert_by-there x ys i))
  ]

  pub In-sort_by : (xs : List A) {a : A} → In a xs → In a (sort_by xs)
  unfolding sort_by
  In-sort_by [] i = elim i [ ]
  In-sort_by (x ∷ xs) (here e) =
      subst (λ b. In b (insert_by x (sort_by xs))) (sym e) (insert_by-here x (sort_by xs))
  In-sort_by (x ∷ xs) (there i) = insert_by-there x (sort_by xs) (In-sort_by xs i)

  insert_by-IsSortedBy : (x : A) (ys : List A) → IsSortedBy ys → IsSortedBy (insert_by x ys)
  unfolding insert_by
  insert_by-IsSortedBy x [] s = (tt, tt)
  insert_by-IsSortedBy x (y ∷ ys) s = elim (Bool-cases (leb (key x) (key y))) [
    | inl first ↦
        let le : key x ≤ key y = ground arith in
        rw first ((le, All-le_trans (key x) (key y) ys le s.0), s)
    | inr later ↦
        let le : key y ≤ key x = ground arith in
        rw later (All-insert_by (λ z. key y ≤ key z) x ys le s.0, insert_by-IsSortedBy x ys s.1)
  ]

  pub sort_by-IsSortedBy : (xs : List A) → IsSortedBy (sort_by xs)
  unfolding sort_by
  sort_by-IsSortedBy [] = tt
  sort_by-IsSortedBy (x ∷ xs) = insert_by-IsSortedBy x (sort_by xs) (sort_by-IsSortedBy xs)

  length-insert_by : (x : A) (ys : List A) → length (insert_by x ys) ≡ suc (length ys)
  unfolding insert_by
  length-insert_by x [] = refl
  length-insert_by x (y ∷ ys) = ground (arith, length-insert_by x ys)

  pub length-sort_by : (xs : List A) → length (sort_by xs) ≡ length xs
  unfolding sort_by
  length-sort_by [] = refl
  length-sort_by (x ∷ xs) = length-insert_by x (sort_by xs) ∙ ap suc (length-sort_by xs)

  -- The items with a given key that pass a test, in their order.
  abbrev pub tied : (A → Bool) → ℕ → List A → List A
  tied p k = filter (λ y. if nat_beq (key y) k then p y else false)

  tied-insert_by :
      (p : A → Bool) (k : ℕ) (x : A) (ys : List A)
      → IsSortedBy ys
      → tied p k (insert_by x ys) ≡ tied p k (x ∷ ys)
  unfolding insert_by
  tied-insert_by p k x [] s = refl
  tied-insert_by p k x (y ∷ ys) s = ground (arith, tied-insert_by p k x ys s.1)

  -- The sort is stable.
  pub tied-sort_by : (p : A → Bool) (k : ℕ) (xs : List A) → tied p k (sort_by xs) ≡ tied p k xs
  unfolding sort_by
  tied-sort_by p k [] = refl
  tied-sort_by p k (x ∷ xs) =
      tied-insert_by p k x (sort_by xs) (sort_by-IsSortedBy xs) ∙ rw (tied-sort_by p k xs) refl
