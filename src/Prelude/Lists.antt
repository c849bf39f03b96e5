-- ===== src/Prelude/Lists.antt =====
-- Lists over the native numbers, Python's `in`, comprehensions, `all` and `any`.
use Prim.Native.Nat.{ℕ, zero, suc, ◌+◌, ◌≤◌, ◌<◌}
use mathlib.Core.Path.{◌≡◌, refl, sym, subst}
use mathlib.Core.Logic.{inl, inr}
use mathlib.Core.Bool.{Bool, true, false}
use mathlib.Core.List.{List, [], ◌∷◌, ◌++◌, map}
use native.Mathlib.Omega.{arith}
use quinn_ai.Prelude.Tests.{Bool-cases, Eq, ◌==◌, if◌then◌else◌}

module _ {ℓ} {A : Type ℓ} where
  abbrev pub length : List A → ℕ
  length [] = 0
  length (x ∷ xs) = suc (length xs)

  abbrev pub take : ℕ → List A → List A
  take zero xs = []
  take (suc n) [] = []
  take (suc n) (x ∷ xs) = x ∷ take n xs

  -- `[x for x in xs if p(x)]`
  abbrev pub filter : (A → Bool) → List A → List A
  filter p [] = []
  filter p (x ∷ xs) = let rest = filter p xs in if p x then x ∷ rest else rest

  abbrev pub any : (A → Bool) → List A → Bool
  any p [] = false
  any p (x ∷ xs) = let rest = any p xs in if p x then true else rest

  -- Every item of the list has `P`; some item has it.
  abbrev pub All {κ} : (A → Type κ) → List A → Type κ
  All P [] = Unit
  All P (x ∷ xs) = P x × All P xs

  -- `a` stands in the list.
  pub data In (a : A) : List A → Type ℓ where
    here : {x : A} {xs : List A} → a ≡ x → In a (x ∷ xs)
    there : {x : A} {xs : List A} → In a xs → In a (x ∷ xs)

  pub length-append : (xs ys : List A) → length (xs ++ ys) ≡ length xs + length ys
  length-append [] ys = omega arith
  length-append (x ∷ xs) ys = omega (arith, length-append xs ys)

pub All-append {ℓ κ} :
    {A : Type ℓ} (P : A → Type κ) (front back : List A)
    → All P front
    → All P back
    → All P (front ++ back)
All-append P [] ys left right = right
All-append P (x ∷ xs) ys left right = (left.0, All-append P xs ys left.1 right)

pub All-map {ℓ κ μ} :
    {A : Type ℓ} {P : A → Type κ} {R : A → Type μ} (xs : List A)
    → ((a : A) → P a → R a)
    → All P xs
    → All R xs
All-map [] f ps = tt
All-map (x ∷ xs) f ps = (f x ps.0, All-map xs f ps.1)

pub All-mapped {ℓ κ μ} :
    {A : Type ℓ} {B : Type κ} (P : B → Type μ) (f : A → B) (xs : List A)
    → All (λ a. P (f a)) xs
    → All P (map f xs)
All-mapped P f [] ps = tt
All-mapped P f (x ∷ xs) ps = (ps.0, All-mapped P f xs ps.1)

pub All-filter {ℓ κ} :
    {A : Type ℓ} (P : A → Type κ) (p : A → Bool) (xs : List A)
    → All P xs
    → All (λ a. P a × (p a ≡ true)) (filter p xs)
All-filter P p [] ps = tt
All-filter P p (x ∷ xs) ps = elim (Bool-cases (p x)) [
  | inl passed ↦ rw passed ((ps.0, passed), All-filter P p xs ps.1)
  | inr dropped ↦ rw dropped (All-filter P p xs ps.1)
]

pub filter-All {ℓ κ} :
    {A : Type ℓ} (P : A → Type κ) (p : A → Bool) (xs : List A)
    → All P (filter p xs)
    → All (λ a. p a ≡ true → P a) xs
filter-All P p [] ps = tt
filter-All P p (x ∷ xs) ps = elim (Bool-cases (p x)) [
  | inl passed ↦
      let (first, rest) : P x × All P (filter p xs) =
        subst (λ b. All P (if b then x ∷ filter p xs else filter p xs)) passed ps in
      (λ _. first, filter-All P p xs rest)
  | inr dropped ↦
      let rest : All P (filter p xs) =
        subst (λ b. All P (if b then x ∷ filter p xs else filter p xs)) dropped ps in
      (λ passed. ground arith, filter-All P p xs rest)
]

pub All-In {ℓ} : {A : Type ℓ} (xs : List A) → All (λ a. In a xs) xs
All-In [] = tt
All-In (x ∷ xs) = (here refl, All-map xs (λ a i. there i) (All-In xs))

pub All-get {ℓ κ} : {A : Type ℓ} (P : A → Type κ) (xs : List A) {a : A} → All P xs → In a xs → P a
All-get P [] ps i = elim i [ ]
All-get P (x ∷ xs) ps (here e) = subst P (sym e) ps.0
All-get P (x ∷ xs) ps (there i) = All-get P xs ps.1 i

-- How many items pass a test.
unfoldable pub count {ℓ} : {A : Type ℓ} → (A → Bool) → List A → ℕ
count p [] = 0
count p (x ∷ xs) = let rest = count p xs in if p x then suc rest else rest

pub In-filter {ℓ} :
    {A : Type ℓ} (p : A → Bool) (xs : List A) {a : A} → In a xs → p a ≡ true → In a (filter p xs)
In-filter p [] i h = elim i [ ]
In-filter p (x ∷ xs) (here e) h =
    let passed : p x ≡ true = subst (λ y. p y ≡ true) e h in rw passed (here e)
In-filter p (x ∷ xs) (there i) h = elim (Bool-cases (p x)) [
  | inl passed ↦ rw passed (there (In-filter p xs i h))
  | inr dropped ↦ rw dropped (In-filter p xs i h)
]

pub count_le_length {ℓ} : {A : Type ℓ} (p : A → Bool) (xs : List A) → count p xs ≤ length xs
unfolding count
count_le_length p [] = omega arith
count_le_length p (x ∷ xs) = ground (arith, count_le_length p xs)

-- A stronger test counts no more items, and fewer if it refuses an item that the other passes.
pub count_le {ℓ} :
    {A : Type ℓ} (p q : A → Bool) (xs : List A)
    → ((a : A) → q a ≡ true → p a ≡ true)
    → count q xs ≤ count p xs
unfolding count
count_le p q [] stronger = omega arith
count_le p q (x ∷ xs) stronger = ground (arith, stronger x, count_le p q xs stronger)

pub count_lt {ℓ} :
    {A : Type ℓ} (p q : A → Bool) (xs : List A) {a : A}
    → ((b : A) → q b ≡ true → p b ≡ true)
    → In a xs
    → p a ≡ true
    → q a ≡ false
    → count q xs < count p xs
unfolding count
count_lt p q [] stronger i yes_p no_q = elim i [ ]
count_lt p q (x ∷ xs) stronger (here e) yes_p no_q =
    let yes_x = subst (λ y. p y ≡ true) e yes_p in
    let no_x = subst (λ y. q y ≡ false) e no_q in ground (arith, count_le p q xs stronger)
count_lt p q (x ∷ xs) stronger (there i) yes_p no_q =
    ground (arith, stronger x, count_lt p q xs stronger i yes_p no_q)

pub count-none {ℓ} :
    {A : Type ℓ} (p : A → Bool) (xs : List A) → All (λ a. p a ≡ false) xs → count p xs ≡ 0
unfolding count
count-none p [] none_passes = refl
count-none p (x ∷ xs) none_passes = rw none_passes.0 (count-none p xs none_passes.1)

-- How many of a few tests hold, as a sum of these.
abbrev pub count_true : Bool → ℕ
count_true b = if b then 1 else 0

-- `x in xs`
abbrev pub elem {ℓ} : {A : Type ℓ} ⦃e : Eq A⦄ → A → List A → Bool
elem a [] = false
elem a (x ∷ xs) = let rest = elem a xs in if a == x then true else rest

-- No item stands twice.
abbrev pub IsDistinct {ℓ} : {A : Type ℓ} ⦃e : Eq A⦄ → List A → Type 0
IsDistinct [] = Unit
IsDistinct (x ∷ xs) = (elem x xs ≡ false) × IsDistinct xs

pub elem-append {ℓ} :
    {A : Type ℓ} ⦃e : Eq A⦄ (a b : A) (xs : List A)
    → elem a (xs ++ b ∷ []) ≡ (if elem a xs then true else a == b)
elem-append a b [] = ground arith
elem-append a b (x ∷ xs) = ground (arith, elem-append a b xs)
