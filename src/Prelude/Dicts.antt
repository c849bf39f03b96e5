-- ===== src/Prelude/Dicts.antt =====
-- Python's `dict` with text keys: an association list in insertion order.
use Prim.Native.String.{String}
use mathlib.Core.Path.{◌≡◌, refl, ap, subst}
use mathlib.Core.Bool.{Bool}
use mathlib.Core.Option.{Option, none, some}
use mathlib.Core.List.{List, [], ◌∷◌}
use native.Mathlib.Omega.{arith}
use text.Mathlib.TextEquality.{eq_iff}
use quinn_ai.Prelude.Tests.{◌==◌, string_eq, if◌then◌else◌, Bool-cases}
use quinn_ai.Prelude.Lists.{All, In, here, there, count}
use Prim.Native.Nat.{◌+◌}
use mathlib.Core.Logic.{inl, inr}

abbrev pub Dict {ℓ} : Type ℓ → Type ℓ
Dict V = List (String × V)

module _ {ℓ} {V : Type ℓ} where
  -- `d.get(k)`
  unfoldable pub lookup : String → Dict V → Option V
  lookup k [] = none
  lookup k ((j, v) ∷ d) = let rest = lookup k d in if j == k then some v else rest

  -- `d[k] = v`: in place where the key is there, else at the end
  unfoldable pub insert : String → V → Dict V → Dict V
  insert k v [] = (k, v) ∷ []
  insert k v ((j, w) ∷ d) = let rest = insert k v d in if j == k then (j, v) ∷ d else (j, w) ∷ rest

  -- `d.pop(k, None)`
  unfoldable pub remove : String → Dict V → Dict V
  remove k [] = []
  remove k ((j, v) ∷ d) = let rest = remove k d in if j == k then rest else (j, v) ∷ rest

  -- `d.values()`
  abbrev pub values : Dict V → List V
  values [] = []
  values ((_, v) ∷ d) = v ∷ values d

  pub lookup-insert :
      (k j : String) (v : V) (d : Dict V)
      → lookup j (insert k v d) ≡ (if k == j then some v else lookup j d)
  unfolding lookup insert
  lookup-insert k j v [] = refl
  lookup-insert k j v ((i, w) ∷ d) =
      ground (arith, eq_iff k j, eq_iff i k, eq_iff i j, lookup-insert k j v d)

  pub lookup-remove :
      (k j : String) (d : Dict V) → lookup j (remove k d) ≡ (if k == j then none else lookup j d)
  unfolding lookup remove
  lookup-remove k j [] = ground arith
  lookup-remove k j ((i, w) ∷ d) =
      ground (arith, eq_iff k j, eq_iff i k, eq_iff i j, lookup-remove k j d)

  -- Each value stands once, under the key that it bears.
  abbrev pub IsKeyedBy : (V → String) → Dict V → Type ℓ
  IsKeyedBy key [] = Unit
  IsKeyedBy key ((k, v) ∷ d) = (key v ≡ k) × (lookup k d ≡ none) × IsKeyedBy key d

  pub insert-IsKeyedBy :
      (key : V → String) (k : String) (v : V) (d : Dict V)
      → key v ≡ k
      → IsKeyedBy key d
      → IsKeyedBy key (insert k v d)
  unfolding insert lookup
  insert-IsKeyedBy key k v [] e h = (e, refl, tt)
  insert-IsKeyedBy key k v ((j, w) ∷ d) e h =
      ground
        (arith, insert-IsKeyedBy key k v d e h.2, lookup-insert k j v d, eq_iff j k, eq_iff k j)

  pub In-lookup :
      (key : V → String) (v : V) (d : Dict V)
      → IsKeyedBy key d
      → In v (values d)
      → lookup (key v) d ≡ some v
  unfolding lookup
  In-lookup key v [] h i = elim i [ ]
  In-lookup key v ((k, w) ∷ d) h (here e) = ground (arith, ap key e, eq_iff k (key v))
  In-lookup key v ((k, w) ∷ d) h (there i) =
      ground (arith, In-lookup key v d h.2 i, eq_iff k (key v))

  pub key-lookup :
      (key : V → String) (k : String) (d : Dict V) {v : V}
      → IsKeyedBy key d
      → lookup k d ≡ some v
      → key v ≡ k
  unfolding lookup
  key-lookup key k [] h e = ground arith
  key-lookup key k ((j, w) ∷ d) {v} h e = elim (Bool-cases (j == k)) [
    | inl same ↦
        let this : w ≡ v = ground arith in
        let at_j : key v ≡ j = subst (λ x. key x ≡ j) this h.0 in ground (arith, eq_iff j k)
    | inr other ↦ let rest : lookup k d ≡ some v = ground arith in key-lookup key k d h.2 rest
  ]

  pub All-insert {κ} :
      (P : V → Type κ) (k : String) (v : V) (d : Dict V)
      → P v
      → All P (values d)
      → All P (values (insert k v d))
  unfolding insert
  All-insert P k v [] p h = (p, tt)
  All-insert P k v ((j, w) ∷ d) p h = elim (Bool-cases (j == k)) [
    | inl same ↦ rw (same, insert) (p, h.1)
    | inr other ↦ rw (other, insert) (h.0, All-insert P k v d p h.1)
  ]

  pub All-lookup {κ} :
      (P : V → Type κ) (k : String) (d : Dict V) {v : V}
      → All P (values d)
      → lookup k d ≡ some v
      → P v
  unfolding lookup
  All-lookup P k [] h e = ground arith
  All-lookup P k ((j, w) ∷ d) {v} h e = elim (Bool-cases (j == k)) [
    | inl same ↦ let this : w ≡ v = ground arith in subst P this h.0
    | inr other ↦ let rest : lookup k d ≡ some v = ground arith in All-lookup P k d h.1 rest
  ]

  -- Putting a value in the place of another changes the count of a test by these two.
  pub count-insert :
      (p : V → Bool) (k : String) (v w : V) (d : Dict V)
      → lookup k d ≡ some w
      → count p (values (insert k v d)) + (if p w then 1 else 0)
        ≡ count p (values d) + (if p v then 1 else 0)
  unfolding insert lookup count
  count-insert p k v w [] e = ground arith
  count-insert p k v w ((j, u) ∷ d) e = elim (Bool-cases (j == k)) [
    | inl same ↦ let this : u ≡ w = ground arith in ground arith
    | inr other ↦ ground (arith, count-insert p k v w d)
  ]

pub ruleset dict_laws = (lookup-insert, lookup-remove)
