-- ===== src/Delegation/Subtree.antt =====
-- The subtree below a worker holds exactly the workers that unrevoked grants lead to.
use quinn_ai.Prelude.{
  ℕ, zero, suc, String, true, false, List, [], ◌∷◌, some, elem, In, here, there, ◌≡◌, refl, sym, ap,
  subst, ◌↔◌, ◌⊎◌, inl, inr, arith, Bool-cases, ◌==◌, string_eq, eq_iff, eq_refl,
}
use quinn_ai.Delegation.Grants.{DelegationGrant, Database, get_delegations_by_delegator}
use quinn_ai.Delegation.Cycles.{Seen, add_new, visit, search_below, get_delegation_subtree}

-- the unrevoked grants that a worker gave
abbrev pub gave : Database → String → List DelegationGrant
gave db x = get_delegations_by_delegator false db x

-- A path of unrevoked grants leads from the one worker down to the other, which may be the same.
pub data Below (db : Database) (a : String) : String → Type 0 where
  self : Below db a a
  step :
      {x : String} {g : DelegationGrant}
      → Below db a x
      → In g (gave db x)
      → Below db a g.delegate_id

-- What a visit may do: nothing is forgotten, and what is new is on the stack.
record Grows (before after : Seen) : Type 0 where
  kept : (x : String) → elem x before.0 ≡ true → elem x after.0 ≡ true
  stacked : (x : String) → elem x before.1 ≡ true → elem x after.1 ≡ true
  fresh : (x : String) → elem x after.0 ≡ true → (elem x before.0 ≡ true) ⊎ (elem x after.1 ≡ true)

Grows-trans : {a b c : Seen} → Grows a b → Grows b c → Grows a c
Grows-trans p q = record {
  kept = λ x h. q.kept x (p.kept x h);
  stacked = λ x h. q.stacked x (p.stacked x h);
  fresh = λ x h. elim (q.fresh x h) [
    | inr now_stacked ↦ inr now_stacked
    | inl old ↦ elim (p.fresh x old) [ inl older ↦ inl older | inr s ↦ inr (q.stacked x s) ]
  ];
}

add_new-Grows : (id : String) (seen : Seen) → Grows seen (add_new id seen)
unfolding add_new
add_new-Grows id seen = elim (Bool-cases (elem id seen.0)) [
  | inl old ↦ rw old (record { kept = λ x h. h; stacked = λ x h. h; fresh = λ x h. inl h })
  | inr new ↦ rw new (record {
    kept = λ x h. ground (arith, h);
    stacked = λ x h. ground (arith, h);
    fresh = λ x h. ground (arith, h);
  })
]

add_new-elem : (id : String) (seen : Seen) → elem id (add_new id seen).0 ≡ true
unfolding add_new
add_new-elem id seen = ground (arith, eq_refl id)

visit-Grows : (gs : List DelegationGrant) (seen : Seen) → Grows seen (visit gs seen)
unfolding visit
visit-Grows [] seen = record { kept = λ x h. h; stacked = λ x h. h; fresh = λ x h. inl h }
visit-Grows (g ∷ gs) seen =
    Grows-trans (add_new-Grows g.delegate_id seen) (visit-Grows gs (add_new g.delegate_id seen))

visit-elem :
    (gs : List DelegationGrant) (seen : Seen) {g : DelegationGrant}
    → In g gs
    → elem g.delegate_id (visit gs seen).0 ≡ true
unfolding visit
visit-elem [] seen i = elim i [ ]
visit-elem (h ∷ gs) seen {g} (here e) =
    (visit-Grows gs (add_new h.delegate_id seen)).kept g.delegate_id (
      subst (λ x. elem g.delegate_id (add_new x seen).0 ≡ true) (ap (λ x. x.delegate_id) e)
        (add_new-elem g.delegate_id seen))
visit-elem (h ∷ gs) seen (there i) = visit-elem gs (add_new h.delegate_id seen) i

-- All that the visited workers gave is found.
abbrev IsClosed : Database → Seen → Type 0
IsClosed db seen =
    (x : String) (g : DelegationGrant)
    → elem x seen.0 ≡ true
    → In g (gave db x)
    → (elem g.delegate_id seen.0 ≡ true) ⊎ (elem x seen.1 ≡ true)

visit-IsClosed :
    (db : Database) (subtree stack : List String) (current : String)
    → IsClosed db (subtree, current ∷ stack)
    → IsClosed db (visit (gave db current) (subtree, stack))
visit-IsClosed db subtree stack current closed x g found i =
    let grows = visit-Grows (gave db current) (subtree, stack) in
    elim (grows.fresh x found) [
      | inr stacked ↦ inr stacked
      | inl old ↦ elim (Bool-cases (x == current)) [
        | inl same ↦
            let i' = subst (λ y. In g (gave db y)) ((eq_iff x current).0 same) i in
            inl (visit-elem (gave db current) (subtree, stack) i')
        | inr other ↦ elim (closed x g old i) [
          | inl child ↦ inl (grows.kept g.delegate_id child)
          | inr waiting ↦ inr (grows.stacked x (ground (arith, waiting, other)))
        ]
      ]
    ]

pub search_below-IsClosed :
    (fuel : ℕ) (db : Database) (seen : Seen) {subtree : List String}
    → IsClosed db seen
    → search_below fuel db seen ≡ some subtree
    → IsClosed db (subtree, []) × ((x : String) → elem x seen.0 ≡ true → elem x subtree ≡ true)
unfolding search_below
search_below-IsClosed zero db seen closed h = ground arith
search_below-IsClosed (suc fuel) db (found, []) closed h =
    let same : found ≡ _ = ground (arith, h) in
    subst (λ s. IsClosed db (s, []) × ((x : String) → elem x found ≡ true → elem x s ≡ true)) same
      (closed, λ x i. i)
search_below-IsClosed (suc fuel) db (found, current ∷ stack) closed h =
    let (closed', keeps) =
      search_below-IsClosed fuel db (visit (gave db current) (found, stack))
        (visit-IsClosed db found stack current closed) h in
    (closed', λ x i. keeps x ((visit-Grows (gave db current) (found, stack)).kept x i))

closed-Below :
    {db : Database} {root y : String} (subtree : List String)
    → IsClosed db (subtree, [])
    → elem root subtree ≡ true
    → Below db root y
    → elem y subtree ≡ true
closed-Below subtree closed r self = r
closed-Below subtree closed r (step {x = x} {g = g} b i) =
    elim (closed x g (closed-Below subtree closed r b) i) [
      | inl found ↦ found
      | inr waiting ↦ ground arith
    ]

-- Whatever is found is below the root.
abbrev IsBelow : Database → String → Seen → Type 0
IsBelow db root seen =
    ((x : String) → elem x seen.0 ≡ true → Below db root x)
    × ((x : String) → elem x seen.1 ≡ true → Below db root x)

elem-cons-Below :
    {db : Database} {root id : String} (x : String) (xs : List String)
    → Below db root id
    → ((y : String) → elem y xs ≡ true → Below db root y)
    → elem x (id ∷ xs) ≡ true
    → Below db root x
elem-cons-Below {db} {root} {id} x xs b all i = elim (Bool-cases (x == id)) [
  | inl same ↦ subst (λ y. Below db root y) (sym ((eq_iff x id).0 same)) b
  | inr other ↦ all x (ground (arith, i, other))
]

elem-head : (x : String) (xs : List String) → elem x (x ∷ xs) ≡ true
elem-head x xs = ground (arith, eq_refl x)

elem-tail : (x y : String) (xs : List String) → elem x xs ≡ true → elem x (y ∷ xs) ≡ true
elem-tail x y xs i = ground (arith, i)

add_new-IsBelow :
    (db : Database) (root id : String) (seen : Seen)
    → Below db root id
    → IsBelow db root seen
    → IsBelow db root (add_new id seen)
unfolding add_new
add_new-IsBelow db root id seen b h = elim (Bool-cases (elem id seen.0)) [
  | inl old ↦ rw old h
  | inr new ↦
      rw new ((λ x i. elem-cons-Below x seen.0 b h.0 i), (λ x i. elem-cons-Below x seen.1 b h.1 i))
]

visit-IsBelow :
    (db : Database) (root : String) (gs : List DelegationGrant) (seen : Seen)
    → ((g : DelegationGrant) → In g gs → Below db root g.delegate_id)
    → IsBelow db root seen
    → IsBelow db root (visit gs seen)
unfolding visit
visit-IsBelow db root [] seen all h = h
visit-IsBelow db root (g ∷ gs) seen all h =
    visit-IsBelow db root gs (add_new g.delegate_id seen) (λ k i. all k (there i))
      (add_new-IsBelow db root g.delegate_id seen (all g (here refl)) h)

search_below-IsBelow :
    (fuel : ℕ) (db : Database) (root : String) (seen : Seen) {subtree : List String}
    → IsBelow db root seen
    → search_below fuel db seen ≡ some subtree
    → (x : String) → elem x subtree ≡ true
    → Below db root x
unfolding search_below
search_below-IsBelow zero db root seen b h x i = ground arith
search_below-IsBelow (suc fuel) db root (found, []) b h x i =
    b.0 x (subst (λ s. elem x s ≡ true) (ground (arith, h)) i)
search_below-IsBelow (suc fuel) db root (found, current ∷ stack) b h x i =
    search_below-IsBelow fuel db root (visit (gave db current) (found, stack))
      (visit-IsBelow db root (gave db current) (found, stack)
        (λ g given. step (b.1 current (elem-head current stack)) given)
        (b.0, λ y j. b.1 y (elem-tail y current stack j)))
      h x i

-- what a search that has ended found
pub subtree_iff :
    (fuel : ℕ) (db : Database) (root : String) (subtree : List String)
    → get_delegation_subtree fuel db root ≡ some subtree
    → (x : String) → (elem x subtree ≡ true) ↔ Below db root x
unfolding get_delegation_subtree
subtree_iff fuel db root subtree h x =
    let start : Seen = (root ∷ [], root ∷ []) in
    let (closed, keeps) = search_below-IsClosed fuel db start (λ y g found i. inr found) h in
    let only_root : (y : String) → elem y (root ∷ []) ≡ true → Below db root y =
      λ y i. subst (λ z. Below db root z) (ground (arith, i, eq_iff y root)) self in
    (
      search_below-IsBelow fuel db root start (only_root, only_root) h x,
      closed-Below subtree closed (keeps root (elem-head root [])),
    )
