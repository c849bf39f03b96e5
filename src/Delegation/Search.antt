-- ===== src/Delegation/Search.antt =====
-- The rows that the searches of cli/core/queries/delegation.py meet, and the end of the search below
-- a worker.
use quinn_ai.Prelude.{
  ℕ, zero, suc, ◌+◌, ◌≤◌, ◌<◌, String, Bool, true, false, not, List, [], ◌∷◌, some, elem, filter,
  In, here, there, All-In, All-filter, All-get, All-map, All-sort_by, In-filter, In-sort_by, count,
  count_lt, count_le_length, ◌↔◌, length, ◌≡◌, refl, sym, subst, inl, inr, arith, Bool-cases,
  Option-cases, string_eq, eq_iff, eq_refl,
}
use quinn_ai.Delegation.Grants.{
  DelegationGrant, Database, get_delegation_grant, get_delegations_by_delegator, granted_by,
  granted_time, fetchone, grants_to, if_active, is_unrevoked,
}
use quinn_ai.Delegation.Cycles.{Seen, add_new, visit, search_below, get_delegation_subtree}
use quinn_ai.Delegation.Subtree.{gave, Below, subtree_iff}

fetchone-In :
    (p : DelegationGrant → Bool) (gs : List DelegationGrant) {g : DelegationGrant}
    → fetchone p gs ≡ some g
    → In g gs × (p g ≡ true)
unfolding fetchone
fetchone-In p [] h = ground arith
fetchone-In p (x ∷ gs) {g} h = elim (Bool-cases (p x)) [
  | inl passed ↦
      let same : x ≡ g = ground arith in (here (sym same), subst (λ y. p y ≡ true) same passed)
  | inr dropped ↦ let (i, e) = fetchone-In p gs (ground arith) in (there i, e)
]

-- The grant that is found is a row of the table, for this delegate, and unrevoked.
pub get_delegation_grant-In :
    (now : ℕ) (db : Database) (w : String) {g : DelegationGrant}
    → get_delegation_grant now db w ≡ some g
    → In g db.grants × (g.delegate_id ≡ w) × (is_unrevoked g ≡ true)
unfolding get_delegation_grant if_active grants_to
get_delegation_grant-In now db w {g} h = elim (Option-cases (fetchone (grants_to w) db.grants)) [
  | inl nothing ↦ ground arith
  | inr (k, found) ↦
      let same : k ≡ g = ground arith in
      let (i, e) = fetchone-In (grants_to w) db.grants found in
      subst (λ x. In x db.grants × (x.delegate_id ≡ w) × (is_unrevoked x ≡ true)) same
        (i, ground (arith, eq_iff k.delegate_id w, e), ground (arith, e))
]

pub gave-In : (db : Database) (x : String) {g : DelegationGrant} → In g (gave db x) → In g db.grants
unfolding get_delegations_by_delegator
gave-In db x i =
    All-get (λ g. In g db.grants) (gave db x)
      (All-sort_by granted_time (λ g. In g db.grants) (filter (granted_by false x) db.grants)
        (All-map (filter (granted_by false x) db.grants) (λ g h. h.0)
          (All-filter (λ g. In g db.grants) (granted_by false x) db.grants (All-In db.grants))))
      i

pub In-gave :
    (db : Database) (g : DelegationGrant)
    → In g db.grants
    → is_unrevoked g ≡ true
    → In g (gave db g.delegator_id)
unfolding get_delegations_by_delegator granted_by
In-gave db g i u = In-sort_by granted_time (filter (granted_by false g.delegator_id) db.grants) (
    In-filter (granted_by false g.delegator_id) db.grants i
      (ground (arith, eq_refl g.delegator_id, u)))

-- how many grants are to workers who were not met yet
abbrev pub unmet : Database → List String → ℕ
unmet db met = count (λ g. not (elem g.delegate_id met)) db.grants

pub unmet-less :
    (db : Database) (met : List String) (g : DelegationGrant)
    → In g db.grants
    → elem g.delegate_id met ≡ false
    → unmet db (g.delegate_id ∷ met) < unmet db met
unmet-less db met g i new =
    count_lt (λ k. not (elem k.delegate_id met))
      (λ k. not (elem k.delegate_id (g.delegate_id ∷ met))) db.grants (λ k h. ground (arith, h)) i
      (ground (arith, new)) (ground (arith, eq_refl g.delegate_id))

-- what is left to do below a worker: every turn of the loop lowers it
abbrev pub work : Database → Seen → ℕ
work db seen = length seen.1 + unmet db seen.0

add_new-work :
    (db : Database) (g : DelegationGrant) (seen : Seen)
    → In g db.grants
    → work db (add_new g.delegate_id seen) ≤ work db seen
unfolding add_new
add_new-work db g seen i = elim (Bool-cases (elem g.delegate_id seen.0)) [
  | inl old ↦ rw old (omega arith)
  | inr new ↦ rw new (omega (arith, unmet-less db seen.0 g i new))
]

visit-work :
    (db : Database) (gs : List DelegationGrant) (seen : Seen)
    → ((g : DelegationGrant) → In g gs → In g db.grants)
    → work db (visit gs seen) ≤ work db seen
unfolding visit
visit-work db [] seen rows = omega arith
visit-work db (g ∷ gs) seen rows = omega (
  arith,
  visit-work db gs (add_new g.delegate_id seen) (λ k i. rows k (there i)),
  add_new-work db g seen (rows g (here refl)),
)

pub search_below_returns :
    (fuel : ℕ) (db : Database) (seen : Seen)
    → work db seen < fuel
    → (subtree : List String) × (search_below fuel db seen ≡ some subtree)
unfolding search_below
search_below_returns zero db seen h = absurd (omega (arith, h))
search_below_returns (suc fuel) db (found, []) h = (found, refl)
search_below_returns (suc fuel) db (found, current ∷ stack) h =
    search_below_returns fuel db (visit (gave db current) (found, stack)) (
      omega
        (arith, h, visit-work db (gave db current) (found, stack) (λ g i. gave-In db current i)))

-- With two rounds more than there are grants, `get_delegation_subtree` returns, and its result holds
-- exactly the root and the workers to whom a path of unrevoked grants leads down from it.
pub get_delegation_subtree_iff :
    (fuel : ℕ) (db : Database) (root : String)
    → length db.grants + 1 < fuel
    → (subtree : List String) × (get_delegation_subtree fuel db root ≡ some subtree)
      × ((x : String) → (elem x subtree ≡ true) ↔ Below db root x)
unfolding get_delegation_subtree
get_delegation_subtree_iff fuel db root enough =
    let (subtree, found) =
      search_below_returns fuel db (root ∷ [], root ∷ [])
        (omega
          (arith, enough, count_le_length (λ g. not (elem g.delegate_id (root ∷ []))) db.grants)) in
    (subtree, found, λ x. subtree_iff fuel db root subtree found x)
