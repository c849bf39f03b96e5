-- ===== src/Delegation/Cycles.antt =====
-- The chain above a worker, the subtree below it, and the test for cycles, of
-- cli/core/queries/delegation.py. The loops run on fuel; `none` is a loop that is still running.
use quinn_ai.Prelude.{
  ℕ, zero, suc, String, Bool, true, false, List, [], ◌∷◌, Option, none, some, map, elem, string_eq,
  if◌then◌else◌,
}
use quinn_ai.Delegation.Grants.{
  DelegationGrant, Database, get_delegation_grant, get_delegations_by_delegator,
}

abbrev pub cons_some :
    DelegationGrant → Option (List DelegationGrant) → Option (List DelegationGrant)
cons_some g none = none
cons_some g (some gs) = some (g ∷ gs)

-- the loop of `get_delegation_chain`, from a worker, with the workers that were visited
unfoldable pub chain_from : ℕ → ℕ → Database → String → List String → Option (List DelegationGrant)
chain_from zero now db current visited = none
chain_from (suc fuel) now db current visited = elim (elem current visited) [
  | true ↦ some []
  | false ↦ elim (get_delegation_grant now db current) [
    | none ↦ some []
    | some g ↦ cons_some g (chain_from fuel now db g.delegator_id (current ∷ visited))
  ]
]

unfoldable pub get_delegation_chain : ℕ → ℕ → Database → String → Option (List DelegationGrant)
get_delegation_chain fuel now db worker_id = chain_from fuel now db worker_id []

-- The workers that were found, and those of them that are still to be visited.
abbrev pub Seen : Type 0
Seen = List String × List String

unfoldable pub add_new : String → Seen → Seen
add_new id (subtree, stack) =
    if elem id subtree then (subtree, stack) else (id ∷ subtree, id ∷ stack)

-- the loop over the grants of one worker
unfoldable pub visit : List DelegationGrant → Seen → Seen
visit [] seen = seen
visit (g ∷ gs) seen = visit gs (add_new g.delegate_id seen)

-- the loop while the stack is not empty
unfoldable pub search_below : ℕ → Database → Seen → Option (List String)
search_below zero db seen = none
search_below (suc fuel) db (subtree, []) = some subtree
search_below (suc fuel) db (subtree, current ∷ stack) =
    search_below fuel db (visit (get_delegations_by_delegator false db current) (subtree, stack))

unfoldable pub get_delegation_subtree : ℕ → Database → String → Option (List String)
get_delegation_subtree fuel db root_id = search_below fuel db (root_id ∷ [], root_id ∷ [])

unfoldable pub in_subtree : String → Option (List String) → Option Bool
in_subtree id none = none
in_subtree id (some subtree) = some (elem id subtree)

unfoldable pub check_delegation_cycle : ℕ → ℕ → Database → String → String → Option Bool
unfolding in_subtree
check_delegation_cycle fuel now db delegator_id delegate_id =
    elim (get_delegation_chain fuel now db delegator_id) [
      | none ↦ none
      | some chain ↦
          if elem delegate_id (delegator_id ∷ map (λ g. g.delegate_id) chain)
          then some true
          else in_subtree delegator_id (get_delegation_subtree fuel db delegate_id)
    ]
