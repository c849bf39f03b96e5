-- ===== src/Delegation/Check.antt =====
-- `get_delegation_chain` and `check_delegation_cycle` of cli/core/queries/delegation.py end, and the
-- test for cycles is right.
use quinn_ai.Prelude.{
  ℕ, zero, suc, ◌+◌, ◌<◌, String, Bool, true, false, not, List, [], ◌∷◌, none, some, elem, map,
  count_le_length, length, ◌≡◌, refl, sym, ap, subst, ◌↔◌, inl, inr, arith, Bool-cases,
  Option-cases, ◌==◌, string_eq, eq_iff, ◌∙◌,
}
use quinn_ai.Delegation.Grants.{DelegationGrant, Database, get_delegation_grant}
use quinn_ai.Delegation.Cycles.{
  get_delegation_subtree, chain_from, cons_some, get_delegation_chain, in_subtree,
  check_delegation_cycle,
}
use quinn_ai.Delegation.Subtree.{Below, self, step, subtree_iff}
use quinn_ai.Delegation.Search.{
  get_delegation_grant-In, In-gave, unmet, unmet-less, search_below_returns,
}

module _ (now : ℕ) (db : Database) where
  chain_seen :
      (fuel : ℕ) (w : String) (visited : List String)
      → elem w visited ≡ true
      → chain_from (suc fuel) now db w visited ≡ some []
  unfolding chain_from
  chain_seen fuel w visited h = rw (h, chain_from) refl

  chain_root :
      (fuel : ℕ) (w : String) (visited : List String)
      → elem w visited ≡ false
      → get_delegation_grant now db w ≡ none
      → chain_from (suc fuel) now db w visited ≡ some []
  unfolding chain_from
  chain_root fuel w visited h e = rw (h, e, chain_from) refl

  chain_link :
      (fuel : ℕ) (w : String) (visited : List String) (g : DelegationGrant)
      → elem w visited ≡ false
      → get_delegation_grant now db w ≡ some g
      → chain_from (suc fuel) now db w visited
        ≡ cons_some g (chain_from fuel now db g.delegator_id (w ∷ visited))
  unfolding chain_from
  chain_link fuel w visited g h e = rw (h, e, chain_from) refl

  chain_from_returns :
      (fuel : ℕ) (w : String) (visited : List String)
      → unmet db visited < fuel
      → (chain : List DelegationGrant) × (chain_from fuel now db w visited ≡ some chain)
  chain_from_returns zero w visited h = absurd (omega (arith, h))
  chain_from_returns (suc fuel) w visited h = elim (Bool-cases (elem w visited)) [
    | inl seen ↦ ([], chain_seen fuel w visited seen)
    | inr new ↦ elim (Option-cases (get_delegation_grant now db w)) [
      | inl root ↦ ([], chain_root fuel w visited new root)
      | inr (g, found) ↦
          let (row, same, _) = get_delegation_grant-In now db w found in
          let less : unmet db (w ∷ visited) < unmet db visited =
            subst (λ x. unmet db (x ∷ visited) < unmet db visited) same
              (unmet-less db visited g row (subst (λ x. elem x visited ≡ false) (sym same) new)) in
          let (rest, e) =
            chain_from_returns fuel g.delegator_id (w ∷ visited) (omega (arith, h, less)) in
          (g ∷ rest, chain_link fuel w visited g new found ∙ ap (cons_some g) e)
    ]
  ]

  abbrev delegates : List DelegationGrant → List String
  delegates chain = map (λ g. g.delegate_id) chain

  -- Whoever stands in the chain of a worker is above it.
  chain_from-Below :
      (fuel : ℕ) (w : String) (visited : List String) {chain : List DelegationGrant} (x : String)
      → chain_from fuel now db w visited ≡ some chain
      → elem x (delegates chain) ≡ true
      → Below db x w
  unfolding chain_from
  chain_from-Below zero w visited x h i = ground arith
  chain_from-Below (suc fuel) w visited {chain} x h i = elim (Bool-cases (elem w visited)) [
    | inl seen ↦
        let nobody : [] ≡ chain = ground (arith, chain_seen fuel w visited seen, h) in
        ground (arith, subst (λ c. elem x (delegates c) ≡ true) (sym nobody) i)
    | inr new ↦ elim (Option-cases (get_delegation_grant now db w)) [
      | inl root ↦
          let nobody : [] ≡ chain = ground (arith, chain_root fuel w visited new root, h) in
          ground (arith, subst (λ c. elem x (delegates c) ≡ true) (sym nobody) i)
      | inr (g, found) ↦ elim (Option-cases (chain_from fuel now db g.delegator_id (w ∷ visited))) [
        | inl running ↦
            absurd
              (ground (arith, chain_link fuel w visited g new found ∙ ap (cons_some g) running, h))
        | inr (rest, e) ↦
            let same : g ∷ rest ≡ chain =
              ground (arith, chain_link fuel w visited g new found ∙ ap (cons_some g) e, h) in
            let (row, to_w, unrevoked) = get_delegation_grant-In now db w found in
            let i' = subst (λ c. elem x (delegates c) ≡ true) (sym same) i in
            elim (Bool-cases (x == g.delegate_id)) [
              | inl this ↦ subst (λ y. Below db x y) ((eq_iff x g.delegate_id).0 this ∙ to_w) self
              | inr other ↦
                  let above =
                    chain_from-Below fuel g.delegator_id (w ∷ visited) x e
                      (ground (arith, i', other)) in
                  subst (λ y. Below db x y) to_w (step above (In-gave db g row unrevoked))
            ]
      ]
    ]
  ]

  check-chain :
      (fuel : ℕ) (delegator delegate : String) (chain : List DelegationGrant)
      → get_delegation_chain fuel now db delegator ≡ some chain
      → elem delegate (delegator ∷ delegates chain) ≡ true
      → check_delegation_cycle fuel now db delegator delegate ≡ some true
  unfolding check_delegation_cycle
  check-chain fuel delegator delegate chain e i = rw (e, i, check_delegation_cycle) refl

  check-subtree :
      (fuel : ℕ) (delegator delegate : String) (chain : List DelegationGrant)
      {subtree : List String}
      → get_delegation_chain fuel now db delegator ≡ some chain
      → elem delegate (delegator ∷ delegates chain) ≡ false
      → get_delegation_subtree fuel db delegate ≡ some subtree
      → check_delegation_cycle fuel now db delegator delegate ≡ some (elem delegator subtree)
  unfolding check_delegation_cycle in_subtree
  check-subtree fuel delegator delegate chain e i f = rw (e, i, f, check_delegation_cycle) refl

  -- With two rounds more than there are grants, `check_delegation_cycle` returns, and it answers that
  -- there would be a cycle exactly if the delegator is the delegate itself or a worker to whom a path
  -- of unrevoked grants leads down from the delegate.
  pub check_delegation_cycle_iff :
      (fuel : ℕ) (delegator delegate : String)
      → length db.grants + 1 < fuel
      → (answer : Bool) × (check_delegation_cycle fuel now db delegator delegate ≡ some answer)
        × ((answer ≡ true) ↔ Below db delegate delegator)
  unfolding get_delegation_chain get_delegation_subtree
  check_delegation_cycle_iff fuel delegator delegate enough =
      let (chain, up) =
        chain_from_returns fuel delegator []
          (omega (arith, enough, count_le_length (λ g. not (elem g.delegate_id [])) db.grants)) in
      let (subtree, down) =
        search_below_returns fuel db (delegate ∷ [], delegate ∷ [])
          (omega (
            arith,
            enough,
            count_le_length (λ g. not (elem g.delegate_id (delegate ∷ []))) db.grants,
          )) in
      elim (Bool-cases (elem delegate (delegator ∷ delegates chain))) [
        | inl above ↦ (
          true,
          check-chain fuel delegator delegate chain up above,
          (
            λ _. elim (Bool-cases (delegate == delegator)) [
              | inl same ↦
                  subst (λ x. Below db delegate x) ((eq_iff delegate delegator).0 same) self
              | inr other ↦
                  chain_from-Below fuel delegator [] delegate up (ground (arith, above, other))
            ],
            λ _. refl,
          ),
        )
        | inr not_above ↦ (
          elem delegator subtree,
          check-subtree fuel delegator delegate chain up not_above down,
          subtree_iff fuel db delegate subtree down delegator,
        )
      ]
