-- ===== src/Rules/Index.antt =====
-- The index of rules by action that RuleEngine of cli/core/rules/engine.py builds.
use quinn_ai.Prelude.{
  String, Bool, true, false, List, [], ◌∷◌, ◌++◌, Option, none, some, Dict, lookup, insert,
  lookup-insert, elem, All, All-append, All-In, In, ◌==◌, string_eq, if◌then◌else◌, ◌≡◌, refl, ap,
  ◌∙◌, ◌⊎◌, inl, inr, arith, Bool-cases, eq_iff,
}
use quinn_ai.Rules.Types.{Rule}
use quinn_ai.Rules.Engine.{candidate_rules, index_rule, index_rules}

-- the first rule that passes a test
abbrev pub first_such : (Rule → Bool) → List Rule → Option Rule
first_such p [] = none
first_such p (r ∷ rules) = let rest = first_such p rules in if p r then some r else rest

abbrev pub else_find : Option Rule → Option Rule → Option Rule
else_find (some r) other = some r
else_find none other = other

abbrev if_passes : (Rule → Bool) → Rule → Option Rule
if_passes p r = if p r then some r else none

first_such-append :
    (p : Rule → Bool) (xs ys : List Rule)
    → first_such p (xs ++ ys) ≡ else_find (first_such p xs) (first_such p ys)
first_such-append p [] ys = refl
first_such-append p (x ∷ xs) ys = elim (Bool-cases (p x)) [
  | inl yes_p ↦ rw yes_p refl
  | inr no_p ↦ rw (no_p, first_such-append p xs ys) refl
]

candidate_rules-insert :
    (a action : String) (rules : List Rule) (index : Dict (List Rule))
    → candidate_rules action (insert a rules index)
      ≡ (if a == action then rules else candidate_rules action index)
candidate_rules-insert a action rules index = elim (Bool-cases (a == action)) [
  | inl same ↦ rw (lookup-insert a action rules index, same, candidate_rules) refl
  | inr other ↦ rw (lookup-insert a action rules index, other, candidate_rules) refl
]

module _ (p : Rule → Bool) (action : String) where
  first-index_rule :
      (rule : Rule) (actions : List String) (index : Dict (List Rule))
      → first_such p (candidate_rules action (index_rule rule actions index))
        ≡ else_find
            (first_such p (candidate_rules action index))
            (if elem action actions then if_passes p rule else none)
  unfolding index_rule
  first-index_rule rule [] index = ground arith
  first-index_rule rule (a ∷ actions) index =
      first-index_rule rule actions (insert a (candidate_rules a index ++ rule ∷ []) index)
      ∙ step (Bool-cases (a == action))
    where
      step :
          ((a == action) ≡ true) ⊎ ((a == action) ≡ false)
          → else_find
              (first_such p
                (candidate_rules action (insert a (candidate_rules a index ++ rule ∷ []) index)))
              (if elem action actions then if_passes p rule else none)
            ≡ else_find
                (first_such p (candidate_rules action index))
                (if elem action (a ∷ actions) then if_passes p rule else none)
      step (inl same) =
          let here_is : candidate_rules a index ≡ candidate_rules action index =
            ap (λ x. candidate_rules x index) ((eq_iff a action).0 same) in
          rw
            (
              candidate_rules-insert a action (candidate_rules a index ++ rule ∷ []) index,
              same,
              here_is,
              first_such-append p (candidate_rules action index) (rule ∷ []),
            )
            (ground (arith, same, eq_iff a action, eq_iff action a))
      step (inr other) =
          rw (candidate_rules-insert a action (candidate_rules a index ++ rule ∷ []) index, other)
            (ground (arith, other, eq_iff a action, eq_iff action a))

  abbrev pub listed : Rule → Bool
  listed r = if elem action r.actions then p r else false

  first-index_rules :
      (rules : List Rule) (index : Dict (List Rule))
      → first_such p (candidate_rules action (index_rules rules index))
        ≡ else_find (first_such p (candidate_rules action index)) (first_such listed rules)
  unfolding index_rules
  first-index_rules [] index = ground arith
  first-index_rules (r ∷ rules) index =
      first-index_rules rules (index_rule r r.actions index)
      ∙ rw (first-index_rule r r.actions index) (ground arith)

  -- The first candidate that passes a test is the first rule of the rule set that names the action and
  -- passes the test.
  pub first-index :
      (rules : List Rule)
      → first_such p (candidate_rules action (index_rules rules [])) ≡ first_such listed rules
  unfolding lookup
  first-index rules = first-index_rules rules []

module _ (P : Rule → Type 0) (action : String) where
  All-index_rule :
      (rule : Rule) (actions : List String) (index : Dict (List Rule))
      → P rule
      → ((a : String) → All P (candidate_rules a index))
      → (a : String) → All P (candidate_rules a (index_rule rule actions index))
  unfolding index_rule
  All-index_rule rule [] index here_p all = all
  All-index_rule rule (b ∷ actions) index here_p all =
      All-index_rule rule actions (insert b (candidate_rules b index ++ rule ∷ []) index) here_p
        (λ a. elim (Bool-cases (b == a)) [
          | inl same ↦
              rw (candidate_rules-insert b a (candidate_rules b index ++ rule ∷ []) index, same)
                (All-append P (candidate_rules b index) (rule ∷ []) (all b) (here_p, tt))
          | inr other ↦
              rw (candidate_rules-insert b a (candidate_rules b index ++ rule ∷ []) index, other)
                (all a)
        ])

  All-index_rules :
      (rules : List Rule) (index : Dict (List Rule))
      → All P rules
      → ((a : String) → All P (candidate_rules a index))
      → All P (candidate_rules action (index_rules rules index))
  unfolding index_rules
  All-index_rules [] index ps all = all action
  All-index_rules (r ∷ rules) index ps all =
      All-index_rules rules (index_rule r r.actions index) ps.1
        (All-index_rule r r.actions index ps.0 all)

-- The candidate_rules are rules of the rule set.
pub candidate_rules-In :
    (action : String) (rules : List Rule)
    → All (λ r. In r rules) (candidate_rules action (index_rules rules []))
unfolding lookup
candidate_rules-In action rules =
    All-index_rules (λ r. In r rules) action rules [] (All-In rules) (λ a. tt)
