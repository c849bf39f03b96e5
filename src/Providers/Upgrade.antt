-- ===== src/Providers/Upgrade.antt =====
-- Which model `_select_model_for_tier` of cli/providers/registry/selection.py takes.
use quinn_ai.Prelude.{
  String, true, List, [], ◌∷◌, Option, none, some, All, All-filter, All-In, All-get, In, here,
  there, ◌≡◌, refl, sym, subst, ◌∙◌, inl, inr, ◌⊎◌, arith,
}
use quinn_ai.Providers.Models.{
  CostTier, ModelInfo, Provider, has_capabilities, matches_tier, first_of, else_take,
}
use quinn_ai.Providers.Selection.{
  higher_tiers, at_tier, capable, first_capable, try_upgrade_tier, select_at_tier,
  select_model_for_tier,
}

-- No model of any of these tiers has the capabilities.
abbrev pub NoneCapable : Provider → List String → List CostTier → Type 0
NoneCapable p required tiers = All (λ t. capable required (at_tier p t) ≡ []) tiers

-- a model that serves a tier, with the capabilities
pub record Serves (p : Provider) (tier : CostTier) (required : List String) (m : ModelInfo)
    : Type 0 where
  pub listed : In m p.models
  pub at : matches_tier m tier ≡ true
  pub able : has_capabilities m.capabilities required ≡ true

-- Why a model is taken for a tier: it serves the tier with the capabilities; or no model of the tier
-- does, and it serves a higher tier with them; or no model of the tier or a higher one has them, and
-- it is of the tier.
pub data Choice (p : Provider) (tier : CostTier) (required : List String) (m : ModelInfo)
    : Type 0 where
  fits : Serves p tier required m → Choice p tier required m
  upgraded :
      (higher : CostTier)
      → In higher (higher_tiers tier)
      → capable required (at_tier p tier) ≡ []
      → Serves p higher required m
      → Choice p tier required m
  best_available :
      In m p.models
      → matches_tier m tier ≡ true
      → NoneCapable p required (tier ∷ higher_tiers tier)
      → Choice p tier required m

first-In : {A : Type 0} (xs : List A) {a : A} → first_of xs ≡ some a → In a xs
first-In [] e = ground arith
first-In (x ∷ xs) {a} e = here (ground arith)

first-none : {A : Type 0} (xs : List A) → first_of xs ≡ none → xs ≡ []
first-none [] e = refl
first-none (x ∷ xs) e = ground arith

In-at_tier :
    (p : Provider) (tier : CostTier) {m : ModelInfo}
    → In m (at_tier p tier)
    → In m p.models × (matches_tier m tier ≡ true)
In-at_tier p tier i =
    All-get (λ m. In m p.models × (matches_tier m tier ≡ true)) (at_tier p tier)
      (All-filter (λ m. In m p.models) (λ m. matches_tier m tier) p.models (All-In p.models)) i

capable-Serves :
    (p : Provider) (tier : CostTier) (required : List String) {m : ModelInfo}
    → first_of (capable required (at_tier p tier)) ≡ some m
    → Serves p tier required m
capable-Serves p tier required e =
    let rows = at_tier p tier in
    let (i, able) =
      All-get (λ m. In m rows × (has_capabilities m.capabilities required ≡ true))
        (capable required rows)
        (All-filter (λ m. In m rows) (λ m. has_capabilities m.capabilities required) rows
          (All-In rows))
        (first-In (capable required rows) e) in
    let (listed, at) = In-at_tier p tier i in record { listed = listed; at = at; able = able }

else_take-some :
    {A : Type 0} (x y : Option A) {a : A}
    → else_take x y ≡ some a
    → (x ≡ some a) ⊎ ((x ≡ none) × (y ≡ some a))
else_take-some (some b) y e = inl e
else_take-some none y e = inr (refl, e)

else_take-none : {A : Type 0} (x y : Option A) → else_take x y ≡ none → (x ≡ none) × (y ≡ none)
else_take-none (some b) y e = ground arith
else_take-none none y e = (refl, e)

module _ (p : Provider) (required : List String) where
  first_capable-some :
      (tiers : List CostTier) {m : ModelInfo}
      → first_capable p required tiers ≡ some m
      → (t : CostTier) × In t tiers × Serves p t required m
  unfolding first_capable
  first_capable-some [] e = ground arith
  first_capable-some (t ∷ tiers) e = elim (else_take-some _ (first_capable p required tiers) e) [
    | inl now ↦ (t, here refl, capable-Serves p t required now)
    | inr (_, later) ↦ let (u, i, s) = first_capable-some tiers later in (u, there i, s)
  ]

  first_capable-none :
      (tiers : List CostTier) → first_capable p required tiers ≡ none → NoneCapable p required tiers
  unfolding first_capable
  first_capable-none [] e = tt
  first_capable-none (t ∷ tiers) e =
      let (now, later) = else_take-none _ (first_capable p required tiers) e in
      (first-none (capable required (at_tier p t)) now, first_capable-none tiers later)

  empty_capable : (tier : CostTier) → at_tier p tier ≡ [] → capable required (at_tier p tier) ≡ []
  empty_capable tier e = rw e refl

List-cases : {A : Type 0} (xs : List A) → (xs ≡ []) ⊎ ((x : A) × (ys : List A) × (xs ≡ x ∷ ys))
List-cases [] = inl refl
List-cases (x ∷ xs) = inr (x, xs, refl)

at_tier-Choice :
    (p : Provider) (tier : CostTier) (required : List String) {m : ModelInfo}
    → select_at_tier p tier required (at_tier p tier) ≡ some m
    → Choice p tier required m
unfolding try_upgrade_tier
at_tier-Choice p tier [] e =
    let (listed, at) = In-at_tier p tier (first-In (at_tier p tier) e) in
    fits (record { listed = listed; at = at; able = unfold has_capabilities in refl })
at_tier-Choice p tier (c ∷ required) e =
    let wanted = c ∷ required in
    elim (else_take-some _ _ e) [
      | inl now ↦ fits (capable-Serves p tier wanted now)
      | inr (not_now, rest) ↦
          let none_here = first-none (capable wanted (at_tier p tier)) not_now in
          elim (else_take-some (first_capable p wanted (higher_tiers tier)) _ rest) [
            | inl up ↦
                let (t, i, s) = first_capable-some p wanted (higher_tiers tier) up in
                upgraded t i none_here s
            | inr (not_up, first) ↦
                let (listed, at) = In-at_tier p tier (first-In (at_tier p tier) first) in
                best_available listed at
                  (none_here, first_capable-none p wanted (higher_tiers tier) not_up)
          ]
    ]

-- If a provider's model is selected for a tier, then it serves the tier with the capabilities; or no
-- model of the tier has them, and it serves a higher tier with them; or no model of the tier or a
-- higher one has them, and it is a model of the tier.
pub select_model_for_tier-Choice :
    (p : Provider) (tier : CostTier) (required : List String) (m : ModelInfo)
    → select_model_for_tier p tier required ≡ some m
    → Choice p tier required m
unfolding select_model_for_tier try_upgrade_tier
select_model_for_tier-Choice p tier required m e = elim (List-cases (at_tier p tier)) [
  | inl empty ↦
      let up : first_capable p required (higher_tiers tier) ≡ some m =
        sym (rw (empty, select_model_for_tier) refl) ∙ e in
      let (t, i, s) = first_capable-some p required (higher_tiers tier) up in
      upgraded t i (empty_capable p required tier empty) s
  | inr (first, others, full) ↦ at_tier-Choice p tier required (
      subst (λ ms. select_at_tier p tier required ms ≡ some m) (sym full)
        (sym (rw (full, select_model_for_tier) refl) ∙ e))
]

first-some : {A : Type 0} (x : A) (xs : List A) → first_of (x ∷ xs) ≡ none → ⊥
first-some x xs e = ground arith

-- If none is selected, no model is of the tier, and none of a higher one has the capabilities.
pub select_model_for_tier-none :
    (p : Provider) (tier : CostTier) (required : List String)
    → select_model_for_tier p tier required ≡ none
    → (at_tier p tier ≡ []) × NoneCapable p required (higher_tiers tier)
unfolding select_model_for_tier try_upgrade_tier
select_model_for_tier-none p tier required e = elim (List-cases (at_tier p tier)) [
  | inl empty ↦ (
    empty,
    first_capable-none p required (higher_tiers tier)
        (sym (rw (empty, select_model_for_tier) refl) ∙ e),
  )
  | inr (first, others, full) ↦
      absurd (some_model required first others (sym (rw (full, select_model_for_tier) refl) ∙ e))
]
  where
    some_model :
        (wanted : List String) (x : ModelInfo) (xs : List ModelInfo)
        → select_at_tier p tier wanted (x ∷ xs) ≡ none
        → ⊥
    some_model [] x xs h = first-some x xs h
    some_model (c ∷ wanted) x xs h =
        let (_, later) = else_take-none _ _ h in
        let (_, last) = else_take-none (try_upgrade_tier p tier (c ∷ wanted)) _ later in
        first-some x xs last
