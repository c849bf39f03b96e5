-- ===== src/Providers/Selection.antt =====
-- cli/providers/registry/selection.py, and the fallback chain of cli/providers/registry/registry.py.
use quinn_ai.Prelude.{
  ℕ, String, Bool, true, List, [], ◌∷◌, ◌++◌, Option, none, some, Dict, filter, elem, string_eq,
  ◌==◌, if◌then◌else◌,
}
use quinn_ai.Providers.Models.{
  CostTier, budget, standard, advanced, premium, ModelInfo, Provider, has_capabilities,
  matches_tier, cost_to_tier, skills_to_capabilities, first_of, else_take,
}
use quinn_ai.Providers.Registry.{ProviderRegistry, has, get, list_providers}

-- `tier_order[current_idx + 1:]`
abbrev pub higher_tiers : CostTier → List CostTier
higher_tiers budget = standard ∷ advanced ∷ premium ∷ []
higher_tiers standard = advanced ∷ premium ∷ []
higher_tiers advanced = premium ∷ []
higher_tiers premium = []

-- the models of a tier, and those of them with the capabilities
abbrev pub at_tier : Provider → CostTier → List ModelInfo
at_tier p tier = filter (λ m. matches_tier m tier) p.models

abbrev pub capable : List String → List ModelInfo → List ModelInfo
capable required models = filter (λ m. has_capabilities m.capabilities required) models

unfoldable pub first_capable : Provider → List String → List CostTier → Option ModelInfo
first_capable p required [] = none
first_capable p required (tier ∷ tiers) =
    else_take (first_of (capable required (at_tier p tier))) (first_capable p required tiers)

-- `_try_upgrade_tier`
unfoldable pub try_upgrade_tier : Provider → CostTier → List String → Option ModelInfo
unfolding first_capable
try_upgrade_tier p tier required = first_capable p required (higher_tiers tier)

-- the branch with models at the tier
abbrev pub select_at_tier : Provider → CostTier → List String → List ModelInfo → Option ModelInfo
select_at_tier p tier [] models = first_of models
select_at_tier p tier (c ∷ required) models =
    else_take (first_of (capable (c ∷ required) models))
      (else_take (try_upgrade_tier p tier (c ∷ required)) (first_of models))

-- `_select_model_for_tier`; `none` stands for its ValueError
unfoldable pub select_model_for_tier : Provider → CostTier → List String → Option ModelInfo
unfolding try_upgrade_tier
select_model_for_tier p tier required = elim (at_tier p tier) [
  | [] ↦ try_upgrade_tier p tier required
  | m ∷ models ↦ select_at_tier p tier required (m ∷ models)
]

-- `_is_authorized`
unfoldable pub is_in_org : String → Option (List String) → Bool
is_in_org name none = true
is_in_org name (some authorized) = elem name authorized

-- The three parts of the attempt order, each after what stands before it. An empty name is as good as
-- none.
unfoldable pub add_preferred : ProviderRegistry → Option String → Option (List String) → List String
unfolding is_in_org has
add_preferred r none authorized = []
add_preferred r (some name) authorized =
    if name == ""
    then []
    else if is_in_org name authorized
    then (if has r name then name ∷ [] else [])
    else []

unfoldable pub add_default : Option String → Option (List String) → List String → List String
unfolding is_in_org
add_default none authorized names = names
add_default (some name) authorized names =
    if name == ""
    then names
    else if elem name names
    then names
    else if is_in_org name authorized
    then names ++ name ∷ []
    else names

unfoldable pub add_remaining : List String → Option (List String) → List String → List String
unfolding is_in_org
add_remaining [] authorized names = names
add_remaining (name ∷ others) authorized names = add_remaining others authorized (
    if elem name names
    then names
    else if is_in_org name authorized
    then names ++ name ∷ []
    else names)

-- `_build_provider_order`
unfoldable pub build_provider_order :
    ProviderRegistry → Option String → Option (List String) → List String
unfolding add_preferred add_default add_remaining list_providers
build_provider_order r preferred authorized =
    add_remaining (list_providers r) authorized
      (add_default r.default_provider authorized (add_preferred r preferred authorized))

-- A ProviderSelectionError carries the names that were tried; a ValueError comes from `registry.get`.
pub data Selection (A : Type 0) : Type 0 where
  selected : A → Selection A
  selection_error : List String → Selection A
  value_error : Selection A

-- the loop over the providers, with the names that failed so far
unfoldable pub try_each :
    ProviderRegistry
    → CostTier
    → List String
    → List String
    → List String
    → Selection (Provider × ModelInfo)
unfolding get select_model_for_tier
try_each r tier required [] failed = selection_error failed
try_each r tier required (name ∷ names) failed =
    let rest = try_each r tier required names (failed ++ name ∷ []) in
    elim (get r name) [
      | none ↦ value_error
      | some p ↦ elim (select_model_for_tier p tier required) [
        | none ↦ rest
        | some m ↦ selected (p, m)
      ]
    ]

abbrev pub only_model : Selection (Provider × ModelInfo) → Selection ModelInfo
only_model (selected (_, m)) = selected m
only_model (selection_error names) = selection_error names
only_model value_error = value_error

unfoldable pub get_model_for_worker :
    ProviderRegistry → ℕ → List String → Option String → Option (List String) → Selection ModelInfo
unfolding build_provider_order try_each cost_to_tier
get_model_for_worker r worker_cost required preferred authorized = only_model (
    try_each r (cost_to_tier worker_cost) required (build_provider_order r preferred authorized) [])

-- what `select_provider_for_worker` returns
pub record ProviderSelection : Type 0 where
  pub provider : Provider
  pub model : ModelInfo
  pub tier : CostTier
  pub required_capabilities : List String

abbrev pub with_tier :
    CostTier → List String → Selection (Provider × ModelInfo) → Selection ProviderSelection
with_tier tier required (selected (p, m)) =
    selected (record { provider = p; model = m; tier = tier; required_capabilities = required })
with_tier tier required (selection_error names) = selection_error names
with_tier tier required value_error = value_error

unfoldable pub select_provider_for_worker :
    ProviderRegistry
    → ℕ
    → Dict ℕ
    → Option String
    → Option (List String)
    → Selection ProviderSelection
unfolding add_preferred add_default add_remaining list_providers try_each cost_to_tier
    skills_to_capabilities
select_provider_for_worker r worker_cost worker_skills preferred authorized =
    let tier = cost_to_tier worker_cost in
    let required = skills_to_capabilities worker_skills r.thresholds in
    let providers_to_try =
      add_remaining (list_providers r) authorized
        (add_default r.default_provider authorized (add_preferred r preferred authorized)) in
    with_tier tier required (try_each r tier required providers_to_try [])

-- `_build_fallback_chain`: the default and the rest, as far as the registry authorizes them
abbrev pub org_of : ProviderRegistry → Option (List String)
org_of r = elim r.authorized_providers [ [] ↦ none | first ∷ others ↦ some (first ∷ others) ]

unfoldable pub collect :
    ProviderRegistry → CostTier → List String → List String → List (Provider × ModelInfo)
unfolding get select_model_for_tier
collect r tier required [] = []
collect r tier required (name ∷ names) =
    let rest = collect r tier required names in
    elim (get r name) [
      | none ↦ rest
      | some p ↦ elim (select_model_for_tier p tier required) [
        | none ↦ rest
        | some m ↦ (p, m) ∷ rest
      ]
    ]

unfoldable pub build_fallback_chain :
    ProviderRegistry → CostTier → List String → List (Provider × ModelInfo)
unfolding collect add_default add_remaining list_providers
build_fallback_chain r tier required =
    collect r tier required
      (add_remaining (list_providers r) (org_of r) (add_default r.default_provider (org_of r) []))

unfoldable pub get_model_for_tier :
    ProviderRegistry → CostTier → List String → Option (Provider × ModelInfo)
unfolding build_fallback_chain
get_model_for_tier r tier required = first_of (build_fallback_chain r tier required)
