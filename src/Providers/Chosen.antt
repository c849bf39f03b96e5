-- ===== src/Providers/Chosen.antt =====
-- What the loop of `select_provider_for_worker` (cli/providers/registry/selection.py) ends with.
use quinn_ai.Prelude.{String, List, ◌∷◌, ◌++◌, none, some, All, ◌≡◌, string_eq}
use quinn_ai.Providers.Models.{CostTier, ModelInfo, Provider}
use quinn_ai.Providers.Registry.{ProviderRegistry, get}
use quinn_ai.Providers.Selection.{
  Selection, selected, selection_error, value_error, select_model_for_tier, ProviderSelection,
}

module _ (r : ProviderRegistry) (tier : CostTier) (required : List String) where
  -- a registered provider without a model for the tier
  abbrev pub Fails : String → Type 0
  Fails name =
      (p : Provider) × (get r name ≡ some p) × (select_model_for_tier p tier required ≡ none)

  -- What trying the names in their order comes to: the first that has a model, or that none has one.
  pub data Tried (names : List String) : Selection (Provider × ModelInfo) → Type 0 where
    first :
        {p : Provider} {m : ModelInfo} (front : List String) (name : String) (back : List String)
        → names ≡ front ++ name ∷ back
        → All Fails front
        → get r name ≡ some p
        → select_model_for_tier p tier required ≡ some m
        → Tried names (selected (p, m))
    none_has : All Fails names → Tried names (selection_error names)

-- what `select_provider_for_worker` may end with
abbrev pub only_pair : Selection ProviderSelection → Selection (Provider × ModelInfo)
only_pair (selected s) = selected (s.provider, s.model)
only_pair (selection_error names) = selection_error names
only_pair value_error = value_error
