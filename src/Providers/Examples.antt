-- ===== src/Providers/Examples.antt =====
-- The theorems on the choice of a provider at a concrete registry.
use quinn_ai.Prelude.{String, Bool, true, false, List, [], ◌∷◌, none, some, string_eq, refl}
use quinn_ai.Providers.Models.{
  budget, standard, advanced, ModelCapabilities, ModelInfo, Provider, get_capability,
  has_capabilities, matches_tier,
}
use quinn_ai.Providers.Registry.{ProviderRegistry, new_registry}
use quinn_ai.Providers.Selection.{select_model_for_tier, try_upgrade_tier, first_capable}
use quinn_ai.Providers.Upgrade.{Choice, select_model_for_tier-Choice}

abbrev abilities : Bool → ModelCapabilities
abilities codes = record {
  coding = codes;
  reasoning = true;
  research = false;
  tool_use = false;
  long_context = false;
}

abbrev small : ModelInfo
small = record {
  id = "small-1";
  name = "Small";
  cost_tier = (0, 30);
  capabilities = abilities false;
  tier = some budget;
  tiers = none;
}

abbrev large : ModelInfo
large = record {
  id = "large-1";
  name = "Large";
  cost_tier = (31, 100);
  capabilities = abilities true;
  tier = none;
  tiers = some (standard ∷ advanced ∷ []);
}

abbrev vendor : String → List ModelInfo → Provider
vendor name models = record { name = name; models = models }

abbrev registry : ProviderRegistry
registry = record new_registry {
  providers =
      ("tiny", vendor "tiny" (small ∷ []))
      ∷ ("main", vendor "main" (small ∷ large ∷ []))
      ∷ ("spare", vendor "spare" [])
      ∷ [];
  default_provider = some "main";
}

-- A coder with a small budget gets a model of a higher tier.
select_model_for_tier-Choice_example :
    Choice (vendor "main" (small ∷ large ∷ [])) budget ("coding" ∷ []) large
unfolding select_model_for_tier try_upgrade_tier first_capable matches_tier has_capabilities
    get_capability
select_model_for_tier-Choice_example =
    select_model_for_tier-Choice (vendor "main" (small ∷ large ∷ [])) budget ("coding" ∷ []) large
      refl
