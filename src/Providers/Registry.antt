-- ===== src/Providers/Registry.antt =====
-- ProviderRegistry of cli/providers/registry/registry.py.
use quinn_ai.Prelude.{
  ℕ, String, Bool, true, false, List, [], ◌∷◌, Option, none, some, Dict, lookup, insert, remove,
  map, elem, ◌==◌, string_eq, if◌then◌else◌,
}
use quinn_ai.Providers.Models.{Provider}

pub record ProviderRegistry : Type 0 where
  pub providers : Dict Provider
  pub default_provider : Option String
  pub thresholds : Dict ℕ
  pub authorized_providers : List String

-- `DEFAULT_SKILL_THRESHOLDS`
abbrev pub default_thresholds : Dict ℕ
default_thresholds =
    ("coding", 80)
    ∷ ("reasoning", 60)
    ∷ ("research", 80)
    ∷ ("management", 70)
    ∷ ("strategy", 90)
    ∷ []

abbrev pub new_registry : ProviderRegistry
new_registry = record {
  providers = [];
  default_provider = none;
  thresholds = default_thresholds;
  authorized_providers = [];
}

unfoldable pub set_authorized_providers : List String → ProviderRegistry → ProviderRegistry
set_authorized_providers names r = record r { authorized_providers = names }

unfoldable pub is_authorized : ProviderRegistry → String → Bool
is_authorized r name = elim r.authorized_providers [
  | [] ↦ true
  | first ∷ others ↦ elem name (first ∷ others)
]

unfoldable pub register : Provider → ProviderRegistry → ProviderRegistry
register p r = record r { providers = insert p.name p r.providers }

unfoldable pub has : ProviderRegistry → String → Bool
has r name = elim (lookup name r.providers) [ none ↦ false | some _ ↦ true ]

abbrev pub is_default : ProviderRegistry → String → Bool
is_default r name = elim r.default_provider [ none ↦ false | some d ↦ d == name ]

unfoldable pub unregister : String → ProviderRegistry → ProviderRegistry
unfolding has
unregister name r =
    if has r name
    then record r {
      providers = remove name r.providers;
      default_provider = if is_default r name then none else r.default_provider;
    }
    else r

-- `none` stands for its ValueError
unfoldable pub get : ProviderRegistry → String → Option Provider
get r name = lookup name r.providers

unfoldable pub set_default : String → ProviderRegistry → Option ProviderRegistry
unfolding has
set_default name r = if has r name then some (record r { default_provider = some name }) else none

-- `set_thresholds`, for one skill that is given
unfoldable pub set_threshold : String → ℕ → ProviderRegistry → ProviderRegistry
set_threshold skill n r = record r { thresholds = insert skill n r.thresholds }

unfoldable pub list_providers : ProviderRegistry → List String
list_providers r = map (λ (name, _). name) r.providers
