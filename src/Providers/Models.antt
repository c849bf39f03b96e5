-- ===== src/Providers/Models.antt =====
-- Models, their tiers and capabilities: shared/provider_types.py, and cost_to_tier and
-- skills_to_capabilities of cli/providers/registry/base.py. A model's token limit and temperature are
-- left out.
use quinn_ai.Prelude.{
  ℕ, String, Bool, true, false, List, [], ◌∷◌, Option, none, some, Dict, lookup, elem, filter, any,
  leb, nat_beq, ◌==◌, string_eq, if◌then◌else◌,
}

pub data CostTier : Type 0 where
  budget standard advanced premium : CostTier

-- the place of a tier in `tier_order`
abbrev pub rank : CostTier → ℕ
rank budget = 0
rank standard = 1
rank advanced = 2
rank premium = 3

abbrev pub same_tier : CostTier → CostTier → Bool
same_tier a b = nat_beq (rank a) (rank b)

-- the value of the enum
abbrev pub tier_value : CostTier → String
tier_value budget = "budget"
tier_value standard = "standard"
tier_value advanced = "advanced"
tier_value premium = "premium"

pub record ModelCapabilities : Type 0 where
  pub coding : Bool
  pub reasoning : Bool
  pub research : Bool
  pub tool_use : Bool
  pub long_context : Bool

-- The other attributes of an instance that are true, methods of the class and of `object` among them:
-- those of Python 3.11.
abbrev pub other_attributes : List String
other_attributes =
    "has_capabilities" ∷ "__annotations__" ∷ "__class__" ∷ "__dataclass_fields__"
    ∷ "__dataclass_params__" ∷ "__delattr__" ∷ "__dict__" ∷ "__dir__" ∷ "__doc__" ∷ "__eq__"
    ∷ "__format__" ∷ "__ge__" ∷ "__getattribute__" ∷ "__getstate__" ∷ "__gt__" ∷ "__init__"
    ∷ "__init_subclass__" ∷ "__le__" ∷ "__lt__" ∷ "__match_args__" ∷ "__module__" ∷ "__ne__"
    ∷ "__new__" ∷ "__reduce__" ∷ "__reduce_ex__" ∷ "__repr__" ∷ "__setattr__" ∷ "__sizeof__"
    ∷ "__str__" ∷ "__subclasshook__" ∷ []

-- `getattr(self, cap, False)`, as far as it is true
unfoldable pub get_capability : ModelCapabilities → String → Bool
get_capability c name =
    if name == "coding"
    then c.coding
    else if name == "reasoning"
    then c.reasoning
    else if name == "research"
    then c.research
    else if name == "tool_use"
    then c.tool_use
    else if name == "long_context"
    then c.long_context
    else elem name other_attributes

unfoldable pub has_capabilities : ModelCapabilities → List String → Bool
unfolding get_capability
has_capabilities c [] = true
has_capabilities c (name ∷ required) =
    let rest = has_capabilities c required in if get_capability c name then rest else false

pub record ModelInfo : Type 0 where
  pub id : String
  pub name : String
  pub cost_tier : ℕ × ℕ
  pub capabilities : ModelCapabilities
  pub tier : Option CostTier
  pub tiers : Option (List CostTier)

unfoldable pub matches_cost : ModelInfo → ℕ → Bool
matches_cost m cost = if leb m.cost_tier.0 cost then leb cost m.cost_tier.1 else false

unfoldable pub cost_to_tier : ℕ → CostTier
cost_to_tier cost =
    if leb cost 30
    then budget
    else if leb cost 60
    then standard
    else if leb cost 80
    then advanced
    else premium

-- `_tier_from_cost_range`, whose bounds are those of `cost_to_tier`
unfoldable pub tier_from_cost_range : ModelInfo → CostTier
unfolding cost_to_tier
tier_from_cost_range m = cost_to_tier m.cost_tier.0

-- by `tier`, or by the range of costs
abbrev pub matches_single : ModelInfo → CostTier → Bool
matches_single m tier = elim m.tier [
  | some own ↦ same_tier own tier
  | none ↦ same_tier (tier_from_cost_range m) tier
]

unfoldable pub matches_tier : ModelInfo → CostTier → Bool
unfolding tier_from_cost_range
matches_tier m tier = elim m.tiers [
  | none ↦ matches_single m tier
  | some own ↦ elim own [
    | [] ↦ matches_single m tier
    | first ∷ others ↦ any (λ t. same_tier t tier) (first ∷ others)
  ]
]

-- `SKILL_TO_CAPABILITY`
abbrev pub skill_to_capability : List (String × String)
skill_to_capability =
    ("coding", "coding")
    ∷ ("reasoning", "reasoning")
    ∷ ("research", "research")
    ∷ ("management", "tool_use")
    ∷ ("strategy", "long_context")
    ∷ []

abbrev pub get_or : ℕ → String → Dict ℕ → ℕ
get_or default key d = elim (lookup key d) [ none ↦ default | some n ↦ n ]

unfoldable pub required_from : Dict ℕ → Dict ℕ → List (String × String) → List String
required_from skills thresholds [] = []
required_from skills thresholds ((skill, capability) ∷ others) =
    let rest = required_from skills thresholds others in
    if leb (get_or 100 skill thresholds) (get_or 0 skill skills) then capability ∷ rest else rest

unfoldable pub skills_to_capabilities : Dict ℕ → Dict ℕ → List String
unfolding required_from
skills_to_capabilities skills thresholds = required_from skills thresholds skill_to_capability

pub record Provider : Type 0 where
  pub name : String
  pub models : List ModelInfo

-- the first of a list
abbrev pub first_of : {A : Type 0} → List A → Option A
first_of [] = none
first_of (a ∷ _) = some a

abbrev pub else_take : {A : Type 0} → Option A → Option A → Option A
else_take (some a) b = some a
else_take none b = b

-- `Provider.select_model`; `none` stands for its ValueError
unfoldable pub select_model : Provider → ℕ → List String → Option ModelInfo
unfolding matches_cost has_capabilities
select_model p cost required =
    let matching = filter (λ m. matches_cost m cost) p.models in
    else_take (first_of (filter (λ m. has_capabilities m.capabilities required) matching))
      (first_of matching)
