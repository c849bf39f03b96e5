-- ===== src/Escalation/Router.antt =====
-- HierarchicalRouter of shared/escalation/hierarchical.py. The loop of get_escalation_path runs on
-- fuel; `none` is a loop that is still running.
use quinn_ai.Prelude.{
  ℕ, zero, suc, String, List, [], ◌∷◌, Option, none, some, Dict, lookup, if◌then◌else◌,
}
use quinn_ai.Escalation.Interface.{EscalationResponse, Context, EscalationInterface, unresolved}
use quinn_ai.Escalation.Topology.{OrgTopology, get_boss}

unfoldable pub get_escalation_path : ℕ → OrgTopology → String → Option (List String)
get_escalation_path zero t current = none
get_escalation_path (suc fuel) t current = elim (get_boss t current) [
  | none ↦ some ("board" ∷ [])
  | some boss ↦ elim (get_escalation_path fuel t boss) [
    | none ↦ none
    | some path ↦ some (boss ∷ path)
  ]
]

unfoldable pub route_context : String → List String → Context
route_context worker_id path = record {
  worker_id = some worker_id;
  escalation_path = some path;
  others = [];
}

module _ {W : Type 0} where
  -- one handler of the path: its response, if it can handle the issue and resolves it
  unfoldable pub try_handler :
      String → Context → EscalationInterface W → W → Option EscalationResponse × W
  try_handler issue context handler w =
      let (able, w₁) = handler.can_handle issue w in
      let (response, w₂) = handler.ask issue context w₁ in
      if able then ((if response.resolved then some response else none), w₂) else (none, w₁)

  unfoldable pub try_target :
      Dict (EscalationInterface W) → String → Context → String → W → Option EscalationResponse × W
  unfolding try_handler
  try_target escalators issue context target w = elim (lookup target escalators) [
    | none ↦ (none, w)
    | some handler ↦ try_handler issue context handler w
  ]

  -- the first response that resolves the issue is returned, else the loop goes on
  abbrev pub or_else :
      (W → EscalationResponse × W) → Option EscalationResponse × W → EscalationResponse × W
  or_else rest (some response, w) = (response, w)
  or_else rest (none, w) = rest w

  -- the loop over the path
  unfoldable pub try_targets :
      Dict (EscalationInterface W) → String → Context → List String → W → EscalationResponse × W
  unfolding unresolved
  try_targets escalators issue context [] w = (unresolved, w)
  try_targets escalators issue context (target ∷ targets) w =
      or_else (try_targets escalators issue context targets)
        (try_target escalators issue context target w)

  unfoldable pub route :
      ℕ
      → OrgTopology
      → String
      → String
      → Dict (EscalationInterface W)
      → W
      → Option (EscalationResponse × W)
  unfolding route_context
  route fuel t worker_id issue escalators w = elim (get_escalation_path fuel t worker_id) [
    | none ↦ none
    | some path ↦ some (try_targets escalators issue (route_context worker_id path) path w)
  ]
