-- ===== src/Escalation/Examples.antt =====
-- The theorems on escalation at concrete inputs: the organisation of build_standard_topology, and
-- one in which two workers are each other's boss.
use quinn_ai.Prelude.{
  ℕ, suc, ◌≤◌, ◌<◌, String, true, List, [], ◌∷◌, none, some, Dict, lookup, ◌==◌, string_eq,
  if◌then◌else◌, ◌≡◌, refl, ◌↔◌, arith, insert, Bool-cases, inl, inr, subst,
}
use quinn_ai.Escalation.Interface.{
  EscalationResponse, Context, EscalationInterface, unresolved, noop_escalation,
}
use quinn_ai.Escalation.Topology.{
  OrgTopology, WorkerSpec, get_boss, create_simple_topology, add_nodes, add_node, make_node,
  count_of, count_report, subordinate_counts, new_topology,
}
use quinn_ai.Escalation.Router.{
  get_escalation_path, route, route_context, try_target, try_handler, try_targets,
}
use quinn_ai.Escalation.Board.{Office, BoardNotifier}
use quinn_ai.Escalation.Org.{OrgEscalation, ask}
use quinn_ai.Escalation.Paths.{Chain, stay, climb, path_iff, cycle_runs_on}
use quinn_ai.Escalation.Routes.{Routed, route-Routed}
use quinn_ai.Escalation.Resolution.{ask_resolves}

abbrev specs : List WorkerSpec
specs =
    record { id = "ceo"; name = "Ann"; boss_id = none }
    ∷ record { id = "lead"; name = "Bob"; boss_id = some "ceo" }
    ∷ record { id = "dev"; name = "Cid"; boss_id = some "lead" }
    ∷ []

abbrev chart : OrgTopology
unfolding create_simple_topology
chart = create_simple_topology specs

path_iff_example :
    (get_escalation_path 3 chart "dev" ≡ some ("lead" ∷ "ceo" ∷ "board" ∷ []))
    ↔ (Chain chart "dev" ("lead" ∷ "ceo" ∷ "board" ∷ []) × (3 ≤ 3))
path_iff_example = path_iff chart 3 "dev" ("lead" ∷ "ceo" ∷ "board" ∷ [])

-- How far a worker is from the top of `chart`.
abbrev depth : String → ℕ
depth w = if "ceo" == w then 0 else if "lead" == w then 1 else if "dev" == w then 2 else 0

boss_in_chart :
    (w : String)
    → get_boss chart w ≡ (
        if "ceo" == w
        then none
        else if "lead" == w
        then some "ceo"
        else if "dev" == w
        then some "lead"
        else none)
unfolding chart create_simple_topology add_nodes add_node make_node count_of count_report
    subordinate_counts new_topology lookup insert get_boss
boss_in_chart w = ground arith

depth_lower : (w boss : String) → get_boss chart w ≡ some boss → depth boss < depth w
depth_lower w boss h = elim (Bool-cases ("ceo" == w)) [
  | inl ceo ↦ ground (arith, boss_in_chart w, h, ceo)
  | inr not_ceo ↦ elim (Bool-cases ("lead" == w)) [
    | inl lead ↦
        let same : "ceo" ≡ boss = ground (arith, boss_in_chart w, h, not_ceo, lead) in
        subst (λ b. depth b < depth w) same (rw (not_ceo, lead) (omega arith))
    | inr not_lead ↦ elim (Bool-cases ("dev" == w)) [
      | inl dev ↦
          let same : "lead" ≡ boss = ground (arith, boss_in_chart w, h, not_ceo, not_lead, dev) in
          subst (λ b. depth b < depth w) same (rw (not_ceo, not_lead, dev) (omega arith))
      | inr not_dev ↦ ground (arith, boss_in_chart w, h, not_ceo, not_lead, not_dev)
    ]
  ]
]

abbrev circle : OrgTopology
circle = record {
  nodes =
      ("a", record { id = "a"; name = "Ann"; boss_id = some "b"; is_manager = true })
      ∷ ("b", record { id = "b"; name = "Bob"; boss_id = some "a"; is_manager = true })
      ∷ [];
}

cycle_runs_on_example : get_escalation_path 1000 circle "a" ≡ none
unfolding get_boss lookup
cycle_runs_on_example = cycle_runs_on circle 1 "a" (climb refl (climb refl stay)) 1000

abbrev handlers : Dict (EscalationInterface (Office ℕ))
unfolding noop_escalation
handlers = ("lead", noop_escalation) ∷ []

abbrev context : Context
context = record { worker_id = none; escalation_path = none; others = [] }

abbrev notifier : BoardNotifier ℕ
notifier = record {
  callback = none;
  client = λ issue n. (some "bd-1", suc n);
  max_size = 2;
  message_creator = none;
}

abbrev escalation : OrgEscalation ℕ
unfolding handlers chart
escalation = record {
  worker_id = "dev";
  topology = chart;
  worker_handlers = handlers;
  board_notifier = some notifier;
  client = notifier.client;
}

abbrev office : Office ℕ
office = record { outside = 0; notifications = [] }

route-Routed_example :
    (path : List String) × Chain chart "dev" path
    × Routed handlers "stuck" (route_context "dev" path) path office unresolved office
unfolding chart handlers noop_escalation route create_simple_topology add_nodes add_node make_node
    count_of count_report subordinate_counts new_topology lookup insert get_boss get_escalation_path
    try_targets try_target try_handler
route-Routed_example = route-Routed 3 chart "dev" "stuck" handlers office office unresolved refl

ask_resolves_example :
    (response : EscalationResponse) × (o' : Office ℕ) × (ask 3 escalation "stuck" context office
      ≡ some (response, o'))
    × (response.resolved ≡ true)
unfolding escalation
ask_resolves_example =
    ask_resolves 3 escalation "stuck" context office notifier depth refl depth_lower (omega arith)
