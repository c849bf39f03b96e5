-- ===== src/Escalation/Interface.antt =====
-- EscalationResponse and the protocol EscalationInterface of shared/escalation/interface.py, with
-- its implementations MockEscalation and NoopEscalation. `W` is the state that handlers change.
use quinn_ai.Prelude.{String, Bool, false, List, [], ◌∷◌, ◌++◌, Option, none, some, Dict}
use quinn_ai.Prelude.{if◌then◌else◌}
use quinn_ai.Task.{Task}

pub record EscalationResponse : Type 0 where
  pub resolved : Bool
  pub guidance : String
  pub new_tasks : List Task
  pub escalated_to : Option String

-- A context is a dictionary; the keys that the code reads are fields.
pub record Context : Type 0 where
  pub worker_id : Option String
  pub escalation_path : Option (List String)
  pub others : Dict String

pub record EscalationInterface (W : Type 0) : Type 0 where
  pub ask : String → Context → W → EscalationResponse × W
  pub report : String → Option (Dict String) → W → W
  pub can_handle : String → W → Bool × W

-- the response of the handlers that cannot help
unfoldable pub unresolved : EscalationResponse
unresolved = record { resolved = false; guidance = ""; new_tasks = []; escalated_to = none }

pub record MockEscalation : Type 0 where
  pub resolve_issues : Bool
  pub default_guidance : String
  pub escalated_to_name : String
  pub asks : List (String × Context)
  pub reports : List (String × Option (Dict String))
  pub can_handle_checks : List String

unfoldable pub mock_ask : String → Context → MockEscalation → EscalationResponse × MockEscalation
mock_ask issue context m = (
  record {
    resolved = m.resolve_issues;
    guidance = if m.resolve_issues then m.default_guidance else "";
    new_tasks = [];
    escalated_to = if m.resolve_issues then some m.escalated_to_name else none;
  },
  record m { asks = m.asks ++ (issue, context) ∷ [] },
)

unfoldable pub mock_report : String → Option (Dict String) → MockEscalation → MockEscalation
mock_report summary metadata m = record m { reports = m.reports ++ (summary, metadata) ∷ [] }

unfoldable pub mock_can_handle : String → MockEscalation → Bool × MockEscalation
mock_can_handle issue m =
    (m.resolve_issues, record m { can_handle_checks = m.can_handle_checks ++ issue ∷ [] })

unfoldable pub mock_reset : MockEscalation → MockEscalation
mock_reset m = record m { asks = []; reports = []; can_handle_checks = [] }

unfoldable pub mock_escalation : EscalationInterface MockEscalation
unfolding mock_ask mock_report mock_can_handle
mock_escalation = record { ask = mock_ask; report = mock_report; can_handle = mock_can_handle }

unfoldable pub noop_escalation : {W : Type 0} → EscalationInterface W
unfolding unresolved
noop_escalation = record {
  ask = λ issue context w. (unresolved, w);
  report = λ summary metadata w. w;
  can_handle = λ issue w. (false, w);
}
