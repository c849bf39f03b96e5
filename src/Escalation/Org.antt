-- ===== src/Escalation/Org.antt =====
-- OrgEscalation of shared/org/escalation.py: what a worker calls to escalate through its chain of
-- managers and to the board.
use Prim.Native.String.{◌++◌ as str_append, slice}
use quinn_ai.Prelude.{
  ℕ, String, Bool, true, false, List, [], ◌∷◌, Option, none, some, Dict, lookup, insert, elem, ◌==◌,
  string_eq, if◌then◌else◌,
}
use quinn_ai.Escalation.Interface.{EscalationResponse, Context, EscalationInterface}
use quinn_ai.Escalation.Topology.{OrgTopology, get_boss}
use quinn_ai.Escalation.Router.{get_escalation_path, route}
use quinn_ai.Escalation.Board.{
  Issue, Client, Office, BoardNotifier, escalation_metadata, report_metadata, path_or_empty,
  board_escalation,
}

pub record OrgEscalation (W : Type 0) : Type 0 where
  pub worker_id : String
  pub topology : OrgTopology
  pub worker_handlers : Dict (EscalationInterface (Office W))
  pub board_notifier : Option (BoardNotifier W)
  pub client : Client W

unfoldable pub escalation_issue : String → String → Context → String → Issue
unfolding path_or_empty
escalation_issue worker_id issue context escalated_to = record {
  title = str_append "Escalation: " (slice issue 0 80);
  issue_type = "escalation";
  priority = 1;
  metadata =
      escalation_metadata worker_id escalated_to (path_or_empty context.escalation_path) context;
  ephemeral = false;
}

-- `metadata or {}`
unfoldable pub metadata_or_empty : Option (Dict String) → Dict String
metadata_or_empty none = []
metadata_or_empty (some d) = d

unfoldable pub report_issue : String → String → String → Option (Dict String) → Issue
unfolding metadata_or_empty
report_issue worker_id boss summary metadata = record {
  title = str_append "Report: " (slice summary 0 80);
  issue_type = "report";
  priority = 4;
  metadata = report_metadata worker_id boss (metadata_or_empty metadata);
  ephemeral = true;
}

module _ {W : Type 0} where
  unfoldable pub create_issue : OrgEscalation W → Issue → Office W → Option String × Office W
  create_issue e issue o =
      let (issue_id, w) = e.client issue o.outside in (issue_id, record o { outside = w })

  unfoldable pub create_escalation_bead :
      OrgEscalation W → String → Context → String → Office W → Option String × Office W
  unfolding create_issue escalation_issue
  create_escalation_bead e issue context escalated_to o =
      create_issue e (escalation_issue e.worker_id issue context escalated_to) o

  -- the handlers that `ask` routes to
  unfoldable pub escalators_of : OrgEscalation W → Dict (EscalationInterface (Office W))
  escalators_of e = elim e.board_notifier [
    | none ↦ e.worker_handlers
    | some n ↦ insert "board" (board_escalation n) e.worker_handlers
  ]

  -- `if response.escalated_to:` and the bead
  unfoldable pub track : OrgEscalation W → String → Context → Option String → Office W → Office W
  unfolding create_escalation_bead
  track e issue context none o = o
  track e issue context (some target) o =
      if target == "" then o else (create_escalation_bead e issue context target o).1

  unfoldable pub ask :
      ℕ → OrgEscalation W → String → Context → Office W → Option (EscalationResponse × Office W)
  ask fuel e issue context o = elim (route fuel e.topology e.worker_id issue (escalators_of e) o) [
    | none ↦ none
    | some (response, o') ↦ some (response, track e issue context response.escalated_to o')
  ]

  unfoldable pub report : OrgEscalation W → String → Option (Dict String) → Office W → Office W
  unfolding create_issue report_issue
  report e summary metadata o = elim (get_boss e.topology e.worker_id) [
    | none ↦ o
    | some boss ↦
        if boss == ""
        then o
        else (create_issue e (report_issue e.worker_id boss summary metadata) o).1
  ]

  -- the loop of `can_handle` over the path
  unfoldable pub any_handler :
      Dict (EscalationInterface (Office W)) → String → List String → Office W → Bool × Office W
  any_handler handlers issue [] o = (false, o)
  any_handler handlers issue (target ∷ targets) o = elim (lookup target handlers) [
    | none ↦ any_handler handlers issue targets o
    | some handler ↦
        let (able, o') = handler.can_handle issue o in
        let rest = any_handler handlers issue targets o' in if able then (true, o') else rest
  ]

  -- the board as the last resort
  unfoldable pub board_in : Option (BoardNotifier W) → List String → Bool
  board_in none path = false
  board_in (some n) path = elem "board" path

  unfoldable pub can_handle : ℕ → OrgEscalation W → String → Office W → Option (Bool × Office W)
  unfolding board_in
  can_handle fuel e issue o = elim (get_escalation_path fuel e.topology e.worker_id) [
    | none ↦ none
    | some path ↦
        let (able, o') = any_handler e.worker_handlers issue path o in
        some ((if able then true else board_in e.board_notifier path), o')
  ]
