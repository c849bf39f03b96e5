-- ===== src/Escalation/Board.antt =====
-- BoardNotifier and BoardEscalation of shared/org/escalation.py. The bd client, the creator of board
-- messages and the callback are parameters, which change the outside state `W`. The times of
-- notifications and beads are left out.
use Prim.Native.String.{◌++◌ as str_append, slice}
use quinn_ai.Prelude.{
  ℕ, zero, suc, ◌+◌, ◌-◌, String, Bool, true, false, List, [], ◌∷◌, ◌++◌, Option, none, some, Dict,
  length, ◌==◌, string_eq, if◌then◌else◌,
}
use quinn_ai.Escalation.Interface.{EscalationResponse, Context, EscalationInterface}

-- the metadata of the issues that are created
pub data Metadata : Type 0 where
  board_metadata : List String → Option String → Metadata
  escalation_metadata : String → String → List String → Context → Metadata
  report_metadata : String → String → Dict String → Metadata

pub record Issue : Type 0 where
  pub title : String
  pub issue_type : String
  pub priority : ℕ
  pub metadata : Metadata
  pub ephemeral : Bool

-- BdClient.create_issue: the id, or None
abbrev pub Client : Type 0 → Type 0
Client W = Issue → W → Option String × W

-- the state that the handlers of an organisation share
pub record Office (W : Type 0) : Type 0 where
  pub outside : W
  pub notifications : List (String × Context)

pub record BoardNotifier (W : Type 0) : Type 0 where
  pub callback : Option (String → Context → W → W)
  pub client : Client W
  pub max_size : ℕ
  -- the attempt to create a board message, with its exceptions caught
  pub message_creator : Option (String → Context → Option String → W → W)

-- `max_notifications or DEFAULT_MAX_NOTIFICATIONS`
unfoldable pub max_or_default : Option ℕ → ℕ
max_or_default none = 1000
max_or_default (some zero) = 1000
max_or_default (some (suc n)) = suc n

-- `append` of a deque with `maxlen`: the oldest item goes
unfoldable pub drop {ℓ} : {A : Type ℓ} → ℕ → List A → List A
drop zero xs = xs
drop (suc n) [] = []
drop (suc n) (x ∷ xs) = drop n xs

unfoldable pub append_bounded {ℓ} : {A : Type ℓ} → ℕ → A → List A → List A
unfolding drop
append_bounded max x xs = drop (length xs + 1 - max) (xs ++ x ∷ [])

-- `context.get("escalation_path", [])`
unfoldable pub path_or_empty : Option (List String) → List String
path_or_empty none = []
path_or_empty (some path) = path

unfoldable pub board_issue : String → Context → Issue
unfolding path_or_empty
board_issue issue context = record {
  title = str_append "BOARD: " (slice issue 0 70);
  issue_type = "board-escalation";
  priority = 0;
  metadata = board_metadata (path_or_empty context.escalation_path) context.worker_id;
  ephemeral = false;
}

-- `bead_id or 'pending'`
unfoldable pub or_pending : Option String → String
or_pending none = "pending"
or_pending (some id) = if id == "" then "pending" else id

module _ {W : Type 0} where
  unfoldable pub post_message : BoardNotifier W → String → Context → Option String → W → W
  post_message n issue context bead_id w = elim n.message_creator [
    | none ↦ w
    | some create ↦ create issue context bead_id w
  ]

  unfoldable pub call_back : BoardNotifier W → String → Context → W → W
  call_back n issue context w = elim n.callback [ none ↦ w | some f ↦ f issue context w ]

  unfoldable pub notify : BoardNotifier W → String → Context → Office W → Option String × Office W
  unfolding append_bounded board_issue post_message call_back
  notify n issue context o =
      let (bead_id, w) = n.client (board_issue issue context) o.outside in
      (
        bead_id,
        record {
          outside = call_back n issue context (post_message n issue context bead_id w);
          notifications = append_bounded n.max_size (issue, context) o.notifications;
        },
      )

  unfoldable pub get_pending_notifications : Office W → List (String × Context)
  get_pending_notifications o = o.notifications

  unfoldable pub clear_notifications : Office W → Office W
  clear_notifications o = record o { notifications = [] }

  unfoldable pub board_ask :
      BoardNotifier W → String → Context → Office W → EscalationResponse × Office W
  unfolding or_pending
  board_ask n issue context o =
      let (bead_id, o') = notify n issue context o in
      (
        record {
          resolved = true;
          guidance =
              str_append "Escalated to board for human review. Tracking: " (or_pending bead_id);
          new_tasks = [];
          escalated_to = some "board";
        },
        o',
      )

  unfoldable pub board_escalation : BoardNotifier W → EscalationInterface (Office W)
  board_escalation n = record {
    ask = board_ask n;
    report = λ summary metadata o. o;
    can_handle = λ issue o. (true, o);
  }
