-- ===== src/Task.antt =====
-- shared/wrkr/core/task.py, shared/wrkr/core/result.py and shared/wrkr/core/config.py: tasks, their
-- results, and a worker's configuration. Metadata is a dictionary of texts; times are natural
-- numbers. A priority is a natural number: a negative one is refused like one above 4.
use quinn_ai.Prelude.{
  ℕ, String, Bool, true, false, not, List, [], Option, none, some, Dict, length, ltb, leb,
  if◌then◌else◌, ◌&&◌,
}

pub data Source : Type 0 where
  queue beads escalation ask : Source

pub record Task : Type 0 where
  pub id : String
  pub title : String
  pub description : String
  pub priority : ℕ
  pub source : Source
  pub blocked_by : List String
  pub metadata : Dict String
  pub created_at : ℕ
  pub ask_id : Option String
  pub okr_id : Option String

-- `Task(...)` with `__post_init__`: `none` is the ValueError on a priority outside 0 to 4.
unfoldable pub make_task : Task → Option Task
make_task t = if not (leb 0 t.priority && leb t.priority 4) then none else some t

unfoldable pub is_blocked : Task → Bool
is_blocked t = ltb 0 (length t.blocked_by)

pub record WorkerResult : Type 0 where
  pub succeeded : Bool
  pub output : String
  pub error : Option String
  pub needs_escalation : Bool
  pub escalation_reason : String
  pub artifacts : List String
  pub metadata : Dict String
  pub duration_ms : Option ℕ

-- The class methods; the fields that a caller can add have their defaults.
unfoldable pub success : String → WorkerResult
success output = record {
  succeeded = true;
  output = output;
  error = none;
  needs_escalation = false;
  escalation_reason = "";
  artifacts = [];
  metadata = [];
  duration_ms = none;
}

-- with `duration_ms` and `metadata`, as the worker calls it
unfoldable pub failure : String → ℕ → Dict String → WorkerResult
failure error duration_ms metadata = record {
  succeeded = false;
  output = "";
  error = some error;
  needs_escalation = false;
  escalation_reason = "";
  artifacts = [];
  metadata = metadata;
  duration_ms = some duration_ms;
}

unfoldable pub escalate : String → WorkerResult
escalate reason = record {
  succeeded = false;
  output = "";
  error = none;
  needs_escalation = true;
  escalation_reason = reason;
  artifacts = [];
  metadata = [];
  duration_ms = none;
}

pub data IdleBehavior : Type 0 where
  wait poll exit : IdleBehavior

pub record WorkerConfig : Type 0 where
  pub id : String
  pub name : String
  pub idle_behavior : IdleBehavior
  pub no_work_escalation_threshold_minutes : ℕ
