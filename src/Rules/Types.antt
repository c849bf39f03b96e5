-- ===== src/Rules/Types.antt =====
-- cli/core/rules/types.py, and the context and the beads that cli/core/rules/engine.py reads. The
-- texts of decisions and the notes of rules are left out.
use quinn_ai.Prelude.{ℕ, String, Bool, List, Option, Dict, string_eq}

pub data Severity : Type 0 where
  suggested encouraged required absolute : Severity

pub data DecisionKind : Type 0 where
  allow block allow_with_nudge requires_justify requires_override : DecisionKind

pub record Pattern : Type 0 where
  pub kind : String
  pub target : String
  pub expr : String

pub record Scope : Type 0 where
  pub env : Option String
  pub worker_role : Option String
  pub worker_role_min_level : Option ℕ
  pub target_path_prefix : Option String

pub record Rule : Type 0 where
  pub id : String
  pub severity : Severity
  pub actions : List String
  pub description : String
  pub pattern : Option Pattern
  pub scope : Option Scope

pub record Decision : Type 0 where
  pub kind : DecisionKind
  pub rule : Option Rule

-- the keys of the context that the engine reads
pub record Context : Type 0 where
  pub worker_id : Option String
  pub env : Option String
  pub worker_role : Option String
  pub worker_role_level : Option ℕ
  pub target_paths : List String
  pub body : Option String
  pub command : Option String
  pub args : Dict String

-- the keys of a bead that the engine reads
pub record Bead : Type 0 where
  pub owner : Option String
  pub body : Option String
  pub status : Option String
  pub approver_id : Option String

-- one line of the audit log
pub record AuditRecord : Type 0 where
  pub worker_id : Option String
  pub action : String
  pub rule_id : Option String
  pub decision : DecisionKind
  pub justify_bead : Option String
  pub override_bead : Option String
  pub env : Option String
  pub worker_role : Option String
  pub kill_switch_used : Bool

-- What is outside: `search` is a compiled regular expression's search, and `compiles` says whether
-- it can be compiled; `fnmatch` and `is_blank` are Python's, the latter whether `strip()` leaves
-- nothing; `get_bead` and `get_direct_manager` are the database's; `loaded` holds the expressions
-- that the loader compiled, by rule.
pub record Outside : Type 0 where
  pub compiles : String → Bool
  pub search : String → String → Bool
  pub fnmatch : String → String → Bool
  pub is_blank : String → Bool
  pub get_bead : String → Option Bead
  pub get_direct_manager : Option String → Option String
  pub loaded : Dict String
