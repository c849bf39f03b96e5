-- ===== src/Rules/Engine.antt =====
-- RuleEngine of cli/core/rules/engine.py, and DisabledRuleEngine of cli/core/rules/_disabled.py.
use quinn_ai.Prelude.{
  ℕ, String, Bool, true, false, not, ◌&&◌, List, [], ◌∷◌, ◌++◌, Option, none, some, Dict, lookup,
  insert, any, leb, ◌==◌, string_eq, if◌then◌else◌,
}
use Prim.Native.String.{len, slice}
use text.Mathlib.Text.{starts_with, find?}
use quinn_ai.Rules.Types.{
  Severity, suggested, encouraged, required, absolute, DecisionKind, allow, block, allow_with_nudge,
  requires_justify, requires_override, Pattern, Rule, Decision, Context, AuditRecord, Outside,
}

-- The engine with its index, the expressions that it compiled itself, and the audit log.
pub record RuleEngine : Type 0 where
  pub rules_by_action : Dict (List Rule)
  pub inline_compiled : Dict String
  pub audit : List AuditRecord

abbrev pub candidate_rules : String → Dict (List Rule) → List Rule
candidate_rules action index = elim (lookup action index) [ none ↦ [] | some rules ↦ rules ]

-- the inner loop of `__init__`
unfoldable pub index_rule : Rule → List String → Dict (List Rule) → Dict (List Rule)
index_rule rule [] index = index
index_rule rule (action ∷ actions) index =
    index_rule rule actions (insert action (candidate_rules action index ++ rule ∷ []) index)

unfoldable pub index_rules : List Rule → Dict (List Rule) → Dict (List Rule)
unfolding index_rule
index_rules [] index = index
index_rules (rule ∷ rules) index = index_rules rules (index_rule rule rule.actions index)

-- `__init__`
unfoldable pub new_engine : List Rule → RuleEngine
unfolding index_rules
new_engine rules = record {
  rules_by_action = index_rules rules [];
  inline_compiled = [];
  audit = [];
}

-- `a is None or b == a` for optional texts
abbrev pub agrees : Option String → Option String → Bool
agrees none actual = true
agrees (some wanted) none = false
agrees (some wanted) (some actual) = actual == wanted

abbrev pub reaches : Option ℕ → Option ℕ → Bool
reaches none level = true
reaches (some min) none = false
reaches (some min) (some level) = leb min level

abbrev pub has_prefix : Option String → List String → Bool
has_prefix none paths = true
has_prefix (some prefix) paths = any (λ p. starts_with p prefix) paths

unfoldable pub scope_matches : Rule → Context → Bool
scope_matches rule context = elim rule.scope [
  | none ↦ true
  | some scope ↦
      agrees scope.env context.env
      && agrees scope.worker_role context.worker_role
      && reaches scope.worker_role_min_level context.worker_role_level
      && has_prefix scope.target_path_prefix context.target_paths
]

abbrev pub first_path : List String → Option String
first_path [] = none
first_path (p ∷ _) = some p

-- `_resolve_pattern_target`; the name of an argument stands behind the first colon
unfoldable pub resolve_pattern_target : String → Context → Option String
unfolding lookup
resolve_pattern_target target context =
    if target == "body"
    then context.body
    else if target == "command"
    then context.command
    else if target == "path"
    then first_path context.target_paths
    else if starts_with target "argument:"
    then lookup (slice target 9 (len target)) context.args
    else none

-- `_get_compiled_regex`: the expression that is searched for, and the engine's own cache
unfoldable pub get_compiled_regex :
    Outside → String → Pattern → Dict String → Option String × Dict String
unfolding lookup insert
get_compiled_regex out id pattern cache = elim (lookup id out.loaded) [
  | some expr ↦ (some expr, cache)
  | none ↦ elim (lookup id cache) [
    | some expr ↦ (some expr, cache)
    | none ↦
        if out.compiles pattern.expr
        then (some pattern.expr, insert id pattern.expr cache)
        else (none, cache)
  ]
]

-- Python's `expr in text`
abbrev pub contains : String → String → Bool
contains text expr = elim (find? text expr) [ none ↦ false | some _ ↦ true ]

abbrev pub searched : Outside → String → Option String × Dict String → Bool × Dict String
searched out text (none, cache) = (false, cache)
searched out text (some expr, cache) = (out.search expr text, cache)

-- the kinds of patterns, on a text
unfoldable pub match_text : Outside → String → Pattern → String → Dict String → Bool × Dict String
unfolding get_compiled_regex
match_text out id pattern text cache =
    if pattern.kind == "regex"
    then searched out text (get_compiled_regex out id pattern cache)
    else if pattern.kind == "contains"
    then (contains text pattern.expr, cache)
    else if pattern.kind == "glob"
    then (out.fnmatch text pattern.expr, cache)
    else (false, cache)

unfoldable pub match_pattern :
    Outside → String → Option Pattern → Context → Dict String → Bool × Dict String
unfolding match_text resolve_pattern_target
match_pattern out id none context cache = (true, cache)
match_pattern out id (some pattern) context cache =
    elim (resolve_pattern_target pattern.target context) [
      | none ↦ (false, cache)
      | some text ↦ match_text out id pattern text cache
    ]

abbrev pub pattern_matches : Outside → Rule → Context → Dict String → Bool × Dict String
pattern_matches out rule context cache = match_pattern out rule.id rule.pattern context cache

-- the body of the loop in `_first_match`, once the pattern was tried
abbrev pub or_next :
    Rule
    → Bool × Dict String
    → (Dict String → Option Rule × Dict String)
    → Option Rule × Dict String
or_next rule (true, cache) next = (some rule, cache)
or_next rule (false, cache) next = next cache

unfoldable pub first_match : Outside → Context → List Rule → Dict String → Option Rule × Dict String
unfolding scope_matches match_pattern
first_match out context [] cache = (none, cache)
first_match out context (rule ∷ rules) cache =
    let later : Dict String → Option Rule × Dict String = first_match out context rules in
    if scope_matches rule context
    then or_next rule (pattern_matches out rule context cache) later
    else later cache

-- `==` on optional texts
abbrev pub same_text : Option String → Option String → Bool
same_text none none = true
same_text none (some b) = false
same_text (some a) none = false
same_text (some a) (some b) = a == b

unfoldable pub justify_is_valid : Outside → Context → String → Bool
justify_is_valid out context bead_id = elim (out.get_bead bead_id) [
  | none ↦ false
  | some bead ↦
      if same_text bead.owner context.worker_id
      then (elim bead.body [ none ↦ false | some text ↦ not (out.is_blank text) ])
      else false
]

unfoldable pub override_is_valid : Outside → Context → String → Bool
override_is_valid out context bead_id = elim (out.get_bead bead_id) [
  | none ↦ false
  | some bead ↦
      if same_text bead.status (some "approved")
      then (elim (out.get_direct_manager context.worker_id) [
        | none ↦ false
        | some manager_id ↦ same_text bead.approver_id (some manager_id)
      ])
      else false
]

-- the kind that each severity leads to
unfoldable pub kind_of : Outside → Severity → Context → Option String → Option String → DecisionKind
unfolding justify_is_valid override_is_valid
kind_of out absolute context justify override = block
kind_of out suggested context justify override = allow_with_nudge
kind_of out encouraged context none override = requires_justify
kind_of out encouraged context (some bead_id) override =
    if justify_is_valid out context bead_id then allow else block
kind_of out required context justify none = requires_override
kind_of out required context justify (some bead_id) =
    if override_is_valid out context bead_id then allow else block

unfoldable pub apply_severity : Outside → Rule → Context → Option String → Option String → Decision
unfolding kind_of
apply_severity out rule context justify override = record {
  kind = kind_of out rule.severity context justify override;
  rule = some rule;
}

abbrev pub rule_id : Option Rule → Option String
rule_id none = none
rule_id (some rule) = some rule.id

abbrev pub audit_record :
    Bool → String → Context → Decision → Option String → Option String → AuditRecord
audit_record disabled action context decision justify override = record {
  worker_id = context.worker_id;
  action = action;
  rule_id = rule_id decision.rule;
  decision = decision.kind;
  justify_bead = justify;
  override_bead = override;
  env = context.env;
  worker_role = context.worker_role;
  kill_switch_used = disabled;
}

abbrev pub decide : Outside → Context → Option String → Option String → Option Rule → Decision
decide out context justify override none = record { kind = allow; rule = none }
decide out context justify override (some rule) = apply_severity out rule context justify override

-- the decision, and the engine with its cache and one more line in the log
abbrev pub audited :
    Outside
    → String
    → Context
    → Option String
    → Option String
    → RuleEngine
    → Option Rule × Dict String
    → Decision × RuleEngine
audited out action context justify override e (matched, cache) =
    let decision = decide out context justify override matched in
    (
      decision,
      record e {
        inline_compiled = cache;
        audit = e.audit ++ audit_record false action context decision justify override ∷ [];
      },
    )

unfoldable pub evaluate :
    Outside → String → Context → Option String → Option String → RuleEngine → Decision × RuleEngine
unfolding first_match apply_severity
evaluate out action context justify override e =
    audited out action context justify override e
      (first_match out context (candidate_rules action e.rules_by_action) e.inline_compiled)

-- `DisabledRuleEngine.evaluate`, with the log
unfoldable pub evaluate_disabled :
    String
    → Context
    → Option String
    → Option String
    → List AuditRecord
    → Decision × List AuditRecord
evaluate_disabled action context justify override log =
    let decision : Decision = record { kind = allow; rule = none } in
    (decision, log ++ audit_record true action context decision justify override ∷ [])
