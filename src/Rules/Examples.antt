-- ===== src/Rules/Examples.antt =====
-- The theorems on the rules engine at a concrete rule set.
use quinn_ai.Prelude.{
  true, false, List, [], ◌∷◌, ◌++◌, none, some, lookup, insert, ◌==◌, string_eq, if◌then◌else◌, ◌≡◌,
  refl,
}
use quinn_ai.Rules.Types.{encouraged, absolute, Rule, Context, Outside}
use quinn_ai.Rules.Engine.{
  RuleEngine, new_engine, index_rule, index_rules, evaluate, first_match, scope_matches,
  match_pattern, match_text, resolve_pattern_target, get_compiled_regex, apply_severity, kind_of,
  justify_is_valid, decide, audit_record,
}
use quinn_ai.Rules.Allow.{
  IsEngineOf, deciding, evaluate_lem, Allowed, evaluate-Allowed, new_engine-IsEngineOf,
}

abbrev outside : Outside
outside = record {
  compiles = λ expr. true;
  search = λ expr text. text == expr;
  fnmatch = λ text expr. text == expr;
  is_blank = λ text. text == "";
  get_bead = λ id.
      if id == "b1"
      then some (record {
        owner = some "dev";
        body = some "all tests pass";
        status = none;
        approver_id = none;
      })
      else none;
  get_direct_manager = λ worker_id. some "lead";
  loaded = ("no-force", "--force") ∷ [];
}

abbrev no_force : Rule
no_force = record {
  id = "no-force";
  severity = absolute;
  actions = "git.push" ∷ "git.push" ∷ [];
  description = "never force";
  pattern = some (record { kind = "regex"; target = "command"; expr = "--force" });
  scope = none;
}

abbrev show_tests : Rule
show_tests = record {
  id = "show-tests";
  severity = encouraged;
  actions = "git.push" ∷ "pr.open" ∷ [];
  description = "show the tests";
  pattern = some (record { kind = "regex"; target = "body"; expr = "ready" });
  scope = some (record {
    env = some "dev";
    worker_role = none;
    worker_role_min_level = none;
    target_path_prefix = none;
  });
}

abbrev context : Context
context = record {
  worker_id = some "dev";
  env = some "dev";
  worker_role = none;
  worker_role_level = none;
  target_paths = [];
  body = some "ready";
  command = some "push";
  args = [];
}

abbrev rules : List Rule
rules = no_force ∷ show_tests ∷ []

abbrev engine : RuleEngine
engine = new_engine rules

engine-IsEngineOf : IsEngineOf outside rules engine
unfolding lookup
engine-IsEngineOf =
    new_engine-IsEngineOf outside rules (((refl, refl), tt), ((tt, tt), tt)) (refl, (refl, tt))

evaluate_lem_example :
    let (decision, e') = evaluate outside "git.push" context none none engine in
    (decision ≡ decide outside context none none (deciding outside rules "git.push" context))
    × (e'.audit ≡ engine.audit ++ audit_record false "git.push" context decision none none ∷ [])
    × IsEngineOf outside rules e'
evaluate_lem_example =
    evaluate_lem outside rules "git.push" context none none engine engine-IsEngineOf

evaluate-Allowed_example :
    Allowed outside context (some "b1") none (deciding outside rules "git.push" context)
unfolding evaluate new_engine first_match scope_matches match_pattern match_text
    resolve_pattern_target get_compiled_regex apply_severity kind_of justify_is_valid index_rules
    index_rule lookup insert
evaluate-Allowed_example =
    evaluate-Allowed outside rules "git.push" context (some "b1") none engine engine-IsEngineOf refl
