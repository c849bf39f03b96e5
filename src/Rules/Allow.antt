-- ===== src/Rules/Allow.antt =====
-- What RuleEngine.evaluate of cli/core/rules/engine.py lets through, and what it logs.
use quinn_ai.Prelude.{
  String, true, false, List, [], ◌∷◌, ◌++◌, Option, none, some, Dict, All, In, IsDistinct,
  string_eq, ◌≡◌, refl, sym, ap, subst, ◌∙◌, inl, inr, arith, Option-cases, eq_iff,
}
use quinn_ai.Rules.Types.{
  Severity, suggested, encouraged, required, absolute, allow, Rule, Context, Bead, Outside,
}
use quinn_ai.Rules.Engine.{
  RuleEngine, candidate_rules, index_rules, new_engine, first_match, same_text, justify_is_valid,
  override_is_valid, kind_of, apply_severity, decide, audit_record, audited, evaluate,
}
use quinn_ai.Rules.Index.{first_such, listed, first-index, candidate_rules-In}
use quinn_ai.Rules.Match.{applies, IsCached, rule_ids, first_match-first_such}

-- An engine of a rule set, each of whose cached expressions is that of its rule.
pub record IsEngineOf (out : Outside) (rules : List Rule) (e : RuleEngine) : Type 0 where
  pub distinct : IsDistinct (rule_ids out rules)
  pub indexed : e.rules_by_action ≡ index_rules rules []
  pub cached : All (IsCached out e.inline_compiled) rules

module _ (out : Outside) (rules : List Rule) where
  -- the first rule of the rule set that names the action and applies
  abbrev pub deciding : String → Context → Option Rule
  deciding action context = first_such (listed (applies out context) action) rules

  -- `evaluate` decides by the first rule of the rule set that names the action and applies to the
  -- context, appends one line with that decision to the audit log, and leaves an engine of the same
  -- rule set.
  pub evaluate_lem :
      (action : String) (context : Context) (justify override : Option String) (e : RuleEngine)
      → IsEngineOf out rules e
      → let (decision, e') = evaluate out action context justify override e in
        (decision ≡ decide out context justify override (deciding action context))
        × (e'.audit ≡ e.audit ++ audit_record false action context decision justify override ∷ [])
        × IsEngineOf out rules e'
  unfolding evaluate
  evaluate_lem action context justify override e ready =
      let some_rules = candidate_rules action e.rules_by_action in
      let same : some_rules ≡ candidate_rules action (index_rules rules []) =
        ap (candidate_rules action) ready.indexed in
      let (found, kept) =
        first_match-first_such out rules ready.distinct context some_rules e.inline_compiled
          (subst (All (λ r. In r rules)) (sym same) (candidate_rules-In action rules))
          ready.cached in
      let matched =
        found
        ∙ ap (first_such (applies out context)) same
        ∙ first-index (applies out context) action rules in
      audited_lem (first_match out context some_rules e.inline_compiled) matched kept
    where
      audited_lem :
          (tried : Option Rule × Dict String)
          → tried.0 ≡ deciding action context
          → All (IsCached out tried.1) rules
          → let (decision, e') = audited out action context justify override e tried in
            (decision ≡ decide out context justify override (deciding action context))
            × (e'.audit
                ≡ e.audit ++ audit_record false action context decision justify override ∷ [])
            × IsEngineOf out rules e'
      audited_lem (matched, cache) at kept = (
        ap (decide out context justify override) at,
        refl,
        record { distinct = ready.distinct; indexed = ready.indexed; cached = kept },
      )

-- the bead that justifies: of the worker, and not blank
pub record Justifies (out : Outside) (context : Context) (bead_id : String) : Type 0 where
  pub bead : Bead
  pub found : out.get_bead bead_id ≡ some bead
  pub owned : bead.owner ≡ context.worker_id
  pub text : String
  pub body : bead.body ≡ some text
  pub not_blank : out.is_blank text ≡ false

-- the bead that overrides: approved by the worker's direct manager
pub record Overrides (out : Outside) (context : Context) (bead_id : String) : Type 0 where
  pub bead : Bead
  pub found : out.get_bead bead_id ≡ some bead
  pub approved : bead.status ≡ some "approved"
  pub manager : String
  pub managed : out.get_direct_manager context.worker_id ≡ some manager
  pub by_manager : bead.approver_id ≡ some manager

-- Why an action is allowed outright: no rule applies, an encouraged rule is justified, or a required
-- rule is overridden.
pub data Allowed (out : Outside) (context : Context) (justify override : Option String)
    : Option Rule → Type 0 where
  no_rule : Allowed out context justify override none
  justified :
      (rule : Rule) (bead_id : String)
      → rule.severity ≡ encouraged
      → justify ≡ some bead_id
      → Justifies out context bead_id
      → Allowed out context justify override (some rule)
  overridden :
      (rule : Rule) (bead_id : String)
      → rule.severity ≡ required
      → override ≡ some bead_id
      → Overrides out context bead_id
      → Allowed out context justify override (some rule)

same_text-eq : (a b : Option String) → same_text a b ≡ true → a ≡ b
same_text-eq none none h = refl
same_text-eq none (some b) h = ground arith
same_text-eq (some a) none h = ground arith
same_text-eq (some a) (some b) h = ap some ((eq_iff a b).0 h)

justify-Justifies :
    (out : Outside) (context : Context) (bead_id : String)
    → justify_is_valid out context bead_id ≡ true
    → Justifies out context bead_id
unfolding justify_is_valid
justify-Justifies out context bead_id h = elim (Option-cases (out.get_bead bead_id)) [
  | inl missing ↦ ground (arith, h, missing)
  | inr (bead, found) ↦ elim (Option-cases bead.body) [
    | inl empty ↦ ground (arith, h, found, empty)
    | inr (text, body) ↦
        let owned : same_text bead.owner context.worker_id ≡ true = ground (arith, h, found) in
        record {
          bead = bead;
          found = found;
          owned = same_text-eq bead.owner context.worker_id owned;
          text = text;
          body = body;
          not_blank = ground (arith, h, found, body, owned);
        }
  ]
]

override-Overrides :
    (out : Outside) (context : Context) (bead_id : String)
    → override_is_valid out context bead_id ≡ true
    → Overrides out context bead_id
unfolding override_is_valid
override-Overrides out context bead_id h = elim (Option-cases (out.get_bead bead_id)) [
  | inl missing ↦ ground (arith, h, missing)
  | inr (bead, found) ↦ elim (Option-cases (out.get_direct_manager context.worker_id)) [
    | inl nobody ↦ ground (arith, h, found, nobody)
    | inr (manager, managed) ↦
        let approved : same_text bead.status (some "approved") ≡ true = ground (arith, h, found) in
        record {
          bead = bead;
          found = found;
          approved = same_text-eq bead.status (some "approved") approved;
          manager = manager;
          managed = managed;
          by_manager =
              same_text-eq bead.approver_id (some manager)
                (ground (arith, h, found, managed, approved));
        }
  ]
]

kind-Allowed :
    (out : Outside) (context : Context) (justify override : Option String) (rule : Rule)
    (severity : Severity)
    → rule.severity ≡ severity
    → kind_of out severity context justify override ≡ allow
    → Allowed out context justify override (some rule)
unfolding kind_of
kind-Allowed out context justify override rule absolute e h = ground arith
kind-Allowed out context justify override rule suggested e h = ground arith
kind-Allowed out context none override rule encouraged e h = ground arith
kind-Allowed out context (some bead_id) override rule encouraged e h =
    justified rule bead_id e refl (justify-Justifies out context bead_id (ground (arith, h)))
kind-Allowed out context justify none rule required e h = ground arith
kind-Allowed out context justify (some bead_id) rule required e h =
    overridden rule bead_id e refl (override-Overrides out context bead_id (ground (arith, h)))

decide-Allowed :
    (out : Outside) (context : Context) (justify override : Option String) (matched : Option Rule)
    → (decide out context justify override matched).kind ≡ allow
    → Allowed out context justify override matched
unfolding apply_severity
decide-Allowed out context justify override none h = no_rule
decide-Allowed out context justify override (some rule) h =
    kind-Allowed out context justify override rule rule.severity refl h

-- If `evaluate` allows an action outright, then no rule that names it applies; or the first that does
-- is ENCOURAGED and the given bead is of the worker and not blank; or it is REQUIRED and the given
-- bead is approved by the worker's direct manager.
pub evaluate-Allowed :
    (out : Outside) (rules : List Rule) (action : String) (context : Context)
    (justify override : Option String) (e : RuleEngine)
    → IsEngineOf out rules e
    → (evaluate out action context justify override e).0.kind ≡ allow
    → Allowed out context justify override (deciding out rules action context)
evaluate-Allowed out rules action context justify override e ready h =
    let (decision, _, _) = evaluate_lem out rules action context justify override e ready in
    decide-Allowed out context justify override (deciding out rules action context)
      (ap (λ d. d.kind) (sym decision) ∙ h)

-- the rules as `new_engine` takes them
pub new_engine-IsEngineOf :
    (out : Outside) (rules : List Rule)
    → All (IsCached out []) rules
    → IsDistinct (rule_ids out rules)
    → IsEngineOf out rules (new_engine rules)
unfolding new_engine
new_engine-IsEngineOf out rules cached distinct = record {
  distinct = distinct;
  indexed = refl;
  cached = cached;
}
