-- ===== src/Rules/Match.antt =====
-- What RuleEngine.evaluate of cli/core/rules/engine.py decides, without its index and its cache.
use quinn_ai.Prelude.{
  String, Bool, true, false, List, [], ◌∷◌, Option, none, some, Dict, lookup, insert, lookup-insert,
  map, elem, All, All-map, All-In, All-get, In, here, there, IsDistinct, ◌==◌, string_eq,
  if◌then◌else◌, ◌≡◌, refl, sym, ap, subst, ◌∙◌, ◌⊎◌, inl, inr, arith, Bool-cases, Option-cases,
  eq_iff,
}
use quinn_ai.Rules.Types.{Pattern, Rule, Context, Outside}
use quinn_ai.Rules.Engine.{
  scope_matches, resolve_pattern_target, get_compiled_regex, contains, searched, match_text,
  match_pattern, or_next, first_match,
}
use quinn_ai.Rules.Index.{first_such}

module _ (out : Outside) where
  -- a regular expression that cannot be compiled matches nothing
  abbrev pub text_holds : Pattern → String → Bool
  text_holds pattern text =
      if pattern.kind == "regex"
      then (if out.compiles pattern.expr then out.search pattern.expr text else false)
      else if pattern.kind == "contains"
      then contains text pattern.expr
      else if pattern.kind == "glob"
      then out.fnmatch text pattern.expr
      else false

  abbrev pub pattern_holds : Option Pattern → Context → Bool
  pattern_holds none context = true
  pattern_holds (some pattern) context = elim (resolve_pattern_target pattern.target context) [
    | none ↦ false
    | some text ↦ text_holds pattern text
  ]

  -- A rule applies to a context if its scope and its pattern do.
  abbrev pub applies : Context → Rule → Bool
  applies context rule =
      if scope_matches rule context then pattern_holds rule.pattern context else false

  -- an expression that was compiled under a rule's id is that of the rule's pattern
  abbrev pub IsOwn : Option Pattern → Option String → Type 0
  IsOwn none compiled = Unit
  IsOwn (some pattern) none = Unit
  IsOwn (some pattern) (some expr) = (expr ≡ pattern.expr) × (out.compiles expr ≡ true)

  abbrev pub IsCached : Dict String → Rule → Type 0
  IsCached cache rule =
      IsOwn rule.pattern (lookup rule.id out.loaded) × IsOwn rule.pattern (lookup rule.id cache)

  -- what the cache may have become: itself, or with the expression of the rule
  abbrev Grows : Dict String → Option Pattern → String → Dict String → Type 0
  Grows cache none id cache' = cache' ≡ cache
  Grows cache (some pattern) id cache' =
      (cache' ≡ cache)
      ⊎ ((out.compiles pattern.expr ≡ true) × (cache' ≡ insert id pattern.expr cache))

  regex-own :
      (id : String) (pattern : Pattern) (text : String) (cache : Dict String)
      → IsOwn (some pattern) (lookup id out.loaded)
      → IsOwn (some pattern) (lookup id cache)
      → ((searched out text (get_compiled_regex out id pattern cache)).0
          ≡ (if out.compiles pattern.expr then out.search pattern.expr text else false))
        × Grows cache
            (some pattern)
            id
            (searched out text (get_compiled_regex out id pattern cache)).1
  unfolding get_compiled_regex
  regex-own id pattern text cache own_loaded own_cache =
      elim (Option-cases (lookup id out.loaded)) [
        | inr (expr, e) ↦
            let (same, compiles) = subst (IsOwn (some pattern)) e own_loaded in
            let compiles' = subst (λ x. out.compiles x ≡ true) same compiles in
            rw (e, compiles', get_compiled_regex) (ap (λ x. out.search x text) same, inl refl)
        | inl not_loaded ↦ elim (Option-cases (lookup id cache)) [
          | inr (expr, e) ↦
              let (same, compiles) = subst (IsOwn (some pattern)) e own_cache in
              let compiles' = subst (λ x. out.compiles x ≡ true) same compiles in
              rw (not_loaded, e, compiles', get_compiled_regex)
                (ap (λ x. out.search x text) same, inl refl)
          | inl not_cached ↦ elim (Bool-cases (out.compiles pattern.expr)) [
            | inl good ↦
                rw (not_loaded, not_cached, good, get_compiled_regex) (refl, inr (refl, refl))
            | inr bad ↦ rw (not_loaded, not_cached, bad, get_compiled_regex) (refl, inl refl)
          ]
        ]
      ]

  match_text-own :
      (id : String) (pattern : Pattern) (text : String) (cache : Dict String)
      → IsOwn (some pattern) (lookup id out.loaded)
      → IsOwn (some pattern) (lookup id cache)
      → ((match_text out id pattern text cache).0 ≡ text_holds pattern text)
        × Grows cache (some pattern) id (match_text out id pattern text cache).1
  unfolding match_text
  match_text-own id pattern text cache own_loaded own_cache =
      elim (Bool-cases (pattern.kind == "regex")) [
        | inl regex ↦ rw (regex, match_text) (regex-own id pattern text cache own_loaded own_cache)
        | inr other ↦ elim (Bool-cases (pattern.kind == "contains")) [
          | inl within ↦ rw (other, within, match_text) (refl, inl refl)
          | inr no_other ↦ elim (Bool-cases (pattern.kind == "glob")) [
            | inl glob ↦ rw (other, no_other, glob, match_text) (refl, inl refl)
            | inr unknown ↦ rw (other, no_other, unknown, match_text) (refl, inl refl)
          ]
        ]
      ]

  match_pattern-own :
      (id : String) (pattern : Option Pattern) (context : Context) (cache : Dict String)
      → IsOwn pattern (lookup id out.loaded)
      → IsOwn pattern (lookup id cache)
      → ((match_pattern out id pattern context cache).0 ≡ pattern_holds pattern context)
        × Grows cache pattern id (match_pattern out id pattern context cache).1
  unfolding match_pattern
  match_pattern-own id none context cache own_loaded own_cache = (refl, refl)
  match_pattern-own id (some pattern) context cache own_loaded own_cache =
      elim (Option-cases (resolve_pattern_target pattern.target context)) [
        | inl nothing ↦ rw (nothing, match_pattern, pattern_holds) (refl, inl refl)
        | inr (text, found) ↦
            rw (found, match_pattern, pattern_holds)
              (match_text-own id pattern text cache own_loaded own_cache)
      ]

  -- the ids of rules are distinct
  abbrev pub rule_ids : List Rule → List String
  rule_ids rules = map (λ r. r.id) rules

  elem-rule_ids : (rules : List Rule) {r : Rule} → In r rules → elem r.id (rule_ids rules) ≡ true
  elem-rule_ids [] i = elim i [ ]
  elem-rule_ids (x ∷ rules) {r} (here e) =
      let same = ap (λ y. y.id) e in ground (arith, same, eq_iff r.id x.id)
  elem-rule_ids (x ∷ rules) (there i) = ground (arith, elem-rule_ids rules i)

  same_rule :
      (rules : List Rule) {r s : Rule}
      → IsDistinct (rule_ids rules)
      → In r rules
      → In s rules
      → r.id ≡ s.id
      → r ≡ s
  same_rule [] d i j e = elim i [ ]
  same_rule (x ∷ rules) d (here a) (here b) e = a ∙ sym b
  same_rule (x ∷ rules) {r} {s} d (here a) (there j) e =
      let at_x : s.id ≡ x.id = sym e ∙ ap (λ y. y.id) a in
      let stands = elem-rule_ids rules j in
      let out_of = subst (λ y. elem y (rule_ids rules) ≡ false) (sym at_x) d.0 in
      ground (arith, stands, out_of)
  same_rule (x ∷ rules) {r} {s} d (there i) (here b) e =
      let at_x : r.id ≡ x.id = e ∙ ap (λ y. y.id) b in
      let stands = elem-rule_ids rules i in
      let out_of = subst (λ y. elem y (rule_ids rules) ≡ false) (sym at_x) d.0 in
      ground (arith, stands, out_of)
  same_rule (x ∷ rules) d (there i) (there j) e = same_rule rules d.1 i j e

  grown_pattern :
      (cache cache' : Dict String) (pattern : Option Pattern) (id : String) (s : Rule)
      → (id ≡ s.id → s.pattern ≡ pattern)
      → Grows cache pattern id cache'
      → IsCached cache s
      → IsCached cache' s
  grown_pattern cache cache' none id s same e h = subst (λ c. IsCached c s) (sym e) h
  grown_pattern cache cache' (some pattern) id s same (inl e) h =
      subst (λ c. IsCached c s) (sym e) h
  grown_pattern cache cache' (some pattern) id s same (inr (good, e)) h =
      elim (Bool-cases (id == s.id)) [
        | inl this ↦
            let found : lookup s.id cache' ≡ some pattern.expr =
              ap (lookup s.id) e ∙ lookup-insert id s.id pattern.expr cache ∙ rw this refl in
            (
              h.0,
              subst (λ p. IsOwn p (lookup s.id cache')) (sym (same ((eq_iff id s.id).0 this)))
                  (subst (IsOwn (some pattern)) (sym found) (refl, good)),
            )
        | inr other ↦
            let kept : lookup s.id cache' ≡ lookup s.id cache =
              ap (lookup s.id) e ∙ lookup-insert id s.id pattern.expr cache ∙ rw other refl in
            (h.0, subst (IsOwn s.pattern) (sym kept) h.1)
      ]

  -- Trying one rule leaves every rule's expression its own.
  grown-IsCached :
      (rules : List Rule) (cache cache' : Dict String) {r : Rule}
      → IsDistinct (rule_ids rules)
      → In r rules
      → Grows cache r.pattern r.id cache'
      → All (IsCached cache) rules
      → All (IsCached cache') rules
  grown-IsCached rules cache cache' {r} d i grown all =
      All-map rules
        (λ s j.
          grown_pattern cache cache' r.pattern r.id s
            (λ e. ap (λ x. x.pattern) (sym (same_rule rules d i j e))) grown
            (All-get (IsCached cache) rules all j))
        (All-In rules)

  module _ (rules : List Rule) (distinct : IsDistinct (rule_ids rules)) (context : Context) where
    or_next-first :
        (r : Rule) (later : Dict String → Option Rule × Dict String) (tried : Bool × Dict String)
        {rest : Option Rule}
        → ((later tried.1).0 ≡ rest)
        → (or_next r tried later).0 ≡ (if tried.0 then some r else rest)
    or_next-first r later (true, cache) e = refl
    or_next-first r later (false, cache) e = e

    or_next-cache :
        (P : Dict String → Type 0) (r : Rule) (later : Dict String → Option Rule × Dict String)
        (tried : Bool × Dict String)
        → P tried.1
        → P (later tried.1).1
        → P (or_next r tried later).1
    or_next-cache P r later (true, cache) p q = p
    or_next-cache P r later (false, cache) p q = q

    -- The loop finds the first candidate that applies, and keeps the cache right.
    pub first_match-first_such :
        (some_rules : List Rule) (cache : Dict String)
        → All (λ r. In r rules) some_rules
        → All (IsCached cache) rules
        → ((first_match out context some_rules cache).0 ≡ first_such (applies context) some_rules)
          × All (IsCached (first_match out context some_rules cache).1) rules
    unfolding first_match
    first_match-first_such [] cache known all = (refl, all)
    first_match-first_such (r ∷ some_rules) cache known all =
        elim (Bool-cases (scope_matches r context)) [
          | inr outside ↦
              let rest = first_match-first_such some_rules cache known.1 all in
              rw (outside, first_match) rest
          | inl inside ↦
              let (own_loaded, own_cache) = All-get (IsCached cache) rules all known.0 in
              let (holds, grown) =
                match_pattern-own r.id r.pattern context cache own_loaded own_cache in
              let tried = match_pattern out r.id r.pattern context cache in
              let all' = grown-IsCached rules cache tried.1 distinct known.0 grown all in
              let (rest, kept) = first_match-first_such some_rules tried.1 known.1 all' in
              let later : Dict String → Option Rule × Dict String =
                first_match out context some_rules in
              rw (inside, first_match)
                (
                  or_next-first r later tried rest
                      ∙ ap (λ b. if b then some r else first_such (applies context) some_rules)
                          holds,
                  or_next-cache (λ c. All (IsCached c) rules) r later tried all' kept,
                )
        ]
