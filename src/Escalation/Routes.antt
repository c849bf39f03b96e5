-- ===== src/Escalation/Routes.antt =====
-- `route` against the order in which the targets of a path are asked.
use quinn_ai.Prelude.{
  ℕ, String, true, false, List, [], ◌∷◌, Option, none, some, Dict, lookup, ◌≡◌, refl, subst, inl,
  inr, arith, Bool-cases, Option-cases,
}
use quinn_ai.Escalation.Interface.{EscalationResponse, Context, EscalationInterface, unresolved}
use quinn_ai.Escalation.Topology.{OrgTopology}
use quinn_ai.Escalation.Router.{
  get_escalation_path, try_handler, try_target, try_targets, or_else, route_context, route,
}
use quinn_ai.Escalation.Paths.{Chain, path_iff}

module _ {W : Type 0} (escalators : Dict (EscalationInterface W)) (issue : String)
    (context : Context) where
  -- A target that does not resolve the issue, and what it does to the state: it has no handler, its
  -- handler cannot handle the issue, or the handler is asked and does not resolve it.
  pub data Passes : String → W → W → Type 0 where
    no_handler : {target : String} {w : W} → lookup target escalators ≡ none → Passes target w w
    unable :
        {target : String} {handler : EscalationInterface W} {w : W}
        → lookup target escalators ≡ some handler
        → (handler.can_handle issue w).0 ≡ false
        → Passes target w (handler.can_handle issue w).1
    unhelpful :
        {target : String} {handler : EscalationInterface W} {w : W}
        → lookup target escalators ≡ some handler
        → (handler.can_handle issue w).0 ≡ true
        → (handler.ask issue context (handler.can_handle issue w).1).0.resolved ≡ false
        → Passes target w (handler.ask issue context (handler.can_handle issue w).1).1

  -- What becomes of the issue along a path: the first target that resolves it ends the search, with
  -- its response; behind the last target stands the unresolved response.
  pub data Routed : List String → W → EscalationResponse → W → Type 0 where
    exhausted : {w : W} → Routed [] w unresolved w
    resolves :
        {target : String} {targets : List String} {handler : EscalationInterface W} {w : W}
        → lookup target escalators ≡ some handler
        → (handler.can_handle issue w).0 ≡ true
        → (handler.ask issue context (handler.can_handle issue w).1).0.resolved ≡ true
        → Routed
            (target ∷ targets)
            w
            (handler.ask issue context (handler.can_handle issue w).1).0
            (handler.ask issue context (handler.can_handle issue w).1).1
    passes :
        {target : String} {targets : List String} {w w' v : W} {response : EscalationResponse}
        → Passes target w w'
        → Routed targets w' response v
        → Routed (target ∷ targets) w response v

  abbrev Outcome : List String → W → EscalationResponse × W → Type 0
  Outcome targets w (response, v) = Routed targets w response v

  -- what one target gave
  abbrev Attempt : String → List String → W → Option EscalationResponse × W → Type 0
  Attempt target targets w (none, v) = Passes target w v
  Attempt target targets w (some r, v) = Routed (target ∷ targets) w r v

  try_handler-Attempt :
      (target : String) (targets : List String) (handler : EscalationInterface W) (w : W)
      → lookup target escalators ≡ some handler
      → Attempt target targets w (try_handler issue context handler w)
  unfolding try_handler
  try_handler-Attempt target targets handler w found =
      elim (Bool-cases (handler.can_handle issue w).0) [
        | inr cannot ↦ rw (cannot, try_handler) (unable found cannot)
        | inl can ↦
            let asked = handler.ask issue context (handler.can_handle issue w).1 in
            elim (Bool-cases asked.0.resolved) [
              | inr refuses ↦ simp (can, try_handler, refuses) (unhelpful found can refuses)
              | inl done ↦ simp (can, try_handler, done) (resolves found can done)
            ]
      ]

  try_target-Attempt :
      (target : String) (targets : List String) (w : W)
      → Attempt target targets w (try_target escalators issue context target w)
  unfolding try_target
  try_target-Attempt target targets w = elim (Option-cases (lookup target escalators)) [
    | inl missing ↦ rw (missing, try_target) (no_handler missing)
    | inr (handler, found) ↦
        rw (found, try_target) (try_handler-Attempt target targets handler w found)
  ]

  or_else-Outcome :
      (target : String) (targets : List String) (w : W) (answer : Option EscalationResponse × W)
      → ((v : W) → Outcome targets v (try_targets escalators issue context targets v))
      → Attempt target targets w answer
      → Outcome (target ∷ targets) w (or_else (try_targets escalators issue context targets) answer)
  or_else-Outcome target targets w (none, v) rest p = passes p (rest v)
  or_else-Outcome target targets w (some r, v) rest p = p

  pub try_targets-Routed :
      (targets : List String) (w : W)
      → Outcome targets w (try_targets escalators issue context targets w)
  unfolding try_targets
  try_targets-Routed [] w = exhausted
  try_targets-Routed (target ∷ targets) w =
      or_else-Outcome target targets w (try_target escalators issue context target w)
        (λ v. try_targets-Routed targets v) (try_target-Attempt target targets w)

module _ {W : Type 0} (fuel : ℕ) (t : OrgTopology) (worker_id issue : String)
    (escalators : Dict (EscalationInterface W)) (w : W) where
  pub route-some :
      (path : List String)
      → get_escalation_path fuel t worker_id ≡ some path
      → route fuel t worker_id issue escalators w
        ≡ some (try_targets escalators issue (route_context worker_id path) path w)
  unfolding route
  route-some path found = rw (found, route) refl

  route-none :
      get_escalation_path fuel t worker_id ≡ none → route fuel t worker_id issue escalators w ≡ none
  unfolding route
  route-none running = rw (running, route) refl

-- If `route` returns, it tried the targets of the worker's chain of bosses in their order, each with
-- its handler's state as the targets before left it: the response is that of the first handler that
-- can handle the issue and resolves it, and nobody behind it was asked, or no target resolved it
-- and the response is the unresolved one.
pub route-Routed :
    {W : Type 0} (fuel : ℕ) (t : OrgTopology) (worker_id issue : String)
    (escalators : Dict (EscalationInterface W)) (w v : W) (response : EscalationResponse)
    → route fuel t worker_id issue escalators w ≡ some (response, v)
    → (path : List String) × Chain t worker_id path
      × Routed escalators issue (route_context worker_id path) path w response v
route-Routed fuel t worker_id issue escalators w v response h =
    elim (Option-cases (get_escalation_path fuel t worker_id)) [
      | inl running ↦ ground (arith, route-none fuel t worker_id issue escalators w running)
      | inr (path, found) ↦
          let context = route_context worker_id path in
          let same : try_targets escalators issue context path w ≡ (response, v) =
            ground (arith, route-some fuel t worker_id issue escalators w path found) in
          (
            path,
            ((path_iff t fuel worker_id path).0 found).0,
            subst (Outcome escalators issue context path w) same
                (try_targets-Routed escalators issue context path w),
          )
    ]
