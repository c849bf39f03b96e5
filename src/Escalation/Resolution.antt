-- ===== src/Escalation/Resolution.antt =====
-- OrgEscalation with a board: every issue is resolved, and the notifications stay bounded.
use quinn_ai.Prelude.{
  ℕ, zero, suc, ◌+◌, ◌-◌, ◌≤◌, ◌<◌, String, sym, In, here, there, true, List, [], ◌∷◌, ◌++◌, Option,
  none, some, Dict, lookup, length, length-append, lookup-insert, ◌≡◌, refl, subst, arith,
  string_eq,
}
use quinn_ai.Escalation.Interface.{EscalationResponse, Context, EscalationInterface}
use quinn_ai.Escalation.Router.{route, route_context}
use quinn_ai.Escalation.Paths.{Chain, top, up, path_returns}
use quinn_ai.Escalation.Routes.{
  Passes, no_handler, unable, unhelpful, Routed, resolves, passes, route-Routed, route-some,
}
use quinn_ai.Escalation.Topology.{OrgTopology, get_boss}
use quinn_ai.Escalation.Board.{
  Office, BoardNotifier, drop, append_bounded, notify, board_escalation, board_ask,
}
use quinn_ai.Escalation.Org.{OrgEscalation, escalators_of, track, ask}

-- A handler that takes and resolves every issue.
pub record IsReliable {W : Type 0} (handler : EscalationInterface W) : Type 0 where
  pub able : (issue : String) (w : W) → (handler.can_handle issue w).0 ≡ true
  pub resolving :
      (issue : String) (context : Context) (w : W) → (handler.ask issue context w).0.resolved ≡ true

module _ {W : Type 0} (escalators : Dict (EscalationInterface W)) (issue : String)
    (context : Context) (target : String) (handler : EscalationInterface W) where
  reliable-not_Passes :
      {w w' : W}
      → lookup target escalators ≡ some handler
      → IsReliable handler
      → Passes escalators issue context target w w'
      → ⊥
  reliable-not_Passes found r (no_handler missing) = ground arith
  reliable-not_Passes found r (unable {handler = h} {w = w} found_too cannot) =
      let same : handler ≡ h = ground arith in
      let can = subst (λ x. (x.can_handle issue w).0 ≡ true) same (r.able issue w) in ground arith
  reliable-not_Passes found r (unhelpful {handler = h} {w = w} found_too can refuses) =
      let same : handler ≡ h = ground arith in
      let helps =
        subst (λ x. (x.ask issue context (x.can_handle issue w).1).0.resolved ≡ true) same
          (r.resolving issue context (handler.can_handle issue w).1) in
      ground arith

  reliable-resolved :
      {path : List String} {w v : W} {response : EscalationResponse}
      → lookup target escalators ≡ some handler
      → IsReliable handler
      → In target path
      → Routed escalators issue context path w response v
      → response.resolved ≡ true
  reliable-resolved found r (here e) (resolves h can helps) = helps
  reliable-resolved found r (there i) (resolves h can helps) = helps
  reliable-resolved found r (here e) (passes {w = w} {w' = w'} p rest) =
      absurd (
        reliable-not_Passes found r (subst (λ x. Passes escalators issue context x w w') (sym e) p))
  reliable-resolved found r (there i) (passes p rest) = reliable-resolved found r i rest

Chain-board : {t : OrgTopology} {w : String} {path : List String} → Chain t w path → In "board" path
Chain-board (top h) = here refl
Chain-board (up h c) = there (Chain-board c)

board_escalation-IsReliable : {W : Type 0} (n : BoardNotifier W) → IsReliable (board_escalation n)
unfolding board_escalation board_ask
board_escalation-IsReliable n = record {
  able = λ issue o. refl;
  resolving = λ issue context o. refl;
}

module _ {W : Type 0} (fuel : ℕ) (e : OrgEscalation W) (issue : String) (context : Context)
    (o : Office W) where
  abbrev routing : Option (EscalationResponse × Office W)
  routing = route fuel e.topology e.worker_id issue (escalators_of e) o

  ask-none : routing ≡ none → ask fuel e issue context o ≡ none
  unfolding ask
  ask-none running = rw (running, ask) refl

  ask-some :
      (response : EscalationResponse) (v : Office W)
      → routing ≡ some (response, v)
      → ask fuel e issue context o ≡ some (response, track e issue context response.escalated_to v)
  unfolding ask
  ask-some response v routed = rw (routed, ask) refl

  board-resolved :
      (n : BoardNotifier W) (v : Office W) (response : EscalationResponse)
      → e.board_notifier ≡ some n
      → routing ≡ some (response, v)
      → response.resolved ≡ true
  unfolding escalators_of
  board-resolved n v response has_board routed =
      let (path, chain, outcome) =
        route-Routed fuel e.topology e.worker_id issue (escalators_of e) o v response routed in
      let found : lookup "board" (escalators_of e) ≡ some (board_escalation n) =
        rw (has_board, escalators_of)
          (ground (arith, lookup-insert "board" "board" (board_escalation n) e.worker_handlers)) in
      reliable-resolved (escalators_of e) issue (route_context e.worker_id path) "board"
        (board_escalation n) found (board_escalation-IsReliable n) (Chain-board chain) outcome

  -- In an organisation with a board, in which each boss stands higher than the workers under it,
  -- `ask` returns and the issue is resolved, whatever the handlers of the workers answer.
  pub ask_resolves :
      (n : BoardNotifier W) (rank : String → ℕ)
      → e.board_notifier ≡ some n
      → ((w boss : String) → get_boss e.topology w ≡ some boss → rank boss < rank w)
      → rank e.worker_id < fuel
      → (response : EscalationResponse) × (o' : Office W) × (ask fuel e issue context o
          ≡ some (response, o'))
        × (response.resolved ≡ true)
  ask_resolves n rank has_board lower enough =
      let (path, found) = path_returns e.topology rank lower fuel e.worker_id enough in
      let routed = route-some fuel e.topology e.worker_id issue (escalators_of e) o path found in
      (_, _, ask-some _ _ routed, board-resolved n _ _ has_board routed)

length-drop {ℓ} : {A : Type ℓ} (k : ℕ) (xs : List A) → length (drop k xs) ≡ length xs - k
unfolding drop
length-drop zero xs = omega arith
length-drop (suc k) [] = omega arith
length-drop (suc k) (x ∷ xs) = omega (arith, length-drop k xs)

drop-append {ℓ} :
    {A : Type ℓ} (k : ℕ) (xs ys : List A) → k ≤ length xs → drop k (xs ++ ys) ≡ drop k xs ++ ys
unfolding drop
drop-append zero xs ys h = refl
drop-append (suc k) [] ys h = ground arith
drop-append (suc k) (x ∷ xs) ys h = drop-append k xs ys (omega (arith, h))

-- A notification is kept behind the latest ones before it, and there are never more of them than
-- the maximum of the notifier, which is not 0.
pub notify-notifications :
    {W : Type 0} (n : BoardNotifier W) (issue : String) (context : Context) (o : Office W)
    → 0 < n.max_size
    → ((notify n issue context o).1.notifications
        ≡ drop (length o.notifications + 1 - n.max_size) o.notifications ++ (issue, context) ∷ [])
      × (length (notify n issue context o).1.notifications ≤ n.max_size)
unfolding notify append_bounded
notify-notifications n issue context o h =
    let excess = length o.notifications + 1 - n.max_size in
    let new : List (String × Context) = (issue, context) ∷ [] in
    (
      drop-append excess o.notifications new (omega (arith, h)),
      omega (arith, length-drop excess (o.notifications ++ new), length-append o.notifications new),
    )
