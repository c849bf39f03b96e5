-- ===== src/Escalation/Paths.antt =====
-- get_escalation_path against the chain of bosses that it is meant to follow.
use quinn_ai.Prelude.{
  ℕ, zero, suc, ◌+◌, ◌<◌, ◌≤◌, String, List, [], ◌∷◌, none, some, ◌≡◌, refl, ap, subst, ◌↔◌, arith,
  Option-cases, inl, inr, length,
}
use quinn_ai.Escalation.Topology.{OrgTopology, get_boss}
use quinn_ai.Escalation.Router.{get_escalation_path}

-- The path of `w`: its boss, the boss of its boss, ... up to one without a boss, then the board.
pub data Chain (t : OrgTopology) : String → List String → Type 0 where
  top : {w : String} → get_boss t w ≡ none → Chain t w ("board" ∷ [])
  up :
      {w boss : String} {path : List String}
      → get_boss t w ≡ some boss
      → Chain t boss path
      → Chain t w (boss ∷ path)

-- `n` steps up the chain of bosses lead from `w` to `v`.
pub data Up (t : OrgTopology) : ℕ → String → String → Type 0 where
  stay : {w : String} → Up t 0 w w
  climb : {n : ℕ} {w boss v : String} → get_boss t w ≡ some boss → Up t n boss v → Up t (suc n) w v

module _ (t : OrgTopology) where
  path-none :
      (fuel : ℕ) (w : String)
      → get_boss t w ≡ none
      → get_escalation_path (suc fuel) t w ≡ some ("board" ∷ [])
  unfolding get_escalation_path
  path-none fuel w h = rw (h, get_escalation_path) refl

  path-running :
      (fuel : ℕ) (w boss : String)
      → get_boss t w ≡ some boss
      → get_escalation_path fuel t boss ≡ none
      → get_escalation_path (suc fuel) t w ≡ none
  unfolding get_escalation_path
  path-running fuel w boss h e = rw (h, e, get_escalation_path) refl

  path-some :
      (fuel : ℕ) (w boss : String) {path : List String}
      → get_boss t w ≡ some boss
      → get_escalation_path fuel t boss ≡ some path
      → get_escalation_path (suc fuel) t w ≡ some (boss ∷ path)
  unfolding get_escalation_path
  path-some fuel w boss h e = rw (h, e, get_escalation_path) refl

  -- A path that the loop returns is the chain, and took one round for each target.
  abbrev Returned : ℕ → String → List String → Type 0
  Returned fuel w path = Chain t w path × (length path ≤ fuel)

  path-Returned :
      (fuel : ℕ) (w : String) {path : List String}
      → get_escalation_path fuel t w ≡ some path
      → Returned fuel w path
  unfolding get_escalation_path
  path-Returned zero w h = ground arith
  path-Returned (suc fuel) w {path} h = elim (Option-cases (get_boss t w)) [
    | inl no_boss ↦
        let same : "board" ∷ [] ≡ path = ground (arith, path-none fuel w no_boss) in
        subst (Returned (suc fuel) w) same (top no_boss, omega arith)
    | inr (boss, is_boss) ↦ elim (Option-cases (get_escalation_path fuel t boss)) [
      | inl running ↦ ground (arith, path-running fuel w boss is_boss running)
      | inr (rest, found) ↦
          let same : boss ∷ rest ≡ path = ground (arith, path-some fuel w boss is_boss found) in
          let (chain, short) = path-Returned fuel boss found in
          subst (Returned (suc fuel) w) same (up is_boss chain, omega (arith, short))
    ]
  ]

  Chain-path :
      (fuel : ℕ) {w : String} {path : List String}
      → Chain t w path
      → length path ≤ fuel
      → get_escalation_path fuel t w ≡ some path
  Chain-path zero (top h) short = ground arith
  Chain-path zero (up h c) short = ground arith
  Chain-path (suc fuel) (top {w} h) short = path-none fuel w h
  Chain-path (suc fuel) (up {w} {boss} h c) short =
      path-some fuel w boss h (Chain-path fuel c (omega (arith, short)))

  -- The loop returns a path within `fuel` rounds exactly if the path is the chain of bosses from the
  -- worker's own boss up to one without a boss, with the board behind it, and has at most `fuel`
  -- targets.
  pub path_iff :
      (fuel : ℕ) (w : String) (path : List String)
      → (get_escalation_path fuel t w ≡ some path) ↔ (Chain t w path × (length path ≤ fuel))
  path_iff fuel w path = (λ h. path-Returned fuel w h, λ (c, short). Chain-path fuel c short)

  -- In an organisation in which each boss stands higher than the workers under it, the loop ends:
  -- the rank of the worker is enough rounds, with one more.
  pub path_returns :
      (rank : String → ℕ)
      → ((w boss : String) → get_boss t w ≡ some boss → rank boss < rank w)
      → (fuel : ℕ) (w : String) → rank w < fuel
      → (path : List String) × (get_escalation_path fuel t w ≡ some path)
  unfolding get_escalation_path
  path_returns rank lower zero w h = ground arith
  path_returns rank lower (suc fuel) w h = elim (Option-cases (get_boss t w)) [
    | inl no_boss ↦ (_, path-none fuel w no_boss)
    | inr (boss, is_boss) ↦
        let (rest, found) =
          path_returns rank lower fuel boss (omega (arith, h, lower w boss is_boss)) in
        (_, path-some fuel w boss is_boss found)
  ]

  -- What is left of a chain after some steps up.
  Chain-rest :
      {n : ℕ} {w v : String} {path : List String}
      → Up t n w v
      → Chain t w path
      → (rest : List String) × Chain t v rest × (length path ≡ n + length rest)
  Chain-rest stay c = (_, c, omega arith)
  Chain-rest (climb h u) (top no_boss) = ground arith
  Chain-rest (climb {n} {w} {boss} {v} h u) (up {boss = b} {path = path} is_boss c) =
      let same : b ≡ boss = ground arith in
      let (rest, chain, len) = Chain-rest u (subst (λ x. Chain t x path) same c) in
      (rest, chain, omega (arith, len))

  Chain-unique :
      {w : String} {path other : List String} → Chain t w path → Chain t w other → path ≡ other
  Chain-unique (top h) (top h') = refl
  Chain-unique (top h) (up h' c) = ground arith
  Chain-unique (up h c) (top h') = ground arith
  Chain-unique (up {boss = b} {path = p} h c) (up {boss = b'} {path = p'} h' c') =
      let same : b' ≡ b = ground arith in
      let tails = Chain-unique c (subst (λ x. Chain t x p') same c') in cc

  -- From a worker who is above itself in the chain of bosses, the loop does not end, however many
  -- rounds it is given.
  pub cycle_runs_on :
      (n : ℕ) (w : String) → Up t (suc n) w w → (fuel : ℕ) → get_escalation_path fuel t w ≡ none
  cycle_runs_on n w cycle fuel = elim (Option-cases (get_escalation_path fuel t w)) [
    | inl running ↦ running
    | inr (path, found) ↦
        let (chain, _) = path-Returned fuel w found in
        let (rest, again, len) = Chain-rest cycle chain in
        let same = Chain-unique chain again in ground (arith, len, ap length same)
  ]
