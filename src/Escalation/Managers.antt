-- ===== src/Escalation/Managers.antt =====
-- Bosses and subordinates in a topology that create_simple_topology builds.
use quinn_ai.Prelude.{
  ℕ, ◌+◌, String, Bool, true, ◌||◌, List, [], ◌∷◌, Option, none, some, any, elem, Dict, lookup, ltb,
  string_eq, ◌≡◌, refl, ◌↔◌, arith, eq_iff, lookup-insert, IsKeyedBy, insert-IsKeyedBy,
}
use quinn_ai.Escalation.Topology.{
  WorkerNode, OrgTopology, new_topology, add_node, get_boss, reports_to, reporting,
  get_subordinates, WorkerSpec, count_of, count_report, subordinate_counts, make_node, add_nodes,
  create_simple_topology,
}

-- Each node stands once, under its own id.
abbrev IsChart : Dict WorkerNode → Type 0
IsChart d = IsKeyedBy (λ n. n.id) d

add_nodes-IsChart :
    (counts : Dict ℕ) (ws : List WorkerSpec) (t : OrgTopology)
    → IsChart t.nodes
    → IsChart (add_nodes counts ws t).nodes
unfolding add_nodes add_node make_node
add_nodes-IsChart counts [] t c = c
add_nodes-IsChart counts (w ∷ ws) t c =
    add_nodes-IsChart counts ws (add_node (make_node counts w) t)
      (insert-IsKeyedBy (λ n. n.id) w.id (make_node counts w) t.nodes refl c)

-- The boss that `get_boss` finds, in the dictionary of the nodes.
boss_in : String → Dict WorkerNode → Option String
boss_in w d = elim (lookup w d) [ none ↦ none | some n ↦ n.boss_id ]

elem-reporting :
    (boss w : String) (d : Dict WorkerNode)
    → IsChart d
    → elem w (reporting boss d) ≡ reports_to boss (boss_in w d)
unfolding reporting reports_to boss_in lookup
elem-reporting boss w [] c = refl
elem-reporting boss w ((k, n) ∷ d) c =
    ground (arith, elem-reporting boss w d c.2, eq_iff w n.id, eq_iff k w)

reports_to_iff : (boss : String) (b : Option String) → (reports_to boss b ≡ true) ↔ (b ≡ some boss)
unfolding reports_to
reports_to_iff boss none = ground arith
reports_to_iff boss (some b) = ground (arith, eq_iff b boss)

-- In a topology that is built from a list of workers, a worker is among the subordinates of a boss
-- exactly if the boss is its boss.
pub get_subordinates_iff :
    (ws : List WorkerSpec) (boss w : String)
    → (elem w (get_subordinates (create_simple_topology ws) boss) ≡ true)
      ↔ (get_boss (create_simple_topology ws) w ≡ some boss)
unfolding get_subordinates get_boss create_simple_topology new_topology boss_in
get_subordinates_iff ws boss w =
    let t = create_simple_topology ws in
    let chart = add_nodes-IsChart (subordinate_counts ws []) ws new_topology tt in
    rw (elem-reporting boss w t.nodes chart) (reports_to_iff boss (get_boss t w))

-- what the first pass counts
has_report : String → List WorkerSpec → Bool
has_report id ws = any (λ w. reports_to id w.boss_id) ws

count_of-count_report :
    (id : String) (b : Option String) (counts : Dict ℕ)
    → ltb 0 (count_of id (count_report b counts)) ≡ (reports_to id b || ltb 0 (count_of id counts))
unfolding count_report count_of reports_to
count_of-count_report id none counts = refl
count_of-count_report id (some b) counts =
    ground (arith, lookup-insert b id (count_of b counts + 1) counts, eq_iff b id)

count_of-subordinate_counts :
    (id : String) (ws : List WorkerSpec) (counts : Dict ℕ)
    → ltb 0 (count_of id (subordinate_counts ws counts))
      ≡ (has_report id ws || ltb 0 (count_of id counts))
unfolding subordinate_counts has_report
count_of-subordinate_counts id [] counts = refl
count_of-subordinate_counts id (w ∷ ws) counts = ground (
  arith,
  count_of-subordinate_counts id ws (count_report w.boss_id counts),
  count_of-count_report id w.boss_id counts,
)

-- every node got its mark from the counts
abbrev IsMarked : Dict ℕ → Dict WorkerNode → Type 0
IsMarked counts d =
    (id : String) (n : WorkerNode)
    → lookup id d ≡ some n
    → n.is_manager ≡ ltb 0 (count_of id counts)

add_nodes-IsMarked :
    (counts : Dict ℕ) (ws : List WorkerSpec) (t : OrgTopology)
    → IsMarked counts t.nodes
    → IsMarked counts (add_nodes counts ws t).nodes
unfolding add_nodes add_node make_node
add_nodes-IsMarked counts [] t h = h
add_nodes-IsMarked counts (w ∷ ws) t h =
    add_nodes-IsMarked counts ws (add_node (make_node counts w) t) (λ id n found.
      ground
        (arith, lookup-insert w.id id (make_node counts w) t.nodes, h id n, eq_iff w.id id, found))

-- In a topology that is built from a list of workers, a node is marked as a manager exactly if some
-- worker of the list names it as its boss.
pub is_manager_iff :
    (ws : List WorkerSpec) (id : String) (n : WorkerNode)
    → lookup id (create_simple_topology ws).nodes ≡ some n
    → (n.is_manager ≡ true) ↔ (any (λ w. reports_to id w.boss_id) ws ≡ true)
unfolding create_simple_topology new_topology lookup has_report count_of
is_manager_iff ws id n found =
    let marked =
      add_nodes-IsMarked (subordinate_counts ws []) ws new_topology (λ i m h. ground arith) id n
        found in
    ground (arith, marked, count_of-subordinate_counts id ws [])
