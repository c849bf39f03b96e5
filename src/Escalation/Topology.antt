-- ===== src/Escalation/Topology.antt =====
-- The organisation chart: OrgTopology and create_simple_topology of
-- shared/escalation/hierarchical.py.
use quinn_ai.Prelude.{
  ℕ, ◌+◌, String, Bool, false, List, [], ◌∷◌, Option, none, some, map, filter, Dict, lookup, insert,
  values, ltb, ◌==◌, string_eq,
}

pub record WorkerNode : Type 0 where
  pub id : String
  pub name : String
  pub boss_id : Option String
  pub is_manager : Bool

pub record OrgTopology : Type 0 where
  pub nodes : Dict WorkerNode

unfoldable pub new_topology : OrgTopology
new_topology = record { nodes = [] }

unfoldable pub add_node : WorkerNode → OrgTopology → OrgTopology
add_node node t = record t { nodes = insert node.id node t.nodes }

unfoldable pub get_boss : OrgTopology → String → Option String
get_boss t worker_id = elim (lookup worker_id t.nodes) [ none ↦ none | some node ↦ node.boss_id ]

-- `node.boss_id == worker_id`, where the boss may be None
unfoldable pub reports_to : String → Option String → Bool
reports_to worker_id none = false
reports_to worker_id (some boss) = boss == worker_id

-- The comprehension over the nodes, and the same of a topology.
unfoldable pub reporting : String → Dict WorkerNode → List String
unfolding reports_to
reporting worker_id nodes =
    map (λ n. n.id) (filter (λ n. reports_to worker_id n.boss_id) (values nodes))

unfoldable pub get_subordinates : OrgTopology → String → List String
unfolding reporting
get_subordinates t worker_id = reporting worker_id t.nodes

-- An entry of the list of dictionaries that create_simple_topology takes.
pub record WorkerSpec : Type 0 where
  pub id : String
  pub name : String
  pub boss_id : Option String

unfoldable pub count_of : String → Dict ℕ → ℕ
count_of k d = elim (lookup k d) [ none ↦ 0 | some n ↦ n ]

-- the first pass: how many workers report to each boss
unfoldable pub count_report : Option String → Dict ℕ → Dict ℕ
unfolding count_of
count_report none counts = counts
count_report (some boss) counts = insert boss (count_of boss counts + 1) counts

unfoldable pub subordinate_counts : List WorkerSpec → Dict ℕ → Dict ℕ
subordinate_counts [] counts = counts
subordinate_counts (w ∷ ws) counts = subordinate_counts ws (count_report w.boss_id counts)

-- the second pass: the nodes
unfoldable pub make_node : Dict ℕ → WorkerSpec → WorkerNode
unfolding count_of
make_node counts w = record {
  id = w.id;
  name = w.name;
  boss_id = w.boss_id;
  is_manager = ltb 0 (count_of w.id counts);
}

unfoldable pub add_nodes : Dict ℕ → List WorkerSpec → OrgTopology → OrgTopology
add_nodes counts [] t = t
add_nodes counts (w ∷ ws) t = add_nodes counts ws (add_node (make_node counts w) t)

unfoldable pub create_simple_topology : List WorkerSpec → OrgTopology
create_simple_topology workers = add_nodes (subordinate_counts workers []) workers new_topology
