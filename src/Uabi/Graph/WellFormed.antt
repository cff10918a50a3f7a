-- ===== src/Uabi/Graph/WellFormed.antt =====
-- What a graph needs to have a schedule: the contract of `validate_graph` and of
-- `resolve_parsed_graph`.
use k3x_hera_rt.Common.{ℕ, ◌≡◌, List, some, get_elem?, length}
use k3x_hera_rt.Uabi.Graph.{AiGraphNode, AiGraphEdge}
use k3x_hera_rt.Kahn.Pending.{InRange}
use k3x_hera_rt.Kahn.Order.{Ranks}

-- Every node carries its index.
abbrev pub Numbered : List AiGraphNode → Type 0
Numbered nodes = (i : ℕ) (node : AiGraphNode) → get_elem? nodes i ≡ some node → node.node_id ≡ i

-- Consecutive ids, edges between nodes, and no cycle: some rank grows along every edge.
pub record WellFormed (nodes : List AiGraphNode) (edges : List AiGraphEdge) : Type 0 where
  pub numbered : Numbered nodes
  pub range : InRange (length nodes) edges
  pub rank : ℕ → ℕ
  pub grows : Ranks rank edges
