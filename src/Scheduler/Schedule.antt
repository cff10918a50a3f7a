-- ===== src/Scheduler/Schedule.antt =====
-- What a schedule of a parsed graph is, and which graphs have one: the contract of
-- `resolve_parsed_graph` (k3_aiScheduler/src/kd_kring.rs).
use k3x_hera_rt.Common.{
  ℕ, ◌<◌, ◌≡◌, Option, none, some, List, [], ◌∷◌, ◌==◌, if◌then◌else◌, get_elem?, length,
}
use k3x_hera_rt.Common.Counting.{count, AllBelow}
use k3x_hera_rt.Uabi.Graph.{AiParsedGraph}
use k3x_hera_rt.Kahn.Order.{Ranks, position}
use k3x_hera_rt.Scheduler.TaskLink.{TaskLink, last?}

-- The node behind `v` in an order.
abbrev pub after : ℕ → List ℕ → Option ℕ
after v [] = none
after v (a ∷ []) = none
after v (a ∷ b ∷ rest) = if a == v then some b else after v (b ∷ rest)

-- A chain that runs each node once, after all that it depends on.
pub record IsSchedule (g : AiParsedGraph) (link : TaskLink) : Type 0 where
  pub once : (v : ℕ) → v < length g.nodes → count v link.node_order ≡ 1
  pub only : AllBelow (length g.nodes) link.node_order
  pub ordered : Ranks (λ v. position v link.node_order) g.edges
  pub nodes :
      (i v : ℕ)
      → get_elem? link.node_order i ≡ some v
      → get_elem? link.ordered_nodes i ≡ get_elem? g.nodes v
  pub size : length link.ordered_nodes ≡ length g.nodes
  pub next :
      (v : ℕ) → v < length g.nodes → get_elem? link.next_node v ≡ some (after v link.node_order)
  pub head : link.head_node ≡ get_elem? link.node_order 0
  pub tail : link.tail_node ≡ last? link.node_order
