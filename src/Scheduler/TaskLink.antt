-- ===== src/Scheduler/TaskLink.antt =====
-- k3_aiScheduler/src/kd_kring.rs: `TaskLink` and `resolve_parsed_graph`. The outer `Option` is `none`
-- for a panic (an index out of bounds, a counter below zero); the result inside is the function's.
use k3x_hera_rt.Common.{
  ℕ, suc, ◌+◌, Bool, true, Option, none, some, List, [], ◌∷◌, ◌&&◌, ◌||◌, leb, ltb, ◌==◌,
  if◌then◌else◌, map, length, get_elem?, set, replicate, as_u32, Result, ok, err,
}
use k3x_hera_rt.Uabi.Error.{SchedulerErr}
use k3x_hera_rt.Uabi.Graph.{AiGraphNode, AiGraphEdge, AiParsedGraph}
use k3x_hera_rt.Kahn.{Tables, empty_tables, add_edge, sources, drain, push_back}

pub record TaskLink : Type 0 where
  pub pid : ℕ
  pub head_node : Option ℕ
  pub tail_node : Option ℕ
  pub next_node : List (Option ℕ)
  pub node_order : List ℕ
  pub ordered_nodes : List AiGraphNode

pop_first : TaskLink → List AiGraphNode → TaskLink × Option AiGraphNode
pop_first l [] = (l, none)
pop_first l (node ∷ rest) = (record l { ordered_nodes = rest }, some node)

-- `TaskLink::pop_front`
unfoldable pub pop_front : TaskLink → TaskLink × Option AiGraphNode
unfolding pop_first
pop_front l = pop_first l l.ordered_nodes

-- Every node id is its index, counted from `i`.
unfoldable pub ids_match : ℕ → List AiGraphNode → Bool
ids_match i [] = true
ids_match i (node ∷ nodes) = node.node_id == as_u32 i && ids_match (i + 1) nodes

-- The loop over the edges.
unfoldable pub link_edges : ℕ → Tables → List AiGraphEdge → Option (Result SchedulerErr Tables)
unfolding add_edge
link_edges n t [] = some (ok t)
link_edges n t (e ∷ es) =
    let rest : Option (Result SchedulerErr Tables) = elim (add_edge t e) [
      | none ↦ none
      | some t' ↦ link_edges n t' es
    ] in
    if leb n e.from_node || leb n e.to_node then some (err SchedulerErr.parse_failed) else rest

-- `for window in node_order.windows(2)`
unfoldable pub link_windows : List ℕ → List (Option ℕ) → Option (List (Option ℕ))
link_windows [] next = some next
link_windows (a ∷ []) next = some next
link_windows (a ∷ b ∷ rest) next =
    if ltb a (length next) then link_windows (b ∷ rest) (set next a (some b)) else none

-- `for &node_id in &node_order { ordered_nodes.push(graph.nodes[node_id]) }`
unfoldable pub pick : List AiGraphNode → List ℕ → Option (List AiGraphNode)
pick nodes [] = some []
pick nodes (v ∷ vs) = elim (get_elem? nodes v) [
  | none ↦ none
  | some node ↦ elim (pick nodes vs) [ none ↦ none | some rest ↦ some (node ∷ rest) ]
]

abbrev pub last? : List ℕ → Option ℕ
last? [] = none
last? (x ∷ []) = some x
last? (x ∷ y ∷ xs) = last? (y ∷ xs)

-- What follows the loop over the ready queue.
unfoldable pub finish_link : ℕ → AiParsedGraph → List ℕ → Option (Result SchedulerErr TaskLink)
unfolding link_windows pick
finish_link pid g order =
    if length order == length g.nodes
    then elim (link_windows order (replicate (length g.nodes) none)) [
      | none ↦ none
      | some next ↦ elim (pick g.nodes order) [
        | none ↦ none
        | some ordered ↦ some (
            ok (record {
              pid = pid;
              head_node = get_elem? order 0;
              tail_node = last? order;
              next_node = next;
              node_order = order;
              ordered_nodes = ordered;
            }))
      ]
    ]
    else some (err SchedulerErr.parse_failed)

unfoldable pub resolve_parsed_graph : ℕ → AiParsedGraph → Option (Result SchedulerErr TaskLink)
unfolding ids_match link_edges empty_tables sources drain finish_link
resolve_parsed_graph pid g =
    if ids_match 0 g.nodes
    then elim (link_edges n (empty_tables n) g.edges) [
      | none ↦ none
      | some (err e) ↦ some (err e)
      | some (ok t) ↦ elim (drain push_back t.outgoing (suc n) t.indegree (ready t) []) [
        | none ↦ none
        | some order ↦ finish_link pid g order
      ]
    ]
    else some (err SchedulerErr.parse_failed)
  where
    n : ℕ
    n = length g.nodes

    ready : Tables → List ℕ
    ready t = map as_u32 (sources push_back 0 t.indegree [])
