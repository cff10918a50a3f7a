-- ===== src/Kahn.antt =====
-- Kahn's algorithm, the common part of `has_cycle` (k3_aiUabi/src/graph.rs) and
-- `resolve_parsed_graph` (k3_aiScheduler/src/kd_kring.rs). Both build the same two tables, and both
-- drain a worklist; the first works on a stack and counts, the second on a queue and keeps the
-- order. A worklist is a list whose head is taken next, and `push` says where a new node goes.
-- `none` is a panic (an index out of bounds, an indegree that would fall below zero) or fuel run out.
pub mod Pending
pub mod Loop
pub mod Order
pub mod Drain
pub mod Finish
pub mod Run
pub mod Start
use k3x_hera_rt.Common.{
  ℕ, zero, suc, ◌+◌, Option, none, some, List, [], ◌∷◌, ◌++◌, ◌==◌, if◌then◌else◌, get_elem?, set,
  replicate,
}
use k3x_hera_rt.Uabi.Graph.{AiGraphEdge}

pub record Tables : Type 0 where
  pub outgoing : List (List ℕ)
  pub indegree : List ℕ

-- `vec![Vec::new(); n]` and `vec![0; n]`
unfoldable pub empty_tables : ℕ → Tables
empty_tables n = record { outgoing = replicate n []; indegree = replicate n 0 }

-- `outgoing[from].push(to); indegree[to] += 1`
unfoldable pub add_edge : Tables → AiGraphEdge → Option Tables
add_edge t e = elim (get_elem? t.outgoing e.from_node) [
  | none ↦ none
  | some nexts ↦ elim (get_elem? t.indegree e.to_node) [
    | none ↦ none
    | some k ↦ some (record {
      outgoing = set t.outgoing e.from_node (nexts ++ (e.to_node ∷ []));
      indegree = set t.indegree e.to_node (k + 1);
    })
  ]
]

-- `for edge in edges` of `has_cycle`
unfoldable pub add_edges : Tables → List AiGraphEdge → Option Tables
add_edges t [] = some t
add_edges t (e ∷ es) = elim (add_edge t e) [ none ↦ none | some t' ↦ add_edges t' es ]

-- `indegree[i] -= 1`, with the new value
unfoldable pub decrement : List ℕ → ℕ → Option (List ℕ × ℕ)
decrement d i = elim (get_elem? d i) [
  | none ↦ none
  | some zero ↦ none
  | some (suc k) ↦ some (set d i k, k)
]

-- `VecDeque::push_back`, taken by `pop_front`.
abbrev pub push_back : List ℕ → ℕ → List ℕ
push_back q x = q ++ (x ∷ [])

-- `Vec::push`, taken by `pop`: the head of the list is the end of the vector.
abbrev pub push_top : List ℕ → ℕ → List ℕ
push_top q x = x ∷ q

module _ (push : List ℕ → ℕ → List ℕ) where
  -- The nodes of indegree zero, from index `i` on.
  unfoldable pub sources : ℕ → List ℕ → List ℕ → List ℕ
  sources i [] q = q
  sources i (k ∷ ks) q = sources (i + 1) ks (if k == 0 then push q i else q)

  -- The loop over the successors of a node.
  unfoldable pub relax : List ℕ → List ℕ → List ℕ → Option (List ℕ × List ℕ)
  relax [] d q = some (d, q)
  relax (x ∷ xs) d q = elim (decrement d x) [
    | none ↦ none
    | some (d', k) ↦ relax xs d' (if k == 0 then push q x else q)
  ]

  module _ (outgoing : List (List ℕ)) where
    -- The loop over the worklist, which keeps the order of the nodes.
    unfoldable pub drain : ℕ → List ℕ → List ℕ → List ℕ → Option (List ℕ)
    drain zero d q order = none
    drain (suc fuel) d [] order = some order
    drain (suc fuel) d (v ∷ q) order = elim (get_elem? outgoing v) [
      | none ↦ none
      | some nexts ↦ elim (relax nexts d q) [
        | none ↦ none
        | some (d', q') ↦ drain fuel d' q' (order ++ (v ∷ []))
      ]
    ]

    -- The same loop, which counts the nodes.
    unfoldable pub drain_count : ℕ → List ℕ → List ℕ → ℕ → Option ℕ
    drain_count zero d q visited = none
    drain_count (suc fuel) d [] visited = some visited
    drain_count (suc fuel) d (v ∷ q) visited = elim (get_elem? outgoing v) [
      | none ↦ none
      | some nexts ↦ elim (relax nexts d q) [
        | none ↦ none
        | some (d', q') ↦ drain_count fuel d' q' (visited + 1)
      ]
    ]
