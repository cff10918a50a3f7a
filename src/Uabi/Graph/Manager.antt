-- ===== src/Uabi/Graph/Manager.antt =====
-- `GraphManager` of k3_aiUabi/src/graph.rs. A method returns the new manager beside its result; the
-- outer `Option` is `none` for a panic, or for a search that runs out of fuel.
pub mod Walk
pub mod Insert
pub mod Build
pub mod History
use k3x_hera_rt.Common.{
  ℕ, zero, suc, ◌+◌, Bool, true, false, not, Option, none, some, List, [], ◌∷◌, ◌++◌, ◌==◌,
  if◌then◌else◌, length, get_elem?, set, take, replicate, Result, ok, err, try_u32,
}
use k3x_hera_rt.Uabi.Desc.{AiKernelDesc}
use k3x_hera_rt.Uabi.Graph.{AiGraphNode, AiGraphEdge, AiGraphBuildError, default_state}

pub record GraphManager : Type 0 where
  pub nodes : List AiGraphNode
  pub edges : List AiGraphEdge

-- `GraphManager::new`
abbrev pub new : GraphManager
new = record { nodes = []; edges = [] }

-- `GraphManager::push_node`
unfoldable pub push_node : GraphManager → AiKernelDesc → GraphManager × Result AiGraphBuildError ℕ
push_node m desc = elim (try_u32 (length m.nodes)) [
  | none ↦ (m, err AiGraphBuildError.too_many_nodes)
  | some id ↦ (
    record m {
      nodes = m.nodes ++ (record { node_id = id; desc = desc; state = default_state } ∷ []);
    },
    ok id,
  )
]

-- `GraphManager::validate_node_id`
unfoldable pub validate_node_id : List AiGraphNode → ℕ → Result AiGraphBuildError (Unit {0})
validate_node_id nodes id = elim (get_elem? nodes id) [
  | none ↦ err (AiGraphBuildError.invalid_depend id)
  | some node ↦
      if not (node.node_id == id) then err (AiGraphBuildError.invalid_depend id) else ok tt
]

-- `for edge in &self.edges { if edge.from_node == v { stack.push(edge.to_node) } }`; the head of the
-- list is the top of the stack.
unfoldable pub push_targets : ℕ → List AiGraphEdge → List ℕ → List ℕ
push_targets v [] stack = stack
push_targets v (e ∷ es) stack =
    push_targets v es (if e.from_node == v then e.to_node ∷ stack else stack)

-- The `while` loop of `reaches`, with fuel.
unfoldable pub search : List AiGraphEdge → ℕ → ℕ → List ℕ → List Bool → Option Bool
unfolding push_targets
search edges target zero stack visited = none
search edges target (suc fuel) [] visited = some false
search edges target (suc fuel) (v ∷ stack) visited =
    let rest : Option Bool = elim (get_elem? visited v) [
      | none ↦ search edges target fuel stack visited
      | some true ↦ search edges target fuel stack visited
      | some false ↦ search edges target fuel (push_targets v edges stack) (set visited v true)
    ] in
    if v == target then some true else rest

-- `GraphManager::reaches`. Every edge is pushed once at most, so the loop takes at most one round for
-- each edge, one for the start and one to find the stack empty.
unfoldable pub reaches : GraphManager → ℕ → ℕ → Option Bool
unfolding search
reaches m start target =
    search m.edges target (length m.edges + 2) (start ∷ []) (replicate (length m.nodes) false)

-- `GraphManager::push_edge_checked`
unfoldable pub push_edge_checked :
    GraphManager → ℕ → ℕ → Option (GraphManager × Result AiGraphBuildError (Unit {0}))
unfolding validate_node_id reaches
push_edge_checked m from to = elim (validate_node_id m.nodes from) [
  | err e ↦ some (m, err e)
  | ok _ ↦ elim (validate_node_id m.nodes to) [
    | err e ↦ some (m, err e)
    | ok _ ↦
        if from == to
        then some (m, err AiGraphBuildError.cycle_detected)
        else elim (reaches m to from) [
          | none ↦ none
          | some true ↦ some (m, err AiGraphBuildError.cycle_detected)
          | some false ↦ some (
            record m { edges = m.edges ++ (record { from_node = from; to_node = to } ∷ []) },
            ok tt,
          )
        ]
  ]
]

-- The first loop of `push_kernel_depend_many`.
unfoldable pub validate_depends : List AiGraphNode → List ℕ → Result AiGraphBuildError (Unit {0})
unfolding validate_node_id
validate_depends nodes [] = ok tt
validate_depends nodes (d ∷ ds) = elim (validate_node_id nodes d) [
  | err e ↦ err e
  | ok _ ↦ validate_depends nodes ds
]

-- The second loop, up to the first error.
unfoldable pub push_edges :
    GraphManager → List ℕ → ℕ → Option (GraphManager × Result AiGraphBuildError (Unit {0}))
unfolding push_edge_checked
push_edges m [] id = some (m, ok tt)
push_edges m (d ∷ ds) id = elim (push_edge_checked m d id) [
  | none ↦ none
  | some (m', err e) ↦ some (m', err e)
  | some (m', ok _) ↦ push_edges m' ds id
]

-- `Vec::pop`, whose value is dropped.
abbrev pub pop_last : List AiGraphNode → List AiGraphNode
pop_last [] = []
pop_last (x ∷ []) = []
pop_last (x ∷ y ∷ ys) = x ∷ pop_last (y ∷ ys)

-- What follows `push_node` in `push_kernel_depend_many`; `m` is the manager before.
unfoldable pub push_depends :
    GraphManager
    → List ℕ
    → GraphManager × Result AiGraphBuildError ℕ
    → Option (GraphManager × Result AiGraphBuildError ℕ)
unfolding push_edges
push_depends m depends (m', err e) = some (m', err e)
push_depends m depends (m', ok id) = elim (push_edges m' depends id) [
  | none ↦ none
  | some (m'', ok _) ↦ some (m'', ok id)
  | some (m'', err e) ↦
      some (record { nodes = pop_last m''.nodes; edges = take (length m.edges) m''.edges }, err e)
]

-- `GraphManager::push_kernel_depend_many`
unfoldable pub push_kernel_depend_many :
    GraphManager → List ℕ → AiKernelDesc → Option (GraphManager × Result AiGraphBuildError ℕ)
unfolding validate_depends push_depends
push_kernel_depend_many m depends desc = elim (validate_depends m.nodes depends) [
  | err e ↦ some (m, err e)
  | ok _ ↦ push_depends m depends (push_node m desc)
]

-- `GraphManager::push_kernel_no_depend` and `push_kernel_depend`
unfoldable pub push_kernel_no_depend :
    GraphManager → AiKernelDesc → GraphManager × Result AiGraphBuildError ℕ
push_kernel_no_depend m desc = push_node m desc

unfoldable pub push_kernel_depend :
    GraphManager → ℕ → AiKernelDesc → Option (GraphManager × Result AiGraphBuildError ℕ)
unfolding push_kernel_depend_many
push_kernel_depend m depend desc = push_kernel_depend_many m (depend ∷ []) desc
