-- ===== src/Tests/Graphs.antt =====
-- Graphs of three nodes: built call by call, validated, and resolved.
use k3x_hera_rt.Common.{
  ℕ, ◌<◌, ◌≤◌, ◌≡◌, refl, ◌⊎◌, true, false, none, some, List, [], ◌∷◌, ◌++◌, u32_mod, ok, err,
  arith,
}
use k3x_hera_rt.Kahn.Order.{Ranks}
use k3x_hera_rt.Uabi.Desc.{default_kernel_desc}
use k3x_hera_rt.Uabi.Error.{SchedulerErr}
use k3x_hera_rt.Uabi.Graph.{AiGraphEdge, AiParsedGraph, AiGraphBuildError, default_header}
use k3x_hera_rt.Uabi.Graph.WellFormed.{WellFormed}
use k3x_hera_rt.Uabi.Graph.Validate.{validate_graph, has_cycle, has_cycle_decides, validate_decides}
use k3x_hera_rt.Uabi.Graph.Manager.{
  GraphManager, new, push_node, validate_node_id, push_targets, search, reaches, push_edge_checked,
  validate_depends, push_edges, push_depends, push_kernel_depend_many, push_kernel_no_depend,
}
use k3x_hera_rt.Uabi.Graph.Manager.Walk.{Walk, reaches_decides}
use k3x_hera_rt.Uabi.Graph.Manager.Insert.{push_edge_checked_lem}
use k3x_hera_rt.Uabi.Graph.Manager.Build.{
  node_of, first_out, push_kernel_no_depend_lem, push_kernel_depend_many_lem,
}
use k3x_hera_rt.Uabi.Graph.Manager.History.{
  Reachable, created, no_depend, depend_many, IsValid, Reachable-IsValid,
}
use k3x_hera_rt.Scheduler.TaskLink.{TaskLink, resolve_parsed_graph}
use k3x_hera_rt.Scheduler.Schedule.{IsSchedule}
use k3x_hera_rt.Scheduler.Resolve.{resolve_decides}

-- Two nodes without dependencies, and one that depends on both.
abbrev pub one_node : GraphManager
one_node = record { nodes = node_of 0 default_kernel_desc ∷ []; edges = [] }

abbrev pub two_nodes : GraphManager
two_nodes = record {
  nodes = node_of 0 default_kernel_desc ∷ node_of 1 default_kernel_desc ∷ [];
  edges = [];
}

abbrev pub join : GraphManager
join = record {
  nodes =
      node_of 0 default_kernel_desc
      ∷ node_of 1 default_kernel_desc
      ∷ node_of 2 default_kernel_desc
      ∷ [];
  edges = record { from_node = 0; to_node = 2 } ∷ record { from_node = 1; to_node = 2 } ∷ [];
}

abbrev pub back_edge : List AiGraphEdge
back_edge = record { from_node = 0; to_node = 1 } ∷ record { from_node = 1; to_node = 0 } ∷ []

one_node-push : push_kernel_no_depend new default_kernel_desc ≡ (one_node, ok 0)
unfolding push_kernel_no_depend push_node
one_node-push = refl

two_nodes-push : push_kernel_no_depend one_node default_kernel_desc ≡ (two_nodes, ok 1)
unfolding push_kernel_no_depend push_node
two_nodes-push = refl

join-push : push_kernel_depend_many two_nodes (0 ∷ 1 ∷ []) default_kernel_desc ≡ some (join, ok 2)
unfolding push_kernel_depend_many push_node validate_depends push_depends push_edges
    push_edge_checked validate_node_id reaches search push_targets
join-push = refl

pub two_nodes-Reachable : Reachable two_nodes
unfolding push_kernel_no_depend push_node
two_nodes-Reachable =
    no_depend one_node default_kernel_desc (no_depend new default_kernel_desc created)

pub join-Reachable : Reachable join
join-Reachable =
    depend_many two_nodes join (0 ∷ 1 ∷ []) default_kernel_desc (ok 2) two_nodes-Reachable join-push

-- A dependency on a node that is not there leaves the manager as it was.
unknown_depend :
    push_kernel_depend_many two_nodes (0 ∷ 7 ∷ []) default_kernel_desc
    ≡ some (two_nodes, err (AiGraphBuildError.invalid_depend 7))
unfolding push_kernel_depend_many validate_depends validate_node_id
unknown_depend = refl

Reachable-IsValid_example : IsValid join
Reachable-IsValid_example = Reachable-IsValid join-Reachable

push_kernel_no_depend_lem_example :
    ((u32_mod ≤ 3)
      × (push_kernel_no_depend join default_kernel_desc
          ≡ (join, err AiGraphBuildError.too_many_nodes)))
    ⊎ ((3 < u32_mod)
        × (push_kernel_no_depend join default_kernel_desc
            ≡ (record join { nodes = join.nodes ++ (node_of 3 default_kernel_desc ∷ []) }, ok 3))
        × WellFormed (join.nodes ++ (node_of 3 default_kernel_desc ∷ [])) join.edges)
push_kernel_no_depend_lem_example =
    push_kernel_no_depend_lem join (Reachable-IsValid join-Reachable).well_formed
      default_kernel_desc

push_kernel_depend_many_lem_example :
    ((d : ℕ) × (first_out 2 (0 ∷ 1 ∷ []) ≡ some d)
      × (push_kernel_depend_many two_nodes (0 ∷ 1 ∷ []) default_kernel_desc
          ≡ some (two_nodes, err (AiGraphBuildError.invalid_depend d))))
    ⊎ ((first_out 2 (0 ∷ 1 ∷ []) ≡ none)
        × (u32_mod ≤ 2)
        × (push_kernel_depend_many two_nodes (0 ∷ 1 ∷ []) default_kernel_desc
            ≡ some (two_nodes, err AiGraphBuildError.too_many_nodes)))
    ⊎ ((first_out 2 (0 ∷ 1 ∷ []) ≡ none)
        × (2 < u32_mod)
        × (push_kernel_depend_many two_nodes (0 ∷ 1 ∷ []) default_kernel_desc ≡ some (join, ok 2))
        × WellFormed join.nodes join.edges)
push_kernel_depend_many_lem_example =
    push_kernel_depend_many_lem two_nodes (Reachable-IsValid two_nodes-Reachable).well_formed
      default_kernel_desc (0 ∷ 1 ∷ [])

push_edge_checked_lem_example :
    ((push_edge_checked join 2 0 ≡ some (join, err AiGraphBuildError.cycle_detected))
      × Walk join.edges 0 2)
    ⊎ ((push_edge_checked join 2 0
          ≡ some (
            record join { edges = join.edges ++ (record { from_node = 2; to_node = 0 } ∷ []) },
            ok tt,
          ))
        × ¬ Walk join.edges 0 2
        × WellFormed join.nodes (join.edges ++ (record { from_node = 2; to_node = 0 } ∷ [])))
push_edge_checked_lem_example =
    push_edge_checked_lem join (Reachable-IsValid join-Reachable).well_formed 2 0 (omega arith)
      (omega arith)

reaches_decides_example :
    ((reaches join 1 2 ≡ some true) × Walk join.edges 1 2)
    ⊎ ((reaches join 1 2 ≡ some false) × ¬ Walk join.edges 1 2)
reaches_decides_example =
    reaches_decides join 1 2 (Reachable-IsValid join-Reachable).well_formed.range (omega arith)

has_cycle_decides_example :
    ((has_cycle 2 back_edge ≡ some true) × ¬ ((rank : ℕ → ℕ) × Ranks rank back_edge))
    ⊎ ((has_cycle 2 back_edge ≡ some false) × (rank : ℕ → ℕ) × Ranks rank back_edge)
has_cycle_decides_example =
    has_cycle_decides 2 back_edge (omega arith, omega arith, (omega arith, omega arith, tt))

validate_decides_example :
    ((e : AiGraphBuildError) × (validate_graph join.nodes join.edges ≡ some (err e))
      × ¬ WellFormed join.nodes join.edges)
    ⊎ ((validate_graph join.nodes join.edges ≡ some (ok tt)) × WellFormed join.nodes join.edges)
validate_decides_example = validate_decides join.nodes join.edges (omega arith)

abbrev pub join_graph : AiParsedGraph
join_graph = record { header = default_header; nodes = join.nodes; edges = join.edges }

resolve_decides_example :
    ((resolve_parsed_graph 9 join_graph ≡ some (err SchedulerErr.parse_failed))
      × ¬ WellFormed join.nodes join.edges)
    ⊎ ((link : TaskLink) × (resolve_parsed_graph 9 join_graph ≡ some (ok link))
        × WellFormed join.nodes join.edges
        × IsSchedule join_graph link)
resolve_decides_example = resolve_decides 9 join_graph (omega arith)
