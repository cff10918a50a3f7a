-- ===== src/Uabi/Graph/Validate.antt =====
-- `validate_graph` and `has_cycle` of k3_aiUabi/src/graph.rs, and what they decide. The outer `Option`
-- is `none` for a panic.
use k3x_hera_rt.Common.{
  ℕ, zero, suc, ◌+◌, ◌≤◌, ◌≡◌, refl, ◌⊎◌, inl, inr, Bool, true, false, not, Option, none, some,
  List, [], ◌∷◌, ◌==◌, leb, if◌then◌else◌, length, get_elem?, Result, ok, err, as_u32, u32_mod,
  arith, Bool-cases, ==_iff, Result-cases,
}
use k3x_hera_rt.Uabi.Graph.WellFormed.{WellFormed}
use k3x_hera_rt.Uabi.Graph.{AiGraphNode, AiGraphEdge, AiGraphBuildError}
use k3x_hera_rt.Kahn.{empty_tables, add_edges, sources, drain_count, push_top}
use k3x_hera_rt.Kahn.Pending.{InRange}
use k3x_hera_rt.Kahn.Order.{Ranks, position}
use k3x_hera_rt.Kahn.Run.{push_top-Worklist, add_edges_lem, run_lem}
use k3x_hera_rt.Kahn.Finish.{full-Ranks, Ranks-full}

-- The ids are checked in the order of the nodes, `i` being the index of the first one left.
unfoldable pub validate_ids : ℕ → List AiGraphNode → Result AiGraphBuildError (Unit {0})
validate_ids i [] = ok tt
validate_ids i (node ∷ nodes) =
    let rest = validate_ids (i + 1) nodes in
    if node.node_id == as_u32 i then rest else err (AiGraphBuildError.invalid_depend node.node_id)

unfoldable pub validate_edges : ℕ → List AiGraphEdge → Result AiGraphBuildError (Unit {0})
validate_edges n [] = ok tt
validate_edges n (e ∷ es) =
    let rest = validate_edges n es in
    if leb n e.from_node
    then err (AiGraphBuildError.invalid_depend e.from_node)
    else if leb n e.to_node
    then err (AiGraphBuildError.invalid_depend e.to_node)
    else rest

-- `n + 1` rounds: one for each node, and the one that finds the stack empty.
unfoldable pub has_cycle : ℕ → List AiGraphEdge → Option Bool
unfolding empty_tables add_edges sources drain_count
has_cycle n edges = elim (add_edges (empty_tables n) edges) [
  | none ↦ none
  | some t ↦
      elim (drain_count push_top t.outgoing (suc n) t.indegree (sources push_top 0 t.indegree [])
        0) [ none ↦ none | some visited ↦ some (not (visited == n)) ]
]

unfoldable pub validate_graph :
    List AiGraphNode → List AiGraphEdge → Option (Result AiGraphBuildError (Unit {0}))
unfolding validate_ids validate_edges has_cycle
validate_graph nodes edges = elim (validate_ids 0 nodes) [
  | err e ↦ some (err e)
  | ok _ ↦ elim (validate_edges (length nodes) edges) [
    | err e ↦ some (err e)
    | ok _ ↦ elim (has_cycle (length nodes) edges) [
      | none ↦ none
      | some cyclic ↦ some (if cyclic then err AiGraphBuildError.cycle_detected else ok tt)
    ]
  ]
]

-- On edges between nodes the test ends without a panic, and answers `true` exactly if the graph has a
-- cycle, that is, if no rank grows along every edge.
pub has_cycle_decides :
    (n : ℕ) (es : List AiGraphEdge)
    → InRange n es
    → ((has_cycle n es ≡ some true) × ¬ ((rank : ℕ → ℕ) × Ranks rank es))
      ⊎ ((has_cycle n es ≡ some false) × (rank : ℕ → ℕ) × Ranks rank es)
unfolding has_cycle
has_cycle_decides n es range =
    let (t, run, built) = add_edges_lem n es range in
    let (order, _, counted, f) = run_lem push_top push_top-Worklist n es t range built in
    elim (Bool-cases (length order == n)) [
      | inl full ↦ inr (
        rw (run, has_cycle) (rw (counted, has_cycle) (rw full refl)),
        λ v. position v order,
        full-Ranks n es order f range ((==_iff (length order) n).0 full),
      )
      | inr short ↦ inl (
        rw (run, has_cycle) (rw (counted, has_cycle) (rw short refl)),
        λ r. ground (arith, Ranks-full n es order f range r.0 r.1, short),
      )
    ]

validate_ids_lem :
    (i : ℕ) (nodes : List AiGraphNode)
    → i + length nodes ≤ u32_mod
    → validate_ids i nodes ≡ ok tt
    → (j : ℕ) (node : AiGraphNode) → get_elem? nodes j ≡ some node
    → node.node_id ≡ i + j
unfolding validate_ids
validate_ids_lem i [] small h j node g = cc
validate_ids_lem i (x ∷ nodes) small h zero node g = ground arith
validate_ids_lem i (x ∷ nodes) small h (suc j) node g =
    omega (arith, validate_ids_lem (i + 1) nodes (omega arith) (ground arith) j node g)

validate_ids_complete :
    (i : ℕ) (nodes : List AiGraphNode)
    → i + length nodes ≤ u32_mod
    → ((j : ℕ) (node : AiGraphNode) → get_elem? nodes j ≡ some node → node.node_id ≡ i + j)
    → validate_ids i nodes ≡ ok tt
unfolding validate_ids
validate_ids_complete i [] small h = refl
validate_ids_complete i (x ∷ nodes) small h = ground (
  arith,
  h 0 x refl,
  validate_ids_complete (i + 1) nodes (omega arith) (λ j node g. omega (arith, h (suc j) node g)),
)

validate_edges_iff :
    (n : ℕ) (es : List AiGraphEdge)
    → (validate_edges n es ≡ ok tt → InRange n es) × (InRange n es → validate_edges n es ≡ ok tt)
unfolding validate_edges
validate_edges_iff n [] = (λ _. tt, λ _. refl)
validate_edges_iff n (e ∷ es) = (
  λ h. ground (arith, (validate_edges_iff n es).0),
  λ r. ground (arith, (validate_edges_iff n es).1 r.2),
)

-- On at most 2^32 nodes the validation ends without a panic, and accepts exactly the well-formed
-- graphs.
pub validate_decides :
    (nodes : List AiGraphNode) (edges : List AiGraphEdge)
    → length nodes ≤ u32_mod
    → ((e : AiGraphBuildError) × (validate_graph nodes edges ≡ some (err e))
        × ¬ WellFormed nodes edges)
      ⊎ ((validate_graph nodes edges ≡ some (ok tt)) × WellFormed nodes edges)
unfolding validate_graph
validate_decides nodes edges small = elim (Result-cases (validate_ids 0 nodes)) [
  | inr (e, bad) ↦ inl (
    e,
    rw (bad, validate_graph) refl,
    λ w. cc (
      validate_ids_complete 0 nodes (omega arith) (λ j node g. omega (arith, w.numbered j node g)),
      bad,
    ),
  )
  | inl ids ↦ elim (Result-cases (validate_edges (length nodes) edges)) [
    | inr (e, bad) ↦ inl (
      e,
      rw (ids, validate_graph) (rw (bad, validate_graph) refl),
      λ w. cc ((validate_edges_iff (length nodes) edges).1 w.range, bad),
    )
    | inl inside ↦
        let range = (validate_edges_iff (length nodes) edges).0 inside in
        elim (has_cycle_decides (length nodes) edges range) [
          | inl (cyclic, none_ranks) ↦ inl (
            AiGraphBuildError.cycle_detected,
            rw (ids, validate_graph)
                (rw (inside, validate_graph) (rw (cyclic, validate_graph) refl)),
            λ w. none_ranks (w.rank, w.grows),
          )
          | inr (acyclic, rank, grows) ↦ inr (
            rw (ids, validate_graph)
                (rw (inside, validate_graph) (rw (acyclic, validate_graph) refl)),
            record {
              numbered =
                  λ i node g. omega (arith, validate_ids_lem 0 nodes (omega arith) ids i node g);
              range = range;
              rank = rank;
              grows = grows;
            },
          )
        ]
  ]
]
