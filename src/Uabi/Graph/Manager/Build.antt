-- ===== src/Uabi/Graph/Manager/Build.antt =====
-- What the calls of `GraphManager` (k3_aiUabi/src/graph.rs) build: `push_kernel_depend_many` on every
-- branch, and the graphs that come of any sequence of calls.
use k3x_hera_rt.Common.{
  ℕ, suc, ◌≤◌, ◌<◌, ◌≡◌, ◌≢◌, refl, ◌∙◌, ap, ◌⊎◌, inl, inr, Option, none, some, List, [], ◌∷◌, ◌++◌,
  map, if◌then◌else◌, length, get_elem?, ok, err, arith, ltb, dec_lt, lt→ltb, not-ltb, u32_mod,
  length-append, get_elem?-snoc,
}
use mathlib.Core.List.{append-nil, append_assoc}
use k3x_hera_rt.Common.Counting.{AllBelow}
use k3x_hera_rt.Uabi.Desc.{AiKernelDesc}
use k3x_hera_rt.Uabi.Graph.{AiGraphNode, AiGraphEdge, AiGraphBuildError, default_state}
use k3x_hera_rt.Uabi.Graph.WellFormed.{Numbered, WellFormed}
use k3x_hera_rt.Uabi.Graph.Manager.{
  GraphManager, push_node, validate_depends, push_edges, push_depends, push_kernel_depend_many,
  push_kernel_no_depend,
}
use k3x_hera_rt.Uabi.Graph.Manager.Walk.{Walk, here, step}
use k3x_hera_rt.Uabi.Graph.Manager.Insert.{
  validate_node_id-lt, validate_node_id-ge, push_edge_checked_lem,
}
use k3x_hera_rt.Kahn.Pending.{InRange, InRange-get}

-- The first dependency that is no node of a graph of `n` nodes.
abbrev pub first_out : ℕ → List ℕ → Option ℕ
first_out n [] = none
first_out n (d ∷ ds) = if ltb d n then first_out n ds else some d

-- A manager after one more node and its edges.
abbrev pub node_of : ℕ → AiKernelDesc → AiGraphNode
node_of id desc = record { node_id = id; desc = desc; state = default_state }

abbrev pub edges_to : ℕ → List ℕ → List AiGraphEdge
edges_to id ds = map (λ d. record { from_node = d; to_node = id }) ds

abbrev pub appended : GraphManager → List ℕ → AiKernelDesc → GraphManager
appended m ds desc = record {
  nodes = m.nodes ++ (node_of (length m.nodes) desc ∷ []);
  edges = m.edges ++ edges_to (length m.nodes) ds;
}

validate_depends_lem :
    (nodes : List AiGraphNode) (ds : List ℕ)
    → Numbered nodes
    → ((d : ℕ) × (first_out (length nodes) ds ≡ some d)
        × (validate_depends nodes ds ≡ err (AiGraphBuildError.invalid_depend d)))
      ⊎ ((first_out (length nodes) ds ≡ none)
          × (validate_depends nodes ds ≡ ok tt)
          × AllBelow (length nodes) ds)
unfolding validate_depends
validate_depends_lem nodes [] num = inr (refl, refl, tt)
validate_depends_lem nodes (d ∷ ds) num = elim (dec_lt d (length nodes)) [
  | no p ↦
      inl (d, ground arith, rw (validate_node_id-ge nodes d (omega arith), validate_depends) refl)
  | yes p ↦
      let valid = validate_node_id-lt nodes d num p in
      elim (validate_depends_lem nodes ds num) [
        | inl (b, e, bad) ↦ inl (b, ground arith, rw (valid, validate_depends) bad)
        | inr (e, good, below) ↦ inr (ground arith, rw (valid, validate_depends) good, (p, below))
      ]
]

-- No edge leaves `n`.
abbrev NoneFrom : ℕ → List AiGraphEdge → Type 0
NoneFrom n es = (i : ℕ) (e : AiGraphEdge) → get_elem? es i ≡ some e → e.from_node ≢ n

stuck : (n : ℕ) (es : List AiGraphEdge) → NoneFrom n es → {v : ℕ} → Walk es n v → v ≡ n
stuck n es h here = refl
stuck n es h (step walk i e g f t) = absurd (h i e g (f ∙ stuck n es h walk))

-- Edges from older nodes to the newest one are all accepted.
push_edges_lem :
    (m : GraphManager) (n : ℕ) (ds : List ℕ)
    → WellFormed m.nodes m.edges
    → length m.nodes ≡ suc n
    → NoneFrom n m.edges
    → AllBelow n ds
    → (push_edges m ds n ≡ some (record m { edges = m.edges ++ edges_to n ds }, ok tt))
      × WellFormed m.nodes (m.edges ++ edges_to n ds)
unfolding push_edges
push_edges_lem m n [] w size none_from below = (rw append-nil refl, rw append-nil w)
push_edges_lem m n (d ∷ ds) w size none_from below =
    elim (push_edge_checked_lem m w d n (omega (arith, below.0)) (omega arith)) [
      | inl (_, walk) ↦ absurd (omega (arith, stuck n m.edges none_from walk, below.0))
      | inr (run, _, w') ↦
          let next = record m { edges = m.edges ++ (record { from_node = d; to_node = n } ∷ []) } in
          let (rest, w'') = push_edges_lem next n ds w' size kept below.1 in
          (rw (run, push_edges) (rw append_assoc at rest), rw append_assoc at w'')
    ]
  where
    kept : NoneFrom n (m.edges ++ (record { from_node = d; to_node = n } ∷ []))
    kept i e g = elim (get_elem?-snoc m.edges (record { from_node = d; to_node = n }) i g) [
      | inl old ↦ none_from i e old
      | inr (_, last) ↦
          λ h. absurd (omega (arith, below.0, ap (λ (x : AiGraphEdge). x.from_node) last, h))
    ]

Numbered-snoc :
    (nodes : List AiGraphNode) (desc : AiKernelDesc)
    → Numbered nodes
    → Numbered (nodes ++ (node_of (length nodes) desc ∷ []))
Numbered-snoc nodes desc num i node g =
    elim (get_elem?-snoc nodes (node_of (length nodes) desc) i g) [
      | inl old ↦ num i node old
      | inr (at, last) ↦ omega (arith, at, ap (λ (x : AiGraphNode). x.node_id) last)
    ]

InRange-mono : (n k : ℕ) (es : List AiGraphEdge) → n ≤ k → InRange n es → InRange k es
InRange-mono n k [] h r = tt
InRange-mono n k (e ∷ es) h r = (omega (arith, r.0), omega (arith, r.1), InRange-mono n k es h r.2)

module _ (m : GraphManager) (w : WellFormed m.nodes m.edges) (desc : AiKernelDesc) where
  abbrev id : ℕ
  id = length m.nodes

  abbrev with_node : GraphManager
  with_node = record m { nodes = m.nodes ++ (node_of id desc ∷ []) }

  pub with_node-size : length with_node.nodes ≡ suc id
  with_node-size = omega (arith, length-append m.nodes (node_of id desc ∷ []))

  with_node-WellFormed : WellFormed with_node.nodes with_node.edges
  with_node-WellFormed = record {
    numbered = Numbered-snoc m.nodes desc w.numbered;
    range =
        InRange-mono id (length with_node.nodes) m.edges (omega (arith, with_node-size)) w.range;
    rank = w.rank;
    grows = w.grows;
  }

  push_node-lt : id < u32_mod → push_node m desc ≡ (with_node, ok id)
  unfolding push_node
  push_node-lt h = rw (lt→ltb id u32_mod h, push_node) refl

  push_node-ge : u32_mod ≤ id → push_node m desc ≡ (m, err AiGraphBuildError.too_many_nodes)
  unfolding push_node
  push_node-ge h = rw (not-ltb id u32_mod h, push_node) refl

  -- On a well-formed graph, `push_kernel_no_depend` reports `TooManyNodes` with nothing changed, if
  -- there are 2^32 nodes or more; otherwise it appends a node that carries its index and returns it,
  -- and the graph stays well formed.
  pub push_kernel_no_depend_lem :
      ((u32_mod ≤ id) × (push_kernel_no_depend m desc ≡ (m, err AiGraphBuildError.too_many_nodes)))
      ⊎ ((id < u32_mod)
          × (push_kernel_no_depend m desc ≡ (with_node, ok id))
          × WellFormed with_node.nodes with_node.edges)
  unfolding push_kernel_no_depend
  push_kernel_no_depend_lem = elim (dec_lt id u32_mod) [
    | yes p ↦ inr (p, push_node-lt p, with_node-WellFormed)
    | no p ↦ inl (omega arith, push_node-ge (omega arith))
  ]

  -- `push_kernel_depend_many` on every branch, from a well-formed graph. A dependency that is no node, or too many nodes, are
  -- reported with nothing changed. Otherwise the node is appended with an edge from each
  -- dependency, the graph stays well formed, and the rollback is never needed.
  pub push_kernel_depend_many_lem :
      (ds : List ℕ)
      → ((d : ℕ) × (first_out id ds ≡ some d)
          × (push_kernel_depend_many m ds desc
              ≡ some (m, err (AiGraphBuildError.invalid_depend d))))
        ⊎ ((first_out id ds ≡ none)
            × (u32_mod ≤ id)
            × (push_kernel_depend_many m ds desc ≡ some (m, err AiGraphBuildError.too_many_nodes)))
        ⊎ ((first_out id ds ≡ none)
            × (id < u32_mod)
            × (push_kernel_depend_many m ds desc ≡ some (appended m ds desc, ok id))
            × WellFormed (appended m ds desc).nodes (appended m ds desc).edges)
  unfolding push_kernel_depend_many
  push_kernel_depend_many_lem ds = elim (validate_depends_lem m.nodes ds w.numbered) [
    | inl (d, e, bad) ↦ inl (d, e, rw (bad, push_kernel_depend_many) refl)
    | inr (e, good, below) ↦ elim (dec_lt id u32_mod) [
      | no p ↦ inr (
          inl (
            e,
            omega arith,
            rw (good, push_kernel_depend_many)
                (rw (push_node-ge (omega arith), push_kernel_depend_many) refl),
          ))
      | yes p ↦
          let (run, w') =
            push_edges_lem with_node id ds with_node-WellFormed with_node-size
              (λ i x g. omega (arith, (InRange-get id m.edges i x w.range g).0)) below in
          inr (
            inr (
              e,
              p,
              rw (good, push_kernel_depend_many)
                  (rw (push_node-lt p, push_kernel_depend_many) (rw (run, push_depends) refl)),
              w',
            ))
    ]
  ]
