-- ===== src/Uabi/Graph/Manager/Insert.antt =====
-- `push_edge_checked` (k3_aiUabi/src/graph.rs) keeps a graph well formed, and refuses exactly the edges
-- that would close a cycle.
use k3x_hera_rt.Common.{
  ℕ, suc, ◌+◌, ◌≤◌, ◌<◌, ◌≡◌, refl, ◌⊎◌, inl, inr, true, false, Option, none, some, List, [], ◌∷◌,
  ◌++◌, ◌==◌, if◌then◌else◌, length, Result, ok, err, arith, ℕ_discrete, ==_iff, ==_ne,
  get_elem?-present, get_elem?-snoc, get_elem?-ge,
}
use mathlib.Core.Path.{subst}
use k3x_hera_rt.Uabi.Graph.{AiGraphNode, AiGraphEdge, AiGraphBuildError}
use k3x_hera_rt.Uabi.Graph.WellFormed.{Numbered, WellFormed}
use k3x_hera_rt.Uabi.Graph.Manager.{GraphManager, validate_node_id, reaches, push_edge_checked}
use k3x_hera_rt.Uabi.Graph.Manager.Walk.{Walk, here, step, reaches_decides}
use k3x_hera_rt.Kahn.Pending.{InRange}
use k3x_hera_rt.Kahn.Order.{Ranks}

pub validate_node_id-lt :
    (nodes : List AiGraphNode) (id : ℕ)
    → Numbered nodes
    → id < length nodes
    → validate_node_id nodes id ≡ ok tt
unfolding validate_node_id
validate_node_id-lt nodes id numbered h =
    let (node, found) = get_elem?-present nodes id h in
    rw (found, validate_node_id) (rw ((==_iff node.node_id id).1 (numbered id node found)) refl)

pub validate_node_id-ge :
    (nodes : List AiGraphNode) (id : ℕ)
    → length nodes ≤ id
    → validate_node_id nodes id ≡ err (AiGraphBuildError.invalid_depend id)
unfolding validate_node_id
validate_node_id-ge nodes id h = rw (get_elem?-ge nodes id h, validate_node_id) refl

pub InRange-snoc :
    (n : ℕ) (es : List AiGraphEdge) (e : AiGraphEdge)
    → InRange n es
    → e.from_node < n
    → e.to_node < n
    → InRange n (es ++ (e ∷ []))
InRange-snoc n [] e r f t = (f, t, tt)
InRange-snoc n (x ∷ es) e r f t = (r.0, r.1, InRange-snoc n es e r.2 f t)

module _ (m : GraphManager) (w : WellFormed m.nodes m.edges) (from to : ℕ)
    (from_in : from < length m.nodes) (to_in : to < length m.nodes) where
  abbrev edge : AiGraphEdge
  edge = record { from_node = from; to_node = to }

  abbrev extended : List AiGraphEdge
  extended = m.edges ++ (edge ∷ [])

  -- What `to` reaches moves up, past `from`.
  new_rank : ℕ → ℕ
  new_rank v = elim (reaches m to v) [ some true ↦ w.rank v + suc (w.rank from) | _ ↦ w.rank v ]

  new_rank_lem :
      (v : ℕ)
      → ((new_rank v ≡ w.rank v + suc (w.rank from)) × Walk m.edges to v)
        ⊎ ((new_rank v ≡ w.rank v) × ¬ Walk m.edges to v)
  unfolding new_rank
  new_rank_lem v = elim (reaches_decides m to v w.range to_in) [
    | inl (e, walk) ↦ inl (rw (e, new_rank) refl, walk)
    | inr (e, far) ↦ inr (rw (e, new_rank) refl, far)
  ]

  new_Ranks : ¬ Walk m.edges to from → Ranks new_rank extended
  new_Ranks far i e g = elim (get_elem?-snoc m.edges edge i g) [
    | inr (_, last) ↦ elim (new_rank_lem from) [
      | inl (_, walk) ↦ absurd (far walk)
      | inr (r, _) ↦ elim (new_rank_lem to) [
        | inl (s, _) ↦
            subst (λ (x : AiGraphEdge). new_rank x.from_node < new_rank x.to_node) last
              (omega (arith, r, s))
        | inr (_, stuck) ↦ absurd (stuck here)
      ]
    ]
    | inl old ↦ elim (new_rank_lem e.from_node) [
      | inl (r, walk) ↦ elim (new_rank_lem e.to_node) [
        | inl (s, _) ↦ omega (arith, r, s, w.grows i e old)
        | inr (_, stuck) ↦ absurd (stuck (step walk i e old refl refl))
      ]
      | inr (r, _) ↦ elim (new_rank_lem e.to_node) [
        | inl (s, _) ↦ omega (arith, r, s, w.grows i e old)
        | inr (s, _) ↦ omega (arith, r, s, w.grows i e old)
      ]
    ]
  ]

  -- What `push_edge_checked` does once both ids are valid.
  abbrev checked : Option (GraphManager × Result AiGraphBuildError (Unit {0}))
  checked =
      if from == to
      then some (m, err AiGraphBuildError.cycle_detected)
      else elim (reaches m to from) [
        | none ↦ none
        | some true ↦ some (m, err AiGraphBuildError.cycle_detected)
        | some false ↦ some (record m { edges = extended }, ok tt)
      ]

  -- On a well-formed graph and two of its nodes, the edge is refused, with nothing changed, exactly if
  -- its end leads back to its start; otherwise it is appended and the graph stays well formed.
  pub push_edge_checked_lem :
      ((push_edge_checked m from to ≡ some (m, err AiGraphBuildError.cycle_detected))
        × Walk m.edges to from)
      ⊎ ((push_edge_checked m from to ≡ some (record m { edges = extended }, ok tt))
          × (¬ Walk m.edges to from)
          × WellFormed m.nodes extended)
  unfolding push_edge_checked
  push_edge_checked_lem = elim (ℕ_discrete from to) [
    | yes p ↦ inl (opened (rw ((==_iff from to).1 p) refl), rw p here)
    | no p ↦ elim (reaches_decides m to from w.range to_in) [
      | inl (e, walk) ↦ inl (opened (rw (==_ne from to p, checked) (rw (e, checked) refl)), walk)
      | inr (e, far) ↦ inr (
        opened (rw (==_ne from to p, checked) (rw (e, checked) refl)),
        far,
        record {
          numbered = w.numbered;
          range = InRange-snoc (length m.nodes) m.edges edge w.range from_in to_in;
          rank = new_rank;
          grows = new_Ranks far;
        },
      )
    ]
  ]
    where
      valid_from : validate_node_id m.nodes from ≡ ok tt
      valid_from = validate_node_id-lt m.nodes from w.numbered from_in

      valid_to : validate_node_id m.nodes to ≡ ok tt
      valid_to = validate_node_id-lt m.nodes to w.numbered to_in

      opened :
          {r : Option (GraphManager × Result AiGraphBuildError (Unit {0}))}
          → checked ≡ r
          → push_edge_checked m from to ≡ r
      opened h = rw (valid_from, push_edge_checked) (rw (valid_to, push_edge_checked) h)
