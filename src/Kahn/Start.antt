-- ===== src/Kahn/Start.antt =====
-- The two tables with which Kahn's loop starts hold the successors and the waiting edges.
use k3x_hera_rt.Common.{
  ℕ, ◌+◌, ◌<◌, ◌≡◌, some, List, [], ◌∷◌, ◌++◌, arith, ◌==◌, if◌then◌else◌, get_or, set, length,
  length-set, length-replicate, get_elem?-eq-get_or, get_or-set_self, get_or-set_ne,
  get_or-replicate, ℕ_discrete,
}
use mathlib.Core.List.{append-nil}
use k3x_hera_rt.Uabi.Graph.{AiGraphEdge}
use k3x_hera_rt.Kahn.{Tables, empty_tables, add_edge}
use k3x_hera_rt.Kahn.Pending.{pending, successors}

-- The tables after the edges `es`.
pub record Built (n : ℕ) (es : List AiGraphEdge) (t : Tables) : Type 0 where
  pub outgoing_size : length t.outgoing ≡ n
  pub indegree_size : length t.indegree ≡ n
  pub outgoing : (v : ℕ) → v < n → get_or t.outgoing v [] ≡ successors v es
  pub indegree : (w : ℕ) → w < n → get_or t.indegree w 0 ≡ pending [] w es

pub empty-Built : (n : ℕ) → Built n [] (empty_tables n)
unfolding empty_tables
empty-Built n = record {
  outgoing_size = length-replicate n [];
  indegree_size = length-replicate n 0;
  outgoing = λ v h. get_or-replicate n v [];
  indegree = λ w h. get_or-replicate n w 0;
}

successors-snoc :
    (v : ℕ) (es : List AiGraphEdge) (e : AiGraphEdge)
    → successors v (es ++ (e ∷ []))
      ≡ successors v es ++ (if e.from_node == v then e.to_node ∷ [] else [])
successors-snoc v [] e = ground arith
successors-snoc v (x ∷ es) e = ground (arith, successors-snoc v es e)

pending-snoc :
    (w : ℕ) (es : List AiGraphEdge) (e : AiGraphEdge)
    → pending [] w (es ++ (e ∷ [])) ≡ pending [] w es + (if e.to_node == w then 1 else 0)
pending-snoc w [] e = ground arith
pending-snoc w (x ∷ es) e = ground (arith, pending-snoc w es e)

-- One edge, both of whose ends are nodes, is entered in the tables.
pub add_edge_lem :
    (n : ℕ) (es : List AiGraphEdge) (t : Tables) (e : AiGraphEdge)
    → Built n es t
    → e.from_node < n
    → e.to_node < n
    → (t' : Tables) × (add_edge t e ≡ some t') × Built n (es ++ (e ∷ [])) t'
unfolding add_edge
add_edge_lem n es t e b hf ht = (
  next,
  run,
  record {
    outgoing_size = omega (arith, length-set t.outgoing from (old ++ (to ∷ [])), b.outgoing_size);
    indegree_size = omega (arith, length-set t.indegree to (k + 1), b.indegree_size);
    outgoing = λ v h. elim (ℕ_discrete from v) [
      | yes p ↦ ground (arith, successors-snoc v es e, b.outgoing v h, in_out)
      | no p ↦ ground (
        arith,
        successors-snoc v es e,
        b.outgoing v h,
        get_or-set_ne t.outgoing from v (old ++ (to ∷ [])) [] p,
        append-nil (successors v es),
      )
    ];
    indegree = λ w h. elim (ℕ_discrete to w) [
      | yes p ↦ ground (arith, pending-snoc w es e, b.indegree w h, in_deg)
      | no p ↦
          ground
            (arith, pending-snoc w es e, b.indegree w h, get_or-set_ne t.indegree to w (k + 1) 0 p)
    ];
  },
)
  where
    open e use {from_node as from, to_node as to}

    old : List ℕ
    old = get_or t.outgoing from []

    k : ℕ
    k = get_or t.indegree to 0

    next : Tables
    next = record {
      outgoing = set t.outgoing from (old ++ (to ∷ []));
      indegree = set t.indegree to (k + 1);
    }

    run : add_edge t e ≡ some next
    run = rw (
      get_elem?-eq-get_or t.outgoing from [] (omega (arith, b.outgoing_size)),
      get_elem?-eq-get_or t.indegree to 0 (omega (arith, b.indegree_size)),
      add_edge,
    )

    in_out : get_or (set t.outgoing from (old ++ (to ∷ []))) from [] ≡ old ++ (to ∷ [])
    in_out = get_or-set_self t.outgoing from (old ++ (to ∷ [])) [] (omega (arith, b.outgoing_size))

    in_deg : get_or (set t.indegree to (k + 1)) to 0 ≡ k + 1
    in_deg = get_or-set_self t.indegree to (k + 1) 0 (omega (arith, b.indegree_size))
