-- ===== src/Kahn/Order.antt =====
-- Orders of nodes that respect the edges.
use k3x_hera_rt.Common.{
  ℕ, suc, ◌<◌, ◌≡◌, ◌≢◌, ◌⊎◌, inl, inr, some, List, [], ◌∷◌, ◌++◌, arith, ◌==◌, if◌then◌else◌,
  get_elem?, ℕ_discrete,
}
use mathlib.Core.List.{append-nil, append_assoc}
use k3x_hera_rt.Common.Counting.{count, count-append}
use k3x_hera_rt.Uabi.Graph.{AiGraphEdge}
use k3x_hera_rt.Kahn.Pending.{pending, pending_zero}

-- Each node of the order comes after the first nodes of all edges into it; `seen` came before.
abbrev pub Topo : List AiGraphEdge → List ℕ → List ℕ → Type 0
Topo es seen [] = Unit {0}
Topo es seen (v ∷ vs) = (pending seen v es ≡ 0) × Topo es (seen ++ (v ∷ [])) vs

pub Topo-snoc :
    (es : List AiGraphEdge) (seen order : List ℕ) (v : ℕ)
    → Topo es seen order
    → pending (seen ++ order) v es ≡ 0
    → Topo es seen (order ++ (v ∷ []))
Topo-snoc es seen [] v t p = (rw append-nil at p, tt)
Topo-snoc es seen (x ∷ xs) v t p =
    (t.0, Topo-snoc es (seen ++ (x ∷ [])) xs v t.1 (rw (append_assoc seen (x ∷ []) xs) p))

-- The index of the first occurrence.
abbrev pub position : ℕ → List ℕ → ℕ
position a [] = 0
position a (x ∷ xs) = if x == a then 0 else suc (position a xs)

-- `rank` grows along every edge.
abbrev pub Ranks : (ℕ → ℕ) → List AiGraphEdge → Type 0
Ranks rank es =
    (i : ℕ) (e : AiGraphEdge) → get_elem? es i ≡ some e → rank e.from_node < rank e.to_node

edge_order :
    (es : List AiGraphEdge) (seen order : List ℕ) (i : ℕ) (e : AiGraphEdge)
    → Topo es seen order
    → get_elem? es i ≡ some e
    → count e.to_node order ≢ 0
    → (count e.from_node seen ≢ 0) ⊎ (position e.from_node order < position e.to_node order)
edge_order es seen [] i e t g c = absurd (c (omega arith))
edge_order es seen (v ∷ vs) i e t g c = elim (ℕ_discrete v e.to_node) [
  | yes p ↦ inl (pending_zero seen v es i e t.0 g (omega arith))
  | no p ↦
      ground (
        arith,
        edge_order es (seen ++ (v ∷ [])) vs i e t.1 g,
        count-append e.from_node seen (v ∷ []),
      )
]

-- In an order that holds every node, positions grow along the edges.
pub Topo-Ranks :
    (es : List AiGraphEdge) (order : List ℕ)
    → Topo es [] order
    → ((i : ℕ) (e : AiGraphEdge) → get_elem? es i ≡ some e → count e.to_node order ≢ 0)
    → Ranks (λ v. position v order) es
Topo-Ranks es order t all i e g = elim (edge_order es [] order i e t g (all i e g)) [
  | inl seen ↦ absurd (seen (omega arith))
  | inr before ↦ before
]
