-- ===== src/Kahn/Pending.antt =====
-- The edges into a node that still wait for their first node, and the successors of a node.
use k3x_hera_rt.Common.{
  ℕ, zero, suc, ◌+◌, ◌<◌, ◌≡◌, ◌≢◌, refl, inl, inr, some, List, [], ◌∷◌, ◌++◌, ◌&&◌, arith, ◌==◌,
  if◌then◌else◌, get_elem?, Bool-cases,
}
use k3x_hera_rt.Common.Counting.{count, count-append, AllBelow}
use k3x_hera_rt.Uabi.Graph.{AiGraphEdge}

-- The edges into `w` whose first node is not in `done`.
abbrev pub pending : List ℕ → ℕ → List AiGraphEdge → ℕ
pending done w [] = 0
pending done w (e ∷ es) =
    (if e.to_node == w && count e.from_node done == 0 then 1 else 0) + pending done w es

abbrev pub successors : ℕ → List AiGraphEdge → List ℕ
successors v [] = []
successors v (e ∷ es) = if e.from_node == v then e.to_node ∷ successors v es else successors v es

-- Both ends of every edge are nodes.
abbrev pub InRange : ℕ → List AiGraphEdge → Type 0
InRange n [] = Unit {0}
InRange n (e ∷ es) = (e.from_node < n) × (e.to_node < n) × InRange n es

pub successors-AllBelow :
    (n v : ℕ) (es : List AiGraphEdge) → InRange n es → AllBelow n (successors v es)
successors-AllBelow n v [] h = tt
successors-AllBelow n v (e ∷ es) h = ground (arith, successors-AllBelow n v es h.2)

-- Finishing `v` releases exactly its successors.
pub pending-finish :
    (done : List ℕ) (v w : ℕ) (es : List AiGraphEdge)
    → count v done ≡ 0
    → pending done w es ≡ pending (done ++ (v ∷ [])) w es + count w (successors v es)
pending-finish done v w [] h = omega arith
pending-finish done v w (e ∷ es) h =
    ground (arith, pending-finish done v w es h, count-append e.from_node done (v ∷ []))

-- An edge that waits for nothing has its first node done.
pub pending_zero :
    (done : List ℕ) (w : ℕ) (es : List AiGraphEdge) (i : ℕ) (e : AiGraphEdge)
    → pending done w es ≡ 0
    → get_elem? es i ≡ some e
    → e.to_node ≡ w
    → count e.from_node done ≢ 0
pending_zero done w [] i e h g t = ground arith
pending_zero done w (x ∷ es) zero e h g t = ground arith
pending_zero done w (x ∷ es) (suc i) e h g t = pending_zero done w es i e (ground arith) g t

-- A node with a pending edge has one at some index.
pub pending_pos :
    (done : List ℕ) (w : ℕ) (es : List AiGraphEdge)
    → pending done w es ≢ 0
    → (i : ℕ) × (e : AiGraphEdge) × (get_elem? es i ≡ some e)
      × (e.to_node ≡ w)
      × (count e.from_node done ≡ 0)
pending_pos done w [] h = absurd (h refl)
pending_pos done w (e ∷ es) h = elim (Bool-cases (e.to_node == w && count e.from_node done == 0)) [
  | inl p ↦ (0, e, refl, ground arith, ground arith)
  | inr p ↦ let (i, x, g, t, c) = pending_pos done w es (ground arith) in (suc i, x, g, t, c)
]

pub InRange-get :
    (n : ℕ) (es : List AiGraphEdge) (i : ℕ) (e : AiGraphEdge)
    → InRange n es
    → get_elem? es i ≡ some e
    → (e.from_node < n) × (e.to_node < n)
InRange-get n [] i e h g = ground arith
InRange-get n (x ∷ es) zero e h g = ground arith
InRange-get n (x ∷ es) (suc i) e h g = InRange-get n es i e h.2 g
