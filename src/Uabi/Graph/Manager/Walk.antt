-- ===== src/Uabi/Graph/Manager/Walk.antt =====
-- The depth-first search of `GraphManager::reaches` (k3_aiUabi/src/graph.rs) decides reachability.
use k3x_hera_rt.Common.{
  ℕ, zero, suc, ◌+◌, ◌≤◌, ◌<◌, ◌≡◌, ◌≢◌, refl, sym, ◌∙◌, ◌⊎◌, inl, inr, Bool, true, false, ◌&&◌,
  Option, some, List, [], ◌∷◌, ◌==◌, if◌then◌else◌, length, get_elem?, get_or, set, replicate,
  arith, ℕ_discrete, Bool-cases, ==_iff, ==_ne, ap, get_elem?-eq-get_or, get_or-set_self,
  get_or-set_ne, length-set, length-replicate, get_or-replicate,
}
use k3x_hera_rt.Common.Counting.{count, AllBelow}
use k3x_hera_rt.Uabi.Graph.{AiGraphEdge}
use k3x_hera_rt.Uabi.Graph.Manager.{GraphManager, push_targets, search, reaches}
use k3x_hera_rt.Kahn.Pending.{successors, InRange}

-- The walks along the edges.
pub data Walk (es : List AiGraphEdge) (start : ℕ) : ℕ → Type 0 where
  here : Walk es start start
  step :
      {u v : ℕ}
      → Walk es start u
      → (i : ℕ) (e : AiGraphEdge) → get_elem? es i ≡ some e
      → e.from_node ≡ u
      → e.to_node ≡ v
      → Walk es start v

abbrev marked : List Bool → ℕ → Bool
marked visited v = get_or visited v false

-- The edges that are still to be pushed.
abbrev unspent : List Bool → List AiGraphEdge → ℕ
unspent visited [] = 0
unspent visited (e ∷ es) = (if marked visited e.from_node then 0 else 1) + unspent visited es

unspent-le : (visited : List Bool) (es : List AiGraphEdge) → unspent visited es ≤ length es
unspent-le visited [] = omega arith
unspent-le visited (e ∷ es) = ground (arith, unspent-le visited es)

push_targets_lem :
    (v w : ℕ) (es : List AiGraphEdge) (stack : List ℕ)
    → (count w (push_targets v es stack) ≡ count w (successors v es) + count w stack)
      × (length (push_targets v es stack) ≡ length (successors v es) + length stack)
unfolding push_targets
push_targets_lem v w [] stack = (omega arith, omega arith)
push_targets_lem v w (e ∷ es) stack =
    ground (arith, push_targets_lem v w es (if e.from_node == v then e.to_node ∷ stack else stack))

push_targets-AllBelow :
    (n v : ℕ) (es : List AiGraphEdge) (stack : List ℕ)
    → InRange n es
    → AllBelow n stack
    → AllBelow n (push_targets v es stack)
unfolding push_targets
push_targets-AllBelow n v [] stack r b = b
push_targets-AllBelow n v (e ∷ es) stack r b =
    push_targets-AllBelow n v es (if e.from_node == v then e.to_node ∷ stack else stack) r.2
      (ground arith)

unspent-set :
    (visited : List Bool) (v : ℕ) (es : List AiGraphEdge)
    → v < length visited
    → marked visited v ≡ false
    → unspent (set visited v true) es + length (successors v es) ≡ unspent visited es
unspent-set visited v [] h f = omega arith
unspent-set visited v (e ∷ es) h f = elim (ℕ_discrete v e.from_node) [
  | yes p ↦ ground (arith, unspent-set visited v es h f, get_or-set_self visited v true false h)
  | no p ↦
      ground (arith, unspent-set visited v es h f, get_or-set_ne visited v e.from_node true false p)
]

-- The successors are the ends of the edges.
successor_edge :
    (v w : ℕ) (es : List AiGraphEdge)
    → count w (successors v es) ≢ 0
    → (i : ℕ) × (e : AiGraphEdge) × (get_elem? es i ≡ some e) × (e.from_node ≡ v) × (e.to_node ≡ w)
successor_edge v w [] h = absurd (h refl)
successor_edge v w (e ∷ es) h = elim (Bool-cases (e.from_node == v && e.to_node == w)) [
  | inl p ↦ (0, e, refl, ground arith, ground arith)
  | inr p ↦ let (i, x, g, f, t) = successor_edge v w es (ground arith) in (suc i, x, g, f, t)
]

edge_successor :
    (es : List AiGraphEdge) (i : ℕ) (e : AiGraphEdge)
    → get_elem? es i ≡ some e
    → count e.to_node (successors e.from_node es) ≢ 0
edge_successor [] i e g = cc
edge_successor (x ∷ es) zero e g = ground arith
edge_successor (x ∷ es) (suc i) e g = ground (arith, edge_successor es i e g)

module _ (n : ℕ) (es : List AiGraphEdge) (range : InRange n es) (start target : ℕ) where
  -- The loop's invariant: what is left on the stack is reachable, and what was reached is visited or
  -- still on the stack.
  record Inv (stack : List ℕ) (visited : List Bool) : Type 0 where
    size : length visited ≡ n
    below : AllBelow n stack
    sound : (w : ℕ) → count w stack ≢ 0 → Walk es start w
    source : (count start stack ≢ 0) ⊎ (marked visited start ≡ true)
    closed :
        (i : ℕ) (e : AiGraphEdge)
        → get_elem? es i ≡ some e
        → marked visited e.from_node ≡ true
        → (count e.to_node stack ≢ 0) ⊎ (marked visited e.to_node ≡ true)
    avoids : marked visited target ≡ false

  skip-Inv :
      (v : ℕ) (stack : List ℕ) (visited : List Bool)
      → marked visited v ≡ true
      → Inv (v ∷ stack) visited
      → Inv stack visited
  skip-Inv v stack visited old h = record {
    size = h.size;
    below = h.below.1;
    sound = λ w c. h.sound w (ground arith);
    source = ground (arith, h.source);
    closed = λ i e g m. ground (arith, h.closed i e g m);
    avoids = h.avoids;
  }

  visit-Inv :
      (v : ℕ) (stack : List ℕ) (visited : List Bool)
      → v ≢ target
      → Inv (v ∷ stack) visited
      → Inv (push_targets v es stack) (set visited v true)
  visit-Inv v stack visited ne h = record {
    size = omega (arith, length-set visited v true, h.size);
    below = push_targets-AllBelow n v es stack range h.below.1;
    sound = sound;
    source = source;
    closed = closed;
    avoids = get_or-set_ne visited v target true false ne ∙ h.avoids;
  }
    where
      at_v : marked (set visited v true) v ≡ true
      at_v = get_or-set_self visited v true false (omega (arith, h.size, h.below.0))

      kept : (w : ℕ) → marked visited w ≡ true → marked (set visited v true) w ≡ true
      kept w m = elim (ℕ_discrete v w) [
        | yes p ↦ ap (marked (set visited v true)) (sym p) ∙ at_v
        | no p ↦ get_or-set_ne visited v w true false p ∙ m
      ]

      sound : (w : ℕ) → count w (push_targets v es stack) ≢ 0 → Walk es start w
      sound w c = elim (ℕ_discrete (count w (successors v es)) 0) [
        | yes p ↦ h.sound w (omega (arith, push_targets_lem v w es stack))
        | no p ↦
            let (i, e, g, f, t) = successor_edge v w es p in
            step (h.sound v (ground arith)) i e g f t
      ]

      source :
          (count start (push_targets v es stack) ≢ 0) ⊎ (marked (set visited v true) start ≡ true)
      source = elim (ℕ_discrete v start) [
        | yes p ↦ inr (ap (marked (set visited v true)) (sym p) ∙ at_v)
        | no p ↦ ground (arith, h.source, kept start, push_targets_lem v start es stack)
      ]

      closed :
          (i : ℕ) (e : AiGraphEdge)
          → get_elem? es i ≡ some e
          → marked (set visited v true) e.from_node ≡ true
          → (count e.to_node (push_targets v es stack) ≢ 0)
            ⊎ (marked (set visited v true) e.to_node ≡ true)
      closed i e g m = elim (ℕ_discrete v e.from_node) [
        | yes p ↦ inl (
            rw p (
              omega
                (arith, push_targets_lem e.from_node e.to_node es stack, edge_successor es i e g)))
        | no p ↦ ground (
          arith,
          get_or-set_ne visited v e.from_node true false p,
          h.closed i e g,
          push_targets_lem v e.to_node es stack,
          at_v,
          kept e.to_node,
        )
      ]

  -- With the stack empty, every walk ends at a visited node.
  complete :
      (visited : List Bool) → Inv [] visited → {w : ℕ} → Walk es start w → marked visited w ≡ true
  complete visited h here = ground (arith, h.source)
  complete visited h (step walk i e g f t) = ground (arith, h.closed i e g, complete visited h walk)

  abbrev Decided : Option Bool → Type 0
  Decided r = ((r ≡ some true) × Walk es start target) ⊎ ((r ≡ some false) × ¬ Walk es start target)

  -- A round takes one entry off the stack, and pushes an edge only when it is spent.
  search_lem :
      (fuel : ℕ) (stack : List ℕ) (visited : List Bool)
      → length stack + unspent visited es < fuel
      → Inv stack visited
      → Decided (search es target fuel stack visited)
  unfolding search
  search_lem zero stack visited m h = absurd (omega arith)
  search_lem (suc fuel) [] visited m h = inr (refl, λ walk. cc (complete visited h walk, h.avoids))
  search_lem (suc fuel) (v ∷ stack) visited m h = elim (ℕ_discrete v target) [
    | yes p ↦ inl (rw ((==_iff v target).1 p) refl, rw p at (h.sound v (ground arith)))
    | no p ↦ elim (Bool-cases (marked visited v)) [
      | inl old ↦
          rw (==_ne v target p, search)
            (rw (found old, search)
              (search_lem fuel stack visited (omega arith) (skip-Inv v stack visited old h)))
      | inr new ↦
          rw (==_ne v target p, search)
            (rw (found new, search)
              (search_lem fuel (push_targets v es stack) (set visited v true)
                (omega (
                  arith,
                  push_targets_lem v v es stack,
                  unspent-set visited v es (omega (arith, h.size, h.below.0)) new,
                ))
                (visit-Inv v stack visited p h)))
    ]
  ]
    where
      found : {b : Bool} → marked visited v ≡ b → get_elem? visited v ≡ some b
      found e = get_elem?-eq-get_or visited v false (omega (arith, h.size, h.below.0)) ∙ ap some e

unmarked : (n w : ℕ) → marked (replicate n false) w ≡ false
unmarked n w = get_or-replicate n w false

-- On edges between nodes, and from a node on, `reaches` ends without running out of fuel, and tells
-- whether a walk leads from `start` to `target`.
pub reaches_decides :
    (m : GraphManager) (start target : ℕ)
    → InRange (length m.nodes) m.edges
    → start < length m.nodes
    → ((reaches m start target ≡ some true) × Walk m.edges start target)
      ⊎ ((reaches m start target ≡ some false) × ¬ Walk m.edges start target)
unfolding reaches
reaches_decides m start target range h =
    search_lem (length m.nodes) m.edges range start target (length m.edges + 2) (start ∷ [])
      (replicate (length m.nodes) false)
      (omega (arith, unspent-le (replicate (length m.nodes) false) m.edges))
      (record {
        size = length-replicate (length m.nodes) false;
        below = (h, tt);
        sound = λ w c. from_start w c;
        source = inl (ground arith);
        closed = λ i e g k. cc (unmarked (length m.nodes) e.from_node, k);
        avoids = unmarked (length m.nodes) target;
      })
  where
    from_start : (w : ℕ) → count w (start ∷ []) ≢ 0 → Walk m.edges start w
    from_start w c = elim (ℕ_discrete start w) [
      | yes p ↦ rw (← p) here
      | no p ↦ absurd (ground arith)
    ]
