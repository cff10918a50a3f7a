-- ===== src/Kahn/Drain.antt =====
-- The loop over the worklist ends, with an order that respects the edges.
use k3x_hera_rt.Common.{
  ℕ, zero, suc, ◌+◌, ◌<◌, ◌≡◌, refl, some, List, [], ◌∷◌, ◌++◌, arith, get_elem?, length,
  length-append,
}
use k3x_hera_rt.Common.Counting.{AllBelow, AllBelow-append}
use k3x_hera_rt.Uabi.Graph.{AiGraphEdge}
use k3x_hera_rt.Kahn.{drain, drain_count}
use k3x_hera_rt.Kahn.Pending.{successors, InRange, successors-AllBelow}
use k3x_hera_rt.Kahn.Loop.{Worklist, Inv, relax_lem, take-Inv, bounded}
use k3x_hera_rt.Kahn.Order.{Topo, Topo-snoc}

-- The state in which the loop ends.
pub record Finished (n : ℕ) (es : List AiGraphEdge) (order : List ℕ) : Type 0 where
  pub indegree : List ℕ
  pub inv : Inv n es order [] indegree []
  pub below : AllBelow n order
  pub topo : Topo es [] order

module _ (push : List ℕ → ℕ → List ℕ) (law : Worklist push) (n : ℕ) (es : List AiGraphEdge)
    (range : InRange n es) (outgoing : List (List ℕ))
    (table : (v : ℕ) → v < n → get_elem? outgoing v ≡ some (successors v es)) where
  -- Enough fuel: one more than the nodes that are left. Both loops go through the same nodes.
  pub drain_lem :
      (fuel : ℕ) (d q order : List ℕ)
      → n < fuel + length order
      → AllBelow n order
      → Inv n es order [] d q
      → Topo es [] order
      → (r : List ℕ) × (drain push outgoing fuel d q order ≡ some r)
        × (drain_count push outgoing fuel d q (length order) ≡ some (length r))
        × Finished n es r
  unfolding drain drain_count
  drain_lem zero d q order enough h i t =
      absurd (omega (arith, bounded push law n es order d q h i))
  drain_lem (suc fuel) d [] order enough h i t =
      (order, refl, refl, record { indegree = d; inv = i; below = h; topo = t })
  drain_lem (suc fuel) d (v ∷ q) order enough h i t =
      let hv = i.below.0 in
      let (i', fresh, zero_pending) = take-Inv push law n es order d q v h i in
      let (d', q', run, i'') =
        relax_lem push law n es (order ++ (v ∷ [])) (successors v es) d q
          (successors-AllBelow n v es range) i' in
      let (r, e, c, f) =
        drain_lem fuel d' q' (order ++ (v ∷ [])) (omega (arith, length-append order (v ∷ [])))
          (AllBelow-append n order (v ∷ []) h (hv, tt)) i''
          (Topo-snoc es [] order v t zero_pending) in
      (
        r,
        rw (table v hv, drain) (rw (run, drain) e),
        rw (table v hv, drain_count)
            (rw (run, drain_count) (rw (length-append order (v ∷ [])) at c)),
        f,
      )
