-- ===== src/Kahn/Finish.antt =====
-- The order with which Kahn's loop ends holds every node exactly if the graph has no cycle.
use k3x_hera_rt.Common.{
  ℕ, zero, suc, ◌≤◌, ◌<◌, ◌≡◌, ap, List, arith, get_elem?, get_or, length, ℕ_discrete, some,
}
use k3x_hera_rt.Common.Counting.{count, sum_below-count, sum_below-full, sum_below-ones}
use k3x_hera_rt.Uabi.Graph.{AiGraphEdge}
use k3x_hera_rt.Kahn.Pending.{pending, InRange, InRange-get, pending_pos}
use k3x_hera_rt.Kahn.Order.{Topo-Ranks, Ranks, position}
use k3x_hera_rt.Kahn.Drain.{Finished}

module _ (n : ℕ) (es : List AiGraphEdge) (order : List ℕ) (f : Finished n es order) where
  -- No node stands in the order twice.
  pub count-le : (w : ℕ) → w < n → count w order ≤ 1
  count-le w h = ground (arith, f.inv.ready w h)

  pub count_full : length order ≡ n → (w : ℕ) → w < n → count w order ≡ 1
  count_full full =
      sum_below-full n (λ a. count a order) count-le
        (omega (arith, sum_below-count n order f.below, full))

  -- A full order has no cycle: positions grow along the edges.
  pub full-Ranks : InRange n es → length order ≡ n → Ranks (λ v. position v order) es
  full-Ranks range full = Topo-Ranks es order f.topo (λ i e g.
      let in_range = InRange-get n es i e range g in
      omega (arith, count_full full e.to_node in_range.1))

  module _ (range : InRange n es) (rank : ℕ → ℕ) (grows : Ranks rank es) where
    -- By induction on the rank: a node with a waiting edge has one before it.
    settled : (k w : ℕ) → rank w < k → w < n → get_or f.indegree w 0 ≡ 0
    settled zero w hk hw = absurd (omega arith)
    settled (suc k) w hk hw = elim (ℕ_discrete (pending order w es) 0) [
      | yes p ↦ omega (arith, f.inv.waiting w hw, p)
      | no p ↦
          let (i, e, g, to, missing) = pending_pos order w es p in
          let in_range = InRange-get n es i e range g in
          let lower : rank e.from_node < k = step i e g to in
          absurd (
            ground (
              arith,
              settled k e.from_node lower in_range.0,
              f.inv.ready e.from_node in_range.0,
              missing,
            ))
    ]
      where
        step :
            (i : ℕ) (e : AiGraphEdge)
            → get_elem? es i ≡ some e
            → e.to_node ≡ w
            → rank e.from_node < k
        step i e g to = omega (arith, grows i e g, ap rank to)

    pub Ranks-full : length order ≡ n
    Ranks-full = omega (
      arith,
      sum_below-count n order f.below,
      sum_below-ones n (λ a. count a order)
          (λ a h. ground (arith, f.inv.ready a h, settled (suc (rank a)) a (omega arith) h)),
    )
