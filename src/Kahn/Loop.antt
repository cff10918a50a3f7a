-- ===== src/Kahn/Loop.antt =====
-- The invariant of Kahn's loop, and that the loop ends without a panic.
use k3x_hera_rt.Common.{
  ℕ, suc, ◌+◌, ◌≤◌, ◌<◌, ◌≡◌, refl, some, List, [], ◌∷◌, ◌++◌, arith, ◌==◌, if◌then◌else◌, get_or,
  set, length, length-set, get_elem?-eq-get_or, get_or-set_self, get_or-set_ne, ℕ_discrete,
}
use k3x_hera_rt.Common.Counting.{
  count, count-append, AllBelow, sum_below-add, sum_below-count, sum_below-le_bound,
}
use k3x_hera_rt.Uabi.Graph.{AiGraphEdge}
use k3x_hera_rt.Kahn.{decrement, relax}
use k3x_hera_rt.Kahn.Pending.{pending, successors, pending-finish}

-- What a worklist owes its contents: `push` adds one entry.
pub record Worklist (push : List ℕ → ℕ → List ℕ) : Type 0 where
  pub count-push : (q : List ℕ) (x a : ℕ) → count a (push q x) ≡ count a q + count a (x ∷ [])
  pub AllBelow-push : (n : ℕ) (q : List ℕ) (x : ℕ) → AllBelow n q → x < n → AllBelow n (push q x)

-- With `done` finished and the decrements for `nexts` still to come, the indegrees count the edges
-- that wait, and a node is finished or ready, once, exactly when none waits.
pub record Inv (n : ℕ) (es : List AiGraphEdge) (done nexts d q : List ℕ) : Type 0 where
  pub size : length d ≡ n
  pub waiting : (w : ℕ) → w < n → get_or d w 0 ≡ pending done w es + count w nexts
  pub ready : (w : ℕ) → w < n → count w done + count w q ≡ (if get_or d w 0 == 0 then 1 else 0)
  pub below : AllBelow n q

decrement_lem :
    (d : List ℕ) (i k : ℕ)
    → i < length d
    → get_or d i 0 ≡ suc k
    → decrement d i ≡ some (set d i k, k)
unfolding decrement
decrement_lem d i k h e = rw (get_elem?-eq-get_or d i 0 h, decrement) (rw (e, decrement) refl)

module _ (push : List ℕ → ℕ → List ℕ) (law : Worklist push) (n : ℕ) (es : List AiGraphEdge) where
  step-Inv :
      (done xs d q : List ℕ) (x k : ℕ)
      → x < n
      → get_or d x 0 ≡ suc k
      → Inv n es done (x ∷ xs) d q
      → Inv n es done xs (set d x k) (if k == 0 then push q x else q)
  step-Inv done xs d q x k hx e v = record {
    size = omega (arith, length-set d x k, v.size);
    waiting = waiting;
    ready = ready;
    below = ground (arith, v.below, law.AllBelow-push n q x v.below hx);
  }
    where
      at_x : get_or (set d x k) x 0 ≡ k
      at_x = get_or-set_self d x k 0 (omega (arith, v.size))

      waiting : (w : ℕ) → w < n → get_or (set d x k) w 0 ≡ pending done w es + count w xs
      waiting w hw = elim (ℕ_discrete x w) [
        | yes p ↦ ground (arith, v.waiting w hw, at_x)
        | no p ↦ ground (arith, v.waiting w hw, get_or-set_ne d x w k 0 p)
      ]

      ready :
          (w : ℕ)
          → w < n
          → count w done + count w (if k == 0 then push q x else q)
            ≡ (if get_or (set d x k) w 0 == 0 then 1 else 0)
      ready w hw = elim (ℕ_discrete x w) [
        | yes p ↦ ground (arith, v.ready w hw, at_x, law.count-push q x w)
        | no p ↦ ground (arith, v.ready w hw, get_or-set_ne d x w k 0 p, law.count-push q x w)
      ]

  -- The indegrees never fall below zero, and the loop over the successors keeps the invariant.
  pub relax_lem :
      (done xs d q : List ℕ)
      → AllBelow n xs
      → Inv n es done xs d q
      → (d' : List ℕ) × (q' : List ℕ) × (relax push xs d q ≡ some (d', q')) × Inv n es done [] d' q'
  unfolding relax
  relax_lem done [] d q h v = (d, q, refl, v)
  relax_lem done (x ∷ xs) d q h v =
      let k = pending done x es + count x xs in
      let e : get_or d x 0 ≡ suc k = ground (arith, v.waiting x h.0) in
      let (d', q', r, v') =
        relax_lem done xs (set d x k) (if k == 0 then push q x else q) h.1
          (step-Inv done xs d q x k h.0 e v) in
      (d', q', rw (decrement_lem d x k (omega (arith, v.size, h.0)) e, relax) r, v')

  -- Taking the head of the worklist finishes it.
  pub take-Inv :
      (order d q : List ℕ) (v : ℕ)
      → AllBelow n order
      → Inv n es order [] d (v ∷ q)
      → Inv n es (order ++ (v ∷ [])) (successors v es) d q
        × (count v order ≡ 0)
        × (pending order v es ≡ 0)
  take-Inv order d q v h i = (
    record {
      size = i.size;
      waiting = λ w hw. omega (arith, i.waiting w hw, pending-finish order v w es fresh);
      ready = λ w hw. ground (arith, i.ready w hw, count-append w order (v ∷ []));
      below = i.below.1;
    },
    fresh,
    ground (arith, i.waiting v i.below.0, i.ready v i.below.0),
  )
    where
      fresh : count v order ≡ 0
      fresh = ground (arith, i.ready v i.below.0)

  -- Nothing is finished or ready twice, so the two lists have at most `n` entries.
  pub bounded :
      (order d q : List ℕ) → AllBelow n order → Inv n es order [] d q → length order + length q ≤ n
  bounded order d q h i = omega (
    arith,
    sum_below-le_bound n (λ a. count a order + count a q) (λ a p. ground (arith, i.ready a p)),
    sum_below-add n (λ a. count a order) (λ a. count a q),
    sum_below-count n order h,
    sum_below-count n q i.below,
  )
