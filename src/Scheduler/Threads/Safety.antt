-- ===== src/Scheduler/Threads/Safety.antt =====
-- What holds in every state that the threads of a `PerCoreTaskQueue`
-- (k3_aiScheduler/src/scheduler.rs) can come to, while fewer than 2^63 tasks have been pushed.
use k3x_hera_rt.Common.{
  inl, inr, ℕ, ◌+◌, ◌%◌, ◌^◌, ◌≤◌, ◌<◌, ◌≡◌, refl, sym, ◌∙◌, some, [], ◌∷◌, length, get_elem?,
  get_elem?-present, length-append, arith,
}
use k3x_hera_rt.Scheduler.Threads.{
  Ring, Pc, idle, push_owned, push_written, pop_owned, pop_read, Move, new, System, pick, Reach,
  start, later, push_win,
}
use k3x_hera_rt.Scheduler.Queue.{queue_capacity}
use k3x_hera_rt.Scheduler.Threads.Invariant.{ticket, IsFresh, Inv}
use k3x_hera_rt.Scheduler.Threads.Moves.{Move-Inv}

module _ {A : Type 0} where
  new-Inv : (core_id : ℕ) → Inv (new {A = A} core_id) (λ _. idle)
  unfolding new
  new-Inv core_id = record {
    few = omega arith;
    counted = refl;
    ordered = omega arith;
    room = omega arith;
    range = λ j h. omega arith;
    cells = λ p lo hi. ground arith;
    covered = λ p lo hi b. absurd (elim b [ inl x ↦ ground arith | inr y ↦ ground (arith, y.0) ]);
    published = λ h lo hi s. absurd (omega arith);
    unique = λ i j t a b. ground arith;
    fresh = λ i. tt;
  }

  Move-grows : {q q' : Ring A} {p p' : Pc A} → Move q p q' p' → length q.pushed ≤ length q'.pushed
  Move-grows {q} (push_win {x} g) = omega (arith, length-append q.pushed (x ∷ []))
  Move-grows mv = omega arith

  -- In every reachable state with fewer than 2^63 pushed tasks the invariant holds.
  pub Reach-Inv :
      {core_id : ℕ} {s : System A}
      → Reach core_id s
      → length s.queue.pushed < 2 ^ 63
      → Inv s.queue s.pc
  Reach-Inv {core_id} start small = new-Inv core_id
  Reach-Inv (later r (pick i mv)) small =
      Move-Inv (Reach-Inv r (omega (arith, Move-grows mv))) i mv small

  module _ {core_id : ℕ} {s : System A} (r : Reach core_id s)
      (small : length s.queue.pushed < 2 ^ 63) where
    open (Reach-Inv r small) use {unique, fresh, counted, ordered, room}

    owned_window :
        (p : Pc A) (t : ℕ)
        → IsFresh s.queue p
        → ticket p ≡ some t
        → (t < s.queue.tail) × (s.queue.tail ≤ t + 64)
    owned_window (push_owned x n) t f e = ground arith
    owned_window (push_written n) t f e = ground arith
    owned_window (pop_owned n) t f e = ground (arith, ordered)
    owned_window (pop_read n x) t f e = ground (arith, ordered)
    owned_window p t f e = ground arith

    -- While fewer than 2^63 tasks have been pushed, two threads never own one slot, in any reachable
    -- state: of the threads between a successful compare-exchange and the
    -- store of the sequence, at most one has a position with a given slot, whether it pushes or pops.
    pub slot_ownership :
        (i j t u : ℕ)
        → ticket (s.pc i) ≡ some t
        → ticket (s.pc j) ≡ some u
        → t % queue_capacity ≡ u % queue_capacity
        → i ≡ j
    slot_ownership i j t u ti uj same =
        let (a, b) = owned_window (s.pc i) t (fresh i) ti in
        let (c, d) = owned_window (s.pc j) u (fresh j) uj in
        let e : u ≡ t = omega (arith, same, a, b, c, d) in unique i j t ti (rw e at uj)

    -- While fewer than 2^63 tasks have been pushed, tasks come out in the order in which they went in, in
    -- any reachable state: a thread that has won position `h` finds an
    -- initialised value in its slot, the `h`-th of the pushed tasks, and one that has read a value at
    -- position `h` has read that task.
    pub pop_order :
        (i h : ℕ)
        → (s.pc i ≡ pop_owned h
            → (x : A) × (s.queue.value (h % queue_capacity) ≡ some x)
              × (get_elem? s.queue.pushed h ≡ some x))
          × ((x : A) → s.pc i ≡ pop_read h x → get_elem? s.queue.pushed h ≡ some x)
    pop_order i h = (owned, read)
      where
        owned :
            s.pc i ≡ pop_owned h
            → (x : A) × (s.queue.value (h % queue_capacity) ≡ some x)
              × (get_elem? s.queue.pushed h ≡ some x)
        owned e =
            let f : IsFresh s.queue (pop_owned h) = rw e at (fresh i) in
            let (x, found) =
              get_elem?-present s.queue.pushed h (omega (arith, f, ordered, counted)) in
            (x, f.3 ∙ found, found)

        read : (x : A) → s.pc i ≡ pop_read h x → get_elem? s.queue.pushed h ≡ some x
        read x e = let f : IsFresh s.queue (pop_read h x) = rw e at (fresh i) in f.3

    -- While fewer than 2^63 tasks have been pushed, the queue holds at most 64 tasks: `head` does not pass `tail`, which does not pass
    -- `head` by more than 64, and `tail` is the number of tasks pushed.
    pub queue_bounds :
        (s.queue.head ≤ s.queue.tail)
        × (s.queue.tail ≤ s.queue.head + queue_capacity)
        × (s.queue.tail ≡ length s.queue.pushed)
    queue_bounds = (ordered, room, sym counted)
