-- ===== src/Scheduler/Threads/Progress.antt =====
-- A thread that runs alone on a `PerCoreTaskQueue` (k3_aiScheduler/src/scheduler.rs), from any state
-- that the threads can come to, finishes its `try_push` or `try_pop`.
use k3x_hera_rt.Common.{
  ℕ, ◌+◌, ◌%◌, ◌^◌, ◌<◌, ◌≡◌, ◌≢◌, ◌⊎◌, refl, ◌∙◌, inl, inr, true, some, [], ◌∷◌, ◌++◌, length,
  get_elem?, get_elem?-present, ℕ_discrete, dec_lt, arith,
}
use k3x_hera_rt.Scheduler.Queue.{queue_capacity, is_negative, wrapping_add}
use k3x_hera_rt.Scheduler.Threads.{
  Ring, Pc, idle, push_start, pop_start, Move, load_tail, push_free, push_full, push_win,
  push_write, push_publish, load_head, pop_full, pop_empty, pop_win, pop_take, pop_release, System,
  Reach, delta,
}
use k3x_hera_rt.Scheduler.Threads.Invariant.{seq_at, Holder, Inv}
use k3x_hera_rt.Scheduler.Threads.Safety.{Reach-Inv}

module _ {A : Type 0} where
  -- Moves of one thread, with none of another in between.
  pub data Alone (q : Ring A) (p : Pc A) : Ring A → Pc A → Type 0 where
    stay : Alone q p q p
    also : {r r' : Ring A} {n n' : Pc A} → Alone q p r n → Move r n r' n' → Alone q p r' n'

  module _ {q : Ring A} {pc : ℕ → Pc A} (inv : Inv q pc) where
    open inv use {few, counted, ordered, room, range, cells, published}

    room_free : seq_at q q.tail ≡ q.tail → delta q q.tail q.tail ≡ 0
    room_free e = ground arith

    room_taken :
        seq_at q q.tail ≢ q.tail
        → (delta q q.tail q.tail ≢ 0) × (is_negative (delta q q.tail q.tail) ≡ true)
    room_taken ne = ground (arith, cells q.tail)

    -- Why there is no room: 64 tasks, or a thread that has not finished with the slot.
    full_reason : seq_at q q.tail ≢ q.tail → (q.tail ≡ q.head + 64) ⊎ Holder pc q.tail
    full_reason ne = elim (cells q.tail (omega arith) (omega arith)) [
      | inl free ↦ absurd (ne free.0)
      | inr (inl reserved) ↦ inr (inv.covered q.tail (omega arith) (omega arith) (inl reserved.0))
      | inr (inr published) ↦ elim (dec_lt q.tail (q.head + 64)) [
        | yes taken ↦ inr (inv.covered q.tail (omega arith) (omega arith) (inr (published, taken)))
        | no apart ↦ inl (omega (arith, apart, room))
      ]
    ]

    -- Why there is nothing to take: no task, or a thread that has not published the first one.
    empty_reason : seq_at q q.head ≢ q.head + 1 → (q.head ≡ q.tail) ⊎ Holder pc (q.head + 64)
    empty_reason ne = elim (ℕ_discrete q.head q.tail) [
      | yes e ↦ inl e
      | no apart ↦
          let reserved : seq_at q (q.head + 64) + 64 ≡ q.head + 64 =
            ground (arith, ordered, room, cells (q.head + 64)) in
          inr (inv.covered (q.head + 64) room (omega (arith, ordered, apart)) (inl reserved))
    ]

    -- What stands at the head: a task that can be taken.
    task_there :
        seq_at q q.head ≡ q.head + 1
        → (delta q q.head (wrapping_add q.head 1) ≡ 0)
          × ((x : A) × (get_elem? q.pushed q.head ≡ some x) × (q.value (q.head % 64) ≡ some x))
    task_there e =
        let below : q.head < q.tail = ground (arith, ordered, cells q.tail) in
        let (x, found) = get_elem?-present q.pushed q.head (omega (arith, below, counted)) in
        (ground (arith, few), (x, found, published q.head (omega arith) below e ∙ found))

    task_missing :
        seq_at q q.head ≢ q.head + 1
        → (delta q q.head (wrapping_add q.head 1) ≢ 0)
          × (is_negative (delta q q.head (wrapping_add q.head 1)) ≡ true)
    task_missing ne = ground (arith, few, ordered, room, cells q.tail, cells (q.head + 64))

    -- From the top of the loop, a push or a pop returns.
    push-Alone :
        (x : A)
        → (q' : Ring A) × Alone q (push_start x) q' idle
          × (((q'.pushed ≡ q.pushed ++ (x ∷ [])) × (q'.tail ≡ q.tail + 1))
              ⊎ ((q' ≡ q) × ((q.tail ≡ q.head + 64) ⊎ Holder pc q.tail)))
    push-Alone x = elim (ℕ_discrete (seq_at q q.tail) q.tail) [
      | yes e ↦ (
        _,
        also
            (also (also (also (also stay load_tail) (push_free (room_free e))) (push_win refl))
              push_write)
            push_publish,
        inl (refl, omega (arith, few)),
      )
      | no ne ↦
          let (differs, negative) = room_taken ne in
          (q, also (also stay load_tail) (push_full differs negative), inr (refl, full_reason ne))
    ]

    pop-Alone :
        (q' : Ring A) × Alone q pop_start q' idle
        × (((x : A) × (get_elem? q.pushed q.head ≡ some x) × (q'.head ≡ q.head + 1))
            ⊎ ((q' ≡ q) × ((q.head ≡ q.tail) ⊎ Holder pc (q.head + 64))))
    pop-Alone = elim (ℕ_discrete (seq_at q q.head) (q.head + 1)) [
      | yes e ↦
          let (same, (x, found, stored)) = task_there e in
          (
            _,
            also
                (also (also (also (also stay load_head) (pop_full same)) (pop_win refl))
                  (pop_take stored))
                pop_release,
            inl (x, found, omega (arith, few, ordered)),
          )
      | no ne ↦
          let (differs, negative) = task_missing ne in
          (q, also (also stay load_head) (pop_empty differs negative), inr (refl, empty_reason ne))
    ]

module _ {A : Type 0} {core_id : ℕ} {s : System A} (r : Reach core_id s)
    (small : length s.queue.pushed < 2 ^ 63) (i : ℕ) where
  -- A push never waits for another thread: from the top of its loop in any reachable state, where
  -- fewer than 2^63 tasks have been pushed, it can return by moves of its thread alone. Then either its
  -- task is the last one pushed, or the queue is as before and there is a reason: it holds 64 tasks, or
  -- a thread between its compare-exchange and its store of the sequence owns the next slot.
  pub push_completes :
      (x : A)
      → s.pc i ≡ push_start x
      → (q' : Ring A) × Alone s.queue (s.pc i) q' idle
        × (((q'.pushed ≡ s.queue.pushed ++ (x ∷ [])) × (q'.tail ≡ s.queue.tail + 1))
            ⊎ ((q' ≡ s.queue)
                × ((s.queue.tail ≡ s.queue.head + queue_capacity) ⊎ Holder s.pc s.queue.tail)))
  push_completes x e = rw e (push-Alone (Reach-Inv r small) x)

  -- A pop never waits for another thread: from the top of its loop in any reachable state, where fewer
  -- than 2^63 tasks have been pushed, it can return by moves of its thread alone. Then either it has
  -- taken the oldest task and advanced `head`, or the queue is as before and there is a reason: it holds
  -- no task, or a thread between its compare-exchange and its store of the sequence owns the slot of
  -- the oldest one.
  pub pop_completes :
      s.pc i ≡ pop_start
      → (q' : Ring A) × Alone s.queue (s.pc i) q' idle
        × (((x : A) × (get_elem? s.queue.pushed s.queue.head ≡ some x)
              × (q'.head ≡ s.queue.head + 1))
            ⊎ ((q' ≡ s.queue)
                × ((s.queue.head ≡ s.queue.tail) ⊎ Holder s.pc (s.queue.head + queue_capacity))))
  pop_completes e = rw e (pop-Alone (Reach-Inv r small))
