-- ===== src/Tests/Threads.antt =====
-- The threads of a ready queue at concrete schedules.
use k3x_hera_rt.Common.{
  ℕ, ◌+◌, ◌≤◌, ◌≡◌, ◌⊎◌, refl, some, [], ◌∷◌, length, get_elem?, ℕ_discrete, arith,
}
use k3x_hera_rt.Scheduler.Threads.{
  Ring, Pc, idle, pop_owned, pop_read, Move, call_push, load_tail, push_free, push_win, push_write,
  push_publish, call_pop, load_head, pop_full, pop_win, System, pick, init, Reach, start, later,
  new,
}
use k3x_hera_rt.Scheduler.Threads.Invariant.{Holder}
use k3x_hera_rt.Scheduler.Threads.Safety.{slot_ownership, pop_order, queue_bounds}
use k3x_hera_rt.Scheduler.Threads.Progress.{Alone, push_completes, pop_completes}

record Run : Type 0 where
  last : System ℕ
  reach : Reach 4 last

abbrev fresh_run : Run
unfolding new
fresh_run = record { last = init 4; reach = start }

abbrev then_move :
    (r : Run) (i : ℕ) {q : Ring ℕ} {p : Pc ℕ} → Move r.last.queue (r.last.pc i) q p → Run
then_move r i mv = record { last = _; reach = later r.reach (pick i mv) }

-- Thread 0 is about to push 7, and thread 1 to pop.
abbrev both : Run
unfolding new ℕ_discrete
both = then_move (then_move fresh_run 0 (call_push {x = 7} refl)) 1 (call_pop refl)

-- Thread 0 has won position 0.
abbrev won : Run
unfolding new ℕ_discrete
won = then_move (then_move (then_move both 0 load_tail) 0 (push_free refl)) 0 (push_win refl)

-- The task is published, and thread 1 has won it.
abbrev taken : Run
unfolding new ℕ_discrete
taken =
    then_move
      (then_move (then_move (then_move (then_move won 0 push_write) 0 push_publish) 1 load_head) 1
        (pop_full refl))
      1 (pop_win refl)

slot_ownership_example : ◌≡◌ {A = ℕ} 0 0
unfolding new ℕ_discrete
slot_ownership_example = slot_ownership won.reach (omega arith) 0 0 0 0 refl refl refl

pop_order_example :
    (taken.last.pc 1 ≡ pop_owned 0
      → (x : ℕ) × (taken.last.queue.value 0 ≡ some x)
        × (get_elem? taken.last.queue.pushed 0 ≡ some x))
    × ((x : ℕ) → taken.last.pc 1 ≡ pop_read 0 x → get_elem? taken.last.queue.pushed 0 ≡ some x)
unfolding new ℕ_discrete
pop_order_example = pop_order taken.reach (omega arith) 1 0

queue_bounds_example :
    (taken.last.queue.head ≤ taken.last.queue.tail)
    × (taken.last.queue.tail ≤ taken.last.queue.head + 64)
    × (taken.last.queue.tail ≡ length taken.last.queue.pushed)
unfolding new ℕ_discrete
queue_bounds_example = queue_bounds taken.reach (omega arith)

push_completes_example :
    (q' : Ring ℕ) × Alone both.last.queue (both.last.pc 0) q' idle
    × (((q'.pushed ≡ 7 ∷ []) × (q'.tail ≡ 1))
        ⊎ ((q' ≡ both.last.queue) × ((◌≡◌ {A = ℕ} 0 64) ⊎ Holder both.last.pc 0)))
unfolding new ℕ_discrete
push_completes_example = push_completes both.reach (omega arith) 0 7 refl

pop_completes_example :
    (q' : Ring ℕ) × Alone both.last.queue (both.last.pc 1) q' idle
    × (((x : ℕ) × (get_elem? {A = ℕ} [] 0 ≡ some x) × (q'.head ≡ 1))
        ⊎ ((q' ≡ both.last.queue) × ((◌≡◌ {A = ℕ} 0 0) ⊎ Holder both.last.pc 64)))
unfolding new ℕ_discrete
pop_completes_example = pop_completes both.reach (omega arith) 1 refl
