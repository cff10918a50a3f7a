-- ===== src/Tests/Queues.antt =====
-- A ready queue of core 3.
use k3x_hera_rt.Common.{ℕ, ◌≡◌, true, false, none, some, List, [], ◌∷◌, ok}
use k3x_hera_rt.Scheduler.Queue.{PerCoreTaskQueue, new, try_push, try_pop}
use k3x_hera_rt.Scheduler.Queue.Represents.{Represents, new-Represents}
use k3x_hera_rt.Scheduler.Queue.Fifo.{
  Call, push, pop, len, run, run_list, push_refines, pop_refines, new_queue_is_fifo,
}

abbrev calls : List (Call ℕ)
calls =
    push 3 (some 70) (true ∷ [])
    ∷ push 3 (some 71) (false ∷ true ∷ [])
    ∷ push 4 (some 72) (true ∷ [])
    ∷ len
    ∷ pop 3 (false ∷ false ∷ true ∷ [])
    ∷ pop 3 (true ∷ [])
    ∷ pop 3 (true ∷ [])
    ∷ []

new_queue_is_fifo_example : run (new 3) calls ≡ some (run_list 3 [] calls)
new_queue_is_fifo_example = new_queue_is_fifo 3 calls (tt, (tt, (tt, (tt, (tt, (tt, tt))))))

push_refines_example :
    (q' : PerCoreTaskQueue ℕ) × (try_push (new 3) 3 (some 70) (false ∷ true ∷ [])
      ≡ some (q', none, ok tt))
    × (q'.core_id ≡ 3)
    × Represents q' 0 (70 ∷ [])
unfolding new
push_refines_example =
    push_refines (new 3) 0 [] (new-Represents 3) 3 (some 70) (false ∷ true ∷ []) tt

pop_refines_example :
    (q' : PerCoreTaskQueue ℕ) × (start' : ℕ) × (try_pop (new 3) 3 (true ∷ []) ≡ some (q', ok none))
    × (q'.core_id ≡ 3)
    × Represents q' start' []
unfolding new
pop_refines_example = pop_refines (new 3) 0 [] (new-Represents 3) 3 (true ∷ []) tt
