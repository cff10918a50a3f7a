-- ===== src/Tests/Slots.antt =====
-- The first task of core 3, and the worker that takes it.
use k3x_hera_rt.Scheduler.Slots.Order.{Action, submit, take_one, run_actions, tasks_in_order}
use k3x_hera_rt.Common.{
  List, none, false, get_elem?, ℕ, ◌≡◌, refl, true, some, [], ◌∷◌, set, ok, err, arith,
}
use k3x_hera_rt.Uabi.Error.{SchedulerErr}
use k3x_hera_rt.Scheduler.Slots.{SchedulerSlot, HostCall, new_slot, scheduler_slots, run_graph}
use k3x_hera_rt.Scheduler.Slots.Init.{Holds, idle, run_graph_enqueues, run_graph-no_slot}

run_graph_enqueues_example :
    (slot' : SchedulerSlot ℕ) × (run_graph scheduler_slots 3 70 ((true ∷ []) ∷ [])
      ≡ some (
        set scheduler_slots 3 slot',
        HostCall.spawn_thread_on_core 3 ∷ HostCall.notify_one 3 ∷ [],
        ok tt,
      ))
    × Holds 3 slot' (70 ∷ [])
run_graph_enqueues_example =
    run_graph_enqueues 3 70 (true ∷ []) [] tt scheduler_slots new_slot [] refl idle (omega arith)

run_graph-no_slot_example :
    run_graph {A = ℕ} scheduler_slots 99 70 ((true ∷ []) ∷ [])
    ≡ some (scheduler_slots, [], err SchedulerErr.invalid_graph)
run_graph-no_slot_example = run_graph-no_slot scheduler_slots 99 70 ((true ∷ []) ∷ []) (omega arith)

-- Two tasks are submitted, one is taken, a third is submitted, and the worker takes three times more.
abbrev actions : List (Action ℕ)
actions =
    submit 70 (true ∷ [])
    ∷ submit 71 (false ∷ true ∷ [])
    ∷ take_one (true ∷ [])
    ∷ submit 72 (true ∷ [])
    ∷ take_one (true ∷ [])
    ∷ take_one (true ∷ [])
    ∷ take_one (true ∷ [])
    ∷ []

tasks_in_order_example :
    (slots' : List (SchedulerSlot ℕ)) × (run_actions 3 scheduler_slots actions
      ≡ some (slots', some 70 ∷ some 71 ∷ some 72 ∷ none ∷ []))
    × ((slot' : SchedulerSlot ℕ) × (get_elem? slots' 3 ≡ some slot') × Holds 3 slot' [])
tasks_in_order_example =
    tasks_in_order 3 actions scheduler_slots new_slot [] refl idle
      (omega arith, tt, (omega arith, tt, (tt, (omega arith, tt, (tt, (tt, (tt, tt)))))))
