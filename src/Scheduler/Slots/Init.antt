-- ===== src/Scheduler/Slots/Init.antt =====
-- The way of a task through `run_graph` (k3_aiScheduler/src/scheduler.rs) into the queue of its core,
-- and back out in `take_task_for_core`.
use k3x_hera_rt.Common.{
  ℕ, ◌≤◌, ◌<◌, ◌≡◌, refl, ◌∙◌, Bool, none, some, List, [], ◌∷◌, ◌++◌, ◌==◌, if◌then◌else◌,
  get_elem?, set, length, ok, err, ==_self, lt→ltb, get_elem?-ge,
}
use k3x_hera_rt.Uabi.Error.{SchedulerErr}
use k3x_hera_rt.Scheduler.Queue.{PerCoreTaskQueue, queue_capacity}
use k3x_hera_rt.Scheduler.Queue
use k3x_hera_rt.Scheduler.Queue.Represents.{Represents, Exchanges, new-Represents}
use k3x_hera_rt.Scheduler.Queue.Fifo.{push_list, push_refines, pop_list, pop_refines}
use k3x_hera_rt.Scheduler.Slots.{
  GraphScheduler, SchedulerSlot, HostCall, scheduler_uninit, scheduler_ready, new_with_core,
  push_rounds, push_task_for_core, take_task_for_core, try_claim, after_ready, init_slot, run_graph,
}

queue_core {ℓ} : (A : Type ℓ) (core_id : ℕ) → (Queue.new {A = A} core_id).core_id ≡ core_id
unfolding Queue.new
queue_core A core_id = refl

module _ {ℓ} {A : Type ℓ} where
  -- A slot of core `core_id` in which the tasks `xs` wait, oldest first.
  pub data Holds (core_id : ℕ) : SchedulerSlot A → List A → Type ℓ where
    idle : Holds core_id (record { init_state = scheduler_uninit; scheduler = none }) []
    serving :
        (q : PerCoreTaskQueue A) (start : ℕ) (xs : List A)
        → q.core_id ≡ core_id
        → Represents q start xs
        → Holds core_id
            (record {
              init_state = scheduler_ready;
              scheduler = some (record { core_id = core_id; ready_queue = q });
            })
            xs

  -- The first call on a core starts its worker.
  abbrev pub started_calls : ℕ → SchedulerSlot A → List HostCall
  started_calls core_id slot =
      if slot.init_state == scheduler_uninit then HostCall.spawn_thread_on_core core_id ∷ [] else []

  module _ (core_id : ℕ) (task : A) (outcomes : List Bool) (rounds : List (List Bool))
      (exchanges : Exchanges outcomes) where
    push_lem :
        (q : PerCoreTaskQueue A) (start : ℕ) (xs : List A)
        → q.core_id ≡ core_id
        → Represents q start xs
        → length xs < queue_capacity
        → (q' : PerCoreTaskQueue A) × (push_task_for_core
              (record { core_id = core_id; ready_queue = q })
              core_id
              task
              (outcomes ∷ rounds)
            ≡ some (record { core_id = core_id; ready_queue = q' }, ok tt))
          × (q'.core_id ≡ core_id)
          × Represents q' start (xs ++ (task ∷ []))
    unfolding push_task_for_core push_rounds
    push_lem q start xs same r room =
        let accepted : push_list q.core_id xs core_id (some task)
            ≡ (xs ++ (task ∷ []), none, ok tt) =
          rw same (rw (==_self core_id) (rw (lt→ltb (length xs) queue_capacity room) refl)) in
        let (q', eq, kept, r') = push_refines q start xs r core_id (some task) outcomes exchanges in
        (
          q',
          rw (==_self core_id, push_task_for_core)
              (rw (eq, push_rounds) (rw (accepted, push_rounds) refl)),
          kept ∙ same,
          rw accepted at r',
        )

    -- `run_graph` on a core whose slot holds fewer than 64 tasks puts the task behind them, where one
    -- compare-exchange of the push does not fail for no reason: the call returns, the worker is
    -- started if it was the core's first task and woken in any case, and the other slots stay.
    pub run_graph_enqueues :
        (slots : List (SchedulerSlot A)) (slot : SchedulerSlot A) (xs : List A)
        → get_elem? slots core_id ≡ some slot
        → Holds core_id slot xs
        → length xs < queue_capacity
        → (slot' : SchedulerSlot A) × (run_graph slots core_id task (outcomes ∷ rounds)
            ≡ some (
              set slots core_id slot',
              started_calls core_id slot ++ (HostCall.notify_one core_id ∷ []),
              ok tt,
            ))
          × Holds core_id slot' (xs ++ (task ∷ []))
    unfolding run_graph init_slot try_claim after_ready new_with_core
    run_graph_enqueues slots _ _ found idle room =
        let (q, eq, same, r) =
          push_lem (Queue.new core_id) 0 [] (queue_core A core_id) (new-Represents core_id) room in
        (
          record {
            init_state = scheduler_ready;
            scheduler = some (record { core_id = core_id; ready_queue = q });
          },
          rw (found, run_graph) (rw (eq, run_graph) refl),
          serving q 0 (task ∷ []) same r,
        )
    run_graph_enqueues slots _ _ found (serving q start xs same r) room =
        let (q', eq, same', r') = push_lem q start xs same r room in
        (
          record {
            init_state = scheduler_ready;
            scheduler = some (record { core_id = core_id; ready_queue = q' });
          },
          rw (found, run_graph) (rw (eq, run_graph) refl),
          serving q' start (xs ++ (task ∷ [])) same' r',
        )

  -- On a core without a slot, `run_graph` answers `InvalidGraph` and changes nothing.
  pub run_graph-no_slot :
      (slots : List (SchedulerSlot A)) (core_id : ℕ) (task : A) (rounds : List (List Bool))
      → length slots ≤ core_id
      → run_graph slots core_id task rounds ≡ some (slots, [], err SchedulerErr.invalid_graph)
  unfolding run_graph
  run_graph-no_slot slots core_id task rounds h = rw (get_elem?-ge slots core_id h, run_graph) refl

  -- A take on a core whose queue holds tasks gives the oldest, where one compare-exchange of the call
  -- does not fail for no reason.
  pub take_task_takes_oldest :
      (s : GraphScheduler A) (start : ℕ) (task : A) (xs : List A) (outcomes : List Bool)
      → s.ready_queue.core_id ≡ s.core_id
      → Represents s.ready_queue start (task ∷ xs)
      → Exchanges outcomes
      → (s' : GraphScheduler A) × (start' : ℕ) × (take_task_for_core s s.core_id outcomes
          ≡ some (s', some task))
        × (s'.core_id ≡ s.core_id)
        × (s'.ready_queue.core_id ≡ s.core_id)
        × Represents s'.ready_queue start' xs
  unfolding take_task_for_core
  take_task_takes_oldest s start task xs outcomes same r exchanges =
      let taken : pop_list s.ready_queue.core_id (task ∷ xs) s.core_id ≡ (xs, ok (some task)) =
        rw same (rw (==_self s.core_id) refl) in
      let (q, start', eq, kept, r') =
        pop_refines s.ready_queue start (task ∷ xs) r s.core_id outcomes exchanges in
      (
        record s { ready_queue = q },
        start',
        rw (eq, take_task_for_core) (rw (taken, take_task_for_core) refl),
        refl,
        kept ∙ same,
        rw taken at r',
      )

  -- A take on a core whose queue is empty gives nothing, and changes nothing that counts.
  pub take_task_on_empty :
      (s : GraphScheduler A) (start : ℕ) (outcomes : List Bool)
      → s.ready_queue.core_id ≡ s.core_id
      → Represents s.ready_queue start []
      → Exchanges outcomes
      → (s' : GraphScheduler A) × (start' : ℕ) × (take_task_for_core s s.core_id outcomes
          ≡ some (s', none))
        × (s'.core_id ≡ s.core_id)
        × (s'.ready_queue.core_id ≡ s.core_id)
        × Represents s'.ready_queue start' []
  unfolding take_task_for_core
  take_task_on_empty s start outcomes same r exchanges =
      let taken : pop_list {A = A} s.ready_queue.core_id [] s.core_id ≡ ([], ok none) =
        rw same (rw (==_self s.core_id) refl) in
      let (q, start', eq, kept, r') =
        pop_refines s.ready_queue start [] r s.core_id outcomes exchanges in
      (
        record s { ready_queue = q },
        start',
        rw (eq, take_task_for_core) (rw (taken, take_task_for_core) refl),
        refl,
        kept ∙ same,
        rw taken at r',
      )
