-- ===== src/Scheduler/Slots.antt =====
-- k3_aiScheduler/src/scheduler.rs: `GraphScheduler`, the slots of the cores and `run_graph`. What the
-- host does (`current_core_id`, `new_wait_queue`, `spawn_thread_on_core`, `notify_one`) is its own: the
-- core id is an argument, and the calls that have an effect are listed in the result. The states of a
-- slot that other threads may bring about while a loop spins are a list of what its loads read.
pub mod Init
pub mod Order
use k3x_hera_rt.Common.{
  ℕ, Bool, true, false, not, Option, none, some, List, [], ◌∷◌, ◌++◌, ◌==◌, if◌then◌else◌,
  get_elem?, set, replicate, Result, ok, err,
}
use k3x_hera_rt.Uabi.Error.{SchedulerErr}
use k3x_hera_rt.Scheduler.Queue.{PerCoreTaskQueue, QueuePushError, try_push, try_pop}
use k3x_hera_rt.Scheduler.Queue

abbrev pub max_scheduler_cores : ℕ
max_scheduler_cores = 64

abbrev pub scheduler_uninit : ℕ
scheduler_uninit = 0

abbrev pub scheduler_initializing : ℕ
scheduler_initializing = 1

abbrev pub scheduler_ready : ℕ
scheduler_ready = 2

module _ {ℓ} (A : Type ℓ) where
  pub record GraphScheduler : Type ℓ where
    pub core_id : ℕ
    pub ready_queue : PerCoreTaskQueue A

  pub record SchedulerSlot : Type ℓ where
    pub init_state : ℕ
    pub scheduler : Option GraphScheduler

-- What the host is asked to do, for a core.
pub data HostCall : Type 0 where
  spawn_thread_on_core notify_one : (core_id : ℕ) → HostCall

module _ {ℓ} {A : Type ℓ} where
  -- `GraphScheduler::new_with_core`
  unfoldable pub new_with_core : ℕ → GraphScheduler A
  new_with_core core_id = record { core_id = core_id; ready_queue = Queue.new core_id }

  -- The loop of `push_task_for_core`: each round pushes once, with its own compare-exchanges. A full
  -- queue is tried again.
  unfoldable pub push_rounds :
      GraphScheduler A
      → ℕ
      → Option A
      → List (List Bool)
      → Option (GraphScheduler A × Result SchedulerErr (Unit {0}))
  push_rounds s expected task [] = none
  push_rounds s expected task (outcomes ∷ rounds) =
      elim (try_push s.ready_queue expected task outcomes) [
        | none ↦ none
        | some (q, task', ok _) ↦ some (record s { ready_queue = q }, ok tt)
        | some (q, task', err QueuePushError.full) ↦
            push_rounds (record s { ready_queue = q }) expected task' rounds
        | some (q, task', err _) ↦
            some (record s { ready_queue = q }, err SchedulerErr.invalid_graph)
      ]

  -- `GraphScheduler::push_task_for_core`, which `push_task` calls with its own core
  unfoldable pub push_task_for_core :
      GraphScheduler A
      → ℕ
      → A
      → List (List Bool)
      → Option (GraphScheduler A × Result SchedulerErr (Unit {0}))
  unfolding push_rounds
  push_task_for_core s expected task rounds =
      if not (expected == s.core_id)
      then some (s, err SchedulerErr.invalid_graph)
      else push_rounds s expected (some task) rounds

  -- `GraphScheduler::take_task_for_core`, which `take_task` calls with its own core
  unfoldable pub take_task_for_core :
      GraphScheduler A → ℕ → List Bool → Option (GraphScheduler A × Option A)
  take_task_for_core s expected outcomes = elim (try_pop s.ready_queue expected outcomes) [
    | none ↦ none
    | some (q, ok unit) ↦ some (record s { ready_queue = q }, unit)
    | some (q, err _) ↦ some (record s { ready_queue = q }, none)
  ]

  -- `SchedulerSlot::new` and `SCHEDULER_SLOTS`
  abbrev pub new_slot : SchedulerSlot A
  new_slot = record { init_state = scheduler_uninit; scheduler = none }

  abbrev pub scheduler_slots : List (SchedulerSlot A)
  scheduler_slots = replicate max_scheduler_cores new_slot

  -- `try_claim_scheduler_initialization`, on the slot that has the state
  unfoldable pub try_claim : SchedulerSlot A → SchedulerSlot A × Bool
  try_claim slot =
      if slot.init_state == scheduler_uninit
      then (record slot { init_state = scheduler_initializing }, true)
      else (slot, false)

  -- `scheduler_after_ready` on a slot that nobody else changes: `none` is a loop that spins for ever.
  unfoldable pub after_ready : SchedulerSlot A → Option (Result SchedulerErr (GraphScheduler A))
  after_ready slot =
      if slot.init_state == scheduler_ready
      then elim slot.scheduler [
        | none ↦ some (err SchedulerErr.invalid_graph)
        | some s ↦ some (ok s)
      ]
      else if slot.init_state == scheduler_initializing
      then none
      else some (err SchedulerErr.invalid_graph)

  -- `get_or_init_scheduler` once the slot is found: the slot, and the calls of the host.
  unfoldable pub init_slot : ℕ → SchedulerSlot A → SchedulerSlot A × List HostCall
  unfolding try_claim
  init_slot core_id slot =
      if (try_claim slot).1
      then (
        record { init_state = scheduler_ready; scheduler = some (new_with_core core_id) },
        HostCall.spawn_thread_on_core core_id ∷ [],
      )
      else ((try_claim slot).0, [])

  -- `run_graph` on core `core_id`: the slots, the calls of the host, and the result. `none` is a call
  -- that does not return.
  unfoldable pub run_graph :
      List (SchedulerSlot A)
      → ℕ
      → A
      → List (List Bool)
      → Option (List (SchedulerSlot A) × List HostCall × Result SchedulerErr (Unit {0}))
  unfolding init_slot after_ready push_task_for_core
  run_graph slots core_id task rounds = elim (get_elem? slots core_id) [
    | none ↦ some (slots, [], err SchedulerErr.invalid_graph)
    | some slot ↦
        let started = init_slot core_id slot in
        elim (after_ready started.0) [
          | none ↦ none
          | some (err e) ↦ some (set slots core_id started.0, started.1, err e)
          | some (ok s) ↦ elim (push_task_for_core s core_id task rounds) [
            | none ↦ none
            | some (s', err e) ↦
                some
                  (set slots core_id (record started.0 { scheduler = some s' }), started.1, err e)
            | some (s', ok _) ↦ some (
              set slots core_id (record started.0 { scheduler = some s' }),
              started.1 ++ (HostCall.notify_one core_id ∷ []),
              ok tt,
            )
          ]
        ]
  ]
