-- ===== src/Scheduler/Slots/Order.antt =====
-- Tasks that are submitted to a core by `run_graph` and taken by its worker with `take_task_for_core`
-- (k3_aiScheduler/src/scheduler.rs), in any order of the calls.
use k3x_hera_rt.Common.{
  ℕ, zero, suc, ◌<◌, ◌≡◌, refl, sym, ap, Bool, Option, none, some, List, [], ◌∷◌, ◌++◌, get_elem?,
  set, length, ok, err,
}
use mathlib.Core.Path.{subst}
use k3x_hera_rt.Scheduler.Queue.{queue_capacity}
use k3x_hera_rt.Scheduler.Queue.Represents.{Represents, Exchanges}
use k3x_hera_rt.Scheduler.Slots.{
  GraphScheduler, SchedulerSlot, scheduler_ready, take_task_for_core, run_graph,
}
use k3x_hera_rt.Scheduler.Slots.Init.{
  Holds, idle, serving, run_graph_enqueues, take_task_takes_oldest, take_task_on_empty,
}

get_elem?-set_self {ℓ} :
    {A : Type ℓ} (xs : List A) (i : ℕ) (v : A) {x : A}
    → get_elem? xs i ≡ some x
    → get_elem? (set xs i v) i ≡ some v
get_elem?-set_self [] i v h = cc
get_elem?-set_self (x ∷ xs) zero v h = refl
get_elem?-set_self (x ∷ xs) (suc i) v h = get_elem?-set_self xs i v h

-- A call of `run_graph` with a task, or of `take_task` by the worker, with the outcomes of the
-- compare-exchanges of the call.
pub data Action {ℓ} (A : Type ℓ) : Type ℓ where
  submit : (task : A) (outcomes : List Bool) → Action A
  take_one : (outcomes : List Bool) → Action A

module _ {ℓ} {A : Type ℓ} (core_id : ℕ) where
  -- One call, and what a take has taken. A submission that fails or does not return ends the run. A
  -- core without a scheduler has no worker yet, which would take nothing.
  unfoldable act :
      List (SchedulerSlot A) → Action A → Option (List (SchedulerSlot A) × List (Option A))
  act slots (submit task outcomes) = elim (run_graph slots core_id task (outcomes ∷ [])) [
    | none ↦ none
    | some (_, _, err _) ↦ none
    | some (slots', _, ok _) ↦ some (slots', [])
  ]
  act slots (take_one outcomes) = elim (get_elem? slots core_id) [
    | none ↦ none
    | some slot ↦ elim slot.scheduler [
      | none ↦ some (slots, none ∷ [])
      | some s ↦ elim (take_task_for_core s s.core_id outcomes) [
        | none ↦ none
        | some (s', task) ↦
            some (set slots core_id (record slot { scheduler = some s' }), task ∷ [])
      ]
    ]
  ]

  unfoldable pub run_actions :
      List (SchedulerSlot A) → List (Action A) → Option (List (SchedulerSlot A) × List (Option A))
  unfolding act
  run_actions slots [] = some (slots, [])
  run_actions slots (action ∷ actions) = elim (act slots action) [
    | none ↦ none
    | some (slots', taken) ↦ elim (run_actions slots' actions) [
      | none ↦ none
      | some (slots'', later) ↦ some (slots'', taken ++ later)
    ]
  ]

-- What the takes give, and what is left, if the oldest waiting task is always taken first.
abbrev pub oldest_first {ℓ} : {A : Type ℓ} → List A → List (Action A) → List (Option A) × List A
oldest_first xs [] = ([], xs)
oldest_first xs (submit task _ ∷ actions) = oldest_first (xs ++ (task ∷ [])) actions
oldest_first [] (take_one _ ∷ actions) = let r = oldest_first [] actions in (none ∷ r.0, r.1)
oldest_first (x ∷ xs) (take_one _ ∷ actions) =
    let r = oldest_first xs actions in (some x ∷ r.0, r.1)

-- Fewer than 64 tasks wait at each submission, and one compare-exchange of each call does not fail for
-- no reason.
abbrev pub HasRoom {ℓ} : {A : Type ℓ} → List A → List (Action A) → Type 0
HasRoom xs [] = Unit {0}
HasRoom xs (submit task outcomes ∷ actions) =
    (length xs < queue_capacity) × Exchanges outcomes × HasRoom (xs ++ (task ∷ [])) actions
HasRoom [] (take_one outcomes ∷ actions) = Exchanges outcomes × HasRoom [] actions
HasRoom (x ∷ xs) (take_one outcomes ∷ actions) = Exchanges outcomes × HasRoom xs actions

module _ {ℓ} {A : Type ℓ} (core_id : ℕ) where
  -- What a call has done: its reply, and the tasks that wait then.
  abbrev Acted : List (SchedulerSlot A) → Action A → List (Option A) → List A → Type ℓ
  Acted slots action taken left =
      (slots' : List (SchedulerSlot A)) × (act core_id slots action ≡ some (slots', taken))
      × ((slot' : SchedulerSlot A) × (get_elem? slots' core_id ≡ some slot')
          × Holds core_id slot' left)

  serving_scheduler :
      (s : GraphScheduler A) (start : ℕ) (xs : List A)
      → s.core_id ≡ core_id
      → s.ready_queue.core_id ≡ core_id
      → Represents s.ready_queue start xs
      → Holds core_id (record { init_state = scheduler_ready; scheduler = some s }) xs
  serving_scheduler s start xs kept core r =
      subst
        (λ (t : GraphScheduler A).
          Holds core_id (record { init_state = scheduler_ready; scheduler = some t }) xs)
        (ap (λ (c : ℕ). record { core_id = c; ready_queue = s.ready_queue }) (sym kept))
        (serving s.ready_queue start xs core r)

  submit_lem :
      (slots : List (SchedulerSlot A)) (slot : SchedulerSlot A) (xs : List A) (task : A)
      (outcomes : List Bool)
      → get_elem? slots core_id ≡ some slot
      → Holds core_id slot xs
      → length xs < queue_capacity
      → Exchanges outcomes
      → Acted slots (submit task outcomes) [] (xs ++ (task ∷ []))
  unfolding act
  submit_lem slots slot xs task outcomes found holds room exchanges =
      let (slot', run, holds') =
        run_graph_enqueues core_id task outcomes [] exchanges slots slot xs found holds room in
      (
        set slots core_id slot',
        rw (run, act) refl,
        (slot', get_elem?-set_self slots core_id slot' found, holds'),
      )

  take_empty_lem :
      (slots : List (SchedulerSlot A)) (slot : SchedulerSlot A) (outcomes : List Bool)
      → get_elem? slots core_id ≡ some slot
      → Holds core_id slot []
      → Exchanges outcomes
      → Acted slots (take_one outcomes) (none ∷ []) []
  unfolding act
  take_empty_lem slots _ outcomes found idle exchanges =
      (slots, rw (found, act) refl, (_, found, idle))
  take_empty_lem slots _ outcomes found (serving q start _ same r) exchanges =
      let s : GraphScheduler A = record { core_id = core_id; ready_queue = q } in
      let (s', start', taken, kept, core, r') =
        take_task_on_empty s start outcomes same r exchanges in
      (
        set slots core_id (record { init_state = scheduler_ready; scheduler = some s' }),
        rw (found, act) (rw (taken, act) refl),
        (_, get_elem?-set_self slots core_id _ found, serving_scheduler s' start' [] kept core r'),
      )

  take_oldest_lem :
      (slots : List (SchedulerSlot A)) (slot : SchedulerSlot A) (x : A) (xs : List A)
      (outcomes : List Bool)
      → get_elem? slots core_id ≡ some slot
      → Holds core_id slot (x ∷ xs)
      → Exchanges outcomes
      → Acted slots (take_one outcomes) (some x ∷ []) xs
  unfolding act
  take_oldest_lem slots _ x xs outcomes found (serving q start _ same r) exchanges =
      let s : GraphScheduler A = record { core_id = core_id; ready_queue = q } in
      let (s', start', taken, kept, core, r') =
        take_task_takes_oldest s start x xs outcomes same r exchanges in
      (
        set slots core_id (record { init_state = scheduler_ready; scheduler = some s' }),
        rw (found, act) (rw (taken, act) refl),
        (_, get_elem?-set_self slots core_id _ found, serving_scheduler s' start' xs kept core r'),
      )

  -- Tasks come out in the order in which they went in. The core has a slot, which no call has
  -- initialised yet or in which some tasks wait. Then, whatever the order of the submissions to the
  -- core and of the takes of its worker, one call after the other, every call returns, each take gives
  -- the oldest task that waits or nothing if none does, and the slot holds the tasks that are left. At
  -- each submission fewer than 64 tasks wait, and in each call one compare-exchange does not fail for
  -- no reason.
  pub tasks_in_order :
      (actions : List (Action A)) (slots : List (SchedulerSlot A)) (slot : SchedulerSlot A)
      (xs : List A)
      → get_elem? slots core_id ≡ some slot
      → Holds core_id slot xs
      → HasRoom xs actions
      → (slots' : List (SchedulerSlot A)) × (run_actions core_id slots actions
          ≡ some (slots', (oldest_first xs actions).0))
        × ((slot' : SchedulerSlot A) × (get_elem? slots' core_id ≡ some slot')
            × Holds core_id slot' (oldest_first xs actions).1)
  unfolding run_actions
  tasks_in_order [] slots slot xs found holds room = (slots, refl, (slot, found, holds))
  tasks_in_order (submit task outcomes ∷ actions) slots slot xs found holds room =
      let (slots', done, (slot', found', holds')) =
        submit_lem slots slot xs task outcomes found holds room.0 room.1 in
      let (slots'', run, left) =
        tasks_in_order actions slots' slot' (xs ++ (task ∷ [])) found' holds' room.2 in
      (slots'', rw (done, run_actions) (rw (run, run_actions) refl), left)
  tasks_in_order (take_one outcomes ∷ actions) slots slot [] found holds room =
      let (slots', done, (slot', found', holds')) =
        take_empty_lem slots slot outcomes found holds room.0 in
      let (slots'', run, left) = tasks_in_order actions slots' slot' [] found' holds' room.1 in
      (slots'', rw (done, run_actions) (rw (run, run_actions) refl), left)
  tasks_in_order (take_one outcomes ∷ actions) slots slot (x ∷ xs) found holds room =
      let (slots', done, (slot', found', holds')) =
        take_oldest_lem slots slot x xs outcomes found holds room.0 in
      let (slots'', run, left) = tasks_in_order actions slots' slot' xs found' holds' room.1 in
      (slots'', rw (done, run_actions) (rw (run, run_actions) refl), left)
