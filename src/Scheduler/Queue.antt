-- ===== src/Scheduler/Queue.antt =====
-- k3_aiScheduler/src/scheduler.rs: `PerCoreTaskQueue`, one call at a time. A counter is a `usize` with its
-- wrap-around; an uninitialised cell is `none`. The weak compare-exchange may fail although nobody
-- interferes: a call takes the list of its outcomes, and ends with `none` when the list does (it still
-- spins) or on a panic.
pub mod Represents
pub mod Push
pub mod Pop
pub mod Fifo
use k3x_hera_rt.Common.{
  ℕ, zero, suc, ◌+◌, ◌-◌, ◌%◌, ◌^◌, Bool, not, Option, none, some, List, [], ◌∷◌, ◌==◌, leb,
  if◌then◌else◌, get_elem?, set, min, Result, ok, err, usize_mod,
}

abbrev pub queue_capacity : ℕ
queue_capacity = 64

pub data QueuePushError : Type 0 where
  full core_mismatch missing_task : QueuePushError

pub data QueuePopError : Type 0 where
  core_mismatch : QueuePopError

abbrev pub wrapping_add : ℕ → ℕ → ℕ
wrapping_add a b = (a + b) % usize_mod

abbrev pub wrapping_sub : ℕ → ℕ → ℕ
wrapping_sub a b = (a + usize_mod - b) % usize_mod

-- `(x as isize) < 0`
abbrev pub is_negative : ℕ → Bool
is_negative x = leb (2 ^ 63) x

module _ {ℓ} (A : Type ℓ) where
  pub record QueueSlot : Type ℓ where
    pub sequence : ℕ
    pub value : Option A

  pub record PerCoreTaskQueue : Type ℓ where
    pub core_id : ℕ
    pub head : ℕ
    pub tail : ℕ
    pub slots : List QueueSlot

module _ {ℓ} {A : Type ℓ} where
  -- `core::array::from_fn(QueueSlot::new)`, from index `i` on
  abbrev pub fresh_slots : ℕ → ℕ → List (QueueSlot A)
  fresh_slots i zero = []
  fresh_slots i (suc n) = record { sequence = i; value = none } ∷ fresh_slots (i + 1) n

  -- `PerCoreTaskQueue::new`
  unfoldable pub new : ℕ → PerCoreTaskQueue A
  new core_id = record {
    core_id = core_id;
    head = 0;
    tail = 0;
    slots = fresh_slots 0 queue_capacity;
  }

  -- The loop of `try_push`. A result has the queue, what is left in `task`, and what is returned.
  unfoldable pub push_loop :
      PerCoreTaskQueue A
      → A
      → List Bool
      → Option (PerCoreTaskQueue A × Option A × Result QueuePushError (Unit {0}))
  push_loop q unit [] = none
  push_loop q unit (exchanged ∷ outcomes) =
      let rest : Option (PerCoreTaskQueue A × Option A × Result QueuePushError (Unit {0})) =
        push_loop q unit outcomes in
      elim (get_elem? q.slots (q.tail % queue_capacity)) [
        | none ↦ none
        | some slot ↦
            let delta = wrapping_sub slot.sequence q.tail in
            if delta == 0
            then (if exchanged
                then some (
                  record q {
                    tail = wrapping_add q.tail 1;
                    slots =
                        set q.slots (q.tail % queue_capacity)
                          (record { sequence = wrapping_add q.tail 1; value = some unit });
                  },
                  none,
                  ok tt,
                )
                else rest)
            else if is_negative delta
            then some (q, some unit, err QueuePushError.full)
            else rest
      ]

  -- `PerCoreTaskQueue::try_push`
  unfoldable pub try_push :
      PerCoreTaskQueue A
      → ℕ
      → Option A
      → List Bool
      → Option (PerCoreTaskQueue A × Option A × Result QueuePushError (Unit {0}))
  unfolding push_loop
  try_push q expected_core_id task outcomes =
      if not (expected_core_id == q.core_id)
      then some (q, task, err QueuePushError.core_mismatch)
      else elim task [
        | none ↦ some (q, none, err QueuePushError.missing_task)
        | some unit ↦ push_loop q unit outcomes
      ]

  -- The loop of `try_pop`. Reading moves the value out of its cell.
  unfoldable pub pop_loop :
      PerCoreTaskQueue A → List Bool → Option (PerCoreTaskQueue A × Result QueuePopError (Option A))
  pop_loop q [] = none
  pop_loop q (exchanged ∷ outcomes) =
      let rest : Option (PerCoreTaskQueue A × Result QueuePopError (Option A)) =
        pop_loop q outcomes in
      elim (get_elem? q.slots (q.head % queue_capacity)) [
        | none ↦ none
        | some slot ↦
            let delta = wrapping_sub slot.sequence (wrapping_add q.head 1) in
            if delta == 0
            then (if exchanged
                then elim slot.value [
                  | none ↦ none
                  | some unit ↦ some (
                    record q {
                      head = wrapping_add q.head 1;
                      slots =
                          set q.slots (q.head % queue_capacity) (record {
                            sequence = wrapping_add q.head queue_capacity;
                            value = none;
                          });
                    },
                    ok (some unit),
                  )
                ]
                else rest)
            else if is_negative delta
            then some (q, ok none)
            else rest
      ]

  -- `PerCoreTaskQueue::try_pop`
  unfoldable pub try_pop :
      PerCoreTaskQueue A
      → ℕ
      → List Bool
      → Option (PerCoreTaskQueue A × Result QueuePopError (Option A))
  unfolding pop_loop
  try_pop q expected_core_id outcomes =
      if not (expected_core_id == q.core_id)
      then some (q, err QueuePopError.core_mismatch)
      else pop_loop q outcomes

  -- `PerCoreTaskQueue::len_approx`
  unfoldable pub len_approx : PerCoreTaskQueue A → ℕ
  len_approx q = min (wrapping_sub q.tail q.head) queue_capacity
