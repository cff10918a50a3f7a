-- ===== src/Scheduler/Threads.antt =====
-- k3_aiScheduler/src/scheduler.rs: `try_push` and `try_pop` of one `PerCoreTaskQueue`, called by any
-- number of threads at once. A step is one access of one thread to shared memory, and the steps of the
-- threads are interleaved in any order; all threads see the accesses in that one order. A slot of the
-- array is an index below 64 into two functions.
pub mod Invariant
pub mod Moves
pub mod Safety
pub mod Progress
use k3x_hera_rt.Common.{
  ℕ, ◌%◌, ◌≡◌, ◌≢◌, true, false, Option, none, some, List, [], ◌∷◌, ◌++◌, ℕ_discrete,
}
use mathlib.Core.Logic.{ite}
use k3x_hera_rt.Scheduler.Queue.{queue_capacity, wrapping_add, wrapping_sub, is_negative}

abbrev pub update {ℓ} : {A : Type ℓ} → (ℕ → A) → ℕ → A → ℕ → A
update f i a j = ite (ℕ_discrete i j) a (f j)

module _ (A : Type 0) where
  -- The fields of `PerCoreTaskQueue`. `pushed` is no field: the tasks whose producers have advanced
  -- `tail`, in that order.
  pub record Ring : Type 0 where
    pub core_id : ℕ
    pub head : ℕ
    pub tail : ℕ
    pub sequence : ℕ → ℕ
    pub value : ℕ → Option A
    pub pushed : List A

  -- Where a thread stands in `try_push` or `try_pop`, with the local variables that are live there.
  pub data Pc : Type 0 where
    idle : Pc  -- in neither
    push_start : (unit : A) → Pc  -- at the top of the loop
    push_loaded : (unit : A) (tail : ℕ) → Pc  -- before the load of the sequence
    push_ready : (unit : A) (tail : ℕ) → Pc  -- before the compare-exchange
    push_owned : (unit : A) (tail : ℕ) → Pc  -- before the write of the value
    push_written : (tail : ℕ) → Pc  -- before the store of the sequence
    pop_start : Pc
    pop_loaded : (head : ℕ) → Pc
    pop_ready : (head : ℕ) → Pc
    pop_owned : (head : ℕ) → Pc  -- before the read of the value
    pop_read : (head : ℕ) (unit : A) → Pc  -- before the store of the sequence

module _ {A : Type 0} where
  -- `PerCoreTaskQueue::new`
  unfoldable pub new : ℕ → Ring A
  new core_id = record {
    core_id = core_id;
    head = 0;
    tail = 0;
    sequence = λ i. i;
    value = λ _. none;
    pushed = [];
  }

  -- The difference that `try_push` and `try_pop` test, at the slot of a position.
  abbrev pub delta : Ring A → (position expected : ℕ) → ℕ
  delta q position expected = wrapping_sub (q.sequence (position % queue_capacity)) expected

  -- One step of one thread. A call on another core, or without a task, returns before it touches the
  -- queue. The compare-exchange is weak, so it may fail at any time.
  pub data Move (q : Ring A) : Pc A → Ring A → Pc A → Type 0 where
    refuse : {expected : ℕ} → expected ≢ q.core_id → Move q idle q idle
    call_push : {expected : ℕ} {x : A} → expected ≡ q.core_id → Move q idle q (push_start x)
    load_tail : {x : A} → Move q (push_start x) q (push_loaded x q.tail)
    push_free : {x : A} {t : ℕ} → delta q t t ≡ 0 → Move q (push_loaded x t) q (push_ready x t)
    push_full :
        {x : A} {t : ℕ}
        → delta q t t ≢ 0
        → is_negative (delta q t t) ≡ true
        → Move q (push_loaded x t) q idle
    push_spin :
        {x : A} {t : ℕ}
        → delta q t t ≢ 0
        → is_negative (delta q t t) ≡ false
        → Move q (push_loaded x t) q (push_start x)
    push_win :
        {x : A} {t : ℕ}
        → q.tail ≡ t
        → Move q
            (push_ready x t)
            (record q { tail = wrapping_add t 1; pushed = q.pushed ++ (x ∷ []) })
            (push_owned x t)
    push_lose : {x : A} {t : ℕ} → Move q (push_ready x t) q (push_start x)
    push_write :
        {x : A} {t : ℕ}
        → Move q
            (push_owned x t)
            (record q { value = update q.value (t % queue_capacity) (some x) })
            (push_written t)
    push_publish :
        {t : ℕ}
        → Move q
            (push_written t)
            (record q { sequence = update q.sequence (t % queue_capacity) (wrapping_add t 1) })
            idle
    call_pop : {expected : ℕ} → expected ≡ q.core_id → Move q idle q pop_start
    load_head : Move q pop_start q (pop_loaded q.head)
    pop_full : {h : ℕ} → delta q h (wrapping_add h 1) ≡ 0 → Move q (pop_loaded h) q (pop_ready h)
    pop_empty :
        {h : ℕ}
        → delta q h (wrapping_add h 1) ≢ 0
        → is_negative (delta q h (wrapping_add h 1)) ≡ true
        → Move q (pop_loaded h) q idle
    pop_spin :
        {h : ℕ}
        → delta q h (wrapping_add h 1) ≢ 0
        → is_negative (delta q h (wrapping_add h 1)) ≡ false
        → Move q (pop_loaded h) q pop_start
    pop_win :
        {h : ℕ}
        → q.head ≡ h
        → Move q (pop_ready h) (record q { head = wrapping_add h 1 }) (pop_owned h)
    pop_lose : {h : ℕ} → Move q (pop_ready h) q pop_start
    pop_take :
        {h : ℕ} {x : A}
        → q.value (h % queue_capacity) ≡ some x
        → Move q
            (pop_owned h)
            (record q { value = update q.value (h % queue_capacity) none })
            (pop_read h x)
    pop_release :
        {h : ℕ} {x : A}
        → Move q
            (pop_read h x)
            (record q {
              sequence = update q.sequence (h % queue_capacity) (wrapping_add h queue_capacity);
            })
            idle

module _ (A : Type 0) where
  pub record System : Type 0 where
    pub queue : Ring A
    pub pc : ℕ → Pc A

module _ {A : Type 0} where
  pub data Step (s : System A) : System A → Type 0 where
    pick :
        (i : ℕ) {q : Ring A} {p : Pc A}
        → Move s.queue (s.pc i) q p
        → Step s (record { queue = q; pc = update s.pc i p })

  abbrev pub init : ℕ → System A
  init core_id = record { queue = new core_id; pc = λ _. idle }

  -- The states that a new queue can come to.
  pub data Reach (core_id : ℕ) : System A → Type 0 where
    start : Reach core_id (init core_id)
    later : {s t : System A} → Reach core_id s → Step s t → Reach core_id t
