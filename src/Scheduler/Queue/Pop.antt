-- ===== src/Scheduler/Queue/Pop.antt =====
-- `PerCoreTaskQueue::try_pop` (k3_aiScheduler/src/scheduler.rs) on a queue that holds a list of tasks.
use k3x_hera_rt.Common.{
  ℕ, suc, ◌+◌, ◌-◌, ◌%◌, ◌<◌, ◌≡◌, ◌≢◌, refl, ◌∙◌, ap, Bool, true, false, none, some, List, [], ◌∷◌,
  ltb, if◌then◌else◌, length, get_or, set, ok, arith, usize_mod, length-set, get_or-set_self,
  get_or-set_ne, ℕ_discrete,
}
use k3x_hera_rt.Scheduler.Queue.{
  QueueSlot, PerCoreTaskQueue, queue_capacity, wrapping_add, wrapping_sub, pop_loop,
}
use k3x_hera_rt.Scheduler.Queue.Represents.{Represents, blank, slot_at, Exchanges, present}

module _ {ℓ} {A : Type ℓ} (q : PerCoreTaskQueue A) (start : ℕ) (x : A) (xs : List A)
    (r : Represents q start (x ∷ xs)) where
  abbrev pub popped : PerCoreTaskQueue A
  popped = record q {
    head = wrapping_add q.head 1;
    slots =
        set q.slots (q.head % queue_capacity)
          (record { sequence = wrapping_add q.head queue_capacity; value = none });
  }

  pub popped-Represents : Represents popped (start + 1) xs
  popped-Represents = record {
    few = omega (arith, r.few);
    size = omega (arith, r.size, length-set q.slots (q.head % queue_capacity) new_slot);
    head = omega (arith, r.head);
    tail = omega (arith, r.tail);
    sequence = λ k h. elim (ℕ_discrete k 63) [
      | yes p ↦ ap (λ (s : QueueSlot A). s.sequence) (at_new k p) ∙ free_after k p
      | no p ↦
          ap (λ (s : QueueSlot A). s.sequence) (elsewhere k h p)
          ∙ r.sequence (suc k) (omega arith)
          ∙ same_state k
    ];
    value = λ k h.
        ap (λ (s : QueueSlot A). s.value)
          (elsewhere k (omega (arith, h, r.few)) (omega (arith, h, r.few)))
        ∙ r.value (suc k) (omega arith);
  }
    where
      new_slot : QueueSlot A
      new_slot = record { sequence = wrapping_add q.head queue_capacity; value = none }

      at_new : (k : ℕ) → k ≡ 63 → slot_at popped.slots (start + 1 + k) ≡ new_slot
      at_new k p =
          let same : (start + 1 + k) % queue_capacity ≡ q.head % queue_capacity =
            omega (arith, p, r.head) in
          ap (λ i. get_or popped.slots i blank) same
          ∙ get_or-set_self q.slots (q.head % queue_capacity) new_slot blank (omega (arith, r.size))

      elsewhere :
          (k : ℕ)
          → k < queue_capacity
          → k ≢ 63
          → slot_at popped.slots (start + 1 + k) ≡ slot_at q.slots (start + suc k)
      elsewhere k h ne =
          let same : (start + 1 + k) % queue_capacity ≡ (start + suc k) % queue_capacity =
            omega arith in
          get_or-set_ne q.slots (q.head % queue_capacity) ((start + 1 + k) % queue_capacity)
            new_slot blank (λ e. ne (omega (arith, r.head, e)))
          ∙ ap (λ i. get_or q.slots i blank) same

      free_after :
          (k : ℕ)
          → k ≡ 63
          → wrapping_add q.head queue_capacity ≡ (
              if ltb k (length xs)
              then (start + 1 + k + 1) % usize_mod
              else (start + 1 + k) % usize_mod)
      free_after k p = ground (arith, p, r.few, r.head)

      same_state :
          (k : ℕ)
          → ◌≡◌ {A = ℕ}
              (if ltb (suc k) (suc (length xs))
                then (start + suc k + 1) % usize_mod
                else (start + suc k) % usize_mod)
              (if ltb k (length xs)
                then (start + 1 + k + 1) % usize_mod
                else (start + 1 + k) % usize_mod)
      same_state k = ground arith

module _ {ℓ} {A : Type ℓ} (q : PerCoreTaskQueue A) (start : ℕ) (xs : List A)
    (r : Represents q start xs) where
  pub pop_loop_empty :
      (outcomes : List Bool)
      → xs ≡ []
      → Exchanges outcomes
      → pop_loop q outcomes ≡ some (q, ok none)
  unfolding pop_loop
  pop_loop_empty [] empty exchanges = elim exchanges [ ]
  pop_loop_empty (exchanged ∷ outcomes) empty exchanges =
      rw (present q start xs r q.head, pop_loop) (rw (delta_waiting, pop_loop) refl)
    where
      none_left : length xs ≡ 0
      none_left = ap length empty

      waiting : (slot_at q.slots q.head).sequence ≡ start % usize_mod
      waiting =
          let same : q.head % queue_capacity ≡ (start + 0) % queue_capacity =
            omega (arith, r.head) in
          ap (λ i. (get_or q.slots i blank).sequence) same
          ∙ ground (arith, r.sequence 0 (omega arith), none_left)

      delta_waiting :
          wrapping_sub (slot_at q.slots q.head).sequence (wrapping_add q.head 1) ≡ usize_mod - 1
      delta_waiting = omega (arith, waiting, r.head)

module _ {ℓ} {A : Type ℓ} (q : PerCoreTaskQueue A) (start : ℕ) (x : A) (xs : List A)
    (r : Represents q start (x ∷ xs)) where
  at_front : q.head % queue_capacity ≡ (start + 0) % queue_capacity
  at_front = omega (arith, r.head)

  front_value : (slot_at q.slots q.head).value ≡ some x
  front_value = ap (λ i. (get_or q.slots i blank).value) at_front ∙ r.value 0 (omega arith)

  delta_ready : wrapping_sub (slot_at q.slots q.head).sequence (wrapping_add q.head 1) ≡ 0
  delta_ready =
      let sequence : (slot_at q.slots q.head).sequence ≡ (start + 1) % usize_mod =
        ap (λ i. (get_or q.slots i blank).sequence) at_front
        ∙ ground (arith, r.sequence 0 (omega arith)) in
      omega (arith, sequence, r.head)

  pub pop_loop-some :
      (outcomes : List Bool)
      → Exchanges outcomes
      → pop_loop q outcomes ≡ some (popped q start x xs r, ok (some x))
  unfolding pop_loop
  pop_loop-some [] exchanges = elim exchanges [ ]
  pop_loop-some (true ∷ outcomes) exchanges =
      rw (present q start (x ∷ xs) r q.head, pop_loop)
        (rw (delta_ready, pop_loop) (rw (front_value, pop_loop) refl))
  pop_loop-some (false ∷ outcomes) exchanges =
      rw (present q start (x ∷ xs) r q.head, pop_loop)
        (rw (delta_ready, pop_loop) (pop_loop-some outcomes exchanges))
