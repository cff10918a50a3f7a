-- ===== src/Scheduler/Queue/Push.antt =====
-- `PerCoreTaskQueue::try_push` (k3_aiScheduler/src/scheduler.rs) on a queue that holds a list of tasks.
use k3x_hera_rt.Common.{
  ℕ, ◌+◌, ◌-◌, ◌%◌, ◌≤◌, ◌<◌, ◌≡◌, ◌≢◌, refl, sym, ◌∙◌, ap, Bool, true, false, none, some, List, [],
  ◌∷◌, ◌++◌, ltb, if◌then◌else◌, length, get_elem?, get_or, set, ok, err, arith, usize_mod,
  length-set, length-append, get_or-set_self, get_or-set_ne, ℕ_discrete, get_elem?-append,
  get_elem?-append_end,
}
use k3x_hera_rt.Scheduler.Queue.{
  QueueSlot, PerCoreTaskQueue, QueuePushError, queue_capacity, wrapping_add, wrapping_sub,
  push_loop,
}
use k3x_hera_rt.Scheduler.Queue.Represents.{Represents, blank, slot_at, Exchanges, present, at_tail}

module _ {ℓ} {A : Type ℓ} (q : PerCoreTaskQueue A) (start : ℕ) (xs : List A)
    (r : Represents q start xs) where
  abbrev pub pushed : A → PerCoreTaskQueue A
  pushed x = record q {
    tail = wrapping_add q.tail 1;
    slots =
        set q.slots (q.tail % queue_capacity)
          (record { sequence = wrapping_add q.tail 1; value = some x });
  }

  pub pushed-Represents :
      (x : A) → length xs < queue_capacity → Represents (pushed x) start (xs ++ (x ∷ []))
  pushed-Represents x room = record {
    few = omega (arith, length-append xs (x ∷ []));
    size = omega (arith, r.size, length-set q.slots (q.tail % queue_capacity) new_slot);
    head = r.head;
    tail = omega (arith, length-append xs (x ∷ []), r.tail);
    sequence = λ k h. elim (ℕ_discrete k (length xs)) [
      | yes p ↦
          ap (λ i. (slot_at (pushed x).slots (start + i)).sequence) p
          ∙ ap (λ (s : QueueSlot A). s.sequence) at_new
          ∙ full_after k p
      | no p ↦
          ap (λ (s : QueueSlot A). s.sequence) (elsewhere k h p) ∙ r.sequence k h ∙ same_state k p
    ];
    value = λ k h. elim (ℕ_discrete k (length xs)) [
      | yes p ↦
          ap (λ i. (slot_at (pushed x).slots (start + i)).value) p
          ∙ ap (λ (s : QueueSlot A). s.value) at_new
          ∙ sym (ap (get_elem? (xs ++ (x ∷ []))) p ∙ get_elem?-append_end xs x)
      | no p ↦
          ap (λ (s : QueueSlot A). s.value)
            (elsewhere k (omega (arith, h, length-append xs (x ∷ []))) p)
          ∙ r.value k (omega (arith, h, length-append xs (x ∷ []), p))
          ∙ sym (get_elem?-append xs (x ∷ []) k (omega (arith, h, length-append xs (x ∷ []), p)))
    ];
  }
    where
      new_slot : QueueSlot A
      new_slot = record { sequence = wrapping_add q.tail 1; value = some x }

      at_new : slot_at (pushed x).slots (start + length xs) ≡ new_slot
      at_new =
          ap (λ i. get_or (pushed x).slots i blank) (sym (at_tail q start xs r))
          ∙ get_or-set_self q.slots (q.tail % queue_capacity) new_slot blank (omega (arith, r.size))

      elsewhere :
          (k : ℕ)
          → k < queue_capacity
          → k ≢ length xs
          → slot_at (pushed x).slots (start + k) ≡ slot_at q.slots (start + k)
      elsewhere k h ne =
          get_or-set_ne q.slots (q.tail % queue_capacity) ((start + k) % queue_capacity) new_slot
            blank (λ e. ne (omega (arith, at_tail q start xs r, e)))

      full_after :
          (k : ℕ)
          → k ≡ length xs
          → wrapping_add q.tail 1 ≡ (
              if ltb k (length (xs ++ (x ∷ [])))
              then (start + k + 1) % usize_mod
              else (start + k) % usize_mod)
      full_after k p = ground (arith, length-append xs (x ∷ []), r.tail)

      same_state :
          (k : ℕ)
          → k ≢ length xs
          → ◌≡◌ {A = ℕ}
              (if ltb k (length xs) then (start + k + 1) % usize_mod else (start + k) % usize_mod)
              (if ltb k (length (xs ++ (x ∷ [])))
                then (start + k + 1) % usize_mod
                else (start + k) % usize_mod)
      same_state k p = ground (arith, length-append xs (x ∷ []))

module _ {ℓ} {A : Type ℓ} (q : PerCoreTaskQueue A) (start : ℕ) (xs : List A)
    (r : Represents q start xs) where
  -- The sequence numbers of the slots under the counters.
  tail_free : length xs < queue_capacity → (slot_at q.slots q.tail).sequence ≡ q.tail
  tail_free room =
      ap (λ i. (get_or q.slots i blank).sequence) (at_tail q start xs r)
      ∙ ground (arith, r.sequence (length xs) room, r.tail)

  tail_taken :
      queue_capacity ≤ length xs → (slot_at q.slots q.tail).sequence ≡ (start + 1) % usize_mod
  tail_taken full =
      let same : q.tail % queue_capacity ≡ (start + 0) % queue_capacity =
        omega (arith, r.few, r.tail) in
      ap (λ i. (get_or q.slots i blank).sequence) same
      ∙ ground (arith, r.sequence 0 (omega arith), r.few)

  delta_free :
      length xs < queue_capacity → wrapping_sub (slot_at q.slots q.tail).sequence q.tail ≡ 0
  delta_free room = omega (arith, tail_free room, r.tail)

  delta_taken :
      queue_capacity ≤ length xs
      → wrapping_sub (slot_at q.slots q.tail).sequence q.tail ≡ usize_mod - 63
  delta_taken full = omega (arith, tail_taken full, r.tail, r.few)

  pub push_loop_room :
      (x : A) (outcomes : List Bool)
      → length xs < queue_capacity
      → Exchanges outcomes
      → push_loop q x outcomes ≡ some (pushed q start xs r x, none, ok tt)
  unfolding push_loop
  push_loop_room x [] room exchanges = elim exchanges [ ]
  push_loop_room x (true ∷ outcomes) room exchanges =
      rw (present q start xs r q.tail, push_loop) (rw (delta_free room, push_loop) refl)
  push_loop_room x (false ∷ outcomes) room exchanges =
      rw (present q start xs r q.tail, push_loop)
        (rw (delta_free room, push_loop) (push_loop_room x outcomes room exchanges))

  pub push_loop_full :
      (x : A) (outcomes : List Bool)
      → queue_capacity ≤ length xs
      → Exchanges outcomes
      → push_loop q x outcomes ≡ some (q, some x, err QueuePushError.full)
  unfolding push_loop
  push_loop_full x [] full exchanges = elim exchanges [ ]
  push_loop_full x (exchanged ∷ outcomes) full exchanges =
      rw (present q start xs r q.tail, push_loop) (rw (delta_taken full, push_loop) refl)
