-- ===== src/Scheduler/Queue/Represents.antt =====
-- What a `PerCoreTaskQueue` (k3_aiScheduler/src/scheduler.rs) holds. `start` is the number of tasks that
-- were taken from it since its creation: the counters are its residues.
use k3x_hera_rt.Common.{
  ℕ, zero, suc, ◌+◌, ◌%◌, ◌≤◌, ◌<◌, ◌≡◌, refl, ◌∙◌, ap, true, false, none, some, List, [], ◌∷◌, ltb,
  if◌then◌else◌, length, get_elem?, get_or, arith, usize_mod, get_elem?-eq-get_or, Bool,
}
use k3x_hera_rt.Scheduler.Queue.{
  QueueSlot, PerCoreTaskQueue, queue_capacity, fresh_slots, new, len_approx,
}

length-fresh_slots {ℓ} : (A : Type ℓ) (i n : ℕ) → length {A = QueueSlot A} (fresh_slots i n) ≡ n
length-fresh_slots A i zero = refl
length-fresh_slots A i (suc n) = ap suc (length-fresh_slots A (i + 1) n)

module _ {ℓ} {A : Type ℓ} where
  abbrev pub blank : QueueSlot A
  blank = record { sequence = 0; value = none }

  abbrev pub slot_at : List (QueueSlot A) → ℕ → QueueSlot A
  slot_at slots position = get_or slots (position % queue_capacity) blank

  -- The tasks `xs`, oldest first, stand in the slots from position `start` on; a slot's sequence says
  -- whether it holds a task or waits for one.
  pub record Represents (q : PerCoreTaskQueue A) (start : ℕ) (xs : List A) : Type ℓ where
    pub few : length xs ≤ queue_capacity
    pub size : length q.slots ≡ queue_capacity
    pub head : q.head ≡ start % usize_mod
    pub tail : q.tail ≡ (start + length xs) % usize_mod
    pub sequence :
        (k : ℕ)
        → k < queue_capacity
        → (slot_at q.slots (start + k)).sequence
          ≡ (if ltb k (length xs) then (start + k + 1) % usize_mod else (start + k) % usize_mod)
    pub value : (k : ℕ) → k < length xs → (slot_at q.slots (start + k)).value ≡ get_elem? xs k

  fresh_at :
      (i n k : ℕ)
      → k < n
      → get_or (fresh_slots i n) k blank ≡ record { sequence = i + k; value = none }
  fresh_at i zero k h = elim h [ ]
  fresh_at i (suc n) zero h = ap (λ s. record { sequence = s; value = none }) (omega arith)
  fresh_at i (suc n) (suc k) h =
      fresh_at (i + 1) n k (omega arith)
      ∙ ap (λ s. record { sequence = s; value = none }) (omega arith)

  -- A new queue is empty.
  pub new-Represents : (core_id : ℕ) → Represents (new {A = A} core_id) 0 []
  unfolding new
  new-Represents core_id = record {
    few = omega arith;
    size = length-fresh_slots A 0 queue_capacity;
    head = refl;
    tail = refl;
    sequence = λ k h.
        let at : (0 + k) % queue_capacity ≡ k = omega (arith, h) in
        let low : (0 + k) % usize_mod ≡ k = omega (arith, h) in
        let stored : (slot_at (fresh_slots {A = A} 0 queue_capacity) (0 + k)).sequence ≡ 0 + k =
          ap (λ (s : QueueSlot A). s.sequence)
            (ap (λ i. get_or (fresh_slots 0 queue_capacity) i blank) at
              ∙ fresh_at 0 queue_capacity k h) in
        ground (arith, stored, low);
    value = λ k h. elim h [ ];
  }

  -- The length is exact when nobody interferes.
  pub len_approx-Represents :
      (q : PerCoreTaskQueue A) (start : ℕ) (xs : List A)
      → Represents q start xs
      → len_approx q ≡ length xs
  unfolding len_approx
  len_approx-Represents q start xs r = omega (arith, r.head, r.tail, r.few)

-- One of the compare-exchanges does not fail for no reason.
abbrev pub Exchanges : List Bool → Type 0
Exchanges [] = ⊥
Exchanges (true ∷ outcomes) = Unit {0}
Exchanges (false ∷ outcomes) = Exchanges outcomes

module _ {ℓ} {A : Type ℓ} (q : PerCoreTaskQueue A) (start : ℕ) (xs : List A)
    (r : Represents q start xs) where
  pub present :
      (position : ℕ)
      → get_elem? q.slots (position % queue_capacity) ≡ some (slot_at q.slots position)
  present position =
      get_elem?-eq-get_or q.slots (position % queue_capacity) blank (omega (arith, r.size))

  -- Where the counters point.
  pub at_tail : q.tail % queue_capacity ≡ (start + length xs) % queue_capacity
  at_tail = omega (arith, r.tail)

  pub at_head : q.head % queue_capacity ≡ start % queue_capacity
  at_head = omega (arith, r.head)
