-- ===== src/Scheduler/Threads/Invariant.antt =====
-- What holds of a `PerCoreTaskQueue` (k3_aiScheduler/src/scheduler.rs) between the steps of its threads.
-- A position counts the pushes or the pops; the slot of a position is its remainder by 64.
use k3x_hera_rt.Common.{ℕ, ◌+◌, ◌%◌, ◌^◌, ◌≤◌, ◌<◌, ◌≡◌, ◌⊎◌, Option, none, some, length, get_elem?}
use k3x_hera_rt.Scheduler.Threads.{
  Ring, Pc, push_loaded, push_ready, push_owned, push_written, pop_loaded, pop_ready, pop_owned,
  pop_read,
}

module _ {A : Type 0} where
  -- The position whose slot a thread owns: from its compare-exchange to its store of the sequence.
  abbrev pub ticket : Pc A → Option ℕ
  ticket (push_owned x t) = some t
  ticket (push_written t) = some t
  ticket (pop_owned h) = some h
  ticket (pop_read h x) = some h
  ticket _ = none

  abbrev pub seq_at : Ring A → ℕ → ℕ
  seq_at q p = q.sequence (p % 64)

  -- What the locals of a thread say about the queue.
  abbrev pub IsFresh : Ring A → Pc A → Type 0
  IsFresh q (push_loaded x t) = t ≤ q.tail
  IsFresh q (push_ready x t) = (t ≤ q.tail) × (t ≡ q.tail → seq_at q t ≡ t)
  IsFresh q (push_owned x t) =
      (t < q.tail)
      × (q.head ≤ t)
      × (q.tail ≤ t + 64)
      × (seq_at q t ≡ t)
      × (get_elem? q.pushed t ≡ some x)
  IsFresh q (push_written t) =
      (t < q.tail)
      × (q.head ≤ t)
      × (q.tail ≤ t + 64)
      × (seq_at q t ≡ t)
      × (q.value (t % 64) ≡ get_elem? q.pushed t)
  IsFresh q (pop_loaded h) = h ≤ q.head
  IsFresh q (pop_ready h) = (h ≤ q.head) × (h ≡ q.head → seq_at q h ≡ h + 1)
  IsFresh q (pop_owned h) =
      (h < q.head)
      × (q.tail ≤ h + 64)
      × (seq_at q h ≡ h + 1)
      × (q.value (h % 64) ≡ get_elem? q.pushed h)
  IsFresh q (pop_read h x) =
      (h < q.head) × (q.tail ≤ h + 64) × (seq_at q h ≡ h + 1) × (get_elem? q.pushed h ≡ some x)
  IsFresh q _ = Unit

  -- The slot that position `p` is to use next: free for it, or still with position `p - 64`, which is
  -- reserved by its producer, or published and not yet released by its consumer.
  abbrev pub Cell : Ring A → ℕ → Type 0
  Cell q p =
      ((seq_at q p ≡ p) × (p < q.head + 64))
      ⊎ (((seq_at q p + 64 ≡ p) × (q.head + 64 ≤ p)) ⊎ (seq_at q p + 63 ≡ p))

  -- A slot of a position before `p` that a thread has to finish with.
  abbrev pub IsBusy : Ring A → ℕ → Type 0
  IsBusy q p = (seq_at q p + 64 ≡ p) ⊎ ((seq_at q p + 63 ≡ p) × (p < q.head + 64))

  -- The thread that owns the position whose slot position `p` is to use next.
  abbrev pub Holder : (ℕ → Pc A) → ℕ → Type 0
  Holder pc p = (i : ℕ) × (t : ℕ) × (ticket (pc i) ≡ some t) × (t + 64 ≡ p)

  pub record Inv (q : Ring A) (pc : ℕ → Pc A) : Type 0 where
    pub few : q.tail < 2 ^ 63
    pub counted : length q.pushed ≡ q.tail
    pub ordered : q.head ≤ q.tail
    pub room : q.tail ≤ q.head + 64
    pub range : (j : ℕ) → j < 64 → q.sequence j < 2 ^ 63 + 64
    pub cells : (p : ℕ) → q.tail ≤ p → p < q.tail + 64 → Cell q p
    pub covered : (p : ℕ) → q.tail ≤ p → p < q.tail + 64 → IsBusy q p → Holder pc p
    pub published :
        (h : ℕ)
        → q.head ≤ h
        → h < q.tail
        → seq_at q h ≡ h + 1
        → q.value (h % 64) ≡ get_elem? q.pushed h
    pub unique : (i j t : ℕ) → ticket (pc i) ≡ some t → ticket (pc j) ≡ some t → i ≡ j
    pub fresh : (i : ℕ) → IsFresh q (pc i)
