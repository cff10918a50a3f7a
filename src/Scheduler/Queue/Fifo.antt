-- ===== src/Scheduler/Queue/Fifo.antt =====
-- A `PerCoreTaskQueue` (k3_aiScheduler/src/scheduler.rs) as a first-in first-out list of at most 64
-- tasks: what each call returns, and any sequence of calls from a new queue on, also where the counters
-- wrap around.
use k3x_hera_rt.Common.{
  ℕ, ◌+◌, ◌≡◌, refl, ap, Bool, not, Option, none, some, List, [], ◌∷◌, ◌++◌, ◌==◌, ltb,
  if◌then◌else◌, length, Result, ok, err, arith, Bool-cases, inl, inr,
}
use k3x_hera_rt.Scheduler.Queue.{
  PerCoreTaskQueue, QueuePushError, QueuePopError, queue_capacity, new, try_push, try_pop,
  len_approx,
}
use k3x_hera_rt.Scheduler.Queue.Represents.{
  Represents, Exchanges, new-Represents, len_approx-Represents,
}
use k3x_hera_rt.Scheduler.Queue.Push.{pushed, pushed-Represents, push_loop_room, push_loop_full}
use k3x_hera_rt.Scheduler.Queue.Pop.{popped, popped-Represents, pop_loop_empty, pop_loop-some}

module _ {ℓ} {A : Type ℓ} where
  -- What a push does to the list of a queue of core `core_id`: the new list, the task that stays with
  -- the caller, and the result.
  abbrev pub push_list :
      ℕ → List A → ℕ → Option A → List A × Option A × Result QueuePushError (Unit {0})
  push_list core_id xs expected none =
      if not (expected == core_id)
      then (xs, none, err QueuePushError.core_mismatch)
      else (xs, none, err QueuePushError.missing_task)
  push_list core_id xs expected (some x) =
      if not (expected == core_id)
      then (xs, some x, err QueuePushError.core_mismatch)
      else if ltb (length xs) queue_capacity
      then (xs ++ (x ∷ []), none, ok tt)
      else (xs, some x, err QueuePushError.full)

  -- What a pop does to it.
  abbrev pub pop_list : ℕ → List A → ℕ → List A × Result QueuePopError (Option A)
  pop_list core_id [] expected =
      if not (expected == core_id) then ([], err QueuePopError.core_mismatch) else ([], ok none)
  pop_list core_id (x ∷ xs) expected =
      if not (expected == core_id)
      then (x ∷ xs, err QueuePopError.core_mismatch)
      else (xs, ok (some x))

  -- On a queue that holds `xs`, where one compare-exchange of the call does not fail for no reason, a
  -- push ends, answers what the list `xs` answers, and leaves a queue that holds the new list.
  pub push_refines :
      (q : PerCoreTaskQueue A) (start : ℕ) (xs : List A) (r : Represents q start xs) (expected : ℕ)
      (task : Option A) (outcomes : List Bool)
      → Exchanges outcomes
      → (q' : PerCoreTaskQueue A) × (try_push q expected task outcomes
          ≡ some (
            q',
            (push_list q.core_id xs expected task).1,
            (push_list q.core_id xs expected task).2,
          ))
        × (q'.core_id ≡ q.core_id)
        × Represents q' start (push_list q.core_id xs expected task).0
  unfolding try_push
  push_refines q start xs r expected none outcomes exchanges =
      elim (Bool-cases (not (expected == q.core_id))) [
        | inl p ↦ rw p (q, refl, refl, r)
        | inr p ↦ rw p (q, refl, refl, r)
      ]
  push_refines q start xs r expected (some x) outcomes exchanges =
      elim (Bool-cases (not (expected == q.core_id))) [
        | inl p ↦ rw p (q, refl, refl, r)
        | inr p ↦ rw p (elim (Bool-cases (ltb (length xs) queue_capacity)) [
          | inl h ↦ rw h (
            pushed q start xs r x,
            push_loop_room q start xs r x outcomes (ground arith) exchanges,
            refl,
            pushed-Represents q start xs r x (ground arith),
          )
          | inr h ↦
              rw h (q, push_loop_full q start xs r x outcomes (ground arith) exchanges, refl, r)
        ])
      ]

  -- On a queue that holds `xs`, where one compare-exchange of the call does not fail for no reason, a
  -- pop ends, answers what the list `xs` answers, and leaves a queue that holds the new list.
  pub pop_refines :
      (q : PerCoreTaskQueue A) (start : ℕ) (xs : List A) (r : Represents q start xs) (expected : ℕ)
      (outcomes : List Bool)
      → Exchanges outcomes
      → (q' : PerCoreTaskQueue A) × (start' : ℕ) × (try_pop q expected outcomes
          ≡ some (q', (pop_list q.core_id xs expected).1))
        × (q'.core_id ≡ q.core_id)
        × Represents q' start' (pop_list q.core_id xs expected).0
  unfolding try_pop
  pop_refines q start [] r expected outcomes exchanges =
      elim (Bool-cases (not (expected == q.core_id))) [
        | inl p ↦ rw p (q, start, refl, refl, r)
        | inr p ↦ rw p (q, start, pop_loop_empty q start [] r outcomes refl exchanges, refl, r)
      ]
  pop_refines q start (x ∷ xs) r expected outcomes exchanges =
      elim (Bool-cases (not (expected == q.core_id))) [
        | inl p ↦ rw p (q, start, refl, refl, r)
        | inr p ↦ rw p (
          popped q start x xs r,
          start + 1,
          pop_loop-some q start x xs r outcomes exchanges,
          refl,
          popped-Represents q start x xs r,
        )
      ]

-- The calls of a queue, and what they answer.
pub data Call {ℓ} (A : Type ℓ) : Type ℓ where
  push : (expected : ℕ) (task : Option A) (outcomes : List Bool) → Call A
  pop : (expected : ℕ) (outcomes : List Bool) → Call A
  len : Call A

pub data Reply {ℓ} (A : Type ℓ) : Type ℓ where
  pushing : (kept : Option A) → Result QueuePushError (Unit {0}) → Reply A
  popping : Result QueuePopError (Option A) → Reply A
  measuring : ℕ → Reply A

module _ {ℓ} {A : Type ℓ} where
  abbrev pub AllExchange : List (Call A) → Type 0
  AllExchange [] = Unit {0}
  AllExchange (push expected task outcomes ∷ calls) = Exchanges outcomes × AllExchange calls
  AllExchange (pop expected outcomes ∷ calls) = Exchanges outcomes × AllExchange calls
  AllExchange (len ∷ calls) = AllExchange calls

  cons_reply : Reply A → Option (List (Reply A)) → Option (List (Reply A))
  cons_reply reply none = none
  cons_reply reply (some replies) = some (reply ∷ replies)

  -- The replies of a queue to calls made one after the other.
  unfoldable pub run : PerCoreTaskQueue A → List (Call A) → Option (List (Reply A))
  unfolding cons_reply
  run q [] = some []
  run q (push expected task outcomes ∷ calls) = elim (try_push q expected task outcomes) [
    | none ↦ none
    | some p ↦ cons_reply (pushing p.1 p.2) (run p.0 calls)
  ]
  run q (pop expected outcomes ∷ calls) = elim (try_pop q expected outcomes) [
    | none ↦ none
    | some p ↦ cons_reply (popping p.1) (run p.0 calls)
  ]
  run q (len ∷ calls) = cons_reply (measuring (len_approx q)) (run q calls)

  -- The replies of a list to them.
  unfoldable pub run_list : ℕ → List A → List (Call A) → List (Reply A)
  run_list core_id xs [] = []
  run_list core_id xs (push expected task outcomes ∷ calls) =
      pushing (push_list core_id xs expected task).1 (push_list core_id xs expected task).2
      ∷ run_list core_id (push_list core_id xs expected task).0 calls
  run_list core_id xs (pop expected outcomes ∷ calls) =
      popping (pop_list core_id xs expected).1
      ∷ run_list core_id (pop_list core_id xs expected).0 calls
  run_list core_id xs (len ∷ calls) = measuring (length xs) ∷ run_list core_id xs calls

  run-Represents :
      (calls : List (Call A)) (q : PerCoreTaskQueue A) (start : ℕ) (xs : List A)
      → Represents q start xs
      → AllExchange calls
      → run q calls ≡ some (run_list q.core_id xs calls)
  unfolding run run_list cons_reply
  run-Represents [] q start xs r exchanges = refl
  run-Represents (push expected task outcomes ∷ calls) q start xs r exchanges =
      let (q', eq, same_core, r') = push_refines q start xs r expected task outcomes exchanges.0 in
      rw (eq, run)
        (rw (run-Represents calls q' start _ r' exchanges.1, cons_reply)
          (ap
            (λ c. some (
              pushing (push_list q.core_id xs expected task).1
                (push_list q.core_id xs expected task).2
              ∷ run_list c (push_list q.core_id xs expected task).0 calls))
            same_core))
  run-Represents (pop expected outcomes ∷ calls) q start xs r exchanges =
      let (q', start', eq, same_core, r') =
        pop_refines q start xs r expected outcomes exchanges.0 in
      rw (eq, run)
        (rw (run-Represents calls q' start' _ r' exchanges.1, cons_reply)
          (ap
            (λ c. some (
              popping (pop_list q.core_id xs expected).1
              ∷ run_list c (pop_list q.core_id xs expected).0 calls))
            same_core))
  run-Represents (len ∷ calls) q start xs r exchanges =
      rw (run-Represents calls q start xs r exchanges, cons_reply)
        (ap (λ n. some (measuring n ∷ run_list q.core_id xs calls))
          (len_approx-Represents q start xs r))

  -- A new queue replies to any calls, made one after the other, as a first-in first-out list of at
  -- most 64 tasks does, if in each call one compare-exchange does not fail for no reason.
  pub new_queue_is_fifo :
      (core_id : ℕ) (calls : List (Call A))
      → AllExchange calls
      → run (new core_id) calls ≡ some (run_list core_id [] calls)
  unfolding new
  new_queue_is_fifo core_id calls exchanges =
      run-Represents calls (new core_id) 0 [] (new-Represents core_id) exchanges
