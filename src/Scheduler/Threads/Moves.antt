-- ===== src/Scheduler/Threads/Moves.antt =====
-- A step of one thread of a `PerCoreTaskQueue` (k3_aiScheduler/src/scheduler.rs) keeps the fields of
-- its invariant.
use k3x_hera_rt.Common.{
  ℕ, ◌+◌, ◌%◌, ◌^◌, ◌≤◌, ◌<◌, ◌≡◌, ◌≢◌, inl, inr, refl, some, [], ◌∷◌, length, get_elem?,
  get_elem?-append, dec_lt, ℕ_discrete, get_elem?-append_end, length-append, arith,
}
use mathlib.Core.Logic.{if_pos, if_neg}
use k3x_hera_rt.Scheduler.Threads.{
  Ring, Pc, update, Move, idle, push_owned, push_written, pop_owned, pop_read, push_win, push_write,
  push_publish, pop_win, pop_take, pop_release, push_free, pop_full, load_tail,
}
use k3x_hera_rt.Scheduler.Threads.Invariant.{ticket, seq_at, IsFresh, Cell, IsBusy, Holder, Inv}

module _ {A : Type 0} {q : Ring A} {pc : ℕ → Pc A} (inv : Inv q pc) (i : ℕ) where
  open inv use {few, counted, ordered, room, range, cells, published, unique, fresh}

  -- The bounds on the positions.
  Move-bounds :
      {p' : Pc A} {p : Pc A} {q' : Ring A}
      → Move q p q' p'
      → IsFresh q p
      → length q'.pushed < 2 ^ 63
      → record {
        few : q'.tail < 2 ^ 63;
        counted : length q'.pushed ≡ q'.tail;
        ordered : q'.head ≤ q'.tail;
        room : q'.tail ≤ q'.head + 64;
      }
  Move-bounds (push_win {x} g) f small =
      let more = length-append q.pushed (x ∷ []) in ground (arith, cells q.tail, more)
  Move-bounds (pop_win g) f small = ground (arith, cells q.tail)
  Move-bounds mv f small = ground arith

  Move-range :
      {p' : Pc A} {p : Pc A} {q' : Ring A}
      → Move q p q' p'
      → IsFresh q p
      → (j : ℕ) → j < 64
      → q'.sequence j < 2 ^ 63 + 64
  Move-range load_tail f j h = range j h
  Move-range mv f j h = ground (arith, range j)

  Move-cells :
      {p' : Pc A} {p : Pc A} {q' : Ring A}
      → Move q p q' p'
      → IsFresh q p
      → length q'.pushed < 2 ^ 63
      → (n : ℕ) → q'.tail ≤ n
      → n < q'.tail + 64
      → Cell q' n
  Move-cells (push_win {x} {t} g) f small n lo hi = elim (dec_lt n (q.tail + 64)) [
    | yes below ↦ ground (arith, cells n)
    | no last ↦ ground (arith, cells q.tail)
  ]
  Move-cells (push_publish {t}) f small n lo hi = ground (arith, cells n)
  Move-cells (pop_win g) f small n lo hi = ground (arith, cells n)
  Move-cells (pop_release {h}) f small n lo hi = ground (arith, cells n)
  Move-cells mv f small n lo hi = ground (arith, cells n)

  Move-published :
      {p' : Pc A} {p : Pc A} {q' : Ring A}
      → Move q p q' p'
      → IsFresh q p
      → length q'.pushed < 2 ^ 63
      → (n : ℕ) → q'.head ≤ n
      → n < q'.tail
      → seq_at q' n ≡ n + 1
      → q'.value (n % 64) ≡ get_elem? q'.pushed n
  Move-published (push_win {x} g) f small n lo hi s =
      ground (arith, published n, get_elem?-append q.pushed (x ∷ []) n)
  Move-published (pop_win g) f small n lo hi s = ground (arith, published n)
  Move-published mv f small n lo hi s = ground (arith, published n)

  Move-unique :
      {p' : Pc A} {p : Pc A} {q' : Ring A}
      → Move q p q' p'
      → pc i ≡ p
      → IsFresh q p
      → (a b n : ℕ) → ticket (update pc i p' a) ≡ some n
      → ticket (update pc i p' b) ≡ some n
      → a ≡ b
  Move-unique load_tail e f a b n ha hb = ground (arith, unique a b n)
  Move-unique (push_win g) e f a b n ha hb = ground (arith, unique a b n, fresh a, fresh b)
  Move-unique (pop_win g) e f a b n ha hb = ground (arith, unique a b n, fresh a, fresh b)
  Move-unique mv e f a b n ha hb = ground (arith, unique a b n, unique i a n, unique i b n)

  -- What the locals of the thread itself say after its step.
  Move-own :
      {p' : Pc A} {p : Pc A} {q' : Ring A}
      → Move q p q' p'
      → IsFresh q p
      → length q'.pushed < 2 ^ 63
      → IsFresh q' p'
  Move-own load_tail f small = omega arith
  Move-own (push_win {x} g) f small = ground (arith, cells q.tail, get_elem?-append_end q.pushed x)
  Move-own (pop_win {h} g) f small = ground (arith, cells q.tail, published h)
  Move-own (push_free {t} g) f small = ground (arith, range (t % 64))
  Move-own (pop_full {h} g) f small = ground (arith, range (h % 64))
  Move-own (pop_take g) f small = ground arith
  Move-own mv f small = ground arith

  -- The locals of another thread stay true.
  Move-other :
      {p' : Pc A} {p : Pc A} {q' : Ring A}
      → Move q p q' p'
      → IsFresh q p
      → length q'.pushed < 2 ^ 63
      → (r : Pc A) → IsFresh q r
      → ((t : ℕ) → ticket p ≡ some t → ticket r ≢ some t)
      → IsFresh q' r
  Move-other mv f small idle h apart = tt
  Move-other (push_win {x} {t} g) f small (push_owned y n) h apart =
      ground (arith, get_elem?-append q.pushed (x ∷ []) n)
  Move-other (push_win {x} {t} g) f small (push_written n) h apart =
      ground (arith, get_elem?-append q.pushed (x ∷ []) n)
  Move-other (push_win {x} {t} g) f small (pop_owned n) h apart =
      ground (arith, get_elem?-append q.pushed (x ∷ []) n)
  Move-other (push_win {x} {t} g) f small (pop_read n y) h apart =
      ground (arith, get_elem?-append q.pushed (x ∷ []) n)
  Move-other (push_write {x} {t}) f small r h apart = ground (arith, apart t)
  Move-other (push_publish {t}) f small r h apart = ground (arith, apart t)
  Move-other (pop_win {h = t} g) f small r h apart = ground (arith, apart t)
  Move-other (pop_take {h = t} g) f small r h apart = ground (arith, apart t)
  Move-other (pop_release {h = t}) f small r h apart = ground (arith, apart t, cells q.tail)
  Move-other (push_win g) f small r h apart = ground arith
  Move-other mv f small r h apart = ground arith

  -- Whoever owned a busy slot still does, or the thread itself has come to own it.
  Move-covered :
      {p' : Pc A} {p : Pc A} {q' : Ring A}
      → Move q p q' p'
      → pc i ≡ p
      → IsFresh q p
      → length q'.pushed < 2 ^ 63
      → (n : ℕ) → q'.tail ≤ n
      → n < q'.tail + 64
      → IsBusy q' n
      → Holder (update pc i p') n
  Move-covered (push_win {x} {t} g) e f small n lo hi b = elim (dec_lt n (q.tail + 64)) [
    | yes below ↦
        let (j, u, held, at) = inv.covered n (ground arith) below b in (j, u, ground arith, at)
    | no last ↦ (i, t, ground arith, ground arith)
  ]
  Move-covered (pop_win {h} g) e f small n lo hi b = elim (ℕ_discrete n (h + 64)) [
    | yes here ↦ (i, h, ground arith, omega (arith, here))
    | no ne ↦
        let busy : IsBusy q n = elim b [ inl x ↦ inl x | inr y ↦ inr (y.0, ground (arith, y.1)) ] in
        let (j, u, held, at) = inv.covered n lo hi busy in (j, u, ground arith, at)
  ]
  Move-covered (push_publish {t}) e f small n lo hi b = elim (ℕ_discrete n (t + 64)) [
    | yes here ↦ absurd (elim b [ inl x ↦ ground arith | inr y ↦ ground (arith, y.0, y.1) ])
    | no ne ↦
        let busy : IsBusy q n = elim b [
          | inl x ↦ inl (ground arith)
          | inr y ↦ inr (ground (arith, y.0), y.1)
        ] in
        let (j, u, held, at) = inv.covered n lo hi busy in (j, u, ground arith, at)
  ]
  Move-covered (pop_release {h}) e f small n lo hi b = elim (ℕ_discrete n (h + 64)) [
    | yes here ↦ absurd (elim b [ inl x ↦ ground arith | inr y ↦ ground (arith, y.0, y.1) ])
    | no ne ↦
        let busy : IsBusy q n = elim b [
          | inl x ↦ inl (ground arith)
          | inr y ↦ inr (ground (arith, y.0), y.1)
        ] in
        let (j, u, held, at) = inv.covered n lo hi busy in (j, u, ground arith, at)
  ]
  Move-covered mv e f small n lo hi b =
      let (j, t, held, at) = inv.covered n lo hi b in (j, t, ground arith, at)

  -- A step of thread `i` keeps the invariant, if fewer than 2^63 tasks have been pushed.
  pub Move-Inv :
      {p' : Pc A} {q' : Ring A}
      → Move q (pc i) q' p'
      → length q'.pushed < 2 ^ 63
      → Inv q' (update pc i p')
  Move-Inv {p'} {q'} mv small = record {
    few = few;
    counted = counted;
    ordered = ordered;
    room = room;
    range = Move-range mv (inv.fresh i);
    cells = Move-cells mv (inv.fresh i) small;
    covered = Move-covered mv refl (inv.fresh i) small;
    published = Move-published mv (inv.fresh i) small;
    unique = Move-unique mv refl (inv.fresh i);
    fresh = locals;
  }
    where
      open (Move-bounds mv (inv.fresh i) small) use {few, counted, ordered, room}

      locals : (j : ℕ) → IsFresh q' (update pc i p' j)
      locals j = elim (ℕ_discrete i j) [
        | yes e ↦ rw (if_pos _ e) (Move-own mv (inv.fresh i) small)
        | no e ↦ rw (if_neg _ e) (
            Move-other mv (inv.fresh i) small (pc j) (inv.fresh j)
              (λ t a b. e (inv.unique i j t a b)))
      ]
