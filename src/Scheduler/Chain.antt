-- ===== src/Scheduler/Chain.antt =====
-- The chain that `resolve_parsed_graph` (k3_aiScheduler/src/kd_kring.rs) builds from a full order.
use k3x_hera_rt.Common.{
  ℕ, zero, suc, get_elem?-present, ◌≤◌, ◌<◌, ◌≡◌, refl, ap, Option, none, some, List, [], ◌∷◌,
  false, arith, ◌==◌, get_elem?, get_or, set, length, length-set, length-replicate,
  get_or-replicate, get_or-set_self, get_or-set_ne, get_elem?-eq-get_or, replicate, ok, err, ==_iff,
  lt→ltb, ℕ_discrete,
}
use k3x_hera_rt.Common.Counting.{count, AllBelow}
use k3x_hera_rt.Uabi.Error.{SchedulerErr}
use k3x_hera_rt.Uabi.Graph.{AiGraphNode, AiParsedGraph}
use k3x_hera_rt.Kahn.Pending.{InRange}
use k3x_hera_rt.Kahn.Drain.{Finished}
use k3x_hera_rt.Kahn.Finish.{count-le, count_full, full-Ranks}
use k3x_hera_rt.Scheduler.TaskLink.{TaskLink, link_windows, pick, last?, finish_link}
use k3x_hera_rt.Scheduler.Schedule.{after, IsSchedule}

after_absent : (v : ℕ) (order : List ℕ) → count v order ≡ 0 → after v order ≡ none
after_absent v [] h = refl
after_absent v (a ∷ []) h = refl
after_absent v (a ∷ b ∷ rest) h = ground (arith, after_absent v (b ∷ rest))

abbrev or_else : Option ℕ → Option ℕ → Option ℕ
or_else none d = d
or_else (some b) d = some b

windows_lem :
    (n : ℕ) (order : List ℕ) (next : List (Option ℕ))
    → AllBelow n order
    → length next ≡ n
    → ((v : ℕ) → v < n → count v order ≤ 1)
    → (next' : List (Option ℕ)) × (link_windows order next ≡ some next')
      × (length next' ≡ n)
      × ((v : ℕ) → v < n → get_or next' v none ≡ or_else (after v order) (get_or next v none))
unfolding link_windows
windows_lem n [] next b e c = (next, refl, e, λ v h. refl)
windows_lem n (a ∷ []) next b e c = (next, refl, e, λ v h. refl)
windows_lem n (a ∷ x ∷ rest) next b e c =
    let (next', run, size, spec) =
      windows_lem n (x ∷ rest) (set next a (some x)) b.1
        (omega (arith, length-set next a (some x), e)) (λ v h. omega (arith, c v h)) in
    (
      next',
      rw (lt→ltb a (length next) (omega (arith, b.0))) run,
      size,
      λ v h. elim (ℕ_discrete a v) [
        | yes p ↦ ground (
          arith,
          spec v h,
          c v h,
          after_absent v (x ∷ rest),
          get_or-set_self next a (some x) none (omega (arith, b.0)),
        )
        | no p ↦ ground (arith, spec v h, get_or-set_ne next a v (some x) none p)
      ],
    )

picked_at :
    (nodes picked : List AiGraphNode) (v : ℕ) (vs : List ℕ) (node : AiGraphNode)
    → get_elem? nodes v ≡ some node
    → ((i w : ℕ) → get_elem? vs i ≡ some w → get_elem? picked i ≡ get_elem? nodes w)
    → (i w : ℕ) → get_elem? (v ∷ vs) i ≡ some w
    → get_elem? (node ∷ picked) i ≡ get_elem? nodes w
picked_at nodes picked v vs node found spec zero w h = ground arith
picked_at nodes picked v vs node found spec (suc i) w h = spec i w h

pick_lem :
    (nodes : List AiGraphNode) (order : List ℕ)
    → AllBelow (length nodes) order
    → (picked : List AiGraphNode) × (pick nodes order ≡ some picked)
      × (length picked ≡ length order)
      × ((i v : ℕ) → get_elem? order i ≡ some v → get_elem? picked i ≡ get_elem? nodes v)
unfolding pick
pick_lem nodes [] b = ([], refl, refl, λ i v h. cc)
pick_lem nodes (v ∷ vs) b =
    let (node, found) = get_elem?-present nodes v b.0 in
    let (picked, run, size, spec) = pick_lem nodes vs b.1 in
    (
      node ∷ picked,
      rw (found, pick) (rw (run, pick) refl),
      ap suc size,
      picked_at nodes picked v vs node found spec,
    )

pub finish_lem :
    (pid : ℕ) (g : AiParsedGraph) (order : List ℕ)
    → Finished (length g.nodes) g.edges order
    → InRange (length g.nodes) g.edges
    → length order ≡ length g.nodes
    → (link : TaskLink) × (finish_link pid g order ≡ some (ok link)) × IsSchedule g link
unfolding finish_link
finish_lem pid g order f range full =
    let n = length g.nodes in
    let (next, linked, size, spec) =
      windows_lem n order (replicate n none) f.below (length-replicate n none)
        (count-le n g.edges order f) in
    let (picked, run, same, at) = pick_lem g.nodes order f.below in
    (
      record {
        pid = pid;
        head_node = get_elem? order 0;
        tail_node = last? order;
        next_node = next;
        node_order = order;
        ordered_nodes = picked;
      },
      rw ((==_iff (length order) n).1 full) (rw (linked, finish_link) (rw (run, finish_link) refl)),
      record {
        once = count_full n g.edges order f full;
        only = f.below;
        ordered = full-Ranks n g.edges order f range full;
        nodes = at;
        size = omega (arith, same, full);
        next = λ v h. ground (
          arith,
          spec v h,
          get_elem?-eq-get_or next v none (omega (arith, size)),
          get_or-replicate {A = Option ℕ} n v none,
        );
        head = refl;
        tail = refl;
      },
    )

pub finish_short :
    (pid : ℕ) (g : AiParsedGraph) (order : List ℕ)
    → (length order == length g.nodes) ≡ false
    → finish_link pid g order ≡ some (err SchedulerErr.parse_failed)
unfolding finish_link
finish_short pid g order h = rw h
