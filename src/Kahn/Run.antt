-- ===== src/Kahn/Run.antt =====
-- A whole run of Kahn's algorithm, from the tables to the order.
use k3x_hera_rt.Common.{
  ℕ, zero, suc, ◌+◌, ◌≤◌, ◌<◌, ◌≡◌, refl, ap, ◌∙◌, some, List, [], ◌∷◌, ◌++◌, ◌&&◌, arith, ◌==◌,
  if◌then◌else◌, get_or, length, get_elem?-eq-get_or,
}
use mathlib.Core.List.{append-nil, append_assoc}
use k3x_hera_rt.Common.Counting.{count, count-append, AllBelow, AllBelow-append}
use k3x_hera_rt.Uabi.Graph.{AiGraphEdge}
use k3x_hera_rt.Kahn.{
  Tables, empty_tables, add_edges, sources, drain, drain_count, push_back, push_top,
}
use k3x_hera_rt.Kahn.Pending.{InRange}
use k3x_hera_rt.Kahn.Loop.{Worklist, Inv}
use k3x_hera_rt.Kahn.Start.{Built, empty-Built, add_edge_lem}
use k3x_hera_rt.Kahn.Drain.{Finished, drain_lem}

pub push_back-Worklist : Worklist push_back
push_back-Worklist = record {
  count-push = λ q x a. count-append a q (x ∷ []);
  AllBelow-push = λ n q x h k. AllBelow-append n q (x ∷ []) h (k, tt);
}

pub push_top-Worklist : Worklist push_top
push_top-Worklist = record {
  count-push = λ q x a. omega arith;
  AllBelow-push = λ n q x h k. (k, h);
}

add_edges-Built :
    (n : ℕ) (pre es : List AiGraphEdge) (t : Tables)
    → Built n pre t
    → InRange n es
    → (t' : Tables) × (add_edges t es ≡ some t') × Built n (pre ++ es) t'
unfolding add_edges
add_edges-Built n pre [] t b r = (t, refl, rw append-nil b)
add_edges-Built n pre (e ∷ es) t b r =
    let (t', run, b') = add_edge_lem n pre t e b r.0 r.1 in
    let (t'', run', b'') = add_edges-Built n (pre ++ (e ∷ [])) es t' b' r.2 in
    (t'', rw (run, add_edges) run', rw append_assoc at b'')

-- The entries of value zero, `ks` being the part of a table from index `i` on.
zeros : ℕ → List ℕ → ℕ → ℕ
zeros i [] w = 0
zeros i (k ∷ ks) w = (if i == w && k == 0 then 1 else 0) + zeros (i + 1) ks w

zeros_before : (i : ℕ) (ks : List ℕ) (w : ℕ) → w < i → zeros i ks w ≡ 0
unfolding zeros
zeros_before i [] w h = refl
zeros_before i (k ∷ ks) w h = ground (arith, zeros_before (i + 1) ks w)

zeros_at :
    (i : ℕ) (ks : List ℕ) (w j : ℕ)
    → w ≡ i + j
    → j < length ks
    → zeros i ks w ≡ (if get_or ks j 0 == 0 then 1 else 0)
unfolding zeros
zeros_at i [] w j e h = absurd (omega arith)
zeros_at i (k ∷ ks) w zero e h = ground (arith, zeros_before (i + 1) ks w)
zeros_at i (k ∷ ks) w (suc j) e h =
    ground (arith, zeros_at (i + 1) ks w j (omega arith) (omega arith))

module _ (push : List ℕ → ℕ → List ℕ) (law : Worklist push) where
  count-sources :
      (i : ℕ) (ks q : List ℕ) (w : ℕ) → count w (sources push i ks q) ≡ count w q + zeros i ks w
  unfolding sources zeros
  count-sources i [] q w = omega arith
  count-sources i (k ∷ ks) q w =
      ground
        (arith, count-sources (i + 1) ks (if k == 0 then push q i else q) w, law.count-push q i w)

  pub sources-AllBelow :
      (n i : ℕ) (ks q : List ℕ)
      → i + length ks ≤ n
      → AllBelow n q
      → AllBelow n (sources push i ks q)
  unfolding sources
  sources-AllBelow n i [] q h b = b
  sources-AllBelow n i (k ∷ ks) q h b =
      sources-AllBelow n (i + 1) ks (if k == 0 then push q i else q) (omega arith)
        (ground (arith, b, law.AllBelow-push n q i b (omega arith)))

  start-Inv :
      (n : ℕ) (es : List AiGraphEdge) (t : Tables)
      → Built n es t
      → Inv n es [] [] t.indegree (sources push 0 t.indegree [])
  start-Inv n es t b = record {
    size = b.indegree_size;
    waiting = λ w h. omega (arith, b.indegree w h);
    ready = λ w h. omega (
      arith,
      count-sources 0 t.indegree [] w,
      zeros_at 0 t.indegree w w (omega arith) (omega (arith, b.indegree_size)),
    );
    below = sources-AllBelow n 0 t.indegree [] (omega (arith, b.indegree_size)) tt;
  }

  -- From the tables of a graph the loop ends, on `n + 1` rounds of fuel.
  pub run_lem :
      (n : ℕ) (es : List AiGraphEdge) (t : Tables)
      → InRange n es
      → Built n es t
      → (r : List ℕ) × (drain push t.outgoing (suc n) t.indegree (sources push 0 t.indegree []) []
          ≡ some r)
        × (drain_count push t.outgoing (suc n) t.indegree (sources push 0 t.indegree []) 0
            ≡ some (length r))
        × Finished n es r
  run_lem n es t range b =
      drain_lem push law n es range t.outgoing
        (λ v h.
          get_elem?-eq-get_or t.outgoing v [] (omega (arith, b.outgoing_size))
          ∙ ap some (b.outgoing v h))
        (suc n) t.indegree (sources push 0 t.indegree []) [] (omega arith) tt (start-Inv n es t b)
        tt

-- The tables of all edges.
pub add_edges_lem :
    (n : ℕ) (es : List AiGraphEdge)
    → InRange n es
    → (t : Tables) × (add_edges (empty_tables n) es ≡ some t) × Built n es t
add_edges_lem n es range = add_edges-Built n [] es (empty_tables n) (empty-Built n) range
