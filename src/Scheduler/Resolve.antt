-- ===== src/Scheduler/Resolve.antt =====
-- What `resolve_parsed_graph` (k3_aiScheduler/src/kd_kring.rs) promises: it schedules exactly the
-- graphs with consecutive ids, edges between nodes and no cycle.
use k3x_hera_rt.Common.{
  as_u32, ℕ, suc, ◌≤◌, ◌≡◌, refl, ◌∙◌, some, ◌⊎◌, inl, inr, List, [], true, map, arith, ◌==◌,
  length, u32_mod, ok, err, Bool-cases, ==_iff,
}
use k3x_hera_rt.Uabi.Error.{SchedulerErr}
use k3x_hera_rt.Uabi.Graph.{AiParsedGraph}
use k3x_hera_rt.Kahn.{Tables, empty_tables, sources, drain, push_back}
use k3x_hera_rt.Kahn.Pending.{InRange}
use k3x_hera_rt.Kahn.Order.{Ranks, position}
use k3x_hera_rt.Kahn.Start.{empty-Built}
use k3x_hera_rt.Kahn.Run.{push_back-Worklist, run_lem, sources-AllBelow}
use k3x_hera_rt.Kahn.Drain.{Finished}
use k3x_hera_rt.Kahn.Finish.{full-Ranks, Ranks-full}
use k3x_hera_rt.Scheduler.TaskLink.{
  TaskLink, ids_match, link_edges, finish_link, resolve_parsed_graph,
}
use k3x_hera_rt.Uabi.Graph.WellFormed.{WellFormed}
use k3x_hera_rt.Scheduler.Schedule.{IsSchedule}
use k3x_hera_rt.Scheduler.Checks.{ids_match_lem, ids_match_complete, link_edges_lem, as_u32-small}
use k3x_hera_rt.Scheduler.Chain.{finish_lem, finish_short}

-- After the checks, the result is that of `finish_link` on the order of the loop.
resolve_finish :
    (pid : ℕ) (g : AiParsedGraph) (t : Tables) (order : List ℕ)
    → ids_match 0 g.nodes ≡ true
    → link_edges (length g.nodes) (empty_tables (length g.nodes)) g.edges ≡ some (ok t)
    → map as_u32 (sources push_back 0 t.indegree []) ≡ sources push_back 0 t.indegree []
    → drain push_back t.outgoing
        (suc (length g.nodes))
        t.indegree
        (sources push_back 0 t.indegree [])
        []
      ≡ some order
    → resolve_parsed_graph pid g ≡ finish_link pid g order
unfolding resolve_parsed_graph
resolve_finish pid g t order good run ready drained = rw good (
    rw (run, resolve_parsed_graph)
      (rw (ready, resolve_parsed_graph) (rw (drained, resolve_parsed_graph) refl)))

-- Resolution ends without a panic on every graph of at most 2^32 nodes. It answers `ParseFailed`
-- exactly on the graphs that are not well formed (ids that are not the indices, an edge out of
-- range, or a cycle), and otherwise a schedule of the graph.
pub resolve_decides :
    (pid : ℕ) (g : AiParsedGraph)
    → length g.nodes ≤ u32_mod
    → ((resolve_parsed_graph pid g ≡ some (err SchedulerErr.parse_failed))
        × ¬ WellFormed g.nodes g.edges)
      ⊎ ((link : TaskLink) × (resolve_parsed_graph pid g ≡ some (ok link))
          × WellFormed g.nodes g.edges
          × IsSchedule g link)
unfolding resolve_parsed_graph
resolve_decides pid g small = elim (Bool-cases (ids_match 0 g.nodes)) [
  | inr bad ↦ inl (
    rw bad refl,
    λ w. cc (
      ids_match_complete 0 g.nodes (omega arith) (λ j node e. omega (arith, w.numbered j node e)),
      bad,
    ),
  )
  | inl good ↦ elim (link_edges_lem n [] g.edges (empty_tables n) (empty-Built n)) [
    | inr (run, out) ↦ inl (rw good (rw (run, resolve_parsed_graph) refl), λ w. out w.range)
    | inl (t, run, built, range) ↦
        let (order, drained, _, f) = run_lem push_back push_back-Worklist n g.edges t range built in
        let ready = as_u32-small n (sources push_back 0 t.indegree []) small (
          sources-AllBelow push_back push_back-Worklist n 0 t.indegree []
            (omega (arith, built.indegree_size)) tt) in
        let at_end = resolve_finish pid g t order good run ready drained in
        elim (Bool-cases (length order == n)) [
          | inr short ↦ inl (
            at_end ∙ finish_short pid g order short,
            λ w. ground (arith, Ranks-full n g.edges order f range w.rank w.grows, short),
          )
          | inl full ↦
              let (link, finished, schedule) =
                finish_lem pid g order f range ((==_iff (length order) n).0 full) in
              inr (
                link,
                at_end ∙ finished,
                record {
                  numbered = λ i node e.
                      omega (arith, ids_match_lem 0 g.nodes (omega arith) good i node e);
                  range = range;
                  rank = λ v. position v order;
                  grows = schedule_ranks order f ((==_iff (length order) n).0 full) range;
                },
                schedule,
              )
        ]
  ]
]
  where
    n : ℕ
    n = length g.nodes

    schedule_ranks :
        (order : List ℕ)
        → Finished n g.edges order
        → length order ≡ n
        → InRange n g.edges
        → Ranks (λ v. position v order) g.edges
    schedule_ranks order f full range = full-Ranks n g.edges order f range full
