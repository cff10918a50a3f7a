-- ===== src/Scheduler/EndToEnd.antt =====
-- The way of a graph from user space to the worker: built by `GraphManager`, frozen, parsed in the
-- kernel (k3_aiUabi/src/graph.rs) and resolved (k3_aiScheduler/src/kd_kring.rs).
use k3x_hera_rt.Common.{ℕ, ◌≡◌, inl, inr, some, List, ok, refl}
use k3x_hera_rt.Uabi.Graph.{AiGraphNode, AiGraphEdge, AiGraphHeader, AiParsedGraph}
use k3x_hera_rt.Uabi.Graph.Manager.{GraphManager}
use k3x_hera_rt.Uabi.Graph.Manager.History.{Reachable, Reachable-IsValid}
use k3x_hera_rt.Uabi.Graph.Blob.{Repr, freeze, parse}
use k3x_hera_rt.Uabi.Graph.Blob.Bytes.{All}
use k3x_hera_rt.Uabi.Graph.Blob.Safety.{InU32, parse-from_parts}
use k3x_hera_rt.Scheduler.TaskLink.{TaskLink, resolve_parsed_graph}
use k3x_hera_rt.Scheduler.Schedule.{IsSchedule}
use k3x_hera_rt.Scheduler.Resolve.{resolve_decides}

module _ (rh : Repr AiGraphHeader) (rn : Repr AiGraphNode) (re : Repr AiGraphEdge) where
  -- What any sequence of calls built and `freeze` serialised is parsed by the kernel as the same nodes
  -- and edges, and resolved to a schedule of them, if the images of the values are faithful.
  pub freeze_schedules :
      ((h : AiGraphHeader) → InU32 h → rh.Fits h)
      → (m : GraphManager) (blob : List ℕ) (pid : ℕ) → Reachable m
      → All rn.Fits m.nodes
      → All re.Fits m.edges
      → freeze rh rn re m ≡ some (ok blob)
      → (g : AiParsedGraph) × (link : TaskLink) × (parse rh rn re blob ≡ ok g)
        × (g.nodes ≡ m.nodes)
        × (g.edges ≡ m.edges)
        × (resolve_parsed_graph pid g ≡ some (ok link))
        × IsSchedule g link
  unfolding freeze
  freeze_schedules fits m blob pid reached fits_n fits_e h =
      let v = Reachable-IsValid reached in
      let (header, parsed, _, _) =
        parse-from_parts rh rn re fits m.nodes m.edges blob fits_n fits_e h in
      let g : AiParsedGraph = record { header = header; nodes = m.nodes; edges = m.edges } in
      elim (resolve_decides pid g v.small) [
        | inl (_, ill) ↦ absurd (ill v.well_formed)
        | inr (link, run, _, schedule) ↦ (g, link, parsed, refl, refl, run, schedule)
      ]
