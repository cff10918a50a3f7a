-- ===== src/Uabi/Graph/Manager/History.antt =====
-- The managers that user space can come to (`GraphManager` of k3_aiUabi/src/graph.rs), call by call.
use k3x_hera_rt.Common.{
  ℕ, ◌≤◌, ◌≡◌, sym, ◌∙◌, inl, inr, some, List, [], ◌∷◌, length, Result, ok, err, arith, u32_mod,
  length-append, some-fst,
}
use mathlib.Core.Path.{subst}
use k3x_hera_rt.Uabi.Desc.{AiKernelDesc}
use k3x_hera_rt.Uabi.Graph.{AiGraphBuildError}
use k3x_hera_rt.Uabi.Graph.WellFormed.{WellFormed}
use k3x_hera_rt.Uabi.Graph.Manager.{
  GraphManager, new, push_kernel_depend_many, push_kernel_no_depend,
}
use k3x_hera_rt.Uabi.Graph.Manager.Build.{
  appended, node_of, with_node-size, push_kernel_no_depend_lem, push_kernel_depend_many_lem,
}

-- The managers that come of a sequence of calls from `GraphManager::new`.
pub data Reachable : GraphManager → Type 0 where
  created : Reachable new
  no_depend :
      (m : GraphManager) (desc : AiKernelDesc)
      → Reachable m
      → Reachable (push_kernel_no_depend m desc).0
  depend_many :
      (m m' : GraphManager) (ds : List ℕ) (desc : AiKernelDesc) (r : Result AiGraphBuildError ℕ)
      → Reachable m
      → push_kernel_depend_many m ds desc ≡ some (m', r)
      → Reachable m'

-- What every reachable manager satisfies.
pub record IsValid (m : GraphManager) : Type 0 where
  pub well_formed : WellFormed m.nodes m.edges
  pub small : length m.nodes ≤ u32_mod

new-IsValid : IsValid new
new-IsValid = record {
  well_formed = record {
    numbered = λ i node g. cc;
    range = tt;
    rank = λ v. v;
    grows = λ i e g. cc;
  };
  small = omega arith;
}

-- A manager that comes of a sequence of calls from `GraphManager::new` has a well-formed graph of at
-- most 2^32 nodes.
pub Reachable-IsValid : {m : GraphManager} → Reachable m → IsValid m
Reachable-IsValid created = new-IsValid
Reachable-IsValid (no_depend m desc r) =
    let v = Reachable-IsValid r in
    elim (push_kernel_no_depend_lem m v.well_formed desc) [
      | inl (_, run) ↦ rw run v
      | inr (small, run, w) ↦
          rw run
            (record { well_formed = w; small = omega (arith, with_node-size m v.well_formed desc) })
    ]
Reachable-IsValid (depend_many m m' ds desc result r e) =
    let v = Reachable-IsValid r in
    elim (push_kernel_depend_many_lem m v.well_formed desc ds) [
      | inl (d, _, run) ↦
          subst IsValid
            (some-fst m m' (err (AiGraphBuildError.invalid_depend d)) result (sym run ∙ e)) v
      | inr (inl (_, _, run)) ↦
          subst IsValid (some-fst m m' (err AiGraphBuildError.too_many_nodes) result (sym run ∙ e))
            v
      | inr (inr (_, small, run, w)) ↦
          subst IsValid
            (some-fst (appended m ds desc) m' (ok (length m.nodes)) result (sym run ∙ e))
            (record {
              well_formed = w;
              small = omega (arith, length-append m.nodes (node_of (length m.nodes) desc ∷ []));
            })
    ]
