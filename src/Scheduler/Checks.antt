-- ===== src/Scheduler/Checks.antt =====
-- The checks of `resolve_parsed_graph` (k3_aiScheduler/src/kd_kring.rs) before its loop.
use k3x_hera_rt.Common.{
  as_u32, ℕ, zero, suc, ap₂, ◌++◌, ◌+◌, ◌≤◌, ◌<◌, ◌≡◌, refl, some, ◌⊎◌, inl, inr, List, [], ◌∷◌,
  true, map, arith, leb, ◌||◌, get_elem?, length, u32_mod, ok, err, Bool-cases,
}
use mathlib.Core.List.{append-nil, append_assoc}
use k3x_hera_rt.Common.Counting.{AllBelow}
use k3x_hera_rt.Uabi.Error.{SchedulerErr}
use k3x_hera_rt.Uabi.Graph.{AiGraphNode, AiGraphEdge}
use k3x_hera_rt.Kahn.{Tables}
use k3x_hera_rt.Kahn.Pending.{InRange}
use k3x_hera_rt.Kahn.Start.{Built, add_edge_lem}
use k3x_hera_rt.Scheduler.TaskLink.{ids_match, link_edges}

-- What the checks before the loop over the ready queue find out.
pub ids_match_lem :
    (i : ℕ) (nodes : List AiGraphNode)
    → i + length nodes ≤ u32_mod
    → ids_match i nodes ≡ true
    → (j : ℕ) (node : AiGraphNode) → get_elem? nodes j ≡ some node
    → node.node_id ≡ i + j
unfolding ids_match
ids_match_lem i [] small h j node g = cc
ids_match_lem i (x ∷ nodes) small h zero node g = ground arith
ids_match_lem i (x ∷ nodes) small h (suc j) node g =
    omega (arith, ids_match_lem (i + 1) nodes (omega arith) (ground arith) j node g)

pub ids_match_complete :
    (i : ℕ) (nodes : List AiGraphNode)
    → i + length nodes ≤ u32_mod
    → ((j : ℕ) (node : AiGraphNode) → get_elem? nodes j ≡ some node → node.node_id ≡ i + j)
    → ids_match i nodes ≡ true
unfolding ids_match
ids_match_complete i [] small h = refl
ids_match_complete i (x ∷ nodes) small h = ground (
  arith,
  h 0 x refl,
  ids_match_complete (i + 1) nodes (omega arith) (λ j node g. omega (arith, h (suc j) node g)),
)

pub link_edges_lem :
    (n : ℕ) (pre es : List AiGraphEdge) (t : Tables)
    → Built n pre t
    → ((t' : Tables) × (link_edges n t es ≡ some (ok t')) × Built n (pre ++ es) t' × InRange n es)
      ⊎ ((link_edges n t es ≡ some (err SchedulerErr.parse_failed)) × ¬ InRange n es)
unfolding link_edges
link_edges_lem n pre [] t b = inl (t, refl, rw append-nil b, tt)
link_edges_lem n pre (e ∷ es) t b = elim (Bool-cases (leb n e.from_node || leb n e.to_node)) [
  | inl out ↦ inr (rw out refl, λ r. ground arith)
  | inr inside ↦
      let hf : e.from_node < n = ground arith in
      let ht : e.to_node < n = ground arith in
      let (t', run, b') = add_edge_lem n pre t e b hf ht in
      elim (link_edges_lem n (pre ++ (e ∷ [])) es t' b') [
        | inl (t'', rest, b'', r) ↦
            inl (t'', rw inside (rw (run, link_edges) rest), rw append_assoc at b'', (hf, ht, r))
        | inr (rest, no_range) ↦ inr (rw inside (rw (run, link_edges) rest), λ r. no_range r.2)
      ]
]

pub as_u32-small : (n : ℕ) (xs : List ℕ) → n ≤ u32_mod → AllBelow n xs → map as_u32 xs ≡ xs
as_u32-small n [] small b = refl
as_u32-small n (x ∷ xs) small b = ap₂ ◌∷◌ (omega (arith, b.0)) (as_u32-small n xs small b.1)
