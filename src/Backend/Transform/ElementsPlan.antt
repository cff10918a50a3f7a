-- ===== src/Backend/Transform/ElementsPlan.antt =====
-- The checks of the shapes of `call_gather_elements`, of k3_kernel_backend/src/transform.rs.
use k3x_hera_rt.Common.{
  ℕ, zero, suc, ◌+◌, ◌≤◌, ◌<◌, ◌≡◌, ◌≢◌, refl, sym, ◌∙◌, ap, ap₂, Bool, true, false, not, ◌&&◌,
  ◌||◌, List, [], ◌∷◌, ◌++◌, ◌==◌, ltb, length, get_or, set, ok, guard, >>=-eq-ok, guard-eq-ok,
  ok-injective, ℕ_discrete, arith,
}
use mathlib.Core.Path.{subst}
use k3x_hera_rt.Uabi.Error.{BackendErr}
use k3x_hera_rt.Uabi.KernelAttr.{GatherElementsAttr}
use k3x_hera_rt.Backend.Call.{TensorMeta}
use k3x_hera_rt.Backend.Context.{normalize_axis}
use k3x_hera_rt.Backend.Vector.{returned, try}
use k3x_hera_rt.Backend.Transform.GatherEntries.{Gathering, same_dims, elements_axes, elements_plan}
use k3x_hera_rt.Backend.Transform.Permutation.{axis_below}
use k3x_hera_rt.Backend.Transform.Open.{dims, try-eq-ok}

same_dims-eq : (a b : List ℕ) → same_dims a b ≡ true → a ≡ b
same_dims-eq [] [] h = refl
same_dims-eq [] (y ∷ b) h = cc
same_dims-eq (x ∷ a) [] h = cc
same_dims-eq (x ∷ a) (y ∷ b) h =
    let (e, rest) = both (x == y) (same_dims a b) h in
    ap₂ (λ (z : ℕ) zs. z ∷ zs) (ground (arith, e)) (same_dims-eq a b rest)
  where
    both : (p q : Bool) → (p && q) ≡ true → (p ≡ true) × (q ≡ true)
    both true q h = (refl, h)
    both false q h = cc

other_axis :
    (current axis a b : ℕ) → not (not (current == axis) && ltb a b) ≡ true → current ≢ axis → b ≤ a
other_axis current axis a b h ne = ground arith

pub elements_axes_lem :
    (data_meta indices_meta : TensorMeta) (axis current count : ℕ)
    → elements_axes data_meta indices_meta axis current count ≡ ok tt
    → (j : ℕ) → current ≤ j
    → j < current + count
    → j ≢ axis
    → get_or indices_meta.shape j 0 ≤ get_or data_meta.shape j 0
unfolding elements_axes
elements_axes_lem data_meta indices_meta axis current zero h j lo hi ne = absurd (omega arith)
elements_axes_lem data_meta indices_meta axis current (suc count) h j lo hi ne =
    let (_, e1, h1) =
      >>=-eq-ok
        (guard
          (not (
            not (current == axis)
            && ltb (get_or data_meta.shape current 0) (get_or indices_meta.shape current 0)))
          BackendErr.invalid_tensor)
        _ h in
    elim (ℕ_discrete current j) [
      | yes e ↦
          let differs : current ≢ axis = λ k. ne (sym e ∙ k) in
          subst (λ i. get_or indices_meta.shape i 0 ≤ get_or data_meta.shape i 0) e
            (other_axis current axis _ _ (guard-eq-ok _ _ e1) differs)
      | no later ↦
          elements_axes_lem data_meta indices_meta axis (current + 1) count h1 j
            (omega (arith, lo, later)) (omega (arith, hi)) ne
    ]

pub set-append : (xs ys : List ℕ) (i v : ℕ) → i < length xs → set (xs ++ ys) i v ≡ set xs i v ++ ys
set-append [] ys i v h = absurd (omega arith)
set-append (x ∷ xs) ys zero v h = refl
set-append (x ∷ xs) ys (suc i) v h = ap (λ zs. x ∷ zs) (set-append xs ys i v (omega arith))

plan_tests : (a b c : Bool) → not (not a || not b || not c) ≡ true → (b ≡ true) × (c ≡ true)
plan_tests true true true h = (refl, refl)
plan_tests true true false h = cc
plan_tests true false c h = cc
plan_tests false b c h = cc

-- What the plan has established.
pub record Planned (g : Gathering GatherElementsAttr) (axis : ℕ) : Type 0 where
  pub same_rank : g.pair.input_meta.rank ≡ g.indices_meta.rank
  pub same : dims g.pair.output_meta ≡ dims g.indices_meta
  pub below : axis < g.pair.input_meta.rank
  pub axes : elements_axes g.pair.input_meta g.indices_meta axis 0 g.pair.input_meta.rank ≡ ok tt

pub plan-Planned :
    (g : Gathering GatherElementsAttr) (axis : ℕ) → elements_plan g ≡ ok axis → Planned g axis
unfolding elements_plan
plan-Planned g axis h =
    let (_, e1, h1) =
      >>=-eq-ok
        (guard
          (not (
            not (g.pair.input.dtype == g.pair.output.dtype)
            || not (g.pair.input_meta.rank == g.indices_meta.rank)
            || not (same_dims (dims g.pair.output_meta) (dims g.indices_meta))))
          (returned BackendErr.invalid_tensor))
        _ h in
    let (n, e2, h2) =
      >>=-eq-ok (try (normalize_axis g.pair.attr.axis g.pair.input_meta.rank)) _ h1 in
    let (_, e3, h3) =
      >>=-eq-ok (try (elements_axes g.pair.input_meta g.indices_meta n 0 g.pair.input_meta.rank)) _
        h2 in
    let (ranks, shapes) =
      plan_tests (g.pair.input.dtype == g.pair.output.dtype)
        (g.pair.input_meta.rank == g.indices_meta.rank)
        (same_dims (dims g.pair.output_meta) (dims g.indices_meta)) (guard-eq-ok _ _ e1) in
    subst (Planned g) (ok-injective h3) (record {
      same_rank = ground (arith, ranks);
      same = same_dims-eq _ _ shapes;
      below =
          axis_below g.pair.attr.axis g.pair.input_meta.rank
            (try-eq-ok (normalize_axis g.pair.attr.axis g.pair.input_meta.rank) e2);
      axes = try-eq-ok _ e3;
    })
