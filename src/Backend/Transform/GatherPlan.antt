-- ===== src/Backend/Transform/GatherPlan.antt =====
-- The checks of the shapes of `call_gather`, of k3_kernel_backend/src/transform.rs.
use k3x_hera_rt.Common.{
  ℕ, zero, suc, ◌+◌, ◌-◌, ◌≤◌, ◌<◌, ◌≡◌, refl, ap, true, false, List, [], ◌∷◌, ◌++◌, ◌==◌, ltb,
  length, get_or, take, drop, ok, guard, >>=-eq-ok, guard-eq-ok, ok-injective, ℕ_discrete, arith,
  ◌⊎◌, Bool-cases, inl, inr,
}
use mathlib.Core.Path.{subst}
use k3x_hera_rt.Uabi.Error.{BackendErr}
use k3x_hera_rt.Uabi.KernelAttr.{GatherAttr}
use k3x_hera_rt.Backend.Call.{TensorMeta}
use k3x_hera_rt.Backend.Context.{normalize_axis}
use k3x_hera_rt.Backend.Vector.{returned, try}
use k3x_hera_rt.Backend.Transform.GatherEntries.{Gathering, gather_axes, expected_dim, gather_plan}
use k3x_hera_rt.Backend.Transform.Permutation.{axis_below}
use k3x_hera_rt.Backend.Transform.Open.{try-eq-ok}

pub take-append : (n : ℕ) (xs ys : List ℕ) → n ≤ length xs → take n (xs ++ ys) ≡ take n xs
take-append zero xs ys h = refl
take-append (suc n) [] ys h = absurd (omega arith)
take-append (suc n) (x ∷ xs) ys h = ap (λ zs. x ∷ zs) (take-append n xs ys (omega arith))

pub drop-append : (n : ℕ) (xs ys : List ℕ) → n ≤ length xs → drop n (xs ++ ys) ≡ drop n xs ++ ys
drop-append zero xs ys h = refl
drop-append (suc n) [] ys h = absurd (omega arith)
drop-append (suc n) (x ∷ xs) ys h = drop-append n xs ys (omega arith)

pub get_or-drop : (n : ℕ) (xs : List ℕ) (j : ℕ) → get_or (drop n xs) j 0 ≡ get_or xs (n + j) 0
get_or-drop zero xs j = ap (λ k. get_or xs k 0) (omega arith)
get_or-drop (suc n) [] j = refl
get_or-drop (suc n) (x ∷ xs) j =
    let step : suc n + j ≡ suc (n + j) = omega arith in rw step (get_or-drop n xs j)

pub get_or-append_past :
    (xs ys : List ℕ) (j : ℕ) → get_or (xs ++ ys) (length xs + j) 0 ≡ get_or ys j 0
get_or-append_past [] ys j = ap (λ k. get_or ys k 0) (omega arith)
get_or-append_past (x ∷ xs) ys j =
    let step : suc (length xs) + j ≡ suc (length xs + j) = omega arith in
    rw step (get_or-append_past xs ys j)

pub axis_cases : (axis j : ℕ) → (j < axis) ⊎ ((k : ℕ) × (axis + k ≡ j))
axis_cases axis j = elim (Bool-cases (ltb j axis)) [
  | inl before ↦ inl (ground arith)
  | inr after ↦ inr (j - axis, ground arith)
]

pub gather_axes_lem :
    (data_meta indices_meta output_meta : TensorMeta) (axis current count : ℕ)
    → gather_axes data_meta indices_meta output_meta axis current count ≡ ok tt
    → (j : ℕ) → current ≤ j
    → j < current + count
    → get_or output_meta.shape j 0 ≡ expected_dim data_meta indices_meta axis j
unfolding gather_axes
gather_axes_lem data_meta indices_meta output_meta axis current zero h j lo hi =
    absurd (omega arith)
gather_axes_lem data_meta indices_meta output_meta axis current (suc count) h j lo hi =
    let (_, e1, h1) =
      >>=-eq-ok
        (guard
          (get_or output_meta.shape current 0 == expected_dim data_meta indices_meta axis current)
          BackendErr.invalid_tensor)
        _ h in
    elim (ℕ_discrete current j) [
      | yes e ↦
          subst (λ i. get_or output_meta.shape i 0 ≡ expected_dim data_meta indices_meta axis i) e
            (ground (arith, guard-eq-ok _ _ e1))
      | no later ↦
          gather_axes_lem data_meta indices_meta output_meta axis (current + 1) count h1 j
            (omega (arith, lo, later)) (omega (arith, hi))
    ]

-- What the checks of the shapes say of an axis of the output.
module _ (data_meta indices_meta : TensorMeta) (axis j : ℕ) where
  pub dim_before :
      j < axis → expected_dim data_meta indices_meta axis j ≡ get_or data_meta.shape j 0
  dim_before h = let e : ltb j axis ≡ true = ground (arith, h) in rw e refl

  pub dim_index :
      j < indices_meta.rank
      → expected_dim data_meta indices_meta axis (axis + j) ≡ get_or indices_meta.shape j 0
  dim_index h =
      let late : ltb (axis + j) axis ≡ false = ground arith in
      let early : ltb (axis + j) (axis + indices_meta.rank) ≡ true = ground (arith, h) in
      rw late (rw early (ap (λ i. get_or indices_meta.shape i 0) (omega arith)))

  pub dim_after :
      expected_dim data_meta indices_meta axis (axis + indices_meta.rank + j)
      ≡ get_or data_meta.shape (axis + 1 + j) 0
  dim_after =
      let after : ltb (axis + indices_meta.rank + j) axis ≡ false = ground arith in
      let past : ltb (axis + indices_meta.rank + j) (axis + indices_meta.rank) ≡ false =
        ground arith in
      rw after (rw past (ap (λ i. get_or data_meta.shape i 0) (omega arith)))

-- What the plan has established.
pub record Planned (g : Gathering GatherAttr) (axis : ℕ) : Type 0 where
  pub ranks : g.pair.output_meta.rank ≡ g.pair.input_meta.rank - 1 + g.indices_meta.rank
  pub below : axis < g.pair.input_meta.rank
  pub axes :
      gather_axes g.pair.input_meta g.indices_meta g.pair.output_meta axis 0 g.pair.output_meta.rank
      ≡ ok tt

pub plan-Planned : (g : Gathering GatherAttr) (axis : ℕ) → gather_plan g ≡ ok axis → Planned g axis
unfolding gather_plan
plan-Planned g axis h =
    let (_, e1, h1) =
      >>=-eq-ok
        (guard (g.pair.input.dtype == g.pair.output.dtype) (returned BackendErr.unsupported_dtype))
        _ h in
    let (n, e2, h2) =
      >>=-eq-ok (try (normalize_axis g.pair.attr.axis g.pair.input_meta.rank)) _ h1 in
    let (_, e3, h3) =
      >>=-eq-ok
        (guard (g.pair.output_meta.rank == g.pair.input_meta.rank - 1 + g.indices_meta.rank)
          (returned BackendErr.invalid_tensor))
        _ h2 in
    let (_, e4, h4) =
      >>=-eq-ok
        (try (
          gather_axes g.pair.input_meta g.indices_meta g.pair.output_meta n 0
            g.pair.output_meta.rank))
        _ h3 in
    subst (Planned g) (ok-injective h4) (record {
      ranks = ground (arith, guard-eq-ok _ _ e3);
      below =
          axis_below g.pair.attr.axis g.pair.input_meta.rank
            (try-eq-ok (normalize_axis g.pair.attr.axis g.pair.input_meta.rank) e2);
      axes = try-eq-ok _ e4;
    })
