-- ===== src/Backend/Transform/Expand.antt =====
-- `call_expand` of k3_kernel_backend/src/transform.rs.
use k3x_hera_rt.Common.{
  ℕ, zero, suc, ◌+◌, ◌^◌, ◌≤◌, ◌<◌, ◌≡◌, ◌⊎◌, inl, inr, if◌then◌else◌, ◌&&◌, refl, sym, ◌∙◌, ap,
  true, false, not, ◌||◌, List, [], ◌∷◌, ◌++◌, ◌==◌, ltb, length, get_or, take, drop, ok, guard,
  Result, >>=-eq-ok, guard-eq-ok, length-append, length-drop, take-append_self, not-ltb, ◌-◌, arith,
}
use mathlib.Core.Path.{subst}
use k3x_hera_rt.Uabi.Error.{BackendErr}
use k3x_hera_rt.Uabi.KernelAttr.{ExpandAttr}
use k3x_hera_rt.Uabi.Desc.{max_dim}
use k3x_hera_rt.Backend.Call.{TensorMeta, is_contiguous}
use k3x_hera_rt.Backend.Call.Offset.{Inside, row_major, length-Inside}
use k3x_hera_rt.Backend.Call.Meta.{Checked, checked_meta-Checked}
use k3x_hera_rt.Backend.Context.{CallContext}
use k3x_hera_rt.Backend.Vector.{returned, Strip, try}
use k3x_hera_rt.Backend.Transform.{remap_single_input, aligned_shape}
use k3x_hera_rt.Backend.Transform.Offsets.{zeros}
use k3x_hera_rt.Backend.Transform.Entries.{
  Opened, open_pair, expand_axes, expand_plan, expand_coords, expand_source, call_expand,
}
use k3x_hera_rt.Backend.Transform.Permutation.{
  pointwise-Inside, Inside-get_or, get_or-take, get_or-append,
}
use k3x_hera_rt.Backend.Transform.Open.{
  Pair, Comes, dims, open_pair-Pair, remap-Comes, try-eq-ok, linear_of, length-dims,
}

-- The source coordinates of an element of an expanded output: the shape of the input, of rank `rank`,
-- is aligned to the right.
abbrev pub Broadcast : (dims : List ℕ) → (leading : ℕ) → (coords source : List ℕ) → Type 0
Broadcast ds leading coords source =
    (j : ℕ)
    → j < length ds
    → get_or source j 0 ≡ (if get_or ds j 0 == 1 then 0 else get_or coords (leading + j) 0)

-- Each dimension of the input is 1 or that of the output.
abbrev Fits : (ds out : List ℕ) → (leading : ℕ) → Type 0
Fits ds out leading =
    (j : ℕ) → j < length ds → (get_or ds j 0 ≡ 1) ⊎ (get_or ds j 0 ≡ get_or out (leading + j) 0)

axis_test : (a d : ℕ) → not (not (a == 1) && not (a == d)) ≡ true → (a ≡ 1) ⊎ (a ≡ d)
axis_test a d h = ground arith

abbrev AlignedFits : (input_meta output_meta : TensorMeta) → ℕ → Type 0
AlignedFits input_meta output_meta axis =
    (aligned_shape input_meta output_meta.rank axis ≡ 1)
    ⊎ (aligned_shape input_meta output_meta.rank axis ≡ get_or output_meta.shape axis 0)

first_or_later :
    (P : ℕ → Type 0) (axis count : ℕ)
    → P axis
    → ((i : ℕ) → i < count → P (axis + 1 + i))
    → (i : ℕ) → i < suc count
    → P (axis + i)
first_or_later P axis count first later zero lt = subst P {x = axis} (omega arith) first
first_or_later P axis count first later (suc i) lt =
    subst P {x = axis + 1 + i} (omega arith) (later i (omega arith))

expand_axes_lem :
    (input_meta output_meta : TensorMeta) (target : List ℕ) (axis count : ℕ)
    → expand_axes input_meta output_meta target axis count ≡ ok tt
    → (i : ℕ) → i < count
    → AlignedFits input_meta output_meta (axis + i)
unfolding expand_axes
expand_axes_lem input_meta output_meta target axis zero h i lt = absurd (omega arith)
expand_axes_lem input_meta output_meta target axis (suc count) h i lt =
    let (_, e1, h1) =
      >>=-eq-ok
        (guard (get_or target axis 0 == get_or output_meta.shape axis 0) BackendErr.invalid_attr) _
        h in
    let (_, e2, h2) =
      >>=-eq-ok
        (guard
          (not (
            not (aligned_shape input_meta output_meta.rank axis == 1)
            && not (
                aligned_shape input_meta output_meta.rank axis == get_or output_meta.shape axis 0)))
          BackendErr.invalid_tensor)
        _ h1 in
    first_or_later (AlignedFits input_meta output_meta) axis count
      (axis_test (aligned_shape input_meta output_meta.rank axis) (get_or output_meta.shape axis 0)
        (guard-eq-ok _ _ e2))
      (expand_axes_lem input_meta output_meta target (axis + 1) count h2) i lt

Broadcast-cons :
    (d c : ℕ) (ds coords source : List ℕ)
    → ((j : ℕ)
        → j < length ds
        → get_or source j 0 ≡ (if get_or ds j 0 == 1 then 0 else get_or coords j 0))
    → (j : ℕ) → j < length (d ∷ ds)
    → get_or ((if d == 1 then 0 else c) ∷ source) j 0
      ≡ (if get_or (d ∷ ds) j 0 == 1 then 0 else get_or (c ∷ coords) j 0)
Broadcast-cons d c ds coords source h zero lt = refl
Broadcast-cons d c ds coords source h (suc j) lt = h j (omega arith)

expand_coords_lem :
    (ds coords : List ℕ)
    → length ds ≤ length coords
    → (length (expand_coords ds coords) ≡ length ds)
      × ((j : ℕ)
          → j < length ds
          → get_or (expand_coords ds coords) j 0
            ≡ (if get_or ds j 0 == 1 then 0 else get_or coords j 0))
unfolding expand_coords
expand_coords_lem [] coords long = (refl, λ j lt. absurd (omega (arith, lt)))
expand_coords_lem (d ∷ ds) [] long = absurd (omega arith)
expand_coords_lem (d ∷ ds) (c ∷ coords) long =
    let (size, broadcast) = expand_coords_lem ds coords (omega arith) in
    (ap suc size, Broadcast-cons d c ds coords (expand_coords ds coords) broadcast)

get_or-drop : (n : ℕ) (xs : List ℕ) (j : ℕ) → get_or (drop n xs) j 0 ≡ get_or xs (n + j) 0
get_or-drop zero xs j = ap (λ k. get_or xs k 0) (omega arith)
get_or-drop (suc n) [] j = refl
get_or-drop (suc n) (x ∷ xs) j =
    get_or-drop n xs j ∙ ap (λ k. get_or (x ∷ xs) k 0) {x = suc (n + j)} (omega arith)

-- The source coordinates are inside the dimensions of the input.
expanded_Inside :
    (ds outs coords rest : List ℕ) (leading : ℕ)
    → leading + length ds ≡ length outs
    → Inside coords outs
    → Fits ds outs leading
    → Inside (expand_coords ds (drop leading (coords ++ rest))) ds
      × Broadcast ds leading coords (expand_coords ds (drop leading (coords ++ rest)))
expanded_Inside ds outs coords rest leading sized inside fits =
    let full = length-Inside coords outs inside in
    let long : length ds ≤ length (drop leading (coords ++ rest)) =
      omega (arith, length-drop leading (coords ++ rest), length-append coords rest, full, sized) in
    let (size, from) = expand_coords_lem ds (drop leading (coords ++ rest)) long in
    let broadcast : Broadcast ds leading coords (expand_coords ds (drop leading (coords ++ rest))) =
      λ j lt.
        from j lt
        ∙ ap (λ c. if get_or ds j 0 == 1 then 0 else c)
            (get_or-drop leading (coords ++ rest) j
              ∙ get_or-append coords rest (leading + j) (omega (arith, full, sized, lt))) in
    (
      pointwise-Inside (expand_coords ds (drop leading (coords ++ rest))) ds size (λ j lt.
          inside_axis (get_or ds j 0) (get_or coords (leading + j) 0) (get_or outs (leading + j) 0)
            (broadcast j lt)
            (Inside-get_or coords outs (leading + j) inside (omega (arith, full, sized, lt)))
            (fits j lt)),
      broadcast,
    )
  where
    inside_axis :
        (d c out : ℕ) {s : ℕ}
        → s ≡ (if d == 1 then 0 else c)
        → c < out
        → (d ≡ 1) ⊎ (d ≡ out)
        → s < d
    inside_axis d c out e lt (inl one) = ground arith
    inside_axis d c out e lt (inr same) = ground arith

small_rank : (a b c d e f : ℕ) → not (not (a == b) || not (c == d) || ltb e f) ≡ true → f ≤ e
small_rank a b c d e f h = ground arith

plan_lem :
    (o : Opened ExpandAttr)
    → expand_plan o ≡ ok tt
    → (o.input_meta.rank ≤ o.output_meta.rank)
      × (expand_axes o.input_meta o.output_meta o.attr.target_shape 0 o.output_meta.rank ≡ ok tt)
unfolding expand_plan
plan_lem o h =
    let (_, e1, h1) =
      >>=-eq-ok
        (guard
          (not (
            not (o.input.dtype == o.output.dtype)
            || not (o.attr.rank == o.output_meta.rank)
            || ltb o.output_meta.rank o.input_meta.rank))
          (returned BackendErr.invalid_tensor))
        _ h in
    (
      small_rank o.input.dtype o.output.dtype o.attr.rank o.output_meta.rank o.output_meta.rank
          o.input_meta.rank (guard-eq-ok _ _ e1),
      try-eq-ok _ h1,
    )

module _ (vl : ℕ → ℕ) (strip : Strip vl) (memory : (address count : ℕ) → List ℕ)
    (memory_size : (address count : ℕ) → length (memory address count) ≡ count)
    (opened : Result BackendErr CallContext) (attr : ExpandAttr) (o : Opened ExpandAttr)
    (accepted : open_pair opened attr ≡ ok o) (planned : expand_plan o ≡ ok tt)
    (input_shape : length o.input.shape ≡ max_dim)
    (input_strides : length o.input.stride_bytes ≡ max_dim)
    (output_shape : length o.output.shape ≡ max_dim)
    (output_strides : length o.output.stride_bytes ≡ max_dim)
    (input_small : o.input_meta.element_count < 2 ^ 60)
    (output_small : o.output_meta.element_count < 2 ^ 60)
    (contiguous : is_contiguous o.output_meta ≡ true) where
  pair : Pair o
  pair = open_pair-Pair opened attr o accepted

  abbrev in_checked : Checked o.input o.input_meta
  in_checked =
      checked_meta-Checked o.input o.input_meta input_shape input_strides pair.input_accepted

  abbrev out_checked : Checked o.output o.output_meta
  out_checked =
      checked_meta-Checked o.output o.output_meta output_shape output_strides pair.output_accepted

  few_axes : o.input_meta.rank ≤ o.output_meta.rank
  few_axes = (plan_lem o planned).0

  abbrev leading : ℕ
  leading = o.output_meta.rank - o.input_meta.rank

  in_rank : length (dims o.input_meta) ≡ o.input_meta.rank
  in_rank = length-dims o.input o.input_meta in_checked

  out_rank : length (dims o.output_meta) ≡ o.output_meta.rank
  out_rank = length-dims o.output o.output_meta out_checked

  aligned :
      (j : ℕ)
      → aligned_shape o.input_meta o.output_meta.rank (leading + j) ≡ get_or o.input_meta.shape j 0
  unfolding aligned_shape
  aligned j =
      let past : ltb (leading + j) leading ≡ false = not-ltb (leading + j) leading (omega arith) in
      rw (past, aligned_shape) (ap (λ k. get_or o.input_meta.shape k 0) (omega arith))

  fits : Fits (dims o.input_meta) (dims o.output_meta) leading
  fits j lt =
      let small : j < o.input_meta.rank = omega (arith, lt, in_rank) in
      let at : leading + j < o.output_meta.rank = omega (arith, small, few_axes) in
      let in_dim = get_or-take o.input_meta.rank o.input_meta.shape j small in
      let out_dim = get_or-take o.output_meta.rank o.output_meta.shape (leading + j) at in
      let test : AlignedFits o.input_meta o.output_meta (leading + j) =
        subst (AlignedFits o.input_meta o.output_meta) {x = 0 + (leading + j)} (omega arith) (
          expand_axes_lem o.input_meta o.output_meta o.attr.target_shape 0 o.output_meta.rank
            (plan_lem o planned).1 (leading + j) at) in
      elim test [
        | inl one ↦ inl (in_dim ∙ sym (aligned j) ∙ one)
        | inr same ↦ inr (in_dim ∙ sym (aligned j) ∙ same ∙ sym out_dim)
      ]

  leads :
      (coords : List ℕ)
      → Inside coords (dims o.output_meta)
      → (source : List ℕ) × Inside source (dims o.input_meta)
        × (expand_source o.input_meta o.output_meta (coords ++ drop o.output_meta.rank zeros)
            ≡ ok (row_major source (dims o.input_meta)))
        × Broadcast (dims o.input_meta) leading coords source
  leads coords inside =
      let (within, broadcast) =
        expanded_Inside (dims o.input_meta) (dims o.output_meta) coords
          (drop o.output_meta.rank zeros) leading (omega (arith, in_rank, out_rank, few_axes))
          inside fits in
      let source : List ℕ =
        expand_coords (dims o.input_meta)
          (drop leading (coords ++ drop o.output_meta.rank zeros)) in
      let taken : take o.input_meta.rank (source ++ drop o.input_meta.rank zeros) ≡ source =
        ap (λ n. take n (source ++ drop o.input_meta.rank zeros))
          (sym in_rank ∙ sym (length-Inside source (dims o.input_meta) within))
        ∙ take-append_self source _ in
      (
        source,
        within,
        ap try (
            linear_of o.input o.input_meta in_checked input_small
              (source ++ drop o.input_meta.rank zeros) (rw taken within)
            ∙ ap (λ s. ok (row_major s (dims o.input_meta))) taken),
        broadcast,
      )

  -- An expansion whose checks pass ends without an error or a panic, and is right. For a call that
  -- `open_pair` and the plan accept (its arrays with `MAX_DIM` entries), tensors of fewer than 2^60
  -- elements and a contiguous output: each element of the new output is the element of the input with the
  -- last coordinates of the output, or 0 on each axis on which the input's dimension is 1.
  pub call_expand_broadcasts :
      (bytes : List ℕ) × (call_expand vl memory opened attr ≡ ok bytes)
      × ((linear : ℕ)
          → linear < o.output_meta.element_count
          → Comes o bytes
              (memory o.input.data_address o.input.byte_len)
              (Broadcast (dims o.input_meta) (o.output_meta.rank - o.input_meta.rank))
              linear)
  unfolding call_expand remap_single_input
  call_expand_broadcasts =
      let (bytes, run, comes) =
        remap-Comes vl strip memory memory_size o pair input_shape input_strides output_shape
          output_strides input_small output_small contiguous
          (λ _. expand_source o.input_meta o.output_meta) (Broadcast (dims o.input_meta) leading)
          leads in
      (bytes, rw (accepted, call_expand) (rw (planned, call_expand) run), comes)
