-- ===== src/Backend/Transform/Gather.antt =====
-- `call_gather` of k3_kernel_backend/src/transform.rs.
use k3x_hera_rt.Common.{
  ℕ, zero, suc, ◌+◌, ◌-◌, ◌^◌, ◌<◌, ◌≡◌, refl, sym, ◌∙◌, ap, true, List, ◌∷◌, ◌++◌, length, get_or,
  take, drop, ok, Result, length-append, length-take, length-drop, take-append_self, arith, inl,
  inr,
}
use mathlib.Core.List.{append_assoc}
use mathlib.Core.Path.{subst}
use k3x_hera_rt.Uabi.Error.{BackendErr}
use k3x_hera_rt.Uabi.KernelAttr.{GatherAttr}
use k3x_hera_rt.Uabi.Desc.{max_dim}
use k3x_hera_rt.Backend.Call.{TensorMeta, checked_meta, is_contiguous}
use k3x_hera_rt.Backend.Call.Scan.{product}
use k3x_hera_rt.Backend.Call.Offset.{Inside, row_major, length-Inside}
use k3x_hera_rt.Backend.Call.Meta.{Checked, checked_meta-Checked}
use k3x_hera_rt.Backend.Context.{CallContext}
use k3x_hera_rt.Backend.Vector.{Strip, try}
use k3x_hera_rt.Backend.Transform.{normalize_index, row_major_linear}
use k3x_hera_rt.Backend.Transform.Offsets.{zeros, row_major-lt}
use k3x_hera_rt.Backend.Transform.GatherEntries.{
  Gathering, open_gather, read_indices, expected_dim, gather_plan, gather_source, call_gather,
}
use k3x_hera_rt.Backend.Transform.Permutation.{
  pointwise-Inside, Inside-get_or, get_or-take, get_or-append,
}
use k3x_hera_rt.Backend.Transform.IndexWords.{IndexAt, HoldsWords, read_indices_lem}
use k3x_hera_rt.Backend.Transform.Indices.{
  AllIndex, open_gather-Pair, length-read_indices, index_at_lem, normalize_index-lt,
}
use k3x_hera_rt.Backend.Transform.Open.{
  Pair, Comes, dims, dims_lem, remap-Comes, linear_of, length-dims,
}
use k3x_hera_rt.Backend.Transform.GatherPlan.{
  take-append, drop-append, get_or-drop, get_or-append_past, axis_cases, gather_axes_lem,
  dim_before, dim_index, dim_after, Planned, plan-Planned,
}

-- The source coordinates of an element: in place of those along the axes of the indices, the index
-- that stands there.
abbrev pub GatheredFrom :
    (IsIndex : (linear index : ℕ) → Type 0)
    → (index_dims : List ℕ) → (axis dimension : ℕ) → (coords source : List ℕ) → Type 0
GatheredFrom IsIndex index_dims axis dimension coords source =
    (index : ℕ) × IsIndex (row_major (take (length index_dims) (drop axis coords)) index_dims) index
    × ((n : ℕ) × (normalize_index index dimension ≡ ok n)
        × (source ≡ take axis coords ++ (n ∷ drop (axis + length index_dims) coords)))

module _ (vl : ℕ → ℕ) (strip : Strip vl) (memory : (address count : ℕ) → List ℕ)
    (memory_size : (address count : ℕ) → length (memory address count) ≡ count)
    (opened : Result BackendErr CallContext) (attr : GatherAttr) (g : Gathering GatherAttr)
    (axis : ℕ) (indices : List ℕ) (accepted : open_gather opened attr ≡ ok g)
    (planned : gather_plan g ≡ ok axis)
    (read : read_indices memory g.indices g.indices_meta ≡ ok indices)
    (valid : AllIndex indices (get_or g.pair.input_meta.shape axis 0))
    (told : (linear : ℕ)
      → linear < g.indices_meta.element_count
      → IndexAt g.indices g.indices_meta
          (memory g.indices.data_address g.indices.byte_len)
          linear
          (get_or indices linear 0))
    (input_shape : length g.pair.input.shape ≡ max_dim)
    (input_strides : length g.pair.input.stride_bytes ≡ max_dim)
    (indices_shape : length g.indices.shape ≡ max_dim)
    (indices_strides : length g.indices.stride_bytes ≡ max_dim)
    (output_shape : length g.pair.output.shape ≡ max_dim)
    (output_strides : length g.pair.output.stride_bytes ≡ max_dim)
    (input_small : g.pair.input_meta.element_count < 2 ^ 60)
    (indices_small : g.indices_meta.element_count < 2 ^ 60)
    (output_small : g.pair.output_meta.element_count < 2 ^ 60)
    (contiguous : is_contiguous g.pair.output_meta ≡ true) where
  abbrev data_meta : TensorMeta
  data_meta = g.pair.input_meta

  abbrev index_meta : TensorMeta
  index_meta = g.indices_meta

  abbrev out_meta : TensorMeta
  out_meta = g.pair.output_meta

  abbrev IsIndexHere : (linear index : ℕ) → Type 0
  IsIndexHere = IndexAt g.indices g.indices_meta (memory g.indices.data_address g.indices.byte_len)

  full_read : length indices ≡ g.indices_meta.element_count
  full_read = length-read_indices memory g.indices g.indices_meta indices read

  facts : Pair g.pair × (checked_meta g.indices ≡ ok g.indices_meta)
  facts = open_gather-Pair opened attr g accepted

  plan : Planned g axis
  plan = plan-Planned g axis planned

  in_checked : Checked g.pair.input data_meta
  in_checked =
      checked_meta-Checked g.pair.input data_meta input_shape input_strides facts.0.input_accepted

  indices_checked : Checked g.indices index_meta
  indices_checked = checked_meta-Checked g.indices index_meta indices_shape indices_strides facts.1

  out_checked : Checked g.pair.output out_meta
  out_checked =
      checked_meta-Checked g.pair.output out_meta output_shape output_strides
        facts.0.output_accepted

  in_rank : length (dims data_meta) ≡ data_meta.rank
  in_rank = length-dims g.pair.input data_meta in_checked

  index_rank : length (dims index_meta) ≡ index_meta.rank
  index_rank = length-dims g.indices index_meta indices_checked

  out_rank : length (dims out_meta) ≡ out_meta.rank
  out_rank = length-dims g.pair.output out_meta out_checked

  enough : length indices ≡ product (dims index_meta)
  enough =
      length-read_indices memory g.indices index_meta indices read
      ∙ indices_checked.count
      ∙ ap product (sym (dims_lem g.indices index_meta indices_checked))

  module _ (coords : List ℕ) (inside : Inside coords (dims out_meta)) where
    all_axes : length coords ≡ out_meta.rank
    all_axes = length-Inside coords (dims out_meta) inside ∙ out_rank

    bound :
        (j : ℕ) → j < out_meta.rank → get_or coords j 0 < expected_dim data_meta index_meta axis j
    bound j lt =
        let below = Inside-get_or coords (dims out_meta) j inside (omega (arith, all_axes, lt)) in
        let out_dim = get_or-take out_meta.rank out_meta.shape j lt in
        let expected =
          gather_axes_lem data_meta index_meta out_meta axis 0 out_meta.rank plan.axes j
            (omega arith) (omega (arith, lt)) in
        omega (arith, below, out_dim, expected)

    abbrev index_coords : List ℕ
    index_coords = take index_meta.rank (drop axis coords)

    index_coords-Inside : Inside index_coords (dims index_meta)
    index_coords-Inside =
        pointwise-Inside index_coords (dims index_meta)
          (omega (
            arith,
            length-take index_meta.rank (drop axis coords),
            length-drop axis coords,
            all_axes,
            plan.ranks,
            plan.below,
            index_rank,
          ))
          (λ j lt.
            let small : j < index_meta.rank = omega (arith, lt, index_rank) in
            let here = get_or-take index_meta.rank (drop axis coords) j small in
            let there = get_or-drop axis coords j in
            let limit = bound (axis + j) (omega (arith, small, plan.ranks, plan.below)) in
            let dim = dim_index data_meta index_meta axis j small in
            let own = get_or-take index_meta.rank index_meta.shape j small in
            omega (arith, here, there, limit, dim, own))

    abbrev source_of : ℕ → List ℕ
    source_of n = take axis coords ++ (n ∷ drop (axis + index_meta.rank) coords)

    before_length : length (take axis coords) ≡ axis
    before_length = omega (arith, length-take axis coords, all_axes, plan.ranks, plan.below)

    after_length : length (drop (axis + index_meta.rank) coords) ≡ data_meta.rank - (axis + 1)
    after_length =
        omega (arith, length-drop (axis + index_meta.rank) coords, all_axes, plan.ranks, plan.below)

    length-source_of : (n : ℕ) → length (source_of n) ≡ data_meta.rank
    length-source_of n = omega (
      arith,
      length-append (take axis coords) (n ∷ drop (axis + index_meta.rank) coords),
      before_length,
      after_length,
      plan.below,
    )

    source_past :
        (n k : ℕ)
        → get_or (source_of n) (axis + k) 0 ≡ get_or (n ∷ drop (axis + index_meta.rank) coords) k 0
    source_past n k =
        subst
          (λ a.
            get_or (source_of n) (a + k) 0 ≡ get_or (n ∷ drop (axis + index_meta.rank) coords) k 0)
          before_length
          (get_or-append_past (take axis coords) (n ∷ drop (axis + index_meta.rank) coords) k)

    abbrev BelowAt : (n j : ℕ) → Type 0
    BelowAt n j = get_or (source_of n) j 0 < get_or data_meta.shape j 0

    source_below :
        (n : ℕ) → n < get_or data_meta.shape axis 0 → (j : ℕ) → j < data_meta.rank → BelowAt n j
    source_below n small j lt = elim (axis_cases axis j) [
      | inl before ↦
          let here =
            get_or-append (take axis coords) (n ∷ drop (axis + index_meta.rank) coords) j
              (omega (arith, before, before_length)) in
          let own = get_or-take axis coords j before in
          let limit = bound j (omega (arith, before, lt, plan.ranks, plan.below)) in
          omega (arith, here, own, limit, dim_before data_meta index_meta axis j before)
      | inr (zero, e) ↦
          let here = source_past n 0 in
          let dim : get_or data_meta.shape (axis + 0) 0 ≡ get_or data_meta.shape axis 0 =
            ap (λ i. get_or data_meta.shape i 0) (omega arith) in
          subst (BelowAt n) e (omega (arith, here, small, dim))
      | inr (suc k, e) ↦
          let here = source_past n (suc k) in
          let there = get_or-drop (axis + index_meta.rank) coords k in
          let limit =
            bound (axis + index_meta.rank + k) (omega (arith, e, lt, plan.ranks, plan.below)) in
          let dim = dim_after data_meta index_meta axis k in
          let own : get_or data_meta.shape (axis + suc k) 0
              ≡ get_or data_meta.shape (axis + 1 + k) 0 =
            ap (λ i. get_or data_meta.shape i 0) (omega arith) in
          subst (BelowAt n) e (omega (arith, here, there, limit, dim, own))
    ]

    source_of-Inside :
        (n : ℕ) → n < get_or data_meta.shape axis 0 → Inside (source_of n) (dims data_meta)
    source_of-Inside n small =
        pointwise-Inside (source_of n) (dims data_meta) (length-source_of n ∙ sym in_rank) (λ j lt.
          let below = source_below n small j (omega (arith, lt, in_rank)) in
          let dim = get_or-take data_meta.rank data_meta.shape j (omega (arith, lt, in_rank)) in
          omega (arith, below, dim))

    index_linear :
        (rest : List ℕ)
        → row_major_linear index_meta
            (take index_meta.rank (drop axis (coords ++ rest)) ++ drop index_meta.rank zeros)
          ≡ ok (row_major index_coords (dims index_meta))
    index_linear rest =
        let begin =
          drop-append axis coords rest (omega (arith, all_axes, plan.ranks, plan.below)) in
        let part =
          take-append index_meta.rank (drop axis coords) rest
            (omega (arith, length-drop axis coords, all_axes, plan.ranks, plan.below)) in
        let size : length index_coords ≡ index_meta.rank =
          length-Inside index_coords (dims index_meta) index_coords-Inside ∙ index_rank in
        let taken : take index_meta.rank (index_coords ++ drop index_meta.rank zeros)
            ≡ index_coords =
          ap (λ k. take k (index_coords ++ drop index_meta.rank zeros)) (sym size)
          ∙ take-append_self index_coords _ in
        rw begin (
          rw part (
            linear_of g.indices index_meta indices_checked indices_small
              (index_coords ++ drop index_meta.rank zeros) (rw taken index_coords-Inside)
            ∙ ap (λ s. ok (row_major s (dims index_meta))) taken))

    source_linear :
        (n : ℕ) (rest : List ℕ)
        → n < get_or data_meta.shape axis 0
        → row_major_linear data_meta (
            take axis (coords ++ rest)
            ++ (n
                ∷ (take
                      (data_meta.rank - (axis + 1))
                      (drop (axis + index_meta.rank) (coords ++ rest))
                    ++ drop data_meta.rank zeros)))
          ≡ ok (row_major (source_of n) (dims data_meta))
    source_linear n rest small =
        let first =
          take-append axis coords rest (omega (arith, all_axes, plan.ranks, plan.below)) in
        let behind =
          drop-append (axis + index_meta.rank) coords rest
            (omega (arith, all_axes, plan.ranks, plan.below)) in
        let last : take (data_meta.rank - (axis + 1)) (drop (axis + index_meta.rank) coords ++ rest)
            ≡ drop (axis + index_meta.rank) coords =
          ap (λ k. take k (drop (axis + index_meta.rank) coords ++ rest)) (sym after_length)
          ∙ take-append_self (drop (axis + index_meta.rank) coords) rest in
        let whole =
          append_assoc (take axis coords) (n ∷ drop (axis + index_meta.rank) coords)
            (drop data_meta.rank zeros) in
        let taken : take data_meta.rank (source_of n ++ drop data_meta.rank zeros) ≡ source_of n =
          ap (λ k. take k (source_of n ++ drop data_meta.rank zeros)) (sym (length-source_of n))
          ∙ take-append_self (source_of n) _ in
        rw first (
          rw behind (
            rw last (
              ap (row_major_linear data_meta) (sym whole)
              ∙ linear_of g.pair.input data_meta in_checked input_small
                  (source_of n ++ drop data_meta.rank zeros) (rw taken (source_of-Inside n small))
              ∙ ap (λ s. ok (row_major s (dims data_meta))) taken)))

  leads :
      (coords : List ℕ)
      → Inside coords (dims out_meta)
      → (source : List ℕ) × Inside source (dims data_meta)
        × (gather_source data_meta index_meta axis indices (coords ++ drop out_meta.rank zeros)
            ≡ ok (row_major source (dims data_meta)))
        × GatheredFrom IsIndexHere
            (dims index_meta)
            axis
            (get_or data_meta.shape axis 0)
            coords
            source
  unfolding gather_source
  leads coords inside =
      let rest = drop out_meta.rank zeros in
      let at = row_major (index_coords coords inside) (dims index_meta) in
      let here : at < length indices = omega (
        arith,
        row_major-lt (index_coords coords inside) (dims index_meta)
            (index_coords-Inside coords inside),
        enough,
      ) in
      let (n, index) = valid at here in
      let small = normalize_index-lt (get_or indices at 0) (get_or data_meta.shape axis 0) index in
      (
        source_of coords inside n,
        source_of-Inside coords inside n small,
        rw (index_linear coords inside rest, gather_source)
            (rw (index_at_lem indices at here, gather_source)
              (rw (index, gather_source) (ap try (source_linear coords inside n rest small)))),
        rw index_rank
            (get_or indices at 0, told at (omega (arith, here, full_read)), (n, index, refl)),
      )

  selects :
      (bytes : List ℕ) × (call_gather vl memory opened attr ≡ ok bytes)
      × ((linear : ℕ)
          → linear < g.pair.output_meta.element_count
          → Comes g.pair bytes
              (memory g.pair.input.data_address g.pair.input.byte_len)
              (GatheredFrom IsIndexHere
                (dims g.indices_meta)
                axis
                (get_or g.pair.input_meta.shape axis 0))
              linear)
  unfolding call_gather
  selects =
      let (bytes, run, comes) =
        remap-Comes vl strip memory memory_size g.pair facts.0 input_shape input_strides
          output_shape output_strides input_small output_small contiguous
          (λ _. gather_source data_meta index_meta axis indices)
          (GatheredFrom IsIndexHere (dims index_meta) axis (get_or data_meta.shape axis 0)) leads in
      (
        bytes,
        rw (accepted, call_gather) (rw (planned, call_gather) (rw (read, call_gather) run)),
        comes,
      )

module _ (vl : ℕ → ℕ) (strip : Strip vl) (memory : (address count : ℕ) → List ℕ)
    (memory_size : (address count : ℕ) → length (memory address count) ≡ count)
    (opened : Result BackendErr CallContext) (attr : GatherAttr) (g : Gathering GatherAttr)
    (axis : ℕ) (accepted : open_gather opened attr ≡ ok g) (planned : gather_plan g ≡ ok axis)
    (words : HoldsWords g.indices)
    (valid : (linear index : ℕ)
      → linear < g.indices_meta.element_count
      → IndexAt g.indices g.indices_meta
          (memory g.indices.data_address g.indices.byte_len)
          linear
          index
      → (n : ℕ) × (normalize_index index (get_or g.pair.input_meta.shape axis 0) ≡ ok n))
    (input_shape : length g.pair.input.shape ≡ max_dim)
    (input_strides : length g.pair.input.stride_bytes ≡ max_dim)
    (indices_shape : length g.indices.shape ≡ max_dim)
    (indices_strides : length g.indices.stride_bytes ≡ max_dim)
    (output_shape : length g.pair.output.shape ≡ max_dim)
    (output_strides : length g.pair.output.stride_bytes ≡ max_dim)
    (input_small : g.pair.input_meta.element_count < 2 ^ 60)
    (indices_small : g.indices_meta.element_count < 2 ^ 60)
    (output_small : g.pair.output_meta.element_count < 2 ^ 60)
    (contiguous : is_contiguous g.pair.output_meta ≡ true) where
  -- A gather whose checks pass ends without an error or a panic, and is right. For a call that
  -- `open_gather` and the plan accept (its arrays with `MAX_DIM` entries), whose indices are whole and
  -- aligned words of 32 or 64 bits in memory that each name an element along the axis, tensors of
  -- fewer than 2^60 elements and a contiguous output: each element of the new output is the data
  -- element at its own coordinates, where those along the axes of the indices are replaced by the index
  -- that stands in memory for them, at the strides of the indices tensor and with its sign.
  pub call_gather_selects :
      (bytes : List ℕ) × (call_gather vl memory opened attr ≡ ok bytes)
      × ((linear : ℕ)
          → linear < g.pair.output_meta.element_count
          → Comes g.pair bytes
              (memory g.pair.input.data_address g.pair.input.byte_len)
              (GatheredFrom
                (IndexAt g.indices g.indices_meta
                  (memory g.indices.data_address g.indices.byte_len))
                (dims g.indices_meta)
                axis
                (get_or g.pair.input_meta.shape axis 0))
              linear)
  call_gather_selects =
      let (indices, (read, size, told)) =
        read_indices_lem memory g.indices g.indices_meta indices_shape indices_strides
          (open_gather-Pair opened attr g accepted).1 words in
      selects vl strip memory memory_size opened attr g axis indices accepted planned read
        (λ i lt.
          valid i (get_or indices i 0) (omega (arith, lt, size)) (told i (omega (arith, lt, size))))
        told input_shape input_strides indices_shape indices_strides output_shape output_strides
        input_small indices_small output_small contiguous
