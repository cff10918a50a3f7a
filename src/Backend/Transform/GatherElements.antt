-- ===== src/Backend/Transform/GatherElements.antt =====
-- `call_gather_elements` of k3_kernel_backend/src/transform.rs.
use k3x_hera_rt.Common.{
  ℕ, ◌^◌, ◌<◌, ◌≡◌, refl, sym, ◌∙◌, ap, true, List, ◌++◌, length, get_or, set, take, drop, ok,
  Result, length-set, get_or-set_self, get_or-set_ne, take-append_self, ℕ_discrete, arith,
}
use k3x_hera_rt.Uabi.Error.{BackendErr}
use k3x_hera_rt.Uabi.KernelAttr.{GatherElementsAttr}
use k3x_hera_rt.Uabi.Desc.{max_dim}
use k3x_hera_rt.Backend.Call.{TensorMeta, checked_meta, is_contiguous}
use k3x_hera_rt.Backend.Call.Scan.{product}
use k3x_hera_rt.Backend.Call.Offset.{Inside, row_major, length-Inside}
use k3x_hera_rt.Backend.Call.Meta.{Checked, checked_meta-Checked}
use k3x_hera_rt.Backend.Context.{CallContext}
use k3x_hera_rt.Backend.Vector.{Strip, try}
use k3x_hera_rt.Backend.Transform.{normalize_index}
use k3x_hera_rt.Backend.Transform.Offsets.{zeros, row_major-lt}
use k3x_hera_rt.Backend.Transform.GatherEntries.{
  Gathering, open_gather, read_indices, elements_plan, elements_source, call_gather_elements,
}
use k3x_hera_rt.Backend.Transform.Permutation.{pointwise-Inside, Inside-get_or, get_or-take}
use k3x_hera_rt.Backend.Transform.IndexWords.{IndexAt, HoldsWords, read_indices_lem}
use k3x_hera_rt.Backend.Transform.Indices.{
  AllIndex, open_gather-Pair, length-read_indices, index_at_lem, normalize_index-lt,
}
use k3x_hera_rt.Backend.Transform.Open.{
  Pair, Comes, dims, dims_lem, remap-Comes, linear_of, length-dims,
}
use k3x_hera_rt.Backend.Transform.ElementsPlan.{
  Planned, plan-Planned, elements_axes_lem, set-append,
}

-- The source coordinates of an element: on the axis, the index that stands at its place.
abbrev pub ElementOf :
    (IsIndex : (linear index : ℕ) → Type 0)
    → (output_dims : List ℕ) → (axis dimension : ℕ) → (coords source : List ℕ) → Type 0
ElementOf IsIndex output_dims axis dimension coords source =
    (index : ℕ) × IsIndex (row_major coords output_dims) index
    × ((n : ℕ) × (normalize_index index dimension ≡ ok n) × (source ≡ set coords axis n))

module _ (vl : ℕ → ℕ) (strip : Strip vl) (memory : (address count : ℕ) → List ℕ)
    (memory_size : (address count : ℕ) → length (memory address count) ≡ count)
    (opened : Result BackendErr CallContext) (attr : GatherElementsAttr)
    (g : Gathering GatherElementsAttr) (axis : ℕ) (indices : List ℕ)
    (accepted : open_gather opened attr ≡ ok g) (planned : elements_plan g ≡ ok axis)
    (read : read_indices memory g.indices g.indices_meta ≡ ok indices)
    (valid : AllIndex indices (get_or g.pair.input_meta.shape axis 0))
    (told : (linear : ℕ)
      → linear < g.indices_meta.element_count
      → IndexAt g.indices g.indices_meta
          (memory g.indices.data_address g.indices.byte_len)
          linear
          (get_or indices linear 0))
    (input_shape : length g.pair.input.shape ≡ max_dim)
    (input_strides : length g.pair.input.stride_bytes ≡ max_dim)
    (indices_shape : length g.indices.shape ≡ max_dim)
    (indices_strides : length g.indices.stride_bytes ≡ max_dim)
    (output_shape : length g.pair.output.shape ≡ max_dim)
    (output_strides : length g.pair.output.stride_bytes ≡ max_dim)
    (input_small : g.pair.input_meta.element_count < 2 ^ 60)
    (output_small : g.pair.output_meta.element_count < 2 ^ 60)
    (contiguous : is_contiguous g.pair.output_meta ≡ true) where
  abbrev data_meta : TensorMeta
  data_meta = g.pair.input_meta

  abbrev out_meta : TensorMeta
  out_meta = g.pair.output_meta

  abbrev IsIndexHere : (linear index : ℕ) → Type 0
  IsIndexHere = IndexAt g.indices g.indices_meta (memory g.indices.data_address g.indices.byte_len)

  full_read : length indices ≡ g.indices_meta.element_count
  full_read = length-read_indices memory g.indices g.indices_meta indices read

  facts : Pair g.pair × (checked_meta g.indices ≡ ok g.indices_meta)
  facts = open_gather-Pair opened attr g accepted

  plan : Planned g axis
  plan = plan-Planned g axis planned

  in_checked : Checked g.pair.input data_meta
  in_checked =
      checked_meta-Checked g.pair.input data_meta input_shape input_strides facts.0.input_accepted

  indices_checked : Checked g.indices g.indices_meta
  indices_checked =
      checked_meta-Checked g.indices g.indices_meta indices_shape indices_strides facts.1

  in_rank : length (dims data_meta) ≡ data_meta.rank
  in_rank = length-dims g.pair.input data_meta in_checked

  out_rank : length (dims out_meta) ≡ data_meta.rank
  out_rank =
      ap length plan.same
      ∙ length-dims g.indices g.indices_meta indices_checked
      ∙ sym plan.same_rank

  enough : length indices ≡ product (dims out_meta)
  enough =
      length-read_indices memory g.indices g.indices_meta indices read
      ∙ indices_checked.count
      ∙ ap product (sym (dims_lem g.indices g.indices_meta indices_checked))
      ∙ ap product (sym plan.same)

  axis_fits :
      (coords : List ℕ)
      → Inside coords (dims out_meta)
      → (n : ℕ) → n < get_or data_meta.shape axis 0
      → (j : ℕ) → j < data_meta.rank
      → get_or (set coords axis n) j 0 < get_or (dims data_meta) j 0
  axis_fits coords inside n small j lt =
      let full : length coords ≡ data_meta.rank =
        length-Inside coords (dims out_meta) inside ∙ out_rank in
      let in_dim = get_or-take data_meta.rank data_meta.shape j lt in
      elim (ℕ_discrete axis j) [
        | yes e ↦
            let here : get_or (set coords axis n) j 0 ≡ n =
              ap (λ k. get_or (set coords axis n) k 0) (sym e)
              ∙ get_or-set_self coords axis n 0 (omega (arith, full, plan.below)) in
            omega (arith, here, in_dim, small, ap (λ k. get_or data_meta.shape k 0) e)
        | no ne ↦
            let here = get_or-set_ne coords axis j n 0 ne in
            let bound = Inside-get_or coords (dims out_meta) j inside (omega (arith, full, lt)) in
            let out_dim : get_or (dims out_meta) j 0 ≡ get_or g.indices_meta.shape j 0 =
              ap (λ ds. get_or ds j 0) plan.same
              ∙ get_or-take g.indices_meta.rank g.indices_meta.shape j
                  (omega (arith, lt, plan.same_rank)) in
            let limit =
              elements_axes_lem data_meta g.indices_meta axis 0 data_meta.rank plan.axes j
                (omega arith) (omega (arith, lt)) (λ e. ne (sym e)) in
            omega (arith, here, bound, out_dim, limit, in_dim)
      ]

  leads :
      (coords : List ℕ)
      → Inside coords (dims out_meta)
      → (source : List ℕ) × Inside source (dims data_meta)
        × (elements_source data_meta axis indices
              (row_major coords (dims out_meta))
              (coords ++ drop out_meta.rank zeros)
            ≡ ok (row_major source (dims data_meta)))
        × ElementOf IsIndexHere (dims out_meta) axis (get_or data_meta.shape axis 0) coords source
  unfolding elements_source
  leads coords inside =
      let at = row_major coords (dims out_meta) in
      let here : at < length indices =
        omega (arith, row_major-lt coords (dims out_meta) inside, enough) in
      let (n, index) = valid at here in
      let full : length coords ≡ data_meta.rank =
        length-Inside coords (dims out_meta) inside ∙ out_rank in
      let within : Inside (set coords axis n) (dims data_meta) =
        pointwise-Inside (set coords axis n) (dims data_meta)
          (omega (arith, length-set coords axis n, full, in_rank))
          (λ j lt.
            axis_fits coords inside n
              (normalize_index-lt (get_or indices at 0) (get_or data_meta.shape axis 0) index) j
              (omega (arith, lt, in_rank))) in
      let moved =
        set-append coords (drop out_meta.rank zeros) axis n (omega (arith, full, plan.below)) in
      let taken : take data_meta.rank (set coords axis n ++ drop out_meta.rank zeros)
          ≡ set coords axis n =
        ap (λ k. take k (set coords axis n ++ drop out_meta.rank zeros))
          (sym full ∙ sym (length-set coords axis n))
        ∙ take-append_self (set coords axis n) _ in
      (
        set coords axis n,
        within,
        rw (index_at_lem indices at here, elements_source)
            (rw (index, elements_source)
              (rw (moved, elements_source)
                (ap try (
                  linear_of g.pair.input data_meta in_checked input_small
                    (set coords axis n ++ drop out_meta.rank zeros) (rw taken within)
                  ∙ ap (λ s. ok (row_major s (dims data_meta))) taken)))),
        (get_or indices at 0, told at (omega (arith, here, full_read)), (n, index, refl)),
      )

  selects :
      (bytes : List ℕ) × (call_gather_elements vl memory opened attr ≡ ok bytes)
      × ((linear : ℕ)
          → linear < g.pair.output_meta.element_count
          → Comes g.pair bytes
              (memory g.pair.input.data_address g.pair.input.byte_len)
              (ElementOf IsIndexHere
                (dims g.pair.output_meta)
                axis
                (get_or g.pair.input_meta.shape axis 0))
              linear)
  unfolding call_gather_elements
  selects =
      let (bytes, run, comes) =
        remap-Comes vl strip memory memory_size g.pair facts.0 input_shape input_strides
          output_shape output_strides input_small output_small contiguous
          (elements_source data_meta axis indices)
          (ElementOf IsIndexHere (dims out_meta) axis (get_or data_meta.shape axis 0)) leads in
      (
        bytes,
        rw (accepted, call_gather_elements)
            (rw (planned, call_gather_elements) (rw (read, call_gather_elements) run)),
        comes,
      )

module _ (vl : ℕ → ℕ) (strip : Strip vl) (memory : (address count : ℕ) → List ℕ)
    (memory_size : (address count : ℕ) → length (memory address count) ≡ count)
    (opened : Result BackendErr CallContext) (attr : GatherElementsAttr)
    (g : Gathering GatherElementsAttr) (axis : ℕ) (accepted : open_gather opened attr ≡ ok g)
    (planned : elements_plan g ≡ ok axis) (words : HoldsWords g.indices)
    (valid : (linear index : ℕ)
      → linear < g.indices_meta.element_count
      → IndexAt g.indices g.indices_meta
          (memory g.indices.data_address g.indices.byte_len)
          linear
          index
      → (n : ℕ) × (normalize_index index (get_or g.pair.input_meta.shape axis 0) ≡ ok n))
    (input_shape : length g.pair.input.shape ≡ max_dim)
    (input_strides : length g.pair.input.stride_bytes ≡ max_dim)
    (indices_shape : length g.indices.shape ≡ max_dim)
    (indices_strides : length g.indices.stride_bytes ≡ max_dim)
    (output_shape : length g.pair.output.shape ≡ max_dim)
    (output_strides : length g.pair.output.stride_bytes ≡ max_dim)
    (input_small : g.pair.input_meta.element_count < 2 ^ 60)
    (output_small : g.pair.output_meta.element_count < 2 ^ 60)
    (contiguous : is_contiguous g.pair.output_meta ≡ true) where
  -- A gather of elements whose checks pass ends without an error or a panic, and is right. For a call
  -- that `open_gather` and the plan accept (its arrays with `MAX_DIM` entries), whose indices are whole
  -- and aligned words of 32 or 64 bits in memory that each name an element along the axis, tensors of
  -- fewer than 2^60 elements and a contiguous output: each element of the new output is the data
  -- element at its own coordinates, with, on the axis, the index that stands in memory for that place
  -- of the indices tensor, at its strides and with its sign.
  pub call_gather_elements_selects :
      (bytes : List ℕ) × (call_gather_elements vl memory opened attr ≡ ok bytes)
      × ((linear : ℕ)
          → linear < g.pair.output_meta.element_count
          → Comes g.pair bytes
              (memory g.pair.input.data_address g.pair.input.byte_len)
              (ElementOf
                (IndexAt g.indices g.indices_meta
                  (memory g.indices.data_address g.indices.byte_len))
                (dims g.pair.output_meta)
                axis
                (get_or g.pair.input_meta.shape axis 0))
              linear)
  call_gather_elements_selects =
      let (indices, (read, size, told)) =
        read_indices_lem memory g.indices g.indices_meta indices_shape indices_strides
          (open_gather-Pair opened attr g accepted).1 words in
      selects vl strip memory memory_size opened attr g axis indices accepted planned read
        (λ i lt.
          valid i (get_or indices i 0) (omega (arith, lt, size)) (told i (omega (arith, lt, size))))
        told input_shape input_strides indices_shape indices_strides output_shape output_strides
        input_small output_small contiguous
