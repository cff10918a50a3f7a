-- ===== src/Backend/Transform/Remap.antt =====
-- `gather_into` (the end of `remap_single_input` and of the gathers) of k3_kernel_backend/src/transform.rs between views that `checked_meta` accepts:
-- each element of a contiguous output is the element of the input that the operator's map names.
use k3x_hera_rt.Common.{
  ℕ, ◌*◌, ◌^◌, ◌<◌, ◌≡◌, sym, ◌∙◌, ap, true, List, ◌++◌, length, drop, ok, ltb, lt→ltb, Result,
  arith,
}
use native.Mathlib.Nat.{suc-mul, mul-le-mul_right}
use mathlib.Core.Path.{subst}
use k3x_hera_rt.Uabi.Kernel.{AiTargetHint}
use k3x_hera_rt.Uabi.Desc.{max_dim}
use k3x_hera_rt.Backend.Call.{
  BackendTensorView, TensorMeta, checked_meta, offset_for_linear, is_contiguous,
}
use k3x_hera_rt.Backend.Call.Offset.{Inside, row_major}
use k3x_hera_rt.Backend.Call.Meta.{Checked, checked_meta-Checked}
use k3x_hera_rt.Backend.Vector.{Fault, Strip, window, gathered}
use k3x_hera_rt.Backend.Vector.Rounds.{InBounds}
use k3x_hera_rt.Backend.Transform.{gather_into}
use k3x_hera_rt.Backend.Transform.Chunks.{window-append, length-gathered, window-gathered}
use k3x_hera_rt.Backend.Transform.Logical.{
  width_of, gather_logical_lem, read_logical_bytes_ordered, write_contiguous, sized,
}
use k3x_hera_rt.Backend.Transform.Offsets.{zeros, remap_offsets_lem}

-- A view that `checked_meta` accepts, with the bytes behind it.
pub record Tensor : Type 0 where
  pub view : BackendTensorView
  pub info : TensorMeta
  pub bytes : List ℕ
  pub shape_size : length view.shape ≡ max_dim
  pub strides_size : length view.stride_bytes ≡ max_dim
  pub accepted : checked_meta view ≡ ok info
  pub bytes_size : length bytes ≡ view.byte_len
  pub some_memory : info.element_count < 2 ^ 60

abbrev pub checked : (t : Tensor) → Checked t.view t.info
checked t = checked_meta-Checked t.view t.info t.shape_size t.strides_size t.accepted

-- The dimensions of a tensor.
abbrev pub dims_of : Tensor → List ℕ
dims_of t = (checked t).dims

module _ (vl : ℕ → ℕ) (strip : Strip vl) (target : AiTargetHint) (input output : Tensor)
    (same_dtype : input.info.element_size ≡ output.info.element_size)
    (contiguous : is_contiguous output.info ≡ true)
    (source_linear : (linear : ℕ) → List ℕ → Result Fault ℕ)
    (leads : (coords : List ℕ)
      → Inside coords (dims_of output)
      → (n : ℕ) × (source_linear
            (row_major coords (dims_of output))
            (coords ++ drop output.info.rank zeros)
          ≡ ok n)
        × (n < input.info.element_count)) where
  abbrev es : ℕ
  es = output.info.element_size

  -- What the result must have at an index of the output.
  pub record Moved (bytes : List ℕ) (linear : ℕ) : Type 0 where
    pub coords : List ℕ
    pub inside : Inside coords (dims_of output)
    pub index : row_major coords (dims_of output) ≡ linear
    pub source : ℕ
    pub found :
        source_linear (row_major coords (dims_of output)) (coords ++ drop output.info.rank zeros)
        ≡ ok source
    pub offset : ℕ
    pub place : offset_for_linear input.info source ≡ ok offset
    pub same :
        window bytes (linear * output.info.element_size) output.info.element_size
        ≡ window input.bytes (offset * output.info.element_size) output.info.element_size

  pub gather_into_moves :
      (bytes : List ℕ) × (gather_into vl target
          (ok input.bytes)
          (ok output.bytes)
          input.info
          output.info
          source_linear
        ≡ ok bytes)
      × ((linear : ℕ) → linear < output.info.element_count → Moved bytes linear)
  unfolding gather_into
  gather_into_moves =
      let (logical, read, ordered) =
        read_logical_bytes_ordered input.view input.info input.shape_size input.strides_size
          input.accepted vl strip target input.some_memory input.bytes input.bytes_size in
      let r =
        remap_offsets_lem output.view output.info (checked output) input.info.element_size
          input.info.element_count source_linear leads 0 output.info.element_count (omega arith) in
      let logical_size : length logical ≡ input.info.element_count * input.info.element_size =
        ordered.whole in
      let bounded : InBounds (length logical) es r.offsets =
        subst (λ n. InBounds (length logical) n r.offsets) same_dtype
          (subst (λ n. InBounds n input.info.element_size r.offsets) (sym logical_size)
            r.bounded) in
      let out_size : length r.offsets * es ≡ output.info.element_count * es =
        ap (λ n. n * es) r.size in
      let room =
        sized output.view output.info output.shape_size output.strides_size output.accepted vl strip
          target output.some_memory in
      let in_room =
        sized input.view input.info input.shape_size input.strides_size input.accepted vl strip
          target input.some_memory in
      let whole : length (gathered logical es r.offsets) ≡ output.info.element_count * es =
        length-gathered logical es r.offsets bounded ∙ out_size in
      let gather =
        gather_logical_lem vl strip logical r.offsets es target
          (width_of output.view.dtype (checked output).dtype_size).0
          (omega (arith, logical_size, in_room)) (omega (arith, out_size, room)) bounded in
      let write =
        write_contiguous output.view output.info output.shape_size output.strides_size
          output.accepted vl strip target output.some_memory (gathered logical es r.offsets)
          output.bytes whole output.bytes_size contiguous in
      let allocated : ltb (output.info.element_count * 8) (2 ^ 63) ≡ true =
        lt→ltb (output.info.element_count * 8) (2 ^ 63) (omega (arith, output.some_memory)) in
      (
        gathered logical es r.offsets ++ drop (length (gathered logical es r.offsets)) output.bytes,
        rw (read, gather_into)
            (rw (allocated, gather_into)
              (rw (r.computed, gather_into) (rw (gather, gather_into) write))),
        λ linear below.
            let (coords, n, inside, index, eq, lt, got) = r.each linear below in
            let (offset, place, same) = ordered.element n lt in
            record {
              coords = coords;
              inside = inside;
              index = index ∙ omega arith;
              source = n;
              found = eq;
              offset = offset;
              place = place;
              same =
                  window-append (gathered logical es r.offsets) _ (linear * es) es
                    (omega (arith, whole, suc-mul linear es, mul-le-mul_right es below))
                  ∙ window-gathered logical es r.offsets linear bounded
                      (omega (arith, r.size, below))
                  ∙ ap (λ s. window logical s es) got
                  ∙ ap (λ k. window logical (n * input.info.element_size) k) (sym same_dtype)
                  ∙ same
                  ∙ ap (λ k. window input.bytes (offset * k) k) same_dtype;
            },
      )
