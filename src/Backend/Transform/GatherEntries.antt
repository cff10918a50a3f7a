-- ===== src/Backend/Transform/GatherEntries.antt =====
-- k3_kernel_backend/src/transform.rs: `read_indices`, `call_gather`, `call_gather_elements` and
-- `call_copy`. An index is an `i64` in two's complement; words are little-endian, as on riscv64.
use k3x_hera_rt.Common.{
  ℕ, zero, suc, ◌+◌, ◌-◌, ◌*◌, ◌^◌, Bool, true, false, not, ◌&&◌, ◌||◌, Option, none, some, List,
  [], ◌∷◌, ◌++◌, ◌==◌, ltb, leb, if◌then◌else◌, get_elem?, get_or, set, take, drop, replicate,
  Result, ok, err, guard, ◌>>=◌, ◌>>◌,
}
use k3x_hera_rt.Uabi.Error.{BackendErr}
use k3x_hera_rt.Uabi.KernelAttr.{attr_bytes, CopyAttr, GatherAttr, GatherElementsAttr}
use k3x_hera_rt.Uabi.Desc.{max_dim}
use k3x_hera_rt.Uabi.Dtype.{f16_dtype, i32_dtype, i64_dtype}
use k3x_hera_rt.Backend.Call.{
  BackendTensorView, TensorMeta, typed_len, checked_meta, offset_for_linear,
}
use k3x_hera_rt.Backend.Context.{CallContext, expect_io, reject_input_output_alias, normalize_axis}
use k3x_hera_rt.Backend.Vector.{Fault, returned, panicked, try, window}
use k3x_hera_rt.Backend.Transform.{
  row_major_linear, normalize_index, read_logical_bytes, write_logical_bytes, gather_into,
}
use k3x_hera_rt.Backend.Transform.Entries.{Opened, read_attr, view_at, as_slice}

abbrev pub little_endian : List ℕ → ℕ
little_endian [] = 0
little_endian (byte ∷ bytes) = byte + 256 * little_endian bytes

-- `value as i64` for an `i32`
abbrev pub sign_extend : ℕ → ℕ
sign_extend value = if leb (2 ^ 31) value then value + (2 ^ 64 - 2 ^ 32) else value

-- The loops of `read_indices` over the elements of a slice of `len` words of `width` bytes.
unfoldable pub index_loop :
    (cast : ℕ → ℕ)
    → (bytes : List ℕ) → (width len : ℕ) → TensorMeta
    → (linear count : ℕ) → Result Fault (List ℕ)
index_loop cast bytes width len meta linear zero = ok []
index_loop cast bytes width len meta linear (suc count) = do
  offset ← try (offset_for_linear meta linear)
  guard (ltb offset len) panicked
  rest ← index_loop cast bytes width len meta (linear + 1) count
  ok (cast (little_endian (window bytes (offset * width) width)) ∷ rest)

-- `read_indices`
unfoldable pub read_indices :
    (memory : (address count : ℕ) → List ℕ) → BackendTensorView → TensorMeta → Result Fault (List ℕ)
read_indices memory view meta =
    if view.dtype == i32_dtype
    then (do
      len ← try (typed_len view 4 4)
      index_loop sign_extend (memory view.data_address (len * 4)) 4 len meta 0 meta.element_count)
    else if view.dtype == i64_dtype
    then (do
      len ← try (typed_len view 8 8)
      index_loop (λ value. value) (memory view.data_address (len * 8)) 8 len meta 0
          meta.element_count)
    else err (returned BackendErr.unsupported_dtype)

-- The views of a gather: data, indices and output.
pub record Gathering (T : Type 0) : Type 0 where
  pub pair : Opened T
  pub indices : BackendTensorView
  pub indices_meta : TensorMeta

-- The checks of the views of a gather, with which `call_gather` and `call_gather_elements` go on.
unfoldable pub gather_views : {T : Type 0} → CallContext → T → Result Fault (Gathering T)
gather_views {T} ctx attr = do
  input ← view_at ctx.inputs 0
  output ← view_at ctx.outputs 0
  guard (not (not (input.dtype == f16_dtype) || not (output.dtype == f16_dtype)))
      (returned BackendErr.unsupported_dtype)
  indices ← view_at ctx.inputs 1
  data_meta ← try (checked_meta input)
  indices_meta ← try (checked_meta indices)
  output_meta ← try (checked_meta output)
  ok (record {
    pair = record {
      target = ctx.target;
      attr = attr;
      input = input;
      output = output;
      input_meta = data_meta;
      output_meta = output_meta;
    };
    indices = indices;
    indices_meta = indices_meta;
  })

-- The checks with which they begin.
unfoldable pub open_gather :
    {T : Type 0} → Result BackendErr CallContext → T → Result Fault (Gathering T)
open_gather {T} opened value = do
  ctx ← try opened
  try (expect_io ctx 2 1)
  try (reject_input_output_alias ctx)
  attr ← try (read_attr ctx attr_bytes value)
  gather_views ctx attr

-- The dimension that `call_gather` expects of an output axis.
abbrev pub expected_dim : (data_meta indices_meta : TensorMeta) → (axis out_axis : ℕ) → ℕ
expected_dim data_meta indices_meta axis out_axis =
    if ltb out_axis axis
    then get_or data_meta.shape out_axis 0
    else if ltb out_axis (axis + indices_meta.rank)
    then get_or indices_meta.shape (out_axis - axis) 0
    else get_or data_meta.shape (out_axis - indices_meta.rank + 1) 0

-- The loop of `call_gather` over the output axes, from `out_axis` on.
unfoldable pub gather_axes :
    (data_meta indices_meta output_meta : TensorMeta)
    → (axis out_axis count : ℕ) → Result BackendErr (Unit {0})
gather_axes data_meta indices_meta output_meta axis out_axis zero = ok tt
gather_axes data_meta indices_meta output_meta axis out_axis (suc count) = do
  guard (get_or output_meta.shape out_axis 0 == expected_dim data_meta indices_meta axis out_axis)
      BackendErr.invalid_tensor
  gather_axes data_meta indices_meta output_meta axis (out_axis + 1) count

-- The axis that `call_gather` gathers along.
unfoldable pub gather_plan : Gathering GatherAttr → Result Fault ℕ
gather_plan g = do
  guard (g.pair.input.dtype == g.pair.output.dtype) (returned BackendErr.unsupported_dtype)
  axis ← try (normalize_axis g.pair.attr.axis g.pair.input_meta.rank)
  guard (g.pair.output_meta.rank == g.pair.input_meta.rank - 1 + g.indices_meta.rank)
      (returned BackendErr.invalid_tensor)
  try (
      gather_axes g.pair.input_meta g.indices_meta g.pair.output_meta axis 0
        g.pair.output_meta.rank)
  ok axis

-- `indices[i]`
abbrev pub index_at : List ℕ → ℕ → Result Fault ℕ
index_at indices i = elim (get_elem? indices i) [ none ↦ err panicked | some index ↦ ok index ]

-- Where the loop of `call_gather` finds the element at coordinates of the output.
unfoldable pub gather_source :
    (data_meta indices_meta : TensorMeta) → (axis : ℕ) → (indices coords : List ℕ) → Result Fault ℕ
gather_source data_meta indices_meta axis indices coords = do
  index_linear ← try (
      row_major_linear indices_meta
        (take indices_meta.rank (drop axis coords) ++ drop indices_meta.rank (replicate max_dim 0)))
  index ← index_at indices index_linear
  gathered ← try (normalize_index index (get_or data_meta.shape axis 0))
  try (
      row_major_linear data_meta (
        take axis coords
        ++ (gathered
            ∷ (take (data_meta.rank - (axis + 1)) (drop (axis + indices_meta.rank) coords)
                ++ drop data_meta.rank (replicate max_dim 0)))))

-- `data_meta.shape[axis] < indices_meta.shape[axis]` for an axis other than `axis`
unfoldable pub elements_axes :
    (data_meta indices_meta : TensorMeta) → (axis current count : ℕ) → Result BackendErr (Unit {0})
elements_axes data_meta indices_meta axis current zero = ok tt
elements_axes data_meta indices_meta axis current (suc count) = do
  guard
      (not (
        not (current == axis)
        && ltb (get_or data_meta.shape current 0) (get_or indices_meta.shape current 0)))
      BackendErr.invalid_tensor
  elements_axes data_meta indices_meta axis (current + 1) count

abbrev pub same_dims : (a b : List ℕ) → Bool
same_dims [] [] = true
same_dims (x ∷ a) (y ∷ b) = x == y && same_dims a b
same_dims a b = false

-- The axis that `call_gather_elements` gathers along.
unfoldable pub elements_plan : Gathering GatherElementsAttr → Result Fault ℕ
elements_plan g = do
  guard
      (not (
        not (g.pair.input.dtype == g.pair.output.dtype)
        || not (g.pair.input_meta.rank == g.indices_meta.rank)
        || not (
            same_dims (take g.pair.output_meta.rank g.pair.output_meta.shape)
              (take g.indices_meta.rank g.indices_meta.shape))))
      (returned BackendErr.invalid_tensor)
  axis ← try (normalize_axis g.pair.attr.axis g.pair.input_meta.rank)
  try (elements_axes g.pair.input_meta g.indices_meta axis 0 g.pair.input_meta.rank)
  ok axis

unfoldable pub elements_source :
    TensorMeta → (axis : ℕ) → (indices : List ℕ) → (linear : ℕ) → (coords : List ℕ) → Result Fault ℕ
elements_source data_meta axis indices linear coords = do
  index ← index_at indices linear
  gathered ← try (normalize_index index (get_or data_meta.shape axis 0))
  try (row_major_linear data_meta (set coords axis gathered))

-- The checks of the views of `call_copy`.
unfoldable pub copy_views : CallContext → CopyAttr → Result Fault (Opened CopyAttr)
copy_views ctx attr = do
  input ← view_at ctx.inputs 0
  output ← view_at ctx.outputs 0
  guard (not (not (input.dtype == f16_dtype) || not (output.dtype == f16_dtype)))
      (returned BackendErr.unsupported_dtype)
  guard (attr.flags == 0) (returned BackendErr.invalid_attr)
  input_meta ← try (checked_meta input)
  output_meta ← try (checked_meta output)
  guard
      (not (
        not (input.dtype == output.dtype)
        || not (input_meta.element_count == output_meta.element_count)))
      (returned BackendErr.invalid_tensor)
  ok (record {
    target = ctx.target;
    attr = attr;
    input = input;
    output = output;
    input_meta = input_meta;
    output_meta = output_meta;
  })

-- The checks with which it begins.
unfoldable pub open_copy : Result BackendErr CallContext → CopyAttr → Result Fault (Opened CopyAttr)
open_copy opened value = do
  ctx ← try opened
  try (expect_io ctx 1 1)
  attr ← try (read_attr ctx attr_bytes value)
  copy_views ctx attr

module _ (vl : ℕ → ℕ) (memory : (address count : ℕ) → List ℕ) where
  -- `call_gather`
  unfoldable pub call_gather : Result BackendErr CallContext → GatherAttr → Result Fault (List ℕ)
  call_gather opened attr = do
    g ← open_gather opened attr
    axis ← gather_plan g
    indices ← read_indices memory g.indices g.indices_meta
    gather_into vl g.pair.target (as_slice memory g.pair.input) (as_slice memory g.pair.output)
        g.pair.input_meta g.pair.output_meta
        (λ _. gather_source g.pair.input_meta g.indices_meta axis indices)

  -- `call_gather_elements`
  unfoldable pub call_gather_elements :
      Result BackendErr CallContext → GatherElementsAttr → Result Fault (List ℕ)
  call_gather_elements opened attr = do
    g ← open_gather opened attr
    axis ← elements_plan g
    indices ← read_indices memory g.indices g.indices_meta
    gather_into vl g.pair.target (as_slice memory g.pair.input) (as_slice memory g.pair.output)
        g.pair.input_meta g.pair.output_meta (elements_source g.pair.input_meta axis indices)

  -- `call_copy`; `none` is the early return that leaves the output as it is.
  unfoldable pub call_copy :
      Result BackendErr CallContext → CopyAttr → Result Fault (Option (List ℕ))
  call_copy opened attr = do
    o ← open_copy opened attr
    if o.input.data_address == o.output.data_address then ok none else (do
      bytes ← as_slice memory o.input
      logical ← read_logical_bytes vl bytes o.input_meta o.target
      old ← as_slice memory o.output
      written ← write_logical_bytes vl logical old o.output_meta o.target
      ok (some written))
