-- ===== src/Backend/Transform/Entries.antt =====
-- k3_kernel_backend/src/transform.rs: the entries of the operators that move data. `opened` is what
-- `CallContext::from_call` answers, `attr` the value that stands behind the attribute pointer, and
-- `memory` the bytes at an address. The result is the new content of the output's buffer.
use k3x_hera_rt.Common.{
  ℕ, zero, suc, ◌+◌, ◌-◌, ◌%◌, Bool, true, false, not, ◌&&◌, ◌||◌, Option, none, some, List, [],
  ◌∷◌, ◌++◌, ◌==◌, ltb, if◌then◌else◌, get_elem?, get_or, set, take, drop, replicate, checked_mul,
  Result, ok, err, guard, ◌>>=◌, ◌>>◌,
}
use k3x_hera_rt.Uabi.Error.{BackendErr}
use k3x_hera_rt.Uabi.Kernel.{AiTargetHint}
use k3x_hera_rt.Uabi.KernelAttr.{attr_bytes, TransposeAttr, ExpandAttr, TileAttr}
use k3x_hera_rt.Uabi.Desc.{max_dim}
use k3x_hera_rt.Uabi.Dtype.{f16_dtype}
use k3x_hera_rt.Backend.Call.{BackendTensorView, TensorMeta, typed_len, checked_meta}
use k3x_hera_rt.Backend.Context.{CallContext, expect_io, reject_input_output_alias, normalize_axis}
use k3x_hera_rt.Backend.Vector.{Fault, returned, panicked, try}
use k3x_hera_rt.Backend.Transform.{row_major_linear, aligned_shape, gather_into, remap_single_input}

-- `CallContext::read_attr` for a type of `size` bytes
unfoldable pub read_attr : {T : Type 0} → CallContext → (size : ℕ) → T → Result BackendErr T
read_attr ctx size attr = do
  guard (not (ctx.attr_address == 0 || ltb ctx.attr_size size)) BackendErr.invalid_attr
  ok attr

-- `views[i]`
abbrev pub view_at : List BackendTensorView → ℕ → Result Fault BackendTensorView
view_at views i = elim (get_elem? views i) [ none ↦ err panicked | some view ↦ ok view ]

-- The views of a call with one input and one output, with what `checked_meta` says of them.
pub record Opened (T : Type 0) : Type 0 where
  pub target : AiTargetHint
  pub attr : T
  pub input : BackendTensorView
  pub output : BackendTensorView
  pub input_meta : TensorMeta
  pub output_meta : TensorMeta

-- The checks with which `call_transpose`, `call_expand` and `call_tile` begin.
unfoldable pub open_pair :
    {T : Type 0} → Result BackendErr CallContext → T → Result Fault (Opened T)
open_pair {T} opened value = do
  ctx ← try opened
  try (expect_io ctx 1 1)
  try (reject_input_output_alias ctx)
  attr ← try (read_attr ctx attr_bytes value)
  input ← view_at ctx.inputs 0
  output ← view_at ctx.outputs 0
  guard (not (not (input.dtype == f16_dtype) || not (output.dtype == f16_dtype)))
      (returned BackendErr.unsupported_dtype)
  input_meta ← try (checked_meta input)
  output_meta ← try (checked_meta output)
  ok (record {
    target = ctx.target;
    attr = attr;
    input = input;
    output = output;
    input_meta = input_meta;
    output_meta = output_meta;
  })

-- The loop of `call_transpose` over the output axes: the input axis of each.
unfoldable pub permutation_loop :
    (rank : ℕ)
    → (input_shape : List ℕ) → (seen : List Bool) → (perm output_dims : List ℕ)
    → Result BackendErr (List ℕ)
permutation_loop rank shape seen (axis ∷ perm) (dim ∷ dims) = do
  input_axis ← normalize_axis axis rank
  guard (not (get_or seen input_axis false || not (dim == get_or shape input_axis 0)))
      BackendErr.invalid_attr
  rest ← permutation_loop rank shape (set seen input_axis true) perm dims
  ok (input_axis ∷ rest)
permutation_loop rank shape seen perm dims = ok []

-- `input_coordinates[permutation[axis]] = output_coordinates[axis]` for each axis
unfoldable pub place : (permutation coords input_coords : List ℕ) → List ℕ
place (axis ∷ permutation) (c ∷ coords) placed = place permutation coords (set placed axis c)
place permutation coords placed = placed

abbrev pub transpose_source : TensorMeta → (permutation coords : List ℕ) → Result Fault ℕ
transpose_source input_meta permutation coords =
    try (row_major_linear input_meta (place permutation coords (replicate max_dim 0)))

-- The permutation that `call_transpose` computes.
unfoldable pub transpose_plan : Opened TransposeAttr → Result Fault (List ℕ)
transpose_plan o = do
  guard
      (not (
        not (o.input.dtype == o.output.dtype)
        || not (o.input_meta.rank == o.output_meta.rank)
        || not (o.attr.rank == o.input_meta.rank)))
      (returned BackendErr.invalid_tensor)
  try (
      permutation_loop o.input_meta.rank o.input_meta.shape (replicate max_dim false)
        (take o.output_meta.rank o.attr.perm) (take o.output_meta.rank o.output_meta.shape))

-- The loop of `call_expand` over the output axes, from `axis` on.
unfoldable pub expand_axes :
    (input_meta output_meta : TensorMeta)
    → (target_shape : List ℕ) → (axis count : ℕ) → Result BackendErr (Unit {0})
expand_axes input_meta output_meta target_shape axis zero = ok tt
expand_axes input_meta output_meta target_shape axis (suc count) = do
  guard (get_or target_shape axis 0 == get_or output_meta.shape axis 0) BackendErr.invalid_attr
  guard
      (not (
        not (aligned_shape input_meta output_meta.rank axis == 1)
        && not (aligned_shape input_meta output_meta.rank axis == get_or output_meta.shape axis 0)))
      BackendErr.invalid_tensor
  expand_axes input_meta output_meta target_shape (axis + 1) count

unfoldable pub expand_plan : Opened ExpandAttr → Result Fault (Unit {0})
unfolding expand_axes
expand_plan o = do
  guard
      (not (
        not (o.input.dtype == o.output.dtype)
        || not (o.attr.rank == o.output_meta.rank)
        || ltb o.output_meta.rank o.input_meta.rank))
      (returned BackendErr.invalid_tensor)
  try (expand_axes o.input_meta o.output_meta o.attr.target_shape 0 o.output_meta.rank)

-- The coordinates that the closure of `call_expand` computes, for the dimensions of the input.
unfoldable pub expand_coords : (dims coords : List ℕ) → List ℕ
expand_coords (dim ∷ dims) (c ∷ coords) = (if dim == 1 then 0 else c) ∷ expand_coords dims coords
expand_coords dims coords = []

abbrev pub expand_source : (input_meta output_meta : TensorMeta) → List ℕ → Result Fault ℕ
expand_source input_meta output_meta coords = try (
    row_major_linear input_meta (
      expand_coords (take input_meta.rank input_meta.shape)
        (drop (output_meta.rank - input_meta.rank) coords)
      ++ drop input_meta.rank (replicate max_dim 0)))

-- `input_meta.shape[axis].checked_mul(repeat).is_none_or(|expected| expected != dim)`
abbrev pub differs : Option ℕ → ℕ → Bool
differs none dim = true
differs (some expected) dim = not (expected == dim)

-- The loop of `call_tile` over the axes.
unfoldable pub tile_axes : (repeats dims output_dims : List ℕ) → Result BackendErr (Unit {0})
tile_axes (repeat ∷ repeats) (dim ∷ dims) (output_dim ∷ output_dims) = do
  guard (not (repeat == 0 || differs (checked_mul dim repeat) output_dim)) BackendErr.invalid_attr
  tile_axes repeats dims output_dims
tile_axes repeats dims output_dims = ok tt

unfoldable pub tile_plan : Opened TileAttr → Result Fault (Unit {0})
tile_plan o = do
  guard
      (not (
        not (o.input.dtype == o.output.dtype)
        || not (o.attr.rank == o.input_meta.rank)
        || not (o.output_meta.rank == o.input_meta.rank)))
      (returned BackendErr.invalid_tensor)
  try (
      tile_axes (take o.input_meta.rank o.attr.repeats) (take o.input_meta.rank o.input_meta.shape)
        (take o.input_meta.rank o.output_meta.shape))

-- The coordinates that the closure of `call_tile` computes; the remainder by 0 panics.
unfoldable pub tile_coords : (dims coords : List ℕ) → Result Fault (List ℕ)
tile_coords (dim ∷ dims) (c ∷ coords) = do
  guard (not (dim == 0)) panicked
  rest ← tile_coords dims coords
  ok (c % dim ∷ rest)
tile_coords dims coords = ok []

abbrev pub tile_source : TensorMeta → List ℕ → Result Fault ℕ
tile_source input_meta coords =
    tile_coords (take input_meta.rank input_meta.shape) coords >>= λ tiled.
    try (row_major_linear input_meta (tiled ++ drop input_meta.rank (replicate max_dim 0)))

-- `BackendTensorView::as_slice::<u8>` and `as_mut_slice::<u8>`
unfoldable pub as_slice :
    (memory : (address count : ℕ) → List ℕ) → BackendTensorView → Result Fault (List ℕ)
as_slice memory view = do len ← try (typed_len view 1 1); ok (memory view.data_address len)

module _ (vl : ℕ → ℕ) (memory : (address count : ℕ) → List ℕ) where
  abbrev pub remap : {T : Type 0} → Opened T → (List ℕ → Result Fault ℕ) → Result Fault (List ℕ)
  remap o source_linear =
      remap_single_input vl o.target (as_slice memory o.input) (as_slice memory o.output)
        o.input_meta o.output_meta source_linear

  -- `call_transpose`
  unfoldable pub call_transpose :
      Result BackendErr CallContext → TransposeAttr → Result Fault (List ℕ)
  call_transpose opened attr = do
    o ← open_pair opened attr
    permutation ← transpose_plan o
    gather_into vl o.target (as_slice memory o.input) (as_slice memory o.output) o.input_meta
        o.output_meta (λ _. transpose_source o.input_meta permutation)

  -- `call_expand`
  unfoldable pub call_expand : Result BackendErr CallContext → ExpandAttr → Result Fault (List ℕ)
  call_expand opened attr = do
    o ← open_pair opened attr
    expand_plan o
    remap o (expand_source o.input_meta o.output_meta)

  -- `call_tile`
  unfoldable pub call_tile : Result BackendErr CallContext → TileAttr → Result Fault (List ℕ)
  call_tile opened attr = do
    o ← open_pair opened attr
    tile_plan o
    remap o (tile_source o.input_meta)
