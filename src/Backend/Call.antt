-- ===== src/Backend/Call.antt =====
-- k3_kernel_backend/src/call.rs: the checked views of tensors and of calls. A pointer is its address
-- (0 is null); an array of `MAX_DIM` entries is a list of that length.
pub mod Scan
pub mod Offset
pub mod Meta
pub mod Bounds
pub mod Accepted
pub mod DenseView
pub mod UserBuffer
use k3x_hera_rt.Common.{
  ℕ, ◌-◌, ◌/◌, ◌%◌, Bool, true, false, not, ◌&&◌, Option, none, some, List, [], ◌∷◌, ◌++◌, ltb, leb,
  ◌==◌, if◌then◌else◌, take, drop, replicate, checked_add, checked_mul, Result, ok, err, ok_or,
  map_err, guard, ◌>>=◌, ◌>>◌,
}
use k3x_hera_rt.Uabi.Types.{try_as_usize, try_under_max}
use k3x_hera_rt.Uabi.Error.{BackendErr}
use k3x_hera_rt.Uabi.Dtype.{AiDtype, AiTensorLayout, dense, strided, element_size_bytes}
use k3x_hera_rt.Uabi.Desc.{AiTensorDesc, max_dim, pad}

pub record BackendTensorView : Type 0 where
  pub data_address : ℕ
  pub byte_len : ℕ
  pub shape : List ℕ
  pub stride_bytes : List ℕ
  pub ndim : ℕ
  pub dtype : AiDtype
  pub format : ℕ
  pub layout : AiTensorLayout
  pub flags : ℕ

-- `BackendTensorView::from_desc`
unfoldable pub from_desc : AiTensorDesc → BackendTensorView
from_desc desc = record {
  data_address = desc.kernel_va;
  byte_len = desc.size_bytes;
  shape = desc.shape;
  stride_bytes = desc.stride_bytes;
  ndim = desc.ndim;
  dtype = desc.dtype;
  format = desc.format;
  layout = desc.layout;
  flags = desc.flags;
}

-- `BackendTensorView::typed_len` for a type of that size and alignment
unfoldable pub typed_len : BackendTensorView → (element_size align : ℕ) → Result BackendErr ℕ
typed_len view element_size align = do
  guard (not (view.data_address == 0)) BackendErr.invalid_tensor
  byte_len ← map_err (try_as_usize view.byte_len) BackendErr.invalid_tensor
  guard (not (element_size == 0)) BackendErr.invalid_tensor
  guard (byte_len % element_size == 0) BackendErr.invalid_tensor
  guard (not (ltb 1 align && not (view.data_address % align == 0))) BackendErr.invalid_tensor
  ok (byte_len / element_size)

pub record TensorMeta : Type 0 where
  pub rank : ℕ
  pub shape : List ℕ
  pub strides : List ℕ
  pub element_size : ℕ
  pub element_count : ℕ

-- What the loop over the axes of `checked_meta` has computed at its end.
pub record AxisScan : Type 0 where
  pub shape : List ℕ
  pub strides : List ℕ
  pub element_count : ℕ
  pub max_offset : ℕ

abbrev pub put_axis : ℕ → ℕ → AxisScan → AxisScan
put_axis dim stride s = record s { shape = dim ∷ s.shape; strides = stride ∷ s.strides }

-- The loop over the axes, from the given `element_count` and `max_offset` on.
unfoldable pub scan_axes :
    (element_size element_count max_offset : ℕ) (dims stride_bytes : List ℕ)
    → Result BackendErr AxisScan
scan_axes es count offset (dim_raw ∷ dims) (stride_raw ∷ strides) = do
  dim ← map_err (try_as_usize dim_raw) BackendErr.invalid_tensor
  stride ← map_err (try_as_usize stride_raw) BackendErr.invalid_tensor
  guard (stride % es == 0) BackendErr.invalid_tensor
  count' ← ok_or (checked_mul count dim) BackendErr.invalid_tensor
  guard (not (ltb 1 dim && stride / es == 0)) BackendErr.invalid_tensor
  span ← ok_or (checked_mul (dim - 1) stride) BackendErr.invalid_tensor
  offset' ← ok_or (checked_add offset span) BackendErr.invalid_tensor
  rest ← scan_axes es count' offset' dims strides
  ok (put_axis dim (stride / es) rest)
scan_axes es count offset dims strides =
    ok (record { shape = []; strides = []; element_count = count; max_offset = offset })

-- `max_offset.checked_add(element_size).is_none_or(|required| required > byte_len)`
abbrev pub exceeds : Option ℕ → ℕ → Bool
exceeds none byte_len = true
exceeds (some required) byte_len = ltb byte_len required

-- The loop over the axes of a dense tensor, from the last to the first: the stride expected next.
unfoldable pub dense_axes : (dims strides : List ℕ) → Result BackendErr ℕ
dense_axes (dim ∷ dims) (stride ∷ strides) = do
  expected ← dense_axes dims strides
  guard (not (ltb 1 dim && not (stride == expected))) BackendErr.invalid_tensor
  ok_or (checked_mul expected dim) BackendErr.invalid_tensor
dense_axes dims strides = ok 1

-- `if self.layout == DENSE { .. }`
unfoldable pub check_dense : AiTensorLayout → (dims strides : List ℕ) → Result BackendErr (Unit {0})
check_dense layout dims strides =
    if layout == dense then (dense_axes dims strides >>= λ _. ok tt) else ok tt

-- `BackendTensorView::checked_meta`
unfoldable pub checked_meta : BackendTensorView → Result BackendErr TensorMeta
checked_meta view = do
  rank ← map_err (try_under_max view.ndim max_dim) BackendErr.invalid_tensor
  element_size ← ok_or (element_size_bytes view.dtype) BackendErr.unsupported_dtype
  byte_len ← map_err (try_as_usize view.byte_len) BackendErr.invalid_tensor
  guard (not (view.data_address == 0)) BackendErr.invalid_tensor
  guard (not (not (view.layout == dense) && not (view.layout == strided))) BackendErr.invalid_tensor
  s ← scan_axes element_size 1 0 (take rank view.shape) (take rank view.stride_bytes)
  let element_count = if rank == 0 then 1 else s.element_count in
      do
        guard
            (not (
              not (element_count == 0) && exceeds (checked_add s.max_offset element_size) byte_len))
            BackendErr.invalid_tensor
        check_dense view.layout s.shape s.strides
        ok (record {
          rank = rank;
          shape = pad max_dim s.shape;
          strides = pad max_dim s.strides;
          element_size = element_size;
          element_count = element_count;
        })

-- The loop of `coordinates` over the axes, from the last to the first: the coordinates, and what
-- remains of the index.
unfoldable pub coordinates_loop : (dims : List ℕ) → ℕ → Result BackendErr (List ℕ × ℕ)
coordinates_loop [] linear = ok ([], linear)
coordinates_loop (dim ∷ dims) linear = do
  inner ← coordinates_loop dims linear
  guard (not (dim == 0)) BackendErr.invalid_tensor
  ok (inner.1 % dim ∷ inner.0, inner.1 / dim)

-- `TensorMeta::coordinates`: the array `initial` with the coordinates written over its first entries
unfoldable pub coordinates : TensorMeta → ℕ → (initial : List ℕ) → Result BackendErr (List ℕ)
coordinates meta linear initial =
    if leb meta.element_count linear
    then err BackendErr.invalid_tensor
    else (coordinates_loop (take meta.rank meta.shape) linear >>= λ c.
        ok (c.0 ++ drop meta.rank initial))

-- The loop of `offset_for_coordinates` over the axes.
unfoldable pub offset_loop : (offset : ℕ) (coords dims strides : List ℕ) → Result BackendErr ℕ
offset_loop offset (c ∷ coords) (dim ∷ dims) (stride ∷ strides) = do
  guard (ltb c dim) BackendErr.invalid_tensor
  step ← ok_or (checked_mul c stride) BackendErr.invalid_tensor
  offset' ← ok_or (checked_add offset step) BackendErr.invalid_tensor
  offset_loop offset' coords dims strides
offset_loop offset coords dims strides = ok offset

-- `TensorMeta::offset_for_coordinates`
unfoldable pub offset_for_coordinates : TensorMeta → List ℕ → Result BackendErr ℕ
offset_for_coordinates meta coords = offset_loop 0 (take meta.rank coords) meta.shape meta.strides

-- `TensorMeta::offset_for_linear`
unfoldable pub offset_for_linear : TensorMeta → ℕ → Result BackendErr ℕ
offset_for_linear meta linear =
    if leb meta.element_count linear
    then err BackendErr.invalid_tensor
    else (coordinates meta linear (replicate max_dim 0) >>= λ coords.
        offset_for_coordinates meta coords)

-- The loop of `is_contiguous`: the stride expected next, `none` after `return false`.
unfoldable pub contiguous_loop : (dims strides : List ℕ) → Option ℕ
contiguous_loop (dim ∷ dims) (stride ∷ strides) = elim (contiguous_loop dims strides) [
  | none ↦ none
  | some expected ↦ if ltb 1 dim && not (stride == expected) then none else checked_mul expected dim
]
contiguous_loop dims strides = some 1

-- `TensorMeta::is_contiguous`
unfoldable pub is_contiguous : TensorMeta → Bool
is_contiguous meta =
    elim (contiguous_loop (take meta.rank meta.shape) (take meta.rank meta.strides)) [
      | none ↦ false
      | some _ ↦ true
    ]
