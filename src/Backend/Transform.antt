-- ===== src/Backend/Transform.antt =====
-- k3_kernel_backend/src/transform.rs: how tensors are read in logical order, gathered and written back,
-- and the index computations of the operators that move data. A tensor's buffer is a list of bytes; a
-- routine that writes into a buffer has the new content as its result. `usize` products of lengths that
-- stand in memory do not overflow: a `vec!` of `n` elements panics before `n` elements of at most 8
-- bytes could pass `isize::MAX` bytes (`allocate`).
pub mod Chunks
pub mod Logical
pub mod Offsets
pub mod Remap
pub mod Entries
pub mod GatherEntries
pub mod Open
pub mod Permutation
pub mod Transpose
pub mod IndexWords
pub mod Indices
pub mod ElementsPlan
pub mod GatherElements
pub mod GatherPlan
pub mod Gather
pub mod Copy
pub mod Tile
pub mod Expand
use k3x_hera_rt.Common.{
  ℕ, zero, suc, ◌+◌, ◌-◌, ◌*◌, ◌%◌, ◌^◌, Bool, ◌||◌, List, [], ◌∷◌, ◌++◌, ◌==◌, ltb, leb,
  if◌then◌else◌, length, get_or, take, drop, replicate, checked_add, checked_mul, usize_mod, Result,
  ok, err, ok_or, guard, ◌>>=◌, ◌>>◌,
}
use k3x_hera_rt.Uabi.Error.{BackendErr}
use k3x_hera_rt.Uabi.Kernel.{AiTargetHint, auto, prefer_x100, prefer_a100}
use k3x_hera_rt.Uabi.Desc.{max_dim}
use k3x_hera_rt.Backend.Call.{TensorMeta, coordinates, offset_for_linear, is_contiguous}
use k3x_hera_rt.Backend.Vector.{
  Fault, returned, panicked, try, subslice, copy_bytes, gather_bytes, gather_each,
}

-- `vec![0_u64; count]`
abbrev pub allocate : ℕ → Result Fault (Unit {0})
allocate count = guard (ltb (count * 8) (2 ^ 63)) panicked

-- `vector_target`
unfoldable pub vector_target : AiTargetHint → Bool
vector_target target = target == auto || target == prefer_x100 || target == prefer_a100

-- `gather_logical`
unfoldable pub gather_logical :
    (ℕ → ℕ) → (source offsets : List ℕ) → (element_size : ℕ) → AiTargetHint → Result Fault (List ℕ)
unfolding vector_target
gather_logical vl source offsets es target =
    if vector_target target
    then try (gather_bytes vl source offsets (length offsets * es) es)
    else gather_each source es offsets

-- The loop of `read_logical_bytes` that fills `offsets`, for `count` indices from `linear` on.
unfoldable pub source_offsets : TensorMeta → (linear count : ℕ) → Result BackendErr (List ℕ)
source_offsets meta linear zero = ok []
source_offsets meta linear (suc count) = do
  offset ← offset_for_linear meta linear
  rest ← source_offsets meta (linear + 1) count
  ok (offset * meta.element_size ∷ rest)

-- `read_logical_bytes`
unfoldable pub read_logical_bytes :
    (ℕ → ℕ) → (raw : List ℕ) → TensorMeta → AiTargetHint → Result Fault (List ℕ)
unfolding gather_logical source_offsets
read_logical_bytes vl raw meta target = do
  logical_len ←
      try (ok_or (checked_mul meta.element_count meta.element_size) BackendErr.invalid_tensor)
  if is_contiguous meta
      then try (
          if leb logical_len (length raw)
          then ok (take logical_len raw)
          else err BackendErr.invalid_tensor)
      else (do
        allocate meta.element_count
        offsets ← try (source_offsets meta 0 meta.element_count)
        gather_logical vl raw offsets meta.element_size target)

-- `copy_for_target`, into an output of that length
unfoldable pub copy_for_target :
    (ℕ → ℕ) → AiTargetHint → (source : List ℕ) → (output_len : ℕ) → Result BackendErr (List ℕ)
unfolding vector_target
copy_for_target vl target source output_len =
    if vector_target target
    then copy_bytes vl source output_len
    else if length source == output_len
    then ok source
    else err BackendErr.invalid_tensor

-- `output[start..start + bytes.len()].copy_from_slice(bytes)`
abbrev pub splice : (output : List ℕ) → (start : ℕ) → (bytes : List ℕ) → Result Fault (List ℕ)
splice output start bytes =
    if leb (start + length bytes) (length output)
    then ok (take start output ++ (bytes ++ drop (start + length bytes) output))
    else err panicked

-- The loop of `write_logical_bytes`, for `count` indices from `linear` on.
unfoldable pub write_elements :
    (logical : List ℕ) → (output : List ℕ) → TensorMeta → (linear count : ℕ) → Result Fault (List ℕ)
write_elements logical output meta linear zero = ok output
write_elements logical output meta linear (suc count) = do
  offset ← try (offset_for_linear meta linear)
  element ← subslice logical (linear * meta.element_size) meta.element_size
  output' ← splice output (offset * meta.element_size) element
  write_elements logical output' meta (linear + 1) count

-- `write_logical_bytes`
unfoldable pub write_logical_bytes :
    (ℕ → ℕ) → (logical output : List ℕ) → TensorMeta → AiTargetHint → Result Fault (List ℕ)
unfolding copy_for_target write_elements
write_logical_bytes vl logical output meta target = do
  guard (length logical == meta.element_count * meta.element_size)
      (returned BackendErr.invalid_tensor)
  if is_contiguous meta
      then (do
        guard (leb (length logical) (length output)) panicked
        copied ← try (copy_for_target vl target logical (length logical))
        ok (copied ++ drop (length logical) output))
      else write_elements logical output meta 0 meta.element_count

-- `normalize_index`; the index is an `i64` in two's complement.
unfoldable pub normalize_index : (index dimension : ℕ) → Result BackendErr ℕ
normalize_index index dimension = do
  guard (ltb dimension (2 ^ 63)) BackendErr.invalid_tensor
  let normalized = if leb (2 ^ 63) index then (index + dimension) % usize_mod else index in
      if leb (2 ^ 63) normalized || leb dimension normalized
      then err BackendErr.invalid_input
      else ok normalized

-- The loop of `row_major_linear`.
unfoldable pub row_major_loop : (linear : ℕ) → (coords shape : List ℕ) → Result BackendErr ℕ
row_major_loop linear (c ∷ coords) (dim ∷ shape) = do
  guard (ltb c dim) BackendErr.invalid_tensor
  scaled ← ok_or (checked_mul linear dim) BackendErr.invalid_tensor
  linear' ← ok_or (checked_add scaled c) BackendErr.invalid_tensor
  row_major_loop linear' coords shape
row_major_loop linear coords shape = ok linear

-- `row_major_linear`
unfoldable pub row_major_linear : TensorMeta → (coords : List ℕ) → Result BackendErr ℕ
unfolding row_major_loop
row_major_linear meta coords = row_major_loop 0 (take meta.rank coords) meta.shape

-- `product`, from a first value on
unfoldable pub shape_product : (total : ℕ) → List ℕ → Result BackendErr ℕ
shape_product total [] = ok total
shape_product total (dim ∷ shape) = do
  total' ← ok_or (checked_mul total dim) BackendErr.invalid_tensor
  shape_product total' shape

-- `aligned_shape`
unfoldable pub aligned_shape : TensorMeta → (output_rank output_axis : ℕ) → ℕ
aligned_shape meta output_rank output_axis =
    if ltb output_axis (output_rank - meta.rank)
    then 1
    else get_or meta.shape (output_axis - (output_rank - meta.rank)) 0

-- The loops of `remap_single_input` and of the entries that fill `offsets`: for each logical index of
-- the output, where its coordinates lead in the logical input.
unfoldable pub remap_offsets :
    TensorMeta
    → (element_size : ℕ) → (source_linear : (linear : ℕ) → List ℕ → Result Fault ℕ)
    → (linear count : ℕ) → Result Fault (List ℕ)
remap_offsets output_meta es source_linear linear zero = ok []
remap_offsets output_meta es source_linear linear (suc count) = do
  coords ← try (coordinates output_meta linear (replicate max_dim 0))
  source ← source_linear linear coords
  rest ← remap_offsets output_meta es source_linear (linear + 1) count
  ok (source * es ∷ rest)

-- What `remap_single_input` and the entries of the gathers do after their checks; `raw` and `output` are
-- what `as_slice` and `as_mut_slice` of the two views answer.
unfoldable pub gather_into :
    (ℕ → ℕ)
    → AiTargetHint
    → (raw output : Result Fault (List ℕ)) → (input_meta output_meta : TensorMeta)
    → (source_linear : (linear : ℕ) → List ℕ → Result Fault ℕ) → Result Fault (List ℕ)
gather_into vl target raw output input_meta output_meta source_linear = do
  bytes ← raw
  logical_input ← read_logical_bytes vl bytes input_meta target
  allocate output_meta.element_count
  offsets ←
      remap_offsets output_meta input_meta.element_size source_linear 0 output_meta.element_count
  logical_output ← gather_logical vl logical_input offsets output_meta.element_size target
  old ← output
  write_logical_bytes vl logical_output old output_meta target

-- `remap_single_input`
unfoldable pub remap_single_input :
    (ℕ → ℕ)
    → AiTargetHint
    → (raw output : Result Fault (List ℕ)) → (input_meta output_meta : TensorMeta)
    → (source_linear : List ℕ → Result Fault ℕ) → Result Fault (List ℕ)
remap_single_input vl target raw output input_meta output_meta source_linear =
    gather_into vl target raw output input_meta output_meta (λ _. source_linear)
