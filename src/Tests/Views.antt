-- ===== src/Tests/Views.antt =====
-- A dense view of 2 by 3 floats at address 4096.
use k3x_hera_rt.Common.{
  ℕ, ◌+◌, ◌*◌, ◌≤◌, ◌≡◌, refl, ◌∷◌, replicate, ok, arith, ◌-◌, ◌<◌, ◌⊎◌, [], u32_mod, err, Option,
  none, some, Result, true,
}
use k3x_hera_rt.Uabi.Error.{BackendErr}
use k3x_hera_rt.Backend.Context.{
  CallContext, reject_input_output_alias, reject_aliases, reject_overlaps, normalize_axis,
}
use k3x_hera_rt.Backend.Context.Alias.{
  Disjoint, reject_input_output_alias-Disjoint, normalize_axis_decides,
}
use k3x_hera_rt.Uabi.Desc.{max_dim, AiTensorDesc, from_user_buffer, dense_strides, default_quant}
use k3x_hera_rt.Uabi.Dtype.{
  tensor_size_bytes, checked_product, f32_dtype, dense, element_size_bytes,
}
use k3x_hera_rt.Backend.Call.{
  from_desc, is_contiguous, contiguous_loop, BackendTensorView, TensorMeta, checked_meta, scan_axes,
  check_dense, dense_axes, offset_for_linear,
}
use k3x_hera_rt.Backend.Call.UserBuffer.{from_user_buffer_accepted}
use k3x_hera_rt.Backend.Call.Bounds.{
  offset_for_linear-contiguous, offset_for_linear_bounded, offset_for_linear-dense,
}
use k3x_hera_rt.Uabi.Types.{try_as_usize, try_under_max}

abbrev view : BackendTensorView
view = record {
  data_address = 4096;
  byte_len = 24;
  shape = 2 ∷ 3 ∷ replicate 6 0;
  stride_bytes = 12 ∷ 4 ∷ replicate 6 0;
  ndim = 2;
  dtype = f32_dtype;
  format = 0;
  layout = dense;
  flags = 0;
}

abbrev meta : TensorMeta
meta = record {
  rank = 2;
  shape = 2 ∷ 3 ∷ replicate 6 0;
  strides = 3 ∷ 1 ∷ replicate 6 0;
  element_size = 4;
  element_count = 6;
}

view-checked_meta : checked_meta view ≡ ok meta
unfolding checked_meta try_as_usize try_under_max scan_axes check_dense dense_axes
    element_size_bytes
view-checked_meta = refl

offset_for_linear_bounded_example :
    (offset : ℕ) × (offset_for_linear meta 5 ≡ ok offset) × (offset * 4 + 4 ≤ 24)
offset_for_linear_bounded_example =
    offset_for_linear_bounded view meta refl refl view-checked_meta 5 (omega arith)

offset_for_linear-dense_example : offset_for_linear meta 5 ≡ ok 5
offset_for_linear-dense_example =
    offset_for_linear-dense view meta refl refl view-checked_meta 5 (omega arith) refl

-- A call with that view as its input, and an output behind it.
abbrev context : CallContext
context = record {
  target = 3;
  inputs = view ∷ [];
  outputs = record view { data_address = 4120 } ∷ [];
  attr_address = 0;
  attr_size = 0;
}

context-accepted : reject_input_output_alias context ≡ ok tt
unfolding reject_input_output_alias reject_aliases reject_overlaps try_as_usize
context-accepted = refl

reject_input_output_alias-Disjoint_example : Disjoint view (record view { data_address = 4120 })
reject_input_output_alias-Disjoint_example =
    reject_input_output_alias-Disjoint context context-accepted 0 0 view
      (record view { data_address = 4120 }) refl refl

normalize_axis_decides_example :
    (((◌≡◌ {A = ℕ} 3 0) ⊎ (max_dim < 3))
      × (normalize_axis 4294967295 3 ≡ err BackendErr.invalid_tensor))
    ⊎ ((0 < 3)
        × (3 ≤ max_dim)
        × (((4294967295 < 3) × (normalize_axis 4294967295 3 ≡ ok 4294967295))
            ⊎ ((u32_mod - 3 ≤ 4294967295)
                × (normalize_axis 4294967295 3 ≡ ok (3 - (u32_mod - 4294967295))))
            ⊎ ((3 ≤ 4294967295)
                × (4294967295 < u32_mod - 3)
                × (normalize_axis 4294967295 3 ≡ err BackendErr.invalid_attr))))
normalize_axis_decides_example = normalize_axis_decides 4294967295 3 (omega arith)

-- The descriptions of empty dense tensors: that of shape 0 by 2 is accepted by the backend once it is
-- mapped, and that of shape 2 by 0 is not.
abbrev empty_rows : Option AiTensorDesc
unfolding from_user_buffer element_size_bytes tensor_size_bytes checked_product dense_strides
empty_rows = from_user_buffer 8192 0 f32_dtype 0 dense (0 ∷ 2 ∷ []) 0

abbrev empty_columns : Option AiTensorDesc
unfolding from_user_buffer element_size_bytes tensor_size_bytes checked_product dense_strides
empty_columns = from_user_buffer 8192 0 f32_dtype 0 dense (2 ∷ 0 ∷ []) 0

abbrev mapped_meta : Option AiTensorDesc → Option (Result BackendErr TensorMeta)
mapped_meta none = none
mapped_meta (some desc) = some (checked_meta (from_desc (record desc { kernel_va = 4096 })))

empty_rows-accepted :
    mapped_meta empty_rows
    ≡ some (
        ok (record {
          rank = 2;
          shape = 0 ∷ 2 ∷ replicate 6 0;
          strides = 2 ∷ 1 ∷ replicate 6 0;
          element_size = 4;
          element_count = 0;
        }))
unfolding empty_rows from_user_buffer element_size_bytes tensor_size_bytes checked_product
    dense_strides checked_meta try_as_usize try_under_max scan_axes check_dense dense_axes from_desc
empty_rows-accepted = refl

empty_columns-rejected : mapped_meta empty_columns ≡ some (err BackendErr.invalid_tensor)
unfolding empty_columns from_user_buffer element_size_bytes tensor_size_bytes checked_product
    dense_strides checked_meta try_as_usize try_under_max scan_axes check_dense dense_axes from_desc
empty_columns-rejected = refl

-- The description of a 2 by 3 tensor.
abbrev matrix : AiTensorDesc
matrix = record {
  user_va = 8192;
  kernel_va = 0;
  size_bytes = 24;
  dtype = f32_dtype;
  format = 0;
  layout = dense;
  ndim = 2;
  flags = 0;
  shape = 2 ∷ 3 ∷ replicate 6 0;
  stride_bytes = 12 ∷ 4 ∷ replicate 6 0;
  quant = default_quant;
}

matrix-from_user_buffer : from_user_buffer 8192 24 f32_dtype 0 dense (2 ∷ 3 ∷ []) 0 ≡ some matrix
unfolding from_user_buffer element_size_bytes tensor_size_bytes checked_product dense_strides
matrix-from_user_buffer = refl

from_user_buffer_accepted_example :
    (m : TensorMeta) × (checked_meta (from_desc (record matrix { kernel_va = 4096 })) ≡ ok m)
    × (m.rank ≡ 2)
    × (m.shape ≡ 2 ∷ 3 ∷ replicate 6 0)
    × (m.strides ≡ 3 ∷ 1 ∷ replicate 6 0)
    × (m.element_count ≡ 6)
from_user_buffer_accepted_example =
    from_user_buffer_accepted 8192 24 f32_dtype 0 0 (2 ∷ 3 ∷ []) matrix 4096 matrix-from_user_buffer
      (omega arith, (omega arith, tt)) (omega arith) (omega arith)

meta-is_contiguous : is_contiguous meta ≡ true
unfolding is_contiguous contiguous_loop
meta-is_contiguous = refl

offset_for_linear-contiguous_example : offset_for_linear meta 5 ≡ ok 5
offset_for_linear-contiguous_example =
    offset_for_linear-contiguous view meta refl refl view-checked_meta 5 (omega arith)
      meta-is_contiguous
