-- ===== src/Tests/Copies.antt =====
-- `call_copy`: a tensor that is read column by column, written densely.
use k3x_hera_rt.Common.{some, ℕ, ◌≡◌, refl, List, [], ◌∷◌, replicate, Result, ok, arith}
use k3x_hera_rt.Uabi.Error.{BackendErr}
use k3x_hera_rt.Uabi.Types.{try_as_usize, try_under_max}
use k3x_hera_rt.Uabi.KernelAttr.{CopyAttr}
use k3x_hera_rt.Uabi.Kernel.{prefer_a100}
use k3x_hera_rt.Uabi.Dtype.{strided, element_size_bytes}
use k3x_hera_rt.Backend.Call.{
  BackendTensorView, TensorMeta, checked_meta, scan_axes, check_dense, dense_axes, is_contiguous,
  contiguous_loop,
}
use k3x_hera_rt.Backend.Context.{CallContext, expect_io}
use k3x_hera_rt.Backend.Transform.Entries.{read_attr}
use k3x_hera_rt.Backend.Transform.{read_logical_bytes}
use k3x_hera_rt.Backend.Transform.Logical.{InLogicalOrder}
use k3x_hera_rt.Backend.Transform.Entries.{Opened, read_attr}
use k3x_hera_rt.Backend.Transform.GatherEntries.{copy_views, open_copy, call_copy}
use k3x_hera_rt.Backend.Transform.Copy.{call_copy_copies}
use k3x_hera_rt.Tests.Transforms.{
  four, four-Strip, ramp, length-ramp, two_by_three, two_by_three_meta, three_by_two,
  three_by_two_meta,
}

abbrev columns : BackendTensorView
columns = record two_by_three {
  shape = 3 ∷ 2 ∷ replicate 6 0;
  stride_bytes = 2 ∷ 6 ∷ replicate 6 0;
  layout = strided;
}

abbrev columns_meta : TensorMeta
columns_meta = record two_by_three_meta {
  shape = 3 ∷ 2 ∷ replicate 6 0;
  strides = 1 ∷ 3 ∷ replicate 6 0;
}

abbrev plain_copy : CopyAttr
plain_copy = record { flags = 0; reserved = replicate 15 0 }

abbrev copying : Opened CopyAttr
copying = record {
  target = prefer_a100;
  attr = plain_copy;
  input = columns;
  output = three_by_two;
  input_meta = columns_meta;
  output_meta = three_by_two_meta;
}

abbrev copy_call : Result BackendErr CallContext
copy_call = ok (record {
  target = prefer_a100;
  inputs = columns ∷ [];
  outputs = three_by_two ∷ [];
  attr_address = 64;
  attr_size = 64;
})

copying-opened : open_copy copy_call plain_copy ≡ ok copying
unfolding open_copy copy_views expect_io read_attr checked_meta try_as_usize try_under_max scan_axes
    check_dense dense_axes element_size_bytes
copying-opened = refl

call_copy_copies_example :
    (output : List ℕ) × (logical : List ℕ) × (call_copy four ramp copy_call plain_copy
      ≡ ok (some output))
    × InLogicalOrder columns_meta (ramp 4096 12) logical
    × (read_logical_bytes four output three_by_two_meta prefer_a100 ≡ ok logical)
unfolding is_contiguous contiguous_loop
call_copy_copies_example =
    call_copy_copies four four-Strip ramp length-ramp copy_call plain_copy copying copying-opened
      (λ e. omega (arith, e)) refl refl refl refl (omega arith) (omega arith) refl
