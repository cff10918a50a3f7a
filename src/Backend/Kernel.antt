-- ===== src/Backend/Kernel.antt =====
-- k3_kernel_backend/src/lib.rs: `k3_run_kernel`, which routes a node to the kernel of its operator. The
-- kernels themselves are a parameter: what `<K as ComputeKernel>::call` answers, for the marker `K`
-- of an operator, as a function of the call. Their writes to tensor memory do not touch the node.
pub mod Routing
use k3x_hera_rt.Common.{
  ℕ, ◌-◌, ◌%◌, Bool, ◌||◌, List, ◌++◌, ◌==◌, ltb, if◌then◌else◌, length, take, drop, map, replicate,
  u32_mod, Result, ok, err,
}
use k3x_hera_rt.Uabi.Types.{AbiTypeError, checked_total}
use k3x_hera_rt.Uabi.Error.{BackendErr, backend_code}
use k3x_hera_rt.Uabi.Kernel.{
  KernelOp, mat_mul_op, rms_norm_op, rope_op, softmax_op, add_op, mul_op, silu_op, scale_op,
  conv2d_op, sigmoid_op, concat_op, transpose_op, gather_op, max_pool_op, cast_op, resize_op,
  div_op, top_k_op, expand_op, tile_op, gather_elements_op, sub_op, reduce_max_op, mod_op, glu_op,
  copy_op, prefer_a100,
}
use k3x_hera_rt.Uabi.Desc.{max_submit_tensors}
use k3x_hera_rt.Uabi.Graph.{AiGraphNode}
use k3x_hera_rt.Backend.Call.{BackendTensorView, from_desc}

-- `BackendCall`; the arrays behind its pointers are lists.
pub record BackendCall : Type 0 where
  pub op : KernelOp
  pub target : ℕ
  pub inputs : List BackendTensorView
  pub input_count : ℕ
  pub outputs : List BackendTensorView
  pub output_count : ℕ
  pub attr : List ℕ
  pub attr_size : ℕ

-- The operators that `match desc.op` names.
unfoldable pub has_kernel : KernelOp → Bool
has_kernel op =
    op == mat_mul_op
    || op == silu_op
    || op == sigmoid_op
    || op == scale_op
    || op == add_op
    || op == mul_op
    || op == sub_op
    || op == div_op
    || op == mod_op
    || op == conv2d_op
    || op == rms_norm_op
    || op == rope_op
    || op == softmax_op
    || op == glu_op
    || op == max_pool_op
    || op == reduce_max_op
    || op == top_k_op
    || op == concat_op
    || op == transpose_op
    || op == gather_op
    || op == gather_elements_op
    || op == copy_op
    || op == cast_op
    || op == resize_op
    || op == expand_op
    || op == tile_op

-- A negated error code as an `i32`, in two's complement.
abbrev pub negated : BackendErr → ℕ
negated e = (u32_mod - backend_code e) % u32_mod

-- The node and the code of an error return.
abbrev pub failed : AiGraphNode → BackendErr → AiGraphNode × ℕ
failed node e =
    (record node { state = record { complete = 1; error_flag = backend_code e } }, negated e)

-- The last `match` of `k3_run_kernel`.
abbrev pub finished : AiGraphNode → Result BackendErr (Unit {0}) → AiGraphNode × ℕ
finished node (ok _) =
    (record node { state = record { complete = 1; error_flag = node.state.error_flag } }, 0)
finished node (err e) = failed node e

-- The views that the two loops fill, in arrays of `MAX_SUBMIT_TENSORS` views.
abbrev pub blank_view : BackendTensorView
blank_view = record {
  data_address = 0;
  byte_len = 0;
  shape = replicate 8 0;
  stride_bytes = replicate 8 0;
  ndim = 0;
  dtype = 0;
  format = 0;
  layout = 0;
  flags = 0;
}

abbrev pub fill_views : List BackendTensorView → List BackendTensorView
fill_views views = views ++ replicate (max_submit_tensors - length views) blank_view

-- The call that is built for a node.
unfoldable pub call_of : AiGraphNode → BackendCall
call_of node = record {
  op = node.desc.op;
  target = prefer_a100;
  inputs = fill_views (map from_desc (take node.desc.input_count node.desc.tensors));
  input_count = node.desc.input_count;
  outputs =
      fill_views (
        map from_desc (take node.desc.output_count (drop node.desc.input_count node.desc.tensors)));
  output_count = node.desc.output_count;
  attr = node.desc.attr_inline;
  attr_size = node.desc.attr_size;
}

module _ (kernels : KernelOp → BackendCall → Result BackendErr (Unit {0})) where
  -- `match desc.op`
  unfoldable pub dispatch : BackendCall → Result BackendErr (Unit {0})
  unfolding has_kernel
  dispatch call = if has_kernel call.op then kernels call.op call else err BackendErr.unsupported_op

  -- `k3_run_kernel` once `checked_total` has answered.
  unfoldable pub run_counted : AiGraphNode → Result AbiTypeError ℕ → AiGraphNode × ℕ
  run_counted node (err _) = failed node BackendErr.invalid_input
  run_counted node (ok total_count) =
      if ltb max_submit_tensors total_count
      then failed node BackendErr.invalid_input
      else finished node (dispatch (call_of node))

  -- `k3_run_kernel`: the node as it is left, and the code that is returned.
  unfoldable pub k3_run_kernel : AiGraphNode → AiGraphNode × ℕ
  unfolding run_counted
  k3_run_kernel node = run_counted node (checked_total node.desc.input_count node.desc.output_count)
