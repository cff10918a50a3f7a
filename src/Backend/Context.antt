-- ===== src/Backend/Context.antt =====
-- k3_kernel_backend/src/call.rs: `CallContext` and its checks, and `normalize_axis`. A pointer is its
-- address, 0 for null; the views behind the pointers of a call are lists, given beside it.
pub mod Alias
use k3x_hera_rt.Common.{
  ℕ, ◌+◌, ◌%◌, ◌^◌, Bool, not, ◌&&◌, ◌||◌, List, [], ◌∷◌, ◌==◌, ltb, leb, if◌then◌else◌, length,
  checked_add, u32_mod, Result, ok, err, ok_or, map_err, guard, ◌>>=◌, ◌>>◌,
}
use k3x_hera_rt.Uabi.Types.{try_as_usize}
use k3x_hera_rt.Uabi.Kernel.{AiTargetHint, auto, prefer_a100, target_is_known}
use k3x_hera_rt.Uabi.Error.{BackendErr}
use k3x_hera_rt.Uabi.Desc.{max_dim}
use k3x_hera_rt.Backend.Call.{BackendTensorView}

-- The fields of a `BackendCall` that `from_call` reads, with what its pointers lead to.
pub record RawCall : Type 0 where
  pub target : ℕ
  pub inputs_address : ℕ
  pub input_count : ℕ
  pub outputs_address : ℕ
  pub output_count : ℕ
  pub attr_address : ℕ
  pub attr_size : ℕ

pub record CallContext : Type 0 where
  pub target : AiTargetHint
  pub inputs : List BackendTensorView
  pub outputs : List BackendTensorView
  pub attr_address : ℕ
  pub attr_size : ℕ

-- `CallContext::from_call`: `read count` are the `count` views that stand behind a pointer.
unfoldable pub from_call :
    (call_address : ℕ)
    → RawCall
    → (read : ℕ → ℕ → List BackendTensorView) → Result BackendErr CallContext
from_call call_address call read = do
  guard (not (call_address == 0)) BackendErr.null_pointer
  guard (target_is_known call.target) BackendErr.unsupported_op
  input_count ← map_err (try_as_usize call.input_count) BackendErr.invalid_input
  output_count ← map_err (try_as_usize call.output_count) BackendErr.invalid_input
  guard (not (ltb 0 input_count && call.inputs_address == 0)) BackendErr.null_pointer
  guard (not (ltb 0 output_count && call.outputs_address == 0)) BackendErr.null_pointer
  attr_size ← map_err (try_as_usize call.attr_size) BackendErr.invalid_attr
  ok (record {
    target = if call.target == auto then prefer_a100 else call.target;
    inputs = if input_count == 0 then [] else read call.inputs_address input_count;
    outputs = if output_count == 0 then [] else read call.outputs_address output_count;
    attr_address = call.attr_address;
    attr_size = attr_size;
  })

-- `CallContext::expect_io`
unfoldable pub expect_io : CallContext → ℕ → ℕ → Result BackendErr (Unit {0})
expect_io ctx input_count output_count =
    guard (not (not (length ctx.inputs == input_count) || not (length ctx.outputs == output_count)))
      BackendErr.invalid_input

-- `RangeInclusive::contains`
abbrev pub contains : (low high : ℕ) → ℕ → Bool
contains low high x = leb low x && leb x high

-- `CallContext::expect_io_range`
unfoldable pub expect_io_range :
    CallContext
    → (inputs_low inputs_high outputs_low outputs_high : ℕ) → Result BackendErr (Unit {0})
expect_io_range ctx inputs_low inputs_high outputs_low outputs_high =
    guard
      (not (
        not (contains inputs_low inputs_high (length ctx.inputs))
        || not (contains outputs_low outputs_high (length ctx.outputs))))
      BackendErr.invalid_input

-- The inner loop of `reject_input_output_alias`, for an input at `start..end`.
unfoldable pub reject_overlaps :
    (input_start input_end : ℕ) → List BackendTensorView → Result BackendErr (Unit {0})
reject_overlaps input_start input_end [] = ok tt
reject_overlaps input_start input_end (output ∷ outputs) = do
  output_len ← map_err (try_as_usize output.byte_len) BackendErr.invalid_tensor
  output_end ← ok_or (checked_add output.data_address output_len) BackendErr.invalid_tensor
  guard (not (ltb input_start output_end && ltb output.data_address input_end))
      BackendErr.invalid_tensor
  reject_overlaps input_start input_end outputs

-- The outer loop.
unfoldable pub reject_aliases :
    (inputs outputs : List BackendTensorView) → Result BackendErr (Unit {0})
unfolding reject_overlaps
reject_aliases [] outputs = ok tt
reject_aliases (input ∷ inputs) outputs = do
  input_len ← map_err (try_as_usize input.byte_len) BackendErr.invalid_tensor
  input_end ← ok_or (checked_add input.data_address input_len) BackendErr.invalid_tensor
  reject_overlaps input.data_address input_end outputs
  reject_aliases inputs outputs

-- `CallContext::reject_input_output_alias`
unfoldable pub reject_input_output_alias : CallContext → Result BackendErr (Unit {0})
unfolding reject_aliases
reject_input_output_alias ctx = reject_aliases ctx.inputs ctx.outputs

-- `normalize_axis`; the axis is an `i32` in two's complement. The sum of a negative axis and a rank of
-- at most 8 is in the range of an `i32`.
unfoldable pub normalize_axis : (axis rank : ℕ) → Result BackendErr ℕ
normalize_axis axis rank = do
  guard (not (rank == 0 || ltb max_dim rank)) BackendErr.invalid_tensor
  let normalized = if leb (2 ^ 31) axis then (axis + rank) % u32_mod else axis in
      if leb (2 ^ 31) normalized || leb rank normalized
      then err BackendErr.invalid_attr
      else ok normalized
