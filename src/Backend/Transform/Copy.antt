-- ===== src/Backend/Transform/Copy.antt =====
-- `call_copy` of k3_kernel_backend/src/transform.rs.
use k3x_hera_rt.Common.{
  ℕ, ◌^◌, ◌<◌, ◌≡◌, ◌≢◌, refl, ◌∙◌, sym, ap₂, ◌*◌, false, true, not, ◌||◌, some, List, ◌==◌, length,
  ok, guard, Result, >>=-eq-ok, guard-eq-ok, ok-injective, ==_ne, arith,
}
use mathlib.Core.Path.{subst}
use k3x_hera_rt.Uabi.Error.{BackendErr}
use k3x_hera_rt.Uabi.KernelAttr.{attr_bytes, CopyAttr}
use k3x_hera_rt.Uabi.Desc.{max_dim}
use k3x_hera_rt.Uabi.Dtype.{f16_dtype}
use k3x_hera_rt.Backend.Call.{checked_meta, is_contiguous}
use k3x_hera_rt.Backend.Call.Meta.{Checked, checked_meta-Checked}
use k3x_hera_rt.Backend.Context.{CallContext, expect_io}
use k3x_hera_rt.Backend.Vector.{returned, Strip, try}
use k3x_hera_rt.Backend.Transform.{read_logical_bytes}
use k3x_hera_rt.Backend.Transform.Logical.{
  InLogicalOrder, read_logical_bytes_ordered, read-write_logical_bytes,
}
use k3x_hera_rt.Backend.Transform.Entries.{Opened, read_attr, view_at}
use k3x_hera_rt.Backend.Transform.GatherEntries.{copy_views, open_copy, call_copy}
use k3x_hera_rt.Backend.Transform.Open.{Pair, both_f16, try-eq-ok, two_bytes, as_slice_lem}

abbrev Accepted : Opened CopyAttr → Type 0
Accepted o = Pair o × (o.input_meta.element_count ≡ o.output_meta.element_count)

same_count : (a b c d : ℕ) → not (not (a == b) || not (c == d)) ≡ true → c ≡ d
same_count a b c d h = ground arith

copy_views-Accepted :
    (ctx : CallContext) (attr : CopyAttr) (o : Opened CopyAttr)
    → copy_views ctx attr ≡ ok o
    → Accepted o
unfolding copy_views
copy_views-Accepted ctx attr o h =
    let (input, e1, h1) = >>=-eq-ok (view_at ctx.inputs 0) _ h in
    let (output, e2, h2) = >>=-eq-ok (view_at ctx.outputs 0) _ h1 in
    let (_, e3, h3) =
      >>=-eq-ok
        (guard (not (not (input.dtype == f16_dtype) || not (output.dtype == f16_dtype)))
          (returned BackendErr.unsupported_dtype))
        _ h2 in
    let (_, e4, h4) = >>=-eq-ok (guard (attr.flags == 0) (returned BackendErr.invalid_attr)) _ h3 in
    let (input_meta, e5, h5) = >>=-eq-ok (try (checked_meta input)) _ h4 in
    let (output_meta, e6, h6) = >>=-eq-ok (try (checked_meta output)) _ h5 in
    let (_, e7, h7) =
      >>=-eq-ok
        (guard
          (not (
            not (input.dtype == output.dtype)
            || not (input_meta.element_count == output_meta.element_count)))
          (returned BackendErr.invalid_tensor))
        _ h6 in
    let (a, b) = both_f16 input.dtype output.dtype (guard-eq-ok _ _ e3) in
    subst Accepted (ok-injective h7) (
      record {
        input_accepted = try-eq-ok (checked_meta input) e5;
        output_accepted = try-eq-ok (checked_meta output) e6;
        input_dtype = a;
        output_dtype = b;
      },
      same_count input.dtype output.dtype input_meta.element_count output_meta.element_count
          (guard-eq-ok _ _ e7),
    )

open_copy-Accepted :
    (opened : Result BackendErr CallContext) (attr : CopyAttr) (o : Opened CopyAttr)
    → open_copy opened attr ≡ ok o
    → Accepted o
unfolding open_copy
open_copy-Accepted opened value o h =
    let (ctx, e1, h1) = >>=-eq-ok (try opened) _ h in
    let (_, e2, h2) = >>=-eq-ok (try (expect_io ctx 1 1)) _ h1 in
    let (attr, e3, h3) = >>=-eq-ok (try (read_attr ctx attr_bytes value)) _ h2 in
    copy_views-Accepted ctx attr o h3

module _ (vl : ℕ → ℕ) (strip : Strip vl) (memory : (address count : ℕ) → List ℕ)
    (memory_size : (address count : ℕ) → length (memory address count) ≡ count)
    (opened : Result BackendErr CallContext) (attr : CopyAttr) (o : Opened CopyAttr)
    (accepted : open_copy opened attr ≡ ok o) (apart : o.input.data_address ≢ o.output.data_address)
    (input_shape : length o.input.shape ≡ max_dim)
    (input_strides : length o.input.stride_bytes ≡ max_dim)
    (output_shape : length o.output.shape ≡ max_dim)
    (output_strides : length o.output.stride_bytes ≡ max_dim)
    (input_small : o.input_meta.element_count < 2 ^ 60)
    (output_small : o.output_meta.element_count < 2 ^ 60)
    (contiguous : is_contiguous o.output_meta ≡ true) where
  facts : Accepted o
  facts = open_copy-Accepted opened attr o accepted

  in_checked : Checked o.input o.input_meta
  in_checked =
      checked_meta-Checked o.input o.input_meta input_shape input_strides facts.0.input_accepted

  out_checked : Checked o.output o.output_meta
  out_checked =
      checked_meta-Checked o.output o.output_meta output_shape output_strides
        facts.0.output_accepted

  same_size :
      o.input_meta.element_count * o.input_meta.element_size
      ≡ o.output_meta.element_count * o.output_meta.element_size
  same_size =
      ap₂ (λ (n : ℕ) (w : ℕ). n * w) facts.1
        (two_bytes o.input o.input_meta in_checked facts.0.input_dtype
          ∙ sym (two_bytes o.output o.output_meta out_checked facts.0.output_dtype))

  -- A copy between different addresses ends without an error or a panic, and copies: for a call that
  -- `open_copy` accepts (its arrays with `MAX_DIM` entries), whatever the input's strides, tensors of
  -- fewer than 2^60 elements and a contiguous output, reading the new output in logical order gives
  -- the elements of the input in logical order.
  pub call_copy_copies :
      (output : List ℕ) × (logical : List ℕ) × (call_copy vl memory opened attr ≡ ok (some output))
      × InLogicalOrder o.input_meta (memory o.input.data_address o.input.byte_len) logical
      × (read_logical_bytes vl output o.output_meta o.target ≡ ok logical)
  unfolding call_copy
  call_copy_copies =
      let raw = memory o.input.data_address o.input.byte_len in
      let old = memory o.output.data_address o.output.byte_len in
      let (logical, got, ordered) =
        read_logical_bytes_ordered o.input o.input_meta input_shape input_strides
          facts.0.input_accepted vl strip o.target input_small raw (memory_size _ _) in
      let (output, written, _, back) =
        read-write_logical_bytes o.output o.output_meta output_shape output_strides
          facts.0.output_accepted vl strip o.target output_small logical old
          (ordered.whole ∙ same_size) (memory_size _ _) contiguous in
      let differs : (o.input.data_address == o.output.data_address) ≡ false =
        ==_ne o.input.data_address o.output.data_address apart in
      (
        output,
        logical,
        rw (accepted, call_copy)
            (rw (differs, call_copy)
              (rw (as_slice_lem memory o.input o.input_meta in_checked, call_copy)
                (rw (got, call_copy)
                  (rw (as_slice_lem memory o.output o.output_meta out_checked, call_copy)
                    (rw (written, call_copy) refl))))),
        ordered,
        back,
      )
