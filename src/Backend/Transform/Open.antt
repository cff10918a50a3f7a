-- ===== src/Backend/Transform/Open.antt =====
-- What the common checks of the entries of k3_kernel_backend/src/transform.rs establish, and what then
-- remains of an entry: its map from the output to the input.
use k3x_hera_rt.Common.{
  ℕ, ◌*◌, ◌%◌, ◌^◌, ◌≤◌, ◌<◌, ◌≡◌, sym, ◌∙◌, ap, ap₂, take-append_self, length-take, true, false,
  ==_ne, lt→ltb, not, ◌||◌, List, ◌++◌, ◌==◌, ltb, length, take, drop, ok, err, guard, Result,
  >>=-eq-ok, guard-eq-ok, ok-injective, some-injective, usize_mod, arith,
}
use mathlib.Core.Path.{subst}
use k3x_hera_rt.Uabi.Error.{BackendErr}
use k3x_hera_rt.Uabi.Types.{try_as_usize}
use k3x_hera_rt.Uabi.KernelAttr.{attr_bytes}
use k3x_hera_rt.Uabi.Desc.{max_dim}
use k3x_hera_rt.Uabi.Dtype.{f16_dtype, element_size_bytes}
use k3x_hera_rt.Backend.Call.{
  BackendTensorView, TensorMeta, typed_len, checked_meta, is_contiguous, offset_for_linear,
}
use k3x_hera_rt.Backend.Call.Meta.{Checked, checked_meta-Checked}
use k3x_hera_rt.Backend.Context.{CallContext, expect_io, reject_input_output_alias}
use k3x_hera_rt.Backend.Vector.{Fault, returned, try, Strip, window}
use k3x_hera_rt.Backend.Transform.Entries.{Opened, open_pair, read_attr, view_at, as_slice}
use k3x_hera_rt.Backend.Call.Offset.{Inside, row_major}
use k3x_hera_rt.Backend.Call.Scan.{product}
use k3x_hera_rt.Backend.Transform.Remap.{Tensor, Moved, gather_into_moves}
use k3x_hera_rt.Backend.Transform.Offsets.{zeros, row_major-lt, row_major_linear_taken}
use k3x_hera_rt.Backend.Transform.{row_major_linear, gather_into}

pub try-eq-ok : {A : Type 0} (r : Result BackendErr A) {a : A} → try r ≡ ok a → r ≡ ok a
try-eq-ok (ok a) h = cc
try-eq-ok (err e) h = cc

-- The facts of the common checks.
pub record Pair {T : Type 0} (o : Opened T) : Type 0 where
  pub input_accepted : checked_meta o.input ≡ ok o.input_meta
  pub output_accepted : checked_meta o.output ≡ ok o.output_meta
  pub input_dtype : o.input.dtype ≡ f16_dtype
  pub output_dtype : o.output.dtype ≡ f16_dtype

pub both_f16 :
    (a b : ℕ)
    → not (not (a == f16_dtype) || not (b == f16_dtype)) ≡ true
    → (a ≡ f16_dtype) × (b ≡ f16_dtype)
both_f16 a b h = ground arith

pub open_pair-Pair :
    {T : Type 0} (opened : Result BackendErr CallContext) (attr : T) (o : Opened T)
    → open_pair opened attr ≡ ok o
    → Pair o
unfolding open_pair
open_pair-Pair opened value o h =
    let (ctx, e1, h1) = >>=-eq-ok (try opened) _ h in
    let (_, e2, h2) = >>=-eq-ok (try (expect_io ctx 1 1)) _ h1 in
    let (_, e3, h3) = >>=-eq-ok (try (reject_input_output_alias ctx)) _ h2 in
    let (attr, e4, h4) = >>=-eq-ok (try (read_attr ctx attr_bytes value)) _ h3 in
    let (input, e5, h5) = >>=-eq-ok (view_at ctx.inputs 0) _ h4 in
    let (output, e6, h6) = >>=-eq-ok (view_at ctx.outputs 0) _ h5 in
    let (_, e7, h7) =
      >>=-eq-ok
        (guard (not (not (input.dtype == f16_dtype) || not (output.dtype == f16_dtype)))
          (returned BackendErr.unsupported_dtype))
        _ h6 in
    let (input_meta, e8, h8) = >>=-eq-ok (try (checked_meta input)) _ h7 in
    let (output_meta, e9, h9) = >>=-eq-ok (try (checked_meta output)) _ h8 in
    let (a, b) = both_f16 input.dtype output.dtype (guard-eq-ok _ _ e7) in
    subst Pair (ok-injective h9) (record {
      input_accepted = try-eq-ok (checked_meta input) e8;
      output_accepted = try-eq-ok (checked_meta output) e9;
      input_dtype = a;
      output_dtype = b;
    })

pub two_bytes :
    (view : BackendTensorView) (m : TensorMeta)
    → Checked view m
    → view.dtype ≡ f16_dtype
    → m.element_size ≡ 2
unfolding element_size_bytes
two_bytes view m c f16 = some-injective (sym c.dtype_size ∙ ap element_size_bytes f16)

pub as_slice_lem :
    (memory : (address count : ℕ) → List ℕ) (view : BackendTensorView) (m : TensorMeta)
    → Checked view m
    → as_slice memory view ≡ ok (memory view.data_address view.byte_len)
unfolding as_slice typed_len try_as_usize
as_slice_lem memory view m c =
    let present : (view.data_address == 0) ≡ false = ==_ne view.data_address 0 c.address in
    let small : ltb view.byte_len usize_mod ≡ true = lt→ltb _ _ c.small in
    let even : (view.byte_len % 1 == 0) ≡ true = ground arith in
    rw (present, as_slice)
      (rw (small, as_slice)
        (rw (even, as_slice) (ap (λ n. ok (memory view.data_address n)) (omega arith))))

-- The dimensions of a tensor.
abbrev pub dims : TensorMeta → List ℕ
dims m = take m.rank m.shape

pub dims_lem : (view : BackendTensorView) (m : TensorMeta) (c : Checked view m) → dims m ≡ c.dims
dims_lem view m c = ap₂ take c.rank c.shape ∙ take-append_self c.dims _

pub length-dims :
    (view : BackendTensorView) (m : TensorMeta) (c : Checked view m) → length (dims m) ≡ m.rank
length-dims view m c = ap length (dims_lem view m c) ∙ sym c.rank

pub shape_long :
    (view : BackendTensorView) (m : TensorMeta) (c : Checked view m) → m.rank ≤ length m.shape
shape_long view m c = omega (arith, length-dims view m c, length-take m.rank m.shape)

-- Coordinates inside the dimensions have a row-major index.
pub linear_of :
    (view : BackendTensorView) (m : TensorMeta) (c : Checked view m)
    → m.element_count < 2 ^ 60
    → (coords : List ℕ) → Inside (take m.rank coords) (dims m)
    → row_major_linear m coords ≡ ok (row_major (take m.rank coords) (dims m))
linear_of view m c small coords inside =
    let same : dims m ≡ c.dims = dims_lem view m c in
    (row_major_linear_taken view m c coords (subst (Inside (take m.rank coords)) same inside)
      (omega (arith, small))).0
    ∙ ap (λ ds. ok (row_major (take m.rank coords) ds)) (sym same)

-- Element `linear` of the output's bytes is the element of the input, with the bytes `raw`, whose
-- coordinates are related to those of the output.
pub record Comes {T : Type 0} (o : Opened T) (bytes raw : List ℕ)
    (R : (coords source : List ℕ) → Type 0) (linear : ℕ) : Type 0 where
  pub coords : List ℕ
  pub inside : Inside coords (dims o.output_meta)
  pub index : row_major coords (dims o.output_meta) ≡ linear
  pub source : List ℕ
  pub source_inside : Inside source (dims o.input_meta)
  pub related : R coords source
  pub offset : ℕ
  pub place : offset_for_linear o.input_meta (row_major source (dims o.input_meta)) ≡ ok offset
  pub same : window bytes (linear * 2) 2 ≡ window raw (offset * 2) 2

-- An entry after its checks, with the sizes of the arrays of its views, room for the tensors, and a
-- contiguous output.
module _ (vl : ℕ → ℕ) (strip : Strip vl) (memory : (address count : ℕ) → List ℕ)
    (memory_size : (address count : ℕ) → length (memory address count) ≡ count) {T : Type 0}
    (o : Opened T) (pair : Pair o) (input_shape : length o.input.shape ≡ max_dim)
    (input_strides : length o.input.stride_bytes ≡ max_dim)
    (output_shape : length o.output.shape ≡ max_dim)
    (output_strides : length o.output.stride_bytes ≡ max_dim)
    (input_small : o.input_meta.element_count < 2 ^ 60)
    (output_small : o.output_meta.element_count < 2 ^ 60)
    (contiguous : is_contiguous o.output_meta ≡ true) where
  abbrev input : Tensor
  input = record {
    view = o.input;
    info = o.input_meta;
    bytes = memory o.input.data_address o.input.byte_len;
    shape_size = input_shape;
    strides_size = input_strides;
    accepted = pair.input_accepted;
    bytes_size = memory_size o.input.data_address o.input.byte_len;
    some_memory = input_small;
  }

  abbrev output : Tensor
  output = record {
    view = o.output;
    info = o.output_meta;
    bytes = memory o.output.data_address o.output.byte_len;
    shape_size = output_shape;
    strides_size = output_strides;
    accepted = pair.output_accepted;
    bytes_size = memory_size o.output.data_address o.output.byte_len;
    some_memory = output_small;
  }

  abbrev in_checked : Checked o.input o.input_meta
  in_checked =
      checked_meta-Checked o.input o.input_meta input_shape input_strides pair.input_accepted

  abbrev out_checked : Checked o.output o.output_meta
  out_checked =
      checked_meta-Checked o.output o.output_meta output_shape output_strides pair.output_accepted

  out_width : o.output_meta.element_size ≡ 2
  out_width = two_bytes o.output o.output_meta out_checked pair.output_dtype

  same_width : o.input_meta.element_size ≡ o.output_meta.element_size
  same_width = two_bytes o.input o.input_meta in_checked pair.input_dtype ∙ sym out_width

  out_dims : dims o.output_meta ≡ out_checked.dims
  out_dims = dims_lem o.output o.output_meta out_checked

  module _ (source_linear : (linear : ℕ) → List ℕ → Result Fault ℕ)
      (R : (coords source : List ℕ) → Type 0)
      (leads : (coords : List ℕ)
        → Inside coords (dims o.output_meta)
        → (source : List ℕ) × Inside source (dims o.input_meta)
          × (source_linear
                (row_major coords (dims o.output_meta))
                (coords ++ drop o.output_meta.rank zeros)
              ≡ ok (row_major source (dims o.input_meta)))
          × R coords source) where
    bounded :
        (coords : List ℕ)
        → Inside coords out_checked.dims
        → (n : ℕ) × (source_linear
              (row_major coords out_checked.dims)
              (coords ++ drop o.output_meta.rank zeros)
            ≡ ok n)
          × (n < o.input_meta.element_count)
    bounded coords inside =
        let (source, within, found, _) = leads coords (rw out_dims inside) in
        (
          row_major source (dims o.input_meta),
          ap (λ ds. source_linear (row_major coords ds) (coords ++ drop o.output_meta.rank zeros))
                (sym out_dims)
              ∙ found,
          omega (
            arith,
            row_major-lt source (dims o.input_meta) within,
            in_checked.count,
            ap product (dims_lem o.input o.input_meta in_checked),
          ),
        )

    Moved-Comes :
        (bytes : List ℕ) (linear : ℕ)
        → Moved vl strip o.target input output same_width contiguous source_linear bounded bytes
            linear
        → Comes o bytes input.bytes R linear
    Moved-Comes bytes linear moved =
        let inside : Inside moved.coords (dims o.output_meta) = rw out_dims moved.inside in
        let (source, within, found, related) = leads moved.coords inside in
        let named : moved.source ≡ row_major source (dims o.input_meta) = ok-injective (
          sym moved.found
          ∙ ap
              (λ ds.
                source_linear (row_major moved.coords ds)
                  (moved.coords ++ drop o.output_meta.rank zeros))
              (sym out_dims)
          ∙ found) in
        record {
          coords = moved.coords;
          inside = inside;
          index = ap (row_major moved.coords) out_dims ∙ moved.index;
          source = source;
          source_inside = within;
          related = related;
          offset = moved.offset;
          place = ap (offset_for_linear o.input_meta) (sym named) ∙ moved.place;
          same =
              subst (λ w. window bytes (linear * w) w ≡ window input.bytes (moved.offset * w) w)
                out_width moved.same;
        }

    -- An entry whose map leads from coordinates of the output to coordinates of the input ends with
    -- the elements that the map names.
    pub remap-Comes :
        (bytes : List ℕ) × (gather_into vl o.target
            (as_slice memory o.input)
            (as_slice memory o.output)
            o.input_meta
            o.output_meta
            source_linear
          ≡ ok bytes)
        × ((linear : ℕ)
            → linear < o.output_meta.element_count
            → Comes o bytes (memory o.input.data_address o.input.byte_len) R linear)
    remap-Comes =
        let (bytes, run, moved) =
          gather_into_moves vl strip o.target input output same_width contiguous source_linear
            bounded in
        (
          bytes,
          rw (as_slice_lem memory o.input o.input_meta in_checked)
              (rw (as_slice_lem memory o.output o.output_meta out_checked) run),
          λ linear below. Moved-Comes bytes linear (moved linear below),
        )
