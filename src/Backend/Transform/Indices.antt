-- ===== src/Backend/Transform/Indices.antt =====
-- What the gathers of k3_kernel_backend/src/transform.rs have in common: their checks, and the indices
-- that they read.
use k3x_hera_rt.Common.{
  ℕ, zero, suc, ◌+◌, ◌<◌, ◌≡◌, refl, sym, ◌∙◌, ap, not, ◌||◌, List, ◌==◌, ltb, length, get_or,
  get_elem?-eq-get_or, ok, guard, Result, >>=-eq-ok, guard-eq-ok, ok-injective, Bool-cases, inl,
  inr, arith,
}
use mathlib.Core.Path.{subst}
use k3x_hera_rt.Uabi.Error.{BackendErr}
use k3x_hera_rt.Uabi.KernelAttr.{attr_bytes}
use k3x_hera_rt.Uabi.Dtype.{f16_dtype, i32_dtype, i64_dtype}
use k3x_hera_rt.Backend.Call.{
  BackendTensorView, TensorMeta, checked_meta, typed_len, offset_for_linear,
}
use k3x_hera_rt.Backend.Context.{CallContext, expect_io, reject_input_output_alias}
use k3x_hera_rt.Backend.Vector.{returned, panicked, try}
use k3x_hera_rt.Backend.Transform.{normalize_index}
use k3x_hera_rt.Backend.Transform.Entries.{read_attr, view_at}
use k3x_hera_rt.Backend.Transform.GatherEntries.{
  Gathering, open_gather, gather_views, index_loop, sign_extend, read_indices, index_at,
}
use k3x_hera_rt.Backend.Transform.Open.{Pair, both_f16, try-eq-ok}

length-index_loop :
    (cast : ℕ → ℕ) (bytes : List ℕ) (width len : ℕ) (meta : TensorMeta) (linear count : ℕ)
    (indices : List ℕ)
    → index_loop cast bytes width len meta linear count ≡ ok indices
    → length indices ≡ count
unfolding index_loop
length-index_loop cast bytes width len meta linear zero indices h = ap length (sym (ok-injective h))
length-index_loop cast bytes width len meta linear (suc count) indices h =
    let (offset, e1, h1) = >>=-eq-ok (try (offset_for_linear meta linear)) _ h in
    let (_, e2, h2) = >>=-eq-ok (guard (ltb offset len) panicked) _ h1 in
    let (rest, e3, h3) = >>=-eq-ok (index_loop cast bytes width len meta (linear + 1) count) _ h2 in
    ap length (sym (ok-injective h3))
    ∙ ap suc (length-index_loop cast bytes width len meta (linear + 1) count rest e3)

-- There is an index for each element of the indices tensor.
pub length-read_indices :
    (memory : (address count : ℕ) → List ℕ) (view : BackendTensorView) (meta : TensorMeta)
    (indices : List ℕ)
    → read_indices memory view meta ≡ ok indices
    → length indices ≡ meta.element_count
unfolding read_indices
length-read_indices memory view meta indices h = elim (Bool-cases (view.dtype == i32_dtype)) [
  | inl narrow ↦
      let (len, _, h1) = >>=-eq-ok (try (typed_len view 4 4)) _ (rw (narrow, read_indices) at h) in
      length-index_loop sign_extend _ 4 len meta 0 meta.element_count indices h1
  | inr other ↦
      let h' = rw (other, read_indices) at h in
      elim (Bool-cases (view.dtype == i64_dtype)) [
        | inl wide ↦
            let (len, _, h1) =
              >>=-eq-ok (try (typed_len view 8 8)) _ (rw (wide, read_indices) at h') in
            length-index_loop (λ value. value) _ 8 len meta 0 meta.element_count indices h1
        | inr neither ↦ absurd (cc (rw (neither, read_indices) at h'))
      ]
]

pub index_at_lem :
    (indices : List ℕ) (i : ℕ) → i < length indices → index_at indices i ≡ ok (get_or indices i 0)
index_at_lem indices i below = rw (get_elem?-eq-get_or indices i 0 below, index_at) refl

pub normalize_index-lt :
    (index dimension : ℕ) {n : ℕ} → normalize_index index dimension ≡ ok n → n < dimension
unfolding normalize_index
normalize_index-lt index dimension h = ground arith

-- Each index names an element along an axis of that dimension.
abbrev pub AllIndex : (indices : List ℕ) → (dimension : ℕ) → Type 0
AllIndex indices dimension =
    (i : ℕ) → i < length indices → (n : ℕ) × (normalize_index (get_or indices i 0) dimension ≡ ok n)

abbrev Accepted : {T : Type 0} → Gathering T → Type 0
Accepted g = Pair g.pair × (checked_meta g.indices ≡ ok g.indices_meta)

gather_views-Accepted :
    {T : Type 0} (ctx : CallContext) (attr : T) (g : Gathering T)
    → gather_views ctx attr ≡ ok g
    → Accepted g
unfolding gather_views
gather_views-Accepted ctx attr g h4 =
    let (input, e5, h5) = >>=-eq-ok (view_at ctx.inputs 0) _ h4 in
    let (output, e6, h6) = >>=-eq-ok (view_at ctx.outputs 0) _ h5 in
    let (_, e7, h7) =
      >>=-eq-ok
        (guard (not (not (input.dtype == f16_dtype) || not (output.dtype == f16_dtype)))
          (returned BackendErr.unsupported_dtype))
        _ h6 in
    let (indices, e8, h8) = >>=-eq-ok (view_at ctx.inputs 1) _ h7 in
    let (data_meta, e9, h9) = >>=-eq-ok (try (checked_meta input)) _ h8 in
    let (indices_meta, e10, h10) = >>=-eq-ok (try (checked_meta indices)) _ h9 in
    let (output_meta, e11, h11) = >>=-eq-ok (try (checked_meta output)) _ h10 in
    let (a, b) = both_f16 input.dtype output.dtype (guard-eq-ok _ _ e7) in
    subst Accepted (ok-injective h11) (
      record {
        input_accepted = try-eq-ok (checked_meta input) e9;
        output_accepted = try-eq-ok (checked_meta output) e11;
        input_dtype = a;
        output_dtype = b;
      },
      try-eq-ok (checked_meta indices) e10,
    )

pub open_gather-Pair :
    {T : Type 0} (opened : Result BackendErr CallContext) (attr : T) (g : Gathering T)
    → open_gather opened attr ≡ ok g
    → Pair g.pair × (checked_meta g.indices ≡ ok g.indices_meta)
unfolding open_gather
open_gather-Pair opened value g h =
    let (ctx, e1, h1) = >>=-eq-ok (try opened) _ h in
    let (_, e2, h2) = >>=-eq-ok (try (expect_io ctx 2 1)) _ h1 in
    let (_, e3, h3) = >>=-eq-ok (try (reject_input_output_alias ctx)) _ h2 in
    let (attr, e4, h4) = >>=-eq-ok (try (read_attr ctx attr_bytes value)) _ h3 in
    gather_views-Accepted ctx attr g h4
