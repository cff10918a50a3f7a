-- ===== src/Backend/Call/Meta.antt =====
-- A view that passes `checked_meta` (k3_kernel_backend/src/call.rs): its elements lie in its buffer.
use k3x_hera_rt.Common.{
  ℕ, zero, suc, ◌+◌, ◌*◌, ◌≤◌, ◌<◌, ◌≡◌, ◌≢◌, refl, sym, ◌∙◌, ap, true, not, ◌&&◌, some, List, [],
  ◌∷◌, ◌==◌, if◌then◌else◌, length, take, checked_add, usize_mod, ok, ok_or, map_err, guard,
  >>=-eq-ok, map_err-eq-ok, ok_or-eq-ok, guard-eq-ok, ok-injective, length-take, arith,
}
use mathlib.Core.Path.{subst}
use k3x_hera_rt.Uabi.Types.{try_as_usize, try_under_max}
use k3x_hera_rt.Uabi.Error.{BackendErr}
use k3x_hera_rt.Uabi.Dtype.{element_size_bytes, dense, strided}
use k3x_hera_rt.Uabi.Desc.{max_dim, pad}
use k3x_hera_rt.Backend.Call.{
  AxisScan, BackendTensorView, TensorMeta, checked_meta, scan_axes, exceeds, check_dense,
  dense_axes,
}
use k3x_hera_rt.Backend.Call.Scan.{product, extent, scan_axes-Scanned, try_as_usize-eq-ok}

-- What a successful check has established.
pub record Checked (view : BackendTensorView) (m : TensorMeta) : Type 0 where
  pub address : view.data_address ≢ 0
  pub dims : List ℕ
  pub strides : List ℕ
  pub rank : m.rank ≡ length dims
  pub shape : m.shape ≡ pad max_dim dims
  pub strides_padded : m.strides ≡ pad max_dim strides
  pub same : length dims ≡ length strides
  pub positive : 0 < m.element_size
  pub dtype_size : element_size_bytes view.dtype ≡ some m.element_size
  pub few : m.rank ≤ max_dim
  pub count : m.element_count ≡ product dims
  pub fits :
      m.element_count ≢ 0 → m.element_size * extent dims strides + m.element_size ≤ view.byte_len
  pub small : view.byte_len < usize_mod
  pub in_order : view.layout ≡ dense → (next : ℕ) × (dense_axes dims strides ≡ ok next)

pub element_size_pos : (dtype : ℕ) {es : ℕ} → element_size_bytes dtype ≡ some es → 0 < es
unfolding element_size_bytes
element_size_pos dtype h = ground arith

rank_small : (ndim : ℕ) {rank : ℕ} → try_under_max ndim max_dim ≡ ok rank → rank ≤ max_dim
unfolding try_under_max try_as_usize
rank_small ndim h = ground arith

dense_axes_ok :
    (layout : ℕ) (dims strides : List ℕ) {u : Unit {0}}
    → check_dense layout dims strides ≡ ok u
    → layout ≡ dense
    → (next : ℕ) × (dense_axes dims strides ≡ ok next)
unfolding check_dense
dense_axes_ok layout dims strides h d =
    let test : (layout == dense) ≡ true = ground arith in
    let (next, e, _) =
      >>=-eq-ok (dense_axes dims strides) (λ _. ok tt) (rw (test, check_dense) at h) in
    (next, e)

nonzero : (a : ℕ) → not (a == 0) ≡ true → a ≢ 0
nonzero a h e = ground arith

fits_lem :
    (count offset es byte_len : ℕ)
    → not (not (count == 0) && exceeds (checked_add offset es) byte_len) ≡ true
    → count ≢ 0
    → offset + es ≤ byte_len
fits_lem count offset es byte_len h ne = ground arith

rank_taken :
    (rank : ℕ) (xs : List ℕ) → length xs ≡ max_dim → rank ≤ max_dim → length (take rank xs) ≡ rank
rank_taken rank xs size few = omega (arith, length-take rank xs, size, few)

taken :
    (rank : ℕ) (xs ys : List ℕ)
    → length xs ≡ length ys
    → length (take rank xs) ≡ length (take rank ys)
taken rank xs ys same = omega (arith, length-take rank xs, length-take rank ys, same)

scanned_rank :
    (rank : ℕ) (xs : List ℕ)
    → length xs ≡ max_dim
    → rank ≤ max_dim
    → (s : AxisScan) → s.shape ≡ take rank xs
    → length s.shape ≡ rank
scanned_rank rank xs size few s e = ap length e ∙ rank_taken rank xs size few

count_lem :
    (rank count : ℕ) (dims : List ℕ)
    → length dims ≡ rank
    → count ≡ 1 * product dims
    → (if rank == 0 then 1 else count) ≡ product dims
count_lem zero count [] ranked e = refl
count_lem zero count (d ∷ dims) ranked e = absurd (omega arith)
count_lem (suc rank) count dims ranked e = ground arith

pub checked_meta-Checked :
    (view : BackendTensorView) (m : TensorMeta)
    → length view.shape ≡ max_dim
    → length view.stride_bytes ≡ max_dim
    → checked_meta view ≡ ok m
    → Checked view m
unfolding checked_meta
checked_meta-Checked view m shape_size stride_size h =
    let (rank, e1, h1) =
      >>=-eq-ok (map_err (try_under_max view.ndim max_dim) BackendErr.invalid_tensor) _ h in
    let (es, e2, h2) =
      >>=-eq-ok (ok_or (element_size_bytes view.dtype) BackendErr.unsupported_dtype) _ h1 in
    let (byte_len, e3, h3) =
      >>=-eq-ok (map_err (try_as_usize view.byte_len) BackendErr.invalid_tensor) _ h2 in
    let (_, e4, h4) =
      >>=-eq-ok (guard (not (view.data_address == 0)) BackendErr.invalid_tensor) _ h3 in
    let (_, e5, h5) =
      >>=-eq-ok
        (guard (not (not (view.layout == dense) && not (view.layout == strided)))
          BackendErr.invalid_tensor)
        _ h4 in
    let (s, e6, h6) =
      >>=-eq-ok (scan_axes es 1 0 (take rank view.shape) (take rank view.stride_bytes)) _ h5 in
    let (_, e7, h7) =
      >>=-eq-ok
        (guard
          (not (
            not ((if rank == 0 then 1 else s.element_count) == 0)
            && exceeds (checked_add s.max_offset es) byte_len))
          BackendErr.invalid_tensor)
        _ h6 in
    let (_, e8, h8) = >>=-eq-ok (check_dense view.layout s.shape s.strides) _ h7 in
    let scanned =
      scan_axes-Scanned es 1 0 (take rank view.shape) (take rank view.stride_bytes) s
        (taken rank view.shape view.stride_bytes (shape_size ∙ sym stride_size)) e6 in
    let (raw, small) =
      try_as_usize-eq-ok view.byte_len (map_err-eq-ok (try_as_usize view.byte_len) _ e3) in
    let few = rank_small view.ndim (map_err-eq-ok (try_under_max view.ndim max_dim) _ e1) in
    let ranked = scanned_rank rank view.shape shape_size few s scanned.shape in
    let strides_ranked =
      scanned.strides_length ∙ rank_taken rank view.stride_bytes stride_size few in
    subst (Checked view) (ok-injective h8) (record {
      address = λ e. nonzero view.data_address (guard-eq-ok _ _ e4) e;
      dims = s.shape;
      strides = s.strides;
      rank = sym ranked;
      shape = refl;
      strides_padded = refl;
      same = ranked ∙ sym strides_ranked;
      positive = element_size_pos view.dtype (ok_or-eq-ok (element_size_bytes view.dtype) _ e2);
      dtype_size = ok_or-eq-ok (element_size_bytes view.dtype) _ e2;
      few = few;
      count = count_lem rank s.element_count s.shape ranked (scanned.element_count);
      fits = λ ne. omega (
        arith,
        fits_lem (if rank == 0 then 1 else s.element_count) s.max_offset es byte_len
            (guard-eq-ok _ _ e7) ne,
        scanned.max_offset,
        raw,
      );
      small = omega (arith, raw, small);
      in_order = dense_axes_ok view.layout s.shape s.strides e8;
    })
