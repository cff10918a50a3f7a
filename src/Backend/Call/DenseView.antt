-- ===== src/Backend/Call/DenseView.antt =====
-- The view of a dense tensor without empty axes passes `checked_meta` (k3_kernel_backend/src/call.rs).
use k3x_hera_rt.Common.{
  ℕ, suc, ◌+◌, ◌-◌, ◌*◌, ◌≤◌, ◌<◌, ◌≡◌, refl, sym, ◌∙◌, ap, Bool, true, false, not, ◌&&◌, some,
  List, [], ◌∷◌, ◌==◌, if◌then◌else◌, length, take, replicate, checked_add, usize_mod, ok,
  take-append_self, ==_ne, arith,
}
use native.Mathlib.Nat.{mul-le-mul_right, mul-add}
use k3x_hera_rt.Uabi.Types.{try_as_usize, try_under_max}
use k3x_hera_rt.Uabi.Dtype.{element_size_bytes, dense}
use k3x_hera_rt.Uabi.Desc.{max_dim, pad}
use k3x_hera_rt.Backend.Call.{BackendTensorView, TensorMeta, checked_meta, exceeds, check_dense}
use k3x_hera_rt.Backend.Call.Scan.{product, extent}
use k3x_hera_rt.Backend.Call.Meta.{element_size_pos}
use k3x_hera_rt.Backend.Call.Accepted.{
  row_strides_of, scaled, Positive, extent_lem, scan_dense, dense_axes_lem,
}

length-scaled : (es : ℕ) (dims : List ℕ) → length (scaled es (row_strides_of dims)) ≡ length dims
length-scaled es [] = refl
length-scaled es (d ∷ dims) = ap suc (length-scaled es dims)

and_false : (b : Bool) → not (b && false) ≡ true
and_false true = refl
and_false false = refl

under_max : (rank : ℕ) → rank ≤ max_dim → try_under_max rank max_dim ≡ ok rank
unfolding try_under_max try_as_usize
under_max rank h = ground arith

as_usize : (n : ℕ) → n < usize_mod → try_as_usize n ≡ ok n
unfolding try_as_usize
as_usize n h = ground arith

-- The `element_count` of a shape.
unfoldable pub count_of : List ℕ → ℕ
count_of shape = if length shape == 0 then 1 else 1 * product shape

pub count_of_lem : (shape : List ℕ) → count_of shape ≡ product shape
unfolding count_of
count_of_lem [] = refl
count_of_lem (d ∷ dims) = ground arith

module _ (shape : List ℕ) (es dtype format flags kernel_va byte_len : ℕ) where
  abbrev pub dense_view : BackendTensorView
  dense_view = record {
    data_address = kernel_va;
    byte_len = byte_len;
    shape = pad max_dim shape;
    stride_bytes = pad max_dim (scaled es (row_strides_of shape));
    ndim = length shape;
    dtype = dtype;
    format = format;
    layout = dense;
    flags = flags;
  }

  abbrev pub dense_meta : TensorMeta
  dense_meta = record {
    rank = length shape;
    shape = pad max_dim shape;
    strides = pad max_dim (row_strides_of shape);
    element_size = es;
    element_count = if length shape == 0 then 1 else 1 * product shape;
  }

  pub dense_view_accepted :
      element_size_bytes dtype ≡ some es
      → length shape ≤ max_dim
      → Positive shape
      → 0 < kernel_va
      → byte_len < usize_mod
      → es * product shape ≤ byte_len
      → checked_meta dense_view ≡ ok dense_meta
  unfolding checked_meta check_dense
  dense_view_accepted sized few positive mapped small enough =
      let es_pos : 0 < es = element_size_pos dtype sized in
      let whole : es * extent shape (row_strides_of shape) + es ≡ es * product shape = omega (
        arith,
        mul-add es (extent shape (row_strides_of shape)) 1,
        ap (λ x. es * x) (extent_lem shape positive),
      ) in
      let product_le : product shape ≤ es * product shape =
        omega (arith, mul-le-mul_right (product shape) es_pos) in
      let strides_taken : take (length shape) (pad max_dim (scaled es (row_strides_of shape)))
          ≡ scaled es (row_strides_of shape) =
        ap (λ n. take n (pad max_dim (scaled es (row_strides_of shape))))
          (sym (length-scaled es shape))
        ∙ take-append_self (scaled es (row_strides_of shape)) _ in
      let inside : exceeds (checked_add (0 + es * extent shape (row_strides_of shape)) es) byte_len
          ≡ false =
        ground (arith, whole, enough, small) in
      rw (under_max (length shape) few, checked_meta)
        (rw (sized, checked_meta)
          (rw (as_usize byte_len small, checked_meta)
            (rw (==_ne kernel_va 0 (λ e. omega (arith, e, mapped)), checked_meta)
              (rw (take-append_self shape (replicate (max_dim - length shape) 0), checked_meta)
                (rw (strides_taken, checked_meta)
                  (rw
                    (
                      scan_dense es 1 0 shape es_pos positive (omega arith)
                          (omega (arith, product_le, enough, small)) (omega (arith, enough, small))
                          (omega (arith, enough, small)),
                      checked_meta,
                    )
                    (rw (inside, checked_meta)
                      (rw
                        (
                          and_false
                              (not ((if length shape == 0 then 1 else 1 * product shape) == 0)),
                          checked_meta,
                        )
                        (rw
                          (
                            dense_axes_lem shape (omega (arith, product_le, enough, small))
                                positive,
                            check_dense,
                          )
                          refl)))))))))
