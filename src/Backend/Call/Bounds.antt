-- ===== src/Backend/Call/Bounds.antt =====
-- The elements of a checked view (k3_kernel_backend/src/call.rs) lie in its buffer, and those of a
-- dense one lie in order.
use k3x_hera_rt.Common.{
  ℕ, zero, suc, ◌+◌, ◌*◌, ◌/◌, ◌≤◌, ◌<◌, ◌≡◌, refl, sym, ◌∙◌, ap, ap₂, true, false, not, ◌&&◌, List,
  [], ◌∷◌, ◌++◌, ltb, leb, ◌==◌, length, take, drop, replicate, checked_mul, usize_mod, ok, guard,
  >>=-eq-ok, guard-eq-ok, ok_or-eq-ok, take-append_self, ok-injective, inl, inr, lt→ltb, Bool-cases,
  arith, some, some-injective, Option-cases,
}
use native.Mathlib.Nat.{mul-le-mul_left, mul-le-mul_right, mul_comm, mod-eq_of_lt}
use k3x_hera_rt.Uabi.Error.{BackendErr}
use k3x_hera_rt.Uabi.Dtype.{dense}
use k3x_hera_rt.Uabi.Desc.{max_dim}
use k3x_hera_rt.Backend.Call.{
  contiguous_loop, is_contiguous, BackendTensorView, TensorMeta, checked_meta, dense_axes,
  offset_loop, coordinates, coordinates_loop, offset_for_coordinates, offset_for_linear,
}
use k3x_hera_rt.Backend.Call.Scan.{product, checked_mul-eq-some}
use k3x_hera_rt.Backend.Call.Offset.{
  Inside, dot, row_major, dot-le-extent, offset_loop_lem, coordinates_loop_lem, length-Inside,
}
use k3x_hera_rt.Backend.Call.Meta.{Checked, checked_meta-Checked}

-- The loop stops at the end of the coordinates.
offset_loop-append :
    (offset : ℕ) (coords dims strides xs ys : List ℕ)
    → Inside coords dims
    → length dims ≡ length strides
    → offset_loop offset coords (dims ++ xs) (strides ++ ys)
      ≡ offset_loop offset coords dims strides
unfolding offset_loop
offset_loop-append offset [] [] [] xs ys inside same = refl
offset_loop-append offset [] [] (b ∷ strides) xs ys inside same = refl
offset_loop-append offset [] (d ∷ dims) strides xs ys inside same = elim inside [ ]
offset_loop-append offset (c ∷ coords) [] strides xs ys inside same = elim inside [ ]
offset_loop-append offset (c ∷ coords) (d ∷ dims) [] xs ys inside same = absurd (omega arith)
offset_loop-append offset (c ∷ coords) (d ∷ dims) (b ∷ strides) xs ys inside same =
    rw (lt→ltb c d inside.0, offset_loop)
      (elim (Bool-cases (ltb (c * b) usize_mod)) [
        | inr p ↦ rw (p, offset_loop) refl
        | inl p ↦
            rw (p, offset_loop)
              (elim (Bool-cases (ltb (offset + c * b) usize_mod)) [
                | inr q ↦ rw (q, offset_loop) refl
                | inl q ↦
                    rw (q, offset_loop)
                      (offset_loop-append (offset + c * b) coords dims strides xs ys inside.1
                        (omega (arith, same)))
              ])
      ])

dot-empty : (coords : List ℕ) → dot coords [] ≡ row_major coords []
dot-empty [] = refl
dot-empty (c ∷ coords) = refl

dense_step :
    (d b expected : ℕ) (dims strides coords : List ℕ)
    → Inside coords (d ∷ dims)
    → not (ltb 1 d && not (b == expected)) ≡ true
    → expected ≡ product dims
    → ((cs : List ℕ) → Inside cs dims → dot cs strides ≡ row_major cs dims)
    → dot coords (b ∷ strides) ≡ row_major coords (d ∷ dims)
dense_step d b expected dims strides [] inside ordered inner same_index = elim inside [ ]
dense_step d b expected dims strides (zero ∷ coords) inside ordered inner same_index =
    omega (arith, same_index coords inside.1)
dense_step d b expected dims strides (suc c ∷ coords) inside ordered inner same_index =
    let equal : b ≡ product dims = ground (arith, inside.0) in
    ap (λ x. suc c * x + dot coords strides) equal
    ∙ ap (λ x. suc c * product dims + x) (same_index coords inside.1)

-- Where the strides are the dense ones, the offset of coordinates is their row-major index.
dense_axes-dot :
    (dims strides : List ℕ) {next : ℕ}
    → length dims ≡ length strides
    → dense_axes dims strides ≡ ok next
    → (next ≡ product dims)
      × ((coords : List ℕ) → Inside coords dims → dot coords strides ≡ row_major coords dims)
unfolding dense_axes
dense_axes-dot [] [] same h = (sym (ok-injective h), λ coords inside. dot-empty coords)
dense_axes-dot [] (b ∷ strides) same h = absurd (omega arith)
dense_axes-dot (d ∷ dims) [] same h = absurd (omega arith)
dense_axes-dot (d ∷ dims) (b ∷ strides) same h =
    let (expected, e1, h1) = >>=-eq-ok (dense_axes dims strides) _ h in
    let (_, e2, h2) =
      >>=-eq-ok (guard (not (ltb 1 d && not (b == expected))) BackendErr.invalid_tensor) _ h1 in
    let (whole, _) = checked_mul-eq-some expected d (ok_or-eq-ok (checked_mul expected d) _ h2) in
    let (inner, same_index) = dense_axes-dot dims strides (omega (arith, same)) e1 in
    (
      whole ∙ ap (λ x. x * d) inner ∙ mul_comm (product dims) d,
      λ coords inside.
          dense_step d b expected dims strides coords inside (guard-eq-ok _ _ e2) inner same_index,
    )

-- `is_contiguous` looks for the strides that a dense layout has.
contiguous_loop-dense_axes :
    (dims strides : List ℕ) {next : ℕ}
    → contiguous_loop dims strides ≡ some next
    → dense_axes dims strides ≡ ok next
unfolding contiguous_loop dense_axes
contiguous_loop-dense_axes [] strides h = ap ok (some-injective h)
contiguous_loop-dense_axes (d ∷ dims) [] h = ap ok (some-injective h)
contiguous_loop-dense_axes (d ∷ dims) (b ∷ strides) h =
    elim (Option-cases (contiguous_loop dims strides)) [
      | inl e ↦ absurd (cc (rw (e, contiguous_loop) at h))
      | inr (expected, e) ↦
          let h1 = rw (e, contiguous_loop) at h in
          rw (contiguous_loop-dense_axes dims strides e, dense_axes)
            (elim (Bool-cases (ltb 1 d && not (b == expected))) [
              | inl p ↦ absurd (cc (rw (p, contiguous_loop) at h1))
              | inr p ↦
                  let h2 = rw (p, contiguous_loop) at h1 in
                  rw (p, dense_axes)
                    (elim (Bool-cases (ltb (expected * d) usize_mod)) [
                      | inl q ↦ rw (q, dense_axes) (ap ok (some-injective (rw q at h2)))
                      | inr q ↦ absurd (cc (rw q at h2))
                    ])
            ])
    ]

module _ (view : BackendTensorView) (m : TensorMeta) (c : Checked view m) (linear : ℕ)
    (below : linear < m.element_count) where
  -- The last byte of an element, from the check of `max_offset`.
  last_byte :
      (coords : List ℕ)
      → Inside coords c.dims
      → m.element_size * dot coords c.strides + m.element_size ≤ view.byte_len
  last_byte coords inside = omega (
    arith,
    mul-le-mul_left m.element_size (dot-le-extent coords c.dims c.strides inside c.same),
    c.fits (λ e. omega (arith, e, below)),
  )

  last_fits : (coords : List ℕ) → Inside coords c.dims → dot coords c.strides ≤ view.byte_len
  last_fits coords inside =
      omega (arith, last_byte coords inside, mul-le-mul_right (dot coords c.strides) c.positive)

  small_offset : (coords : List ℕ) → Inside coords c.dims → 0 + dot coords c.strides < usize_mod
  small_offset coords inside = omega (arith, last_fits coords inside, c.small)

  -- The offset of an index is that of coordinates inside the shape with that row-major index.
  offset_for_linear-dot :
      (coords : List ℕ) × (offset_for_linear m linear ≡ ok (dot coords c.strides))
      × Inside coords c.dims
      × (row_major coords c.dims ≡ linear)
  unfolding offset_for_linear coordinates offset_for_coordinates
  offset_for_linear-dot =
      let (coords, eq, inside, index) =
        coordinates_loop_lem c.dims linear (omega (arith, c.count)) in
      let sized : length coords ≡ length c.dims = length-Inside coords c.dims inside in
      (
        coords,
        offset_eq coords eq inside sized,
        inside,
        index ∙ mod-eq_of_lt (omega (arith, c.count)),
      )
    where
      offset_eq :
          (coords : List ℕ)
          → coordinates_loop c.dims linear ≡ ok (coords, linear / product c.dims)
          → Inside coords c.dims
          → length coords ≡ length c.dims
          → offset_for_linear m linear ≡ ok (dot coords c.strides)
      offset_eq coords eq inside sized =
          let test : leb m.element_count linear ≡ false = ground (arith, below) in
          let shape_taken : take m.rank m.shape ≡ c.dims =
            ap₂ take c.rank c.shape ∙ take-append_self c.dims _ in
          let coords_taken : take m.rank (coords ++ drop m.rank (replicate max_dim 0)) ≡ coords =
            ap (λ n. take n (coords ++ drop m.rank (replicate max_dim 0))) (c.rank ∙ sym sized)
            ∙ take-append_self coords _ in
          rw (test, offset_for_linear)
            (rw (shape_taken, coordinates)
              (rw (eq, coordinates)
                (rw (coords_taken, offset_for_coordinates)
                  (rw (c.shape, offset_for_coordinates)
                    (rw (c.strides_padded, offset_for_coordinates)
                      (offset_loop-append 0 coords c.dims c.strides _ _ inside c.same
                        ∙ offset_loop_lem 0 coords c.dims c.strides inside c.same
                            (small_offset coords inside)
                        ∙ ap ok (omega arith)))))))

module _ (view : BackendTensorView) (m : TensorMeta) (shape_size : length view.shape ≡ max_dim)
    (strides_size : length view.stride_bytes ≡ max_dim) (accepted : checked_meta view ≡ ok m)
    (linear : ℕ) (below : linear < m.element_count) where
  c : Checked view m
  c = checked_meta-Checked view m shape_size strides_size accepted

  -- When `checked_meta` accepts a view (whose two arrays have `MAX_DIM` entries), every logical index
  -- has an offset, and that element ends within `byte_len` bytes.
  pub offset_for_linear_bounded :
      (offset : ℕ) × (offset_for_linear m linear ≡ ok offset)
      × (offset * m.element_size + m.element_size ≤ view.byte_len)
  offset_for_linear_bounded =
      let (coords, eq, inside, _) = offset_for_linear-dot view m c linear below in
      (
        dot coords c.strides,
        eq,
        omega (
          arith,
          last_byte view m c linear below coords inside,
          mul_comm (dot coords c.strides) m.element_size,
        ),
      )

  -- When `checked_meta` accepts a view of dense layout (whose two arrays have `MAX_DIM` entries), the
  -- offset of every logical index is that index.
  pub offset_for_linear-dense : view.layout ≡ dense → offset_for_linear m linear ≡ ok linear
  offset_for_linear-dense layout =
      let (coords, eq, inside, index) = offset_for_linear-dot view m c linear below in
      let (_, ordered) = c.in_order layout in
      eq ∙ ap ok ((dense_axes-dot c.dims c.strides c.same ordered).1 coords inside ∙ index)

  -- When `checked_meta` accepts a view (whose two arrays have `MAX_DIM` entries) and `is_contiguous`
  -- holds of the result, the offset of every logical index is that index.
  pub offset_for_linear-contiguous : is_contiguous m ≡ true → offset_for_linear m linear ≡ ok linear
  unfolding is_contiguous
  offset_for_linear-contiguous contiguous =
      let (coords, eq, inside, index) = offset_for_linear-dot view m c linear below in
      let shape_taken : take m.rank m.shape ≡ c.dims =
        ap₂ take c.rank c.shape ∙ take-append_self c.dims _ in
      let strides_taken : take m.rank m.strides ≡ c.strides =
        ap₂ take (c.rank ∙ c.same) c.strides_padded ∙ take-append_self c.strides _ in
      elim (Option-cases (contiguous_loop c.dims c.strides)) [
        | inl e ↦ absurd (
            cc (
              rw (e, is_contiguous) at
                (rw (strides_taken, is_contiguous) at
                  (rw (shape_taken, is_contiguous) at contiguous))))
        | inr (_, e) ↦
            eq
            ∙ ap ok (
                (dense_axes-dot c.dims c.strides c.same
                    (contiguous_loop-dense_axes c.dims c.strides e)).1
                  coords inside
                ∙ index)
      ]
