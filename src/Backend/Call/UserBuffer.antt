-- ===== src/Backend/Call/UserBuffer.antt =====
-- User space and backend agree on dense tensors: a description from `AiTensorDesc::from_user_buffer`
-- (k3_aiUabi/src/desc.rs) passes `checked_meta` (k3_kernel_backend/src/call.rs) once it is mapped.
use k3x_hera_rt.Common.{
  ℕ, ◌*◌, ◌≤◌, ◌<◌, ◌≡◌, refl, sym, ◌∙◌, ap, some, List, [], ◌∷◌, ltb, leb, length, usize_mod, ok,
  Bool-cases, Option-cases, some-injective, inl, inr, arith, ltb-false,
}
use native.Mathlib.Nat.{mul_comm, mul_assoc}
use k3x_hera_rt.Uabi.Dtype.{element_size_bytes, dense, checked_product, tensor_size_bytes}
use k3x_hera_rt.Uabi.Desc.{
  AiTensorDesc, default_quant, max_dim, pad, dense_strides, from_user_buffer,
}
use k3x_hera_rt.Backend.Call.{TensorMeta, checked_meta, from_desc}
use k3x_hera_rt.Backend.Call.Scan.{product, checked_mul-eq-some}
use k3x_hera_rt.Backend.Call.Accepted.{row_strides_of, scaled, Positive, dense_strides_lem}
use k3x_hera_rt.Backend.Call.DenseView.{count_of, count_of_lem, dense_meta, dense_view_accepted}

checked_product_lem :
    (acc : ℕ) (dims : List ℕ) {n : ℕ} → checked_product acc dims ≡ some n → n ≡ acc * product dims
unfolding checked_product
checked_product_lem acc [] h = omega (arith, some-injective h)
checked_product_lem acc (d ∷ dims) h = elim (Bool-cases (ltb (acc * d) usize_mod)) [
  | inr large ↦ absurd (cc (rw (large, checked_product) at h))
  | inl small ↦
      checked_product_lem (acc * d) dims (rw (small, checked_product) at h)
      ∙ mul_assoc acc d (product dims)
]

tensor_size_lem :
    (shape : List ℕ) (es : ℕ) {required : ℕ}
    → tensor_size_bytes shape es ≡ some required
    → required ≡ es * product shape
unfolding tensor_size_bytes
tensor_size_lem shape es h = elim (Option-cases (checked_product 1 shape)) [
  | inl none_left ↦ absurd (cc (rw (none_left, tensor_size_bytes) at h))
  | inr (n, eq) ↦
      let (sized, _) = checked_mul-eq-some n es (rw (eq, tensor_size_bytes) at h) in
      sized ∙ mul_comm n es ∙ ap (λ x. es * x) (checked_product_lem 1 shape eq ∙ omega arith)
]

module _ (user_va size_bytes dtype format flags : ℕ) (shape : List ℕ) where
  abbrev dense_desc : ℕ → AiTensorDesc
  dense_desc es = record {
    user_va = user_va;
    kernel_va = 0;
    size_bytes = size_bytes;
    dtype = dtype;
    format = format;
    layout = dense;
    ndim = length shape;
    flags = flags;
    shape = pad max_dim shape;
    stride_bytes = pad max_dim (scaled es (row_strides_of shape));
    quant = default_quant;
  }

  from_user_buffer_lem :
      (desc : AiTensorDesc)
      → from_user_buffer user_va size_bytes dtype format dense shape flags ≡ some desc
      → (es : ℕ) × (element_size_bytes dtype ≡ some es)
        × (length shape ≤ max_dim)
        × (es * product shape ≤ size_bytes)
        × (dense_desc es ≡ desc)
  unfolding from_user_buffer
  from_user_buffer_lem desc h = elim (Bool-cases (leb (length shape) max_dim)) [
    | inr large ↦ absurd (cc (rw (large, from_user_buffer) at h))
    | inl few ↦ elim (Option-cases (element_size_bytes dtype)) [
      | inl unsized ↦
          absurd (cc (rw (unsized, from_user_buffer) at (rw (few, from_user_buffer) at h)))
      | inr (es, sized) ↦
          let h1 = rw (sized, from_user_buffer) at (rw (few, from_user_buffer) at h) in
          elim (Option-cases (tensor_size_bytes shape es)) [
            | inl overflow ↦ absurd (cc (rw (overflow, from_user_buffer) at h1))
            | inr (required, total) ↦
                let h2 = rw (total, from_user_buffer) at h1 in
                elim (Bool-cases (ltb size_bytes required)) [
                  | inl short ↦ absurd (cc (rw (short, from_user_buffer) at h2))
                  | inr enough ↦
                      let h3 = rw (enough, from_user_buffer) at h2 in
                      elim (Option-cases (dense_strides es shape)) [
                        | inl none_left ↦ absurd (cc (rw (none_left, from_user_buffer) at h3))
                        | inr ((strides, last), eq) ↦
                            let made = dense_strides_lem es shape strides last eq in
                            (
                              es,
                              sized,
                              ground (arith, few),
                              omega (
                                arith,
                                tensor_size_lem shape es total,
                                ltb-false size_bytes required enough,
                              ),
                              some-injective (rw made.0 at (rw (eq, from_user_buffer) at h3)),
                            )
                      ]
                ]
          ]
    ]
  ]

  -- Every dense description without empty axes that `from_user_buffer` builds passes `checked_meta`
  -- once the tensor is mapped: with its shape, with the dense strides, and with as many elements as
  -- the product of the shape.
  pub from_user_buffer_accepted :
      (desc : AiTensorDesc) (kernel_va : ℕ)
      → from_user_buffer user_va size_bytes dtype format dense shape flags ≡ some desc
      → Positive shape
      → 0 < kernel_va
      → size_bytes < usize_mod
      → (m : TensorMeta) × (checked_meta (from_desc (record desc { kernel_va = kernel_va })) ≡ ok m)
        × (m.rank ≡ length shape)
        × (m.shape ≡ pad max_dim shape)
        × (m.strides ≡ pad max_dim (row_strides_of shape))
        × (m.element_count ≡ product shape)
  unfolding from_desc count_of
  from_user_buffer_accepted desc kernel_va built positive mapped small =
      let (es, sized, few, enough, same) = from_user_buffer_lem desc built in
      (
        dense_meta shape es dtype format flags kernel_va size_bytes,
        ap (λ (d : AiTensorDesc). checked_meta (from_desc (record d { kernel_va = kernel_va })))
              (sym same)
            ∙ dense_view_accepted shape es dtype format flags kernel_va size_bytes sized few
                positive mapped small enough,
        refl,
        refl,
        refl,
        count_of_lem shape,
      )
