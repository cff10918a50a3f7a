-- ===== src/Backend/Call/Accepted.antt =====
-- The dense descriptions that user space builds (`AiTensorDesc::from_user_buffer` of
-- k3_aiUabi/src/desc.rs) pass `checked_meta` (k3_kernel_backend/src/call.rs).
use k3x_hera_rt.Common.{
  ℕ, zero, suc, ◌+◌, ◌-◌, ◌*◌, ◌/◌, ◌%◌, ◌≤◌, ◌<◌, ◌≡◌, refl, sym, ◌∙◌, ap, ap₂, Bool, true, false,
  not, ◌&&◌, Option, none, some, List, [], ◌∷◌, ltb, ◌==◌, checked_mul, usize_mod, ok, ok_or, guard,
  ◌>>◌, Bool-cases, Option-cases, some-injective, lt→ltb, ==_self, inl, inr, arith,
}
use native.Mathlib.Nat.{
  mul_comm, mul_assoc, mul-le-mul_left, mul-le-mul_right, mul_left_comm, mul-pos, suc-mul, mul-add,
  mul-mod_right, mul-div_right, add-mul,
}
use k3x_hera_rt.Uabi.Types.{try_as_usize}
use k3x_hera_rt.Uabi.Error.{BackendErr}
use k3x_hera_rt.Uabi.Desc.{dense_strides}
use k3x_hera_rt.Backend.Call.{scan_axes, dense_axes}
use k3x_hera_rt.Backend.Call.Scan.{product, extent}

-- The dense strides of a shape, in elements.
abbrev pub row_strides_of : List ℕ → List ℕ
row_strides_of [] = []
row_strides_of (d ∷ dims) = product dims ∷ row_strides_of dims

-- The same in bytes.
abbrev pub scaled : ℕ → List ℕ → List ℕ
scaled es [] = []
scaled es (x ∷ xs) = es * x ∷ scaled es xs

-- No axis is empty.
abbrev pub Positive : List ℕ → Type 0
Positive [] = Unit {0}
Positive (d ∷ dims) = (0 < d) × Positive dims

pub product-pos : (dims : List ℕ) → Positive dims → 0 < product dims
product-pos [] p = omega arith
product-pos (d ∷ dims) p = mul-pos p.0 (product-pos dims p.1)

dense_step :
    (es d : ℕ) (dims inner : List ℕ) (s : ℕ) (strides : List ℕ) (last : ℕ)
    → (inner ≡ scaled es (row_strides_of dims)) × (s ≡ es * product dims)
    → ◌≡◌ {A = Option (List ℕ × ℕ)}
        (elim (checked_mul s d) [ none ↦ none | some s' ↦ some (s ∷ inner, s') ])
        (some (strides, last))
    → (strides ≡ scaled es (row_strides_of (d ∷ dims))) × (last ≡ es * product (d ∷ dims))
dense_step es d dims inner s strides last so_far h = elim (Bool-cases (ltb (s * d) usize_mod)) [
  | inr large ↦ absurd (cc (rw large at h))
  | inl small ↦
      let same = some-injective (rw small at h) in
      (
        sym (ap (λ p. p.0) same) ∙ ap₂ (λ x xs. x ∷ xs) so_far.1 so_far.0,
        sym (ap (λ p. p.1) same)
            ∙ ap (λ x. x * d) so_far.1
            ∙ mul_assoc es (product dims) d
            ∙ ap (λ x. es * x) (mul_comm (product dims) d),
      )
]

-- The strides that user space computes.
pub dense_strides_lem :
    (es : ℕ) (dims strides : List ℕ) (last : ℕ)
    → dense_strides es dims ≡ some (strides, last)
    → (strides ≡ scaled es (row_strides_of dims)) × (last ≡ es * product dims)
unfolding dense_strides
dense_strides_lem es [] strides last h =
    let same = some-injective h in
    (sym (ap (λ p. p.0) same), sym (ap (λ p. p.1) same) ∙ omega arith)
dense_strides_lem es (d ∷ dims) strides last h = elim (Option-cases (dense_strides es dims)) [
  | inl none_left ↦ absurd (cc (rw (none_left, dense_strides) at h))
  | inr ((inner, s), eq) ↦
      dense_step es d dims inner s strides last (dense_strides_lem es dims inner s eq)
        (rw (eq, dense_strides) at h)
]

-- One element behind the last is the whole size.
pub extent_lem :
    (dims : List ℕ) → Positive dims → extent dims (row_strides_of dims) + 1 ≡ product dims
extent_lem [] p = omega arith
extent_lem (zero ∷ dims) p = absurd (omega (arith, p.0))
extent_lem (suc k ∷ dims) p =
    let less : suc k - 1 ≡ k = omega arith in
    let more : k + 1 ≡ suc k = omega arith in
    omega (
      arith,
      extent_lem dims p.1,
      add-mul k 1 (product dims),
      ap (λ x. x * product dims) less,
      ap (λ x. x * product dims) more,
    )

times_one : (n : ℕ) → n ≡ n * 1
times_one n = omega arith

plus_none : (n es : ℕ) → n ≡ n + es * 0
plus_none n es = omega arith

-- The scan of dense strides.
pub scan_dense :
    (es count offset : ℕ) (dims : List ℕ)
    → 0 < es
    → Positive dims
    → 0 < count
    → count * product dims < usize_mod
    → es * product dims < usize_mod
    → offset + es * product dims < usize_mod + es
    → scan_axes es count offset dims (scaled es (row_strides_of dims))
      ≡ ok (record {
        shape = dims;
        strides = row_strides_of dims;
        element_count = count * product dims;
        max_offset = offset + es * extent dims (row_strides_of dims);
      })
unfolding scan_axes try_as_usize
scan_dense es count offset [] pos p c s1 s3 s2 = ap ok (λ i. record {
  shape = [];
  strides = [];
  element_count = times_one count i;
  max_offset = plus_none offset es i;
})
scan_dense es count offset (zero ∷ dims) pos p c s1 s3 s2 = absurd (omega (arith, p.0))
scan_dense es count offset (suc k ∷ dims) pos p c s1 s3 s2 =
    let rest_pos = product-pos dims p.1 in
    let d_le : suc k ≤ suc k * product dims = omega (arith, mul-le-mul_left (suc k) rest_pos) in
    let count_split : count * suc k * product dims ≡ count * (suc k * product dims) =
      mul_assoc count (suc k) (product dims) in
    let count_le : count * suc k ≤ count * suc k * product dims =
      omega (arith, mul-le-mul_left (count * suc k) rest_pos) in
    let all_le : suc k * product dims ≤ count * (suc k * product dims) =
      omega (arith, mul-le-mul_right (suc k * product dims) c) in
    let less : (suc k - 1) * (es * product dims) ≡ k * (es * product dims) =
      ap (λ x. x * (es * product dims)) (omega arith) in
    let whole : es * (suc k * product dims) ≡ k * (es * product dims) + es * product dims =
      mul_left_comm es (suc k) (product dims) ∙ suc-mul k (es * product dims) in
    let es_le : es ≤ es * product dims = omega (arith, mul-le-mul_left es rest_pos) in
    let quotient : es * product dims / es ≡ product dims = mul-div_right (product dims) pos in
    let divides : (es * product dims % es == 0) ≡ true =
      ground (arith, mul-mod_right es (product dims)) in
    let strided : not (ltb 1 (suc k) && es * product dims / es == 0) ≡ true =
      ground (arith, quotient, rest_pos) in
    let span_fits : (suc k - 1) * (es * product dims) < usize_mod =
      omega (arith, less, whole, s3) in
    let sum_fits : offset + (suc k - 1) * (es * product dims) < usize_mod =
      omega (arith, less, whole, s2, es_le) in
    let deeper : es * extent (suc k ∷ dims) (row_strides_of (suc k ∷ dims))
        ≡ (suc k - 1) * (es * product dims) + es * extent dims (row_strides_of dims) =
      mul-add es ((suc k - 1) * product dims) (extent dims (row_strides_of dims))
      ∙ ap (λ x. x + es * extent dims (row_strides_of dims))
          (mul_left_comm es (suc k - 1) (product dims)) in
    let reached : offset
          + (suc k - 1) * (es * product dims)
          + es * extent dims (row_strides_of dims)
        ≡ offset + es * extent (suc k ∷ dims) (row_strides_of (suc k ∷ dims)) =
      omega (arith, deeper) in
    rw (lt→ltb (suc k) usize_mod (omega (arith, d_le, all_le, s1)), scan_axes)
      (rw (lt→ltb (es * product dims) usize_mod (omega (arith, whole, s3)), scan_axes)
        (rw (divides, scan_axes)
          (rw
            (lt→ltb (count * suc k) usize_mod (omega (arith, count_le, count_split, s1)), scan_axes)
            (rw (strided, scan_axes)
              (rw (lt→ltb ((suc k - 1) * (es * product dims)) usize_mod span_fits, scan_axes)
                (rw
                  (
                    lt→ltb (offset + (suc k - 1) * (es * product dims)) usize_mod sum_fits,
                    scan_axes,
                  )
                  (rw
                    (
                      scan_dense es (count * suc k) (offset + (suc k - 1) * (es * product dims))
                          dims pos p.1 (mul-pos c (omega arith)) (omega (arith, count_split, s1))
                          (omega (arith, whole, s3)) (omega (arith, less, whole, s2)),
                      scan_axes,
                    )
                    (ap ok (λ i. record {
                      shape = suc k ∷ dims;
                      strides = quotient i ∷ row_strides_of dims;
                      element_count = count_split i;
                      max_offset = reached i;
                    })))))))))

pub dense_axes_lem :
    (dims : List ℕ)
    → product dims < usize_mod
    → Positive dims
    → dense_axes dims (row_strides_of dims) ≡ ok (product dims)
unfolding dense_axes
dense_axes_lem [] small p = refl
dense_axes_lem (d ∷ dims) small p =
    let whole : product dims * d ≡ d * product dims = mul_comm (product dims) d in
    let inner : product dims < usize_mod =
      omega (arith, small, mul-le-mul_left (product dims) p.0, whole) in
    let fits : ltb (product dims * d) usize_mod ≡ true = lt→ltb _ _ (omega (arith, whole, small)) in
    rw (dense_axes_lem dims inner p.1, dense_axes)
      (rw (==_self (product dims), dense_axes) (rest fits whole (ltb 1 d)))
  where
    rest :
        ltb (product dims * d) usize_mod ≡ true
        → product dims * d ≡ d * product dims
        → (b : Bool)
        → (guard (not (b && false)) BackendErr.invalid_tensor
            >> ok_or (checked_mul (product dims) d) BackendErr.invalid_tensor)
          ≡ ok (d * product dims)
    rest fits whole true = rw fits (ap ok whole)
    rest fits whole false = rw fits (ap ok whole)
