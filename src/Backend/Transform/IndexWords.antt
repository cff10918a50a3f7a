-- ===== src/Backend/Transform/IndexWords.antt =====
-- What `read_indices` of k3_kernel_backend/src/transform.rs reads from memory.
use k3x_hera_rt.Common.{
  ℕ, zero, suc, ◌+◌, ◌*◌, ◌/◌, ◌%◌, ◌^◌, ◌≤◌, ◌<◌, ◌≡◌, refl, sym, ap, ◌∙◌, ◌⊎◌, inl, inr, true,
  false, List, [], ◌∷◌, ◌==◌, ltb, leb, length, get_or, take, drop, usize_mod, ok, Bool-cases,
  ==_ne, lt→ltb, some-injective, arith,
}
use mathlib.Core.Path.{subst}
use k3x_hera_rt.Uabi.Types.{try_as_usize}
use k3x_hera_rt.Uabi.Desc.{max_dim}
use k3x_hera_rt.Uabi.Dtype.{i32_dtype, i64_dtype, element_size_bytes}
use k3x_hera_rt.Backend.Call.{
  BackendTensorView, TensorMeta, checked_meta, typed_len, offset_for_linear,
}
use k3x_hera_rt.Backend.Call.Meta.{Checked, checked_meta-Checked}
use k3x_hera_rt.Backend.Call.Bounds.{offset_for_linear_bounded}
use k3x_hera_rt.Backend.Vector.{window}
use k3x_hera_rt.Backend.Transform.GatherEntries.{
  little_endian, sign_extend, index_loop, read_indices,
}
use k3x_hera_rt.Backend.Transform.GatherPlan.{get_or-drop}

-- The little-endian words at an address.
abbrev pub word4 : List ℕ → ℕ → ℕ
word4 bytes at =
    get_or bytes at 0
    + 2 ^ 8 * get_or bytes (at + 1) 0
    + 2 ^ 16 * get_or bytes (at + 2) 0
    + 2 ^ 24 * get_or bytes (at + 3) 0

abbrev pub word8 : List ℕ → ℕ → ℕ
word8 bytes at = word4 bytes at + 2 ^ 32 * word4 bytes (at + 4)

-- The same number in two's complement, of 32 bits and of 64.
abbrev pub SignExtends : (word index : ℕ) → Type 0
SignExtends word index =
    ((word < 2 ^ 31) × (index ≡ word)) ⊎ ((2 ^ 31 ≤ word) × (index + 2 ^ 32 ≡ word + 2 ^ 64))

-- The index that stands for an element of an index tensor with these bytes: the word at the element's
-- offset, extended with its sign if it has 32 bits.
abbrev pub IndexAt : BackendTensorView → TensorMeta → (bytes : List ℕ) → (linear index : ℕ) → Type 0
IndexAt view meta bytes linear index =
    (offset : ℕ) × (offset_for_linear meta linear ≡ ok offset)
    × (((view.dtype ≡ i64_dtype) × (index ≡ word8 bytes (offset * 8)))
        ⊎ ((view.dtype ≡ i32_dtype) × SignExtends (word4 bytes (offset * 4)) index))

-- A buffer of whole, aligned words of 64 or 32 bits.
abbrev pub HoldsWords : BackendTensorView → Type 0
HoldsWords view =
    ((view.dtype ≡ i64_dtype) × (view.data_address % 8 ≡ 0) × (view.byte_len % 8 ≡ 0))
    ⊎ ((view.dtype ≡ i32_dtype) × (view.data_address % 4 ≡ 0) × (view.byte_len % 4 ≡ 0))

little_endian-take :
    (n : ℕ) (xs : List ℕ)
    → little_endian (take (suc n) xs) ≡ get_or xs 0 0 + 256 * little_endian (take n (drop 1 xs))
little_endian-take zero [] = omega arith
little_endian-take (suc n) [] = omega arith
little_endian-take n (x ∷ xs) = refl

drop_nil : (n : ℕ) → drop {A = ℕ} n [] ≡ []
drop_nil zero = refl
drop_nil (suc n) = refl

drop-drop : (n m : ℕ) (xs : List ℕ) → drop n (drop m xs) ≡ drop (m + n) xs
drop-drop n zero xs = ap (λ k. drop k xs) (omega arith)
drop-drop n (suc m) [] = drop_nil n ∙ sym (drop_nil (suc m + n))
drop-drop n (suc m) (x ∷ xs) =
    let step : suc m + n ≡ suc (m + n) = omega arith in rw step (drop-drop n m xs)

-- One byte of a word at a time.
little_endian-window :
    (bytes : List ℕ) (at next n : ℕ)
    → at + 1 ≡ next
    → little_endian (window bytes at (suc n))
      ≡ get_or bytes at 0 + 256 * little_endian (window bytes next n)
little_endian-window bytes at next n e =
    little_endian-take n (drop at bytes)
    ∙ ap (λ first. first + 256 * little_endian (take n (drop 1 (drop at bytes))))
        (get_or-drop at bytes 0 ∙ ap (λ k. get_or bytes k 0) (omega arith))
    ∙ ap (λ rest. get_or bytes at 0 + 256 * little_endian (take n rest))
        (drop-drop 1 at bytes ∙ ap (λ k. drop k bytes) e)

four_bytes :
    (bytes : List ℕ) (at n : ℕ)
    → little_endian (window bytes at (suc (suc (suc (suc n)))))
      ≡ word4 bytes at + 2 ^ 32 * little_endian (window bytes (at + 4) n)
four_bytes bytes at n = omega (
  arith,
  little_endian-window bytes at (at + 1) (suc (suc (suc n))) refl,
  little_endian-window bytes (at + 1) (at + 2) (suc (suc n)) (omega arith),
  little_endian-window bytes (at + 2) (at + 3) (suc n) (omega arith),
  little_endian-window bytes (at + 3) (at + 4) n (omega arith),
)

little_endian-word4 : (bytes : List ℕ) (at : ℕ) → little_endian (window bytes at 4) ≡ word4 bytes at
little_endian-word4 bytes at = omega (arith, four_bytes bytes at 0)

little_endian-word8 : (bytes : List ℕ) (at : ℕ) → little_endian (window bytes at 8) ≡ word8 bytes at
little_endian-word8 bytes at =
    omega (arith, four_bytes bytes at 4, little_endian-word4 bytes (at + 4))

sign_extend-SignExtends : (word : ℕ) → SignExtends word (sign_extend word)
sign_extend-SignExtends word = elim (Bool-cases (leb (2 ^ 31) word)) [
  | inl high ↦ inr (ground (arith, high), ground (arith, high))
  | inr low ↦ inl (ground (arith, low), ground (arith, low))
]

-- The loop reads a word for each element, if each offset is inside the slice.
index_loop_lem :
    (cast : ℕ → ℕ) (bytes : List ℕ) (width len : ℕ) (meta : TensorMeta) (linear count : ℕ)
    (in_slice : (k : ℕ)
      → linear ≤ k
      → k < linear + count
      → (offset : ℕ) × (offset_for_linear meta k ≡ ok offset) × (offset < len))
    → (indices : List ℕ) × (index_loop cast bytes width len meta linear count ≡ ok indices)
      × (length indices ≡ count)
      × ((k : ℕ)
          → k < count
          → (offset : ℕ) × (offset_for_linear meta (linear + k) ≡ ok offset)
            × (get_or indices k 0 ≡ cast (little_endian (window bytes (offset * width) width))))
unfolding index_loop
index_loop_lem cast bytes width len meta linear zero in_slice =
    ([], refl, refl, λ k lt. absurd (omega (arith, lt)))
index_loop_lem cast bytes width len meta linear (suc count) in_slice =
    let (offset, found, inside) = in_slice linear (omega arith) (omega arith) in
    let (rest, run, size, told) =
      index_loop_lem cast bytes width len meta (linear + 1) count
        (λ k lo hi. in_slice k (omega (arith, lo)) (omega (arith, hi))) in
    let test : ltb offset len ≡ true = lt→ltb offset len inside in
    let word : ℕ = cast (little_endian (window bytes (offset * width) width)) in
    (
      word ∷ rest,
      rw (found, index_loop) (rw (test, index_loop) (rw (run, index_loop) refl)),
      ap suc size,
      each offset found rest told,
    )
  where
    each :
        (offset : ℕ)
        → offset_for_linear meta linear ≡ ok offset
        → (rest : List ℕ)
        → ((k : ℕ)
            → k < count
            → (o : ℕ) × (offset_for_linear meta (linear + 1 + k) ≡ ok o)
              × (get_or rest k 0 ≡ cast (little_endian (window bytes (o * width) width))))
        → (k : ℕ) → k < suc count
        → (o : ℕ) × (offset_for_linear meta (linear + k) ≡ ok o)
          × (get_or (cast (little_endian (window bytes (offset * width) width)) ∷ rest) k 0
              ≡ cast (little_endian (window bytes (o * width) width)))
    each offset found rest told zero lt =
        (offset, ap (offset_for_linear meta) (omega arith) ∙ found, refl)
    each offset found rest told (suc k) lt =
        let (o, at, same) = told k (omega (arith, lt)) in
        (o, ap (offset_for_linear meta) (omega arith) ∙ at, same)

module _ (memory : (address count : ℕ) → List ℕ) (view : BackendTensorView) (meta : TensorMeta)
    (shape_size : length view.shape ≡ max_dim) (strides_size : length view.stride_bytes ≡ max_dim)
    (accepted : checked_meta view ≡ ok meta) (words : HoldsWords view) where
  checked : Checked view meta
  checked = checked_meta-Checked view meta shape_size strides_size accepted

  abbrev raw : List ℕ
  raw = memory view.data_address view.byte_len

  abbrev Reads : List ℕ → Type 0
  Reads indices =
      (read_indices memory view meta ≡ ok indices)
      × (length indices ≡ meta.element_count)
      × ((linear : ℕ)
          → linear < meta.element_count
          → IndexAt view meta raw linear (get_or indices linear 0))

  in_words :
      (width : ℕ)
      → meta.element_size ≡ width
      → ((offset : ℕ) → offset * width + width ≤ view.byte_len → offset < view.byte_len / width)
      → (k : ℕ) → 0 ≤ k
      → k < 0 + meta.element_count
      → (offset : ℕ) × (offset_for_linear meta k ≡ ok offset) × (offset < view.byte_len / width)
  in_words width size fits k lo hi =
      let (offset, found, ends) =
        offset_for_linear_bounded view meta shape_size strides_size accepted k
          (omega (arith, hi)) in
      (offset, found, fits offset (subst (λ w. offset * w + w ≤ view.byte_len) size ends))

  wide_size : view.dtype ≡ i64_dtype → meta.element_size ≡ 8
  unfolding element_size_bytes
  wide_size wide = some-injective (sym checked.dtype_size ∙ ap element_size_bytes wide)

  narrow_size : view.dtype ≡ i32_dtype → meta.element_size ≡ 4
  unfolding element_size_bytes
  narrow_size narrow = some-injective (sym checked.dtype_size ∙ ap element_size_bytes narrow)

  len8 :
      view.data_address % 8 ≡ 0
      → view.byte_len % 8 ≡ 0
      → typed_len view 8 8 ≡ ok (view.byte_len / 8)
  unfolding typed_len try_as_usize
  len8 aligned whole =
      let present = ==_ne view.data_address 0 checked.address in
      let small = lt→ltb view.byte_len usize_mod checked.small in
      rw (present, typed_len)
        (rw (small, typed_len) (rw (whole, typed_len) (rw (aligned, typed_len) refl)))

  len4 :
      view.data_address % 4 ≡ 0
      → view.byte_len % 4 ≡ 0
      → typed_len view 4 4 ≡ ok (view.byte_len / 4)
  unfolding typed_len try_as_usize
  len4 aligned whole =
      let present = ==_ne view.data_address 0 checked.address in
      let small = lt→ltb view.byte_len usize_mod checked.small in
      rw (present, typed_len)
        (rw (small, typed_len) (rw (whole, typed_len) (rw (aligned, typed_len) refl)))

  read_wide :
      view.dtype ≡ i64_dtype
      → view.data_address % 8 ≡ 0
      → view.byte_len % 8 ≡ 0
      → (indices : List ℕ) × Reads indices
  unfolding read_indices
  read_wide wide aligned whole =
      let (indices, run, size, told) =
        index_loop_lem (λ value. value) raw 8 (view.byte_len / 8) meta 0 meta.element_count
          (in_words 8 (wide_size wide) (λ offset ends. omega (arith, ends))) in
      let not_narrow : (view.dtype == i32_dtype) ≡ false = ground (arith, wide) in
      let is_wide : (view.dtype == i64_dtype) ≡ true = ground (arith, wide) in
      let back : view.byte_len / 8 * 8 ≡ view.byte_len = omega (arith, whole) in
      (
        indices,
        (
          rw (not_narrow, read_indices)
              (rw (is_wide, read_indices)
                (rw (len8 aligned whole, read_indices) (rw (back, read_indices) run))),
          size,
          λ linear lt.
              let (offset, found, same) = told linear lt in
              (
                offset,
                ap (offset_for_linear meta) (omega arith) ∙ found,
                inl (wide, same ∙ little_endian-word8 raw (offset * 8)),
              ),
        ),
      )

  read_narrow :
      view.dtype ≡ i32_dtype
      → view.data_address % 4 ≡ 0
      → view.byte_len % 4 ≡ 0
      → (indices : List ℕ) × Reads indices
  unfolding read_indices
  read_narrow narrow aligned whole =
      let (indices, run, size, told) =
        index_loop_lem sign_extend raw 4 (view.byte_len / 4) meta 0 meta.element_count
          (in_words 4 (narrow_size narrow) (λ offset ends. omega (arith, ends))) in
      let is_narrow : (view.dtype == i32_dtype) ≡ true = ground (arith, narrow) in
      let back : view.byte_len / 4 * 4 ≡ view.byte_len = omega (arith, whole) in
      (
        indices,
        (
          rw (is_narrow, read_indices)
              (rw (len4 aligned whole, read_indices) (rw (back, read_indices) run)),
          size,
          λ linear lt.
              let (offset, found, same) = told linear lt in
              (
                offset,
                ap (offset_for_linear meta) (omega arith) ∙ found,
                inr (
                  narrow,
                  subst (SignExtends (word4 raw (offset * 4)))
                      (sym (same ∙ ap sign_extend (little_endian-word4 raw (offset * 4))))
                      (sign_extend-SignExtends (word4 raw (offset * 4))),
                ),
              ),
        ),
      )

  -- `read_indices` on an accepted view of whole, aligned words ends without an error or a panic, with
  -- the index that stands for each element.
  pub read_indices_lem : (indices : List ℕ) × Reads indices
  read_indices_lem = elim words [
    | inl (wide, aligned, whole) ↦ read_wide wide aligned whole
    | inr (narrow, aligned, whole) ↦ read_narrow narrow aligned whole
  ]
