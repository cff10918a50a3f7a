-- ===== src/Backend/Vector/Rounds.antt =====
-- The vector loops of k3_kernel_backend/src/rvv.rs move the same bytes as the plain loops, for any
-- vector length.
use k3x_hera_rt.Common.{
  ℕ, zero, suc, ◌+◌, ◌*◌, ◌≤◌, ◌<◌, ◌≡◌, refl, ◌∙◌, ap, true, ◌||◌, ◌⊎◌, inl, inr, List, [], ◌∷◌,
  ◌++◌, ◌==◌, length, take, drop, ok, err, usize_mod, length-drop, arith, Result, leb, Bool-cases,
  if◌then◌else◌,
}
use mathlib.Core.List.{append_assoc}
use k3x_hera_rt.Uabi.Error.{BackendErr}
use k3x_hera_rt.Backend.Vector.{
  Strip, copy_rounds, copy_bytes, gathered, gather_rounds, gather_bytes, gather_each, check_offsets,
  saturating_mul, Fault, returned, panicked,
}

take-drop {ℓ} : {A : Type ℓ} (n : ℕ) (xs : List A) → take n xs ++ drop n xs ≡ xs
take-drop zero xs = refl
take-drop (suc n) [] = refl
take-drop (suc n) (x ∷ xs) = ap (λ ys. x ∷ ys) (take-drop n xs)

module _ (vl : ℕ → ℕ) (strip : Strip vl) where
  copy_rounds_lem :
      (fuel : ℕ) (bytes : List ℕ) → length bytes ≤ fuel → copy_rounds vl fuel bytes ≡ bytes
  unfolding copy_rounds
  copy_rounds_lem zero [] h = refl
  copy_rounds_lem zero (b ∷ bytes) h = absurd (omega arith)
  copy_rounds_lem (suc fuel) [] h = refl
  copy_rounds_lem (suc fuel) (b ∷ bytes) h =
      let n = vl (suc (length bytes)) in
      let (some_left, _) = strip (suc (length bytes)) (omega arith) in
      ap (λ rest. take n (b ∷ bytes) ++ rest)
        (copy_rounds_lem fuel (drop n (b ∷ bytes)) (omega (arith, length-drop n (b ∷ bytes))))
      ∙ take-drop n (b ∷ bytes)

  gathered-append :
      (source : List ℕ) (es : ℕ) (xs ys : List ℕ)
      → gathered source es xs ++ gathered source es ys ≡ gathered source es (xs ++ ys)
  gathered-append source es [] ys = refl
  gathered-append source es (x ∷ xs) ys = simp (append_assoc, gathered-append source es xs ys)

  pub gather_rounds_lem :
      (fuel : ℕ) (source : List ℕ) (es : ℕ) (offsets : List ℕ)
      → length offsets ≤ fuel
      → gather_rounds vl fuel source es offsets ≡ gathered source es offsets
  unfolding gather_rounds
  gather_rounds_lem zero source es [] h = refl
  gather_rounds_lem zero source es (o ∷ offsets) h = absurd (omega arith)
  gather_rounds_lem (suc fuel) source es [] h = refl
  gather_rounds_lem (suc fuel) source es (o ∷ offsets) h =
      let n = vl (suc (length offsets)) in
      let (some_left, _) = strip (suc (length offsets)) (omega arith) in
      ap (λ rest. gathered source es (take n (o ∷ offsets)) ++ rest)
        (gather_rounds_lem fuel source es (drop n (o ∷ offsets))
          (omega (arith, length-drop n (o ∷ offsets))))
      ∙ gathered-append source es (take n (o ∷ offsets)) (drop n (o ∷ offsets))
      ∙ ap (gathered source es) (take-drop n (o ∷ offsets))

-- The offsets at which an element of `es` bytes lies in a source of that length.
abbrev pub InBounds : (source_len es : ℕ) → List ℕ → Type 0
InBounds source_len es [] = Unit {0}
InBounds source_len es (o ∷ offsets) = (o + es ≤ source_len) × InBounds source_len es offsets

pub gather_each_lem :
    (source : List ℕ) (es : ℕ) (offsets : List ℕ)
    → InBounds (length source) es offsets
    → gather_each source es offsets ≡ ok (gathered source es offsets)
unfolding gather_each
gather_each_lem source es [] h = refl
gather_each_lem source es (o ∷ offsets) h =
    let test : leb (o + es) (length source) ≡ true = ground (arith, h.0) in
    rw (test, gather_each) (rw (gather_each_lem source es offsets h.1, gather_each) refl)

pub check_offsets_lem :
    (source_len es : ℕ) (offsets : List ℕ)
    → source_len < usize_mod
    → InBounds source_len es offsets
    → check_offsets source_len es offsets ≡ ok tt
unfolding check_offsets
check_offsets_lem source_len es [] small h = refl
check_offsets_lem source_len es (o ∷ offsets) small h =
    ground (arith, h.0, check_offsets_lem source_len es offsets small h.1)

-- What a caller sees who answers a panic with `InvalidTensor`.
abbrev pub no_panic {ℓ} : {A : Type ℓ} → Result Fault A → Result BackendErr A
no_panic (ok a) = ok a
no_panic (err (returned e)) = err e
no_panic (err panicked) = err BackendErr.invalid_tensor

-- Either every offset is in bounds, or one is not and both loops stop there.
InBounds-cases :
    (source : List ℕ) (es : ℕ) (offsets : List ℕ)
    → length source < usize_mod
    → InBounds (length source) es offsets
      ⊎ ((gather_each source es offsets ≡ err panicked)
          × (check_offsets (length source) es offsets ≡ err BackendErr.invalid_tensor))
unfolding gather_each check_offsets
InBounds-cases source es [] small = inl tt
InBounds-cases source es (o ∷ offsets) small = elim (Bool-cases (leb (o + es) (length source))) [
  | inr past ↦ inr (rw (past, gather_each) refl, ground arith)
  | inl fits ↦ elim (InBounds-cases source es offsets small) [
    | inl h ↦ inl (ground arith, h)
    | inr (a, b) ↦ inr (rw (fits, gather_each) (rw (a, gather_each) refl), ground (arith, b))
  ]
]

-- The widths that an indexed load has.
abbrev pub HasWidth : ℕ → Type 0
HasWidth es = (es == 1 || es == 2 || es == 4 || es == 8) ≡ true

module _ (vl : ℕ → ℕ) (strip : Strip vl) (source : List ℕ) where
  -- For any vector length that the processor chooses, `copy_bytes` of a source into a destination of its
  -- length ends with the bytes of the source, and into any other destination with `InvalidTensor`.
  pub copy_bytes_copies :
      (destination_len : ℕ)
      → copy_bytes vl source destination_len
        ≡ (if length source == destination_len then ok source else err BackendErr.invalid_tensor)
  unfolding copy_bytes
  copy_bytes_copies destination_len =
      ground (arith, copy_rounds_lem vl strip (length source) source)

  -- For any vector length that the processor chooses, `gather_bytes` at an element size of 1, 2, 4 or 8
  -- into a destination of the right length stores the bytes that the plain loop stores, and answers
  -- `InvalidTensor` exactly where the plain loop panics.
  pub gather_bytes-eq-gather_each :
      (offsets : List ℕ) (es : ℕ)
      → HasWidth es
      → length source < usize_mod
      → length offsets * es < usize_mod
      → gather_bytes vl source offsets (length offsets * es) es
        ≡ no_panic (gather_each source es offsets)
  unfolding gather_bytes
  gather_bytes-eq-gather_each offsets es width small sized =
      let same : (length offsets * es == saturating_mul (length offsets) es) ≡ true =
        ground arith in
      rw (width, gather_bytes)
        (rw (same, gather_bytes)
          (elim (InBounds-cases source es offsets small) [
            | inl h ↦
                rw (check_offsets_lem (length source) es offsets small h, gather_bytes)
                  (rw (gather_each_lem source es offsets h) (
                    ap ok (
                      gather_rounds_lem vl strip (length offsets) source es offsets (omega arith))))
            | inr (a, b) ↦ rw (b, gather_bytes) (rw a refl)
          ]))
