-- ===== src/Backend/Call/Offset.antt =====
-- The element offsets of a checked view (k3_kernel_backend/src/call.rs): the loops that turn a linear
-- index into coordinates and coordinates into an offset, on shapes and strides of one length.
use k3x_hera_rt.Common.{
  ℕ, zero, suc, ◌+◌, ◌-◌, ◌*◌, ◌/◌, ◌%◌, ◌≤◌, ◌<◌, ◌≡◌, refl, sym, ◌∙◌, ap, true, List, [], ◌∷◌,
  ltb, length, usize_mod, ok, lt→ltb, ==_ne, arith,
}
use native.Mathlib.Nat.{
  mod-lt, mul-le-mul_right, mul_assoc, mul_comm, add-mul, div-add-mod', div-div-eq-div-mul,
}
use mathlib.Core.Path.{subst}
use k3x_hera_rt.Backend.Call.{coordinates_loop, offset_loop}
use k3x_hera_rt.Backend.Call.Scan.{product, extent}

-- Every coordinate is below its dimension.
abbrev pub Inside : (coords dims : List ℕ) → Type 0
Inside [] [] = Unit {0}
Inside (c ∷ coords) (dim ∷ dims) = (c < dim) × Inside coords dims
Inside coords dims = ⊥

-- The offset of coordinates, and their linear index in row-major order.
abbrev pub dot : (coords strides : List ℕ) → ℕ
dot (c ∷ coords) (stride ∷ strides) = c * stride + dot coords strides
dot coords strides = 0

abbrev pub row_major : (coords dims : List ℕ) → ℕ
row_major (c ∷ coords) (dim ∷ dims) = c * product dims + row_major coords dims
row_major coords dims = 0

pub length-Inside : (coords dims : List ℕ) → Inside coords dims → length coords ≡ length dims
length-Inside [] [] h = refl
length-Inside [] (d ∷ dims) h = elim h [ ]
length-Inside (c ∷ coords) [] h = elim h [ ]
length-Inside (c ∷ coords) (d ∷ dims) h = ap suc (length-Inside coords dims h.1)

pub dot-le-extent :
    (coords dims strides : List ℕ)
    → Inside coords dims
    → length dims ≡ length strides
    → dot coords strides ≤ extent dims strides
dot-le-extent [] dims strides inside same = omega arith
dot-le-extent (c ∷ coords) [] strides inside same = elim inside [ ]
dot-le-extent (c ∷ coords) (dim ∷ dims) [] inside same = absurd (omega arith)
dot-le-extent (c ∷ coords) (dim ∷ dims) (stride ∷ strides) inside same =
    let below : c ≤ dim - 1 = omega (arith, inside.0) in
    omega (
      arith,
      mul-le-mul_right stride below,
      dot-le-extent coords dims strides inside.1 (omega (arith, same)),
    )

-- No step of the loop overflows when the whole offset does not.
pub offset_loop_lem :
    (offset : ℕ) (coords dims strides : List ℕ)
    → Inside coords dims
    → length dims ≡ length strides
    → offset + dot coords strides < usize_mod
    → offset_loop offset coords dims strides ≡ ok (offset + dot coords strides)
unfolding offset_loop
offset_loop_lem offset [] dims strides inside same small = ap ok (omega arith)
offset_loop_lem offset (c ∷ coords) [] strides inside same small = elim inside [ ]
offset_loop_lem offset (c ∷ coords) (dim ∷ dims) [] inside same small = absurd (omega arith)
offset_loop_lem offset (c ∷ coords) (dim ∷ dims) (stride ∷ strides) inside same small =
    let fits : ltb (c * stride) usize_mod ≡ true = lt→ltb _ _ (omega (arith, small)) in
    let fits' : ltb (offset + c * stride) usize_mod ≡ true = lt→ltb _ _ (omega (arith, small)) in
    rw (lt→ltb c dim inside.0, offset_loop)
      (rw (fits, offset_loop)
        (rw (fits', offset_loop)
          (offset_loop_lem (offset + c * stride) coords dims strides inside.1 (omega (arith, same))
              (omega (arith, small))
            ∙ ap ok (omega arith))))

mod-mul : (n dim size : ℕ) → n / size % dim * size + n % size ≡ n % (dim * size)
mod-mul n dim size =
    let blocks : n / size / dim ≡ n / (dim * size) =
      div-div-eq-div-mul n size dim ∙ ap (λ x. n / x) (mul_comm size dim) in
    let split : n / size / dim * dim * size + n / size % dim * size ≡ n / size * size =
      sym (add-mul (n / size / dim * dim) (n / size % dim) size)
      ∙ ap (λ x. x * size) (div-add-mod' (n / size) dim) in
    let outer : n / size / dim * dim * size ≡ n / (dim * size) * (dim * size) =
      mul_assoc (n / size / dim) dim size ∙ ap (λ x. x * (dim * size)) blocks in
    omega (arith, div-add-mod' n size, div-add-mod' n (dim * size), split, outer)

factor_pos : (a b : ℕ) → 0 < a * b → 0 < a
factor_pos zero b h = absurd (omega arith)
factor_pos (suc a) b h = omega arith

-- An index has coordinates inside the dimensions, if none of these is 0. The row-major index of the
-- coordinates is the index, modulo the product of the dimensions.
pub coordinates_loop_lem :
    (dims : List ℕ) (linear : ℕ)
    → 0 < product dims
    → (coords : List ℕ) × (coordinates_loop dims linear ≡ ok (coords, linear / product dims))
      × Inside coords dims
      × (row_major coords dims ≡ linear % product dims)
unfolding coordinates_loop
coordinates_loop_lem [] linear pos = ([], ap (λ x. ok ([], x)) (omega arith), tt, omega arith)
coordinates_loop_lem (dim ∷ dims) linear pos =
    let positive : 0 < dim = factor_pos dim (product dims) pos in
    let (coords, eq, inside, index) =
      coordinates_loop_lem dims linear
        (factor_pos (product dims) dim (subst (λ x. 0 < x) (mul_comm dim (product dims)) pos)) in
    (
      linear / product dims % dim ∷ coords,
      rw (eq, coordinates_loop)
          (rw (==_ne dim 0 (λ e. omega (arith, positive, e)), coordinates_loop)
            (ap (λ x. ok (linear / product dims % dim ∷ coords, x))
              (div-div-eq-div-mul linear (product dims) dim
                ∙ ap (λ x. linear / x) (mul_comm (product dims) dim)))),
      (mod-lt (linear / product dims) positive, inside),
      ap (λ x. linear / product dims % dim * product dims + x) index
          ∙ mod-mul linear dim (product dims),
    )
