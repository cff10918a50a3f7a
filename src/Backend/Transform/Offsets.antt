-- ===== src/Backend/Transform/Offsets.antt =====
-- The index computations of k3_kernel_backend/src/transform.rs on shapes that `checked_meta` accepts:
-- `row_major_linear`, `normalize_index`, and the loops that compute where each element of an output
-- comes from.
use k3x_hera_rt.Common.{
  ℕ, zero, suc, ◌+◌, ◌*◌, ◌-◌, ◌^◌, ◌≤◌, ◌<◌, ◌≡◌, Result, if◌then◌else◌, refl, sym, ◌∙◌, ap, ap₂,
  true, false, List, [], ◌∷◌, ◌++◌, length, take, drop, get_or, replicate, usize_mod, ok, err, ltb,
  leb, lt→ltb, arith, take-append_self,
}
use native.Mathlib.Nat.{
  suc-mul, mul_assoc, add-mul, mul-le-mul_right, mul-le-mul_left, mod-eq_of_lt,
}
use k3x_hera_rt.Uabi.Error.{BackendErr}
use k3x_hera_rt.Uabi.Desc.{max_dim}
use k3x_hera_rt.Backend.Call.{BackendTensorView, TensorMeta, coordinates}
use k3x_hera_rt.Backend.Call.Scan.{product}
use k3x_hera_rt.Backend.Call.Offset.{Inside, row_major, coordinates_loop_lem, length-Inside}
use k3x_hera_rt.Backend.Call.Meta.{Checked}
use k3x_hera_rt.Backend.Vector.{Fault}
use k3x_hera_rt.Backend.Vector.Rounds.{InBounds}
use k3x_hera_rt.Backend.Transform.{normalize_index, row_major_loop, row_major_linear, remap_offsets}

pub row_major-lt :
    (coords dims : List ℕ) → Inside coords dims → row_major coords dims < product dims
row_major-lt [] [] h = omega arith
row_major-lt [] (d ∷ dims) h = elim h [ ]
row_major-lt (c ∷ coords) [] h = elim h [ ]
row_major-lt (c ∷ coords) (d ∷ dims) h = omega (
  arith,
  row_major-lt coords dims h.1,
  suc-mul c (product dims),
  mul-le-mul_right (product dims) h.0,
)

-- No step of the loop overflows when the index does not.
row_major_loop_lem :
    (linear : ℕ) (coords dims rest : List ℕ)
    → Inside coords dims
    → linear * product dims + row_major coords dims < usize_mod
    → row_major_loop linear coords (dims ++ rest)
      ≡ ok (linear * product dims + row_major coords dims)
unfolding row_major_loop
row_major_loop_lem linear [] [] rest h small = ap ok (omega arith)
row_major_loop_lem linear [] (d ∷ dims) rest h small = elim h [ ]
row_major_loop_lem linear (c ∷ coords) [] rest h small = elim h [ ]
row_major_loop_lem linear (c ∷ coords) (d ∷ dims) rest h small =
    let split : (linear * d + c) * product dims + row_major coords dims
        ≡ linear * (d * product dims) + (c * product dims + row_major coords dims) =
      omega (arith, add-mul (linear * d) c (product dims), mul_assoc linear d (product dims)) in
    let positive : 1 ≤ product dims = omega (arith, row_major-lt coords dims h.1) in
    let below : linear * d + c ≤ (linear * d + c) * product dims =
      omega (arith, mul-le-mul_left (linear * d + c) positive) in
    let fits : ltb (linear * d) usize_mod ≡ true =
      lt→ltb _ _ (omega (arith, below, split, small)) in
    let fits' : ltb (linear * d + c) usize_mod ≡ true =
      lt→ltb _ _ (omega (arith, below, split, small)) in
    rw (lt→ltb c d h.0, row_major_loop)
      (rw (fits, row_major_loop)
        (rw (fits', row_major_loop)
          (row_major_loop_lem (linear * d + c) coords dims rest h.1 (omega (arith, split, small))
            ∙ ap ok split)))

abbrev pub zeros : List ℕ
zeros = replicate max_dim 0

module _ (view : BackendTensorView) (m : TensorMeta) (c : Checked view m) where
  -- An array whose first entries are inside the shape has a row-major index.
  pub row_major_linear_taken :
      (coords : List ℕ)
      → Inside (take m.rank coords) c.dims
      → m.element_count < usize_mod
      → (row_major_linear m coords ≡ ok (row_major (take m.rank coords) c.dims))
        × (row_major (take m.rank coords) c.dims < m.element_count)
  unfolding row_major_linear
  row_major_linear_taken coords inside small =
      let below = row_major-lt (take m.rank coords) c.dims inside in
      (
        rw (c.shape, row_major_linear)
            (row_major_loop_lem 0 (take m.rank coords) c.dims _ inside
                (omega (arith, below, c.count, small))
              ∙ ap ok (omega arith)),
        omega (arith, below, c.count),
      )

  take-Inside :
      (coords rest : List ℕ) → Inside coords c.dims → take m.rank (coords ++ rest) ≡ coords
  take-Inside coords rest inside =
      ap (λ n. take n (coords ++ rest)) (c.rank ∙ sym (length-Inside coords c.dims inside))
      ∙ take-append_self coords rest

  pub row_major_linear_lem :
      (coords rest : List ℕ)
      → Inside coords c.dims
      → m.element_count < usize_mod
      → row_major_linear m (coords ++ rest) ≡ ok (row_major coords c.dims)
  row_major_linear_lem coords rest inside small =
      let taken = take-Inside coords rest inside in
      (row_major_linear_taken (coords ++ rest) (rw taken inside) small).0
      ∙ ap (λ cs. ok (row_major cs c.dims)) taken

  pub coordinates_lem :
      (linear : ℕ)
      → linear < m.element_count
      → (coords : List ℕ) × (coordinates m linear zeros ≡ ok (coords ++ drop m.rank zeros))
        × Inside coords c.dims
        × (row_major coords c.dims ≡ linear)
  unfolding coordinates
  coordinates_lem linear below =
      let (coords, eq, inside, index) =
        coordinates_loop_lem c.dims linear (omega (arith, c.count, below)) in
      let test : leb m.element_count linear ≡ false = ground (arith, below) in
      let shape_taken : take m.rank m.shape ≡ c.dims =
        ap₂ take c.rank c.shape ∙ take-append_self c.dims _ in
      (
        coords,
        rw (test, coordinates) (rw (shape_taken, coordinates) (rw (eq, coordinates) refl)),
        inside,
        index ∙ mod-eq_of_lt (omega (arith, c.count, below)),
      )

  -- On the shape of a view that `checked_meta` accepts, with fewer than 2^64 elements,
  -- `row_major_linear` inverts `coordinates`: the coordinates of an index lead back to it.
  pub row_major_linear-coordinates :
      (linear : ℕ)
      → linear < m.element_count
      → m.element_count < usize_mod
      → (coords : List ℕ) × (coordinates m linear zeros ≡ ok coords)
        × (row_major_linear m coords ≡ ok linear)
  row_major_linear-coordinates linear below small =
      let (coords, eq, inside, index) = coordinates_lem linear below in
      (
        coords ++ drop m.rank zeros,
        eq,
        row_major_linear_lem coords (drop m.rank zeros) inside small ∙ ap ok index,
      )

  module _ (es sources : ℕ) (source_linear : (linear : ℕ) → List ℕ → Result Fault ℕ)
      (leads : (coords : List ℕ)
        → Inside coords c.dims
        → (n : ℕ) × (source_linear (row_major coords c.dims) (coords ++ drop m.rank zeros) ≡ ok n)
          × (n < sources)) where
    -- Where index `linear` of the output comes from, as element `i` of the offsets.
    abbrev From : (linear : ℕ) → (offsets : List ℕ) → (i : ℕ) → Type 0
    From linear offsets i =
        (coords : List ℕ) × (n : ℕ) × Inside coords c.dims
        × (row_major coords c.dims ≡ linear)
        × (source_linear (row_major coords c.dims) (coords ++ drop m.rank zeros) ≡ ok n)
        × (n < sources)
        × (get_or offsets i 0 ≡ n * es)

    pub record Remapped (linear count : ℕ) : Type 0 where
      pub offsets : List ℕ
      pub computed : remap_offsets m es source_linear linear count ≡ ok offsets
      pub size : length offsets ≡ count
      pub bounded : InBounds (sources * es) es offsets
      pub each : (i : ℕ) → i < count → From (linear + i) offsets i

    remap_prepend :
        (offset linear count : ℕ) (offsets : List ℕ)
        → From linear (offset ∷ offsets) 0
        → ((i : ℕ) → i < count → From (linear + 1 + i) offsets i)
        → (i : ℕ) → i < suc count
        → From (linear + i) (offset ∷ offsets) i
    remap_prepend offset linear count offsets first each zero below =
        let (coords, n, inside, index, eq, lt, got) = first in
        (coords, n, inside, omega (arith, index), eq, lt, got)
    remap_prepend offset linear count offsets first each (suc i) below =
        let (coords, n, inside, index, eq, lt, got) = each i (omega arith) in
        (coords, n, inside, omega (arith, index), eq, lt, got)

    pub remap_offsets_lem :
        (linear count : ℕ) → linear + count ≤ m.element_count → Remapped linear count
    unfolding remap_offsets
    remap_offsets_lem linear zero h = record {
      offsets = [];
      computed = refl;
      size = refl;
      bounded = tt;
      each = λ i below. absurd (omega (arith, below));
    }
    remap_offsets_lem linear (suc count) h =
        let (coords, eq, inside, index) = coordinates_lem linear (omega (arith, h)) in
        let (n, found, lt) = leads coords inside in
        let here : source_linear linear (coords ++ drop m.rank zeros) ≡ ok n =
          ap (λ i. source_linear i (coords ++ drop m.rank zeros)) (sym index) ∙ found in
        let rest = remap_offsets_lem (linear + 1) count (omega (arith, h)) in
        record {
          offsets = n * es ∷ rest.offsets;
          computed =
              rw (eq, remap_offsets)
                (rw (here, remap_offsets) (rw (rest.computed, remap_offsets) refl));
          size = ap suc rest.size;
          bounded = (omega (arith, suc-mul n es, mul-le-mul_right es lt), rest.bounded);
          each =
              remap_prepend (n * es) linear count rest.offsets
                (coords, n, inside, index, found, lt, refl) rest.each;
        }

-- A non-negative index is accepted as it stands if it is below the dimension; a negative one, -k, leads
-- to `dimension - k` if `k` is at most the dimension; any other is `InvalidInput`. The index is an
-- `i64` in two's complement, and the dimension is below 2^63.
pub normalize_index_decides :
    (index dimension : ℕ)
    → index < 2 ^ 64
    → dimension < 2 ^ 63
    → (index < 2 ^ 63
        → normalize_index index dimension
          ≡ (if ltb index dimension then ok index else err BackendErr.invalid_input))
      × ((k : ℕ)
          → index + k ≡ 2 ^ 64
          → 2 ^ 63 ≤ index
          → normalize_index index dimension
            ≡ (if leb k dimension then ok (dimension - k) else err BackendErr.invalid_input))
unfolding normalize_index
normalize_index_decides index dimension word small =
    (λ positive. ground arith, λ k sum negative. ground arith)
