-- ===== src/Backend/Transform/Logical.antt =====
-- `gather_logical`, `read_logical_bytes` and `write_logical_bytes` of
-- k3_kernel_backend/src/transform.rs on a view that `checked_meta` accepts: whichever path they take,
-- they end without an error or a panic, with the elements in logical order.
use k3x_hera_rt.Common.{
  ℕ, zero, suc, ◌+◌, ◌*◌, ◌^◌, ◌≤◌, ◌<◌, ◌≡◌, refl, sym, ◌∙◌, ap, true, false, some, List, [], ◌∷◌,
  ◌++◌, length, take, drop, get_or, length-append, length-take, length-drop, usize_mod, ok,
  ok-injective, lt→ltb, leb, ltb, Bool-cases, inl, inr, ◌==◌, ==_self, arith, take-append_self,
}
use native.Mathlib.Nat.{suc-mul, mul-le-mul_right, mul-le-mul_left}
use k3x_hera_rt.Uabi.Desc.{max_dim}
use k3x_hera_rt.Uabi.Dtype.{element_size_bytes}
use k3x_hera_rt.Uabi.Kernel.{AiTargetHint}
use k3x_hera_rt.Backend.Call.{
  BackendTensorView, TensorMeta, checked_meta, offset_for_linear, is_contiguous,
}
use k3x_hera_rt.Backend.Call.Meta.{Checked, checked_meta-Checked}
use k3x_hera_rt.Backend.Call.Bounds.{offset_for_linear_bounded, offset_for_linear-contiguous}
use k3x_hera_rt.Backend.Vector.{Strip, window, gathered}
use k3x_hera_rt.Backend.Vector.Rounds.{
  InBounds, HasWidth, gather_each_lem, gather_bytes-eq-gather_each, copy_bytes_copies,
}
use k3x_hera_rt.Backend.Transform.{
  gather_logical, vector_target, source_offsets, read_logical_bytes, copy_for_target,
  write_logical_bytes,
}
use k3x_hera_rt.Backend.Transform.Chunks.{window-take, length-gathered, window-gathered}

pub width_of : (dtype : ℕ) {es : ℕ} → element_size_bytes dtype ≡ some es → HasWidth es × (es ≤ 8)
unfolding element_size_bytes
width_of dtype h = ground arith

pub gather_logical_lem :
    (vl : ℕ → ℕ) (strip : Strip vl) (source : List ℕ) (offsets : List ℕ) (es : ℕ)
    (target : AiTargetHint)
    → HasWidth es
    → length source < usize_mod
    → length offsets * es < usize_mod
    → InBounds (length source) es offsets
    → gather_logical vl source offsets es target ≡ ok (gathered source es offsets)
unfolding gather_logical
gather_logical_lem vl strip source offsets es target width small sized h =
    let plain = gather_each_lem source es offsets h in
    elim (Bool-cases (vector_target target)) [
      | inr cpu ↦ rw (cpu, gather_logical) plain
      | inl vector ↦
          rw (vector, gather_logical)
            (rw (gather_bytes-eq-gather_each vl strip source offsets es width small sized)
              (rw plain refl))
    ]

-- The elements of `raw` that stand at the offsets of the indices of `m`, in the order of the indices.
pub record InLogicalOrder (m : TensorMeta) (raw logical : List ℕ) : Type 0 where
  pub whole : length logical ≡ m.element_count * m.element_size
  pub element :
      (linear : ℕ)
      → linear < m.element_count
      → (offset : ℕ) × (offset_for_linear m linear ≡ ok offset)
        × (window logical (linear * m.element_size) m.element_size
            ≡ window raw (offset * m.element_size) m.element_size)

module _ (view : BackendTensorView) (m : TensorMeta) (shape_size : length view.shape ≡ max_dim)
    (strides_size : length view.stride_bytes ≡ max_dim) (accepted : checked_meta view ≡ ok m) where
  c : Checked view m
  c = checked_meta-Checked view m shape_size strides_size accepted

  -- The byte offsets that the loop of `read_logical_bytes` computes.
  record Offsets (linear count : ℕ) : Type 0 where
    offsets : List ℕ
    computed : source_offsets m linear count ≡ ok offsets
    size : length offsets ≡ count
    bounded : InBounds view.byte_len m.element_size offsets
    each :
        (i : ℕ)
        → i < count
        → (offset : ℕ) × (offset_for_linear m (linear + i) ≡ ok offset)
          × (get_or offsets i 0 ≡ offset * m.element_size)

  abbrev At : (linear : ℕ) → (offsets : List ℕ) → (i : ℕ) → Type 0
  At linear offsets i =
      (offset : ℕ) × (offset_for_linear m (linear + i) ≡ ok offset)
      × (get_or offsets i 0 ≡ offset * m.element_size)

  prepend :
      (offset : ℕ) (offsets : List ℕ) (linear count : ℕ)
      → offset_for_linear m linear ≡ ok offset
      → ((i : ℕ) → i < count → At (linear + 1) offsets i)
      → (i : ℕ) → i < suc count
      → At linear (offset * m.element_size ∷ offsets) i
  prepend offset offsets linear count eq each zero below =
      (offset, ap (offset_for_linear m) {y = linear} (omega arith) ∙ eq, refl)
  prepend offset offsets linear count eq each (suc i) below =
      let (o, e, got) = each i (omega arith) in
      (o, ap (offset_for_linear m) {y = linear + 1 + i} (omega arith) ∙ e, got)

  source_offsets_lem : (linear count : ℕ) → linear + count ≤ m.element_count → Offsets linear count
  unfolding source_offsets
  source_offsets_lem linear zero h = record {
    offsets = [];
    computed = refl;
    size = refl;
    bounded = tt;
    each = λ i below. absurd (omega (arith, below));
  }
  source_offsets_lem linear (suc count) h =
      let (offset, eq, inside) =
        offset_for_linear_bounded view m shape_size strides_size accepted linear
          (omega (arith, h)) in
      let rest = source_offsets_lem (linear + 1) count (omega (arith, h)) in
      record {
        offsets = offset * m.element_size ∷ rest.offsets;
        computed = rw (eq, source_offsets) (rw (rest.computed, source_offsets) refl);
        size = ap suc rest.size;
        bounded = (inside, rest.bounded);
        each = prepend offset rest.offsets linear count eq rest.each;
      }

  contiguous_size : is_contiguous m ≡ true → m.element_count * m.element_size ≤ view.byte_len
  contiguous_size contiguous = last m.element_count refl
    where
      last : (n : ℕ) → n ≡ m.element_count → m.element_count * m.element_size ≤ view.byte_len
      last zero e = rw (sym e) (omega arith)
      last (suc n) e =
          let below : n < m.element_count = omega (arith, e) in
          let (offset, eq, inside) =
            offset_for_linear_bounded view m shape_size strides_size accepted n below in
          let same : n ≡ offset = ok-injective (
            sym (
              offset_for_linear-contiguous view m shape_size strides_size accepted n below
                contiguous)
            ∙ eq) in
          omega (
            arith,
            inside,
            ap (λ x. x * m.element_size) same,
            ap (λ x. x * m.element_size) e,
            suc-mul n m.element_size,
          )

  module _ (vl : ℕ → ℕ) (strip : Strip vl) (target : AiTargetHint)
      (some_memory : m.element_count < 2 ^ 60) where
    narrow : m.element_size ≤ 8
    narrow = (width_of view.dtype c.dtype_size).1

    pub sized : m.element_count * m.element_size < 2 ^ 63
    sized = omega (arith, mul-le-mul_left m.element_count narrow, some_memory)

    allocated : ltb (m.element_count * 8) (2 ^ 63) ≡ true
    allocated = lt→ltb (m.element_count * 8) (2 ^ 63) (omega (arith, some_memory))

    checked_len : ltb (m.element_count * m.element_size) usize_mod ≡ true
    checked_len = lt→ltb (m.element_count * m.element_size) usize_mod (omega (arith, sized))

    abbrev Reads : List ℕ → Type 0
    Reads raw =
        (logical : List ℕ) × (read_logical_bytes vl raw m target ≡ ok logical)
        × InLogicalOrder m raw logical

    read_contiguous :
        (raw : List ℕ) → length raw ≡ view.byte_len → is_contiguous m ≡ true → Reads raw
    unfolding read_logical_bytes
    read_contiguous raw raw_size contiguous =
        let fits : m.element_count * m.element_size ≤ length raw =
          omega (arith, contiguous_size contiguous, raw_size) in
        let enough : leb (m.element_count * m.element_size) (length raw) ≡ true =
          ground (arith, fits) in
        (
          take (m.element_count * m.element_size) raw,
          rw (checked_len, read_logical_bytes)
              (rw (contiguous, read_logical_bytes) (rw (enough, read_logical_bytes) refl)),
          record {
            whole = omega (arith, fits, length-take (m.element_count * m.element_size) raw);
            element = λ linear below. (
              linear,
              offset_for_linear-contiguous view m shape_size strides_size accepted linear below
                  contiguous,
              window-take raw (m.element_count * m.element_size) (linear * m.element_size)
                  m.element_size
                  (omega
                    (arith, suc-mul linear m.element_size, mul-le-mul_right m.element_size below)),
            );
          },
        )

    read_scattered :
        (raw : List ℕ) → length raw ≡ view.byte_len → is_contiguous m ≡ false → Reads raw
    unfolding read_logical_bytes
    read_scattered raw raw_size scattered =
        let o = source_offsets_lem 0 m.element_count (omega arith) in
        let bounded : InBounds (length raw) m.element_size o.offsets = rw raw_size o.bounded in
        let len : length o.offsets * m.element_size ≡ m.element_count * m.element_size =
          ap (λ n. n * m.element_size) o.size in
        let run =
          gather_logical_lem vl strip raw o.offsets m.element_size target
            (width_of view.dtype c.dtype_size).0 (omega (arith, raw_size, c.small))
            (omega (arith, len, sized)) bounded in
        (
          gathered raw m.element_size o.offsets,
          rw (checked_len, read_logical_bytes)
              (rw (scattered, read_logical_bytes)
                (rw (allocated, read_logical_bytes) (rw (o.computed, read_logical_bytes) run))),
          record {
            whole = length-gathered raw m.element_size o.offsets bounded ∙ len;
            element = λ linear below.
                let (offset, eq, got) = o.each linear below in
                (
                  offset,
                  ap (offset_for_linear m) {x = linear} (omega arith) ∙ eq,
                  window-gathered raw m.element_size o.offsets linear bounded
                        (omega (arith, below, o.size))
                      ∙ ap (λ s. window raw s m.element_size) got,
                );
          },
        )

    -- Reading a tensor in logical order ends without an error or a panic, for a buffer of `byte_len`
    -- bytes behind a view that `checked_meta` accepts (its two arrays with `MAX_DIM` entries) and
    -- fewer than 2^60 elements: on the fast path for a contiguous tensor, and element by element, by
    -- the processor's vector unit or not, otherwise. On every path the result has the bytes of each
    -- element at its index.
    pub read_logical_bytes_ordered :
        (raw : List ℕ)
        → length raw ≡ view.byte_len
        → (logical : List ℕ) × (read_logical_bytes vl raw m target ≡ ok logical)
          × InLogicalOrder m raw logical
    read_logical_bytes_ordered raw raw_size = elim (Bool-cases (is_contiguous m)) [
      | inl contiguous ↦ read_contiguous raw raw_size contiguous
      | inr scattered ↦ read_scattered raw raw_size scattered
    ]

    copy_for_target_lem :
        (bytes : List ℕ) → copy_for_target vl target bytes (length bytes) ≡ ok bytes
    unfolding copy_for_target
    copy_for_target_lem bytes =
        rw (copy_bytes_copies vl strip bytes (length bytes))
          (rw (==_self (length bytes)) (ground arith))

    pub write_contiguous :
        (logical output : List ℕ)
        → length logical ≡ m.element_count * m.element_size
        → length output ≡ view.byte_len
        → is_contiguous m ≡ true
        → write_logical_bytes vl logical output m target
          ≡ ok (logical ++ drop (length logical) output)
    unfolding write_logical_bytes
    write_contiguous logical output whole output_size contiguous =
        let room : leb (length logical) (length output) ≡ true =
          ground (arith, contiguous_size contiguous) in
        let exact : (length logical == m.element_count * m.element_size) ≡ true = ground arith in
        rw (exact, write_logical_bytes)
          (rw (contiguous, write_logical_bytes)
            (rw (room, write_logical_bytes)
              (rw (copy_for_target_lem logical, write_logical_bytes) refl)))

    -- What is written to a contiguous tensor is read back, on any target: for a buffer of `byte_len`
    -- bytes behind a view that `checked_meta` accepts (its two arrays with `MAX_DIM` entries), fewer
    -- than 2^60 elements, and the bytes of all elements in logical order.
    pub read-write_logical_bytes :
        (logical output : List ℕ)
        → length logical ≡ m.element_count * m.element_size
        → length output ≡ view.byte_len
        → is_contiguous m ≡ true
        → (output' : List ℕ) × (write_logical_bytes vl logical output m target ≡ ok output')
          × (length output' ≡ length output)
          × (read_logical_bytes vl output' m target ≡ ok logical)
    unfolding read_logical_bytes
    read-write_logical_bytes logical output whole output_size contiguous =
        let fits : m.element_count * m.element_size ≤ length output =
          omega (arith, contiguous_size contiguous, output_size) in
        let longer : length (logical ++ drop (length logical) output) ≡ length output = omega (
          arith,
          length-append logical (drop (length logical) output),
          length-drop (length logical) output,
          whole,
          fits,
        ) in
        let enough : leb (m.element_count * m.element_size)
              (length (logical ++ drop (length logical) output))
            ≡ true =
          ground (arith, fits, longer) in
        (
          logical ++ drop (length logical) output,
          write_contiguous logical output whole output_size contiguous,
          longer,
          rw (checked_len, read_logical_bytes)
              (rw (contiguous, read_logical_bytes)
                (rw (enough, read_logical_bytes)
                  (ap ok (
                    ap (λ n. take n (logical ++ drop (length logical) output)) (sym whole)
                    ∙ take-append_self logical (drop (length logical) output))))),
        )
