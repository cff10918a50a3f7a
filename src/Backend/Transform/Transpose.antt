-- ===== src/Backend/Transform/Transpose.antt =====
-- `call_transpose` of k3_kernel_backend/src/transform.rs.
use k3x_hera_rt.Common.{
  ok-injective, Bool, zero, suc, [], ◌∷◌, set, get_or, ℕ, ◌^◌, ◌≤◌, ◌<◌, ◌≡◌, sym, ◌∙◌, ap, true,
  false, not, ◌||◌, List, ◌++◌, ◌==◌, length, take, drop, replicate, ok, guard, Result, >>=-eq-ok,
  guard-eq-ok, length-take, arith,
}
use mathlib.Core.Path.{subst}
use k3x_hera_rt.Common.Counting.{count, AllBelow}
use k3x_hera_rt.Uabi.Error.{BackendErr}
use k3x_hera_rt.Uabi.KernelAttr.{TransposeAttr}
use k3x_hera_rt.Uabi.Desc.{max_dim}
use k3x_hera_rt.Backend.Call.{is_contiguous}
use k3x_hera_rt.Backend.Call.Offset.{Inside, row_major}
use k3x_hera_rt.Backend.Call.Meta.{Checked, checked_meta-Checked}
use k3x_hera_rt.Backend.Context.{CallContext, normalize_axis}
use k3x_hera_rt.Backend.Vector.{returned, Strip, try}
use k3x_hera_rt.Backend.Transform.Offsets.{zeros}
use k3x_hera_rt.Backend.Transform.Entries.{
  Opened, open_pair, permutation_loop, place, transpose_plan, transpose_source, call_transpose,
}
use k3x_hera_rt.Backend.Transform.Permutation.{
  get_or-take, Permuted, permutation_loop-Permuted, Transposed, placed_Inside,
}
use k3x_hera_rt.Backend.Transform.Open.{
  Comes, dims, Pair, open_pair-Pair, remap-Comes, try-eq-ok, linear_of, length-dims, shape_long,
}

same_ranks : (a b c d e f : ℕ) → not (not (a == b) || not (c == d) || not (e == f)) ≡ true → c ≡ d
same_ranks a b c d e f h = ground arith

-- What the plan of a transposition has established.
plan_lem :
    (o : Opened TransposeAttr) (p : List ℕ)
    → transpose_plan o ≡ ok p
    → (o.input_meta.rank ≡ o.output_meta.rank)
      × (permutation_loop o.input_meta.rank o.input_meta.shape
            (replicate max_dim false)
            (take o.output_meta.rank o.attr.perm)
            (dims o.output_meta)
          ≡ ok p)
unfolding transpose_plan
plan_lem o p h =
    let (_, e1, h1) =
      >>=-eq-ok
        (guard
          (not (
            not (o.input.dtype == o.output.dtype)
            || not (o.input_meta.rank == o.output_meta.rank)
            || not (o.attr.rank == o.input_meta.rank)))
          (returned BackendErr.invalid_tensor))
        _ h in
    (same_ranks _ _ _ _ _ _ (guard-eq-ok _ _ e1), try-eq-ok _ h1)

entry_said :
    (axis rank n : ℕ) (perm rest : List ℕ) (count : ℕ)
    → normalize_axis axis rank ≡ ok n
    → ((j : ℕ)
        → j < length perm
        → j < count
        → normalize_axis (get_or perm j 0) rank ≡ ok (get_or rest j 0))
    → (j : ℕ) → j < suc (length perm)
    → j < suc count
    → normalize_axis (get_or (axis ∷ perm) j 0) rank ≡ ok (get_or (n ∷ rest) j 0)
entry_said axis rank n perm rest count first later zero lt lt' = first
entry_said axis rank n perm rest count first later (suc j) lt lt' =
    later j (omega (arith, lt)) (omega (arith, lt'))

-- Each entry of the plan is the axis that the attribute says.
permutation_loop_axes :
    (rank : ℕ) (shape : List ℕ) (seen : List Bool) (perm ds permutation : List ℕ)
    → permutation_loop rank shape seen perm ds ≡ ok permutation
    → (j : ℕ) → j < length perm
    → j < length ds
    → normalize_axis (get_or perm j 0) rank ≡ ok (get_or permutation j 0)
unfolding permutation_loop
permutation_loop_axes rank shape seen [] ds permutation h j lt lt' = absurd (omega (arith, lt))
permutation_loop_axes rank shape seen (axis ∷ perm) [] permutation h j lt lt' =
    absurd (omega (arith, lt'))
permutation_loop_axes rank shape seen (axis ∷ perm) (dim ∷ ds) permutation h j lt lt' =
    let (n, e1, h1) = >>=-eq-ok (normalize_axis axis rank) _ h in
    let (_, _, h2) =
      >>=-eq-ok
        (guard (not (get_or seen n false || not (dim == get_or shape n 0))) BackendErr.invalid_attr)
        _ h1 in
    let (rest, e3, h3) = >>=-eq-ok (permutation_loop rank shape (set seen n true) perm ds) _ h2 in
    subst (λ p. normalize_axis (get_or (axis ∷ perm) j 0) rank ≡ ok (get_or p j 0))
      (ok-injective h3)
      (entry_said axis rank n perm rest (length ds) e1
        (λ k lo hi. permutation_loop_axes rank shape (set seen n true) perm ds rest e3 k lo hi) j lt
        (omega (arith, lt')))

module _ (vl : ℕ → ℕ) (strip : Strip vl) (memory : (address count : ℕ) → List ℕ)
    (memory_size : (address count : ℕ) → length (memory address count) ≡ count)
    (opened : Result BackendErr CallContext) (attr : TransposeAttr) (o : Opened TransposeAttr)
    (permutation : List ℕ) (accepted : open_pair opened attr ≡ ok o)
    (planned : transpose_plan o ≡ ok permutation) (perm_size : length o.attr.perm ≡ max_dim)
    (input_shape : length o.input.shape ≡ max_dim)
    (input_strides : length o.input.stride_bytes ≡ max_dim)
    (output_shape : length o.output.shape ≡ max_dim)
    (output_strides : length o.output.stride_bytes ≡ max_dim)
    (input_small : o.input_meta.element_count < 2 ^ 60)
    (output_small : o.output_meta.element_count < 2 ^ 60)
    (contiguous : is_contiguous o.output_meta ≡ true) where
  pair : Pair o
  pair = open_pair-Pair opened attr o accepted

  abbrev in_checked : Checked o.input o.input_meta
  in_checked =
      checked_meta-Checked o.input o.input_meta input_shape input_strides pair.input_accepted

  abbrev out_checked : Checked o.output o.output_meta
  out_checked =
      checked_meta-Checked o.output o.output_meta output_shape output_strides pair.output_accepted

  same_rank : o.input_meta.rank ≡ o.output_meta.rank
  same_rank = (plan_lem o permutation planned).0

  out_rank : length (dims o.output_meta) ≡ o.input_meta.rank
  out_rank = length-dims o.output o.output_meta out_checked ∙ sym same_rank

  permuted :
      Permuted o.input_meta.rank o.input_meta.shape
        (replicate max_dim false)
        (dims o.output_meta)
        permutation
  permuted =
      permutation_loop-Permuted o.input_meta.rank o.input_meta.shape (replicate max_dim false)
        (take o.output_meta.rank o.attr.perm) (dims o.output_meta) permutation in_checked.few
        (omega (
          arith,
          length-take o.output_meta.rank o.attr.perm,
          out_rank,
          same_rank,
          perm_size,
          in_checked.few,
        ))
        (plan_lem o permutation planned).1

  said :
      (j : ℕ)
      → j < o.input_meta.rank
      → normalize_axis (get_or o.attr.perm j 0) o.input_meta.rank ≡ ok (get_or permutation j 0)
  said j lt =
      let taken = length-take o.output_meta.rank o.attr.perm in
      subst (λ a. normalize_axis a o.input_meta.rank ≡ ok (get_or permutation j 0))
        (get_or-take o.output_meta.rank o.attr.perm j (omega (arith, lt, same_rank)))
        (permutation_loop_axes o.input_meta.rank o.input_meta.shape (replicate max_dim false)
          (take o.output_meta.rank o.attr.perm) (dims o.output_meta) permutation
          (plan_lem o permutation planned).1 j
          (omega (arith, lt, taken, same_rank, perm_size, in_checked.few))
          (omega (arith, lt, out_rank)))

  leads :
      (coords : List ℕ)
      → Inside coords (dims o.output_meta)
      → (source : List ℕ) × Inside source (dims o.input_meta)
        × (transpose_source o.input_meta permutation (coords ++ drop o.output_meta.rank zeros)
            ≡ ok (row_major source (dims o.input_meta)))
        × Transposed permutation coords source
  leads coords inside =
      let (within, placed) =
        placed_Inside o.input_meta.rank o.input_meta.shape permutation coords
          (drop o.output_meta.rank zeros) (dims o.output_meta)
          (shape_long o.input o.input_meta in_checked) in_checked.few out_rank permuted inside in
      (
        take o.input_meta.rank (place permutation (coords ++ drop o.output_meta.rank zeros) zeros),
        within,
        ap try (
            linear_of o.input o.input_meta in_checked input_small
              (place permutation (coords ++ drop o.output_meta.rank zeros) zeros) within),
        placed,
      )

  -- A transposition whose checks pass ends without an error or a panic, and is right. For a call that
  -- `open_pair` and the plan accept (its arrays with `MAX_DIM` entries), tensors of fewer than 2^60
  -- elements and a contiguous output: the axes are a permutation of the axes of the input, each is what
  -- `normalize_axis` makes of the entry of `attr.perm` at its place, and each element of the new output is the element of the input at the coordinates that the axes say.
  pub call_transpose_permutes :
      AllBelow o.input_meta.rank permutation
      × ((axis : ℕ) → count axis permutation ≤ 1)
      × ((j : ℕ)
          → j < o.input_meta.rank
          → normalize_axis (get_or o.attr.perm j 0) o.input_meta.rank ≡ ok (get_or permutation j 0))
      × ((bytes : List ℕ) × (call_transpose vl memory opened attr ≡ ok bytes)
          × ((linear : ℕ)
              → linear < o.output_meta.element_count
              → Comes o bytes
                  (memory o.input.data_address o.input.byte_len)
                  (Transposed permutation)
                  linear))
  unfolding call_transpose
  call_transpose_permutes =
      let (bytes, run, comes) =
        remap-Comes vl strip memory memory_size o pair input_shape input_strides output_shape
          output_strides input_small output_small contiguous
          (λ _. transpose_source o.input_meta permutation) (Transposed permutation) leads in
      (
        permuted.below,
        λ axis. omega (arith, permuted.once axis),
        said,
        (bytes, rw (accepted, call_transpose) (rw (planned, call_transpose) run), comes),
      )
