-- ===== src/Backend/Context/Alias.antt =====
-- What the checks of a call context (k3_kernel_backend/src/call.rs) establish.
use k3x_hera_rt.Common.{
  ℕ, ◌+◌, ◌-◌, ◌≤◌, ◌<◌, ◌≡◌, zero, suc, sym, ap, ◌∙◌, some-injective, ◌⊎◌, true, not, ◌&&◌, some,
  List, [], ◌∷◌, ltb, get_elem?, checked_add, u32_mod, ok, err, ok_or, map_err, guard, >>=-eq-ok,
  map_err-eq-ok, Bool-cases, inl, inr, ◌||◌, ◌==◌, ok_or-eq-ok, guard-eq-ok, arith,
}
use mathlib.Core.Path.{subst}
use k3x_hera_rt.Uabi.Types.{try_as_usize}
use k3x_hera_rt.Uabi.Error.{BackendErr}
use k3x_hera_rt.Uabi.Desc.{max_dim}
use k3x_hera_rt.Backend.Call.{BackendTensorView}
use k3x_hera_rt.Backend.Call.Scan.{try_as_usize-eq-ok, checked_add-eq-some}
use k3x_hera_rt.Backend.Context.{
  CallContext, reject_overlaps, reject_aliases, reject_input_output_alias, normalize_axis,
}

-- Two buffers have no byte in common.
abbrev pub Disjoint : BackendTensorView → BackendTensorView → Type 0
Disjoint a b =
    (address : ℕ)
    → a.data_address ≤ address
    → address < a.data_address + a.byte_len
    → b.data_address ≤ address
    → ¬ (address < b.data_address + b.byte_len)

apart :
    (a b : BackendTensorView) (a_end b_end : ℕ)
    → a_end ≡ a.data_address + a.byte_len
    → b_end ≡ b.data_address + b.byte_len
    → not (ltb a.data_address b_end && ltb b.data_address a_end) ≡ true
    → Disjoint a b
apart a b a_end b_end ends_a ends_b test address p q r s = ground arith

overlaps_lem :
    (input : BackendTensorView) (input_end : ℕ) (outputs : List BackendTensorView) {u : Unit {0}}
    → input_end ≡ input.data_address + input.byte_len
    → reject_overlaps input.data_address input_end outputs ≡ ok u
    → (j : ℕ) (output : BackendTensorView) → get_elem? outputs j ≡ some output
    → Disjoint input output
unfolding reject_overlaps
overlaps_lem input input_end [] ends h j output found = cc
overlaps_lem input input_end (o ∷ outputs) ends h j output found =
    let (output_len, e1, h1) =
      >>=-eq-ok (map_err (try_as_usize o.byte_len) BackendErr.invalid_tensor) _ h in
    let (output_end, e2, h2) =
      >>=-eq-ok (ok_or (checked_add o.data_address output_len) BackendErr.invalid_tensor) _ h1 in
    let (_, e3, h3) =
      >>=-eq-ok
        (guard (not (ltb input.data_address output_end && ltb o.data_address input_end))
          BackendErr.invalid_tensor)
        _ h2 in
    let (raw, _) = try_as_usize-eq-ok o.byte_len (map_err-eq-ok (try_as_usize o.byte_len) _ e1) in
    let (sum, _) =
      checked_add-eq-some o.data_address output_len
        (ok_or-eq-ok (checked_add o.data_address output_len) _ e2) in
    elim j as (λ j. get_elem? (o ∷ outputs) j ≡ some output → Disjoint input output) [
      | zero ↦ λ found. subst (Disjoint input) (some-injective found) (λ address a b c d.
          apart input o input_end output_end ends (sum ∙ ap (λ n. o.data_address + n) (sym raw))
            (guard-eq-ok _ _ e3) address a b c d)
      | suc j ↦ λ found. overlaps_lem input input_end outputs ends h3 j output found
    ]
      found

-- An accepted call has no input that shares a byte with an output.
reject_aliases-Disjoint :
    (inputs outputs : List BackendTensorView) {u : Unit {0}}
    → reject_aliases inputs outputs ≡ ok u
    → (i j : ℕ) (input output : BackendTensorView) → get_elem? inputs i ≡ some input
    → get_elem? outputs j ≡ some output
    → Disjoint input output
unfolding reject_aliases
reject_aliases-Disjoint [] outputs h i j input output at_i at_j = cc
reject_aliases-Disjoint (a ∷ inputs) outputs h i j input output at_i at_j =
    let (input_len, e1, h1) =
      >>=-eq-ok (map_err (try_as_usize a.byte_len) BackendErr.invalid_tensor) _ h in
    let (input_end, e2, h2) =
      >>=-eq-ok (ok_or (checked_add a.data_address input_len) BackendErr.invalid_tensor) _ h1 in
    let (_, e3, h3) = >>=-eq-ok (reject_overlaps a.data_address input_end outputs) _ h2 in
    let (raw, _) = try_as_usize-eq-ok a.byte_len (map_err-eq-ok (try_as_usize a.byte_len) _ e1) in
    let (sum, _) =
      checked_add-eq-some a.data_address input_len
        (ok_or-eq-ok (checked_add a.data_address input_len) _ e2) in
    elim i as (λ i. get_elem? (a ∷ inputs) i ≡ some input → Disjoint input output) [
      | zero ↦ λ at_i.
          subst (λ x. Disjoint x output) (some-injective at_i)
            (overlaps_lem a input_end outputs (sum ∙ ap (λ n. a.data_address + n) (sym raw)) e3 j
              output at_j)
      | suc i ↦ λ at_i. reject_aliases-Disjoint inputs outputs h3 i j input output at_i at_j
    ]
      at_i

-- When `reject_input_output_alias` accepts a call, no input shares a byte with an output.
pub reject_input_output_alias-Disjoint :
    (ctx : CallContext)
    → reject_input_output_alias ctx ≡ ok tt
    → (i j : ℕ) (input output : BackendTensorView) → get_elem? ctx.inputs i ≡ some input
    → get_elem? ctx.outputs j ≡ some output
    → Disjoint input output
unfolding reject_input_output_alias
reject_input_output_alias-Disjoint ctx accepted =
    reject_aliases-Disjoint ctx.inputs ctx.outputs accepted

-- `normalize_axis` on an axis that is an `i32` in two's complement: a rank of 0 or above `MAX_DIM` is
-- answered with `InvalidTensor`; for the other ranks exactly the axes from `-rank` to `rank - 1` are
-- accepted, with the axis that they count to, from the front or from the back, and the others are
-- answered with `InvalidAttr`.
pub normalize_axis_decides :
    (axis rank : ℕ)
    → axis < u32_mod
    → (((rank ≡ 0) ⊎ (max_dim < rank)) × (normalize_axis axis rank ≡ err BackendErr.invalid_tensor))
      ⊎ ((0 < rank)
          × (rank ≤ max_dim)
          × (((axis < rank) × (normalize_axis axis rank ≡ ok axis))
              ⊎ ((u32_mod - rank ≤ axis)
                  × (normalize_axis axis rank ≡ ok (rank - (u32_mod - axis))))
              ⊎ ((rank ≤ axis)
                  × (axis < u32_mod - rank)
                  × (normalize_axis axis rank ≡ err BackendErr.invalid_attr))))
unfolding normalize_axis
normalize_axis_decides axis rank word = elim (Bool-cases (rank == 0 || ltb max_dim rank)) [
  | inl bad ↦ inl (ground (arith, bad), ground (arith, bad))
  | inr good ↦ inr (ground (arith, good), ground (arith, good), ground (arith, good, word))
]
