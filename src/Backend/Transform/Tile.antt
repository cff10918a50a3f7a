-- ===== src/Backend/Transform/Tile.antt =====
-- `call_tile` of k3_kernel_backend/src/transform.rs.
use k3x_hera_rt.Common.{
  ℕ, zero, suc, ◌%◌, ◌^◌, ◌<◌, ◌≡◌, ◌≢◌, refl, sym, ◌∙◌, ap, true, not, ◌||◌, List, [], ◌∷◌, ◌++◌,
  ◌==◌, length, get_or, take, drop, checked_mul, ok, guard, Result, >>=-eq-ok, guard-eq-ok,
  length-take, take-append_self, ==_ne, arith,
}
use native.Mathlib.Nat.{mod-lt}
use k3x_hera_rt.Uabi.Error.{BackendErr}
use k3x_hera_rt.Uabi.KernelAttr.{TileAttr}
use k3x_hera_rt.Uabi.Desc.{max_dim}
use k3x_hera_rt.Backend.Call.{is_contiguous}
use k3x_hera_rt.Backend.Call.Offset.{Inside, row_major, length-Inside}
use k3x_hera_rt.Backend.Call.Meta.{Checked, checked_meta-Checked}
use k3x_hera_rt.Backend.Context.{CallContext}
use k3x_hera_rt.Backend.Vector.{returned, Strip, try}
use k3x_hera_rt.Backend.Transform.{remap_single_input}
use k3x_hera_rt.Backend.Transform.Offsets.{zeros}
use k3x_hera_rt.Backend.Transform.Entries.{
  Opened, open_pair, tile_axes, differs, tile_plan, tile_coords, tile_source, call_tile,
}
use k3x_hera_rt.Backend.Transform.Open.{
  Pair, Comes, dims, open_pair-Pair, remap-Comes, try-eq-ok, linear_of, length-dims,
}

-- The source coordinates of an element of a tiled output.
abbrev pub Tiled : (dims coords source : List ℕ) → Type 0
Tiled ds coords source =
    (j : ℕ) → j < length ds → get_or source j 0 ≡ get_or coords j 0 % get_or ds j 0

nonzero_factor :
    (dim repeat out c : ℕ)
    → not (repeat == 0 || differs (checked_mul dim repeat) out) ≡ true
    → c < out
    → dim ≢ 0
nonzero_factor dim repeat out c h lt e = ground arith

Tiled-cons :
    (dim c : ℕ) (ds coords source : List ℕ)
    → Tiled ds coords source
    → Tiled (dim ∷ ds) (c ∷ coords) (c % dim ∷ source)
Tiled-cons dim c ds coords source h zero lt = refl
Tiled-cons dim c ds coords source h (suc j) lt = h j (omega arith)

tile_coords_lem :
    (repeats ds outs coords rest : List ℕ)
    → length repeats ≡ length ds
    → length outs ≡ length ds
    → tile_axes repeats ds outs ≡ ok tt
    → Inside coords outs
    → (source : List ℕ) × (tile_coords ds (coords ++ rest) ≡ ok source)
      × Inside source ds
      × Tiled ds coords source
unfolding tile_axes tile_coords
tile_coords_lem repeats [] outs coords rest same same' h inside =
    ([], refl, tt, λ j lt. absurd (omega (arith, lt)))
tile_coords_lem [] (d ∷ ds) outs coords rest same same' h inside = absurd (omega arith)
tile_coords_lem (r ∷ rs) (d ∷ ds) [] coords rest same same' h inside = absurd (omega arith)
tile_coords_lem (r ∷ rs) (d ∷ ds) (o ∷ outs) [] rest same same' h inside = elim inside [ ]
tile_coords_lem (r ∷ rs) (d ∷ ds) (o ∷ outs) (c ∷ coords) rest same same' h inside =
    let (_, e1, h1) =
      >>=-eq-ok (guard (not (r == 0 || differs (checked_mul d r) o)) BackendErr.invalid_attr) _ h in
    let some_dim : d ≢ 0 = nonzero_factor d r o c (guard-eq-ok _ _ e1) inside.0 in
    let (source, eq, within, tiled) =
      tile_coords_lem rs ds outs coords rest (omega arith) (omega arith) h1 inside.1 in
    (
      c % d ∷ source,
      rw (==_ne d 0 some_dim, tile_coords) (rw (eq, tile_coords) refl),
      (mod-lt c (omega (arith, some_dim)), within),
      Tiled-cons d c ds coords source tiled,
    )

same_ranks : (a b c d e f : ℕ) → not (not (a == b) || not (c == d) || not (e == f)) ≡ true → e ≡ f
same_ranks a b c d e f h = ground arith

plan_lem :
    (o : Opened TileAttr)
    → tile_plan o ≡ ok tt
    → (o.output_meta.rank ≡ o.input_meta.rank)
      × (tile_axes
            (take o.input_meta.rank o.attr.repeats)
            (dims o.input_meta)
            (take o.input_meta.rank o.output_meta.shape)
          ≡ ok tt)
unfolding tile_plan
plan_lem o h =
    let (_, e1, h1) =
      >>=-eq-ok
        (guard
          (not (
            not (o.input.dtype == o.output.dtype)
            || not (o.attr.rank == o.input_meta.rank)
            || not (o.output_meta.rank == o.input_meta.rank)))
          (returned BackendErr.invalid_tensor))
        _ h in
    (
      same_ranks o.input.dtype o.output.dtype o.attr.rank o.input_meta.rank o.output_meta.rank
          o.input_meta.rank (guard-eq-ok _ _ e1),
      try-eq-ok _ h1,
    )

module _ (vl : ℕ → ℕ) (strip : Strip vl) (memory : (address count : ℕ) → List ℕ)
    (memory_size : (address count : ℕ) → length (memory address count) ≡ count)
    (opened : Result BackendErr CallContext) (attr : TileAttr) (o : Opened TileAttr)
    (accepted : open_pair opened attr ≡ ok o) (planned : tile_plan o ≡ ok tt)
    (repeats_size : length o.attr.repeats ≡ max_dim) (input_shape : length o.input.shape ≡ max_dim)
    (input_strides : length o.input.stride_bytes ≡ max_dim)
    (output_shape : length o.output.shape ≡ max_dim)
    (output_strides : length o.output.stride_bytes ≡ max_dim)
    (input_small : o.input_meta.element_count < 2 ^ 60)
    (output_small : o.output_meta.element_count < 2 ^ 60)
    (contiguous : is_contiguous o.output_meta ≡ true) where
  pair : Pair o
  pair = open_pair-Pair opened attr o accepted

  abbrev in_checked : Checked o.input o.input_meta
  in_checked =
      checked_meta-Checked o.input o.input_meta input_shape input_strides pair.input_accepted

  abbrev out_checked : Checked o.output o.output_meta
  out_checked =
      checked_meta-Checked o.output o.output_meta output_shape output_strides pair.output_accepted

  same_rank : o.output_meta.rank ≡ o.input_meta.rank
  same_rank = (plan_lem o planned).0

  in_rank : length (dims o.input_meta) ≡ o.input_meta.rank
  in_rank = length-dims o.input o.input_meta in_checked

  leads :
      (coords : List ℕ)
      → Inside coords (dims o.output_meta)
      → (source : List ℕ) × Inside source (dims o.input_meta)
        × (tile_source o.input_meta (coords ++ drop o.output_meta.rank zeros)
            ≡ ok (row_major source (dims o.input_meta)))
        × Tiled (dims o.input_meta) coords source
  leads coords inside =
      let out_dims : take o.input_meta.rank o.output_meta.shape ≡ dims o.output_meta =
        ap (λ n. take n o.output_meta.shape) (sym same_rank) in
      let (source, eq, within, tiled) =
        tile_coords_lem (take o.input_meta.rank o.attr.repeats) (dims o.input_meta)
          (take o.input_meta.rank o.output_meta.shape) coords (drop o.output_meta.rank zeros)
          (omega (
            arith,
            length-take o.input_meta.rank o.attr.repeats,
            repeats_size,
            in_rank,
            in_checked.few,
          ))
          (ap length out_dims
            ∙ length-dims o.output o.output_meta out_checked
            ∙ same_rank
            ∙ sym in_rank)
          (plan_lem o planned).1 (rw out_dims inside) in
      let taken : take o.input_meta.rank (source ++ drop o.input_meta.rank zeros) ≡ source =
        ap (λ n. take n (source ++ drop o.input_meta.rank zeros))
          (sym in_rank ∙ sym (length-Inside source (dims o.input_meta) within))
        ∙ take-append_self source _ in
      (
        source,
        within,
        rw (eq, tile_source)
            (ap try (
              linear_of o.input o.input_meta in_checked input_small
                (source ++ drop o.input_meta.rank zeros) (rw taken within)
              ∙ ap (λ s. ok (row_major s (dims o.input_meta))) taken)),
        tiled,
      )

  -- A tiling whose checks pass ends without an error or a panic, and is right. For a call that
  -- `open_pair` and the plan accept (its arrays with `MAX_DIM` entries), tensors of fewer than 2^60
  -- elements and a contiguous output: each element of the new output is the element of the input whose
  -- coordinates are those of the output, each modulo the input's dimension.
  pub call_tile_repeats :
      (bytes : List ℕ) × (call_tile vl memory opened attr ≡ ok bytes)
      × ((linear : ℕ)
          → linear < o.output_meta.element_count
          → Comes o bytes
              (memory o.input.data_address o.input.byte_len)
              (Tiled (dims o.input_meta))
              linear)
  unfolding call_tile remap_single_input
  call_tile_repeats =
      let (bytes, run, comes) =
        remap-Comes vl strip memory memory_size o pair input_shape input_strides output_shape
          output_strides input_small output_small contiguous (λ _. tile_source o.input_meta)
          (Tiled (dims o.input_meta)) leads in
      (bytes, rw (accepted, call_tile) (rw (planned, call_tile) run), comes)
