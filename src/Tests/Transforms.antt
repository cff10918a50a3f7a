-- ===== src/Tests/Transforms.antt =====
-- The operators that move data, at half-precision tensors of two or three axes.
use k3x_hera_rt.Common.{
  get_or, ℕ, zero, suc, ◌+◌, ◌≤◌, ◌<◌, ◌≡◌, refl, ap, min, List, [], ◌∷◌, length, replicate, Result,
  ok, arith,
}
use k3x_hera_rt.Common.Counting.{count, AllBelow}
use k3x_hera_rt.Uabi.Error.{BackendErr}
use k3x_hera_rt.Uabi.Types.{try_as_usize, try_under_max}
use k3x_hera_rt.Uabi.KernelAttr.{TransposeAttr, TileAttr, ExpandAttr}
use k3x_hera_rt.Uabi.Kernel.{prefer_a100}
use k3x_hera_rt.Uabi.Dtype.{f16_dtype, dense, element_size_bytes}
use k3x_hera_rt.Backend.Call.{
  BackendTensorView, TensorMeta, checked_meta, scan_axes, check_dense, dense_axes, is_contiguous,
  contiguous_loop,
}
use k3x_hera_rt.Backend.Context.{
  CallContext, expect_io, reject_input_output_alias, reject_aliases, reject_overlaps,
  normalize_axis,
}
use k3x_hera_rt.Backend.Vector.{Strip, gather_bytes, gather_each}
use k3x_hera_rt.Backend.Vector.Rounds.{gather_bytes-eq-gather_each, no_panic}
use k3x_hera_rt.Backend.Transform.{aligned_shape, read_logical_bytes, write_logical_bytes}
use k3x_hera_rt.Backend.Transform.Logical.{
  InLogicalOrder, read_logical_bytes_ordered, read-write_logical_bytes,
}
use k3x_hera_rt.Backend.Transform.Entries.{
  Opened, open_pair, read_attr, permutation_loop, transpose_plan, call_transpose, tile_plan,
  tile_axes, call_tile, expand_plan, expand_axes, call_expand,
}
use k3x_hera_rt.Backend.Transform.Open.{Comes}
use k3x_hera_rt.Backend.Transform.Permutation.{Transposed}
use k3x_hera_rt.Backend.Transform.Transpose.{call_transpose_permutes}
use k3x_hera_rt.Backend.Transform.Tile.{Tiled, call_tile_repeats}
use k3x_hera_rt.Backend.Transform.Expand.{Broadcast, call_expand_broadcasts}

-- A processor that handles four elements in a round.
abbrev pub four : ℕ → ℕ
four remaining = min remaining 4

pub four-Strip : Strip four
four-Strip remaining some_left = (omega arith, omega arith)

-- The byte at an address is the address.
pub ramp : (address count : ℕ) → List ℕ
ramp address zero = []
ramp address (suc count) = address ∷ ramp (address + 1) count

pub length-ramp : (address count : ℕ) → length (ramp address count) ≡ count
unfolding ramp
length-ramp address zero = refl
length-ramp address (suc count) = ap suc (length-ramp (address + 1) count)

gather_bytes-eq-gather_each_example :
    gather_bytes four (ramp 10 12) (4 ∷ 0 ∷ 8 ∷ 2 ∷ 6 ∷ []) 10 2
    ≡ no_panic (gather_each (ramp 10 12) 2 (4 ∷ 0 ∷ 8 ∷ 2 ∷ 6 ∷ []))
unfolding ramp
gather_bytes-eq-gather_each_example =
    gather_bytes-eq-gather_each four four-Strip (ramp 10 12) (4 ∷ 0 ∷ 8 ∷ 2 ∷ 6 ∷ []) 2 refl
      (omega arith) (omega arith)

-- 2 by 3 at address 4096, 3 by 2 and 4 by 3 at address 8192.
abbrev pub two_by_three : BackendTensorView
two_by_three = record {
  data_address = 4096;
  byte_len = 12;
  shape = 2 ∷ 3 ∷ replicate 6 0;
  stride_bytes = 6 ∷ 2 ∷ replicate 6 0;
  ndim = 2;
  dtype = f16_dtype;
  format = 0;
  layout = dense;
  flags = 0;
}

abbrev pub two_by_three_meta : TensorMeta
two_by_three_meta = record {
  rank = 2;
  shape = 2 ∷ 3 ∷ replicate 6 0;
  strides = 3 ∷ 1 ∷ replicate 6 0;
  element_size = 2;
  element_count = 6;
}

abbrev pub three_by_two : BackendTensorView
three_by_two = record two_by_three {
  data_address = 8192;
  shape = 3 ∷ 2 ∷ replicate 6 0;
  stride_bytes = 4 ∷ 2 ∷ replicate 6 0;
}

abbrev pub three_by_two_meta : TensorMeta
three_by_two_meta = record two_by_three_meta {
  shape = 3 ∷ 2 ∷ replicate 6 0;
  strides = 2 ∷ 1 ∷ replicate 6 0;
}

two_by_three-accepted : checked_meta two_by_three ≡ ok two_by_three_meta
unfolding checked_meta try_as_usize try_under_max scan_axes check_dense dense_axes
    element_size_bytes
two_by_three-accepted = refl

read_logical_bytes_ordered_example :
    (logical : List ℕ) × (read_logical_bytes four (ramp 4096 12) two_by_three_meta prefer_a100
      ≡ ok logical)
    × InLogicalOrder two_by_three_meta (ramp 4096 12) logical
read_logical_bytes_ordered_example =
    read_logical_bytes_ordered two_by_three two_by_three_meta refl refl two_by_three-accepted four
      four-Strip prefer_a100 (omega arith) (ramp 4096 12) (length-ramp 4096 12)

read-write_logical_bytes_example :
    (output : List ℕ) × (write_logical_bytes four
        (ramp 0 12)
        (ramp 4096 12)
        two_by_three_meta
        prefer_a100
      ≡ ok output)
    × (length output ≡ length (ramp 4096 12))
    × (read_logical_bytes four output two_by_three_meta prefer_a100 ≡ ok (ramp 0 12))
unfolding is_contiguous contiguous_loop
read-write_logical_bytes_example =
    read-write_logical_bytes two_by_three two_by_three_meta refl refl two_by_three-accepted four
      four-Strip prefer_a100 (omega arith) (ramp 0 12) (ramp 4096 12) (length-ramp 0 12)
      (length-ramp 4096 12) refl

abbrev call_of : BackendTensorView → Result BackendErr CallContext
call_of output = ok (record {
  target = prefer_a100;
  inputs = two_by_three ∷ [];
  outputs = output ∷ [];
  attr_address = 64;
  attr_size = 64;
})

abbrev pub opened_of : {T : Type 0} → T → BackendTensorView → TensorMeta → Opened T
opened_of attr output output_meta = record {
  target = prefer_a100;
  attr = attr;
  input = two_by_three;
  output = output;
  input_meta = two_by_three_meta;
  output_meta = output_meta;
}

abbrev swap_axes : TransposeAttr
swap_axes = record { rank = 2; perm = 1 ∷ 0 ∷ replicate 6 0; flags = 0; reserved = replicate 6 0 }

abbrev transposing : Opened TransposeAttr
transposing = opened_of swap_axes three_by_two three_by_two_meta

transposing-opened : open_pair (call_of three_by_two) swap_axes ≡ ok transposing
unfolding open_pair expect_io reject_input_output_alias reject_aliases reject_overlaps read_attr
    checked_meta try_as_usize try_under_max scan_axes check_dense dense_axes element_size_bytes
transposing-opened = refl

transposing-planned : transpose_plan transposing ≡ ok (1 ∷ 0 ∷ [])
unfolding transpose_plan permutation_loop normalize_axis
transposing-planned = refl

call_transpose_permutes_example :
    AllBelow 2 (1 ∷ 0 ∷ [])
    × ((axis : ℕ) → count axis (1 ∷ 0 ∷ []) ≤ 1)
    × ((j : ℕ)
        → j < 2
        → normalize_axis (get_or swap_axes.perm j 0) 2 ≡ ok (get_or (1 ∷ 0 ∷ []) j 0))
    × ((bytes : List ℕ) × (call_transpose four ramp (call_of three_by_two) swap_axes ≡ ok bytes)
        × ((linear : ℕ)
            → linear < 6
            → Comes transposing bytes (ramp 4096 12) (Transposed (1 ∷ 0 ∷ [])) linear))
unfolding is_contiguous contiguous_loop
call_transpose_permutes_example =
    call_transpose_permutes four four-Strip ramp length-ramp (call_of three_by_two) swap_axes
      transposing (1 ∷ 0 ∷ []) transposing-opened transposing-planned refl refl refl refl refl
      (omega arith) (omega arith) refl

abbrev four_by_three : BackendTensorView
four_by_three = record two_by_three {
  data_address = 8192;
  byte_len = 24;
  shape = 4 ∷ 3 ∷ replicate 6 0;
}

abbrev four_by_three_meta : TensorMeta
four_by_three_meta = record two_by_three_meta { shape = 4 ∷ 3 ∷ replicate 6 0; element_count = 12 }

abbrev twice : TileAttr
twice = record { rank = 2; repeats = 2 ∷ 1 ∷ replicate 6 0; flags = 0; reserved = replicate 6 0 }

abbrev tiling : Opened TileAttr
tiling = opened_of twice four_by_three four_by_three_meta

tiling-opened : open_pair (call_of four_by_three) twice ≡ ok tiling
unfolding open_pair expect_io reject_input_output_alias reject_aliases reject_overlaps read_attr
    checked_meta try_as_usize try_under_max scan_axes check_dense dense_axes element_size_bytes
tiling-opened = refl

tiling-planned : tile_plan tiling ≡ ok tt
unfolding tile_plan tile_axes
tiling-planned = refl

call_tile_repeats_example :
    (bytes : List ℕ) × (call_tile four ramp (call_of four_by_three) twice ≡ ok bytes)
    × ((linear : ℕ) → linear < 12 → Comes tiling bytes (ramp 4096 12) (Tiled (2 ∷ 3 ∷ [])) linear)
unfolding is_contiguous contiguous_loop
call_tile_repeats_example =
    call_tile_repeats four four-Strip ramp length-ramp (call_of four_by_three) twice tiling
      tiling-opened tiling-planned refl refl refl refl refl (omega arith) (omega arith) refl

-- Two copies of it, one behind the other.
abbrev two_by_two_by_three : BackendTensorView
two_by_two_by_three = record two_by_three {
  data_address = 8192;
  byte_len = 24;
  ndim = 3;
  shape = 2 ∷ 2 ∷ 3 ∷ replicate 5 0;
  stride_bytes = 12 ∷ 6 ∷ 2 ∷ replicate 5 0;
}

abbrev two_by_two_by_three_meta : TensorMeta
two_by_two_by_three_meta = record two_by_three_meta {
  rank = 3;
  shape = 2 ∷ 2 ∷ 3 ∷ replicate 5 0;
  strides = 6 ∷ 3 ∷ 1 ∷ replicate 5 0;
  element_count = 12;
}

abbrev two_copies : ExpandAttr
two_copies = record {
  rank = 3;
  target_shape = 2 ∷ 2 ∷ 3 ∷ replicate 5 0;
  flags = 0;
  reserved = replicate 6 0;
}

abbrev expanding : Opened ExpandAttr
expanding = opened_of two_copies two_by_two_by_three two_by_two_by_three_meta

expanding-opened : open_pair (call_of two_by_two_by_three) two_copies ≡ ok expanding
unfolding open_pair expect_io reject_input_output_alias reject_aliases reject_overlaps read_attr
    checked_meta try_as_usize try_under_max scan_axes check_dense dense_axes element_size_bytes
expanding-opened = refl

expanding-planned : expand_plan expanding ≡ ok tt
unfolding expand_plan expand_axes aligned_shape
expanding-planned = refl

call_expand_broadcasts_example :
    (bytes : List ℕ) × (call_expand four ramp (call_of two_by_two_by_three) two_copies ≡ ok bytes)
    × ((linear : ℕ)
        → linear < 12
        → Comes expanding bytes (ramp 4096 12) (Broadcast (2 ∷ 3 ∷ []) 1) linear)
unfolding is_contiguous contiguous_loop
call_expand_broadcasts_example =
    call_expand_broadcasts four four-Strip ramp length-ramp (call_of two_by_two_by_three) two_copies
      expanding expanding-opened expanding-planned refl refl refl refl (omega arith) (omega arith)
      refl
