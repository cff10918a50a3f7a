-- ===== src/Tests/Gathers.antt =====
-- The gathers, at half-precision tensors of two axes and indices of 64 bits.
use k3x_hera_rt.Backend.Transform.IndexWords.{IndexAt, word8}
use k3x_hera_rt.Common.{
  ok-injective, sym, ap, ◌∙◌, ◌*◌, ℕ, zero, suc, ◌^◌, ◌<◌, ◌≡◌, refl, List, [], ◌∷◌, ◌++◌, ◌-◌,
  ◌==◌, ◌&&◌, if◌then◌else◌, Bool-cases, inl, inr, length, length-replicate, replicate, Result, ok,
  arith,
}
use k3x_hera_rt.Common.Counting.{count}
use k3x_hera_rt.Uabi.Error.{BackendErr}
use k3x_hera_rt.Uabi.Types.{try_as_usize, try_under_max}
use k3x_hera_rt.Uabi.KernelAttr.{GatherElementsAttr}
use k3x_hera_rt.Uabi.Kernel.{prefer_a100}
use k3x_hera_rt.Uabi.Dtype.{i64_dtype, element_size_bytes}
use k3x_hera_rt.Backend.Call.{
  BackendTensorView, TensorMeta, checked_meta, scan_axes, check_dense, dense_axes, is_contiguous,
  contiguous_loop, offset_for_linear, coordinates, coordinates_loop, offset_for_coordinates,
  offset_loop,
}
use k3x_hera_rt.Backend.Context.{
  CallContext, expect_io, reject_input_output_alias, reject_aliases, reject_overlaps,
  normalize_axis,
}
use k3x_hera_rt.Backend.Transform.{normalize_index}
use k3x_hera_rt.Backend.Transform.Entries.{read_attr}
use k3x_hera_rt.Backend.Transform.Open.{Comes}
use k3x_hera_rt.Backend.Transform.GatherEntries.{
  Gathering, open_gather, gather_views, elements_plan, elements_axes, call_gather_elements,
}
use k3x_hera_rt.Backend.Transform.GatherElements.{ElementOf, call_gather_elements_selects}
use k3x_hera_rt.Backend.Transform.GatherEntries.{gather_plan, gather_axes, call_gather}
use k3x_hera_rt.Backend.Transform.Gather.{GatheredFrom, call_gather_selects}
use k3x_hera_rt.Uabi.KernelAttr.{GatherAttr}
use k3x_hera_rt.Tests.Transforms.{four, four-Strip, two_by_three, two_by_three_meta, opened_of}

-- For each column, the row to take the element from: 1, 0 and -1.
abbrev rows : BackendTensorView
rows = record two_by_three {
  data_address = 16384;
  byte_len = 24;
  shape = 1 ∷ 3 ∷ replicate 6 0;
  stride_bytes = 24 ∷ 8 ∷ replicate 6 0;
  dtype = i64_dtype;
}

abbrev rows_meta : TensorMeta
rows_meta = record {
  rank = 2;
  shape = 1 ∷ 3 ∷ replicate 6 0;
  strides = 3 ∷ 1 ∷ replicate 6 0;
  element_size = 8;
  element_count = 3;
}

abbrev one_by_three : BackendTensorView
one_by_three = record two_by_three {
  data_address = 8192;
  byte_len = 6;
  shape = 1 ∷ 3 ∷ replicate 6 0;
}

abbrev one_by_three_meta : TensorMeta
one_by_three_meta = record two_by_three_meta { shape = 1 ∷ 3 ∷ replicate 6 0; element_count = 3 }

abbrev rows_bytes : List ℕ
rows_bytes = 1 ∷ (replicate 7 0 ++ (replicate 8 0 ++ replicate 8 255))

-- Memory with those rows at 16384.
memory : (address count : ℕ) → List ℕ
memory address count = if address == 16384 && count == 24 then rows_bytes else replicate count 0

length-memory : (address count : ℕ) → length (memory address count) ≡ count
unfolding memory
length-memory address count = elim (Bool-cases (address == 16384 && count == 24)) [
  | inl rows ↦ rw rows (ground arith)
  | inr other ↦ rw other (length-replicate count 0)
]

abbrev by_rows : GatherElementsAttr
by_rows = record { axis = 0; flags = 0; reserved = replicate 14 0 }

abbrev selecting : Gathering GatherElementsAttr
selecting = record {
  pair = opened_of by_rows one_by_three one_by_three_meta;
  indices = rows;
  indices_meta = rows_meta;
}

abbrev select_call : Result BackendErr CallContext
select_call = ok (record {
  target = prefer_a100;
  inputs = two_by_three ∷ rows ∷ [];
  outputs = one_by_three ∷ [];
  attr_address = 64;
  attr_size = 64;
})

selecting-opened : open_gather select_call by_rows ≡ ok selecting
unfolding open_gather gather_views expect_io reject_input_output_alias reject_aliases
    reject_overlaps read_attr checked_meta try_as_usize try_under_max scan_axes check_dense
    dense_axes element_size_bytes
selecting-opened = refl

selecting-planned : elements_plan selecting ≡ ok 0
unfolding elements_plan elements_axes normalize_axis
selecting-planned = refl

-- A word of `rows` names that row.
names :
    (at word n offset index : ℕ)
    → at ≡ offset
    → index ≡ word8 rows_bytes (offset * 8)
    → word8 rows_bytes (at * 8) ≡ word
    → normalize_index word 2 ≡ ok n
    → (m : ℕ) × (normalize_index index 2 ≡ ok m)
names at word n offset index e same read row = (
  n,
  ap (λ i. normalize_index i 2) (same ∙ ap (λ o. word8 rows_bytes (o * 8)) (sym e) ∙ read) ∙ row,
)

-- The index at each place of those rows names a row.
rows_valid :
    (linear index : ℕ)
    → linear < 3
    → IndexAt rows rows_meta (memory 16384 24) linear index
    → (n : ℕ) × (normalize_index index 2 ≡ ok n)
unfolding normalize_index offset_for_linear coordinates coordinates_loop offset_for_coordinates
    offset_loop memory
rows_valid linear index lt (offset, found, inr (narrow, _)) = absurd (omega (arith, narrow))
rows_valid zero index lt (offset, found, inl (_, same)) =
    names 0 1 1 offset index (ok-injective found) same refl refl
rows_valid (suc zero) index lt (offset, found, inl (_, same)) =
    names 1 0 0 offset index (ok-injective found) same refl refl
rows_valid (suc (suc zero)) index lt (offset, found, inl (_, same)) =
    names 2 (2 ^ 64 - 1) 1 offset index (ok-injective found) same refl refl
rows_valid (suc (suc (suc linear))) index lt at = absurd (omega arith)

call_gather_elements_selects_example :
    (bytes : List ℕ) × (call_gather_elements four memory select_call by_rows ≡ ok bytes)
    × ((linear : ℕ)
        → linear < 3
        → Comes selecting.pair bytes
            (memory 4096 12)
            (ElementOf (IndexAt rows rows_meta (memory 16384 24)) (1 ∷ 3 ∷ []) 0 2)
            linear)
unfolding is_contiguous contiguous_loop
call_gather_elements_selects_example =
    call_gather_elements_selects four four-Strip memory length-memory select_call by_rows selecting
      0 selecting-opened selecting-planned (inl (refl, refl, refl)) rows_valid refl refl refl refl
      refl refl (omega arith) (omega arith) refl

-- The same rows as a tensor of one axis, and what they gather: three rows of three.
abbrev three_rows : BackendTensorView
three_rows = record rows { ndim = 1; shape = 3 ∷ replicate 7 0; stride_bytes = 8 ∷ replicate 7 0 }

abbrev three_rows_meta : TensorMeta
three_rows_meta = record rows_meta {
  rank = 1;
  shape = 3 ∷ replicate 7 0;
  strides = 1 ∷ replicate 7 0;
}

abbrev three_by_three : BackendTensorView
three_by_three = record one_by_three { byte_len = 18; shape = 3 ∷ 3 ∷ replicate 6 0 }

abbrev three_by_three_meta : TensorMeta
three_by_three_meta = record one_by_three_meta { shape = 3 ∷ 3 ∷ replicate 6 0; element_count = 9 }

abbrev whole_rows : GatherAttr
whole_rows = record { axis = 0; flags = 0; reserved = replicate 14 0 }

abbrev gathering : Gathering GatherAttr
gathering = record {
  pair = opened_of whole_rows three_by_three three_by_three_meta;
  indices = three_rows;
  indices_meta = three_rows_meta;
}

abbrev gather_call : Result BackendErr CallContext
gather_call = ok (record {
  target = prefer_a100;
  inputs = two_by_three ∷ three_rows ∷ [];
  outputs = three_by_three ∷ [];
  attr_address = 64;
  attr_size = 64;
})

gathering-opened : open_gather gather_call whole_rows ≡ ok gathering
unfolding open_gather gather_views expect_io reject_input_output_alias reject_aliases
    reject_overlaps read_attr checked_meta try_as_usize try_under_max scan_axes check_dense
    dense_axes element_size_bytes
gathering-opened = refl

gathering-planned : gather_plan gathering ≡ ok 0
unfolding gather_plan gather_axes normalize_axis
gathering-planned = refl

three_rows_valid :
    (linear index : ℕ)
    → linear < 3
    → IndexAt three_rows three_rows_meta (memory 16384 24) linear index
    → (n : ℕ) × (normalize_index index 2 ≡ ok n)
unfolding normalize_index offset_for_linear coordinates coordinates_loop offset_for_coordinates
    offset_loop memory
three_rows_valid linear index lt (offset, found, inr (narrow, _)) = absurd (omega (arith, narrow))
three_rows_valid zero index lt (offset, found, inl (_, same)) =
    names 0 1 1 offset index (ok-injective found) same refl refl
three_rows_valid (suc zero) index lt (offset, found, inl (_, same)) =
    names 1 0 0 offset index (ok-injective found) same refl refl
three_rows_valid (suc (suc zero)) index lt (offset, found, inl (_, same)) =
    names 2 (2 ^ 64 - 1) 1 offset index (ok-injective found) same refl refl
three_rows_valid (suc (suc (suc linear))) index lt at = absurd (omega arith)

call_gather_selects_example :
    (bytes : List ℕ) × (call_gather four memory gather_call whole_rows ≡ ok bytes)
    × ((linear : ℕ)
        → linear < 9
        → Comes gathering.pair bytes
            (memory 4096 12)
            (GatheredFrom (IndexAt three_rows three_rows_meta (memory 16384 24)) (3 ∷ []) 0 2)
            linear)
unfolding is_contiguous contiguous_loop
call_gather_selects_example =
    call_gather_selects four four-Strip memory length-memory gather_call whole_rows gathering 0
      gathering-opened gathering-planned (inl (refl, refl, refl)) three_rows_valid refl refl refl
      refl refl refl (omega arith) (omega arith) (omega arith) refl
