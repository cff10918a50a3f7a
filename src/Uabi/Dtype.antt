-- ===== src/Uabi/Dtype.antt =====
-- k3_aiUabi/src/desc.rs: element types, formats, layouts, and the sizes of tensor data. `none` of the
-- size functions stands for a panic of `expect` in the dense case, and for `None` in the quantised one.
use k3x_hera_rt.Common.{
  ℕ, ◌/◌, ◌%◌, Bool, true, false, Option, none, some, List, [], ◌∷◌, ◌==◌, not, ◌||◌, if◌then◌else◌,
  checked_mul,
}

abbrev pub AiDtype : Type 0
AiDtype = ℕ

abbrev pub f32_dtype : AiDtype
f32_dtype = 0

abbrev pub f16_dtype : AiDtype
f16_dtype = 1

abbrev pub i32_dtype : AiDtype
i32_dtype = 5

abbrev pub i64_dtype : AiDtype
i64_dtype = 6

-- `AiDtype::element_size_bytes`
unfoldable pub element_size_bytes : AiDtype → Option ℕ
element_size_bytes d =
    if d == 0
    then some 4
    else if d == 1 || d == 2
    then some 2
    else if d == 3 || d == 4 || d == 7
    then some 1
    else if d == 5
    then some 4
    else if d == 6
    then some 8
    else none

-- `AiDtype::ggml_quant_block_size`
unfoldable pub ggml_quant_block_size : AiDtype → Option ℕ
ggml_quant_block_size d =
    if d == 102 then some 32 else if d == 103 then some 256 else if d == 104 then some 32 else none

-- `AiDtype::ggml_quant_block_bytes`
unfoldable pub ggml_quant_block_bytes : AiDtype → Option ℕ
ggml_quant_block_bytes d =
    if d == 102 then some 34 else if d == 103 then some 110 else if d == 104 then some 18 else none

-- `AiDtype::is_ggml_quant`
unfoldable pub is_ggml_quant : AiDtype → Bool
is_ggml_quant d = elim (ggml_quant_block_size d) [ none ↦ false | some _ ↦ true ]

abbrev pub AiTensorFormat : Type 0
AiTensorFormat = ℕ

abbrev pub any_format : AiTensorFormat
any_format = 0

abbrev pub AiTensorLayout : Type 0
AiTensorLayout = ℕ

abbrev pub dense : AiTensorLayout
dense = 0

abbrev pub strided : AiTensorLayout
strided = 1

abbrev pub blocked : AiTensorLayout
blocked = 2

abbrev pub ggml_quant : AiTensorLayout
ggml_quant = 3

-- `fold(acc, |acc, dim| acc.checked_mul(dim).expect(..))`: the loop of both size functions.
unfoldable pub checked_product : ℕ → List ℕ → Option ℕ
checked_product acc [] = some acc
checked_product acc (dim ∷ dims) = elim (checked_mul acc dim) [
  | none ↦ none
  | some acc' ↦ checked_product acc' dims
]

-- `tensor_size_bytes`
unfoldable pub tensor_size_bytes : List ℕ → ℕ → Option ℕ
tensor_size_bytes shape element_size = elim (checked_product 1 shape) [
  | none ↦ none
  | some n ↦ checked_mul n element_size
]

-- The first dimension counts elements in whole blocks, the others count rows.
quant_rows : ℕ → List ℕ → Option ℕ
quant_rows row_bytes rest = elim (checked_product 1 rest) [
  | none ↦ none
  | some rows ↦ checked_mul row_bytes rows
]

quant_size : ℕ → ℕ → List ℕ → Option ℕ
unfolding quant_rows
quant_size block_size block_bytes [] = none
quant_size block_size block_bytes (first ∷ rest) =
    if first == 0 || not (first % block_size == 0)
    then none
    else elim (checked_mul (first / block_size) block_bytes) [
      | none ↦ none
      | some row_bytes ↦ quant_rows row_bytes rest
    ]

-- `ggml_quant_tensor_size_bytes`; the early return on an empty shape is `quant_size`'s first clause.
unfoldable pub ggml_quant_tensor_size_bytes : AiDtype → List ℕ → Option ℕ
unfolding quant_size
ggml_quant_tensor_size_bytes dtype shape = elim (ggml_quant_block_size dtype) [
  | none ↦ none
  | some block_size ↦ elim (ggml_quant_block_bytes dtype) [
    | none ↦ none
    | some block_bytes ↦ quant_size block_size block_bytes shape
  ]
]
