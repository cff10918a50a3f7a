-- ===== src/Uabi/Desc.antt =====
-- k3_aiUabi/src/desc.rs: tensor and operator descriptions and their constructors. An array of fixed
-- size is a list, `none` is a panic of an `assert!` or an `expect`, and a float is its bit pattern.
use k3x_hera_rt.Common.{
  ℕ, ◌-◌, ◌/◌, Option, none, some, List, [], ◌∷◌, ◌++◌, leb, ltb, ◌==◌, not, ◌&&◌, if◌then◌else◌,
  checked_mul, length, replicate, ok, err,
}
use k3x_hera_rt.Uabi.Types.{checked_total}
use k3x_hera_rt.Uabi.Kernel.{KernelOp, AiTargetHint, invalid_op, auto}
use k3x_hera_rt.Uabi.Dtype.{
  AiDtype, AiTensorFormat, AiTensorLayout, f16_dtype, ggml_quant, element_size_bytes,
  ggml_quant_block_size, ggml_quant_block_bytes, tensor_size_bytes, ggml_quant_tensor_size_bytes,
}

abbrev pub max_dim : ℕ
max_dim = 8

abbrev pub max_submit_tensors : ℕ
max_submit_tensors = 8

abbrev pub attr_inline_size : ℕ
attr_inline_size = 128

pub record AiQuantDesc : Type 0 where
  pub scale : ℕ
  pub zero_point : ℕ
  pub block_size : ℕ
  pub scale_dtype : AiDtype
  pub flags : ℕ

pub record AiTensorDesc : Type 0 where
  pub user_va : ℕ
  pub kernel_va : ℕ
  pub size_bytes : ℕ
  pub dtype : AiDtype
  pub format : AiTensorFormat
  pub layout : AiTensorLayout
  pub ndim : ℕ
  pub flags : ℕ
  pub shape : List ℕ
  pub stride_bytes : List ℕ
  pub quant : AiQuantDesc

abbrev pub default_quant : AiQuantDesc
default_quant = record { scale = 0; zero_point = 0; block_size = 0; scale_dtype = 0; flags = 0 }

abbrev pub default_tensor : AiTensorDesc
default_tensor = record {
  user_va = 0;
  kernel_va = 0;
  size_bytes = 0;
  dtype = 0;
  format = 0;
  layout = 0;
  ndim = 0;
  flags = 0;
  shape = replicate max_dim 0;
  stride_bytes = replicate max_dim 0;
  quant = default_quant;
}

-- `desc.shape[..len].copy_from_slice(xs)` into an array of zeros.
abbrev pub pad : ℕ → List ℕ → List ℕ
pad size xs = xs ++ replicate (size - length xs) 0

-- `for dim_idx in (0..len).rev()`: the strides, and the product that the loop ends with.
unfoldable pub dense_strides : ℕ → List ℕ → Option (List ℕ × ℕ)
dense_strides stride [] = some ([], stride)
dense_strides stride (dim ∷ dims) = elim (dense_strides stride dims) [
  | none ↦ none
  | some (strides, s) ↦ elim (checked_mul s dim) [ none ↦ none | some s' ↦ some (s ∷ strides, s') ]
]

-- `AiTensorDesc::from_user_buffer`
unfoldable pub from_user_buffer :
    ℕ → ℕ → AiDtype → AiTensorFormat → AiTensorLayout → List ℕ → ℕ → Option AiTensorDesc
from_user_buffer user_va size_bytes dtype format layout shape flags =
    if not (leb (length shape) max_dim && not (layout == ggml_quant))
    then none
    else elim (element_size_bytes dtype) [
      | none ↦ none
      | some element_size ↦ elim (tensor_size_bytes shape element_size) [
        | none ↦ none
        | some required ↦
            if ltb size_bytes required then none else elim (dense_strides element_size shape) [
              | none ↦ none
              | some (strides, _) ↦ some (record {
                user_va = user_va;
                kernel_va = 0;
                size_bytes = size_bytes;
                dtype = dtype;
                format = format;
                layout = layout;
                ndim = length shape;
                flags = flags;
                shape = pad max_dim shape;
                stride_bytes = pad max_dim strides;
                quant = default_quant;
              })
            ]
      ]
    ]

-- `for dim_idx in 1..len` of the quantised constructor.
unfoldable pub row_strides : ℕ → List ℕ → Option (List ℕ)
row_strides stride [] = some []
row_strides stride (dim ∷ dims) = elim (checked_mul stride dim) [
  | none ↦ none
  | some stride' ↦ elim (row_strides stride' dims) [
    | none ↦ none
    | some strides ↦ some (stride ∷ strides)
  ]
]

unfoldable pub quant_strides : ℕ → ℕ → List ℕ → Option (List ℕ)
unfolding row_strides
quant_strides block_size block_bytes [] = some []
quant_strides block_size block_bytes (first ∷ rest) =
    elim (checked_mul (first / block_size) block_bytes) [
      | none ↦ none
      | some stride ↦ elim (row_strides stride rest) [
        | none ↦ none
        | some strides ↦ some (block_bytes ∷ strides)
      ]
    ]

-- `AiTensorDesc::from_user_quant_buffer`
unfoldable pub from_user_quant_buffer :
    ℕ → ℕ → AiDtype → AiTensorFormat → List ℕ → ℕ → Option AiTensorDesc
unfolding quant_strides
from_user_quant_buffer user_va size_bytes dtype format shape flags =
    if not (leb (length shape) max_dim)
    then none
    else elim (ggml_quant_tensor_size_bytes dtype shape) [
      | none ↦ none
      | some required ↦
          if ltb size_bytes required then none else elim (ggml_quant_block_size dtype) [
            | none ↦ none
            | some block_size ↦ elim (ggml_quant_block_bytes dtype) [
              | none ↦ none
              | some block_bytes ↦ elim (quant_strides block_size block_bytes shape) [
                | none ↦ none
                | some strides ↦ some (record {
                  user_va = user_va;
                  kernel_va = 0;
                  size_bytes = size_bytes;
                  dtype = dtype;
                  format = format;
                  layout = ggml_quant;
                  ndim = length shape;
                  flags = flags;
                  shape = pad max_dim shape;
                  stride_bytes = pad max_dim strides;
                  quant = record default_quant {
                    block_size = block_size;
                    scale_dtype = f16_dtype;
                    flags = flags;
                  };
                })
              ]
            ]
          ]
    ]

pub record AiKernelDesc : Type 0 where
  pub op : KernelOp
  pub target_hint : AiTargetHint
  pub input_count : ℕ
  pub output_count : ℕ
  pub tensors : List AiTensorDesc
  pub attr_size : ℕ
  pub attr_inline : List ℕ

abbrev pub default_kernel_desc : AiKernelDesc
default_kernel_desc = record {
  op = invalid_op;
  target_hint = auto;
  input_count = 0;
  output_count = 0;
  tensors = replicate max_submit_tensors default_tensor;
  attr_size = 0;
  attr_inline = replicate attr_inline_size 0;
}

-- `AiKernelDesc::set_inline_attr`; the attribute is given by its bytes.
unfoldable pub set_inline_attr : AiKernelDesc → List ℕ → Option AiKernelDesc
set_inline_attr desc attr =
    if leb (length attr) attr_inline_size
    then some (record desc { attr_size = length attr; attr_inline = pad attr_inline_size attr })
    else none

-- `AiKernelDesc::new_with_op`; `new` passes the operator of the attribute's type.
unfoldable pub new_with_op :
    KernelOp → List ℕ → AiTargetHint → ℕ → ℕ → List AiTensorDesc → Option AiKernelDesc
unfolding set_inline_attr
new_with_op op attr target_hint input_count output_count tensors =
    elim (checked_total input_count output_count) [
      | err _ ↦ none
      | ok total ↦
          if leb total max_submit_tensors && length tensors == total
          then set_inline_attr
              (record {
                op = op;
                target_hint = target_hint;
                input_count = input_count;
                output_count = output_count;
                tensors = tensors ++ replicate (max_submit_tensors - total) default_tensor;
                attr_size = 0;
                attr_inline = replicate attr_inline_size 0;
              })
              attr
          else none
    ]
