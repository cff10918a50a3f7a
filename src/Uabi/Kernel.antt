-- ===== src/Uabi/Kernel.antt =====
-- k3_aiUabi/src/kernel.rs: operator codes and target hints. A code is its raw number.
use k3x_hera_rt.Common.{ℕ, Bool, ◌&&◌, ◌||◌, ◌==◌, leb}

-- `KernelOp`
abbrev pub KernelOp : Type 0
KernelOp = ℕ

abbrev pub invalid_op : KernelOp
invalid_op = 0

abbrev pub mat_mul_op : KernelOp
mat_mul_op = 1

abbrev pub rms_norm_op : KernelOp
rms_norm_op = 2

abbrev pub rope_op : KernelOp
rope_op = 3

abbrev pub softmax_op : KernelOp
softmax_op = 4

abbrev pub add_op : KernelOp
add_op = 5

abbrev pub mul_op : KernelOp
mul_op = 6

abbrev pub silu_op : KernelOp
silu_op = 7

abbrev pub scale_op : KernelOp
scale_op = 8

abbrev pub conv2d_op : KernelOp
conv2d_op = 9

abbrev pub sigmoid_op : KernelOp
sigmoid_op = 10

abbrev pub concat_op : KernelOp
concat_op = 11

abbrev pub transpose_op : KernelOp
transpose_op = 12

abbrev pub gather_op : KernelOp
gather_op = 13

abbrev pub max_pool_op : KernelOp
max_pool_op = 14

abbrev pub cast_op : KernelOp
cast_op = 15

abbrev pub resize_op : KernelOp
resize_op = 16

abbrev pub div_op : KernelOp
div_op = 17

abbrev pub top_k_op : KernelOp
top_k_op = 18

abbrev pub expand_op : KernelOp
expand_op = 19

abbrev pub tile_op : KernelOp
tile_op = 20

abbrev pub gather_elements_op : KernelOp
gather_elements_op = 21

abbrev pub sub_op : KernelOp
sub_op = 22

abbrev pub reduce_max_op : KernelOp
reduce_max_op = 23

abbrev pub mod_op : KernelOp
mod_op = 24

abbrev pub glu_op : KernelOp
glu_op = 27

abbrev pub copy_op : KernelOp
copy_op = 28

-- `KernelOp::is_known`
unfoldable pub op_is_known : KernelOp → Bool
op_is_known op = leb 1 op && leb op 24 || op == 27 || op == 28

-- `AiTargetHint`
abbrev pub AiTargetHint : Type 0
AiTargetHint = ℕ

abbrev pub auto : AiTargetHint
auto = 0

abbrev pub prefer_cpu : AiTargetHint
prefer_cpu = 1

abbrev pub prefer_x100 : AiTargetHint
prefer_x100 = 2

abbrev pub prefer_a100 : AiTargetHint
prefer_a100 = 3

-- `AiTargetHint::is_known`
unfoldable pub target_is_known : AiTargetHint → Bool
target_is_known hint = leb hint 3
