-- ===== src/Uabi/KernelAttr.antt =====
-- k3_aiUabi/src/kernelattr.rs: the attributes of the operators that move data. An `i32` axis is in two's
-- complement. Each struct is 64 bytes long, the rest of it reserved.
use k3x_hera_rt.Common.{ℕ, List}

abbrev pub attr_bytes : ℕ
attr_bytes = 64

pub record CopyAttr : Type 0 where
  pub flags : ℕ
  pub reserved : List ℕ

pub record ConcatAttr : Type 0 where
  pub axis : ℕ
  pub flags : ℕ
  pub reserved : List ℕ

pub record TransposeAttr : Type 0 where
  pub rank : ℕ
  pub perm : List ℕ
  pub flags : ℕ
  pub reserved : List ℕ

pub record GatherAttr : Type 0 where
  pub axis : ℕ
  pub flags : ℕ
  pub reserved : List ℕ

pub record ExpandAttr : Type 0 where
  pub rank : ℕ
  pub target_shape : List ℕ
  pub flags : ℕ
  pub reserved : List ℕ

pub record TileAttr : Type 0 where
  pub rank : ℕ
  pub repeats : List ℕ
  pub flags : ℕ
  pub reserved : List ℕ

pub record GatherElementsAttr : Type 0 where
  pub axis : ℕ
  pub flags : ℕ
  pub reserved : List ℕ
