-- ===== src/Uabi.antt =====
-- k3_aiUabi: the types that user space, scheduler and backend share.
pub mod Types
pub mod Error
pub mod Kernel
pub mod KernelAttr
pub mod Dtype
pub mod Desc
pub mod Graph
