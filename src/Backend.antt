-- ===== src/Backend.antt =====
-- The kernel backend (k3_kernel_backend/src).
pub mod Call
pub mod Context
pub mod Kernel
pub mod Vector
pub mod Transform
