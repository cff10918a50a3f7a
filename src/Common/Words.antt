-- ===== src/Common/Words.antt =====
-- Machine words: `usize` and `u64` are 64 bits wide on the K3 (riscv64), `u32` is 32.
use Prim.Native.Nat.{ℕ, ◌+◌, ◌*◌, ◌%◌, ◌^◌}
use mathlib.Core.Option.{Option, none, some}
use k3x_hera_rt.Common.Tests.{ltb, if◌then◌else◌}

abbrev pub u32_mod : ℕ
u32_mod = 2 ^ 32

abbrev pub usize_mod : ℕ
usize_mod = 2 ^ 64

-- `checked_add`, `checked_mul` on `usize` and `u64`.
abbrev pub checked_add : ℕ → ℕ → Option ℕ
checked_add a b = if ltb (a + b) usize_mod then some (a + b) else none

abbrev pub checked_mul : ℕ → ℕ → Option ℕ
checked_mul a b = if ltb (a * b) usize_mod then some (a * b) else none

-- `u32::try_from` on a `usize`.
abbrev pub try_u32 : ℕ → Option ℕ
try_u32 a = if ltb a u32_mod then some a else none

-- `as u32`
abbrev pub as_u32 : ℕ → ℕ
as_u32 a = a % u32_mod
