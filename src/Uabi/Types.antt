-- ===== src/Uabi/Types.antt =====
-- k3_aiUabi/src/types.rs: the newtypes over raw integers and their checked conversions. A newtype is
-- its raw number; `usize` is 64 bits wide (Common/Words.antt).
use k3x_hera_rt.Common.{
  ℕ, ◌+◌, ltb, ◌==◌, if◌then◌else◌, u32_mod, usize_mod, checked_add, Result, ok, err, ok_or, ◌>>=◌,
}

pub data AbiTypeError : Type 0 where
  zero_value usize_overflow count_overflow exceeds_max : AbiTypeError

unfoldable pub try_nonzero : ℕ → Result AbiTypeError ℕ
try_nonzero raw = if raw == 0 then err AbiTypeError.zero_value else ok raw

unfoldable pub try_as_usize : ℕ → Result AbiTypeError ℕ
try_as_usize raw = if ltb raw usize_mod then ok raw else err AbiTypeError.usize_overflow

unfoldable pub try_under_max : ℕ → ℕ → Result AbiTypeError ℕ
unfolding try_as_usize
try_under_max raw max_value = do
  value ← try_as_usize raw
  if ltb max_value value then err AbiTypeError.exceeds_max else ok value

-- `TensorCount::checked_total`: the sum of two `u32` counts.
unfoldable pub checked_total : ℕ → ℕ → Result AbiTypeError ℕ
unfolding try_as_usize
checked_total a b = do
  total ← if ltb (a + b) u32_mod then ok (a + b) else err AbiTypeError.count_overflow
  try_as_usize total

-- A half-open range `start..end`.
pub record Range : Type 0 where
  pub start : ℕ
  pub end : ℕ

-- `ByteOffset::checked_range`
unfoldable pub checked_range : ℕ → ℕ → ℕ → Result AbiTypeError Range
unfolding try_as_usize
checked_range offset byte_len total_size = do
  start ← try_as_usize offset
  end ← ok_or (checked_add start byte_len) AbiTypeError.count_overflow
  if ltb total_size end
      then err AbiTypeError.exceeds_max
      else ok (record { start = start; end = end })
