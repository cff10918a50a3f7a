-- ===== src/Backend/Vector.antt =====
-- k3_kernel_backend/src/rvv.rs: `copy_bytes` and `gather_bytes`, with the hardware loops that they run
-- on riscv64. A slice is a list; a panic of the code (a slice out of range, an allocation of more than
-- `isize::MAX` bytes) is an error of its own. What `vsetvli` answers is the processor's: a parameter
-- `vl`, from the number of elements that remain to the number that one round handles. The rounds store
-- at increasing addresses, one behind the other, so a round's result is what it stores.
pub mod Rounds
use k3x_hera_rt.Common.{
  ℕ, zero, suc, ◌+◌, ◌-◌, ◌*◌, ◌^◌, ◌≤◌, ◌<◌, not, ◌||◌, List, [], ◌∷◌, ◌++◌, ◌==◌, ltb, leb,
  if◌then◌else◌, length, take, drop, checked_add, usize_mod, min, Result, ok, err, guard, ◌>>=◌,
  ◌>>◌,
}
use k3x_hera_rt.Uabi.Error.{BackendErr}
use k3x_hera_rt.Backend.Call.{exceeds}

-- How a routine ends when it does not return `Ok`.
pub data Fault : Type 0 where
  returned : BackendErr → Fault
  panicked : Fault

-- `?` on a call that cannot panic
abbrev pub try {ℓ} : {A : Type ℓ} → Result BackendErr A → Result Fault A
try (ok a) = ok a
try (err e) = err (returned e)

-- The elements `start..start + count` of a slice that is long enough.
abbrev pub window : List ℕ → (start count : ℕ) → List ℕ
window source start count = take count (drop start source)

-- `&source[start..start + count]`
abbrev pub subslice : List ℕ → (start count : ℕ) → Result Fault (List ℕ)
subslice source start count =
    if leb (start + count) (length source) then ok (window source start count) else err panicked

-- What `vsetvli` is documented to answer: some of the elements that remain, at least one.
abbrev pub Strip : (ℕ → ℕ) → Type 0
Strip vl = (remaining : ℕ) → 0 < remaining → (0 < vl remaining) × (vl remaining ≤ remaining)

-- `copy_bytes_hw`: the rounds of its loop, from what is left of the source.
unfoldable pub copy_rounds : (ℕ → ℕ) → (fuel : ℕ) → List ℕ → List ℕ
copy_rounds vl zero source = []
copy_rounds vl (suc fuel) [] = []
copy_rounds vl (suc fuel) (b ∷ bytes) =
    let n = vl (suc (length bytes)) in
    take n (b ∷ bytes) ++ copy_rounds vl fuel (drop n (b ∷ bytes))

-- `copy_bytes`, for a destination of that length: its new content
unfoldable pub copy_bytes : (ℕ → ℕ) → List ℕ → (destination_len : ℕ) → Result BackendErr (List ℕ)
copy_bytes vl source destination_len = do
  guard (not (not (length source == destination_len))) BackendErr.invalid_tensor
  ok (copy_rounds vl (length source) source)

-- The elements at the offsets, one behind the other: what an indexed load and a store move.
abbrev pub gathered : List ℕ → (element_size : ℕ) → List ℕ → List ℕ
gathered source es [] = []
gathered source es (offset ∷ offsets) = window source offset es ++ gathered source es offsets

-- `gather_bytes_hw`: the rounds of its loop, from the offsets that are left.
unfoldable pub gather_rounds : (ℕ → ℕ) → (fuel : ℕ) → List ℕ → (element_size : ℕ) → List ℕ → List ℕ
gather_rounds vl zero source es offsets = []
gather_rounds vl (suc fuel) source es [] = []
gather_rounds vl (suc fuel) source es (o ∷ offsets) =
    let n = vl (suc (length offsets)) in
    gathered source es (take n (o ∷ offsets))
    ++ gather_rounds vl fuel source es (drop n (o ∷ offsets))

-- The loop of `gather_bytes` over the offsets.
unfoldable pub check_offsets : (source_len element_size : ℕ) → List ℕ → Result BackendErr (Unit {0})
check_offsets source_len es [] = ok tt
check_offsets source_len es (offset ∷ offsets) = do
  guard (ltb offset usize_mod) BackendErr.invalid_tensor
  guard (not (exceeds (checked_add offset es) source_len)) BackendErr.invalid_tensor
  check_offsets source_len es offsets

-- `usize::saturating_mul`
abbrev pub saturating_mul : ℕ → ℕ → ℕ
saturating_mul a b = min (a * b) (2 ^ 64 - 1)

-- `gather_bytes`, for a destination of that length: its new content
unfoldable pub gather_bytes :
    (ℕ → ℕ)
    → (source offsets : List ℕ) → (destination_len element_size : ℕ) → Result BackendErr (List ℕ)
gather_bytes vl source offsets destination_len es = do
  guard
      (not (
        not (es == 1 || es == 2 || es == 4 || es == 8)
        || not (destination_len == saturating_mul (length offsets) es)))
      BackendErr.invalid_tensor
  check_offsets (length source) es offsets
  ok (gather_rounds vl (length offsets) source es offsets)

-- The loop that `gather_bytes` runs on other processors, and `gather_logical` on a CPU target.
unfoldable pub gather_each : List ℕ → (element_size : ℕ) → List ℕ → Result Fault (List ℕ)
gather_each source es [] = ok []
gather_each source es (offset ∷ offsets) = do
  element ← subslice source offset es
  rest ← gather_each source es offsets
  ok (element ++ rest)
