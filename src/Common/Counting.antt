-- ===== src/Common/Counting.antt =====
-- How often a number stands in a list, and sums over the numbers below a bound.
use Prim.Native.Nat.{ℕ, zero, suc, ◌+◌, ◌≤◌, ◌<◌}
use mathlib.Core.Path.{◌≡◌, refl}
use mathlib.Core.List.{List, [], ◌∷◌, ◌++◌}
use native.Mathlib.Omega.{arith}
use native.Mathlib.Decide.{ℕ_discrete}
use k3x_hera_rt.Common.Tests.{◌==◌, if◌then◌else◌}
use k3x_hera_rt.Common.Lists.{length}

abbrev pub count : ℕ → List ℕ → ℕ
count v [] = 0
count v (node ∷ order) = (if node == v then 1 else 0) + count v order

pub count-append :
    (v : ℕ) (order later : List ℕ) → count v (order ++ later) ≡ count v order + count v later
count-append v [] later = omega arith
count-append v (node ∷ order) later = omega (arith, count-append v order later)

abbrev pub AllBelow : ℕ → List ℕ → Type 0
AllBelow n [] = Unit {0}
AllBelow n (x ∷ xs) = (x < n) × AllBelow n xs

pub AllBelow-append :
    (n : ℕ) (xs ys : List ℕ) → AllBelow n xs → AllBelow n ys → AllBelow n (xs ++ ys)
AllBelow-append n [] ys h k = k
AllBelow-append n (x ∷ xs) ys h k = (h.0, AllBelow-append n xs ys h.1 k)

-- The sum of `f` over the numbers below `n`.
pub sum_below : ℕ → (ℕ → ℕ) → ℕ
sum_below zero f = 0
sum_below (suc n) f = f n + sum_below n f

pub sum_below-zero : (n : ℕ) → sum_below n (λ _. 0) ≡ 0
unfolding sum_below
sum_below-zero zero = refl
sum_below-zero (suc n) = omega (arith, sum_below-zero n)

pub sum_below-add :
    (n : ℕ) (f g : ℕ → ℕ) → sum_below n (λ a. f a + g a) ≡ sum_below n f + sum_below n g
unfolding sum_below
sum_below-add zero f g = refl
sum_below-add (suc n) f g = omega (arith, sum_below-add n f g)

sum_below-indicator_le : (n x : ℕ) → n ≤ x → sum_below n (λ a. if x == a then 1 else 0) ≡ 0
unfolding sum_below
sum_below-indicator_le zero x h = refl
sum_below-indicator_le (suc n) x h = ground (arith, sum_below-indicator_le n x)

sum_below-indicator : (n x : ℕ) → x < n → sum_below n (λ a. if x == a then 1 else 0) ≡ 1
unfolding sum_below
sum_below-indicator zero x h = elim h [ ]
sum_below-indicator (suc n) x h =
    ground (arith, sum_below-indicator n x, sum_below-indicator_le n x)

-- The elements of a list of numbers below `n` are counted once each.
pub sum_below-count :
    (n : ℕ) (xs : List ℕ) → AllBelow n xs → sum_below n (λ a. count a xs) ≡ length xs
sum_below-count n [] h = sum_below-zero n
sum_below-count n (x ∷ xs) h = omega (
  arith,
  sum_below-add n (λ a. if x == a then 1 else 0) (λ a. count a xs),
  sum_below-indicator n x h.0,
  sum_below-count n xs h.1,
)

pub sum_below-le_bound : (n : ℕ) (f : ℕ → ℕ) → ((a : ℕ) → a < n → f a ≤ 1) → sum_below n f ≤ n
unfolding sum_below
sum_below-le_bound zero f h = omega arith
sum_below-le_bound (suc n) f h =
    omega (arith, h n (omega arith), sum_below-le_bound n f (λ a p. h a (omega arith)))

-- If a sum of zeros and ones reaches the bound, each is one.
pub sum_below-full :
    (n : ℕ) (f : ℕ → ℕ)
    → ((a : ℕ) → a < n → f a ≤ 1)
    → n ≤ sum_below n f
    → (a : ℕ) → a < n
    → f a ≡ 1
unfolding sum_below
sum_below-full zero f h e a lt = absurd (omega arith)
sum_below-full (suc n) f h e a lt = elim (ℕ_discrete a n) [
  | yes p ↦ rw p (omega (arith, h n (omega arith), below))
  | no p ↦
      sum_below-full n f (λ b q. h b (omega arith)) (omega (arith, h n (omega arith), below)) a
        (omega arith)
]
  where
    below : sum_below n f ≤ n
    below = sum_below-le_bound n f (λ b q. h b (omega arith))

-- If each is one, the sum is the bound.
pub sum_below-ones : (n : ℕ) (f : ℕ → ℕ) → ((a : ℕ) → a < n → f a ≡ 1) → sum_below n f ≡ n
unfolding sum_below
sum_below-ones zero f h = refl
sum_below-ones (suc n) f h =
    omega (arith, h n (omega arith), sum_below-ones n f (λ b q. h b (omega arith)))
