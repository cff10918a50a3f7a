-- ===== src/Backend/Transform/Chunks.antt =====
-- Elements of several bytes in a list of bytes: windows, and the bytes that a gather
-- (k3_kernel_backend/src/transform.rs) puts one behind the other.
use k3x_hera_rt.Common.{
  ℕ, zero, suc, ◌+◌, ◌*◌, ◌-◌, ◌≤◌, ◌<◌, ◌≡◌, refl, sym, ◌∙◌, ap, List, [], ◌∷◌, ◌++◌, length, take,
  drop, get_or, length-append, length-take, length-drop, arith,
}
use native.Mathlib.Nat.{suc-mul}
use k3x_hera_rt.Backend.Vector.{window, gathered}
use k3x_hera_rt.Backend.Vector.Rounds.{InBounds}

module _ {ℓ} {A : Type ℓ} where
  take-append_of_le : (n : ℕ) (xs ys : List A) → n ≤ length xs → take n (xs ++ ys) ≡ take n xs
  take-append_of_le zero xs ys h = refl
  take-append_of_le (suc n) [] ys h = absurd (omega arith)
  take-append_of_le (suc n) (x ∷ xs) ys h =
      ap (λ zs. x ∷ zs) (take-append_of_le n xs ys (omega arith))

  drop-append_of_le : (n : ℕ) (xs ys : List A) → n ≤ length xs → drop n (xs ++ ys) ≡ drop n xs ++ ys
  drop-append_of_le zero xs ys h = refl
  drop-append_of_le (suc n) [] ys h = absurd (omega arith)
  drop-append_of_le (suc n) (x ∷ xs) ys h = drop-append_of_le n xs ys (omega arith)

  pub drop-append_add : (xs ys : List A) (n : ℕ) → drop (length xs + n) (xs ++ ys) ≡ drop n ys
  drop-append_add [] ys n = ap (λ k. drop k ys) (omega arith)
  drop-append_add (x ∷ xs) ys n =
      let e : suc (length xs) + n ≡ suc (length xs + n) = omega arith in
      ap (λ k. drop k (x ∷ (xs ++ ys))) e ∙ drop-append_add xs ys n

  take-take : (n k : ℕ) (xs : List A) → n ≤ k → take n (take k xs) ≡ take n xs
  take-take zero k xs h = refl
  take-take (suc n) zero xs h = absurd (omega arith)
  take-take (suc n) (suc k) [] h = refl
  take-take (suc n) (suc k) (x ∷ xs) h = ap (λ ys. x ∷ ys) (take-take n k xs (omega arith))

  take-nil : (n : ℕ) → take {A = A} n [] ≡ []
  take-nil zero = refl
  take-nil (suc n) = refl

  drop-take : (n k : ℕ) (xs : List A) → drop n (take (n + k) xs) ≡ take k (drop n xs)
  drop-take zero k xs = ap (λ i. take i xs) (omega arith)
  drop-take (suc n) k [] = ap (drop (suc n)) (take-nil (suc n + k)) ∙ sym (take-nil k)
  drop-take (suc n) k (x ∷ xs) =
      let e : suc n + k ≡ suc (n + k) = omega arith in
      ap (λ i. drop (suc n) (take i (x ∷ xs))) e ∙ drop-take n k xs

-- A window inside a prefix is a window of the whole.
pub window-take :
    (xs : List ℕ) (size start count : ℕ)
    → start + count ≤ size
    → window (take size xs) start count ≡ window xs start count
window-take xs size start count h =
    let e : size ≡ start + (size - start) = omega (arith, h) in
    ap (λ i. window (take i xs) start count) e
    ∙ ap (take count) (drop-take start (size - start) xs)
    ∙ take-take count (size - start) (drop start xs) (omega (arith, h))

pub window-append :
    (xs ys : List ℕ) (start count : ℕ)
    → start + count ≤ length xs
    → window (xs ++ ys) start count ≡ window xs start count
window-append xs ys start count h =
    ap (take count) (drop-append_of_le start xs ys (omega (arith, h)))
    ∙ take-append_of_le count (drop start xs) ys (omega (arith, h, length-drop start xs))

pub length-window :
    (xs : List ℕ) (start count : ℕ)
    → start + count ≤ length xs
    → length (window xs start count) ≡ count
length-window xs start count h =
    omega (arith, h, length-take count (drop start xs), length-drop start xs)

pub length-gathered :
    (source : List ℕ) (es : ℕ) (offsets : List ℕ)
    → InBounds (length source) es offsets
    → length (gathered source es offsets) ≡ length offsets * es
length-gathered source es [] h = omega arith
length-gathered source es (o ∷ offsets) h = omega (
  arith,
  length-append (window source o es) (gathered source es offsets),
  length-window source o es h.0,
  length-gathered source es offsets h.1,
  suc-mul (length offsets) es,
)

-- The element at index `i` of the gathered bytes is the one at the `i`-th offset.
pub window-gathered :
    (source : List ℕ) (es : ℕ) (offsets : List ℕ) (i : ℕ)
    → InBounds (length source) es offsets
    → i < length offsets
    → window (gathered source es offsets) (i * es) es ≡ window source (get_or offsets i 0) es
window-gathered source es [] i h below = absurd (omega arith)
window-gathered source es (o ∷ offsets) zero h below =
    let first = length-window source o es h.0 in
    ap (λ s. window (gathered source es (o ∷ offsets)) s es) {y = 0} (omega arith)
    ∙ window-append (window source o es) (gathered source es offsets) 0 es (omega (arith, first))
    ∙ take-take es es (drop o source) (omega arith)
window-gathered source es (o ∷ offsets) (suc i) h below =
    let first = length-window source o es h.0 in
    ap (λ s. window (gathered source es (o ∷ offsets)) s es)
      {y = length (window source o es) + i * es} (omega (arith, suc-mul i es, first))
    ∙ ap (take es) (drop-append_add (window source o es) (gathered source es offsets) (i * es))
    ∙ window-gathered source es offsets i h.1 (omega arith)
