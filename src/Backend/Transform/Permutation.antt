-- ===== src/Backend/Transform/Permutation.antt =====
-- The loop of `call_transpose` (k3_kernel_backend/src/transform.rs) over the axes: what it accepts is a
-- permutation, and the coordinates that it places are inside the input's dimensions.
use k3x_hera_rt.Common.{
  ℕ, zero, suc, ◌+◌, ◌≤◌, ◌<◌, ◌≡◌, ◌≢◌, refl, sym, ◌∙◌, ap, Bool, true, false, not, ◌||◌, List, [],
  ◌∷◌, ◌++◌, ◌==◌, if◌then◌else◌, length, get_or, set, take, replicate, ok, guard, >>=-eq-ok,
  guard-eq-ok, ok-injective, length-set, length-take, length-append, get_or-set_self, get_or-set_ne,
  ℕ_discrete, arith,
}
use mathlib.Core.Path.{subst}
use k3x_hera_rt.Common.Counting.{count, AllBelow, sum_below-count, sum_below-full}
use k3x_hera_rt.Uabi.Error.{BackendErr}
use k3x_hera_rt.Uabi.Desc.{max_dim}
use k3x_hera_rt.Backend.Call.Offset.{Inside, length-Inside}
use k3x_hera_rt.Backend.Context.{normalize_axis}
use k3x_hera_rt.Backend.Transform.Offsets.{zeros}
use k3x_hera_rt.Backend.Transform.Entries.{permutation_loop, place}

pub axis_below : (axis rank : ℕ) {n : ℕ} → normalize_axis axis rank ≡ ok n → n < rank
unfolding normalize_axis
axis_below axis rank h = ground arith

pub pointwise-Inside :
    (xs ds : List ℕ)
    → length xs ≡ length ds
    → ((j : ℕ) → j < length ds → get_or xs j 0 < get_or ds j 0)
    → Inside xs ds
pointwise-Inside [] [] same h = tt
pointwise-Inside [] (d ∷ ds) same h = absurd (omega arith)
pointwise-Inside (x ∷ xs) [] same h = absurd (omega arith)
pointwise-Inside (x ∷ xs) (d ∷ ds) same h =
    (h 0 (omega arith), pointwise-Inside xs ds (omega arith) (λ j lt. h (suc j) (omega arith)))

pub Inside-get_or :
    (xs ds : List ℕ) (a : ℕ) → Inside xs ds → a < length xs → get_or xs a 0 < get_or ds a 0
Inside-get_or [] ds a h lt = absurd (omega arith)
Inside-get_or (x ∷ xs) [] a h lt = elim h [ ]
Inside-get_or (x ∷ xs) (d ∷ ds) zero h lt = h.0
Inside-get_or (x ∷ xs) (d ∷ ds) (suc a) h lt = Inside-get_or xs ds a h.1 (omega arith)

pub get_or-take : (n : ℕ) (xs : List ℕ) (j : ℕ) → j < n → get_or (take n xs) j 0 ≡ get_or xs j 0
get_or-take zero xs j lt = absurd (omega arith)
get_or-take (suc n) [] j lt = refl
get_or-take (suc n) (x ∷ xs) zero lt = refl
get_or-take (suc n) (x ∷ xs) (suc j) lt = get_or-take n xs j (omega arith)

pub get_or-append : (xs ys : List ℕ) (j : ℕ) → j < length xs → get_or (xs ++ ys) j 0 ≡ get_or xs j 0
get_or-append [] ys j lt = absurd (omega arith)
get_or-append (x ∷ xs) ys zero lt = refl
get_or-append (x ∷ xs) ys (suc j) lt = get_or-append xs ys j (omega arith)

AllBelow-get_or : (n : ℕ) (xs : List ℕ) (a : ℕ) → AllBelow n xs → a < length xs → get_or xs a 0 < n
AllBelow-get_or n [] a h lt = absurd (omega arith)
AllBelow-get_or n (x ∷ xs) zero h lt = h.0
AllBelow-get_or n (x ∷ xs) (suc a) h lt = AllBelow-get_or n xs a h.1 (omega arith)

AllBelow-mono : (n k : ℕ) → n ≤ k → (xs : List ℕ) → AllBelow n xs → AllBelow k xs
AllBelow-mono n k le [] h = tt
AllBelow-mono n k le (x ∷ xs) h = (omega (arith, le, h.0), AllBelow-mono n k le xs h.1)

-- What the loop has established of the axes `p`, from the state `seen` on.
pub record Permuted (rank : ℕ) (shape : List ℕ) (seen : List Bool) (output_dims p : List ℕ)
    : Type 0 where
  pub size : length p ≡ length output_dims
  pub below : AllBelow rank p
  pub once : (v : ℕ) → count v p + (if get_or seen v false then 1 else 0) ≤ 1
  pub fits :
      (a : ℕ) → a < length output_dims → get_or shape (get_or p a 0) 0 ≡ get_or output_dims a 0

seen_once :
    (seen : List Bool) (axis : ℕ) (p : List ℕ)
    → axis < length seen
    → get_or seen axis false ≡ false
    → ((v : ℕ) → count v p + (if get_or (set seen axis true) v false then 1 else 0) ≤ 1)
    → (v : ℕ) → count v (axis ∷ p) + (if get_or seen v false then 1 else 0) ≤ 1
seen_once seen axis p small fresh once v = elim (ℕ_discrete axis v) [
  | yes e ↦ ground (arith, e, get_or-set_self seen axis true false small, fresh, once axis)
  | no ne ↦ ground (arith, get_or-set_ne seen axis v true false ne, once v)
]

axis_test :
    (seen : Bool) (dim size : ℕ)
    → not (seen || not (dim == size)) ≡ true
    → (seen ≡ false) × (dim ≡ size)
axis_test true dim size h = cc
axis_test false dim size h = ground arith

cons_fits :
    (shape p output_dims : List ℕ) (axis dim : ℕ)
    → get_or shape axis 0 ≡ dim
    → ((a : ℕ) → a < length output_dims → get_or shape (get_or p a 0) 0 ≡ get_or output_dims a 0)
    → (a : ℕ) → a < length (dim ∷ output_dims)
    → get_or shape (get_or (axis ∷ p) a 0) 0 ≡ get_or (dim ∷ output_dims) a 0
cons_fits shape p output_dims axis dim e rest zero below = e
cons_fits shape p output_dims axis dim e rest (suc a) below = rest a (omega arith)

pub permutation_loop-Permuted :
    (rank : ℕ) (shape : List ℕ) (seen : List Bool) (perm output_dims p : List ℕ)
    → rank ≤ length seen
    → length perm ≡ length output_dims
    → permutation_loop rank shape seen perm output_dims ≡ ok p
    → Permuted rank shape seen output_dims p
unfolding permutation_loop
permutation_loop-Permuted rank shape seen [] [] p few same h =
    subst (Permuted rank shape seen []) (ok-injective h) (record {
      size = refl;
      below = tt;
      once = λ v. ground arith;
      fits = λ a lt. absurd (omega (arith, lt));
    })
permutation_loop-Permuted rank shape seen [] (d ∷ ds) p few same h = absurd (omega arith)
permutation_loop-Permuted rank shape seen (a ∷ perm) [] p few same h = absurd (omega arith)
permutation_loop-Permuted rank shape seen (axis ∷ perm) (dim ∷ ds) p few same h =
    let (n, e1, h1) = >>=-eq-ok (normalize_axis axis rank) _ h in
    let (_, e2, h2) =
      >>=-eq-ok
        (guard (not (get_or seen n false || not (dim == get_or shape n 0))) BackendErr.invalid_attr)
        _ h1 in
    let (rest, e3, h3) = >>=-eq-ok (permutation_loop rank shape (set seen n true) perm ds) _ h2 in
    let below = axis_below axis rank e1 in
    let (fresh, fits) =
      axis_test (get_or seen n false) dim (get_or shape n 0) (guard-eq-ok _ _ e2) in
    let r =
      permutation_loop-Permuted rank shape (set seen n true) perm ds rest
        (omega (arith, length-set seen n true, few)) (omega arith) e3 in
    subst (Permuted rank shape seen (dim ∷ ds)) (ok-injective h3) (record {
      size = ap suc r.size;
      below = (below, r.below);
      once = seen_once seen n rest (omega (arith, below, few)) fresh r.once;
      fits = cons_fits shape rest ds n dim (sym fits) r.fits;
    })

-- An axis that stands in a list of axes has an index there.
index_of : (v : ℕ) (p : List ℕ) → count v p ≡ 1 → (a : ℕ) × (a < length p) × (get_or p a 0 ≡ v)
index_of v [] h = absurd (omega arith)
index_of v (x ∷ p) h = elim (ℕ_discrete x v) [
  | yes e ↦ (0, omega arith, e)
  | no ne ↦ let (a, below, at) = index_of v p (ground arith) in (suc a, omega arith, at)
]

place_absent :
    (p coords placed : List ℕ) (v : ℕ)
    → count v p ≡ 0
    → get_or (place p coords placed) v 0 ≡ get_or placed v 0
unfolding place
place_absent [] coords placed v h = refl
place_absent (x ∷ p) [] placed v h = refl
place_absent (x ∷ p) (c ∷ coords) placed v h =
    let ne : x ≢ v = λ e. ground arith in
    place_absent p coords (set placed x c) v (ground arith) ∙ get_or-set_ne placed x v c 0 ne

length-place : (p coords placed : List ℕ) → length (place p coords placed) ≡ length placed
unfolding place
length-place [] coords placed = refl
length-place (x ∷ p) [] placed = refl
length-place (x ∷ p) (c ∷ coords) placed =
    length-place p coords (set placed x c) ∙ length-set placed x c

place_at :
    (p coords placed : List ℕ)
    → AllBelow (length placed) p
    → ((v : ℕ) → count v p ≤ 1)
    → (a : ℕ) → a < length p
    → a < length coords
    → get_or (place p coords placed) (get_or p a 0) 0 ≡ get_or coords a 0
unfolding place
place_at [] coords placed below once a lt lt' = absurd (omega arith)
place_at (x ∷ p) [] placed below once a lt lt' = absurd (omega arith)
place_at (x ∷ p) (c ∷ coords) placed below once zero lt lt' =
    place_absent p coords (set placed x c) x (ground (arith, once x))
    ∙ get_or-set_self placed x c 0 below.0
place_at (x ∷ p) (c ∷ coords) placed below once (suc a) lt lt' =
    place_at p coords (set placed x c) (rw (length-set placed x c) below.1)
      (λ v. omega (arith, once v)) a (omega arith) (omega arith)

-- The source coordinates of an element of a transposed output.
abbrev pub Transposed : (permutation coords source : List ℕ) → Type 0
Transposed permutation coords source =
    (a : ℕ) → a < length coords → get_or source (get_or permutation a 0) 0 ≡ get_or coords a 0

-- The coordinates that the axes place are inside the dimensions of the input.
pub placed_Inside :
    (rank : ℕ) (shape p coords rest output_dims : List ℕ)
    → rank ≤ length shape
    → rank ≤ max_dim
    → length output_dims ≡ rank
    → Permuted rank shape (replicate max_dim false) output_dims p
    → Inside coords output_dims
    → Inside (take rank (place p (coords ++ rest) zeros)) (take rank shape)
      × Transposed p coords (take rank (place p (coords ++ rest) zeros))
placed_Inside rank shape p coords rest output_dims long few sized r inside =
    (pointwise-Inside _ _ lengths at_axis, at_coordinate)
  where
    full : length coords ≡ rank
    full = length-Inside coords output_dims inside ∙ sized

    placed : List ℕ
    placed = place p (coords ++ rest) zeros

    lengths : length (take rank placed) ≡ length (take rank shape)
    lengths = omega (
      arith,
      length-take rank placed,
      length-take rank shape,
      length-place p (coords ++ rest) zeros,
      few,
      long,
    )

    below_eight : AllBelow max_dim p
    below_eight = AllBelow-mono rank max_dim few p r.below

    at_coordinate : Transposed p coords (take rank placed)
    at_coordinate a lt =
        let small : get_or p a 0 < rank =
          AllBelow-get_or rank p a r.below (omega (arith, r.size, lt, full, sized)) in
        get_or-take rank placed (get_or p a 0) small
        ∙ place_at p (coords ++ rest) zeros below_eight (λ v. omega (arith, r.once v)) a
            (omega (arith, r.size, lt, full, sized)) (omega (arith, length-append coords rest, lt))
        ∙ get_or-append coords rest a lt

    at_axis :
        (j : ℕ)
        → j < length (take rank shape)
        → get_or (take rank placed) j 0 < get_or (take rank shape) j 0
    at_axis j lt =
        let small : j < rank = omega (arith, lt, length-take rank shape) in
        let once : count j p ≡ 1 =
          sum_below-full rank (λ v. count v p) (λ v _. omega (arith, r.once v))
            (omega (arith, sum_below-count rank p r.below, r.size, sized)) j small in
        let (a, inside_p, at) = index_of j p once in
        let here : a < length coords = omega (arith, inside_p, r.size, full, sized) in
        let value : get_or (take rank placed) j 0 ≡ get_or coords a 0 =
          ap (λ k. get_or (take rank placed) k 0) (sym at) ∙ at_coordinate a here in
        let bound : get_or coords a 0 < get_or output_dims a 0 =
          Inside-get_or coords output_dims a inside here in
        let shape_at : get_or shape j 0 ≡ get_or output_dims a 0 =
          ap (λ k. get_or shape k 0) (sym at) ∙ r.fits a (omega (arith, here, full, sized)) in
        omega (arith, value, bound, shape_at, get_or-take rank shape j small)
