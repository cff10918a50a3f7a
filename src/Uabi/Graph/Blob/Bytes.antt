-- ===== src/Uabi/Graph/Blob/Bytes.antt =====
-- Images in a byte buffer, written one behind the other and read back (k3_aiUabi/src/graph.rs,
-- `append_repr_slice`, `pad_to`, `read_repr_at`, `read_repr_vec`).
use k3x_hera_rt.Common.{
  ℕ, zero, suc, ◌+◌, ◌-◌, ◌*◌, ◌%◌, ◌<◌, ◌≡◌, refl, sym, ◌∙◌, ap, List, [], ◌∷◌, ◌++◌, length, take,
  drop, replicate, ok, arith, length-append, usize_mod, u32_mod, lt→ltb, not-ltb, ◌>>=◌,
}
use native.Mathlib.Nat.{add-mod-mod, mod-add-mod, mod_self, mod-lt}
use mathlib.Core.List.{append-nil, append_assoc}
use k3x_hera_rt.Uabi.Graph.Blob.{
  Repr, append_repr_slice, read_repr_at, read_items, read_repr_vec, pad_to,
}

module _ {ℓ} {A : Type ℓ} where
  pub drop-append : (n : ℕ) (xs ys : List A) → n ≡ length xs → drop n (xs ++ ys) ≡ ys
  drop-append zero [] ys e = refl
  drop-append zero (x ∷ xs) ys e = absurd (omega arith)
  drop-append (suc n) [] ys e = absurd (omega arith)
  drop-append (suc n) (x ∷ xs) ys e = drop-append n xs ys (omega arith)

  pub take-append : (n : ℕ) (xs ys : List A) → n ≡ length xs → take n (xs ++ ys) ≡ xs
  take-append zero [] ys e = refl
  take-append zero (x ∷ xs) ys e = absurd (omega arith)
  take-append (suc n) [] ys e = absurd (omega arith)
  take-append (suc n) (x ∷ xs) ys e = ap (λ l. x ∷ l) (take-append n xs ys (omega arith))

abbrev pub All {ℓ κ} : {A : Type ℓ} → (A → Type κ) → List A → Type κ
All P [] = Unit
All P (x ∷ xs) = P x × All P xs

aligned : (l a : ℕ) → 0 < a → (l + (a - l % a) % a) % a ≡ 0
aligned l a h =
    add-mod-mod l (a - l % a) a
    ∙ sym (mod-add-mod l a (a - l % a))
    ∙ ap (λ k. k % a) whole
    ∙ mod_self a
  where
    whole : l % a + (a - l % a) ≡ a
    whole = omega (arith, mod-lt l h)

-- A successful `pad_to` appends zeros up to an aligned length below 2^32.
pub pad_to_lem :
    (bytes padded : List ℕ) (align offset : ℕ)
    → pad_to bytes align ≡ ok (padded, offset)
    → (p : ℕ) × (padded ≡ bytes ++ replicate p 0)
      × (offset ≡ length bytes + p)
      × (offset < u32_mod)
      × (0 < align → offset % align ≡ 0)
unfolding pad_to
pad_to_lem bytes padded align offset h = (
  (align - length bytes % align) % align,
  ground arith,
  offset_of h,
  ground arith,
  λ pos. rw (offset_of h) (aligned (length bytes) align pos),
)
  where
    offset_of :
        pad_to bytes align ≡ ok (padded, offset)
        → offset ≡ length bytes + (align - length bytes % align) % align
    offset_of k = ground arith

module _ {T : Type 0} (r : Repr T) where
  open r use {size, image, read, Fits, length-image, read-image}

  abbrev pub images : List T → List ℕ
  images [] = []
  images (x ∷ xs) = image x ++ images xs

  pub length-images : (xs : List T) → length (images xs) ≡ length xs * size
  length-images [] = omega arith
  length-images (x ∷ xs) =
      omega (arith, length-append (image x) (images xs), length-image x, length-images xs)

  pub append_repr_slice_lem :
      (bytes : List ℕ) (xs : List T) → append_repr_slice r bytes xs ≡ bytes ++ images xs
  unfolding append_repr_slice
  append_repr_slice_lem bytes [] = rw append-nil refl
  append_repr_slice_lem bytes (x ∷ xs) =
      append_repr_slice_lem (bytes ++ image x) xs ∙ append_assoc bytes (image x) (images xs)

  -- A value is read back from where its image stands.
  pub read_repr_at_lem :
      (pre post : List ℕ) (x : T) (offset : ℕ)
      → offset ≡ length pre
      → Fits x
      → offset + size < usize_mod
      → read_repr_at r (pre ++ (image x ++ post)) offset ≡ ok x
  unfolding read_repr_at
  read_repr_at_lem pre post x offset e fits small = rw (lt→ltb (offset + size) usize_mod small) (
      rw
        (not-ltb (length (pre ++ (image x ++ post))) (offset + size) (
          omega (
            arith,
            length-append pre (image x ++ post),
            length-append (image x) post,
            length-image x,
            e,
          )))
        (ap ok (
          ap (λ l. read (take size l)) (drop-append offset pre (image x ++ post) e)
          ∙ ap read (take-append size (image x) post (sym (length-image x)))
          ∙ read-image x fits)))

  read_items_lem :
      (pre : List ℕ) (from : ℕ) (xs : List T)
      → length pre ≡ from * size
      → All Fits xs
      → (from + length xs) * size < usize_mod
      → read_items r (pre ++ images xs) from (length xs) ≡ ok xs
  unfolding read_items
  read_items_lem pre from [] e fits small = refl
  read_items_lem pre from (x ∷ xs) e fits small =
      let rest =
        read_items_lem (pre ++ image x) (from + 1) xs
          (omega (arith, length-append pre (image x), length-image x, e)) fits.1
          (omega (arith, small)) in
      rw (read_repr_at_lem pre (images xs) x (from * size) (sym e) fits.0 (omega (arith, small)))
        (rw (rw append_assoc at rest, ◌>>=◌) refl)

  -- A buffer of images is read back as the values.
  pub read_repr_vec_lem :
      (xs : List T)
      → All Fits xs
      → length xs * size < usize_mod
      → read_repr_vec r (images xs) (length xs) ≡ ok xs
  unfolding read_repr_vec
  read_repr_vec_lem xs fits small = rw (lt→ltb (length xs * size) usize_mod small) (
      rw (not-ltb (length (images xs)) (length xs * size) (omega (arith, length-images xs)))
        (read_items_lem [] 0 xs (omega arith) fits (omega (arith, small))))
