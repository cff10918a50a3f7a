-- ===== src/Backend/Call/Scan.antt =====
-- What a successful `checked_meta` (k3_kernel_backend/src/call.rs) has established of a view.
use k3x_hera_rt.Common.{
  ℕ, suc, ◌+◌, ◌-◌, ◌*◌, ◌/◌, ◌%◌, ◌<◌, ◌≡◌, refl, sym, ◌∙◌, ap, ap₂, true, not, ◌&&◌, some, List,
  [], ◌∷◌, ltb, ◌==◌, length, checked_add, checked_mul, usize_mod, ok, ok_or, map_err, guard,
  >>=-eq-ok, map_err-eq-ok, ok_or-eq-ok, guard-eq-ok, ok-injective, arith,
}
use native.Mathlib.Nat.{mul_left_comm, mul_assoc, mul-add, mod-eq-sub-mul-div, mul-div-le}
use mathlib.Core.Path.{subst}
use k3x_hera_rt.Uabi.Types.{try_as_usize}
use k3x_hera_rt.Uabi.Error.{BackendErr}
use k3x_hera_rt.Backend.Call.{AxisScan, scan_axes, put_axis}

abbrev pub product : List ℕ → ℕ
product [] = 1
product (dim ∷ dims) = dim * product dims

-- The largest element offset: every coordinate at its last value.
abbrev pub extent : (dims strides : List ℕ) → ℕ
extent (dim ∷ dims) (stride ∷ strides) = (dim - 1) * stride + extent dims strides
extent dims strides = 0

pub try_as_usize-eq-ok : (raw : ℕ) {n : ℕ} → try_as_usize raw ≡ ok n → (raw ≡ n) × (n < usize_mod)
unfolding try_as_usize
try_as_usize-eq-ok raw h = ground arith

pub checked_mul-eq-some :
    (a b : ℕ) {c : ℕ} → checked_mul a b ≡ some c → (c ≡ a * b) × (c < usize_mod)
checked_mul-eq-some a b h = ground arith

pub checked_add-eq-some :
    (a b : ℕ) {c : ℕ} → checked_add a b ≡ some c → (c ≡ a + b) × (c < usize_mod)
checked_add-eq-some a b h = ground arith

divides_lem : (n es : ℕ) → (n % es == 0) ≡ true → es * (n / es) ≡ n
divides_lem n es h =
    let r : n % es ≡ 0 = ground arith in omega (arith, mod-eq-sub-mul-div n es, mul-div-le n es, r)

-- A scan from `element_count` and `max_offset` on.
pub record Scanned (es count offset : ℕ) (dims strides : List ℕ) (s : AxisScan) : Type 0 where
  pub shape : s.shape ≡ dims
  pub strides_length : length s.strides ≡ length strides
  pub element_count : s.element_count ≡ count * product s.shape
  pub max_offset : s.max_offset ≡ offset + es * extent s.shape s.strides

extend :
    {es count offset d b dim quotient count' span offset' : ℕ} {dims strides : List ℕ}
    {rest : AxisScan}
    → dim ≡ d
    → count' ≡ count * dim
    → span ≡ (dim - 1) * (es * quotient)
    → offset' ≡ offset + span
    → Scanned es count' offset' dims strides rest
    → Scanned es count offset (d ∷ dims) (b ∷ strides) (put_axis dim quotient rest)
extend {es} {count} {offset} {d} {b} {dim} {quotient} {count'} {span} {offset'} {dims} {strides}
      {rest} raw whole spans sum r =
    record {
      shape = ap₂ (λ x xs. x ∷ xs) raw r.shape;
      strides_length = ap suc r.strides_length;
      element_count =
          r.element_count
          ∙ ap (λ x. x * product rest.shape) whole
          ∙ mul_assoc count dim (product rest.shape);
      max_offset = omega (
        arith,
        r.max_offset,
        sum,
        spans,
        mul_left_comm (dim - 1) es quotient,
        mul-add es ((dim - 1) * quotient) (extent rest.shape rest.strides),
      );
    }

pub scan_axes-Scanned :
    (es count offset : ℕ) (dims strides : List ℕ) (s : AxisScan)
    → length dims ≡ length strides
    → scan_axes es count offset dims strides ≡ ok s
    → Scanned es count offset dims strides s
unfolding scan_axes
scan_axes-Scanned es count offset [] [] s same h =
    subst (Scanned es count offset [] []) (ok-injective h) (record {
      shape = refl;
      strides_length = refl;
      element_count = omega arith;
      max_offset = omega arith;
    })
scan_axes-Scanned es count offset [] (b ∷ strides) s same h = absurd (omega arith)
scan_axes-Scanned es count offset (d ∷ dims) [] s same h = absurd (omega arith)
scan_axes-Scanned es count offset (d ∷ dims) (b ∷ strides) s same h =
    let (dim, e1, h1) = >>=-eq-ok (map_err (try_as_usize d) BackendErr.invalid_tensor) _ h in
    let (stride, e2, h2) = >>=-eq-ok (map_err (try_as_usize b) BackendErr.invalid_tensor) _ h1 in
    let (_, e3, h3) = >>=-eq-ok (guard (stride % es == 0) BackendErr.invalid_tensor) _ h2 in
    let (count', e4, h4) =
      >>=-eq-ok (ok_or (checked_mul count dim) BackendErr.invalid_tensor) _ h3 in
    let (_, e5, h5) =
      >>=-eq-ok (guard (not (ltb 1 dim && stride / es == 0)) BackendErr.invalid_tensor) _ h4 in
    let (span, e6, h6) =
      >>=-eq-ok (ok_or (checked_mul (dim - 1) stride) BackendErr.invalid_tensor) _ h5 in
    let (offset', e7, h7) =
      >>=-eq-ok (ok_or (checked_add offset span) BackendErr.invalid_tensor) _ h6 in
    let (rest, e8, h8) = >>=-eq-ok (scan_axes es count' offset' dims strides) _ h7 in
    let (raw, _) = try_as_usize-eq-ok d (map_err-eq-ok (try_as_usize d) _ e1) in
    let (whole, _) = checked_mul-eq-some count dim (ok_or-eq-ok (checked_mul count dim) _ e4) in
    let (spans, _) =
      checked_mul-eq-some (dim - 1) stride (ok_or-eq-ok (checked_mul (dim - 1) stride) _ e6) in
    let (sum, _) = checked_add-eq-some offset span (ok_or-eq-ok (checked_add offset span) _ e7) in
    subst (Scanned es count offset (d ∷ dims) (b ∷ strides)) (ok-injective h8) (
      extend (sym raw) whole
        (spans ∙ ap (λ x. (dim - 1) * x) (sym (divides_lem stride es (guard-eq-ok _ _ e3)))) sum
        (scan_axes-Scanned es count' offset' dims strides rest (omega (arith, same)) e8))
