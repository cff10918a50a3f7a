-- ===== src/Common/Results.antt =====
-- `Result<A, E>` with `do` blocks, and `ok_or`.
use mathlib.Core.Path.{◌≡◌, refl, ap}
use mathlib.Core.Logic.{◌⊎◌, inl, inr}
use mathlib.Core.Bool.{Bool, true, false}
use mathlib.Core.Option.{Option, none, some}

pub data Result {ℓ} (E : Type 0) (A : Type ℓ) : Type ℓ where
  ok : A → Result E A
  err : E → Result E A

-- `?` after a call whose value is used, and after one without a value.
infixl 5 ◌>>=◌ ◌>>◌
abbrev pub ◌>>=◌ {κ ℓ} :
    {E : Type 0} {A : Type κ} {B : Type ℓ} → Result E A → (A → Result E B) → Result E B
err failure >>= next = err failure
ok value >>= next = next value

abbrev pub ◌>>◌ {κ} : {E : Type 0} {B : Type κ} → Result E (Unit {0}) → Result E B → Result E B
first >> rest = first >>= λ done. rest

-- `Option::ok_or`, and `map_err(|_| e)` after a conversion.
abbrev pub ok_or {ℓ} : {E : Type 0} {A : Type ℓ} → Option A → E → Result E A
ok_or none e = err e
ok_or (some a) e = ok a

-- `if !b { return Err(e) }`
abbrev pub guard : {E : Type 0} → Bool → E → Result E (Unit {0})
guard false failure = err failure
guard true failure = ok tt

pub >>=-eq-ok {ℓ κ} :
    {E : Type 0} {A : Type ℓ} {B : Type κ} (call : Result E A) (next : A → Result E B) {out : B}
    → (call >>= next) ≡ ok out
    → (value : A) × (call ≡ ok value) × (next value ≡ ok out)
>>=-eq-ok (err failure) next h = cc
>>=-eq-ok (ok value) next h = (value, refl, h)

pub >>=-eq-err {ℓ κ} :
    {E : Type 0} {A : Type ℓ} {B : Type κ} (call : Result E A) (next : A → Result E B) {e : E}
    → (call >>= next) ≡ err e
    → (call ≡ err e) ⊎ ((value : A) × (call ≡ ok value) × (next value ≡ err e))
>>=-eq-err (err failure) next h = inl (cc h)
>>=-eq-err (ok value) next h = inr (value, refl, h)

pub ok_or-eq-err {ℓ} :
    {E : Type 0} {A : Type ℓ} (o : Option A) (failure : E) {e : E}
    → ok_or o failure ≡ err e
    → e ≡ failure
ok_or-eq-err none failure h = cc
ok_or-eq-err (some a) failure h = cc

-- To split on a computed result without a value.
pub Result-cases : {E : Type 0} (r : Result E (Unit {0})) → (r ≡ ok tt) ⊎ ((e : E) × (r ≡ err e))
Result-cases (ok tt) = inl refl
Result-cases (err e) = inr (e, refl)

-- The state of an outcome that carries a state.
pub some-fst {ℓ κ} :
    {A : Type ℓ} {B : Type κ} (a b : A) (r s : B)
    → ◌≡◌ {A = Option (A × B)} (some (a, r)) (some (b, s))
    → a ≡ b
some-fst {A} {B} a b r s h = ap (λ (o : Option (A × B)). elim o [ none ↦ a | some p ↦ p.0 ]) h

pub ok-injective {ℓ} :
    {E : Type 0} {A : Type ℓ} {a b : A} → ◌≡◌ {A = Result E A} (ok a) (ok b) → a ≡ b
ok-injective h = cc

pub guard-eq-ok : {E : Type 0} (b : Bool) (e : E) {u : Unit {0}} → guard b e ≡ ok u → b ≡ true
guard-eq-ok true e h = refl
guard-eq-ok false e h = cc

-- `Result::map_err` with a closure that forgets the error.
abbrev pub map_err {ℓ} : {E F : Type 0} {A : Type ℓ} → Result E A → F → Result F A
map_err (ok a) e = ok a
map_err (err _) e = err e

pub map_err-eq-ok {ℓ} :
    {E F : Type 0} {A : Type ℓ} (m : Result E A) (f : F) {a : A} → map_err m f ≡ ok a → m ≡ ok a
map_err-eq-ok (ok a) f h = cc
map_err-eq-ok (err e) f h = cc

pub ok_or-eq-ok {ℓ} :
    {E : Type 0} {A : Type ℓ} (o : Option A) (e : E) {a : A} → ok_or o e ≡ ok a → o ≡ some a
ok_or-eq-ok none e h = cc
ok_or-eq-ok (some a) e h = cc

pub some-injective {ℓ} : {A : Type ℓ} {a b : A} → some a ≡ some b → a ≡ b
some-injective h = cc
