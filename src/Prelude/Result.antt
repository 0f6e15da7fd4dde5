-- ===== src/Prelude/Result.antt =====
-- A computation that may raise, and the sequencing of such computations.
use mathlib.Core.Path.{◌≡◌, refl}
use mathlib.Core.Bool.{Bool, true, false}

pub data Result {ℓ} (E A : Type ℓ) : Type ℓ where
  ok : A → Result E A
  err : E → Result E A

infixl 5 ◌>>=◌
abbrev pub ◌>>=◌ {ℓ} : {E A B : Type ℓ} → Result E A → (A → Result E B) → Result E B
err e >>= rest = err e
ok x >>= rest = rest x

-- A sequence that succeeds has a first part that succeeds.
pub >>=-eq-ok {ℓ} :
    {E A B : Type ℓ} (first : Result E A) (rest : A → Result E B) {out : B}
    → (first >>= rest) ≡ ok out
    → (x : A) × (first ≡ ok x) × (rest x ≡ ok out)
>>=-eq-ok (err e) rest h = cc
>>=-eq-ok (ok x) rest h = (x, refl, h)

-- The value of a result that is known to have one: for tests.
abbrev pub is_ok {ℓ} : {E A : Type ℓ} → Result E A → Bool
is_ok (ok a) = true
is_ok (err e) = false

abbrev pub value {ℓ} : {E A : Type ℓ} (r : Result E A) → is_ok r ≡ true → A
value (ok a) h = a
value (err e) h = absurd (cc h)

pub eq-value {ℓ} : {E A : Type ℓ} (r : Result E A) (h : is_ok r ≡ true) → r ≡ ok (value r h)
eq-value (ok a) h = refl
eq-value (err e) h = absurd (cc h)
