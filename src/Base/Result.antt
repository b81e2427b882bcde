-- ===== src/Base/Result.antt =====
-- Go's `(value, error)` pairs, where the value is only used when the error is nil.
use mathlib.Core.Path.{◌≡◌, refl}
use mathlib.Core.Logic.{◌⊎◌, inl, inr}

pub data Result {ℓ} (E A : Type ℓ) : Type ℓ where
  ok : A → Result E A
  err : E → Result E A

infixl 5 ◌>>=◌
abbrev pub ◌>>=◌ {ℓ} : {E A B : Type ℓ} → Result E A → (A → Result E B) → Result E B
ok a >>= f = f a
err e >>= f = err e

pub >>=-eq-ok {ℓ} :
    {E A B : Type ℓ} (first : Result E A) (next : A → Result E B) {out : B}
    → (first >>= next) ≡ ok out
    → (mid : A) × (first ≡ ok mid) × (next mid ≡ ok out)
>>=-eq-ok (err failure) next returned = cc
>>=-eq-ok (ok mid) next returned = (mid, refl, returned)

pub ok_inj {ℓ} : {E A : Type ℓ} {a b : A} → ◌≡◌ {A = Result E A} (ok a) (ok b) → a ≡ b
ok_inj h = cc

-- A first step comes before two others in the same way.
pub >>=-through {ℓ} :
    {E A B C : Type ℓ} (m : Result E A) {x : Result E C} (y : Result E B) (k : B → Result E C)
    → x ≡ (y >>= k)
    → (m >>= λ _. x) ≡ ((m >>= λ _. y) >>= k)
>>=-through (ok a) y k h = h
>>=-through (err e) y k h = refl

pub Result-cases {ℓ} :
    {E A : Type ℓ} (m : Result E A) → ((a : A) × (m ≡ ok a)) ⊎ ((e : E) × (m ≡ err e))
Result-cases (ok a) = inl (a, refl)
Result-cases (err e) = inr (e, refl)
