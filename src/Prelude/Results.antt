-- ===== src/Prelude/Results.antt =====
-- Fallible code: `Result<A, E>` of the source, with the bind that its `?` stands for.
use mathlib.Core.Path.{◌≡◌, refl}
use mathlib.Core.Logic.{◌⊎◌, inl, inr}
use mathlib.Core.Option.{Option, none, some}

pub data Result {ℓ} (A E : Type ℓ) : Type ℓ where
  ok : A → Result A E
  err : E → Result A E

infixl 5 ◌>>=◌
abbrev pub ◌>>=◌ {ℓ} : {A B E : Type ℓ} → Result A E → (A → Result B E) → Result B E
ok a >>= f = f a
err e >>= f = err e

-- `ok_or_else`.
abbrev pub ok_or {ℓ} : {A E : Type ℓ} → Option A → E → Result A E
ok_or none e = err e
ok_or (some a) e = ok a

-- The conversion that `?` makes of an error.
abbrev pub map_err {ℓ} : {A E F : Type ℓ} → (E → F) → Result A E → Result A F
map_err f (ok a) = ok a
map_err f (err e) = err (f e)

-- Inversion of a successful bind.
pub >>=-eq-ok {ℓ} :
    {A B E : Type ℓ} (first : Result A E) (rest : A → Result B E) {done : B}
    → (first >>= rest) ≡ ok done
    → (x : A) × (first ≡ ok x) × (rest x ≡ ok done)
>>=-eq-ok (err failure) rest h = cc
>>=-eq-ok (ok x) rest h = (x, refl, h)

pub Result-cases {ℓ} :
    {A E : Type ℓ} (r : Result A E) → ((a : A) × (r ≡ ok a)) ⊎ ((e : E) × (r ≡ err e))
Result-cases (ok a) = inl (a, refl)
Result-cases (err e) = inr (e, refl)
