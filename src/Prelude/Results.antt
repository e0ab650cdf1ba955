-- ===== src/Prelude/Results.antt =====
-- What a Go call may end in: a result, a returned error, or a run-time panic.
use mathlib.Core.Path.{◌≡◌, refl}

pub data Outcome {ℓ κ} (E : Type ℓ) (A : Type κ) : Type (ℓ ⊔ κ) where
  ok : A → Outcome E A
  err : E → Outcome E A
  panics : Outcome E A

infixl 5 ◌>>=◌
abbrev pub ◌>>=◌ {ℓ κ ι} :
    {E : Type ℓ} {A : Type κ} {B : Type ι} → Outcome E A → (A → Outcome E B) → Outcome E B
ok a >>= f = f a
err e >>= f = err e
panics >>= f = panics

pub >>=-eq-ok {ℓ κ ι} :
    {E : Type ℓ} {A : Type κ} {B : Type ι} (first : Outcome E A) (next : A → Outcome E B) {v : B}
    → (first >>= next) ≡ ok v
    → (x : A) × (first ≡ ok x) × (next x ≡ ok v)
>>=-eq-ok (ok x) next e = (x, refl, e)
>>=-eq-ok panics next e = cc
>>=-eq-ok (err y) next e = cc

pub ok-injective {ℓ κ} :
    {E : Type ℓ} {A : Type κ} {a b : A} → ◌≡◌ {A = Outcome E A} (ok a) (ok b) → a ≡ b
ok-injective h = cc

pub >>=_assoc {ℓ κ ι υ} :
    {E : Type ℓ} {A : Type κ} {B : Type ι} {C : Type υ} (m : Outcome E A) (f : A → Outcome E B)
    (g : B → Outcome E C)
    → (m >>= f >>= g) ≡ (m >>= λ a. f a >>= g)
>>=_assoc (ok a) f g = refl
>>=_assoc (err e) f g = refl
>>=_assoc panics f g = refl
