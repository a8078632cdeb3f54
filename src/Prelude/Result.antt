-- ===== src/Prelude/Result.antt =====
-- Fallible code: a Go pair of a value and an error is a value or an error.
use mathlib.Core.Path.{◌≡◌, refl, subst}
use mathlib.Core.Logic.{◌⊎◌, inl, inr}

pub data Result {ℓ κ} (E : Type ℓ) (A : Type κ) : Type (ℓ ⊔ κ) where
  err : E → Result E A
  ok : A → Result E A

-- `errors.Wrap` and the like.
abbrev pub map_err {ℓ κ μ} :
    {E : Type ℓ} {F : Type κ} {A : Type μ} → (E → F) → Result E A → Result F A
map_err wrap (err e) = err (wrap e)
map_err wrap (ok value) = ok value

infixl 5 ◌>>=◌
abbrev pub ◌>>=◌ {ℓ κ μ} :
    {E : Type ℓ} {A : Type κ} {B : Type μ} → Result E A → (A → Result E B) → Result E B
err e >>= next = err e
ok value >>= next = next value

-- A chain that succeeds: its first call did, and so did the rest from there.
pub ok_of_bind {ℓ κ μ} :
    {E : Type ℓ} {A : Type κ} {B : Type μ} (first : Result E A) (next : A → Result E B) {v : B}
    → (first >>= next) ≡ ok v
    → (u : A) × (first ≡ ok u) × (next u ≡ ok v)
ok_of_bind (err e) next p = cc
ok_of_bind (ok u) next p = (u, refl, p)

pub Result-cases {ℓ κ} :
    {E : Type ℓ} {A : Type κ} (r : Result E A) → ((u : A) × (r ≡ ok u)) ⊎ ((e : E) × (r ≡ err e))
Result-cases (err e) = inr (e, refl)
Result-cases (ok u) = inl (u, refl)

-- The value of a call that succeeds has the property.
pub data OnOk {ℓ κ μ} {E : Type ℓ} {A : Type κ} (P : A → Type μ)
    : Result E A → Type (ℓ ⊔ κ ⊔ μ) where
  returns : {a : A} → P a → OnOk P (ok a)
  fails : {e : E} → OnOk P (err e)

pub OnOk-bind {ℓ κ μ ν ρ} :
    {E : Type ℓ} {A : Type κ} {B : Type μ} {P : A → Type ν} {Q : B → Type ρ} {m : Result E A}
    (f : A → Result E B)
    → OnOk P m
    → ((a : A) → P a → OnOk Q (f a))
    → OnOk Q (m >>= f)
OnOk-bind f (returns {a} h) k = k a h
OnOk-bind f fails k = fails

-- Whatever the first call gives.
pub OnOk-after {ℓ κ μ ν} :
    {E : Type ℓ} {A : Type κ} {B : Type μ} {Q : B → Type ν} (m : Result E A) (f : A → Result E B)
    → ((a : A) → OnOk Q (f a))
    → OnOk Q (m >>= f)
OnOk-after (err e) f k = fails
OnOk-after (ok a) f k = k a

pub OnOk-map_err {ℓ κ μ ν} :
    {E : Type ℓ} {F : Type κ} {A : Type μ} {P : A → Type ν} {m : Result E A} (wrap : E → F)
    → OnOk P m
    → OnOk P (map_err wrap m)
OnOk-map_err wrap (returns h) = returns h
OnOk-map_err wrap fails = fails

pub ok_injective {ℓ κ} :
    {E : Type ℓ} {A : Type κ} {a b : A} → ◌≡◌ {A = Result E A} (ok a) (ok b) → a ≡ b
ok_injective e = cc

pub OnOk-ok {ℓ κ μ} :
    {E : Type ℓ} {A : Type κ} {P : A → Type μ} {m : Result E A} {a : A} → OnOk P m → m ≡ ok a → P a
OnOk-ok {P} (returns h) e = subst P (ok_injective e) h
OnOk-ok fails e = cc
