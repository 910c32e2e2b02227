-- ===== src/Common/Fallible.antt =====
-- Go's `(value, error)`: one of the two, an error by its message.
use mathlib.Core.Bool.{Bool, true, false}
use mathlib.Core.Path.{◌≡◌, refl}
use mathlib.Core.Logic.{◌⊎◌, inl, inr}
use nova2sonici_osapp.Common.Text.{Text}

pub data Fallible {ℓ} (A : Type ℓ) : Type ℓ where
  ok : A → Fallible A
  err : Text → Fallible A

pub Fallible-cases {ℓ} :
    {A : Type ℓ} (m : Fallible A) → ((e : Text) × (m ≡ err e)) ⊎ ((a : A) × (m ≡ ok a))
Fallible-cases (ok a) = inr (a, refl)
Fallible-cases (err e) = inl (e, refl)

infixl 5 ◌>>=◌
abbrev pub ◌>>=◌ {ℓ κ} : {A : Type ℓ} {B : Type κ} → Fallible A → (A → Fallible B) → Fallible B
err message >>= next = err message
ok found >>= next = next found

infixl 5 ◌>>◌
abbrev pub ◌>>◌ {ℓ} : {B : Type ℓ} → Fallible (Unit {0}) → Fallible B → Fallible B
m >> k = m >>= λ _. k

-- `if bad { return …, fmt.Errorf(message) }`.
abbrev pub reject_if : Bool → Text → Fallible (Unit {0})
reject_if true message = err message
reject_if false message = ok tt

-- A successful bind has two successful parts.
pub >>=-eq-ok {ℓ κ} :
    {A : Type ℓ} {B : Type κ} (m : Fallible A) (f : A → Fallible B) {b : B}
    → (m >>= f) ≡ ok b
    → (a : A) × (m ≡ ok a) × (f a ≡ ok b)
>>=-eq-ok (err message) next fine = cc
>>=-eq-ok (ok found) next fine = (found, refl, fine)

pub reject_if-eq-ok {ℓ} :
    {B : Type ℓ} (bad : Bool) (message : Text) (k : Fallible B) {b : B}
    → (reject_if bad message >> k) ≡ ok b
    → (bad ≡ false) × (k ≡ ok b)
reject_if-eq-ok true message k h = cc
reject_if-eq-ok false message k h = (refl, h)
