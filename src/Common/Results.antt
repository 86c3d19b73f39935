-- ===== src/Common/Results.antt =====
-- Exceptions as values: a call returns, or raises an error of the type that its code declares.
use mathlib.Core.Path.{◌≡◌, refl}
use mathlib.Core.Logic.{◌⊎◌, inl, inr}
use mathlib.Core.Bool.{Bool, true, false}
use mathlib.Core.Option.{Option, none, some}

pub data Result {ℓ κ} (E : Type κ) (A : Type ℓ) : Type (ℓ ⊔ κ) where
  ok : A → Result E A
  err : E → Result E A

infixl 5 ◌>>=◌ ◌>>◌
abbrev pub ◌>>=◌ {ℓ ι κ} :
    {E : Type κ} {A : Type ℓ} {B : Type ι} → Result E A → (A → Result E B) → Result E B
ok a >>= f = f a
err e >>= f = err e

abbrev pub ◌>>◌ {ℓ κ} : {E : Type κ} {B : Type ℓ} → Result E (Unit {0}) → Result E B → Result E B
ok _ >> k = k
err e >> k = err e

-- `if test: raise error`
abbrev pub raise_if {κ} : {E : Type κ} → Bool → E → Result E (Unit {0})
raise_if true e = err e
raise_if false e = ok tt

-- the value, or the error where it is None
abbrev pub or_raise {ℓ κ} : {E : Type κ} {A : Type ℓ} → Option A → E → Result E A
or_raise none e = err e
or_raise (some a) e = ok a

abbrev pub is_ok {ℓ κ} : {E : Type κ} {A : Type ℓ} → Result E A → Bool
is_ok (ok _) = true
is_ok (err _) = false

pub Result-cases {ℓ κ} :
    {E : Type κ} {A : Type ℓ} (r : Result E A) → ((a : A) × (r ≡ ok a)) ⊎ ((e : E) × (r ≡ err e))
Result-cases (ok a) = inl (a, refl)
Result-cases (err e) = inr (e, refl)

-- A chain that returned: its first call returned, and so did the rest on what it returned.
pub bind-eq-ok {ℓ ι κ} :
    {E : Type κ} {A : Type ℓ} {B : Type ι} (first : Result E A) (rest : A → Result E B) {b : B}
    → (first >>= rest) ≡ ok b
    → (x : A) × (first ≡ ok x) × (rest x ≡ ok b)
bind-eq-ok (ok x) rest returned = (x, refl, returned)
bind-eq-ok (err problem) rest returned = cc

pub then-eq-ok {ℓ κ} :
    {E : Type κ} {B : Type ℓ} (first : Result E (Unit {0})) (rest : Result E B) {b : B}
    → (first >> rest) ≡ ok b
    → (first ≡ ok tt) × (rest ≡ ok b)
then-eq-ok (ok tt) rest returned = (refl, returned)
then-eq-ok (err problem) rest returned = cc

-- A check that did not raise, and what came after it.
pub unless-eq-ok {ℓ κ} :
    {E : Type κ} {B : Type ℓ} (test : Bool) (e : E) (rest : Result E B) {b : B}
    → (raise_if test e >> rest) ≡ ok b
    → (test ≡ false) × (rest ≡ ok b)
unless-eq-ok true e rest raised = cc
unless-eq-ok false e rest returned = (refl, returned)

-- A value that was there, and what came after it.
pub or_raise-eq-ok {ℓ ι κ} :
    {E : Type κ} {A : Type ℓ} {B : Type ι} (value : Option A) (e : E) (rest : A → Result E B)
    {b : B}
    → (or_raise value e >>= rest) ≡ ok b
    → (x : A) × (value ≡ some x) × (rest x ≡ ok b)
or_raise-eq-ok none e rest raised = cc
or_raise-eq-ok (some x) e rest returned = (x, refl, returned)

pub ok_inj {ℓ κ} : {E : Type κ} {A : Type ℓ} {a b : A} → ◌≡◌ {A = Result E A} (ok a) (ok b) → a ≡ b
ok_inj e = cc e
