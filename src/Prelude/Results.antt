-- ===== src/Prelude/Results.antt =====
-- Code that throws returns a `Result`; the error is what it throws.
use mathlib.Core.Path.{◌≡◌, refl}
use mathlib.Core.Logic.{◌⊎◌, inl, inr}
use mathlib.Core.Bool.{Bool, true, false}

pub data Result {ℓ κ} (E : Type κ) (A : Type ℓ) : Type (ℓ ⊔ κ) where
  ok : A → Result E A
  err : E → Result E A

infixl 5 ◌>>=◌ ◌>>◌
abbrev pub ◌>>=◌ {ℓ ι κ} :
    {E : Type κ} {A : Type ℓ} {B : Type ι} → Result E A → (A → Result E B) → Result E B
ok a >>= f = f a
err e >>= f = err e

abbrev pub ◌>>◌ {ℓ κ} : {E : Type κ} {B : Type ℓ} → Result E (Unit {0}) → Result E B → Result E B
m >> k = m >>= λ _. k

-- `if (!test) throw e`
abbrev pub guard {κ} : {E : Type κ} → Bool → E → Result E (Unit {0})
guard true e = ok tt
guard false e = err e

-- What an action that returned has done, handed to the rest of a proof.
pub >>=-elim {ℓ ι κ μ} :
    {E : Type κ} {A : Type ℓ} {B : Type ι} {P : Type μ} (m : Result E A) (f : A → Result E B)
    {b : B}
    → (m >>= f) ≡ ok b
    → ((a : A) → m ≡ ok a → f a ≡ ok b → P)
    → P
>>=-elim (ok a) f h k = k a refl h
>>=-elim (err e) f h k = absurd (cc)

pub guard-elim {ℓ κ μ} :
    {E : Type κ} {B : Type ℓ} {P : Type μ} (t : Bool) (e : E) (r : Result E B) {b : B}
    → (guard t e >> r) ≡ ok b
    → (t ≡ true → r ≡ ok b → P)
    → P
guard-elim true e r h k = k refl h
guard-elim false e r h k = absurd (cc)

pub >>-elim {ℓ κ μ} :
    {E : Type κ} {B : Type ℓ} {P : Type μ} (m : Result E (Unit {0})) (r : Result E B) {b : B}
    → (m >> r) ≡ ok b
    → (m ≡ ok tt → r ≡ ok b → P)
    → P
>>-elim (ok tt) r h k = k refl h
>>-elim (err e) r h k = absurd (cc)

pub ok-injective {ℓ κ} :
    {E : Type κ} {A : Type ℓ} {a b : A} → ◌≡◌ {A = Result E A} (ok a) (ok b) → a ≡ b
ok-injective h = cc

pub Result-cases {ℓ κ} :
    {E : Type κ} {A : Type ℓ} (m : Result E A) → ((a : A) × (m ≡ ok a)) ⊎ ((e : E) × (m ≡ err e))
Result-cases (ok a) = inl (a, refl)
Result-cases (err e) = inr (e, refl)
