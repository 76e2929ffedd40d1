-- ===== src/Shared/Results.antt =====
-- A computation that may raise: `err` carries the exception.
use mathlib.Core.Path.{◌≡◌, refl, subst}
use mathlib.Core.Bool.{Bool, true, false}

pub data Result {ℓ κ} (E : Type ℓ) (A : Type κ) : Type (ℓ ⊔ κ) where
  ok : A → Result E A
  err : E → Result E A

-- The rest of a computation runs on the value of what came before.
abbrev pub chain {ℓ κ μ} :
    {E : Type ℓ} {A : Type κ} {B : Type μ} → (A → Result E B) → Result E A → Result E B
chain rest (err e) = err e
chain rest (ok value) = rest value

infixl 5 ◌>>=◌ ◌>>◌
abbrev pub ◌>>=◌ {ℓ κ μ} :
    {E : Type ℓ} {A : Type κ} {B : Type μ} → Result E A → (A → Result E B) → Result E B
first >>= rest = chain rest first

abbrev pub ◌>>◌ {ℓ μ} : {E : Type ℓ} {B : Type μ} → Result E (Unit {0}) → Result E B → Result E B
first >> second = chain (λ _. second) first

-- `if bad: raise e`
abbrev pub raise_if {ℓ} : {E : Type ℓ} → Bool → E → Result E (Unit {0})
raise_if true e = err e
raise_if false e = ok tt

pub ok-injective {ℓ κ} :
    {E : Type ℓ} {A : Type κ} {a b : A} → ◌≡◌ {A = Result E A} (ok a) (ok b) → a ≡ b
ok-injective h = cc

-- Where the whole returns, so did its first part, and the rest returned the value.
pub >>=-eq-ok {ℓ κ μ} :
    {E : Type ℓ} {A : Type κ} {B : Type μ} (m : Result E A) (rest : A → Result E B) {value : B}
    → (m >>= rest) ≡ ok value
    → (x : A) × (m ≡ ok x) × (rest x ≡ ok value)
>>=-eq-ok (err e) rest returned = absurd (cc returned)
>>=-eq-ok (ok x) rest returned = (x, refl, returned)

-- `P` holds of the value, if one is returned.
abbrev pub Ensures {ℓ κ μ} : {E : Type ℓ} {A : Type κ} → (A → Type μ) → Result E A → Type μ
Ensures P (ok a) = P a
Ensures P (err e) = Unit

module _ {ℓ κ μ} {E : Type ℓ} {A : Type κ} where
  pub Ensures-bind {ν} :
      {B : Type ν} (P : B → Type μ) (m : Result E A) (f : A → Result E B)
      → ((a : A) → m ≡ ok a → Ensures P (f a))
      → Ensures P (m >>= f)
  Ensures-bind P (ok a) f h = h a refl
  Ensures-bind P (err e) f h = tt

  pub Ensures-at : (P : A → Type μ) (m : Result E A) {a : A} → Ensures P m → m ≡ ok a → P a
  Ensures-at P (ok b) h e = subst P (ok-injective e) h
  Ensures-at P (err x) h e = absurd (cc e)

-- A value is returned.
pub data Returns {ℓ κ} {E : Type ℓ} {A : Type κ} (m : Result E A) : Type (ℓ ⊔ κ) where
  returns : (a : A) → m ≡ ok a → Returns m
