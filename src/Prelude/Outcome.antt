-- ===== src/Prelude/Outcome.antt =====
-- What a Python call comes to: a value, or an exception with the state's error type.

-- `E` is the type of the exceptions that the modelled code can raise.
pub data Outcome {ℓ κ} (E : Type ℓ) (A : Type κ) : Type (ℓ ⊔ κ) where
  ok : A → Outcome E A
  raised : E → Outcome E A

module _ {ℓ} {E : Type ℓ} where
  infixl 5 ◌>>=◌ ◌>>◌
  abbrev pub ◌>>=◌ {κ μ} : {A : Type κ} {B : Type μ} → Outcome E A → (A → Outcome E B) → Outcome E B
  ok a >>= f = f a
  raised e >>= f = raised e

  abbrev pub ◌>>◌ {κ μ} : {A : Type κ} {B : Type μ} → Outcome E A → Outcome E B → Outcome E B
  m >> k = m >>= λ _. k
