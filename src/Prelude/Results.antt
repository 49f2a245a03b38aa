-- ===== src/Prelude/Results.antt =====
-- A computation that returns or raises, over the exceptions `E` of the function that is modelled.

pub data Result {ℓ} (E A : Type ℓ) : Type ℓ where
  ok : A → Result E A
  raise : E → Result E A

infixl 5 ◌>>=◌
abbrev pub ◌>>=◌ {ℓ} : {E A B : Type ℓ} → Result E A → (A → Result E B) → Result E B
ok a >>= f = f a
raise e >>= f = raise e
