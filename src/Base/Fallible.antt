-- ===== src/Base/Fallible.antt =====
-- What a fallible function of the source returns: a value, or an error of a type of its own.
pub data Outcome {ℓ} (E A : Type ℓ) : Type ℓ where
  done : A → Outcome E A
  fail : E → Outcome E A

infixl 5 ◌>>=◌
abbrev pub ◌>>=◌ {ℓ} : {E A B : Type ℓ} → Outcome E A → (A → Outcome E B) → Outcome E B
done a >>= f = f a
fail e >>= f = fail e
