-- ===== src/Base/Results.antt =====
-- The result of code that can fault (undefined behaviour: an access out of bounds, through a null
-- or dangling pointer, an undefined shift) and whose loops run on fuel.

pub data Run (A : Type 0) : Type 0 where
  ok : A → Run A
  fault : Run A
  out_of_fuel : Run A

infixl 5 ◌>>=◌ ◌>>◌
abbrev pub ◌>>=◌ : {A B : Type 0} → Run A → (A → Run B) → Run B
ok a >>= f = f a
fault >>= f = fault
out_of_fuel >>= f = out_of_fuel

abbrev pub ◌>>◌ : {A B : Type 0} → Run A → Run B → Run B
m >> k = m >>= λ _. k

-- Total correctness: the code returns, and what it returns has the property.
abbrev pub Ensures : {A : Type 0} → (A → Type 0) → Run A → Type 0
Ensures P (ok a) = P a
Ensures P fault = ⊥
Ensures P out_of_fuel = ⊥

pub Ensures-bind :
    {A B : Type 0} (P : A → Type 0) (Q : B → Type 0) (r : Run A) (k : A → Run B)
    → Ensures P r
    → ((a : A) → P a → Ensures Q (k a))
    → Ensures Q (r >>= k)
Ensures-bind P Q (ok a) k p next = next a p
Ensures-bind P Q fault k p next = absurd p
Ensures-bind P Q out_of_fuel k p next = absurd p

pub Ensures-mono :
    {A : Type 0} (P Q : A → Type 0) (r : Run A) → Ensures P r → ((a : A) → P a → Q a) → Ensures Q r
Ensures-mono P Q (ok a) p weaken = weaken a p
Ensures-mono P Q fault p weaken = absurd p
Ensures-mono P Q out_of_fuel p weaken = absurd p
