-- ===== src/Base/Lists.antt =====
-- Predicates on lists by recursion, which the tactics read and build.
use Prim.Native.Nat.{ℕ, zero, suc, ◌+◌, ◌≤◌}
use mathlib.Core.Path.{◌≡◌, refl, sym, subst}
use mathlib.Core.Logic.{◌⊎◌, inl, inr}
use mathlib.Core.List.{List, [], ◌∷◌, ◌++◌}
use native.Mathlib.Omega.{arith}

abbrev pub length {ℓ} : {A : Type ℓ} → List A → ℕ
length [] = 0
length (x ∷ xs) = suc (length xs)

abbrev pub All {ℓ κ} : {A : Type ℓ} → (A → Type κ) → List A → Type κ
All P [] = Unit
All P (x ∷ xs) = P x × All P xs

abbrev pub In : {A : Type 0} → A → List A → Type 0
In a [] = ⊥
In a (x ∷ xs) = (a ≡ x) ⊎ In a xs

pub All-map {ℓ κ μ} :
    {A : Type ℓ} {P : A → Type κ} {Q : A → Type μ} (f : (a : A) → P a → Q a) (xs : List A)
    → All P xs
    → All Q xs
All-map f [] h = tt
All-map f (x ∷ xs) h = (f x h.0, All-map f xs h.1)

module _ {ℓ κ} {A : Type ℓ} (P : A → Type κ) where
  pub All-join : (xs ys : List A) → All P xs → All P ys → All P (xs ++ ys)
  All-join [] ys hx hy = hy
  All-join (x ∷ xs) ys hx hy = (hx.0, All-join xs ys hx.1 hy)

  pub All-before : (xs ys : List A) → All P (xs ++ ys) → All P xs
  All-before [] ys h = tt
  All-before (x ∷ xs) ys h = (h.0, All-before xs ys h.1)

  pub All-after : (xs ys : List A) → All P (xs ++ ys) → All P ys
  All-after [] ys h = h
  All-after (x ∷ xs) ys h = All-after xs ys h.1

pub length-append_cons {ℓ} :
    {A : Type ℓ} (xs : List A) (y : A) (ys : List A)
    → length (xs ++ y ∷ ys) ≡ suc (length xs + length ys)
length-append_cons [] y ys = omega arith
length-append_cons (x ∷ xs) y ys = omega (arith, length-append_cons xs y ys)

abbrev pub sum_by {ℓ} : {A : Type ℓ} → (A → ℕ) → List A → ℕ
sum_by f [] = 0
sum_by f (x ∷ xs) = f x + sum_by f xs

pub sum_by-append_cons {ℓ} :
    {A : Type ℓ} (f : A → ℕ) (xs : List A) (y : A) (ys : List A)
    → sum_by f (xs ++ y ∷ ys) ≡ sum_by f xs + (f y + sum_by f ys)
sum_by-append_cons f [] y ys = omega arith
sum_by-append_cons f (x ∷ xs) y ys = omega (arith, sum_by-append_cons f xs y ys)

module _ {ℓ κ} {A : Type ℓ} (P : A → Type κ) (xs : List A) (x : A) (ys : List A) where
  pub All-at : All P (xs ++ x ∷ ys) → P x
  All-at h = (All-after P xs (x ∷ ys) h).0

  pub All-put : (y : A) → All P (xs ++ x ∷ ys) → P y → All P (xs ++ y ∷ ys)
  All-put y h p =
      All-join P xs (y ∷ ys) (All-before P xs (x ∷ ys) h) (p, (All-after P xs (x ∷ ys) h).1)

abbrev pub replicate {ℓ} : {A : Type ℓ} → ℕ → A → List A
replicate zero a = []
replicate (suc n) a = a ∷ replicate n a

pub All-replicate {ℓ κ} :
    {A : Type ℓ} (P : A → Type κ) (n : ℕ) (a : A) → P a → All P (replicate n a)
All-replicate P zero a p = tt
All-replicate P (suc n) a p = (p, All-replicate P n a p)

pub length-replicate {ℓ} : {A : Type ℓ} (n : ℕ) (a : A) → length (replicate n a) ≡ n
length-replicate zero a = refl
length-replicate (suc n) a = omega (arith, length-replicate n a)

pub sum_by-replicate {ℓ} :
    {A : Type ℓ} (f : A → ℕ) (n : ℕ) (a : A) → f a ≡ 0 → sum_by f (replicate n a) ≡ 0
sum_by-replicate f zero a z = refl
sum_by-replicate f (suc n) a z = omega (arith, z, sum_by-replicate f n a z)

pub All-In : {A : Type 0} (P : A → Type 0) (a : A) (xs : List A) → All P xs → In a xs → P a
All-In P a [] h i = absurd i
All-In P a (x ∷ xs) h (inl e) = subst P (sym e) h.0
All-In P a (x ∷ xs) h (inr i) = All-In P a xs h.1 i

-- One element for another.
pub sum_by-put {ℓ} :
    {A : Type ℓ} (f : A → ℕ) (xs : List A) (x y : A) (ys : List A)
    → sum_by f (xs ++ y ∷ ys) + f x ≡ sum_by f (xs ++ x ∷ ys) + f y
sum_by-put f xs x y ys = omega (arith, sum_by-append_cons f xs x ys, sum_by-append_cons f xs y ys)

pub length-put {ℓ} :
    {A : Type ℓ} (xs : List A) (x y : A) (ys : List A)
    → length (xs ++ y ∷ ys) ≡ length (xs ++ x ∷ ys)
length-put xs x y ys = omega (arith, length-append_cons xs x ys, length-append_cons xs y ys)

pub sum_by-at {ℓ} :
    {A : Type ℓ} (f : A → ℕ) (xs : List A) (x : A) (ys : List A) → f x ≤ sum_by f (xs ++ x ∷ ys)
sum_by-at f xs x ys = omega (arith, sum_by-append_cons f xs x ys)
