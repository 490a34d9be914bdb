-- ===== src/Prelude/Outcome.antt =====
-- Code that may throw: the value or the error, and what a run without an error yields.
use Prim.Native.Nat.{ℕ, zero, suc, ◌+◌, ◌<◌}
use mathlib.Core.Path.{◌≡◌, refl, subst}
use mathlib.Core.List.{List, [], ◌∷◌}
use native.Mathlib.Omega.{arith}

pub data Outcome {ℓ} (E : Type 0) (A : Type ℓ) : Type ℓ where
  ok : A → Outcome E A
  throw : E → Outcome E A

infixl 5 ◌>>=◌ ◌>>◌
abbrev pub ◌>>=◌ {ℓ κ} :
    {E : Type 0} {A : Type ℓ} {B : Type κ} → Outcome E A → (A → Outcome E B) → Outcome E B
ok a >>= f = f a
throw e >>= f = throw e

abbrev pub ◌>>◌ {ℓ κ} :
    {E : Type 0} {A : Type ℓ} {B : Type κ} → Outcome E A → Outcome E B → Outcome E B
m >> k = m >>= λ _. k

-- The run returns normally, and its result has the property.
abbrev pub Yields {ℓ κ} : {E : Type 0} {A : Type ℓ} → Outcome E A → (A → Type κ) → Type (ℓ ⊔ κ)
Yields {A} r P = (a : A) × (r ≡ ok a) × P a

pub Yields-ok {ℓ κ} :
    {E : Type 0} {A : Type ℓ} (P : A → Type κ) (a : A) → P a → Yields {E = E} (ok a) P
Yields-ok P a p = (a, refl, p)

pub Yields-bind {ℓ κ ι ν} :
    {E : Type 0} {A : Type ℓ} {B : Type κ} (P : A → Type ι) (Q : B → Type ν) (m : Outcome E A)
    (f : A → Outcome E B)
    → Yields m P
    → ((a : A) → P a → Yields (f a) Q)
    → Yields (m >>= f) Q
Yields-bind P Q m f (a, e, p) k = let (b, e', q) = k a p in (b, rw e e', q)

-- Inversion of a bind that returned.
pub >>=-eq-ok {ℓ κ} :
    {E : Type 0} {A : Type ℓ} {B : Type κ} (first : Outcome E A) (next : A → Outcome E B)
    {result : B}
    → (first >>= next) ≡ ok result
    → (value : A) × (first ≡ ok value) × (next value ≡ ok result)
>>=-eq-ok (throw error) next returned = cc
>>=-eq-ok (ok value) next returned = (value, refl, returned)

-- for (let i = from; i < from + rounds; i += 1) state = body(i, state)
module _ {ℓ} {E : Type 0} {S : Type ℓ} where
  unfoldable pub for_range : ℕ → ℕ → (ℕ → S → Outcome E S) → S → Outcome E S
  for_range zero i body s = ok s
  for_range (suc n) i body s = body i s >>= for_range n (i + 1) body

  -- Total correctness of a counted loop, from an invariant that every round keeps.
  pub for_range_inv {κ} :
      (P : ℕ → S → Type κ) (body : ℕ → S → Outcome E S) (n i j : ℕ) (s : S)
      → i + n ≡ j
      → ((k : ℕ) (t : S) → k < j → P k t → Yields (body k t) (P (k + 1)))
      → P i s
      → Yields (for_range n i body s) (P j)
  unfolding for_range
  for_range_inv P body zero i j s e keep h =
      let e' : i ≡ j = omega arith in (s, refl, subst (λ k. P k s) e' h)
  for_range_inv P body (suc n) i j s e keep h =
      Yields-bind (P (i + 1)) (P j) (body i s) (for_range n (i + 1) body) (keep i s (omega arith) h)
        λ t p. for_range_inv P body n (i + 1) j t (omega arith) keep p

-- for (const item of items) state = body(item, state)
module _ {ℓ κ} {E : Type 0} {A : Type ℓ} {S : Type κ} where
  unfoldable pub for_each : List A → (A → S → Outcome E S) → S → Outcome E S
  for_each [] body s = ok s
  for_each (x ∷ xs) body s = body x s >>= for_each xs body
