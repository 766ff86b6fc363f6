-- ===== src/Base/Ensures.antt =====
-- Partial correctness of a fallible run: where it returns, what it returns meets a predicate.
use mathlib.Core.Path.{◌≡◌, refl, subst}
use cozip.Base.Results.{Result, ok, err, ◌>>=◌}

abbrev pub Ensures {ℓ κ} : {E : Type ℓ} {A : Type κ} → Result E A → (A → Type 0) → Type 0
Ensures (ok a) P = P a
Ensures (err e) P = Unit

module _ {ℓ κ μ} {E : Type ℓ} {A : Type κ} {B : Type μ} where
  pub Ensures->>= :
      (Q : B → Type 0) (m : Result E A) (f : A → Result E B)
      → ((a : A) → m ≡ ok a → Ensures (f a) Q)
      → Ensures (m >>= f) Q
  Ensures->>= Q (ok a) f k = k a refl
  Ensures->>= Q (err e) f k = tt

-- A weaker predicate.
pub Ensures_weaker {ℓ κ} :
    {E : Type ℓ} {A : Type κ} (P Q : A → Type 0) (m : Result E A)
    → Ensures m P
    → ((a : A) → P a → Q a)
    → Ensures m Q
Ensures_weaker P Q (ok a) h k = k a h
Ensures_weaker P Q (err e) h k = tt

pub Ensures-ok {ℓ κ} :
    {E : Type ℓ} {A : Type κ} (P : A → Type 0) (m : Result E A) (a : A)
    → Ensures m P
    → m ≡ ok a
    → P a
Ensures-ok P m a h e = subst (λ r. Ensures r P) e h
