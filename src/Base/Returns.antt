-- ===== src/Base/Returns.antt =====
-- Total correctness of a fallible run: it returns, and what it returns meets a predicate.
use mathlib.Core.Path.{◌≡◌, refl}
use mathlib.Core.Bool.{Bool, true, false}
use cozip.Base.Tests.{if◌then◌else◌}
use cozip.Base.Results.{Result, ok, err, ◌>>=◌}

abbrev pub Returns {ℓ κ} : {E : Type ℓ} {A : Type κ} → Result E A → (A → Type 0) → Type 0
Returns (ok a) P = P a
Returns (err e) P = ⊥

module _ {ℓ κ μ} {E : Type ℓ} {A : Type κ} {B : Type μ} where
  pub Returns->>= :
      (P : A → Type 0) (Q : B → Type 0) (m : Result E A) (f : A → Result E B)
      → Returns m P
      → ((a : A) → P a → Returns (f a) Q)
      → Returns (m >>= f) Q
  Returns->>= P Q (ok a) f h k = k a h
  Returns->>= P Q (err e) f h k = absurd h

pub Returns-if {ℓ κ} :
    {E : Type ℓ} {A : Type κ} (P : A → Type 0) (t : Bool) (x y : Result E A)
    → (t ≡ true → Returns x P)
    → (t ≡ false → Returns y P)
    → Returns (if t then x else y) P
Returns-if P true x y h k = h refl
Returns-if P false x y h k = k refl

-- A weaker predicate.
pub Returns_weaker {ℓ κ} :
    {E : Type ℓ} {A : Type κ} (P Q : A → Type 0) (m : Result E A)
    → Returns m P
    → ((a : A) → P a → Q a)
    → Returns m Q
Returns_weaker P Q (ok a) h k = k a h
Returns_weaker P Q (err e) h k = absurd h

-- Two predicates of one run.
pub Returns-both {ℓ κ} :
    {E : Type ℓ} {A : Type κ} (P Q : A → Type 0) (m : Result E A)
    → Returns m P
    → Returns m Q
    → Returns m (λ a. P a × Q a)
Returns-both P Q (ok a) h k = (h, k)
Returns-both P Q (err e) h k = absurd h
