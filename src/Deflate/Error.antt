-- ===== src/Deflate/Error.antt =====
-- `CozipDeflateError` of cozip_deflate/src/lib.rs.
use cozip.Base.{String, ◌≡◌, refl}
use cozip.Base.Results

-- `panicked` is no `CozipDeflateError`: it stands for a run that Rust stops, such as an index out
-- of bounds. `stuck` is one that does not come to its end.
pub data Error : Type 0 where
  invalid_options : String → Error
  invalid_frame : String → Error
  io : String → Error
  data_too_large : Error
  gpu_unavailable : String → Error
  gpu_execution : String → Error
  internal : String → Error
  panicked : Error
  stuck : Error

abbrev pub Result {ℓ} : Type ℓ → Type ℓ
Result A = Results.Result Error A

-- An error that the program returns: not a panic, and not a run without end.
abbrev pub IsProper : Error → Type 0
IsProper panicked = ⊥
IsProper stuck = ⊥
IsProper _ = Unit

-- A run that returns what `Q` says, or a proper error.
abbrev pub Answers {ℓ} : {A : Type ℓ} → (A → Type 0) → Result A → Type 0
Answers Q (Results.ok a) = Q a
Answers Q (Results.err e) = IsProper e

module _ {ℓ κ} {A : Type ℓ} {B : Type κ} where
  pub Answers->>= :
      (P : A → Type 0) (Q : B → Type 0) (m : Result A) (f : A → Result B)
      → Answers P m
      → ((a : A) → P a → Answers Q (f a))
      → Answers Q (Results.◌>>=◌ m f)
  Answers->>= P Q (Results.ok a) f h k = k a h
  Answers->>= P Q (Results.err e) f h k = h

  -- The same, where the second part may use what the first one returned.
  pub Answers-bind_eq :
      (P : A → Type 0) (Q : B → Type 0) (m : Result A) (f : A → Result B)
      → Answers P m
      → ((a : A) → m ≡ Results.ok a → P a → Answers Q (f a))
      → Answers Q (Results.◌>>=◌ m f)
  Answers-bind_eq P Q (Results.ok a) f h k = k a refl h
  Answers-bind_eq P Q (Results.err e) f h k = h

pub Answers-weaker {ℓ} :
    {A : Type ℓ} (P Q : A → Type 0) (m : Result A)
    → Answers P m
    → ((a : A) → P a → Q a)
    → Answers Q m
Answers-weaker P Q (Results.ok a) h k = k a h
Answers-weaker P Q (Results.err e) h k = h
