-- ===== src/Base/At.antt =====
-- A cursor into a byte slice: `At src c rest` says that the bytes from `c` on are `rest`.
use Prim.Native.Nat.{ℕ, ◌+◌, ◌-◌}
use mathlib.Core.Path.{◌≡◌, refl, sym, ◌∙◌}
use mathlib.Core.Bool.{◌&&◌}
use mathlib.Core.Option.{Option, none, some}
use mathlib.Core.List.{List, ◌∷◌, ◌++◌}
use native.Mathlib.Omega.{arith}
use cozip.Base.Lists.{
  length, take, drop, get_or, get_or-drop, get_elem?, get_elem?-drop, length-append, drop-drop,
  drop-length-append, take-length-append,
}
use cozip.Base.Tests.{leb, le→leb, if◌then◌else◌}

-- `slice.get(a..b)`
unfoldable pub get_range : List ℕ → ℕ → ℕ → Option (List ℕ)
get_range src a b = if leb a b && leb b (length src) then some (take (b - a) (drop a src)) else none

pub record At (src : List ℕ) (c : ℕ) (rest : List ℕ) : Type 0 where
  pub suffix : drop c src ≡ rest
  pub fits : c + length rest ≡ length src

pub At-start : (src : List ℕ) → At src 0 src
At-start src = record { suffix = refl; fits = omega arith }

pub At-append : (front rest : List ℕ) → At (front ++ rest) (length front) rest
At-append front rest = record {
  suffix = drop-length-append front rest;
  fits = omega (arith, length-append front rest);
}

pub At-step :
    {src : List ℕ} {c : ℕ} (c' : ℕ) (bytes rest : List ℕ)
    → At src c (bytes ++ rest)
    → c + length bytes ≡ c'
    → At src c' rest
At-step {src} {c} c' bytes rest at e = record {
  suffix = sym (drop-drop c (length bytes) c' src e) ∙ rw at.suffix (drop-length-append bytes rest);
  fits = omega (arith, at.fits, length-append bytes rest);
}

pub get_range-At :
    {src : List ℕ} {c : ℕ} (c' : ℕ) (bytes rest : List ℕ)
    → At src c (bytes ++ rest)
    → c + length bytes ≡ c'
    → get_range src c c' ≡ some bytes
unfolding get_range
get_range-At {src} {c} c' bytes rest at e =
    let size : c' - c ≡ length bytes = omega arith in
    rw (
      le→leb c c' (omega arith),
      le→leb c' (length src) (omega (arith, at.fits, length-append bytes rest)),
      at.suffix,
      size,
      take-length-append,
    )

-- The byte under the cursor.
pub get_or-At :
    {src : List ℕ} {c : ℕ} (b : ℕ) (rest : List ℕ) (d : ℕ)
    → At src c (b ∷ rest)
    → get_or src c d ≡ b
get_or-At {src} {c} b rest d at = get_or-drop c src d ∙ rw at.suffix

pub get_elem?-At :
    {src : List ℕ} {c : ℕ} (b : ℕ) (rest : List ℕ) → At src c (b ∷ rest) → get_elem? src c ≡ some b
get_elem?-At {src} {c} b rest at = get_elem?-drop c src ∙ rw at.suffix

-- The slice of the next bytes.
pub take-drop-At :
    {src : List ℕ} {c : ℕ} (bytes rest : List ℕ)
    → At src c (bytes ++ rest)
    → take (length bytes) (drop c src) ≡ bytes
take-drop-At bytes rest at = rw at.suffix (take-length-append bytes rest)
