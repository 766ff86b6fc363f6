-- ===== src/Pdeflate/Cursor/Laws.antt =====
-- What the readers of Cursor return where the bytes at the cursor are known.
use cozip.Base.{
  ℕ, ◌+◌, ◌^◌, ◌<◌, ◌≡◌, refl, ap, ◌∙◌, List, [], ◌∷◌, ◌++◌, length, length-append, arith,
}
use cozip.Base.At.{At, At-step, get_range-At}
use cozip.Base.Le.{to_le_bytes, from_le_bytes, from_le_bytes-to_le_bytes, length-to_le_bytes}
use cozip.Base.Results.{ok, ◌>>=◌, usize_bound, checked_add-ok}
use cozip.Pdeflate.Error.{Result, numeric_overflow}
use cozip.Pdeflate.Cursor.{read_exact, read_u8, read_u16_le, read_u32_le, read_u64_le}

abbrev answer : ℕ × ℕ → Result (ℕ × ℕ)
answer r = ok r

module _ {src : List ℕ} {c : ℕ} (small : length src < usize_bound) where
  pub read_exact-At :
      (n : ℕ) (bytes rest : List ℕ)
      → length bytes ≡ n
      → At src c (bytes ++ rest)
      → read_exact src c n ≡ ok (bytes, c + n)
  unfolding read_exact
  read_exact-At n bytes rest e at = rw (
    checked_add-ok c n numeric_overflow (omega (arith, at.fits, length-append bytes rest)),
    get_range-At (c + n) bytes rest at (ap (λ t. c + t) e),
  )

  pub read_u8-At : (b : ℕ) (rest : List ℕ) → At src c (b ∷ rest) → read_u8 src c ≡ ok (b, c + 1)
  unfolding read_u8
  read_u8-At b rest at = rw (read_exact-At 1 (b ∷ []) rest refl at)

  -- One proof for every width.
  read_le-At :
      (k v : ℕ) (rest : List ℕ)
      → v < 256 ^ k
      → At src c (to_le_bytes k v ++ rest)
      → (read_exact src c k >>= λ r. ok (from_le_bytes r.0, r.1)) ≡ answer (v, c + k)
  read_le-At k v rest h at = rw (
    read_exact-At k (to_le_bytes k v) rest (length-to_le_bytes k v) at,
    from_le_bytes-to_le_bytes k v h,
  )

  pub read_u16_le-At :
      (v : ℕ) (rest : List ℕ)
      → v < 2 ^ 16
      → At src c (to_le_bytes 2 v ++ rest)
      → read_u16_le src c ≡ ok (v, c + 2)
  unfolding read_u16_le
  read_u16_le-At v rest h at = read_le-At 2 v rest h at

  pub read_u32_le-At :
      (v : ℕ) (rest : List ℕ)
      → v < 2 ^ 32
      → At src c (to_le_bytes 4 v ++ rest)
      → read_u32_le src c ≡ ok (v, c + 4)
  unfolding read_u32_le
  read_u32_le-At v rest h at = read_le-At 4 v rest h at

  pub read_u64_le-At :
      (v : ℕ) (rest : List ℕ)
      → v < 2 ^ 64
      → At src c (to_le_bytes 8 v ++ rest)
      → read_u64_le src c ≡ ok (v, c + 8)
  unfolding read_u64_le
  read_u64_le-At v rest h at = read_le-At 8 v rest h at

pub At-step_le :
    {src : List ℕ} {c : ℕ} (k c' v : ℕ) (rest : List ℕ)
    → At src c (to_le_bytes k v ++ rest)
    → c + k ≡ c'
    → At src c' rest
At-step_le {src} {c} k c' v rest at e =
    At-step c' (to_le_bytes k v) rest at (ap (λ t. c + t) (length-to_le_bytes k v) ∙ e)
