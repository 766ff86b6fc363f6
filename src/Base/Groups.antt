-- ===== src/Base/Groups.antt =====
-- A number as groups of seven bits, lowest first, with the top bit set on every byte but the last:
-- the common form of the two variable-length encodings (PDeflate varints, ULEB128).
use Prim.Native.Nat.{ℕ, zero, suc, ◌+◌, ◌*◌, ◌/◌, ◌%◌, ◌^◌, ◌≤◌, ◌<◌, bit_and, bit_or}
use mathlib.Core.Path.{◌≡◌, ap}
use mathlib.Core.List.{List, [], ◌∷◌}
use native.Mathlib.Omega.{arith}
use native.Mathlib.Nat.{pow-suc, div-add-mod}
use native.Mathlib.Numerals.{towards_suc}
use cozip.Base.Bits.{bit_and_mask, bit_and_flag, bit_or_fields_rev}
use cozip.Base.Lists.{length}
use cozip.Base.Le.{IsBytes}
use cozip.Base.Tests.{leb, if◌then◌else◌}

-- The groups of `v`, for `v` below `128 ^ (k + 1)`.
unfoldable pub groups : ℕ → ℕ → List ℕ
groups zero v = v ∷ []
groups (suc k) v =
    let more = (v % 128 + 128) ∷ groups k (v / 128) in if leb 0x80 v then more else v ∷ []

pub length-groups : (k v : ℕ) → (1 ≤ length (groups k v)) × (length (groups k v) ≤ k + 1)
unfolding groups
length-groups zero v = omega arith
length-groups (suc k) v = ground (arith, length-groups k (v / 128))

pub groups-IsBytes : (k v : ℕ) → v < 128 ^ suc k → IsBytes (groups k v)
unfolding groups
groups-IsBytes zero v h = omega arith
groups-IsBytes (suc k) v h =
    ground (arith, groups-IsBytes k (v / 128) (omega (arith, pow-suc 128 (suc k))))

pub low_seven : (b : ℕ) → bit_and b 0x7f ≡ b % 128
low_seven b = bit_and_mask 7 b

pub top_bit : (b : ℕ) → bit_and b 0x80 ≡ b / 128 % 2 * 128
top_bit b = bit_and_flag 7 b

pub set_top_bit : (g : ℕ) → g < 128 → bit_or g 0x80 ≡ g + 128
set_top_bit g h = bit_or_fields_rev 7 1 g h

pub pow_seven : (s : ℕ) → 2 ^ (s + 7) ≡ 128 * 2 ^ s
pow_seven s = simp towards_suc (omega arith)

-- The lowest group of `w` and the others, both counted from bit `s`.
pub split_group : (w s : ℕ) → w * 2 ^ s ≡ w % 128 * 2 ^ s + w / 128 * 2 ^ (s + 7)
split_group w s =
    let whole = ap (λ (t : ℕ). 2 ^ s * t) (div-add-mod w 128) in
    let higher = ap (λ (t : ℕ). t * (w / 128)) (pow_seven s) in omega (arith, higher, whole)
