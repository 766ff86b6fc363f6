-- ===== src/Pdeflate/Section/Repeat.antt =====
-- `fill_repeat` fills its target with the pattern over and over.
use native.Mathlib.Nat.{mod-add-mod, mod-eq_of_lt, mod_self}
use cozip.Base.{
  ℕ, zero, suc, ◌+◌, ◌-◌, ◌%◌, ◌≤◌, ◌<◌, ◌≡◌, ◌⊎◌, inl, inr, refl, sym, ap, ◌∙◌, List, [], ◌∷◌,
  ◌++◌, arith, min, ltb, ge→ltb, ◌==◌, ◌||◌, false, Bool-cases, ltb→lt, ltb→ge, length, take, drop,
  drop-eq-cons, get_or, replicate,
}
use cozip.Pdeflate.Section.{fill_repeat_loop, fill_repeat}

-- `n` bytes of the endless repetition of `pattern`, from its place `i` on.
unfoldable pub cycle : List ℕ → ℕ → ℕ → List ℕ
cycle pattern i zero = []
cycle pattern i (suc n) = get_or pattern (i % length pattern) 0 ∷ cycle pattern (i + 1) n

module _ (pattern : List ℕ) where
  pub length-cycle : (i n : ℕ) → length (cycle pattern i n) ≡ n
  unfolding cycle
  length-cycle i zero = refl
  length-cycle i (suc n) = ap suc (length-cycle (i + 1) n)

  cycle-append :
      (i j m n k : ℕ)
      → i + m ≡ j
      → m + n ≡ k
      → cycle pattern i m ++ cycle pattern j n ≡ cycle pattern i k
  unfolding cycle
  cycle-append i j zero n k e e' =
      let p : j ≡ i = omega arith in let q : n ≡ k = omega arith in rw (p, q)
  cycle-append i j (suc m) n zero e e' = absurd (omega arith)
  cycle-append i j (suc m) n (suc k) e e' =
      rw (cycle-append (i + 1) j m n k (omega arith) (omega arith))

  pub take-cycle : (i m n : ℕ) → m ≤ n → take m (cycle pattern i n) ≡ cycle pattern i m
  unfolding cycle
  take-cycle i zero n h = refl
  take-cycle i (suc m) zero h = absurd (omega arith)
  take-cycle i (suc m) (suc n) h = rw (take-cycle (i + 1) m n (omega arith))

  -- A whole number of turns changes nothing.
  cycle_turn : (f i n : ℕ) → f % length pattern ≡ 0 → cycle pattern (f + i) n ≡ cycle pattern i n
  unfolding cycle
  cycle_turn f i zero h = refl
  cycle_turn f i (suc n) h =
      let same : (f + i) % length pattern ≡ i % length pattern =
        sym (mod-add-mod f (length pattern) i)
        ∙ rw h (let e : 0 + i ≡ i = omega arith in ap (λ t. t % length pattern) e) in
      let next : f + i + 1 ≡ f + (i + 1) = omega arith in rw (same, next, cycle_turn f (i + 1) n h)

  -- One round, on a whole number of turns: the copy goes on with the cycle.
  double-cycle :
      (f c : ℕ)
      → c ≤ f
      → f % length pattern ≡ 0
      → cycle pattern 0 f ++ take c (cycle pattern 0 f) ≡ cycle pattern 0 (f + c)
  double-cycle f c hc turn =
      let e : f ≡ f + 0 = omega arith in
      let shifted : cycle pattern f c ≡ cycle pattern 0 c =
        ap (λ t. cycle pattern t c) e ∙ cycle_turn f 0 c turn in
      rw (take-cycle 0 c f hc) (
        ap (λ t. cycle pattern 0 f ++ t) (sym shifted)
        ∙ cycle-append 0 f f c (f + c) (omega arith) refl)

  -- After it there is a whole number of turns again, or nothing is left.
  double_turn :
      (f size : ℕ)
      → f ≤ size
      → f % length pattern ≡ 0
      → ((f + min f (size - f)) % length pattern ≡ 0) ⊎ (f + min f (size - f) ≡ size)
  double_turn f size hs turn = elim (Bool-cases (ltb (size - f) f)) [
    | inl last ↦ inr (omega (arith, ltb→lt (size - f) f last))
    | inr whole ↦
        let copy : min f (size - f) ≡ f = omega (arith, ltb→ge (size - f) f whole) in
        inl (rw copy (sym (mod-add-mod f (length pattern) f) ∙ rw turn turn'))
  ]
    where
      turn' : (0 + f) % length pattern ≡ 0
      turn' = let e : 0 + f ≡ f = omega arith in ap (λ t. t % length pattern) e ∙ turn

  fill_repeat_loop-cycle :
      (rounds size f : ℕ)
      → 0 < f
      → f ≤ size
      → size ≤ f + rounds
      → (f % length pattern ≡ 0) ⊎ (f ≡ size)
      → fill_repeat_loop rounds size (cycle pattern 0 f) ≡ cycle pattern 0 size
  unfolding fill_repeat_loop
  fill_repeat_loop-cycle zero size f hf hs hr h =
      let e : f ≡ size = omega arith in ap (cycle pattern 0) e
  fill_repeat_loop-cycle (suc rounds) size f hf hs hr (inr e) =
      rw (length-cycle 0 f, ge→ltb f size (omega arith)) (ap (cycle pattern 0) e)
  fill_repeat_loop-cycle (suc rounds) size f hf hs hr (inl turn) = elim (Bool-cases (ltb f size)) [
    | inr done ↦
        let e : f ≡ size = omega (arith, ltb→ge f size done) in
        rw (length-cycle 0 f, done) (ap (cycle pattern 0) e)
    | inl more ↦
        let lt = ltb→lt f size more in
        rw (length-cycle 0 f, more, double-cycle f (min f (size - f)) (omega arith) turn)
          (fill_repeat_loop-cycle rounds size (f + min f (size - f)) (omega arith) (omega arith)
            (omega arith) (double_turn f size hs turn))
  ]

  -- Within one turn the cycle is the pattern itself.
  take-drop-cycle : (m i : ℕ) → i + m ≤ length pattern → take m (drop i pattern) ≡ cycle pattern i m
  unfolding cycle
  take-drop-cycle zero i h = refl
  take-drop-cycle (suc m) i h =
      rw
        (
          drop-eq-cons i pattern 0 (omega arith),
          mod-eq_of_lt {n = i} {m = length pattern} (omega arith),
        )
        (ap (λ t. get_or pattern i 0 ∷ t) (take-drop-cycle m (i + 1) (omega arith)))

replicate-cycle : (b i n : ℕ) → replicate n b ≡ cycle (b ∷ []) i n
unfolding cycle
replicate-cycle b i zero = refl
replicate-cycle b i (suc n) = let e : i % 1 ≡ 0 = omega arith in rw (e, replicate-cycle b (i + 1) n)

first_turn : (p size : ℕ) → (min p size % p ≡ 0) ⊎ (min p size ≡ size)
first_turn p size = elim (Bool-cases (ltb size p)) [
  | inl part ↦ inr (omega (arith, ltb→lt size p part))
  | inr whole ↦
      let e : min p size ≡ p = omega (arith, ltb→ge size p whole) in inl (rw e (mod_self p))
]

-- With a pattern of at least one byte, `fill_repeat` leaves in every place `i` of its target the
-- byte `i % pattern.len()` of the pattern.
pub fill_repeat-cycle :
    (dst pattern : List ℕ)
    → 0 < length pattern
    → fill_repeat dst pattern ≡ cycle pattern 0 (length dst)
unfolding fill_repeat
fill_repeat-cycle [] pattern h = unfold cycle in refl
fill_repeat-cycle (d ∷ dst) [] h = absurd (omega arith)
fill_repeat-cycle (d ∷ dst) (b ∷ []) h =
    let t0 : (length (d ∷ dst) == 0 || 1 == 0) ≡ false = ground arith in
    rw t0 (replicate-cycle b 0 (suc (length dst)))
fill_repeat-cycle (d ∷ dst) (b ∷ (b' ∷ pattern)) h =
    let p : List ℕ = b ∷ b' ∷ pattern in
    let first : ℕ = min (length p) (length (d ∷ dst)) in
    let t0 : (length (d ∷ dst) == 0 || length p == 0) ≡ false = ground arith in
    let t1 : (length p == 1) ≡ false = ground arith in
    rw (t0, t1, take-drop-cycle p first 0 (omega arith))
      (fill_repeat_loop-cycle p (length (d ∷ dst)) (length (d ∷ dst)) first (omega arith)
        (omega arith) (omega arith) (first_turn (length p) (length (d ∷ dst))))
