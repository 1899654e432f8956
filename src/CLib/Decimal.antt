-- ===== src/CLib/Decimal.antt =====
-- The decimal numeral of `%d` for a number that is not negative, and its way back through `atoi`.
use xwp_server.Base.{
  ℕ, zero, suc, ◌+◌, ◌/◌, ◌%◌, ◌^◌, ◌<◌, ◌≤◌, ◌≡◌, refl, ◌∙◌, [], ◌∷◌, ltb, if◌then◌else◌, pos,
  arith, Bool-cases, inl, inr,
}
use xwp_server.CLib.{Bytes, digits_value, atoi}

-- The digits of `n` in front of `rest`, on fuel; each round divides by ten.
unfoldable pub decimal_onto : ℕ → ℕ → Bytes → Bytes
decimal_onto zero n rest = rest
decimal_onto (suc f) n rest =
    let more = decimal_onto f (n / 10) ((b'0' + n % 10) ∷ rest) in
    if ltb n 10 then (b'0' + n) ∷ rest else more

-- `%d` of a value that is not negative. `n + 1` rounds are enough.
unfoldable pub decimal : ℕ → Bytes
unfolding decimal_onto
decimal n = decimal_onto (n + 1) n []

pub digits_value-decimal_onto :
    (f n : ℕ) (rest : Bytes) → n < f → digits_value 0 (decimal_onto f n rest) ≡ digits_value n rest
unfolding decimal_onto digits_value
digits_value-decimal_onto zero n rest h = absurd (omega arith)
digits_value-decimal_onto (suc f) n rest h =
    ground (arith, digits_value-decimal_onto f (n / 10) ((b'0' + n % 10) ∷ rest))

pub decimal_onto-head :
    (f n : ℕ) (rest : Bytes)
    → n < f
    → (c : ℕ) × (s : Bytes) × (decimal_onto f n rest ≡ c ∷ s) × (b'0' ≤ c) × (c ≤ b'9')
unfolding decimal_onto
decimal_onto-head zero n rest h = absurd (omega arith)
decimal_onto-head (suc f) n rest h = elim (Bool-cases (ltb n 10)) [
  | inl small ↦ (b'0' + n, rest, rw small, omega arith, ground arith)
  | inr large ↦ rw large (decimal_onto-head f (n / 10) ((b'0' + n % 10) ∷ rest) (ground arith))
]

atoi-digit :
    (c n : ℕ) (s : Bytes)
    → b'0' ≤ c
    → c ≤ b'9'
    → digits_value 0 (c ∷ s) ≡ n
    → n < 2 ^ 31
    → atoi (c ∷ s) ≡ pos n
unfolding atoi
atoi-digit c n s lo hi e h = ground arith

-- `atoi` reads back what `%d` printed, for every `int` that is not negative.
pub atoi-decimal : (n : ℕ) → n < 2 ^ 31 → atoi (decimal n) ≡ pos n
unfolding decimal
atoi-decimal n h =
    let (c, s, e, lo, hi) = decimal_onto-head (n + 1) n [] (omega arith) in
    rw e (
      atoi-digit c n s lo hi
        (rw (← e)
          (digits_value-decimal_onto (n + 1) n [] (omega arith) ∙ unfold digits_value in refl))
        h)
