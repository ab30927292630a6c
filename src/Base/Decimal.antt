-- ===== src/Base/Decimal.antt =====
-- Numbers that are printed and read back.
use Prim.Native.Nat.{ℕ, zero, suc, ◌+◌, ◌-◌, ◌*◌, ◌/◌, ◌%◌, ◌^◌, ◌<◌}
use mathlib.Core.Path.{◌≡◌, ap, ◌∙◌}
use mathlib.Core.Logic.{inl, inr}
use mathlib.Core.Bool.{true}
use mathlib.Core.List.{List, [], ◌∷◌}
use native.Mathlib.Omega.{arith}
use native.Mathlib.Nat.{pow-succ'}
use borderpatrol.Base.Tests.{ltb, leb, Bool-cases, ltb→lt, le→leb}
use borderpatrol.Base.Text.{digits, decimal_loop, decimal}

-- `digits` of a digit in front.
digits-digit :
    (acc d : ℕ) (s : List ℕ) → d < 10 → digits acc ((b'0' + d) ∷ s) ≡ digits (acc * 10 + d) s
unfolding digits
digits-digit acc d s lt =
    let low : leb b'0' (b'0' + d) ≡ true = le→leb b'0' (b'0' + d) (omega arith) in
    let high : leb (b'0' + d) b'9' ≡ true = le→leb (b'0' + d) b'9' (omega (arith, lt)) in
    let value : acc * 10 + (b'0' + d - b'0') ≡ acc * 10 + d = omega arith in rw (low, high, value)

-- Without its last digit a number has one digit less.
pub tenth : (n fuel : ℕ) → n < 10 ^ suc fuel → n / 10 < 10 ^ fuel
tenth n fuel lt =
    let split : 10 ^ suc fuel ≡ 10 * 10 ^ fuel = pow-succ' 10 fuel in omega (arith, lt, split)

pub digits-decimal_loop :
    (fuel n : ℕ) (out : List ℕ) → n < 10 ^ fuel → digits 0 (decimal_loop fuel n out) ≡ digits n out
unfolding decimal_loop
digits-decimal_loop zero n out lt = ap (λ m. digits m out) (omega (arith, lt))
digits-decimal_loop (suc fuel) n out lt = elim (Bool-cases (ltb n 10)) [
  | inl small ↦ rw small (
      digits-digit 0 (n % 10) out (omega arith)
      ∙ ap (λ m. digits m out) (omega (arith, ltb→lt n 10 small)))
  | inr large ↦ rw large (
      digits-decimal_loop fuel (n / 10) ((b'0' + n % 10) ∷ out) (tenth n fuel lt)
      ∙ digits-digit (n / 10) (n % 10) out (omega arith)
      ∙ ap (λ m. digits m out) (omega arith))
]

-- A number of at most 20 digits that is printed is read back as it was.
pub digits-decimal : (n : ℕ) → n < 10 ^ 20 → digits 0 (decimal n) ≡ n
unfolding decimal digits
digits-decimal n lt = digits-decimal_loop 20 n [] lt
