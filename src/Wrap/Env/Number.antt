-- ===== src/Wrap/Env/Number.antt =====
-- The number of a thread, as the wrappers of trace/vfd.c print it and `vfd_init` reads it.
use borderpatrol.Base.{
  ℕ, zero, suc, ◌/◌, ◌%◌, ◌==◌, leb, inl, inr, ne→==, lt→leb, le→leb, ◌+◌, ◌^◌, ◌<◌, ◌≤◌, true,
  false, List, [], ◌∷◌, length, ◌≡◌, refl, ◌∙◌, arith, ltb, Bool-cases,
}
use borderpatrol.Base.Text.{decimal, decimal_loop, digits, skip_spaces}
use borderpatrol.Base.Decimal.{digits-decimal}
use borderpatrol.Wrap.Init.{strtoull, strtoull_signed, capped}

-- The first byte of a printed number is a digit.
BeginsDigit : List ℕ → Type 0
BeginsDigit [] = Unit
BeginsDigit (b ∷ s) = (b'0' ≤ b) × (b ≤ b'9')

decimal_loop-BeginsDigit :
    (fuel n : ℕ) (out : List ℕ) → BeginsDigit out → BeginsDigit (decimal_loop fuel n out)
unfolding decimal_loop BeginsDigit
decimal_loop-BeginsDigit zero n out h = h
decimal_loop-BeginsDigit (suc fuel) n out h = elim (Bool-cases (ltb n 10)) [
  | inl small ↦ rw small (omega arith, omega arith)
  | inr large ↦
      rw large
        (decimal_loop-BeginsDigit fuel (n / 10) ((b'0' + n % 10) ∷ out) (omega arith, omega arith))
]

strtoull-digits : (s : List ℕ) → BeginsDigit s → strtoull s ≡ capped s
unfolding strtoull strtoull_signed skip_spaces capped BeginsDigit digits
strtoull-digits [] h = refl
strtoull-digits (b ∷ s) h =
    let blank : (b == 32) ≡ false = ne→== b 32 (λ e. omega (arith, h.0, e)) in
    let high : leb b 13 ≡ false = lt→leb b 13 (omega (arith, h.0)) in
    let low : leb 9 b ≡ true = le→leb 9 b (omega (arith, h.0)) in
    let minus : (b == b'-') ≡ false = ne→== b b'-' (λ e. omega (arith, h.0, e)) in
    let plus : (b == b'+') ≡ false = ne→== b b'+' (λ e. omega (arith, h.0, e)) in
    rw (blank, low, high, minus, plus)

pub length-decimal_loop :
    (fuel n : ℕ) (out : List ℕ) → length (decimal_loop fuel n out) ≤ fuel + length out
unfolding decimal_loop
length-decimal_loop zero n out = omega arith
length-decimal_loop (suc fuel) n out = elim (Bool-cases (ltb n 10)) [
  | inl small ↦ rw small (omega arith)
  | inr large ↦ rw large (omega (arith, length-decimal_loop fuel (n / 10) ((b'0' + n % 10) ∷ out)))
]

pub length-decimal : (n : ℕ) → length (decimal n) ≤ 20
unfolding decimal
length-decimal n = omega (arith, length-decimal_loop 20 n [])

-- A number of 64 bits that is printed is read back as it was.
pub strtoull-decimal : (n : ℕ) → n < 2 ^ 64 → strtoull (decimal n) ≡ n
unfolding decimal capped BeginsDigit
strtoull-decimal n lt =
    strtoull-digits (decimal n) (decimal_loop-BeginsDigit 20 n [] tt)
    ∙ let e : digits 0 (decimal n) ≡ n = digits-decimal n (omega (arith, lt)) in
      rw e (omega (arith, lt))
