-- ===== src/Faults/Digits.antt =====
-- The text that `pfdura` of trace/vfd.c writes for a pid, as pfdura/pfdura-mod.c reads it.
use borderpatrol.Base.{
  ℕ, zero, suc, ◌+◌, ◌-◌, ◌/◌, ◌%◌, ◌^◌, ◌<◌, ◌≤◌, true, false, List, [], ◌∷◌, ◌++◌, ltb, ◌==◌,
  length, replicate, ◌≡◌, arith, Bool-cases, inl, inr, lt→ltb, le→ltb, ne→==,
}
use borderpatrol.Base.Int.{pos}
use borderpatrol.Base.Text.{decimal, decimal_loop}
use borderpatrol.Base.Decimal.{tenth}
use borderpatrol.Faults.{Strtol, parsed, get_pid_from_buf}

decimal_loop_short :
    (k fuel n : ℕ) (out : List ℕ)
    → n < 10 ^ suc k
    → length (decimal_loop fuel n out) ≤ suc k + length out
unfolding decimal_loop
decimal_loop_short k zero n out lt = omega arith
decimal_loop_short zero (suc fuel) n out lt = rw (lt→ltb n 10 (omega (arith, lt))) (omega arith)
decimal_loop_short (suc k) (suc fuel) n out lt = elim (Bool-cases (ltb n 10)) [
  | inl small ↦ rw small (omega arith)
  | inr large ↦ rw large (
      omega
        (arith, decimal_loop_short k fuel (n / 10) ((b'0' + n % 10) ∷ out) (tenth n (suc k) lt)))
]

decimal_loop_longer : (fuel n : ℕ) (out : List ℕ) → length out ≤ length (decimal_loop fuel n out)
unfolding decimal_loop
decimal_loop_longer zero n out = omega arith
decimal_loop_longer (suc fuel) n out = elim (Bool-cases (ltb n 10)) [
  | inl small ↦ rw small (omega arith)
  | inr large ↦ rw large (omega (arith, decimal_loop_longer fuel (n / 10) ((b'0' + n % 10) ∷ out)))
]

decimal_nonempty : (n : ℕ) → 0 < length (decimal n)
unfolding decimal decimal_loop
decimal_nonempty n = elim (Bool-cases (ltb n 10)) [
  | inl small ↦ rw small (omega arith)
  | inr large ↦ rw large (omega (arith, decimal_loop_longer 19 (n / 10) ((b'0' + n % 10) ∷ [])))
]

decimal_short : (n : ℕ) → n < 2147483648 → length (decimal n) ≤ 10
unfolding decimal
decimal_short n lt = omega (arith, decimal_loop_short 9 20 n [] (omega (arith, lt)))

-- What `simple_strtol` does with a number that is followed by zeros.
unfoldable pub ReadsNumbers : Strtol → Type 0
ReadsNumbers simple_strtol =
    (n k : ℕ)
    → n < 2147483648
    → simple_strtol (decimal n ++ replicate (suc k) 0) ≡ (pos n, length (decimal n))

pub get_pid_from_buf_lem :
    (simple_strtol : Strtol) (n : ℕ)
    → ReadsNumbers simple_strtol
    → n < 2147483648
    → get_pid_from_buf simple_strtol true (decimal n) ≡ parsed (pos n)
unfolding get_pid_from_buf ReadsNumbers
get_pid_from_buf_lem simple_strtol n reads lt =
    let fits : ltb 16 (length (decimal n)) ≡ false =
      le→ltb 16 (length (decimal n)) (omega (arith, decimal_short n lt)) in
    let left : 16 - length (decimal n) ≡ suc (15 - length (decimal n)) =
      omega (arith, decimal_short n lt) in
    let used : (length (decimal n) == 0) ≡ false =
      ne→== (length (decimal n)) 0 (λ e. omega (arith, decimal_nonempty n, e)) in
    rw (fits, left, reads n (15 - length (decimal n)) lt, used)
