-- ===== src/Witnesses/Faults.antt =====
-- The theorems on page faults at concrete inputs: pfdura/pfdura-mod.c and trace/pf.c.
use borderpatrol.Base.{
  ℕ, zero, suc, ◌+◌, ◌<◌, ◌/◌, ◌%◌, ◌≡◌, ◌≢◌, refl, ap, ap₂, ◌∙◌, true, false, some, List, [], ◌∷◌,
  ◌++◌, arith, All, length, replicate, Bool-cases, inl, inr, ltb, if◌then◌else◌, le→leb,
}
use borderpatrol.Base.Int.{pos}
use borderpatrol.Base.Text.{digits, digit?, decimal, decimal_loop}
use borderpatrol.Base.Decimal.{digits-decimal_loop}
use borderpatrol.Fmt.Entry.{IsEntry, log_bytes}
use borderpatrol.Logd.{Timeval}
use borderpatrol.Faults.{Tracked, Strtol, pfdura, entry_probe, exit_probe}
use borderpatrol.Faults.Digits.{ReadsNumbers}
use borderpatrol.Faults.Tracked.{pfdura_tracks}
use borderpatrol.Faults.Feed.{Feed, whole, nothing, FaultRead, start_feed, reader_loop}
use borderpatrol.Faults.Paired.{OtherRead}
use borderpatrol.Faults.Entries.{due_of}
use borderpatrol.Faults.Traced.{struct, relayed, traced_fault}

-- A `simple_strtol` for numbers without a sign.
unfoldable count_digits : List ℕ → ℕ
count_digits [] = 0
count_digits (b ∷ s) = let more = count_digits s in if digit? b then suc more else 0

abbrev strtol : Strtol
strtol s = (pos (digits 0 s), count_digits s)

decimal_loop-append :
    (fuel n : ℕ) (out rest : List ℕ)
    → decimal_loop fuel n out ++ rest ≡ decimal_loop fuel n (out ++ rest)
unfolding decimal_loop
decimal_loop-append zero n out rest = refl
decimal_loop-append (suc fuel) n out rest = elim (Bool-cases (ltb n 10)) [
  | inl small ↦ rw small
  | inr large ↦ rw large (decimal_loop-append fuel (n / 10) ((b'0' + n % 10) ∷ out) rest)
]

count_digits-digit :
    (d : ℕ) (s : List ℕ) → d < 10 → count_digits ((b'0' + d) ∷ s) ≡ suc (count_digits s)
unfolding count_digits
count_digits-digit d s lt =
    rw (le→leb b'0' (b'0' + d) (omega arith), le→leb (b'0' + d) b'9' (omega (arith, lt)))

count_digits-decimal_loop :
    (fuel n : ℕ) (out rest : List ℕ)
    → count_digits (out ++ rest) ≡ length out
    → count_digits (decimal_loop fuel n (out ++ rest)) ≡ length (decimal_loop fuel n out)
unfolding decimal_loop
count_digits-decimal_loop zero n out rest h = h
count_digits-decimal_loop (suc fuel) n out rest h =
    let more : count_digits ((b'0' + n % 10) ∷ (out ++ rest)) ≡ suc (length out) =
      count_digits-digit (n % 10) (out ++ rest) (omega arith) ∙ ap suc h in
    elim (Bool-cases (ltb n 10)) [
      | inl small ↦ rw small more
      | inr large ↦
          rw large (count_digits-decimal_loop fuel (n / 10) ((b'0' + n % 10) ∷ out) rest more)
    ]

strtol-ReadsNumbers : ReadsNumbers strtol
unfolding ReadsNumbers decimal digits count_digits
strtol-ReadsNumbers n k lt =
    let zeros : List ℕ = replicate (suc k) 0 in
    ap₂ (λ v c. (pos v, c))
      (ap (λ s. digits 0 s) (decimal_loop-append 20 n [] zeros)
        ∙ digits-decimal_loop 20 n zeros (omega (arith, lt)))
      (ap (λ s. count_digits s) (decimal_loop-append 20 n [] zeros)
        ∙ count_digits-decimal_loop 20 n [] zeros refl)

abbrev none_tracked : Tracked
none_tracked = λ i. false

pfdura_tracks_example :
    (t t' : Tracked) × (pfdura 32768 strtol true 300 true none_tracked ≡ some t)
    × ((tid : ℕ) (tv : Timeval)
        → (entry_probe 32768 300 tid tv t ≡ struct 300 tid false tv ∷ [])
          × (exit_probe 32768 300 tid tv t ≡ struct 300 tid true tv ∷ []))
    × ((i : ℕ) → i ≢ 300 → t i ≡ false)
    × (pfdura 32768 strtol false 300 true t ≡ some t')
    × ((tid : ℕ) (tv : Timeval)
        → (entry_probe 32768 300 tid tv t' ≡ []) × (exit_probe 32768 300 tid tv t' ≡ []))
    × ((i : ℕ) → i ≢ 300 → t' i ≡ false)
pfdura_tracks_example =
    pfdura_tracks 32768 strtol 300 none_tracked strtol-ReadsNumbers (omega arith) (omega arith)
      (omega arith)

abbrev at_time : ℕ → Timeval
at_time usec = record { tv_sec = pos 1170000000; tv_usec = pos usec }

-- A fault of process 300, and one of process 7 that begins meanwhile.
abbrev between : List FaultRead
between = nothing ∷ whole (struct 7 7 false (at_time 20)) ∷ []

between_others : All (OtherRead 300) between
unfolding OtherRead
between_others = (tt, ((omega arith, omega arith, λ e. omega (arith, e)), tt))

traced_fault_example :
    (t : Tracked) × (u v : Feed) × (pfdura 32768 strtol true 300 true none_tracked ≡ some t)
    × (reader_loop 90 91 between start_feed ≡ some u)
    × (reader_loop 90 91
          (relayed (entry_probe 32768 300 301 (at_time 10) t)
            ++ (between ++ relayed (exit_probe 32768 300 301 (at_time 500) t)))
          start_feed
        ≡ some v)
    × (v.offered ≡ u.offered ++ log_bytes (due_of 90 91 300 301 1170000000 10 1170000000 500))
    × All IsEntry (due_of 90 91 300 301 1170000000 10 1170000000 500)
traced_fault_example =
    traced_fault 90 91 32768 strtol 300 301 1170000000 10 1170000000 500 none_tracked between
      start_feed (omega arith) (omega arith) strtol-ReadsNumbers (omega arith) (omega arith)
      (omega arith) (omega arith) (omega arith) between_others
