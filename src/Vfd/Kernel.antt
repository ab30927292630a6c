-- ===== src/Vfd/Kernel.antt =====
-- `buf_shift` of trace/vfd.c, and what the kernel's read brings.
use borderpatrol.Base.{
  ℕ, zero, suc, ◌-◌, ◌<◌, All, ◌≤◌, ◌≡◌, refl, sym, ◌∙◌, ap, min, inl, inr, ◌⊎◌, List, [], ◌∷◌,
  ◌++◌, append_assoc, arith, length, take, drop, leb, ◌==◌, length-append, length-take, length-drop,
  Bool-cases, ==_iff, le→leb, leb→le, leb→lt,
}
use borderpatrol.Base.Int.{ℤ, pos, negsuc}
use borderpatrol.Reader.{Read, failed, got}
use borderpatrol.Reader.Ready.{input_bytes}
use borderpatrol.Vfd.{vbufsize, Vfd, real_read, buf_shift}

-- With all bytes returned, the shift keeps what the plugin has not used, at the front.
pub buf_shift_lem :
    (v : Vfd)
    → v.rbufofs ≤ v.rbuflen
    → v.rlastlen ≡ v.rbuflen
    → v.rbuflen ≤ vbufsize
    → length v.rbuf ≡ vbufsize
    → (R : List ℕ) × (buf_shift v ≡ record v {
      rbuf = R;
      rbufofs = 0;
      rbuflen = v.rbuflen - v.rbufofs;
      rlastlen = v.rbuflen - v.rbufofs;
    })
      × (length R ≡ vbufsize)
unfolding buf_shift
buf_shift_lem v le el fits size =
    let begin : ℕ = min v.rbufofs v.rlastlen in
    let same : begin ≡ v.rbufofs = omega (arith, le, el) in
    elim (Bool-cases (begin == 0)) [
      | inl e ↦
          let z : v.rbufofs ≡ 0 = omega (arith, same, (==_iff begin 0).0 e) in
          let l1 : v.rbuflen ≡ v.rbuflen - v.rbufofs = omega (arith, z) in
          let l2 : v.rlastlen ≡ v.rbuflen - v.rbufofs = omega (arith, z, el) in
          (v.rbuf, rw e (λ i. record v { rbufofs = z i; rbuflen = l1 i; rlastlen = l2 i }), size)
      | inr e ↦
          let tomove : ℕ = v.rbuflen - begin in
          let o : v.rbufofs - begin ≡ 0 = omega (arith, same) in
          let l1 : tomove ≡ v.rbuflen - v.rbufofs = omega (arith, same) in
          let l2 : v.rlastlen - begin ≡ v.rbuflen - v.rbufofs = omega (arith, same, el) in
          (
            take tomove (drop begin v.rbuf) ++ drop tomove v.rbuf,
            rw e (λ i. record v {
              rbuf = take tomove (drop begin v.rbuf) ++ drop tomove v.rbuf;
              rbufofs = o i;
              rbuflen = l1 i;
              rlastlen = l2 i;
            }),
            omega (
              arith,
              length-append (take tomove (drop begin v.rbuf)) (drop tomove v.rbuf),
              length-take tomove (drop begin v.rbuf),
              length-drop begin v.rbuf,
              length-drop tomove v.rbuf,
              same,
              le,
              fits,
              size,
            ),
          )
    ]

-- Some bytes, and no error.
abbrev pub IsGiven : Read → Type 0
IsGiven failed = ⊥
IsGiven (got bytes) = 0 < length bytes

-- A read without bytes: reads with bytes stay, and if there is room and the kernel has no others, it
-- has none.
abbrev pub Stalls : ℕ → List Read → List Read → Type 0
Stalls room input rest =
    (All IsGiven input → All IsGiven rest) × (0 < room → All IsGiven input → input_bytes input ≡ [])

-- Nothing, or some bytes that have room; the input keeps the rest.
abbrev pub Brought : ℕ → List Read → ℤ × List ℕ × List Read → Type 0
Brought room input t =
    ((rest : List Read) × (t ≡ (pos 0, [], rest))
      × (input_bytes rest ≡ input_bytes input)
      × Stalls room input rest)
    ⊎ (((rest : List Read) × (t ≡ (negsuc 0, [], rest))
          × (input_bytes rest ≡ input_bytes input)
          × Stalls room input rest)
        ⊎ ((m : ℕ) × (bytes : List ℕ) × (rest : List Read) × (t ≡ (pos (suc m), bytes, rest))
            × (length bytes ≡ suc m)
            × (suc m ≤ room)
            × (bytes ++ input_bytes rest ≡ input_bytes input)
            × (All IsGiven input → All IsGiven rest)))

take-drop : (n : ℕ) (xs : List ℕ) → take n xs ++ drop n xs ≡ xs
take-drop zero xs = refl
take-drop (suc n) [] = refl
take-drop (suc n) (x ∷ xs) = ap (λ l. x ∷ l) (take-drop n xs)

pub real_read_lem : (room : ℕ) (input : List Read) → Brought room input (real_read room input)
unfolding real_read
real_read_lem zero input = inl (input, refl, refl, ((λ g. g), λ lt g. absurd (omega (arith, lt))))
real_read_lem (suc room) [] = inl ([], refl, refl, ((λ g. g), λ lt g. refl))
real_read_lem (suc room) (failed ∷ input) =
    inr (inl (input, refl, refl, ((λ g. g.1), λ lt g. absurd g.0)))
real_read_lem (suc room) (got [] ∷ input) =
    rw (le→leb 0 (suc room) (omega arith))
      (inl (input, refl, refl, ((λ g. g.1), λ lt g. absurd (omega (arith, g.0)))))
real_read_lem (suc room) (got (b ∷ bytes) ∷ input) =
    elim (Bool-cases (leb (length (b ∷ bytes)) (suc room))) [
      | inl e ↦
          rw e
            (inr (inr (length bytes, b ∷ bytes, input, refl, refl, leb→le _ _ e, refl, λ g. g.1)))
      | inr e ↦ rw e (
          inr (
            inr (
              room,
              b ∷ take room bytes,
              got (drop room bytes) ∷ input,
              refl,
              omega (arith, leb→lt _ _ e, length-take room bytes),
              omega arith,
              ap (λ l. b ∷ l)
                  (sym (append_assoc (take room bytes) (drop room bytes) (input_bytes input))
                    ∙ ap (λ l. l ++ input_bytes input) (take-drop room bytes)),
              λ g. (omega (arith, leb→lt _ _ e, length-drop room bytes), g.1),
            )))
    ]
