-- ===== src/Wrap/Input/Drained.antt =====
-- Calls of trace/vfd.c that read from a descriptor until there is nothing left.
use borderpatrol.Base.{
  ℕ, ◌+◌, ◌<◌, ◌≤◌, ◌≡◌, refl, sym, ◌∙◌, ap, inl, inr, false, Option, some, List, [], ◌∷◌, ◌++◌,
  arith, All, length, length-append,
}
use borderpatrol.Base.Int.{ℤ, pos}
use borderpatrol.Reader.Ready.{input_bytes}
use borderpatrol.Protocol.{Outcome}
use borderpatrol.Protocol.Dispatch.{Dispatcher, Data}
use borderpatrol.Vfd.{vbufsize}
use borderpatrol.Vfd.Kernel.{IsGiven}
use borderpatrol.Vfd.Invariant.{IsPlugin, IsVfd}
use borderpatrol.Wrap.{max_fds, Process, Config}
use borderpatrol.Wrap.Input.Transparent.{stream, Passed}
use borderpatrol.Wrap.Input.Held.{InputCall, IsPlain, input_calls, input_call-Passed}

empty : (s : List ℕ) → length s ≤ 0 → s ≡ []
empty [] h = refl
empty (b ∷ s) h = absurd (omega (arith, h))

module _ (k : Config) (pp_read : Dispatcher → Data → ℤ → List ℕ → ℕ → Option (Outcome Data))
    (d : Dispatcher) (fd : ℕ) (W : Data → ℕ → Type 0) (ok : IsPlugin pp_read d (pos fd) W)
    (on : k.bb_disable_all ≡ false) (inside : fd < max_fds)
    (never : (ptr : Data) → W ptr vbufsize → ⊥) where
  -- A call leaves a byte less, or there was none.
  shorter :
      (p : Process) (t : ℤ × List ℕ × Process) (n : ℕ)
      → Passed k pp_read d fd W p t
      → All IsGiven (p.inputs fd)
      → length (stream fd p) ≤ n + 1
      → length (stream fd t.2) ≤ n
  shorter p t n pa given le =
      let split : length (t.1 ++ stream fd t.2) ≡ length t.1 + length (stream fd t.2) =
        length-append t.1 (stream fd t.2) in
      let same : length (t.1 ++ stream fd t.2) ≡ length (stream fd p) = ap length pa.same_stream in
      elim pa.answer [
        | inl (er, more, m) ↦ omega (arith, split, same, more, le)
        | inr (er, none_out, none_held) ↦
            let nothing : stream fd p ≡ [] =
              ap (λ l. l ++ input_bytes (p.inputs fd)) none_held
              ∙ (pa.lively never given).1 none_out in
            omega (arith, split, same, ap length nothing)
      ]

  -- For a descriptor in order, with a plugin within its contract that never refuses a whole buffer,
  -- and a kernel that has nothing but reads with bytes for it: as many calls of `read`, `recv` and
  -- `recvfrom` as there are bytes held and to come, or more of them, without flags and for sizes from 1
  -- that fit an `int`, return all these bytes, in order, and leave none.
  pub input_calls_drain :
      (cs : List InputCall) (p : Process)
      → IsVfd pp_read d (pos fd) W (p.vfd_tab fd)
      → All IsPlain cs
      → All IsGiven (p.inputs fd)
      → length (stream fd p) ≤ length cs
      → (p' : Process) × (input_calls k pp_read fd cs p ≡ some (stream fd p, p'))
        × (stream fd p' ≡ [])
  unfolding input_calls
  input_calls_drain [] p h rooms given le =
      let e : stream fd p ≡ [] = empty (stream fd p) le in (p, ap (λ l. some (l, p)) (sym e), e)
  input_calls_drain (c ∷ cs) p h rooms given le =
      let (t, e, pa) = input_call-Passed k pp_read d fd W ok on inside c p h rooms.0 in
      let (p', e', gone) =
        input_calls_drain cs t.2 pa.in_order rooms.1 (pa.lively never given).0
          (shorter p t (length cs) pa given (omega (arith, le))) in
      (p', rw (e, e') (ap (λ l. some (l, p')) pa.same_stream), gone)
