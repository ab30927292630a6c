-- ===== src/Vfd/Delivered.antt =====
-- What a call of `virtual_read` of trace/vfd.c hands out.
use borderpatrol.Base.{
  ℕ, All, subst, [], ◌<◌, ◌-◌, ◌≡◌, refl, sym, ◌∙◌, ap, inl, ◌⊎◌, Option, some, List, ◌++◌,
  append_assoc, arith, length,
}
use borderpatrol.Base.Int.{ℤ, pos, negsuc}
use borderpatrol.Reader.{Read}
use borderpatrol.Reader.Ready.{input_bytes}
use borderpatrol.Vfd.Kernel.{IsGiven}
use borderpatrol.Protocol.{Outcome}
use borderpatrol.Protocol.Dispatch.{Dispatcher, Data}
use borderpatrol.Vfd.{hand_out, vbufsize, Fd, real_read}
use borderpatrol.Vfd.Invariant.{HasRoom, held, IsVfd, buf_ret-Returned}

-- For a plugin that never refuses a whole buffer, and a kernel with nothing but reads with bytes: it
-- keeps such reads, and has none if no bytes have been returned.
abbrev pub Lively : (Data → ℕ → Type 0) → List Read → List ℕ → List Read → Type 0
Lively W input out rest =
    ((ptr : Data) → W ptr vbufsize → ⊥)
    → All IsGiven input
    → All IsGiven rest × ((out ≡ []) → input_bytes input ≡ [])

module _ (pp_read : Dispatcher → Data → ℤ → List ℕ → ℕ → Option (Outcome Data)) (d : Dispatcher)
    (s : ℤ) (W : Data → ℕ → Type 0) where
  -- What a call of `virtual_read` comes to: the bytes held and those of the kernel stay the same
  -- stream, and a byte at least is returned unless there was none held and the kernel gave none. What
  -- is returned then is what `real_read` has returned, with the room that is left in the buffer.
  pub record Delivered (f : Fd) (t : ℤ × List ℕ × Fd) : Type 0 where
    pub in_order : IsVfd pp_read d s W t.2.vfd
    pub same_stream :
        t.1 ++ (held t.2.vfd ++ input_bytes t.2.input) ≡ held f.vfd ++ input_bytes f.input
    pub answer :
        ((t.0 ≡ pos (length t.1)) × (0 < length t.1))
        ⊎ (((t.0 ≡ pos 0) ⊎ (t.0 ≡ negsuc 0)) × (t.1 ≡ []) × (held f.vfd ≡ []))
    pub passed_on :
        t.1 ≡ [] → t.0 ≡ (real_read (vbufsize - (f.vfd.rbuflen - f.vfd.rbufofs)) f.input).0
    pub lively : Lively W f.input t.1 t.2.input

  pub hand_out-Delivered :
      (f : Fd) (len : ℕ)
      → (h : IsVfd pp_read d s W f.vfd) → 0 < h.ready
      → HasRoom len
      → (t : ℤ × List ℕ × Fd) × (hand_out f len ≡ some t) × Delivered f t
  unfolding hand_out
  hand_out-Delivered f len h more some_len =
      let ((bytes, g), e, r) = buf_ret-Returned pp_read d s W f len h more some_len in
      (
        (pos (length bytes), bytes, g),
        rw e,
        record {
          in_order = r.in_order;
          same_stream =
              sym (append_assoc bytes (held g.vfd) (input_bytes g.input))
              ∙ ap (λ l. l ++ input_bytes g.input) r.kept
              ∙ ap (λ i. held f.vfd ++ input_bytes i) r.same_input;
          answer = inl (refl, r.gets_on);
          passed_on = λ none_out. absurd (omega (arith, r.gets_on, ap length none_out));
          lively = λ never g. (
            subst (All IsGiven) (sym r.same_input) g,
            λ none_out. absurd (omega (arith, r.gets_on, ap length none_out)),
          );
        },
      )
