-- ===== src/Vfd/More.antt =====
-- The part of `virtual_read` of trace/vfd.c that reads from the kernel.
use borderpatrol.Base.{
  ℕ, All, ◌==◌, ==_iff, ==_ne, Bool-cases, [], suc, ◌+◌, ◌-◌, ◌≤◌, ◌≡◌, refl, sym, ◌∙◌, ap, subst,
  inl, inr, ◌⊎◌, true, false, Option, some, List, ◌++◌, arith, length, store,
}
use borderpatrol.Base.Int.{ℤ, pos, negsuc}
use borderpatrol.Reader.{Read}
use borderpatrol.Reader.Ready.{input_bytes}
use borderpatrol.Protocol.{Outcome}
use borderpatrol.Protocol.Dispatch.{Dispatcher, Data}
use borderpatrol.Vfd.Kernel.{IsGiven, Stalls, real_read_lem, buf_shift_lem}
use borderpatrol.Vfd.{vbufsize, Vfd, Fd, real_read, after_read, read_more}
use borderpatrol.Vfd.Invariant.{
  HasRoom, held, held_none, held_stored, length-stored, IsPlugin, present_pp-Presented,
}
use borderpatrol.Vfd.Delivered.{Delivered, hand_out-Delivered}

module _ (pp_read : Dispatcher → Data → ℤ → List ℕ → ℕ → Option (Outcome Data)) (d : Dispatcher)
    (s : ℤ) (W : Data → ℕ → Type 0) where
  -- Nothing is held, and the plugin has refused what it has not used.
  pub record Caught (v : Vfd) : Type 0 where
    pub none_ready : v.tosend ≡ pos 0
    pub all_returned : v.rlastlen ≡ v.rbuflen
    pub ofs_inside : v.rbufofs ≤ v.rbuflen
    pub fits : v.rbuflen ≤ vbufsize
    pub size : length v.rbuf ≡ vbufsize
    pub plugin : v.pp_dispatcher ≡ some d
    pub refused : W v.pp_data (v.rbuflen - v.rbufofs)
    pub mode : (v.ppwantmore ≡ true) ⊎ ((v.ppwantmore ≡ false) × (v.rbufofs ≡ v.rbuflen))

  abbrev shifted : Vfd → List ℕ → Vfd
  shifted v R = record v {
    rbuf = R;
    rbufofs = 0;
    rbuflen = v.rbuflen - v.rbufofs;
    rlastlen = v.rbuflen - v.rbufofs;
  }

  -- The kernel has given nothing.
  nothing-Delivered :
      (f : Fd) (R : List ℕ) (r : ℤ) (rest : List Read)
      → Caught f.vfd
      → length R ≡ vbufsize
      → (r ≡ pos 0) ⊎ (r ≡ negsuc 0)
      → input_bytes rest ≡ input_bytes f.input
      → Stalls (vbufsize - (f.vfd.rbuflen - f.vfd.rbufofs)) f.input rest
      → r ≡ (real_read (vbufsize - (f.vfd.rbuflen - f.vfd.rbufofs)) f.input).0
      → Delivered pp_read d s W f (r, [], record f { vfd = shifted f.vfd R; input = rest })
  nothing-Delivered f R r rest c size er same stalls told =
      let v : Vfd = f.vfd in
      let w : ℕ = v.rbuflen - v.rbufofs in
      record {
        in_order = record {
          ready = 0;
          to_send = c.none_ready;
          released = omega arith;
          ofs_inside = omega arith;
          fits = omega (arith, c.fits);
          size = size;
          plugin = c.plugin;
          mode = elim c.mode [
            | inl want ↦
                inl (
                  want,
                  omega arith,
                  subst (W v.pp_data) {x = w} {y = w - 0} (omega arith) c.refused,
                )
            | inr (calm, e) ↦ inr (
              calm,
              omega (arith, e),
              subst (W v.pp_data) {x = w} {y = 0} (omega (arith, e)) c.refused,
            )
          ];
        };
        same_stream =
            ap (λ l. l ++ input_bytes rest) (held_none (shifted v R) refl)
            ∙ same
            ∙ ap (λ l. l ++ input_bytes f.input) (sym (held_none v c.all_returned));
        answer = inr (er, refl, held_none v c.all_returned);
        passed_on = λ _. told;
        lively = λ never g. (
          stalls.0 g,
          λ none_out. elim (Bool-cases (w == vbufsize)) [
            | inl full ↦
                absurd
                  (never v.pp_data (subst (W v.pp_data) ((==_iff w vbufsize).0 full) c.refused))
            | inr room ↦ stalls.1 (omega (arith, c.fits, ==_ne w vbufsize room)) g
          ],
        );
      }

  pub read_more-Delivered :
      IsPlugin pp_read d s W
      → (f : Fd) (len : ℕ) → Caught f.vfd
      → HasRoom len
      → (t : ℤ × List ℕ × Fd) × (read_more pp_read s f len ≡ some t) × Delivered pp_read d s W f t
  unfolding read_more after_read
  read_more-Delivered ok f len c some_len =
      let v : Vfd = f.vfd in
      let w : ℕ = v.rbuflen - v.rbufofs in
      let (R, shift, size) = buf_shift_lem v c.ofs_inside c.all_returned c.fits c.size in
      elim (real_read_lem (vbufsize - w) f.input) [
        | inl (rest, e, same, stalls) ↦ (
          (pos 0, [], record f { vfd = shifted v R; input = rest }),
          rw (shift, e),
          nothing-Delivered f R (pos 0) rest c size (inl refl) same stalls (sym (ap (λ t. t.0) e)),
        )
        | inr (inl (rest, e, same, stalls)) ↦ (
          (negsuc 0, [], record f { vfd = shifted v R; input = rest }),
          rw (shift, e),
          nothing-Delivered f R (negsuc 0) rest c size (inr refl) same stalls
              (sym (ap (λ t. t.0) e)),
        )
        | inr (inr (m, bytes, rest, er, lb, room, same, kept)) ↦
            let f1 : Fd = record f {
              vfd = record (shifted v R) { rbuf = store w bytes R; rbuflen = w + suc m };
              input = rest;
            } in
            let (g, e, p) =
              present_pp-Presented pp_read d s W ok f1 w c.plugin (omega arith) c.refused
                (omega arith) (omega (arith, room))
                (length-stored w bytes R (omega (arith, lb, room, size)) ∙ size) in
            let (t, e', dl) = hand_out-Delivered pp_read d s W g len p.in_order p.more some_len in
            let stored : held f1.vfd ≡ bytes =
              held_stored w (suc m) bytes R (sym lb) (omega (arith, room, size)) in
            (
              t,
              rw (shift, er, e, e'),
              record {
                in_order = dl.in_order;
                same_stream =
                    dl.same_stream
                    ∙ ap (λ l. l ++ input_bytes g.input) (p.same_held ∙ stored)
                    ∙ ap (λ i. bytes ++ input_bytes i) p.same_input
                    ∙ same
                    ∙ ap (λ l. l ++ input_bytes f.input) (sym (held_none v c.all_returned));
                answer = elim dl.answer [
                  | inl more ↦ inl more
                  | inr (er', none_out, none_held) ↦
                      absurd (omega (arith, lb, ap length (sym (p.same_held ∙ stored) ∙ none_held)))
                ];
                passed_on = λ nothing. elim dl.answer [
                  | inl (er', more) ↦ absurd (omega (arith, more, ap length nothing))
                  | inr (er', none_out, none_held) ↦
                      absurd (omega (arith, lb, ap length (sym (p.same_held ∙ stored) ∙ none_held)))
                ];
                lively = λ never given. (
                  (dl.lively never (subst (All IsGiven) (sym p.same_input) (kept given))).0,
                  λ nothing. elim dl.answer [
                    | inl (er', more) ↦ absurd (omega (arith, more, ap length nothing))
                    | inr (er', none_out, none_held) ↦
                        absurd
                          (omega (arith, lb, ap length (sym (p.same_held ∙ stored) ∙ none_held)))
                  ],
                );
              },
            )
      ]
