-- ===== src/Vfd/Transparent.antt =====
-- `virtual_read` of trace/vfd.c hands the bytes of the kernel to the application, whatever the plugin
-- wants to see first.
use borderpatrol.Base.{
  ℕ, All, length, drop, length-take, length-drop, zero, suc, ◌-◌, ◌<◌, ◌≡◌, refl, sym, ◌∙◌, ap, ap₂,
  subst, inl, inr, true, false, Option, some, List, ◌++◌, arith, ltb, ◌==◌, if◌then◌else◌, ◌>>=◌,
  le→ltb, lt→ltb, ==_iff, ==_ne, ◌≢◌, Bool-cases, ltb→lt, ltb→le, ◌&&◌, not,
}
use borderpatrol.Base.Int.{ℤ, pos}
use borderpatrol.Reader.Ready.{input_bytes}
use borderpatrol.Protocol.{Outcome}
use borderpatrol.Protocol.Dispatch.{Dispatcher, Data}
use borderpatrol.Vfd.{hand_out, shown_more, Fd, present_pp, read_more, read_by, virtual_read}
use borderpatrol.Vfd.Invariant.{HasRoom, held, and_false, IsPlugin, IsVfd, present_pp-Presented}
use borderpatrol.Vfd.Delivered.{Delivered, hand_out-Delivered}
use borderpatrol.Vfd.Kernel.{IsGiven}
use borderpatrol.Vfd.More.{Caught, read_more-Delivered}

module _ (pp_read : Dispatcher → Data → ℤ → List ℕ → ℕ → Option (Outcome Data)) (d : Dispatcher)
    (s : ℤ) (W : Data → ℕ → Type 0) where
  shown_more_lem :
      (g : Fd) (len n : ℕ)
      → g.vfd.tosend ≡ pos n
      → 0 < n
      → shown_more pp_read s g len ≡ hand_out g len
  unfolding shown_more
  shown_more_lem g len zero e more = absurd (omega (arith, more))
  shown_more_lem g len (suc n) e more = rw e

  -- The same outcome, seen from before a look of the plugin.
  from_before :
      (f g : Fd) (t : ℤ × List ℕ × Fd)
      → held g.vfd ≡ held f.vfd
      → g.input ≡ f.input
      → 0 < length (held g.vfd)
      → Delivered pp_read d s W g t
      → Delivered pp_read d s W f t
  from_before f g t eh ei some_held dl = record {
    in_order = dl.in_order;
    same_stream = dl.same_stream ∙ ap₂ (λ l i. l ++ input_bytes i) eh ei;
    answer = elim dl.answer [
      | inl more ↦ inl more
      | inr (er, none_out, none_held) ↦ inr (er, none_out, sym eh ∙ none_held)
    ];
    passed_on = λ nothing. elim dl.answer [
      | inl (er, more) ↦ absurd (omega (arith, more, ap length nothing))
      | inr (er, none_out, none_held) ↦ absurd (omega (arith, some_held, ap length none_held))
    ];
    lively = λ never given.
        let l = dl.lively never (subst (All IsGiven) (sym ei) given) in
        (l.0, λ none_out. ap input_bytes (sym ei) ∙ l.1 none_out);
  }

  -- Nothing is ready, and the plugin has asked for more.
  wanting-Delivered :
      IsPlugin pp_read d s W
      → (f : Fd) (len : ℕ) → Caught pp_read d s W f.vfd
      → HasRoom len
      → (t : ℤ × List ℕ × Fd) × (virtual_read pp_read s f len ≡ some t)
        × Delivered pp_read d s W f t
  unfolding virtual_read read_by
  wanting-Delivered ok f len c some_len =
      let (t, e, dl) = read_more-Delivered pp_read d s W ok f len c some_len in
      (
        t,
        ap (λ z. read_by pp_read z s f len) c.none_ready
            ∙ ap
                (λ b.
                  if b
                  then (present_pp pp_read s f >>= λ g. shown_more pp_read s g len)
                  else read_more pp_read s f len)
                closed
            ∙ e,
        dl,
      )
    where
      closed : ltb f.vfd.rbufofs f.vfd.rbuflen && not f.vfd.ppwantmore ≡ false
      closed = elim c.mode [
        | inl want ↦ rw want (and_false (ltb f.vfd.rbufofs f.vfd.rbuflen))
        | inr (calm, e) ↦ rw (le→ltb f.vfd.rbufofs f.vfd.rbuflen (omega (arith, e)))
      ]

  -- Nothing is ready, and the plugin has not seen all.
  showing-Delivered :
      IsPlugin pp_read d s W
      → (f : Fd) (len : ℕ) → (h : IsVfd pp_read d s W f.vfd) → f.vfd.tosend ≡ pos 0
      → f.vfd.rlastlen ≡ f.vfd.rbufofs
      → f.vfd.ppwantmore ≡ false
      → W f.vfd.pp_data 0
      → f.vfd.rbufofs < f.vfd.rbuflen
      → HasRoom len
      → (t : ℤ × List ℕ × Fd) × (virtual_read pp_read s f len ≡ some t)
        × Delivered pp_read d s W f t
  unfolding virtual_read read_by
  showing-Delivered ok f len h none_ready el calm hw lt some_len =
      let (g, e, p) =
        present_pp-Presented pp_read d s W ok f 0 h.plugin (omega (arith, el)) hw
          (omega (arith, lt)) h.fits h.size in
      let (t, e', dl) = hand_out-Delivered pp_read d s W g len p.in_order p.more some_len in
      (
        t,
        ap (λ z. read_by pp_read z s f len) none_ready
            ∙ ap
                (λ b.
                  if b
                  then (present_pp pp_read s f >>= λ k. shown_more pp_read s k len)
                  else read_more pp_read s f len)
                opened
            ∙ ap (λ o. o >>= λ k. shown_more pp_read s k len) e
            ∙ shown_more_lem g len p.in_order.ready p.in_order.to_send p.more
            ∙ e',
        from_before f g t p.same_held p.same_input
            (omega (
              arith,
              p.more,
              p.in_order.released,
              p.in_order.fits,
              p.in_order.size,
              length-take (g.vfd.rbuflen - g.vfd.rlastlen) (drop g.vfd.rlastlen g.vfd.rbuf),
              length-drop g.vfd.rlastlen g.vfd.rbuf,
            ))
            dl,
      )
    where
      opened : ltb f.vfd.rbufofs f.vfd.rbuflen && not f.vfd.ppwantmore ≡ true
      opened = rw (lt→ltb f.vfd.rbufofs f.vfd.rbuflen lt, calm)

  pub ready-Delivered :
      (f : Fd) (len : ℕ)
      → (h : IsVfd pp_read d s W f.vfd) → 0 < h.ready
      → HasRoom len
      → (t : ℤ × List ℕ × Fd) × (virtual_read pp_read s f len ≡ some t)
        × Delivered pp_read d s W f t
  unfolding virtual_read read_by
  ready-Delivered f len h more some_len =
      let (t, e, dl) = hand_out-Delivered pp_read d s W f len h more some_len in
      (t, ap (λ z. read_by pp_read z s f len) h.to_send ∙ by_suc f len h.ready more ∙ e, dl)
    where
      by_suc : (f : Fd) (len n : ℕ) → 0 < n → read_by pp_read (pos n) s f len ≡ hand_out f len
      by_suc f len zero more = absurd (omega (arith, more))
      by_suc f len (suc n) more = refl

  pub idle-Delivered :
      IsPlugin pp_read d s W
      → (f : Fd) (len : ℕ) → (h : IsVfd pp_read d s W f.vfd) → h.ready ≡ 0
      → HasRoom len
      → (t : ℤ × List ℕ × Fd) × (virtual_read pp_read s f len ≡ some t)
        × Delivered pp_read d s W f t
  idle-Delivered ok f len h z some_len =
      let none_ready : f.vfd.tosend ≡ pos 0 = h.to_send ∙ ap pos z in
      elim h.mode [
        | inl (want, e, hw) ↦
            wanting-Delivered ok f len
              (record {
                none_ready = none_ready;
                all_returned = omega (arith, e, z);
                ofs_inside = h.ofs_inside;
                fits = h.fits;
                size = h.size;
                plugin = h.plugin;
                refused = hw;
                mode = inl want;
              })
              some_len
        | inr (calm, e, hw) ↦ elim (Bool-cases (ltb f.vfd.rbufofs f.vfd.rbuflen)) [
          | inl lt ↦
              showing-Delivered ok f len h none_ready (omega (arith, e, z)) calm hw
                (ltb→lt f.vfd.rbufofs f.vfd.rbuflen lt) some_len
          | inr ge ↦
              let all : f.vfd.rbufofs ≡ f.vfd.rbuflen =
                omega (arith, h.ofs_inside, ltb→le f.vfd.rbufofs f.vfd.rbuflen ge) in
              wanting-Delivered ok f len
                (record {
                  none_ready = none_ready;
                  all_returned = omega (arith, e, z, all);
                  ofs_inside = h.ofs_inside;
                  fits = h.fits;
                  size = h.size;
                  plugin = h.plugin;
                  refused =
                      subst (W f.vfd.pp_data) {x = 0} {y = f.vfd.rbuflen - f.vfd.rbufofs}
                        (omega (arith, all)) hw;
                  mode = inr (calm, all);
                })
                some_len
        ]
      ]

-- For a plugin that, after it has asked for more than `w` bytes, asks again or uses more than `w` of
-- those that it is shown, and no more; a virtual descriptor in order; and a size from 1 that fits an
-- `int`: whatever the kernel brings at each read, `virtual_read` returns and leaves the descriptor in
-- order. The bytes that it returns, those that it holds and those of the kernel are the stream as
-- before; and it returns a byte at least, unless it held none: then it returns what `real_read` has
-- returned for the room left in the buffer, 0 or -1.
pub virtual_read-Delivered :
    (pp_read : Dispatcher → Data → ℤ → List ℕ → ℕ → Option (Outcome Data)) (d : Dispatcher) (s : ℤ)
    (W : Data → ℕ → Type 0) (f : Fd) (len : ℕ)
    → IsPlugin pp_read d s W
    → IsVfd pp_read d s W f.vfd
    → HasRoom len
    → (t : ℤ × List ℕ × Fd) × (virtual_read pp_read s f len ≡ some t) × Delivered pp_read d s W f t
virtual_read-Delivered pp_read d s W f len ok h some_len = elim (Bool-cases (h.ready == 0)) [
  | inl e ↦ idle-Delivered pp_read d s W ok f len h ((==_iff h.ready 0).0 e) some_len
  | inr e ↦
      let more : h.ready ≢ 0 = ==_ne h.ready 0 e in
      ready-Delivered pp_read d s W f len h (omega (arith, more)) some_len
]
