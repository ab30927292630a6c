-- ===== src/Vfd/WriteLoop.antt =====
-- The loop of `vwrite_req` of trace/vfd.c.
use borderpatrol.Base.{
  ℕ, zero, suc, ◌+◌, ◌-◌, ◌<◌, ◌≤◌, ◌≡◌, refl, sym, ◌∙◌, ap, subst, inl, inr, ◌⊎◌, false, Option,
  some, List, [], ◌++◌, append-nil, append_assoc, arith, length, take, drop, ◌==◌, length-append,
  length-drop, drop-append_le, drop-drop, take-append, le→ltb, Bool-cases, ==_iff,
}
use borderpatrol.Base.Int.{ℤ, pos, negsuc, pos_part}
use borderpatrol.Protocol.{Event, Outcome}
use borderpatrol.Protocol.Framing.{IsFramer, Took}
use borderpatrol.Protocol.Dispatch.{Dispatcher, Data}
use borderpatrol.Vfd.{Vfd}
use borderpatrol.Vfd.Write.{vwrite_loop}

-- What has been written and not used.
abbrev pub unused : Vfd → List ℕ
unused v = take v.wbuflen v.wbuf

ret_cases : (z : ℤ) → ((n : ℕ) × (z ≡ negsuc n)) ⊎ ((z ≡ pos 0) ⊎ ((n : ℕ) × (z ≡ pos (suc n))))
ret_cases (negsuc n) = inl (n, refl)
ret_cases (pos zero) = inr (inl refl)
ret_cases (pos (suc n)) = inr (inr (n, refl))

module _ (pp_write : Dispatcher → Data → ℤ → List ℕ → ℕ → Option (Outcome Data)) (d : Dispatcher)
    (s : ℤ) (At : Data → List ℕ → List Event → Type 0) where
  abbrev speak : Data → List ℕ → ℕ → Option (Outcome Data)
  speak t buf len = pp_write d t s buf len

  -- The plugin uses nothing only of so many bytes.
  abbrev pub KeepsAtMost : ℕ → Type 0
  KeepsAtMost most =
      (st : Data) (rest : List ℕ) (due : List Event) (n : ℕ) (behind : List ℕ) (r : Outcome Data)
      → At st rest due
      → n ≤ length rest
      → speak st (take n rest ++ behind) n ≡ some r
      → pos_part r.ret ≡ 0
      → n ≤ most

  -- What the loop leaves: some of what is due has been logged, and the rest of the bytes is there.
  pub record Looped (most : ℕ) (future junk : List ℕ) (due : List Event) (v : Vfd)
      (log : List Event) (t : Vfd × List Event) : Type 0 where
    pub left : List ℕ
    pub events : List Event
    pub later : List Event
    pub logged : t.1 ≡ log ++ events
    pub in_order : due ≡ events ++ later
    pub there : At t.0.pp_data (left ++ future) later
    pub left_is : drop t.0.wbufofs v.wbuf ≡ left ++ junk
    pub left_length : length left ≡ v.wbuflen - t.0.wbufofs
    pub few : length left ≤ most
    pub finished : future ≡ [] → length left ≡ 0
    pub same_wbuf : t.0.wbuf ≡ v.wbuf
    pub same_len : t.0.wbuflen ≡ v.wbuflen
    pub same_plugin : t.0.pp_dispatcher ≡ v.pp_dispatcher

  nothing_left : (l n u : ℕ) → l ≡ n → u ≡ 0 → (0 < n → 0 < u) → l ≡ 0
  nothing_left l n u e z on = ground (arith, e, z, on)

  stop :
      (most : ℕ) (v : Vfd) (log : List Event) (P future junk : List ℕ) (due : List Event)
      (r : Outcome Data)
      → (t : Took speak At (v.wbuflen - v.wbufofs) (P ++ future) due r) → pos_part r.ret ≡ 0
      → drop v.wbufofs v.wbuf ≡ P ++ junk
      → length P ≡ v.wbuflen - v.wbufofs
      → v.wbuflen - v.wbufofs ≤ most
      → Looped most future junk due v log (record v { pp_data = r.state }, log ++ r.events)
  stop most v log P future junk due r t z eP lP few = record {
    left = P;
    events = r.events;
    later = t.still_due;
    logged = refl;
    in_order = t.in_order;
    there = subst (λ m. At r.state (drop m (P ++ future)) t.still_due) z t.there;
    left_is = eP;
    left_length = lP;
    few = omega (arith, lP, few);
    finished = λ f.
        nothing_left (length P) (v.wbuflen - v.wbufofs) (pos_part r.ret) lP z
          (t.gets_on (sym lP ∙ ap length (sym (append-nil P)) ∙ ap (λ l. length (P ++ l)) (sym f)));
    same_wbuf = refl;
    same_len = refl;
    same_plugin = refl;
  }

  module _ (fuel : ℕ) (v : Vfd) (log : List Event) (r : Outcome Data)
      (some_left : (v.wbuflen - v.wbufofs == 0) ≡ false)
      (called : pp_write d v.pp_data s (drop v.wbufofs v.wbuf) (v.wbuflen - v.wbufofs)
        ≡ some r) where
    goes_on :
        (k : ℕ)
        → r.ret ≡ pos (suc k)
        → suc k ≤ v.wbuflen - v.wbufofs
        → vwrite_loop pp_write (suc fuel) d s v log
          ≡ vwrite_loop pp_write fuel d s
              (record v { pp_data = r.state; wbufofs = v.wbufofs + suc k })
              (log ++ r.events)
    unfolding vwrite_loop
    goes_on k e within = rw (some_left, called, e, le→ltb (v.wbuflen - v.wbufofs) (suc k) within)

    stops :
        (r.ret ≡ pos 0) ⊎ ((n : ℕ) × (r.ret ≡ negsuc n))
        → vwrite_loop pp_write (suc fuel) d s v log
          ≡ some (record v { pp_data = r.state }, log ++ r.events)
    unfolding vwrite_loop
    stops (inl e) = rw (some_left, called, e)
    stops (inr (n, e)) = rw (some_left, called, e)

  pub loop-Looped :
      (most : ℕ)
      → IsFramer speak At
      → KeepsAtMost most
      → (fuel : ℕ) (v : Vfd) (log : List Event) (P future junk : List ℕ) (due : List Event)
      → drop v.wbufofs v.wbuf ≡ P ++ junk
      → length P ≡ v.wbuflen - v.wbufofs
      → At v.pp_data (P ++ future) due
      → length P < fuel
      → (t : Vfd × List Event) × (vwrite_loop pp_write fuel d s v log ≡ some t)
        × Looped most future junk due v log t
  unfolding vwrite_loop
  loop-Looped most fr keeps zero v log P future junk due eP lP at lt = absurd (omega (arith, lt))
  loop-Looped most fr keeps (suc fuel) v log P future junk due eP lP at lt =
      elim (Bool-cases (v.wbuflen - v.wbufofs == 0)) [
        | inl e ↦ (
          (v, log),
          rw e,
          record {
            left = P;
            events = [];
            later = due;
            logged = sym (append-nil log);
            in_order = refl;
            there = at;
            left_is = eP;
            left_length = lP;
            few = omega (arith, lP, (==_iff (v.wbuflen - v.wbufofs) 0).0 e);
            finished = λ f. omega (arith, lP, (==_iff (v.wbuflen - v.wbufofs) 0).0 e);
            same_wbuf = refl;
            same_len = refl;
            same_plugin = refl;
          },
        )
        | inr e ↦
            let n : ℕ = v.wbuflen - v.wbufofs in
            let shown : take n (P ++ future) ++ junk ≡ drop v.wbufofs v.wbuf =
              ap (λ l. l ++ junk) (take-append P future n (sym lP)) ∙ sym eP in
            let (r, er, t) =
              fr v.pp_data (P ++ future) due n junk at
                (omega (arith, lP, length-append P future)) in
            let called : pp_write d v.pp_data s (drop v.wbufofs v.wbuf) n ≡ some r =
              ap (λ b. pp_write d v.pp_data s b n) (sym shown) ∙ er in
            let stopped : pos_part r.ret ≡ 0
                → Looped most future junk due v log
                    (record v { pp_data = r.state }, log ++ r.events) =
              λ z. stop most v log P future junk due r t z eP lP (
                keeps v.pp_data (P ++ future) due n junk r at
                  (omega (arith, lP, length-append P future)) er z) in
            elim (ret_cases r.ret) [
              | inl (k, er') ↦ (
                (record v { pp_data = r.state }, log ++ r.events),
                stops fuel v log r e called (inr (k, er')),
                stopped (ap pos_part er'),
              )
              | inr (inl er') ↦ (
                (record v { pp_data = r.state }, log ++ r.events),
                stops fuel v log r e called (inl er'),
                stopped (ap pos_part er'),
              )
              | inr (inr (k, er')) ↦
                  let v1 : Vfd = record v { pp_data = r.state; wbufofs = v.wbufofs + suc k } in
                  let within : suc k ≤ n = omega (arith, t.within, ap pos_part er') in
                  let e1 : drop (v.wbufofs + suc k) v.wbuf ≡ drop (suc k) P ++ junk =
                    sym (drop-drop v.wbufofs (suc k) v.wbuf)
                    ∙ ap (drop (suc k)) eP
                    ∙ drop-append_le (suc k) P junk (omega (arith, lP, within)) in
                  let l1 : length (drop (suc k) P) ≡ v.wbuflen - (v.wbufofs + suc k) =
                    omega (arith, lP, within, length-drop (suc k) P) in
                  let at1 : At r.state (drop (suc k) P ++ future) t.still_due =
                    subst (λ l. At r.state l t.still_due)
                      (ap (λ m. drop m (P ++ future)) (ap pos_part er')
                        ∙ drop-append_le (suc k) P future (omega (arith, lP, within)))
                      t.there in
                  let (u, eu, lo) =
                    loop-Looped most fr keeps fuel v1 (log ++ r.events) (drop (suc k) P) future junk
                      t.still_due e1 l1 at1
                      (omega (arith, lt, length-drop (suc k) P, lP, within)) in
                  (
                    u,
                    goes_on fuel v log r e called k er' within ∙ eu,
                    record {
                      left = lo.left;
                      events = r.events ++ lo.events;
                      later = lo.later;
                      logged = lo.logged ∙ append_assoc log r.events lo.events;
                      in_order =
                          t.in_order
                          ∙ ap (λ l. r.events ++ l) lo.in_order
                          ∙ sym (append_assoc r.events lo.events lo.later);
                      there = lo.there;
                      left_is = lo.left_is;
                      left_length = lo.left_length;
                      few = lo.few;
                      finished = lo.finished;
                      same_wbuf = lo.same_wbuf;
                      same_len = lo.same_len;
                      same_plugin = lo.same_plugin;
                    },
                  )
            ]
      ]
