-- ===== src/Vfd/Writes.antt =====
-- `vwrite_req` of trace/vfd.c shows a plugin what is written, in order.
use borderpatrol.Base.{
  ℕ, suc, ◌+◌, ◌-◌, ◌≤◌, ◌≡◌, refl, sym, ◌∙◌, ap, subst, Option, some, List, [], ◌∷◌, ◌++◌,
  append_assoc, arith, length, take, drop, store, length-append, length-take, length-drop,
  take-append, le→ltb,
}
use borderpatrol.Base.Int.{ℤ}
use borderpatrol.Protocol.{Event, Outcome}
use borderpatrol.Protocol.Framing.{IsFramer}
use borderpatrol.Protocol.Dispatch.{Dispatcher, Data}
use borderpatrol.Vfd.{vbufsize, Vfd}
use borderpatrol.Vfd.Write.{vwrite_loop, keep_unused, vwrite_req}
use borderpatrol.Vfd.WriteLoop.{unused, KeepsAtMost, Looped, loop-Looped}

module _ (pp_write : Dispatcher → Data → ℤ → List ℕ → ℕ → Option (Outcome Data)) (d : Dispatcher)
    (s : ℤ) (At : Data → List ℕ → List Event → Type 0) where
  -- A descriptor whose plugin stands where the bytes it has written and not used begin.
  pub record IsWriter (most : ℕ) (v : Vfd) (future : List ℕ) (due : List Event) : Type 0 where
    pub from_start : v.wbufofs ≡ 0
    pub fits : v.wbuflen ≤ most
    pub size : length v.wbuf ≡ vbufsize
    pub plugin : v.pp_dispatcher ≡ some d
    pub there : At v.pp_data (unused v ++ future) due
    pub finished : future ≡ [] → v.wbuflen ≡ 0

  -- Behind the loop, what is left is at the front.
  kept-IsWriter :
      (most : ℕ) (v : Vfd) (log : List Event) (future junk : List ℕ) (due : List Event)
      (t : Vfd × List Event)
      → length v.wbuf ≡ vbufsize
      → v.wbuflen ≤ vbufsize
      → v.pp_dispatcher ≡ some d
      → (lo : Looped pp_write d s At most future junk due v log t)
      → IsWriter most (keep_unused pp_write t.0) future lo.later
  unfolding keep_unused
  kept-IsWriter most v log future junk due t size fits ed lo =
      let vlen : ℕ = t.0.wbuflen - t.0.wbufofs in
      let len : length lo.left ≡ vlen = omega (arith, lo.left_length, lo.same_len) in
      let copied : take vlen (drop t.0.wbufofs t.0.wbuf) ≡ lo.left =
        ap (λ w. take vlen (drop t.0.wbufofs w)) lo.same_wbuf
        ∙ ap (take vlen) lo.left_is
        ∙ take-append lo.left junk vlen (sym len) in
      let whole : length t.0.wbuf ≡ vbufsize = ap length lo.same_wbuf ∙ size in
      record {
        from_start = refl;
        fits = omega (arith, len, lo.few);
        size = rw copied (
            omega (
              arith,
              length-append lo.left (drop (0 + length lo.left) t.0.wbuf),
              length-drop (0 + length lo.left) t.0.wbuf,
              whole,
              len,
              lo.same_len,
              fits,
            ));
        plugin = lo.same_plugin ∙ ed;
        there =
            subst (λ l. At t.0.pp_data (l ++ future) lo.later)
              (sym (
                ap (λ l. take vlen (l ++ drop (0 + length l) t.0.wbuf)) copied
                ∙ take-append lo.left (drop (0 + length lo.left) t.0.wbuf) vlen (sym len)))
              lo.there;
        finished = λ f. sym len ∙ lo.finished f;
      }

module _ (pp_write : Dispatcher → Data → ℤ → List ℕ → ℕ → Option (Outcome Data)) (d : Dispatcher)
    (s : ℤ) where
  -- The descriptor behind the bytes to be written.
  abbrev grown : Vfd → List ℕ → Vfd
  grown v buf = record v { wbuf = store v.wbuflen buf v.wbuf; wbuflen = v.wbuflen + length buf }

  store_size :
      (v : Vfd) (buf : List ℕ)
      → length v.wbuf ≡ vbufsize
      → v.wbuflen + length buf ≤ vbufsize
      → length (store v.wbuflen buf v.wbuf) ≡ vbufsize
  store_size v buf size room =
      let rest : List ℕ = buf ++ drop (v.wbuflen + length buf) v.wbuf in
      omega (
        arith,
        size,
        room,
        length-append (take v.wbuflen v.wbuf) rest,
        length-append buf (drop (v.wbuflen + length buf) v.wbuf),
        length-take v.wbuflen v.wbuf,
        length-drop (v.wbuflen + length buf) v.wbuf,
      )

  Runs : Vfd → List ℕ → Vfd × List Event → Type 0
  Runs v buf t =
      vwrite_loop pp_write (suc (v.wbuflen + length buf - v.wbufofs)) d s (grown v buf) [] ≡ some t
      → vwrite_req pp_write v s buf ≡ some (keep_unused pp_write t.0, t.1)

  plugin-Runs :
      (v : Vfd) (b : ℕ) (buf : List ℕ) (t : Vfd × List Event)
      → v.wbuflen + length (b ∷ buf) ≤ vbufsize
      → Runs (record v { pp_dispatcher = some d }) (b ∷ buf) t
  unfolding Runs vwrite_req
  plugin-Runs v b buf t room e = rw (le→ltb vbufsize (v.wbuflen + length (b ∷ buf)) room, e)

  vwrite_req-Runs :
      (v : Vfd) (b : ℕ) (buf : List ℕ) (t : Vfd × List Event)
      → v.pp_dispatcher ≡ some d
      → v.wbuflen + length (b ∷ buf) ≤ vbufsize
      → Runs v (b ∷ buf) t
  vwrite_req-Runs v b buf t plugin room =
      subst (λ p. Runs (record v { pp_dispatcher = p }) (b ∷ buf) t) (sym plugin)
        (plugin-Runs v b buf t room)

-- For a plugin that keeps its place in a stream (`IsFramer`) and uses nothing only of `most` bytes or
-- fewer, a descriptor whose plugin stands where the unused bytes begin, with the bytes to be written
-- behind them, and a write that has room behind `most` bytes: `vwrite_req` returns, what it logs is
-- what is due next, and the descriptor is again such a one for what is written later.
pub vwrite_req_in_order :
    (pp_write : Dispatcher → Data → ℤ → List ℕ → ℕ → Option (Outcome Data)) (d : Dispatcher) (s : ℤ)
    (At : Data → List ℕ → List Event → Type 0) (most : ℕ) (v : Vfd) (buf future : List ℕ)
    (due : List Event)
    → IsFramer (λ t b n. pp_write d t s b n) At
    → KeepsAtMost pp_write d s At most
    → IsWriter pp_write d s At most v (buf ++ future) due
    → most + length buf ≤ vbufsize
    → (v' : Vfd) × (events : List Event) × (later : List Event) × (vwrite_req pp_write v s buf
        ≡ some (v', events))
      × (due ≡ events ++ later)
      × IsWriter pp_write d s At most v' future later
unfolding vwrite_req Runs
vwrite_req_in_order pp_write d s At most v [] future due fr keeps h room =
    (v, [], due, refl, refl, h)
vwrite_req_in_order pp_write d s At most v (b ∷ buf) future due fr keeps h room =
    let wbuflen : ℕ = v.wbuflen + length (b ∷ buf) in
    let roomy : wbuflen ≤ vbufsize = omega (arith, room, h.fits) in
    let junk : List ℕ = drop wbuflen v.wbuf in
    let v0 : Vfd = grown pp_write d s v (b ∷ buf) in
    let P : List ℕ = unused v ++ (b ∷ buf) in
    let shown : drop v.wbufofs v0.wbuf ≡ P ++ junk =
      ap (λ k. drop k v0.wbuf) h.from_start ∙ sym (append_assoc (unused v) (b ∷ buf) junk) in
    let lP : length P ≡ wbuflen - v.wbufofs = omega (
      arith,
      length-append (unused v) (b ∷ buf),
      length-take v.wbuflen v.wbuf,
      h.from_start,
      h.size,
      roomy,
    ) in
    let (t, e, lo) =
      loop-Looped pp_write d s At most fr keeps (suc (wbuflen - v.wbufofs)) v0 [] P future junk due
        shown lP
        (subst (λ l. At v.pp_data l due) (sym (append_assoc (unused v) (b ∷ buf) future)) h.there)
        (omega (arith, lP)) in
    (
      keep_unused pp_write t.0,
      lo.events,
      lo.later,
      vwrite_req-Runs pp_write d s v b buf t h.plugin roomy e
          ∙ ap (λ l. some (keep_unused pp_write t.0, l)) lo.logged,
      lo.in_order,
      kept-IsWriter pp_write d s At most v0 [] future junk due t
          (store_size pp_write d s v (b ∷ buf) h.size roomy) roomy h.plugin lo,
    )
