-- ===== src/Binlog/Log.antt =====
-- `LOGBIN_gen` of logd/binlog.c appends one well-formed entry to the thread's stream: what the
-- descriptor has taken, then what the buffer holds.
use borderpatrol.Base.{
  ℕ, ◌+◌, ◌*◌, ◌%◌, ◌^◌, ◌<◌, ◌≤◌, ◌≡◌, refl, sym, ◌∙◌, ap, some, List, [], ◌∷◌, ◌++◌, map,
  append_assoc, arith, length, take, drop, store, length-append, length-take, length-drop,
  take-append, All, All-append, All-take, All-drop,
}
use borderpatrol.Base.Int.{ℤ}
use borderpatrol.Base.Bytes.{IsByte}
use borderpatrol.Fmt.{Frozen, frozen_bytes}
use borderpatrol.Fmt.Entry.{
  Entry, IsEntry, entry_bytes, args_le, tail_bytes, length-frozen_bytes, length-entry_bytes,
}
use borderpatrol.Binlog.{
  Ctx, Time, pipe_buf, no_newline, lb_populate, lb_alloc_entry, logbin_gen, set_args, set_str,
}
use borderpatrol.Binlog.Buffer.{written}
use borderpatrol.Binlog.Logged.{
  IsLogger, stream, SameThread, alloc_lem, size_lem, length-map, length-patterns, logged,
  logged-IsEntry, frozen_bytes-IsByte, args_le-IsByte, no_newline-IsByte, old_entry,
}

module _ (t : Time) (sc rv : ℤ) (vals : List ℤ) (num : ℕ) (s : List ℕ) (c : Ctx) (base : ℕ)
    (old : Frozen) (n : length vals ≡ num) (n3 : num ≤ 3) (sl : length s < 65536)
    (inside : base + (32 + (4 * num + length s)) ≤ length c.lb) where
  abbrev e : Entry
  e = logged t c sc rv vals s old

  abbrev new_lb : List ℕ
  new_lb = take base c.lb ++ (entry_bytes e ++ drop (base + (32 + (4 * num + length s))) c.lb)

  same_fz :
      record (lb_populate t c sc rv old) { arg_len = num % 2 ^ 8; str_len = length s % 2 ^ 16 }
      ≡ record (lb_populate t c sc rv old) { arg_len = length vals; str_len = length s }
  same_fz =
      let a : num % 2 ^ 8 ≡ length vals = omega arith in
      let b : length s % 2 ^ 16 ≡ length s = omega arith in
      λ i. record (lb_populate t c sc rv old) { arg_len = a i; str_len = b i }

  lb_after :
      set_args (base + 32) vals (
        set_str (base + 32 + num * 4) s (
          store base
            (frozen_bytes (record (lb_populate t c sc rv old) {
              arg_len = num % 2 ^ 8;
              str_len = length s % 2 ^ 16;
            }))
            c.lb))
      ≡ new_lb
  unfolding logged entry_bytes set_str
  lb_after =
      rw (same_fz, ← n)
        (written c.lb (frozen_bytes e.fz) (map no_newline s) vals base (length-frozen_bytes e.fz)
            (omega (arith, length-map s))
          ∙ ap (λ l. take base c.lb ++ l) regroup)
    where
      D : ℕ → List ℕ
      D k = drop (base + (32 + (4 * length vals + k))) c.lb

      regroup :
          frozen_bytes e.fz ++ (args_le e.args ++ (e.text ++ D (length e.text)))
          ≡ (frozen_bytes e.fz ++ (args_le e.args ++ e.text)) ++ D (length s)
      regroup = rw (
        length-map s,
        append_assoc (frozen_bytes e.fz) (args_le e.args ++ e.text) (D (length s)),
        append_assoc (args_le e.args) e.text (D (length s)),
      )

  size_e : length (entry_bytes e) ≡ 32 + (4 * num + length s)
  unfolding logged
  size_e = omega (arith, length-entry_bytes e, length-patterns vals, length-map s)

  length-new_lb : length new_lb ≡ length c.lb
  length-new_lb = omega (
    arith,
    length-append (take base c.lb)
        (entry_bytes e ++ drop (base + (32 + (4 * num + length s))) c.lb),
    length-append (entry_bytes e) (drop (base + (32 + (4 * num + length s))) c.lb),
    length-take base c.lb,
    length-drop (base + (32 + (4 * num + length s))) c.lb,
    size_e,
  )

  new_lb-IsByte : All IsByte c.lb → All IsByte s → All IsByte new_lb
  unfolding entry_bytes logged
  new_lb-IsByte h b = All-append IsByte (take base c.lb) _ (All-take IsByte base c.lb h) (
      All-append IsByte (entry_bytes e) _
        (All-append IsByte (frozen_bytes e.fz) (tail_bytes e) (frozen_bytes-IsByte e.fz) (
          All-append IsByte (args_le e.args) e.text (args_le-IsByte e.args)
            (no_newline-IsByte s b)))
        (All-drop IsByte (base + (32 + (4 * num + length s))) c.lb h))

  new_stream :
      (sent : List ℕ)
      → sent ++ take (base + (32 + (4 * num + length s))) new_lb
        ≡ (sent ++ take base c.lb) ++ entry_bytes e
  new_stream sent =
      let D : List ℕ = drop (base + (32 + (4 * num + length s))) c.lb in
      ap (λ l. sent ++ take (base + (32 + (4 * num + length s))) l)
        (sym (append_assoc (take base c.lb) (entry_bytes e) D))
      ∙ ap (λ l. sent ++ l)
          (take-append (take base c.lb ++ entry_bytes e) D (base + (32 + (4 * num + length s))) (
            omega (
              arith,
              length-append (take base c.lb) (entry_bytes e),
              length-take base c.lb,
              size_e,
            )))
      ∙ sym (append_assoc sent (take base c.lb) (entry_bytes e))

-- For a thread whose writes succeed and whose buffer is in order, a call with `num` arguments, at
-- most 3, and a string whose entry fits the buffer: the call returns, and exactly one well-formed
-- entry is appended to the thread's stream, the one that `logged` describes; the buffer stays in
-- order, and the thread's identity and frozen time stay as they are. Nothing else of the stream changes, whether or not the call flushes, and however short
-- the writes are.
pub logbin_gen-appends :
    (t : Time) (sc rv i1 i2 i3 : ℤ) (num : ℕ) (s : List ℕ) (c : Ctx)
    → IsLogger c
    → c.prog_nm < 256
    → All IsByte s
    → num ≤ 3
    → 32 + (4 * num + length s) ≤ pipe_buf
    → (old : Frozen) × (c' : Ctx) × (logbin_gen t sc rv i1 i2 i3 num s c ≡ some c')
      × IsLogger c'
      × SameThread c c'
      × (stream c'
          ≡ stream c ++ entry_bytes (logged t c sc rv (take num (i1 ∷ i2 ∷ i3 ∷ [])) s old))
      × IsEntry (logged t c sc rv (take num (i1 ∷ i2 ∷ i3 ∷ [])) s old)
unfolding logbin_gen lb_alloc_entry lb_populate
logbin_gen-appends t sc rv i1 i2 i3 num s c h nm bs n3 fits =
    let size : ℕ = 32 + (4 * num + length s) in
    let (base, sent, ws, p, inside, same, ok) = alloc_lem size c h fits in
    let (old, r, pad) =
      old_entry (drop base c.lb) (All-drop IsByte base c.lb h.bytes)
        (omega (arith, length-drop base c.lb, h.room)) in
    let vals : List ℤ = take num (i1 ∷ i2 ∷ i3 ∷ []) in
    let n : length vals ≡ num = omega (arith, length-take num (i1 ∷ i2 ∷ i3 ∷ [])) in
    let sl : length s < 65536 = omega arith in
    let room : base + size ≤ length c.lb = omega (arith, h.room) in
    (
      old,
      record c {
        lbptr = base + size;
        sent = sent;
        writes = ws;
        lb = new_lb t sc rv vals num s c base old n n3 sl room;
      },
      rw (size_lem num (length s), p, r)
          (ap (λ l. some (record c { lbptr = base + size; sent = sent; writes = ws; lb = l }))
            (lb_after t sc rv vals num s c base old n n3 sl room)),
      record {
        room = length-new_lb t sc rv vals num s c base old n n3 sl room ∙ h.room;
        fits = inside;
        bytes = new_lb-IsByte t sc rv vals num s c base old n n3 sl room h.bytes bs;
        writes_succeed = ok;
      },
      record {
        same_pid = refl;
        same_tid = refl;
        same_prog = refl;
        same_high = refl;
        same_low = refl;
      },
      new_stream t sc rv vals num s c base old n n3 sl room sent
          ∙ ap (λ l. l ++ entry_bytes (logged t c sc rv vals s old)) same,
      logged-IsEntry t c sc rv vals s old nm (omega (arith, length-take num (i1 ∷ i2 ∷ i3 ∷ [])))
          (omega arith) pad,
    )
