-- ===== src/Logd/Transfer.antt =====
-- `transfer_out` and `transfer_in` of logd/logd.c on a buffer of log entries.
use borderpatrol.Base.{
  ℕ, zero, suc, ◌+◌, ◌-◌, ◌<◌, ◌≤◌, ◌≡◌, sym, ◌∙◌, ap, true, false, some, List, [], ◌∷◌, ◌++◌,
  append-nil, append_assoc, map, arith, length, take, drop, All, ltb, length-append, length-take,
  take-append, le→ltb, lt→ltb, ltb→le, Bool-cases, inl, inr,
}
use borderpatrol.Fmt.Entry.{Entry, IsEntry, entry_bytes, length-entry_bytes, log_bytes}
use borderpatrol.Fmt.RoundTrip.{thaw1-entry_bytes, drop-entry_bytes, frozen_size_lem}
use borderpatrol.Logd.{
  Timeval, timerisset, Conn, Out, move_down, transfer_entry, transfer_sized, transfer_round,
  transfer_loop,
}
use borderpatrol.Logd.Times.{
  retime, move_down_lem, entry_size, thaw2_sized, freeze-retimed, thaw1-part,
}

module _ (clock : ℕ → Timeval) (diff : Timeval) (set : timerisset diff ≡ true) where
  abbrev conn : List ℕ → ℕ → ℕ → Conn
  conn mem b_end avail = record { relay = some mem; b_end = b_end; avail = avail; timediff = diff }

  abbrev out : List ℕ → ℕ → Out
  out log ticks = record { log = log; writes = []; ticks = ticks }

  -- A whole entry is written at once.
  entry_written :
      (size : ℕ) (buf mem log : List ℕ) (b_end avail ticks : ℕ)
      → size ≡ length buf
      → 0 < size
      → transfer_entry size buf mem (conn mem b_end avail) (out log ticks)
        ≡ some (
          conn (move_down size (b_end - size) mem) (b_end - size) (avail + size),
          out (log ++ buf) ticks,
        )
  unfolding transfer_entry
  entry_written zero buf mem log b_end avail ticks e h = absurd (omega (arith, h))
  entry_written (suc n) buf mem log b_end avail ticks e h =
      let whole : take (suc n) buf ≡ buf =
        ap (λ l. take (suc n) l) (sym (append-nil buf)) ∙ take-append buf [] (suc n) e in
      rw whole

  -- A round of the loop on an entry that is there.
  round_lem :
      (e : Entry) (rest log : List ℕ) (b_end avail ticks : ℕ)
      → IsEntry e
      → entry_size e ≤ b_end
      → transfer_round clock
          (entry_bytes e ++ rest)
          (conn (entry_bytes e ++ rest) b_end avail)
          (out log ticks)
        ≡ some (
          true,
          conn
              (move_down (entry_size e) (b_end - entry_size e) (entry_bytes e ++ rest))
              (b_end - entry_size e)
              (avail + entry_size e),
          out (log ++ entry_bytes (retime diff e)) ticks,
        )
  unfolding transfer_round transfer_sized
  round_lem e rest log b_end avail ticks h fits = rw (
    thaw1-entry_bytes e rest h,
    frozen_size_lem e h,
    set,
    le→ltb b_end (entry_size e) fits,
    drop-entry_bytes e rest,
    thaw2_sized e rest h,
    freeze-retimed diff e h,
    entry_written (entry_size e) (entry_bytes (retime diff e)) (entry_bytes e ++ rest) log b_end
        avail ticks (sym (length-entry_bytes (retime diff e))) (omega arith),
  )

  module _ (e : Entry) (he : IsEntry e) (k : ℕ) (hk : k < length (entry_bytes e)) where
    -- The beginning of an entry of which a part has not come.
    abbrev part : List ℕ
    part = take k (entry_bytes e)

    length-part : length part ≡ k
    length-part = omega (arith, length-take k (entry_bytes e), hk)

    -- The loop stops at it.
    part_round :
        (junk log : List ℕ) (avail ticks : ℕ)
        → 32 ≤ k
        → transfer_round clock (part ++ junk) (conn (part ++ junk) k avail) (out log ticks)
          ≡ some (false, conn (part ++ junk) k avail, out log ticks)
    unfolding transfer_round transfer_sized
    part_round junk log avail ticks h = rw (
      thaw1-part e he k h junk,
      frozen_size_lem e he,
      set,
      lt→ltb k (entry_size e) (omega (arith, hk, length-entry_bytes e)),
    )

    loop_part :
        (fuel : ℕ) (junk log : List ℕ) (avail ticks : ℕ)
        → 0 < fuel
        → transfer_loop clock fuel (conn (part ++ junk) k avail) (out log ticks)
          ≡ some (conn (part ++ junk) k avail, out log ticks)
    unfolding transfer_loop
    loop_part zero junk log avail ticks h = absurd (omega (arith, h))
    loop_part (suc fuel) junk log avail ticks h = elim (Bool-cases (ltb k 32)) [
      | inl short ↦ rw short
      | inr enough ↦ rw (enough, part_round junk log avail ticks (ltb→le k 32 enough))
    ]

    pub loop_lem :
        (es : List Entry) (fuel : ℕ) (mem log junk : List ℕ) (b_end avail ticks : ℕ)
        → All IsEntry es
        → mem ≡ log_bytes es ++ (part ++ junk)
        → b_end ≡ length (log_bytes es) + k
        → length es < fuel
        → (junk' : List ℕ) × (transfer_loop clock fuel (conn mem b_end avail) (out log ticks)
            ≡ some (
              conn (part ++ junk') k (avail + length (log_bytes es)),
              out (log ++ log_bytes (map (retime diff) es)) ticks,
            ))
    unfolding transfer_loop
    loop_lem es zero mem log junk b_end avail ticks h em eb hf = absurd (omega (arith, hf))
    loop_lem [] (suc fuel) mem log junk b_end avail ticks h em eb hf =
        let same : b_end ≡ k = omega (arith, eb) in
        let av : avail + 0 ≡ avail = omega arith in
        (
          junk,
          ap (λ b. transfer_loop clock (suc fuel) (conn mem b avail) (out log ticks)) same
              ∙ ap (λ m. transfer_loop clock (suc fuel) (conn m k avail) (out log ticks)) em
              ∙ loop_part (suc fuel) junk log avail ticks (omega arith)
              ∙ rw (av, append-nil log),
        )
    loop_lem (x ∷ es) (suc fuel) mem log junk b_end avail ticks h em eb hf =
        let size : ℕ = entry_size x in
        let B : List ℕ = log_bytes es ++ part in
        let len : length (entry_bytes x) ≡ size = length-entry_bytes x in
        let left : b_end - size ≡ length (log_bytes es) + k =
          omega (arith, eb, len, length-append (entry_bytes x) (log_bytes es)) in
        let whole : mem ≡ entry_bytes x ++ (B ++ junk) =
          em
          ∙ append_assoc (entry_bytes x) (log_bytes es) (part ++ junk)
          ∙ ap (λ l. entry_bytes x ++ l) (sym (append_assoc (log_bytes es) part junk)) in
        let moved : move_down size (b_end - size) (entry_bytes x ++ (B ++ junk))
            ≡ log_bytes es ++ (part ++ drop (b_end - size) (entry_bytes x ++ (B ++ junk))) =
          move_down_lem (entry_bytes x) B junk size (b_end - size) (sym len)
            (omega (arith, left, length-append (log_bytes es) part, length-part))
          ∙ append_assoc (log_bytes es) part _ in
        let (junk', p) =
          loop_lem es fuel (move_down size (b_end - size) (entry_bytes x ++ (B ++ junk)))
            (log ++ entry_bytes (retime diff x))
            (drop (b_end - size) (entry_bytes x ++ (B ++ junk))) (b_end - size) (avail + size) ticks
            h.1 moved left (omega (arith, hf)) in
        let total : avail + size + length (log_bytes es)
            ≡ avail + length (entry_bytes x ++ log_bytes es) =
          omega (arith, len, length-append (entry_bytes x) (log_bytes es)) in
        (
          junk',
          ap (λ m. transfer_loop clock (suc fuel) (conn m b_end avail) (out log ticks)) whole
              ∙ rw (
                le→ltb b_end 32
                    (omega (arith, eb, len, length-append (entry_bytes x) (log_bytes es))),
                round_lem x (B ++ junk) log b_end avail ticks h.0
                    (omega (arith, eb, len, length-append (entry_bytes x) (log_bytes es))),
                p,
                total,
                append_assoc log (entry_bytes (retime diff x)) (log_bytes (map (retime diff) es)),
              ),
        )
