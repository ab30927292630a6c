-- ===== src/Logd/Retimes.antt =====
-- `transfer_out` of logd/logd.c moves the whole entries of a relay buffer to the log.
use borderpatrol.Base.{
  ℕ, suc, ◌+◌, ◌<◌, ◌≤◌, ◌≡◌, refl, ◌∙◌, ap, true, false, some, List, [], ◌∷◌, ◌++◌, map, arith,
  length, take, All, le→ltb, append_assoc, length-append,
}
use borderpatrol.Fmt.{thaw1}
use borderpatrol.Fmt.Entry.{Entry, IsEntry, entry_bytes, log_bytes, length-entry_bytes}
use borderpatrol.Fmt.RoundTrip.{thaw1-entry_bytes}
use borderpatrol.Logd.{
  Timeval, timersub, timerisset, remote_time, transfer_loop, transfer_out, transfer_round,
  record_timediff,
}
use borderpatrol.Logd.Times.{IsTime, stamped, retime, timeradd-timersub}
use borderpatrol.Logd.Transfer.{loop_lem}

length-log_bytes : (es : List Entry) → length es ≤ length (log_bytes es)
length-log_bytes [] = omega arith
length-log_bytes (e ∷ es) =
    omega (
      arith,
      length-append (entry_bytes e) (log_bytes es),
      length-entry_bytes e,
      length-log_bytes es,
    )

-- For a relay buffer that holds well-formed entries, then an incomplete one, `k` bytes of it, then
-- anything; a time difference that is set; and a log that takes all that is written: `transfer_out`
-- returns. It has written exactly the whole entries, in order, each moved by the time difference;
-- the part of the last entry is at the front of the buffer, and the free room has grown by what was
-- written.
pub transfer_out_retimes :
    (clock : ℕ → Timeval) (diff : Timeval) (es : List Entry) (e : Entry) (k : ℕ) (junk log : List ℕ)
    (avail ticks : ℕ)
    → timerisset diff ≡ true
    → All IsEntry es
    → IsEntry e
    → k < length (entry_bytes e)
    → (junk' : List ℕ) × (transfer_out clock
          (record {
            relay = some (log_bytes es ++ (take k (entry_bytes e) ++ junk));
            b_end = length (log_bytes es) + k;
            avail = avail;
            timediff = diff;
          })
          (record { log = log; writes = []; ticks = ticks })
        ≡ some (
          record {
            relay = some (take k (entry_bytes e) ++ junk');
            b_end = k;
            avail = avail + length (log_bytes es);
            timediff = diff;
          },
          record { log = log ++ log_bytes (map (retime diff) es); writes = []; ticks = ticks },
        ))
unfolding transfer_out
transfer_out_retimes clock diff es e k junk log avail ticks set h he hk =
    loop_lem clock diff set e he k hk es (suc (0 + (length (log_bytes es) + k))) _ log junk _ avail
      ticks h refl refl (omega (arith, length-log_bytes es))

-- For a connection whose difference is not set, with whole entries and a part of another in its
-- buffer, where the clock and the first entry's time differ, and a log that takes all that is written:
-- the difference of the two is recorded, every whole entry goes to the log in order with its time moved
-- by it, and the rest stays at the front of the buffer.
pub transfer_out_first :
    (clock : ℕ → Timeval) (diff : Timeval) (x : Entry) (es : List Entry) (e : Entry) (k : ℕ)
    (junk log : List ℕ) (avail ticks : ℕ)
    → timerisset diff ≡ false
    → timerisset (timersub (clock ticks) (remote_time x.fz)) ≡ true
    → All IsEntry (x ∷ es)
    → IsEntry e
    → k < length (entry_bytes e)
    → let diff' = timersub (clock ticks) (remote_time x.fz) in
      (junk' : List ℕ) × (transfer_out clock
          (record {
            relay = some (log_bytes (x ∷ es) ++ (take k (entry_bytes e) ++ junk));
            b_end = length (log_bytes (x ∷ es)) + k;
            avail = avail;
            timediff = diff;
          })
          (record { log = log; writes = []; ticks = ticks })
        ≡ some (
          record {
            relay = some (take k (entry_bytes e) ++ junk');
            b_end = k;
            avail = avail + length (log_bytes (x ∷ es));
            timediff = diff';
          },
          record {
            log = log ++ log_bytes (map (retime diff') (x ∷ es));
            writes = [];
            ticks = ticks + 1;
          },
        ))
unfolding transfer_out transfer_loop transfer_round record_timediff
transfer_out_first clock diff x es e k junk log avail ticks unset set h he hk =
    let diff' : Timeval = timersub (clock ticks) (remote_time x.fz) in
    let mem : List ℕ = log_bytes (x ∷ es) ++ (take k (entry_bytes e) ++ junk) in
    let (junk', p) =
      loop_lem clock diff' set e he k hk (x ∷ es) (suc (0 + (length (log_bytes (x ∷ es)) + k))) mem
        log junk (length (log_bytes (x ∷ es)) + k) avail (ticks + 1) h refl refl
        (omega (arith, length-log_bytes (x ∷ es))) in
    (junk', same_round ∙ p)
  where
    same_round :
        transfer_loop clock
          (suc (0 + (length (log_bytes (x ∷ es)) + k)))
          (record {
            relay = some (log_bytes (x ∷ es) ++ (take k (entry_bytes e) ++ junk));
            b_end = length (log_bytes (x ∷ es)) + k;
            avail = avail;
            timediff = diff;
          })
          (record { log = log; writes = []; ticks = ticks })
        ≡ transfer_loop clock
            (suc (0 + (length (log_bytes (x ∷ es)) + k)))
            (record {
              relay = some (log_bytes (x ∷ es) ++ (take k (entry_bytes e) ++ junk));
              b_end = length (log_bytes (x ∷ es)) + k;
              avail = avail;
              timediff = timersub (clock ticks) (remote_time x.fz);
            })
            (record { log = log; writes = []; ticks = ticks + 1 })
    same_round =
        let first : thaw1 (log_bytes (x ∷ es) ++ (take k (entry_bytes e) ++ junk)) ≡ some x.fz =
          ap thaw1 (append_assoc (entry_bytes x) (log_bytes es) _) ∙ thaw1-entry_bytes x _ h.0 in
        let enough : 32 ≤ length (log_bytes (x ∷ es)) + k =
          omega (arith, length-append (entry_bytes x) (log_bytes es), length-entry_bytes x) in
        rw (le→ltb (length (log_bytes (x ∷ es)) + k) 32 enough, first, unset, set)

-- For a connection whose difference is not set, with whole entries and a part of another in its
-- buffer, where the clock, whose microseconds are in range, and the first entry's time differ, and a log
-- that takes all that is written: the first entry goes to the log with the time of the daemon's clock,
-- the others behind it in order with their times moved by the difference of the two.
pub transfer_out_first_clock :
    (clock : ℕ → Timeval) (diff : Timeval) (x : Entry) (es : List Entry) (e : Entry) (k : ℕ)
    (junk log : List ℕ) (avail ticks : ℕ)
    → timerisset diff ≡ false
    → timerisset (timersub (clock ticks) (remote_time x.fz)) ≡ true
    → IsTime (clock ticks)
    → All IsEntry (x ∷ es)
    → IsEntry e
    → k < length (entry_bytes e)
    → let diff' = timersub (clock ticks) (remote_time x.fz) in
      (junk' : List ℕ) × (transfer_out clock
          (record {
            relay = some (log_bytes (x ∷ es) ++ (take k (entry_bytes e) ++ junk));
            b_end = length (log_bytes (x ∷ es)) + k;
            avail = avail;
            timediff = diff;
          })
          (record { log = log; writes = []; ticks = ticks })
        ≡ some (
          record {
            relay = some (take k (entry_bytes e) ++ junk');
            b_end = k;
            avail = avail + length (log_bytes (x ∷ es));
            timediff = diff';
          },
          record {
            log =
                log ++ (entry_bytes (stamped (clock ticks) x) ++ log_bytes (map (retime diff') es));
            writes = [];
            ticks = ticks + 1;
          },
        ))
transfer_out_first_clock clock diff x es e k junk log avail ticks unset set time h he hk =
    let diff' : Timeval = timersub (clock ticks) (remote_time x.fz) in
    let (junk', p) =
      transfer_out_first clock diff x es e k junk log avail ticks unset set h he hk in
    (
      junk',
      p
          ∙ ap
              (λ tv. some (
                record {
                  relay = some (take k (entry_bytes e) ++ junk');
                  b_end = k;
                  avail = avail + length (log_bytes (x ∷ es));
                  timediff = diff';
                },
                record {
                  log = log ++ (entry_bytes (stamped tv x) ++ log_bytes (map (retime diff') es));
                  writes = [];
                  ticks = ticks + 1;
                },
              ))
              (timeradd-timersub (clock ticks) (remote_time x.fz) time),
    )
