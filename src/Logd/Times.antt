-- ===== src/Logd/Times.antt =====
-- The times of logd/logd.c, and entries whose times are moved.
use borderpatrol.Base.{
  ℕ, ◌+◌, ◌-◌, ◌*◌, ◌^◌, ◌<◌, ◌≤◌, ◌≡◌, sym, ◌∙◌, ap, true, false, some, List, ◌++◌, append_assoc,
  arith, length, take, drop, take-append, drop-append, le→ltb, lt→ltb, ltb→lt, take-append_ge,
  Bool-cases, inl, inr,
}
use borderpatrol.Base.Int.{ℤ, pos, negsuc, ◌+ℤ◌, ◌-ℤ◌, ltb_ℤ, ◌≤ℤ◌, int_laws}
use borderpatrol.Fmt.{thaw1, thaw2, freeze, frozen_bytes}
use borderpatrol.Fmt.Entry.{Entry, IsEntry, entry_bytes, tail_bytes, thawed, length-frozen_bytes}
use borderpatrol.Fmt.RoundTrip.{thaw1-frozen_bytes, thaw2_lem, freeze_lem, frozen_size_lem}
use borderpatrol.Binlog.{pattern_of}
use borderpatrol.Logd.{Timeval, timersub, timeradd, remote_time, move_down, retimed}

-- A time with its microseconds in range.
pub record IsTime (t : Timeval) : Type 0 where
  pub from : pos 0 ≤ℤ t.tv_usec
  pub to : ltb_ℤ t.tv_usec (pos 1000000) ≡ true

-- For a local time with its microseconds in range and any remote time: the remote time, moved by the
-- difference that was recorded, is the local time.
pub timeradd-timersub :
    (local remote : Timeval) → IsTime local → timeradd remote (timersub local remote) ≡ local
unfolding timeradd timersub
timeradd-timersub local remote h =
    elim (Bool-cases (ltb_ℤ (local.tv_usec -ℤ remote.tv_usec) (pos 0))) [
      | inl e ↦
          let f : ltb_ℤ (remote.tv_usec +ℤ (local.tv_usec -ℤ remote.tv_usec +ℤ pos 1000000))
                (pos 1000000)
              ≡ false =
            le→ltb _ _ (omega (int_laws, h.from)) in
          let sec : remote.tv_sec +ℤ (local.tv_sec -ℤ remote.tv_sec -ℤ pos 1) +ℤ pos 1
              ≡ local.tv_sec =
            omega int_laws in
          let usec : remote.tv_usec
                +ℤ (local.tv_usec -ℤ remote.tv_usec +ℤ pos 1000000)
                -ℤ pos 1000000
              ≡ local.tv_usec =
            omega int_laws in
          rw (e, f) (λ i. record { tv_sec = sec i; tv_usec = usec i })
      | inr e ↦
          let f : ltb_ℤ (remote.tv_usec +ℤ (local.tv_usec -ℤ remote.tv_usec)) (pos 1000000) ≡ true =
            lt→ltb _ _ (omega (int_laws, ltb→lt _ _ h.to)) in
          let sec : remote.tv_sec +ℤ (local.tv_sec -ℤ remote.tv_sec) ≡ local.tv_sec =
            omega int_laws in
          let usec : remote.tv_usec +ℤ (local.tv_usec -ℤ remote.tv_usec) ≡ local.tv_usec =
            omega int_laws in
          rw (e, f) (λ i. record { tv_sec = sec i; tv_usec = usec i })
    ]

-- The entry with another time.
abbrev pub stamped : Timeval → Entry → Entry
stamped tv e = record e {
  fz = record e.fz {
    cycle_high = pattern_of (2 ^ 32) tv.tv_sec;
    cycle_low = pattern_of (2 ^ 32) tv.tv_usec;
  };
}

-- The entry with its time moved.
abbrev pub retime : Timeval → Entry → Entry
retime diff e =
    let newtime : Timeval = timeradd (remote_time e.fz) diff in
    record e {
      fz = record e.fz {
        cycle_high = pattern_of (2 ^ 32) newtime.tv_sec;
        cycle_low = pattern_of (2 ^ 32) newtime.tv_usec;
      };
    }

pattern_fits : (v : ℤ) → pattern_of (2 ^ 32) v < 256 ^ 4
pattern_fits (pos n) = omega arith
pattern_fits (negsuc n) = omega arith

retime-IsEntry : (diff : Timeval) (e : Entry) → IsEntry e → IsEntry (retime diff e)
retime-IsEntry diff e h =
    let newtime : Timeval = timeradd (remote_time e.fz) diff in
    record {
      frozen = record {
        tid_fits = h.frozen.tid_fits;
        pid_fits = h.frozen.pid_fits;
        high_fits = pattern_fits newtime.tv_sec;
        low_fits = pattern_fits newtime.tv_usec;
        sc_fits = h.frozen.sc_fits;
        rv_fits = h.frozen.rv_fits;
        nm_fits = h.frozen.nm_fits;
        arg_len_fits = h.frozen.arg_len_fits;
        str_len_fits = h.frozen.str_len_fits;
        padding_fits = h.frozen.padding_fits;
      };
      arg_count = h.arg_count;
      at_most_three = h.at_most_three;
      args_fit = h.args_fit;
      text_count = h.text_count;
      text_fits = h.text_fits;
    }

-- What is left of the buffer behind an entry.
pub move_down_lem :
    (A B J : List ℕ) (n count : ℕ)
    → n ≡ length A
    → count ≡ length B
    → move_down n count (A ++ (B ++ J)) ≡ B ++ drop count (A ++ (B ++ J))
move_down_lem A B J n count eA eB =
    ap (λ l. take count l ++ drop count (A ++ (B ++ J))) (drop-append A (B ++ J) n eA)
    ∙ ap (λ l. l ++ drop count (A ++ (B ++ J))) (take-append B J count eB)

abbrev pub entry_size : Entry → ℕ
entry_size e = 32 + (4 * length e.args + length e.text)

pub thaw2_sized :
    (e : Entry) (rest : List ℕ)
    → IsEntry e
    → thaw2 (tail_bytes e ++ rest) e.fz (pos (entry_size e) -ℤ pos 32) ≡ some (thawed e)
thaw2_sized e rest h =
    ap (λ z. thaw2 (tail_bytes e ++ rest) e.fz (z -ℤ pos 32)) (sym (frozen_size_lem e h))
    ∙ thaw2_lem e rest h

pub freeze-retimed :
    (diff : Timeval) (e : Entry)
    → IsEntry e
    → freeze (retimed diff (thawed e)) (pos (entry_size e)) ≡ some (entry_bytes (retime diff e))
unfolding thawed
freeze-retimed diff e h =
    ap (freeze (thawed (retime diff e)))
      (sym (frozen_size_lem (retime diff e) (retime-IsEntry diff e h)))
    ∙ freeze_lem (retime diff e) (retime-IsEntry diff e h)

pub thaw1-part :
    (e : Entry)
    → IsEntry e
    → (k : ℕ) → 32 ≤ k
    → (junk : List ℕ) → thaw1 (take k (entry_bytes e) ++ junk) ≡ some e.fz
unfolding entry_bytes
thaw1-part e h k le junk =
    ap (λ l. thaw1 (l ++ junk))
      (take-append_ge k (frozen_bytes e.fz) (tail_bytes e)
        (omega (arith, length-frozen_bytes e.fz)))
    ∙ ap thaw1 (
        append_assoc (frozen_bytes e.fz) (take (k - length (frozen_bytes e.fz)) (tail_bytes e))
          junk)
    ∙ thaw1-frozen_bytes e.fz _ h.frozen
