-- ===== src/Witnesses/Log.antt =====
-- The theorems on the log's way at concrete inputs: logd/fmt.c, logd/common.c, logd/expand.c and
-- logd/binlog.c.
use borderpatrol.Base.{
  ◌<◌, ℕ, zero, suc, ◌≡◌, refl, false, some, List, [], ◌∷◌, ◌++◌, arith, length, take, drop,
  replicate, All, ◌>>=◌, not, ◌==◌,
}
use borderpatrol.Base.Int.{pos, negsuc, ◌-ℤ◌}
use borderpatrol.Base.Bytes.{IsByte}
use borderpatrol.Fmt.{Frozen, frozen_bytes, freeze, frozen_size, thaw1, thaw2}
use borderpatrol.Fmt.Entry.{Entry, IsEntry, entry_bytes, thawed, log_bytes}
use borderpatrol.Fmt.RoundTrip.{thaw-freeze}
use borderpatrol.Reader.{Reader, got, fill, get_le}
use borderpatrol.Reader.Ready.{IsReady, pending}
use borderpatrol.Reader.Stream.{Filled, fill-Filled}
use borderpatrol.Reader.Entries.{GotEntry, get_le-GotEntry}
use borderpatrol.Expand.{finished, expand}
use borderpatrol.Expand.Prints.{selected, expand-entries}
use borderpatrol.Binlog.{Ctx, Time, Write, took, lb_flush, logbin_gen, pipe_buf}
use borderpatrol.Binlog.Flush.{Succeeds, lb_flush_sends}
use borderpatrol.Binlog.Logged.{IsLogger, SameThread, stream, logged}
use borderpatrol.Binlog.Log.{logbin_gen-appends}
use borderpatrol.Binlog.Trace.{Call, Fits, log_all, TellsAll, trace-expand}

-- `open` of "abc" with the flag 2 by thread 400 of process 300.
abbrev open_entry : Entry
open_entry = record {
  fz = record {
    tid = 400;
    pid = 300;
    cycle_high = 1200000000;
    cycle_low = 17;
    sc = 5;
    rv = 65535;
    nm = 120;
    arg_len = 1;
    str_len = 3;
    padding = 0;
  };
  args = 2 ∷ [];
  text = 97 ∷ 98 ∷ 99 ∷ [];
}

open_entry-IsEntry : IsEntry open_entry
open_entry-IsEntry = record {
  frozen = record {
    tid_fits = omega arith;
    pid_fits = omega arith;
    high_fits = omega arith;
    low_fits = omega arith;
    sc_fits = omega arith;
    rv_fits = omega arith;
    nm_fits = omega arith;
    arg_len_fits = omega arith;
    str_len_fits = omega arith;
    padding_fits = omega arith;
  };
  arg_count = refl;
  at_most_three = omega arith;
  args_fit = (omega arith, tt);
  text_count = refl;
  text_fits = omega arith;
}

thaw-freeze_example :
    (do
      buf ← freeze (thawed open_entry) (frozen_size open_entry.fz)
      fz ← thaw1 (buf ++ (7 ∷ []))
      thaw2 (drop 32 (buf ++ (7 ∷ []))) fz (frozen_size fz -ℤ pos 32))
    ≡ some (thawed open_entry)
thaw-freeze_example = thaw-freeze open_entry (7 ∷ []) open_entry-IsEntry

length-zeros : (n : ℕ) → length {A = ℕ} (replicate n 0) ≡ n
length-zeros zero = refl
length-zeros (suc n) = omega (arith, length-zeros n)

zeros-IsByte : (n : ℕ) → All IsByte (replicate n 0)
zeros-IsByte zero = tt
zeros-IsByte (suc n) = (omega arith, zeros-IsByte n)

-- The log of one entry, in two reads.
abbrev open_reader : Reader
open_reader = record {
  lb_buf = replicate 4097 0;
  lb_cur = 0;
  lb_end = 0;
  bytes_seen = 0;
  input = got (take 30 (entry_bytes open_entry)) ∷ got (drop 30 (entry_bytes open_entry)) ∷ [];
}

open_reader-IsReady : IsReady open_reader
unfolding entry_bytes frozen_bytes
open_reader-IsReady = record {
  in_order = omega arith;
  inside = omega arith;
  room = omega (arith, length-zeros 4097);
  chunks = ((omega arith, omega arith), ((omega arith, omega arith), tt));
}

open_reader-pending : pending open_reader ≡ entry_bytes open_entry ++ []
unfolding entry_bytes frozen_bytes
open_reader-pending = refl

fill-Filled_example : Filled 32 [] open_reader (fill false 32 open_reader)
unfolding entry_bytes frozen_bytes
fill-Filled_example =
    fill-Filled false 32 open_reader open_reader-IsReady (omega arith) (omega arith)

get_le-GotEntry_example : GotEntry open_entry open_reader [] (get_le false open_reader)
unfolding entry_bytes frozen_bytes
get_le-GotEntry_example =
    get_le-GotEntry false open_entry open_reader [] open_entry-IsEntry open_reader-IsReady
      open_reader-pending (omega arith)

-- The file is one byte longer than the log read.
expand-entries_example :
    expand 2 300 40 open_reader
    ≡ finished (record {
      printed = selected 300 (open_entry ∷ []);
      recno = 1;
      bytes = length (log_bytes (open_entry ∷ []));
      mismatch = not (40 == length (log_bytes (open_entry ∷ [])));
    })
unfolding entry_bytes frozen_bytes
expand-entries_example =
    expand-entries (open_entry ∷ []) 2 300 40 open_reader (open_entry-IsEntry, tt)
      open_reader-IsReady refl open_reader-pending (omega arith) (omega arith)

-- A new thread whose log takes 10 bytes at the first write.
abbrev new_thread : Ctx
new_thread = record {
  pid = 300;
  logfd = 9;
  tid = 400;
  lbptr = 0;
  lb = replicate pipe_buf 0;
  lbcnt = 0;
  fz_high = 0;
  fz_low = 0;
  prog_nm = 120;
  sent = [];
  writes = took 10 ∷ [];
}

new_thread-IsLogger : IsLogger new_thread
new_thread-IsLogger = record {
  room = length-zeros pipe_buf;
  fits = omega arith;
  bytes = zeros-IsByte pipe_buf;
  writes_succeed = (tt, tt);
}

lb_flush_sends_example :
    (ws' : List Write) × All Succeeds ws'
    × (lb_flush (record new_thread { lbptr = 40 })
        ≡ some
            (record new_thread { sent = take 40 (replicate pipe_buf 0); writes = ws'; lbptr = 0 }))
lb_flush_sends_example = lb_flush_sends (record new_thread { lbptr = 40 }) (tt, tt)

abbrev noon : Time
noon = record { tv_sec = 1200000000; tv_usec = 17 }

logbin_gen-appends_example :
    (old : Frozen) × (c' : Ctx) × (logbin_gen noon
        (pos 5)
        (negsuc 0)
        (pos 2)
        (pos 0)
        (pos 0)
        1
        (97 ∷ 10 ∷ [])
        new_thread
      ≡ some c')
    × IsLogger c'
    × SameThread new_thread c'
    × (stream c'
        ≡ entry_bytes (logged noon new_thread (pos 5) (negsuc 0) (pos 2 ∷ []) (97 ∷ 10 ∷ []) old))
    × IsEntry (logged noon new_thread (pos 5) (negsuc 0) (pos 2 ∷ []) (97 ∷ 10 ∷ []) old)
logbin_gen-appends_example =
    logbin_gen-appends noon (pos 5) (negsuc 0) (pos 2) (pos 0) (pos 0) 1 (97 ∷ 10 ∷ []) new_thread
      new_thread-IsLogger (omega arith) (omega arith, (omega arith, tt)) (omega arith) (omega arith)

abbrev open_call : Call
open_call = record {
  now = noon;
  sc = pos 5;
  rv = negsuc 0;
  i1 = pos 2;
  i2 = pos 0;
  i3 = pos 0;
  num = 1;
  s = 97 ∷ 10 ∷ [];
}

trace-expand_example :
    (es : List Entry) × (c' : Ctx) × ((do
      c1 ← log_all (open_call ∷ open_call ∷ []) new_thread
      lb_flush c1)
      ≡ some c')
    × All IsEntry es
    × TellsAll 400 300 (open_call ∷ open_call ∷ []) es
    × ((pid : ℕ) (s : Reader)
        → IsReady s
        → s.bytes_seen ≡ 0
        → pending s ≡ c'.sent
        → length c'.sent < 2147483648
        → expand (suc (length es)) pid (length c'.sent) s
          ≡ finished (record {
            printed = selected pid es;
            recno = length es;
            bytes = length c'.sent;
            mismatch = false;
          }))
trace-expand_example =
    let fits : Fits open_call = record {
      few = omega arith;
      small = omega arith;
      bytes = (omega arith, (omega arith, tt));
    } in
    trace-expand (open_call ∷ open_call ∷ []) new_thread new_thread-IsLogger (omega arith) refl
      (fits, (fits, tt))
