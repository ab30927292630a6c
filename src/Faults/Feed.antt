-- ===== src/Faults/Feed.antt =====
-- trace/pf.c: the thread that reads what the module relays, and logs the faults that take long.
use borderpatrol.Base.{
  ℕ, ◌*◌, ◌^◌, Option, some, List, [], ◌∷◌, ◌++◌, ltb, ◌==◌, if◌then◌else◌, ◌>>=◌, ◌>>◌, assert,
}
use borderpatrol.Base.Int.{ℤ, pos, negsuc, ◌+ℤ◌, ◌-ℤ◌, ltb_ℤ}
use borderpatrol.Fmt.{Frozen, Thawed, frozen_size, freeze}
use borderpatrol.Binlog.{pattern_of}
use borderpatrol.Logd.{Timeval}
use borderpatrol.Faults.{Pfdura}

-- What a `read` brings: a whole struct; nothing, or less than one with an interrupt, so that the
-- loop goes on; or an error, for which the process exits.
pub data FaultRead : Type 0 where
  whole : Pfdura → FaultRead
  nothing : FaultRead
  broken : FaultRead

-- `last_tvs`, and the bytes that `write` has been called with for the log's socket; what it returns is
-- ignored, so that a write that is short or fails loses some of them.
pub record Feed : Type 0 where
  pub last_tvs : ℕ → Timeval
  pub offered : List ℕ

abbrev no_time : Timeval
no_time = record { tv_sec = pos 0; tv_usec = pos 0 }

abbrev pub start_feed : Feed
start_feed = record { last_tvs = λ i. no_time; offered = [] }

abbrev pub millionfold : ℤ → ℤ
millionfold (pos n) = pos (n * 1000 * 1000)
millionfold (negsuc n) = pos 0

-- `us`, in a `long` that has room for it.
unfoldable pub duration : Timeval → Timeval → ℤ
duration last tv = millionfold (tv.tv_sec -ℤ last.tv_sec) +ℤ (tv.tv_usec -ℤ last.tv_usec)

abbrev pub fault_frozen : ℕ → Pfdura → Timeval → Frozen
fault_frozen sc pfd tv = record {
  tid = pfd.pid;
  pid = pfd.tgid;
  cycle_high = pattern_of (2 ^ 32) tv.tv_sec;
  cycle_low = pattern_of (2 ^ 32) tv.tv_usec;
  sc = sc;
  rv = 0;
  nm = b'_';
  arg_len = 0;
  str_len = 0;
  padding = 0;
}

unfoldable pub fault_entry : ℕ → Pfdura → Timeval → Thawed
fault_entry sc pfd tv = record { fz = fault_frozen sc pfd tv; str = []; arg = 0 ∷ 0 ∷ 0 ∷ [] }

-- The numbers of the two events, which the build generates.
module _ (begin_sc end_sc : ℕ) where
  unfoldable pub log_fault : Pfdura → Timeval → Option (List ℕ)
  log_fault pfd last = do
    let le = fault_entry begin_sc pfd last
    let sz = frozen_size le.fz
    buf ← freeze le sz
    buf2 ← freeze (fault_entry end_sc pfd pfd.tv) sz
    some (buf ++ buf2)

  -- One round of the loop. `none` is an index outside of `last_tvs`.
  unfoldable pub on_fault : Pfdura → Feed → Option Feed
  on_fault pfd s =
      assert (ltb pfd.tgid 65536)
      >> (if pfd.complete
          then (if ltb_ℤ (pos 100) (duration (s.last_tvs pfd.tgid) pfd.tv)
              then (log_fault pfd (s.last_tvs pfd.tgid) >>= λ out.
                  some (record s { offered = s.offered ++ out }))
              else some s)
          else some (record s { last_tvs = λ i. if i == pfd.tgid then pfd.tv else s.last_tvs i }))

  -- The loop, until it exits or has had the reads given.
  unfoldable pub reader_loop : List FaultRead → Feed → Option Feed
  reader_loop [] s = some s
  reader_loop (whole pfd ∷ reads) s = on_fault pfd s >>= λ s1. reader_loop reads s1
  reader_loop (nothing ∷ reads) s = reader_loop reads s
  reader_loop (broken ∷ reads) s = some s
