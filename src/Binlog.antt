-- ===== src/Binlog.antt =====
-- logd/binlog.c: the log buffer of a traced thread.
pub mod Flush
pub mod Calls
pub mod Trace
pub mod Logged
pub mod Log
pub mod Buffer
use borderpatrol.Base.{
  ℕ, zero, suc, ◌+◌, ◌-◌, ◌*◌, ◌/◌, ◌%◌, ◌^◌, min, Bool, true, false, Option, none, some, List, [],
  ◌∷◌, ◌++◌, map, ltb, leb, ◌==◌, if◌then◌else◌, ◌>>=◌, ◌>>◌, assert, length, take, drop, slice,
  store,
}
use borderpatrol.Base.Int.{ℤ, pos, negsuc, pos_part}
use borderpatrol.Base.Bytes.{to_le}
use borderpatrol.Fmt.{Frozen, predict_size, frozen_sizeof, int_sizeof, frozen_bytes, thaw1}

abbrev pub pipe_buf : ℕ
pipe_buf = 4096

-- What one call of `write` on the log's descriptor does: -1, or it takes at most so many bytes.
-- The calls after the last one given take all that they are handed.
pub data Write : Type 0 where
  failed : Write
  took : ℕ → Write

-- `thread_ctx_t`, with the first byte of `prog_name`, and the log's descriptor as the bytes that it
-- has taken and the calls of `write` to come.
pub record Ctx : Type 0 where
  pub pid : ℕ
  pub logfd : ℕ
  pub tid : ℕ
  pub lbptr : ℕ
  pub lb : List ℕ
  pub lbcnt : ℕ
  pub fz_high : ℕ
  pub fz_low : ℕ
  pub prog_nm : ℕ
  pub sent : List ℕ
  pub writes : List Write

-- `malloc` leaves `lb` unset: `memory` is what it holds.
pub alloc_ctx : ℕ → ℕ → ℕ → ℕ → List ℕ → List Write → Ctx
alloc_ctx pid lfd self prog_nm memory writes = record {
  pid = pid;
  logfd = lfd;
  tid = self;
  lbptr = 0;
  lb = memory;
  lbcnt = 0;
  fz_high = 0;
  fz_low = 0;
  prog_nm = prog_nm;
  sent = [];
  writes = writes;
}

-- The loop of `lb_flush`; `none` is its `exit(1)`.
flush_loop : ℕ → Ctx → List Write → Option Ctx
flush_loop start c [] =
    if ltb start c.lbptr
    then some (record c { sent = c.sent ++ slice start c.lbptr c.lb; writes = [] })
    else some (record c { writes = [] })
flush_loop start c (failed ∷ ws) =
    if ltb start c.lbptr then none else some (record c { writes = failed ∷ ws })
flush_loop start c (took n ∷ ws) =
    let r = min n (c.lbptr - start) in
    let rest =
      flush_loop (start + r) (record c { sent = c.sent ++ slice start (start + r) c.lb }) ws in
    if ltb start c.lbptr then rest else some (record c { writes = took n ∷ ws })

-- `bb_disable_log_check` returns 0, so the log is always on.
pub lb_flush : Ctx → Option Ctx
unfolding flush_loop
lb_flush c = do c' ← flush_loop 0 c c.writes; some (record c' { lbptr = 0 })

-- The offset in `lb` of the room given.
pub lb_alloc_bytes : ℕ → Ctx → Option (ℕ × Ctx)
lb_alloc_bytes bytes c = if ltb pipe_buf bytes then none else (do
  c' ← if ltb (pipe_buf - 1) (c.lbptr + bytes) then lb_flush c else some c
  some (c'.lbptr, record c' { lbptr = c'.lbptr + bytes }))

pub lb_alloc_entry : ℕ → ℕ → Ctx → Option (ℕ × Ctx)
lb_alloc_entry arg_len str_len =
    lb_alloc_bytes (pos_part (predict_size (pos arg_len) (pos str_len)))

-- The bit pattern of an int in a field of `modulus` values.
abbrev pub pattern_of : ℕ → ℤ → ℕ
pattern_of modulus (pos n) = n % modulus
pattern_of modulus (negsuc n) = modulus - 1 - n % modulus

-- `SETARG` for the arguments in turn, from `where`.
pub set_args : ℕ → List ℤ → List ℕ → List ℕ
set_args at [] lb = lb
set_args at (val ∷ vals) lb =
    set_args (at + int_sizeof) vals (store at (to_le int_sizeof (pattern_of (2 ^ 32) val)) lb)

abbrev pub no_newline : ℕ → ℕ
no_newline b = if b == b'\n' then b'_' else b

-- `SETSTR`: the string with its newlines replaced.
pub set_str : ℕ → List ℕ → List ℕ → List ℕ
set_str at s lb = store at (map no_newline s) lb

-- `gettimeofday`.
pub record Time : Type 0 where
  pub tv_sec : ℕ
  pub tv_usec : ℕ

pub lb_freeze_current_time : Time → Ctx → Ctx
lb_freeze_current_time t c = record c { fz_high = t.tv_sec; fz_low = t.tv_usec }

pub lb_thaw_current_time : Ctx → Ctx
lb_thaw_current_time c = record c { fz_high = 0; fz_low = 0 }

-- `lb_populate` writes all fields but the padding.
pub lb_populate : Time → Ctx → ℤ → ℤ → Frozen → Frozen
lb_populate t c sc rv fz = record fz {
  nm = c.prog_nm;
  cycle_high = (if c.fz_high == 0 then t.tv_sec else c.fz_high) % 2 ^ 32;
  cycle_low = (if c.fz_low == 0 then t.tv_usec else c.fz_low) % 2 ^ 32;
  pid = c.pid % 2 ^ 32;
  tid = c.tid % 2 ^ 64;
  sc = pattern_of (2 ^ 16) sc;
  rv = pattern_of (2 ^ 16) rv;
  arg_len = 0;
  str_len = 0;
}

-- `LOGBIN_gen` for `num` of the three arguments and the bytes of `s`, none for NULL. The entry is
-- read and written in place, at `base` in `lb`.
pub logbin_gen : Time → ℤ → ℤ → ℤ → ℤ → ℤ → ℕ → List ℕ → Ctx → Option Ctx
logbin_gen t sc rv i1 i2 i3 num s c = do
  (base, c') ← lb_alloc_entry num (length s) c
  old ← thaw1 (drop base c'.lb)
  let blank = lb_populate t c' sc rv old
  let fz = record blank { arg_len = num % 2 ^ 8; str_len = length s % 2 ^ 16 }
  let lb1 = store base (frozen_bytes fz) c'.lb
  let lb2 = set_str (base + frozen_sizeof + num * int_sizeof) s lb1
  let lb3 = set_args (base + frozen_sizeof) (take num (i1 ∷ i2 ∷ i3 ∷ [])) lb2
  some (record c' { lb = lb3 })
