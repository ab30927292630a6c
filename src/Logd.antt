-- ===== src/Logd.antt =====
-- logd/logd.c: the daemon that collects the logs of many machines, and moves the times of each to its
-- own clock.
pub mod Times
pub mod Transfer
pub mod Retimes
pub mod Reconnect
use borderpatrol.Base.{
  ℕ, zero, suc, ◌+◌, ◌-◌, ◌*◌, ◌^◌, min, Bool, true, false, Option, none, some, List, [], ◌∷◌, ◌++◌,
  ltb, leb, ◌==◌, not, ◌&&◌, if◌then◌else◌, ◌>>=◌, length, take, drop, store, replicate,
}
use borderpatrol.Base.Int.{ℤ, pos, negsuc, ◌+ℤ◌, ◌-ℤ◌, ltb_ℤ, eqb_ℤ}
use borderpatrol.Fmt.{Frozen, Thawed, freeze, thaw1, thaw2, frozen_size, frozen_sizeof}
use borderpatrol.Reader.{Read, failed, got}
use borderpatrol.Binlog.{Write, took, pattern_of}
use borderpatrol.Binlog.{failed as write_failed}

abbrev pub relay_buf : ℕ
relay_buf = 4194304

-- `struct timeval`.
pub record Timeval : Type 0 where
  pub tv_sec : ℤ
  pub tv_usec : ℤ

abbrev million : ℤ
million = pos 1000000

-- The macros of <sys/time.h>.
unfoldable pub timersub : Timeval → Timeval → Timeval
timersub a b =
    let usec = a.tv_usec -ℤ b.tv_usec in
    let sec = a.tv_sec -ℤ b.tv_sec in
    if ltb_ℤ usec (pos 0)
    then record { tv_sec = sec -ℤ pos 1; tv_usec = usec +ℤ million }
    else record { tv_sec = sec; tv_usec = usec }

unfoldable pub timeradd : Timeval → Timeval → Timeval
timeradd a b =
    let usec = a.tv_usec +ℤ b.tv_usec in
    let sec = a.tv_sec +ℤ b.tv_sec in
    if ltb_ℤ usec million
    then record { tv_sec = sec; tv_usec = usec }
    else record { tv_sec = sec +ℤ pos 1; tv_usec = usec -ℤ million }

abbrev pub timerisset : Timeval → Bool
timerisset t = not (eqb_ℤ t.tv_sec (pos 0) && eqb_ℤ t.tv_usec (pos 0))

-- The entries of the four arrays for a descriptor; `relay` is `none` for NULL.
pub record Conn : Type 0 where
  pub relay : Option (List ℕ)
  pub b_end : ℕ
  pub avail : ℕ
  pub timediff : Timeval

-- The log file as what it has taken and the calls of `write` to come, and how often the clock has
-- been read. The calls after the last one given take all that they are handed.
pub record Out : Type 0 where
  pub log : List ℕ
  pub writes : List Write
  pub ticks : ℕ

abbrev pub remote_time : Frozen → Timeval
remote_time fz = record { tv_sec = pos fz.cycle_high; tv_usec = pos fz.cycle_low }

-- What a call of `write` with `size` bytes returns: `none` is -1.
abbrev write_size : List Write → ℕ → Option ℕ × List Write
write_size [] size = (some size, [])
write_size (write_failed ∷ ws) size = (none, ws)
write_size (took n ∷ ws) size = (some (min n size), ws)

-- The loop that moves what is behind the entry, `count` bytes from `t` on, to the front.
abbrev pub move_down : ℕ → ℕ → List ℕ → List ℕ
move_down t count mem = take count (drop t mem) ++ drop count mem

-- The entry with its time on the local clock.
abbrev pub retimed : Timeval → Thawed → Thawed
retimed diff le =
    let newtime = timeradd (remote_time le.fz) diff in
    record le {
      fz = record le.fz {
        cycle_high = pattern_of (2 ^ 32) newtime.tv_sec;
        cycle_low = pattern_of (2 ^ 32) newtime.tv_usec;
      };
    }

-- A write of `t` bytes, and what it does to the relay buffer.
pub transfer_entry : ℕ → List ℕ → List ℕ → Conn → Out → Option (Conn × Out)
transfer_entry size buf mem c o =
    let (t, ws) = write_size o.writes size in
    elim t [
      | none ↦ none
      | some zero ↦ some (c, record o { writes = ws })
      | some (suc n) ↦ some (
        record c {
          relay = some (move_down (suc n) (c.b_end - size) mem);
          b_end = c.b_end - suc n;
          avail = c.avail + suc n;
        },
        record o { log = o.log ++ take (suc n) buf; writes = ws },
      )
    ]

-- The clock at each time that it is read.
module _ (clock : ℕ → Timeval) where
  pub record_timediff : Frozen → Conn → Out → Conn × Out
  record_timediff lentry c o = (
    record c { timediff = timersub (clock o.ticks) (remote_time lentry) },
    record o { ticks = o.ticks + 1 },
  )

  -- The end of a round, with the entry's size; the flag says whether the loop goes on. `size` is
  -- unsigned: a negative size is a large one, which no buffer has.
  transfer_sized : ℤ → Frozen → List ℕ → Conn → Out → Option (Bool × Conn × Out)
  transfer_sized (negsuc n) frozen mem c o = some (false, c, o)
  transfer_sized (pos size) frozen mem c o =
      let thawed = thaw2 (drop frozen_sizeof mem) frozen (pos size -ℤ pos frozen_sizeof) in
      if ltb c.b_end size then some (false, c, o) else (do
        logentry ← thawed
        buf ← freeze (retimed c.timediff logentry) (pos size)
        (c', o') ← transfer_entry size buf mem c o
        some (true, c', o'))

  -- A round of the loop of `transfer_out`.
  pub transfer_round : List ℕ → Conn → Out → Option (Bool × Conn × Out)
  unfolding transfer_sized record_timediff
  transfer_round mem c o = do
    frozen ← thaw1 mem
    let (c', o') = if timerisset c.timediff then (c, o) else record_timediff frozen c o
    transfer_sized (frozen_size frozen) frozen mem c' o'

  pub transfer_loop : ℕ → Conn → Out → Option (Conn × Out)
  unfolding transfer_round
  transfer_loop zero c o = none
  transfer_loop (suc fuel) c o = elim c.relay [
    | none ↦ some (c, o)
    | some mem ↦ if ltb c.b_end frozen_sizeof then some (c, o) else (do
      (more, c', o') ← transfer_round mem c o
      if more then transfer_loop fuel c' o' else some (c', o'))
  ]

  -- Every round but the last uses up a call of `write` given, or takes a byte from the buffer, so
  -- that this is enough fuel; `none` is an exit, a failed assert or memory misused.
  pub transfer_out : Conn → Out → Option (Conn × Out)
  transfer_out c o = transfer_loop (suc (length o.writes + c.b_end)) c o

  -- What `transfer_in` returns, after a read that brings at most `avail` bytes.
  pub transfer_in : Read → Conn → Out → Option (ℤ × Conn × Out)
  transfer_in r c o = elim c.relay [
    | none ↦ some (negsuc 0, c, o)
    | some mem ↦ elim r [
      | failed ↦ some (negsuc 0, c, o)
      | got [] ↦ some (pos 0, c, o)
      | got (b ∷ bytes) ↦
          let size = length (b ∷ bytes) in
          let c1 = record c {
            relay = some (store c.b_end (b ∷ bytes) mem);
            avail = c.avail - size;
            b_end = c.b_end + size;
          } in
          if ltb frozen_sizeof c1.b_end
          then (do (c2, o2) ← transfer_out c1 o; some (pos size, c2, o2))
          else some (pos size, c1, o)
    ]
  ]

-- The arrays, the set of active descriptors, and the log.
pub record Server : Type 0 where
  pub conns : ℕ → Conn
  pub active : ℕ → Bool
  pub out : Out

abbrev pub at : {A : Type 0} → ℕ → A → (ℕ → A) → ℕ → A
at i a f j = if j == i then a else f j

-- `calloc(1, RELAY_BUF)`.
pub blank_relay : List ℕ
blank_relay = replicate relay_buf 0

-- What `select` finds: a connection, for which `accept` returns a descriptor, or something to read.
pub data Ready : Type 0 where
  connection : ℕ → Ready
  data_on : ℕ → Read → Ready

-- What `main` sets up.
pub start_server : (ℕ → Bool) → List Write → Server
start_server active writes = record {
  conns = λ fd. record {
    relay = none;
    b_end = 0;
    avail = relay_buf;
    timediff = record { tv_sec = pos 0; tv_usec = pos 0 };
  };
  active = active;
  out = record { log = []; writes = writes; ticks = 0 };
}

-- A round of the inner loop of `main`. A new connection gets a buffer, and nothing else is set.
pub serve : (ℕ → Timeval) → Ready → Server → Option Server
serve clock (connection fd) s = some (record s {
  conns = at fd (record (s.conns fd) { relay = some blank_relay }) s.conns;
  active = at fd true s.active;
})
serve clock (data_on fd r) s = do
  (ret, c1, o1) ← transfer_in clock r (s.conns fd) s.out
  if ltb_ℤ (pos 0) ret then some (record s { conns = at fd c1 s.conns; out = o1 }) else (do
    (c2, o2) ← transfer_out clock c1 o1
    some (record {
      conns = at fd (record c2 { relay = none }) s.conns;
      active = at fd false s.active;
      out = o2;
    }))
