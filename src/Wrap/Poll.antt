-- ===== src/Wrap/Poll.antt =====
-- The wrapper of trace/vfd.c for `poll`, which is put to `speak_select`.
use borderpatrol.Base.{
  ℕ, ◌+◌, ◌-◌, ◌*◌, ◌/◌, Bool, true, false, ◌||◌, not, Option, none, some, List, [], ◌∷◌, ltb,
  if◌then◌else◌, ◌>>=◌, ◌>>◌, assert, length, map,
}
use borderpatrol.Base.Int.{ℤ, pos, negsuc, pos_part, eqb_ℤ}
use borderpatrol.Protocol.{event_ii, event_iii, sys_poll_begin, sys_poll}
use borderpatrol.Protocol.Dispatch.{Garbage}
use borderpatrol.Logd.{Timeval}
use borderpatrol.Wrap.{update, max_fds, Process, Config, logged}
use borderpatrol.Wrap.Network.{Names}
use borderpatrol.Wrap.Select.{Sets, empty_sets, Answer, speak_select}

-- What is reported of a descriptor.
pub data Revents : Type 0 where
  no_event pollin pollout : Revents

-- A `struct pollfd`, with two of the bits of `events`.
pub record Pollfd : Type 0 where
  pub fd : ℤ
  pub events_pollin : Bool
  pub events_pollout : Bool
  pub revents : Revents

abbrev in_set : ℤ → Bool
in_set (pos n) = ltb n max_fds
in_set (negsuc n) = false

-- The loop that fills the sets; `none` is a descriptor outside of an `fd_set`, as a negative one is.
unfoldable pub wanted : List Pollfd → Sets → Option Sets
wanted [] a = some a
wanted (u ∷ ufds) a = do
  assert (in_set u.fd || not (u.events_pollin || u.events_pollout))
  wanted ufds (record a {
    readfds = if u.events_pollin then update a.readfds (pos_part u.fd) true else a.readfds;
    writefds = if u.events_pollout then update a.writefds (pos_part u.fd) true else a.writefds;
  })

unfoldable pub maxfd : ℕ → List Pollfd → ℕ
maxfd m [] = m
maxfd m (u ∷ ufds) = maxfd (if ltb m (pos_part u.fd) then pos_part u.fd else m) ufds

-- Milliseconds as a `struct timeval`, none to wait for ever.
unfoldable pub tv_of : ℤ → Option Timeval
tv_of (negsuc n) = none
tv_of (pos timeout) = some (record {
  tv_sec = pos (timeout / 1000);
  tv_usec = pos ((timeout - timeout / 1000 * 1000) * 1000);
})

-- The loop that sets `revents`: it ends at the first entry of the descriptor that has an answer.
unfoldable pub reported : ℤ → Sets → List Pollfd → List Pollfd
reported rfd a [] = []
reported (negsuc n) a (u ∷ ufds) = record u { revents = no_event } ∷ reported (negsuc n) a ufds
reported (pos rfd) a (u ∷ ufds) =
    let rest = reported (pos rfd) a ufds in
    let unset = map {A = Pollfd} {B = Pollfd} (λ w. record w { revents = no_event }) ufds in
    if eqb_ℤ u.fd (pos rfd)
    then (if a.readfds rfd
        then record u { revents = pollin } ∷ unset
        else if a.writefds rfd
        then record u { revents = pollout } ∷ unset
        else record u { revents = no_event } ∷ rest)
    else record u { revents = no_event } ∷ rest

-- With what `real_select` answers at a time limit, and `real_poll` where the wrapper is off.
unfoldable pub poll :
    (k : Config)
    → Garbage
    → (ℕ → Names)
    → List Pollfd
    → ℤ
    → (ℕ → Sets → Option Timeval → Answer)
    → ℤ × List Pollfd
    → Process
    → Option (ℤ × List Pollfd × Process)
poll k g names ufds timeout real_select real_poll p =
    if k.bb_disable_all then some (real_poll.0, real_poll.1, p) else do
      let p1 = logged (event_ii sys_poll_begin (pos 0) (pos (length ufds)) timeout) p
      a ← wanted ufds empty_sets
      let n = maxfd 0 ufds + 1
      t ← speak_select k g names n a (real_select n a (tv_of timeout)) p1
      some (
        t.0.ret,
        reported t.0.rfd t.0.sets ufds,
        logged (event_iii sys_poll t.0.ret (pos (length ufds)) timeout t.0.rfd) t.1,
      )
