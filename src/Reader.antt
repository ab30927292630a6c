-- ===== src/Reader.antt =====
-- logd/common.c: the buffered reader of log entries, and the loop of logd/expand.c over it.
pub mod Ready
pub mod Stream
pub mod Entries
use borderpatrol.Base.{
  ℕ, zero, suc, ◌+◌, ◌-◌, ◌%◌, ◌<◌, min, Bool, true, false, Option, none, some, List, [], ◌∷◌, ◌++◌,
  ltb, leb, ◌==◌, not, ◌&&◌, if◌then◌else◌, length, take, drop, store, replicate,
}
use borderpatrol.Base.Int.{ℤ, pos, pos_part, ◌-ℤ◌}
use borderpatrol.Fmt.{Frozen, Thawed, frozen_sizeof, frozen_size, thaw1, thaw2}

abbrev pub pipe_buf : ℕ
pipe_buf = 4096

-- What one call of `read(fd, lb_buf, PIPE_BUF)` finds: -1, or some bytes, none at the end of the
-- file or while a pipe is empty.
pub data Read : Type 0 where
  failed : Read
  got : List ℕ → Read

-- The globals, and what the descriptor will give. `lb_end` is the source's `lb_last + 1`;
-- `bytes_seen` has the bits of the source's `int`.
pub record Reader : Type 0 where
  pub lb_buf : List ℕ
  pub lb_cur : ℕ
  pub lb_end : ℕ
  pub bytes_seen : ℕ
  pub input : List Read

-- BOK and BEOF; `exited` is `exit(1)`, and `waiting` is no status of the source: a persistent read
-- has used up the input given and waits for more.
pub data Status : Type 0 where
  bok beof exited waiting : Status

-- The loop of `refill`. Past the end of `input` every read finds nothing.
refill_loop : Bool → Reader → List Read → Status × Reader
refill_loop true s [] = (waiting, record s { input = [] })
refill_loop false s [] = (beof, record s { input = [] })
refill_loop persist s (failed ∷ input) = (exited, record s { input = input })
refill_loop true s (got [] ∷ input) = refill_loop true s input
refill_loop false s (got [] ∷ input) = (beof, record s { input = input })
refill_loop persist s (got (b ∷ bytes) ∷ input) = (
  bok,
  record s { lb_buf = store 0 (b ∷ bytes) s.lb_buf; lb_end = length (b ∷ bytes); input = input },
)

pub refill : Bool → Reader → Status × Reader
unfolding refill_loop
refill persist s = refill_loop persist (record s { lb_cur = 0; lb_end = 0 }) s.input

-- The part of a round of `fill` that uses what is there: the bytes copied, and the state after.
pub use_existing : ℕ → Reader → List ℕ × Reader
use_existing num s =
    if ltb s.lb_cur s.lb_end
    then (let tocopy = min num (s.lb_end - s.lb_cur) in
        (
          take tocopy (drop s.lb_cur s.lb_buf),
          record s {
            lb_cur = s.lb_cur + tocopy;
            bytes_seen = (s.bytes_seen + tocopy) % 4294967296;
          },
        ))
    else ([], s)

abbrev pub is_bok : Status → Bool
is_bok bok = true
is_bok _ = false

-- The loop of `fill`, with what has been copied to `thing`. Every refill brings a byte at least, so
-- one round more than `num` is enough fuel; `waiting` would be the answer if it were not.
pub fill_loop : ℕ → Bool → ℕ → List ℕ → Reader → Status × List ℕ × Reader
unfolding use_existing
fill_loop zero persist num thing s = (waiting, thing, s)
fill_loop (suc fuel) persist num thing s =
    let (copied, s1) = use_existing num s in
    let left = num - length copied in
    let (r, s2) = refill persist s1 in
    let more = fill_loop fuel persist left (thing ++ copied) s2 in
    if num == 0
    then (bok, thing, s)
    else if left == 0
    then (bok, thing ++ copied, s1)
    else if is_bok r
    then more
    else (r, thing ++ copied, s2)

pub fill : Bool → ℕ → Reader → Status × List ℕ × Reader
fill persist num s = fill_loop (suc num) persist num [] s

-- What `get_le` comes to: an entry, NULL, a failed assert or memory misused, `exit(1)`, a wait.
pub data Got : Type 0 where
  entry : Thawed → Got
  null aborted quit blocked : Got

-- The two parts of `get_le`.
got_part2 : Frozen → ℤ → Status × List ℕ × Reader → Got × Reader
got_part2 fz sz (bok, buf, s) = elim (thaw2 buf fz sz) [
  | none ↦ (aborted, s)
  | some th ↦ (entry th, s)
]
got_part2 fz sz (beof, buf, s) = (aborted, s)
got_part2 fz sz (exited, buf, s) = (quit, s)
got_part2 fz sz (waiting, buf, s) = (blocked, s)

got_part1 : Bool → Status × List ℕ × Reader → Got × Reader
unfolding got_part2
got_part1 persist (bok, buf, s) = elim (thaw1 buf) [
  | none ↦ (aborted, s)
  | some fz ↦
      let sz = frozen_size fz -ℤ pos frozen_sizeof in got_part2 fz sz (fill persist (pos_part sz) s)
]
got_part1 persist (beof, buf, s) = (null, s)
got_part1 persist (exited, buf, s) = (quit, s)
got_part1 persist (waiting, buf, s) = (blocked, s)

pub get_le : Bool → Reader → Got × Reader
unfolding got_part1
get_le persist s = got_part1 persist (fill persist frozen_sizeof s)
