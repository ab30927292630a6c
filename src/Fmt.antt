-- ===== src/Fmt.antt =====
-- logd/fmt.h and logd/fmt.c: the binary form of a log entry.
pub mod Entry
pub mod RoundTrip
use borderpatrol.Base.{
  ℕ, zero, suc, ◌+◌, ◌≤◌, ◌<◌, ◌^◌, Bool, true, false, ◌||◌, Option, none, some, List, [], ◌∷◌,
  ◌++◌, ltb, leb, ◌==◌, if◌then◌else◌, ◌>>=◌, ◌>>◌, assert, length, take, drop,
}
use borderpatrol.Base.Int.{ℤ, pos, negsuc, ◌+ℤ◌, ◌-ℤ◌, eqb_ℤ, schar, short}
use borderpatrol.Base.Bytes.{to_le, from_le}

-- `logentry_frozen_t`. Every field is its bit pattern, so `rv` of -1 is 65535.
pub record Frozen : Type 0 where
  pub tid : ℕ
  pub pid : ℕ
  pub cycle_high : ℕ
  pub cycle_low : ℕ
  pub sc : ℕ
  pub rv : ℕ
  pub nm : ℕ
  pub arg_len : ℕ
  pub str_len : ℕ
  pub padding : ℕ

-- `logentry_thaw_t`. `str` is the memory at the pointer, `[]` where the pointer is not set.
pub record Thawed : Type 0 where
  pub fz : Frozen
  pub str : List ℕ
  pub arg : List ℕ

-- The struct as it lies in memory, 32 bytes.
unfoldable pub frozen_bytes : Frozen → List ℕ
frozen_bytes f =
    to_le 8 f.tid
    ++ (to_le 4 f.pid
        ++ (to_le 4 f.cycle_high
            ++ (to_le 4 f.cycle_low
                ++ (to_le 2 f.sc
                    ++ (to_le 2 f.rv
                        ++ (to_le 1 f.nm
                            ++ (to_le 1 f.arg_len ++ (to_le 2 f.str_len ++ to_le 4 f.padding))))))))

-- `sizeof(logentry_frozen_t)` and `sizeof(int)`.
abbrev pub frozen_sizeof : ℕ
frozen_sizeof = 32

abbrev pub int_sizeof : ℕ
int_sizeof = 4

abbrev pub times_four : ℤ → ℤ
times_four a = (a +ℤ a) +ℤ (a +ℤ a)

unfoldable pub predict_size : ℤ → ℤ → ℤ
predict_size arg_len str_len = pos frozen_sizeof +ℤ times_four arg_len +ℤ str_len

unfoldable pub frozen_size : Frozen → ℤ
unfolding predict_size
frozen_size fz = predict_size (schar fz.arg_len) (short fz.str_len)

-- `memcpy` of `n` bytes out of an object: `none` where it would leave the object, which a
-- negative count, a huge `size_t`, does.
abbrev pub memcpy : ℤ → List ℕ → Option (List ℕ)
memcpy (pos n) from = if leb n (length from) then some (take n from) else none
memcpy (negsuc n) from = none

-- The first loop of `freeze`: no round if the count is negative.
pub arg_bytes : ℤ → List ℕ → Option (List ℕ)
arg_bytes (negsuc n) args = some []
arg_bytes (pos zero) args = some []
arg_bytes (pos (suc n)) [] = none
arg_bytes (pos (suc n)) (a ∷ args) = do
  rest ← arg_bytes (pos n) args
  some (to_le int_sizeof a ++ rest)

-- What is copied is the result, in place of the caller's `buf`.
unfoldable pub freeze : Thawed → ℤ → Option (List ℕ)
unfolding frozen_bytes arg_bytes
freeze le size = do
  args ← arg_bytes (schar le.fz.arg_len) le.arg
  str ← if le.fz.str_len == 0 then some [] else memcpy (short le.fz.str_len) le.str
  let out = frozen_bytes le.fz ++ (args ++ str)
  assert (eqb_ℤ size (pos (length out)))
  some out

abbrev pub field : ℕ → ℕ → List ℕ → ℕ
field offset width buf = from_le (take width (drop offset buf))

-- The struct whose memory begins `buf`.
abbrev pub from_memory : List ℕ → Frozen
from_memory buf = record {
  tid = field 0 8 buf;
  pid = field 8 4 buf;
  cycle_high = field 12 4 buf;
  cycle_low = field 16 4 buf;
  sc = field 20 2 buf;
  rv = field 22 2 buf;
  nm = field 24 1 buf;
  arg_len = field 25 1 buf;
  str_len = field 26 2 buf;
  padding = field 28 4 buf;
}

unfoldable pub thaw1 : List ℕ → Option Frozen
thaw1 buf = if leb frozen_sizeof (length buf) then some (from_memory buf) else none

-- The two loops of `thaw2` over `arg`, `room` slots of which are left: `count` values are read
-- from `cur`, and 0 fills the rest. A write past the third slot is `none`.
pub thaw_args : ℕ → ℤ → List ℕ → Option (List ℕ × List ℕ)
thaw_args zero (pos (suc n)) cur = none
thaw_args zero (pos zero) cur = some ([], cur)
thaw_args zero (negsuc n) cur = some ([], cur)
thaw_args (suc room) (pos (suc n)) cur = do
  raw ← memcpy (pos int_sizeof) cur
  (args, cur') ← thaw_args room (pos n) (drop int_sizeof cur)
  some (from_le raw ∷ args, cur')
thaw_args (suc room) (pos zero) cur = do
  (args, cur') ← thaw_args room (pos zero) cur
  some (0 ∷ args, cur')
thaw_args (suc room) (negsuc n) cur = do
  (args, cur') ← thaw_args room (negsuc n) cur
  some (0 ∷ args, cur')

-- `str` gets its terminating 0.
unfoldable pub thaw2 : List ℕ → Frozen → ℤ → Option Thawed
unfolding thaw_args
thaw2 buf le rest_sz = do
  (args, cur) ← thaw_args 3 (schar le.arg_len) buf
  str ← if le.str_len == 0 then some [] else memcpy (short le.str_len) cur
  assert (eqb_ℤ rest_sz (pos (length buf) -ℤ pos (length cur) +ℤ pos (length str)))
  some (record { fz = le; str = if le.str_len == 0 then [] else str ++ (0 ∷ []); arg = args })

abbrev is_negative : ℤ → Bool
is_negative (pos n) = false
is_negative (negsuc n) = true

-- `check_le`: which message it exits with, `none` where it returns.
pub data Complaint : Type 0 where
  strange_pid strange_tid strange_sc : Complaint

unfoldable pub check_le : Thawed → Option Complaint
check_le le =
    if ltb le.fz.pid 200 || ltb 99999 le.fz.pid
    then some strange_pid
    else if ltb le.fz.tid 200
    then some strange_tid
    else if is_negative (short le.fz.sc) || ltb 200 le.fz.sc
    then some strange_sc
    else none
