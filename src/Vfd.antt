-- ===== src/Vfd.antt =====
-- trace/vfd.c and trace/vfd.h: the virtual file descriptor, which keeps what has been read until its
-- plugin has seen it, and the virtual read and write. The code for debug events, off unless the
-- environment asks for it, is left out.
pub mod Kernel
pub mod Invariant
pub mod Delivered
pub mod More
pub mod Transparent
pub mod Mysql
pub mod Write
pub mod WriteLoop
pub mod Writes
pub mod MysqlWrites
pub mod Reads
use borderpatrol.Base.{
  ℕ, zero, suc, ◌+◌, ◌-◌, ◌%◌, min, Bool, true, false, Option, none, some, List, [], ◌∷◌, ◌++◌, ltb,
  leb, ◌==◌, if◌then◌else◌, ◌&&◌, not, ◌>>=◌, length, take, drop, store,
}
use borderpatrol.Base.Int.{ℤ, pos, negsuc, ◌-ℤ◌, pos_part}
use borderpatrol.Reader.{Read, failed, got}
use borderpatrol.Protocol.{Event, event_ii, Outcome, sys_pp_iso_read}
use borderpatrol.Protocol.Dispatch.{Dispatcher, Data}

abbrev pub vbufsize : ℕ
vbufsize = 65536

pub data VfdType : Type 0 where
  vfd_none vfd_sock vfd_pipe vfd_dup vfd_file : VfdType

-- `vfd_t`.
pub record Vfd : Type 0 where
  pub type : VfdType
  pub rbuf : List ℕ
  pub rbuflen : ℕ
  pub rbufofs : ℕ
  pub rlastlen : ℕ
  pub tosend : ℤ
  pub ppwantmore : Bool
  pub wbuf : List ℕ
  pub wbuflen : ℕ
  pub wbufofs : ℕ
  pub in_prog : Bool
  pub pp_dispatcher : Option Dispatcher
  pub pp_data : Data

unfoldable pub vfd_tab_init_one : Vfd → Vfd
vfd_tab_init_one v = record v {
  pp_dispatcher = none;
  type = vfd_none;
  rbuflen = 0;
  rbufofs = 0;
  rlastlen = 0;
  tosend = pos 0;
  ppwantmore = false;
  wbuflen = 0;
  wbufofs = 0;
  in_prog = false;
}

-- What a descriptor's calls change: its virtual descriptor, whether it is marked readable in the
-- cache of `select`, what has been logged, and what the kernel has to read.
pub record Fd : Type 0 where
  pub vfd : Vfd
  pub readable : Bool
  pub log : List Event
  pub input : List Read

-- `real_read` with so much room: what it returns, the bytes, and what the kernel has left. Nothing
-- more is the end of the file, and a call without room returns 0.
unfoldable pub real_read : ℕ → List Read → ℤ × List ℕ × List Read
real_read zero input = (pos 0, [], input)
real_read (suc room) [] = (pos 0, [], [])
real_read (suc room) (failed ∷ input) = (negsuc 0, [], input)
real_read (suc room) (got bytes ∷ input) =
    if leb (length bytes) (suc room)
    then (pos (length bytes), bytes, input)
    else (pos (suc room), take (suc room) bytes, got (drop (suc room) bytes) ∷ input)

-- Shifts the buffer and all offsets to the left.
unfoldable pub buf_shift : Vfd → Vfd
buf_shift v =
    let begin = min v.rbufofs v.rlastlen in
    let tomove = v.rbuflen - begin in
    if begin == 0 then v else record v {
      rbuf = take tomove (drop begin v.rbuf) ++ drop tomove v.rbuf;
      rbufofs = v.rbufofs - begin;
      rbuflen = v.rbuflen - begin;
      rlastlen = v.rlastlen - begin;
    }

-- Returns a piece of the buffer: what is copied to `out`. The size that is asked for is cast to an
-- `int`. `none` is a failed assert, or a negative count, which copies without end.
unfoldable pub buf_ret : Fd → ℕ → Option (List ℕ × Fd)
buf_ret f out_requested = elim f.vfd.tosend [
  | negsuc n ↦ none
  | pos tosend ↦
      let asked = out_requested % 4294967296 in
      let cando = min asked tosend in
      let rlastlen = f.vfd.rlastlen + cando in
      let v = record f.vfd { rlastlen = rlastlen; tosend = pos (tosend - cando) } in
      if tosend == 0
      then none
      else if ltb f.vfd.rlastlen vbufsize && ltb asked 2147483648
      then some (
        take cando (drop f.vfd.rlastlen f.vfd.rbuf),
        record f { vfd = v; readable = if rlastlen == f.vfd.rbuflen then false else true },
      )
      else none
]

-- `return buf_ret(v,s,buf,len)`, with the bytes.
unfoldable pub hand_out : Fd → ℕ → Option (ℤ × List ℕ × Fd)
hand_out f len = buf_ret f len >>= λ t. some (pos (length t.0), t.0, t.1)

-- What the plugins do: the functions of the dispatchers.
module _ (pp_read : Dispatcher → Data → ℤ → List ℕ → ℕ → Option (Outcome Data)) where
  -- What `present_pp` does with what the plugin returns: -1 releases all that has been read.
  unfoldable pub presented : Fd → ℕ → Outcome Data → Fd
  presented f amt r =
      let v = f.vfd in
      elim r.ret [
        | negsuc n ↦ record f {
          vfd = record v {
            pp_data = r.state;
            ppwantmore = true;
            tosend = pos v.rbuflen -ℤ pos v.rlastlen;
          };
          log = f.log ++ r.events;
        }
        | pos a ↦ record f {
          vfd = record v {
            pp_data = r.state;
            ppwantmore = false;
            rbufofs = v.rbufofs + a;
            tosend = pos (v.rbufofs + a) -ℤ pos v.rlastlen;
          };
          log =
              f.log
              ++ (r.events
                  ++ (if ltb a amt
                      then event_ii sys_pp_iso_read (pos 0) (pos a) (pos amt) ∷ []
                      else []));
        }
      ]

  unfoldable pub present_pp : ℤ → Fd → Option Fd
  present_pp s f =
      let v = f.vfd in
      let amt = v.rbuflen - v.rbufofs in
      if amt == 0
      then some f
      else v.pp_dispatcher >>= λ d.
          pp_read d v.pp_data s (drop v.rbufofs v.rbuf) amt >>= λ r. some (presented f amt r)

  -- What `virtual_read` does with what `real_read` has brought.
  unfoldable pub after_read : ℤ → Fd → Vfd → ℕ → ℤ × List ℕ × List Read → Option (ℤ × List ℕ × Fd)
  after_read s f v len (negsuc n, bytes, input) =
      some (negsuc n, [], record f { vfd = v; input = input })
  after_read s f v len (pos zero, bytes, input) =
      some (pos 0, [], record f { vfd = v; input = input })
  after_read s f v len (pos (suc n), bytes, input) =
      present_pp s (record f {
        vfd = record v { rbuf = store v.rbuflen bytes v.rbuf; rbuflen = v.rbuflen + suc n };
        input = input;
      })
      >>= λ f1. hand_out f1 len

  -- The part of `virtual_read` that has to call `real_read`.
  unfoldable pub read_more : ℤ → Fd → ℕ → Option (ℤ × List ℕ × Fd)
  read_more s f len =
      let v = buf_shift f.vfd in after_read s f v len (real_read (vbufsize - v.rbuflen) f.input)

  -- What follows the second look of the plugin.
  unfoldable pub shown_more : ℤ → Fd → ℕ → Option (ℤ × List ℕ × Fd)
  shown_more s g len = elim g.vfd.tosend [
    | pos zero ↦ read_more s g len
    | pos (suc n) ↦ hand_out g len
    | negsuc n ↦ hand_out g len
  ]

  -- `virtual_read` where so much is to be sent.
  unfoldable pub read_by : ℤ → ℤ → Fd → ℕ → Option (ℤ × List ℕ × Fd)
  read_by (negsuc n) s f len = hand_out f len
  read_by (pos (suc n)) s f len = hand_out f len
  read_by (pos zero) s f len =
      if ltb f.vfd.rbufofs f.vfd.rbuflen && not f.vfd.ppwantmore
      then (present_pp s f >>= λ g. shown_more s g len)
      else read_more s f len

  -- `virtual_recv` and `virtual_recvfrom` differ in the kernel's call, and in that they leave the last
  -- assert to `buf_ret`, which has it.
  unfoldable pub virtual_read : ℤ → Fd → ℕ → Option (ℤ × List ℕ × Fd)
  virtual_read s f len = read_by f.vfd.tosend s f len
