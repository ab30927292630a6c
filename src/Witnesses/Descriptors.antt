-- ===== src/Witnesses/Descriptors.antt =====
-- The theorems on virtual descriptors at concrete inputs: trace/vfd.c.
use borderpatrol.Base.{
  ℕ, ◌≡◌, refl, inl, inr, true, none, some, List, [], ◌∷◌, ◌++◌, arith, length, replicate,
  length-replicate,
}
use borderpatrol.Base.Int.{ℤ, pos}
use borderpatrol.Reader.{Read, got, failed}
use borderpatrol.Reader.Ready.{input_bytes}
use borderpatrol.Protocol.{Event, pp_mysqls_id, pp_write}
use borderpatrol.Protocol.Mysql.{pp_mysql_common_init}
use borderpatrol.Protocol.Mysql.Steps.{Packet, IsPacket, events_of}
use borderpatrol.Protocol.Mysql.Packets.{at_start}
use borderpatrol.Protocol.Dispatch.{pp_mysqls, unset, mysql, Garbage, pp_read_data, pp_write_data}
use borderpatrol.Vfd.{vbufsize, Vfd, vfd_none, Fd, virtual_read}
use borderpatrol.Vfd.Invariant.{held, IsVfd}
use borderpatrol.Vfd.Delivered.{Delivered}
use borderpatrol.Vfd.Transparent.{virtual_read-Delivered}
use borderpatrol.Vfd.Mysql.{MysqlRefused, pp_mysqls_read-IsPlugin}
use borderpatrol.Vfd.Reads.{reads, accepted, mysql_reads, virtual_read_full}
use borderpatrol.Vfd.Write.{vwrite_req}
use borderpatrol.Vfd.Writes.{IsWriter, vwrite_req_in_order}
use borderpatrol.Vfd.MysqlWrites.{
  MysqlWriteAt, pp_mysqls_write-IsFramer, pp_mysqls_write-KeepsAtMost, writes, mysql_writes,
}

pub blank_buffer : List ℕ
blank_buffer = replicate vbufsize 0

pub length-blank_buffer : length blank_buffer ≡ vbufsize
unfolding blank_buffer
length-blank_buffer = length-replicate {A = ℕ} vbufsize 0

abbrev pub garbage : Garbage
garbage = record { word = 0; byte = 0; stack = [] }

abbrev pub entry_before : Vfd
entry_before = record {
  type = vfd_none;
  rbuf = blank_buffer;
  rbuflen = 5;
  rbufofs = 9;
  rlastlen = 7;
  tosend = pos 1;
  ppwantmore = true;
  wbuf = [];
  wbuflen = 0;
  wbufofs = 0;
  in_prog = true;
  pp_dispatcher = none;
  pp_data = unset;
}

-- A ping of the protocol in two reads, an error between them.
abbrev pub ping_input : List Read
ping_input = got (1 ∷ 0 ∷ []) ∷ failed ∷ got (0 ∷ 0 ∷ 14 ∷ []) ∷ []

mysql_reads_example :
    (out : List ℕ) × (f : Fd) × (reads
        (λ d. pp_read_data d garbage)
        (pos 6)
        (3 ∷ 1 ∷ 8 ∷ [])
        (accepted garbage (pos 6) entry_before ping_input)
      ≡ some (out, f))
    × (out ++ (held f.vfd ++ input_bytes f.input) ≡ input_bytes ping_input)
mysql_reads_example =
    mysql_reads garbage (pos 6) entry_before ping_input (3 ∷ 1 ∷ 8 ∷ []) length-blank_buffer
      ((omega arith, omega arith), ((omega arith, omega arith), ((omega arith, omega arith), tt)))

-- Two bytes have been read, the plugin wants more, and one of them is returned.
abbrev pub waiting : Fd
waiting = record {
  vfd = record entry_before {
    rbuflen = 2;
    rbufofs = 0;
    rlastlen = 1;
    pp_dispatcher = some pp_mysqls;
    pp_data = mysql pp_mysql_common_init;
  };
  readable = true;
  log = [];
  input = got (0 ∷ 0 ∷ 14 ∷ []) ∷ [];
}

pub waiting-IsVfd : IsVfd (λ d. pp_read_data d garbage) pp_mysqls (pos 6) MysqlRefused waiting.vfd
unfolding pp_mysql_common_init
waiting-IsVfd = record {
  ready = 1;
  to_send = refl;
  released = omega arith;
  ofs_inside = omega arith;
  fits = omega arith;
  size = length-blank_buffer;
  plugin = refl;
  mode = inl (refl, refl, inr (refl, omega arith));
}

virtual_read-Delivered_example :
    (t : ℤ × List ℕ × Fd) × (virtual_read (λ d. pp_read_data d garbage) (pos 6) waiting 4 ≡ some t)
    × Delivered (λ d. pp_read_data d garbage) pp_mysqls (pos 6) MysqlRefused waiting t
virtual_read-Delivered_example =
    virtual_read-Delivered (λ d. pp_read_data d garbage) pp_mysqls (pos 6) MysqlRefused waiting 4
      (pp_mysqls_read-IsPlugin garbage (pos 6)) waiting-IsVfd (omega arith, omega arith)

abbrev full : Fd
full = record waiting {
  vfd = record entry_before {
    tosend = pos 0;
    rbuflen = vbufsize;
    rbufofs = 0;
    rlastlen = vbufsize;
  };
}

virtual_read_full_example :
    virtual_read (λ d. pp_read_data d garbage) (pos 6) full 4 ≡ some (pos 0, [], full)
virtual_read_full_example =
    virtual_read_full (λ d. pp_read_data d garbage) (pos 6) full 4 refl refl refl refl

abbrev ping_packet : Packet
ping_packet = record { num = 0; body = 14 ∷ [] }

ping_packet-IsPacket : IsPacket ping_packet
ping_packet-IsPacket = record {
  low = omega arith;
  middle = omega arith;
  high = omega arith;
  num_fits = omega arith;
}

abbrev entry_for_writes : Vfd
entry_for_writes = record entry_before { wbuf = blank_buffer }

mysql_writes_example :
    (v' : Vfd) × (writes
        (λ d. pp_write_data d garbage)
        (pos 6)
        ((1 ∷ 0 ∷ []) ∷ [] ∷ (0 ∷ 0 ∷ 14 ∷ []) ∷ [])
        (accepted garbage (pos 6) entry_for_writes []).vfd
      ≡ some (v', events_of (pos 6) pp_mysqls_id pp_write (ping_packet ∷ [])))
    × (v'.wbuflen ≡ 0)
mysql_writes_example =
    mysql_writes garbage (pos 6) entry_for_writes (ping_packet ∷ [])
      ((1 ∷ 0 ∷ []) ∷ [] ∷ (0 ∷ 0 ∷ 14 ∷ []) ∷ []) length-blank_buffer (ping_packet-IsPacket, tt)
      refl (omega arith, (omega arith, (omega arith, tt)))

abbrev pub writer : Vfd
writer = record entry_for_writes {
  pp_dispatcher = some pp_mysqls;
  pp_data = mysql pp_mysql_common_init;
}

abbrev pub ping_events : List Event
ping_events = events_of (pos 6) pp_mysqls_id pp_write (ping_packet ∷ [])

pub writer-IsWriter :
    IsWriter
      (λ d. pp_write_data d garbage)
      pp_mysqls
      (pos 6)
      (MysqlWriteAt (pos 6))
      3
      writer
      (1 ∷ 0 ∷ 0 ∷ 0 ∷ 14 ∷ [])
      ping_events
unfolding pp_mysql_common_init
writer-IsWriter = record {
  from_start = refl;
  fits = omega arith;
  size = length-blank_buffer;
  plugin = refl;
  there = at_start (pos 6) pp_mysqls_id pp_write (ping_packet ∷ []) (ping_packet-IsPacket, tt);
  finished = λ f. refl;
}

vwrite_req_in_order_example :
    (v' : Vfd) × (events : List Event) × (later : List Event) × (vwrite_req
        (λ d. pp_write_data d garbage)
        writer
        (pos 6)
        (1 ∷ 0 ∷ [])
      ≡ some (v', events))
    × (ping_events ≡ events ++ later)
    × IsWriter
        (λ d. pp_write_data d garbage)
        pp_mysqls
        (pos 6)
        (MysqlWriteAt (pos 6))
        3
        v'
        (0 ∷ 0 ∷ 14 ∷ [])
        later
vwrite_req_in_order_example =
    vwrite_req_in_order (λ d. pp_write_data d garbage) pp_mysqls (pos 6) (MysqlWriteAt (pos 6)) 3
      writer (1 ∷ 0 ∷ []) (0 ∷ 0 ∷ 14 ∷ []) ping_events (pp_mysqls_write-IsFramer garbage (pos 6))
      (pp_mysqls_write-KeepsAtMost garbage (pos 6)) writer-IsWriter (omega arith)
