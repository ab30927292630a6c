-- ===== src/Protocol/Mysql/Packets.antt =====
-- `speak_mysql` of trace/protocol.c on a stream of packets.
use borderpatrol.Base.{
  ℕ, ◌≡◌, refl, ap, some, List, [], ◌∷◌, ◌++◌, arith, length, All, length-append,
}
use borderpatrol.Base.Int.{ℤ}
use borderpatrol.Protocol.{Event, Role, Direction}
use borderpatrol.Protocol.Framing.{Offer, feed, feed_in_order, feed_all, all_of}
use borderpatrol.Protocol.Mysql.{MysqlSide, speak_mysql}
use borderpatrol.Protocol.Mysql.Steps.{
  Packet, IsPacket, stream_of, events_of, At, speak_mysql-IsFramer,
}

abbrev fresh : MysqlSide
fresh = record { todo = 0; id = 0 }

-- The plugin at the start of a stream of packets.
pub at_start :
    (s : ℤ) (role : Role) (dir : Direction) (ps : List Packet)
    → All IsPacket ps
    → At s role dir fresh (stream_of ps) (events_of s role dir ps)
at_start s role dir ps ok = record {
  cur = [];
  ps = ps;
  rest_is = refl;
  todo_is = refl;
  id_small = omega arith;
  packets = ok;
  due_is = refl;
}

nothing_due :
    (s : ℤ) (role : Role) (dir : Direction) (cur : List ℕ) (qs : List Packet) (due : List Event)
    → [] ≡ cur ++ stream_of qs
    → due ≡ events_of s role dir qs
    → due ≡ []
nothing_due s role dir cur [] due e d = d
nothing_due s role dir cur (q ∷ qs) due e d =
    absurd (omega (arith, ap length e, length-append cur (stream_of (q ∷ qs))))

-- At the end of the stream nothing is due.
pub nothing_due_at_end :
    (s : ℤ) (role : Role) (dir : Direction) (st : MysqlSide) (due : List Event)
    → At s role dir st [] due
    → due ≡ []
nothing_due_at_end s role dir st due a = nothing_due s role dir a.cur a.ps due a.rest_is a.due_is

-- For either role and direction, a stream of packets whose sizes have no byte with its highest
-- bit set, and any sequence of calls of `speak_mysql`, which may be offered any number of bytes
-- each time: every call returns, and what they log is a first part of the packets' events in
-- order, each once.
pub speak_mysql_in_order :
    (s : ℤ) (role : Role) (dir : Direction) (ps : List Packet) (os : List Offer)
    → All IsPacket ps
    → (st : MysqlSide) × (rest : List ℕ) × (events : List Event) × (later : List Event) × (feed
          (λ t buf len. speak_mysql t s buf len role dir)
          os
          (record { todo = 0; id = 0 })
          (stream_of ps)
        ≡ some (st, rest, events))
      × (events_of s role dir ps ≡ events ++ later)
speak_mysql_in_order s role dir ps os ok =
    let (st, rest, events, later, e, d, a) =
      feed_in_order (λ t buf len. speak_mysql t s buf len role dir) (At s role dir)
        (speak_mysql-IsFramer s role dir) os fresh (stream_of ps) (events_of s role dir ps)
        (at_start s role dir ps ok) in
    (st, rest, events, later, e, d)

-- For either role and direction and a stream of packets whose sizes have no byte with its highest
-- bit set: if each call is offered all that is left, as many calls as the stream has bytes use all
-- of it, and log exactly one pair of events for each packet, in order.
pub speak_mysql_whole :
    (s : ℤ) (role : Role) (dir : Direction) (ps : List Packet)
    → All IsPacket ps
    → (st : MysqlSide) × (feed
          (λ t buf len. speak_mysql t s buf len role dir)
          (all_of (length (stream_of ps)))
          (record { todo = 0; id = 0 })
          (stream_of ps)
        ≡ some (st, [], events_of s role dir ps))
speak_mysql_whole s role dir ps ok =
    let (st, e, a) =
      feed_all (λ t buf len. speak_mysql t s buf len role dir) (At s role dir)
        (speak_mysql-IsFramer s role dir) (length (stream_of ps)) fresh (stream_of ps)
        (events_of s role dir ps) (at_start s role dir ps ok) (omega arith)
        (nothing_due_at_end s role dir) in
    (st, e)
