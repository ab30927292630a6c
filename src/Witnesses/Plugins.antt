-- ===== src/Witnesses/Plugins.antt =====
-- The theorems on the plugins at concrete inputs: trace/protocol.c.
use borderpatrol.Base.{ℕ, ◌+◌, ◌*◌, ◌<◌, ◌≡◌, ◌↔◌, some, List, [], ◌∷◌, ◌++◌, arith, length}
use borderpatrol.Base.Int.{pos}
use borderpatrol.Protocol.{
  event_s, sys_pp_data, Event, Outcome, need_more, pp_read, pp_mysqls_id, pp_psqls_id,
}
use borderpatrol.Protocol.Framing.{Offer, feed, all_of}
use borderpatrol.Protocol.Mysql.{MysqlSide, get_mysql_size, speak_mysql}
use borderpatrol.Protocol.Mysql.Steps.{Packet, IsPacket, stream_of, events_of, get_mysql_size_exact}
use borderpatrol.Protocol.Mysql.Packets.{speak_mysql_in_order, speak_mysql_whole}
use borderpatrol.Protocol.Psql.{message_text, psql_event, PsqlSide, speak_psql}
use borderpatrol.Protocol.Psql.Messages.{Message}
use borderpatrol.Protocol.Psql.Messages.{stream_of as psql_stream}
use borderpatrol.Protocol.Psql.Due.{events_of as psql_events}
use borderpatrol.Protocol.Psql.InOrder.{ready_side, speak_psql_stuck}

get_mysql_size_exact_example :
    (get_mysql_size 200 0 0 ≡ 200 + 256 * 0 + 65536 * 0) ↔ ((200 < 128) × (0 < 128) × (0 < 128))
get_mysql_size_exact_example =
    get_mysql_size_exact 200 0 0 (omega arith) (omega arith) (omega arith)

abbrev ping : Packet
ping = record { num = 0; body = 14 ∷ [] }

ping-IsPacket : IsPacket ping
ping-IsPacket = record {
  low = omega arith;
  middle = omega arith;
  high = omega arith;
  num_fits = omega arith;
}

-- Three bytes, then all.
abbrev two_calls : List Offer
two_calls = record { most = 3; behind = [] } ∷ record { most = 9; behind = 7 ∷ [] } ∷ []

speak_mysql_in_order_example :
    (st : MysqlSide) × (rest : List ℕ) × (events : List Event) × (later : List Event) × (feed
        (λ t buf len. speak_mysql t (pos 6) buf len pp_mysqls_id pp_read)
        two_calls
        (record { todo = 0; id = 0 })
        (stream_of (ping ∷ ping ∷ []))
      ≡ some (st, rest, events))
    × (events_of (pos 6) pp_mysqls_id pp_read (ping ∷ ping ∷ []) ≡ events ++ later)
speak_mysql_in_order_example =
    speak_mysql_in_order (pos 6) pp_mysqls_id pp_read (ping ∷ ping ∷ []) two_calls
      (ping-IsPacket, (ping-IsPacket, tt))

speak_mysql_whole_example :
    (st : MysqlSide) × (feed
        (λ t buf len. speak_mysql t (pos 6) buf len pp_mysqls_id pp_read)
        (all_of (length (stream_of (ping ∷ ping ∷ []))))
        (record { todo = 0; id = 0 })
        (stream_of (ping ∷ ping ∷ []))
      ≡ some (st, [], events_of (pos 6) pp_mysqls_id pp_read (ping ∷ ping ∷ [])))
speak_mysql_whole_example =
    speak_mysql_whole (pos 6) pp_mysqls_id pp_read (ping ∷ ping ∷ [])
      (ping-IsPacket, (ping-IsPacket, tt))

-- The query "a", and the end of the answer to it.
abbrev query : Message
query = record { type = b'Q'; body = 97 ∷ 0 ∷ [] }

abbrev ready : Message
ready = record { type = b'Z'; body = 73 ∷ [] }

-- A "Sync" message, then a query.
speak_psql_stuck_example :
    (r : Outcome PsqlSide) × (speak_psql
        (record ready_side { id = 3 })
        (pos 6)
        (b'S' ∷ 0 ∷ 0 ∷ 0 ∷ 4 ∷ [])
        (5 + 0)
        pp_psqls_id
        pp_read
      ≡ some r)
    × (r.ret ≡ pos 5)
    × (r.events
        ≡ event_s sys_pp_data (pos 0) (message_text b'S' 0)
          ∷ (psql_event b'S' pp_psqls_id pp_read (pos 6) 3).0)
    × (speak_psql r.state (pos 6) (b'Q' ∷ 0 ∷ 0 ∷ 0 ∷ 6 ∷ 97 ∷ 0 ∷ []) 7 pp_psqls_id pp_read
        ≡ some (record { ret = need_more; state = r.state; events = [] }))
speak_psql_stuck_example =
    speak_psql_stuck (pos 6) pp_psqls_id pp_read b'S' 0 3 [] (b'Q' ∷ 0 ∷ 0 ∷ 0 ∷ 6 ∷ 97 ∷ 0 ∷ []) 7
