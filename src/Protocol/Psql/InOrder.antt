-- ===== src/Protocol/Psql/InOrder.antt =====
-- `speak_psql` of trace/protocol.c logs a stream's messages in order.
use borderpatrol.Base.{
  ℕ, ◌+◌, ◌≡◌, refl, true, false, some, List, [], ◌∷◌, ◌++◌, arith, if◌then◌else◌, le→ltb,
}
use borderpatrol.Base.Int.{ℤ, pos}
use borderpatrol.Protocol.{event_s, Outcome, need_more, Role, Direction, sys_pp_data}
use borderpatrol.Protocol.Psql.{
  PsqlSide, get_int, message_text, psql_event, psql_header, speak_psql,
}
use borderpatrol.Protocol.Psql.Messages.{to_be4}

-- A side that reads no startup message, or has read it.
abbrev pub ready_side : PsqlSide
ready_side = record { got_startup = true; type = 0; got_header = false; todo = 0; id = 0 }

-- A message without a body stops the plugin: its header is taken, with the line and the
-- event of a header logged, and from then on every call, whatever it is offered, wants more and changes nothing.
pub speak_psql_stuck :
    (s : ℤ) (role : Role) (dir : Direction) (type : ℕ) (n id : ℕ) (more buf : List ℕ) (len : ℕ)
    → (r : Outcome PsqlSide) × (speak_psql
          (record ready_side { id = id })
          s
          (type ∷ (to_be4 4 ++ more))
          (5 + n)
          role
          dir
        ≡ some r)
      × (r.ret ≡ pos 5)
      × (r.events
          ≡ event_s sys_pp_data (pos 0) (message_text type 0) ∷ (psql_event type role dir s id).0)
      × (speak_psql r.state s buf len role dir
          ≡ some (record { ret = need_more; state = r.state; events = [] }))
unfolding speak_psql psql_header get_int
speak_psql_stuck s role dir type n id more buf len = (
  record {
    ret = pos 5;
    state = record ready_side {
      type = type;
      got_header = true;
      id = if (psql_event type role dir s id).1 then id + 1 else id;
    };
    events = event_s sys_pp_data (pos 0) (message_text type 0) ∷ (psql_event type role dir s id).0;
  },
  rw (le→ltb (5 + n) 5 (omega arith)),
  refl,
  refl,
  refl,
)
