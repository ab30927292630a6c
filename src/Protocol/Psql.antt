-- ===== src/Protocol/Psql.antt =====
-- The PostgreSQL plugin of trace/protocol.c.
pub mod Messages
pub mod Due
pub mod Body
pub mod Steps
pub mod InOrder
use borderpatrol.Base.{
  ℕ, zero, suc, ◌+◌, ◌-◌, ◌*◌, ◌%◌, Bool, true, false, Option, none, some, List, [], ◌∷◌, ◌++◌, ltb,
  ◌==◌, if◌then◌else◌, length, take, drop, ◌>>=◌, ◌>>◌, assert, leb, ◌&&◌,
}
use borderpatrol.Base.Int.{ℤ, pos}
use borderpatrol.Base.Text.{codes, decimal_int, c_str, up_to_0}
use borderpatrol.Protocol.{
  Event, event_s, event_ss, event_iis, event_iiis, Outcome, outcome, need_more, Role, role_id,
  pp_psqls_id, pp_psqlc_id, Direction, pp_read, pp_write, sys_pp_init, sys_pp_shutdown, sys_pp_data,
  sys_pp_prop, sys_pp_msg_send, sys_pp_msg_recv,
}

-- `pp_psql_state_side_t`; `type` is 0 before the first header.
pub record PsqlSide : Type 0 where
  pub got_startup : Bool
  pub type : ℕ
  pub got_header : Bool
  pub todo : ℕ
  pub id : ℕ

-- `pp_psql_state_t`.
pub record Psql : Type 0 where
  pub read : PsqlSide
  pub write : PsqlSide

-- Four bytes in network order.
pub get_int : List ℕ → Option ℕ
get_int (b0 ∷ b1 ∷ b2 ∷ b3 ∷ mem) = some (16777216 * b0 + 65536 * b1 + 256 * b2 + b3)
get_int _ = none

-- `todo -= n` on an unsigned int.
abbrev pub minus_word : ℕ → ℕ → ℕ
minus_word a n = (a + (4294967296 - n)) % 4294967296

-- `%c` of a 0 ends the string that is logged.
abbrev pub message_text : ℕ → ℕ → List ℕ
message_text type todo = up_to_0 (
    take 66 (
      codes "psql: type="
      ++ (type
          ∷ (codes " len="
              ++ (decimal_int ((todo + 4) % 4294967296) ++ (codes " todo=" ++ decimal_int todo))))))

-- The switch on the type; the flag says whether the counter goes up.
pub psql_event : ℕ → Role → Direction → ℤ → ℕ → List Event × Bool
psql_event type role dir s id =
    if type == b'Q'
    then elim role [
      | pp_psqlc_id ↦ elim dir [
        | pp_write ↦ (
          event_iiis sys_pp_msg_send (pos 0) (role_id pp_psqlc_id) s (pos id) (codes "psqlc") ∷ [],
          true,
        )
        | pp_read ↦ ([], false)
      ]
      | pp_psqls_id ↦ elim dir [
        | pp_write ↦ ([], false)
        | pp_read ↦ (
          event_iiis sys_pp_msg_recv (pos 0) (role_id pp_psqls_id) s (pos id) (codes "psqls") ∷ [],
          true,
        )
      ]
      | _ ↦ ([], false)
    ]
    else if type == b'Z'
    then elim role [
      | pp_psqlc_id ↦ elim dir [
        | pp_write ↦ ([], false)
        | pp_read ↦ (
          event_iiis sys_pp_msg_recv (pos 0) (role_id pp_psqlc_id) s (pos id) (codes "psqlc") ∷ [],
          true,
        )
      ]
      | pp_psqls_id ↦ elim dir [
        | pp_write ↦ (
          event_iiis sys_pp_msg_send (pos 0) (role_id pp_psqls_id) s (pos id) (codes "psqls") ∷ [],
          true,
        )
        | pp_read ↦ ([], false)
      ]
      | _ ↦ ([], false)
    ]
    else ([], false)

-- The longest text of a query that is logged: with its name, a separator and the frozen entry in front
-- of it, `lb_alloc_bytes` has room for 4096 bytes, and exits for more.
abbrev pub longest_query : ℕ
longest_query = 4096 - 32 - length (codes "QUERY=-=")

-- The first part of `speak_psql`, which waits for the rest of a message. The text of a query is
-- logged as the string that `buf` begins with; `none` is the exit for one that is too long.
pub psql_body : PsqlSide → List ℕ → ℕ → Option (Outcome PsqlSide)
psql_body state buf len =
    let used = if ltb state.todo len then state.todo else len in
    let state' = record state {
      todo = state.todo - used;
      got_header = if state.todo - used == 0 then false else state.got_header;
    } in
    let query = c_str buf in
    if state.type == b'Q'
    then if ltb len state.todo then outcome need_more state [] else (do
      text ← query
      assert (leb (length text) longest_query)
      outcome (pos used) state' (event_ss sys_pp_prop (pos 0) (codes "QUERY") text ∷ []))
    else outcome (pos used) state' []

-- The startup message has no type.
pub psql_startup : PsqlSide → List ℕ → ℕ → Option (Outcome PsqlSide)
psql_startup state buf len =
    let size = get_int buf in
    let version = get_int (drop 4 buf) in
    if ltb len 8 then outcome need_more state [] else (do
      todo ← size
      prot ← version
      outcome (pos 8) (record state { got_startup = true; todo = minus_word todo 8 }) [])

pub psql_header : PsqlSide → ℤ → List ℕ → ℕ → Role → Direction → Option (Outcome PsqlSide)
unfolding psql_event
psql_header state s [] len role dir = if ltb len 5 then outcome need_more state [] else none
psql_header state s (type ∷ buf) len role dir =
    let size = get_int buf in
    let (events, counted) = psql_event type role dir s state.id in
    if ltb len 5 then outcome need_more state [] else (do
      n ← size
      let todo = minus_word n 4
      outcome (pos 5)
          (record state {
            type = type;
            got_header = true;
            todo = todo;
            id = if counted then state.id + 1 else state.id;
          })
          (event_s sys_pp_data (pos 0) (message_text type todo) ∷ events))

-- `assert(1)` holds, so that -1 is returned behind it.
pub speak_psql : PsqlSide → ℤ → List ℕ → ℕ → Role → Direction → Option (Outcome PsqlSide)
unfolding psql_body psql_startup psql_header
speak_psql state s buf len role dir =
    if ltb 0 state.todo
    then psql_body state buf len
    else if state.got_startup
    then if state.got_header
      then outcome need_more state []
      else psql_header state s buf len role dir
    else psql_startup state buf len

abbrev blank_side : PsqlSide
blank_side = record { got_startup = false; type = 0; got_header = false; todo = 0; id = 0 }

pub pp_psql_common_init : Psql
pp_psql_common_init = record { read = blank_side; write = blank_side }

abbrev on_read : Psql → Outcome PsqlSide → Option (Outcome Psql)
on_read state o = outcome o.ret (record state { read = o.state }) o.events

abbrev on_write : Psql → Outcome PsqlSide → Option (Outcome Psql)
on_write state o = outcome o.ret (record state { write = o.state }) o.events

-- A client reads no startup message.
pub pp_psqlc_init : ℤ → Psql × List Event
unfolding pp_psql_common_init
pp_psqlc_init s = (
  record pp_psql_common_init { read = record blank_side { got_startup = true } },
  event_iis sys_pp_init (pos 0) (role_id pp_psqlc_id) s (codes "psqlc") ∷ [],
)

pub pp_psqlc_shutdown : List Event
pp_psqlc_shutdown = event_s sys_pp_shutdown (pos 0) (codes "psqlc") ∷ []

pub pp_psqlc_read : Psql → ℤ → List ℕ → ℕ → Option (Outcome Psql)
pp_psqlc_read state s buf len =
    speak_psql state.read s buf len pp_psqlc_id pp_read >>= on_read state

pub pp_psqlc_write : Psql → ℤ → List ℕ → ℕ → Option (Outcome Psql)
pp_psqlc_write state s buf len =
    speak_psql state.write s buf len pp_psqlc_id pp_write >>= on_write state

-- A server writes no startup message.
pub pp_psqls_init : ℤ → Psql × List Event
unfolding pp_psql_common_init
pp_psqls_init s = (
  record pp_psql_common_init { write = record blank_side { got_startup = true } },
  event_iis sys_pp_init (pos 0) (role_id pp_psqls_id) s (codes "psqls") ∷ [],
)

pub pp_psqls_shutdown : List Event
pp_psqls_shutdown = event_s sys_pp_shutdown (pos 0) (codes "psqls") ∷ []

pub pp_psqls_read : Psql → ℤ → List ℕ → ℕ → Option (Outcome Psql)
pp_psqls_read state s buf len =
    speak_psql state.read s buf len pp_psqls_id pp_read >>= on_read state

pub pp_psqls_write : Psql → ℤ → List ℕ → ℕ → Option (Outcome Psql)
pp_psqls_write state s buf len =
    speak_psql state.write s buf len pp_psqls_id pp_write >>= on_write state
