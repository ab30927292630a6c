-- ===== src/Protocol/Mysql.antt =====
-- The MySQL plugin of trace/protocol.c.
pub mod Steps
pub mod Packets
use borderpatrol.Base.{
  ℕ, zero, suc, ◌+◌, ◌-◌, ◌*◌, ◌%◌, Bool, Option, none, some, List, [], ◌∷◌, ◌++◌, ltb, ◌==◌,
  if◌then◌else◌, length, take, ◌>>=◌,
}
use borderpatrol.Base.Int.{ℤ, pos}
use borderpatrol.Base.Text.{codes, decimal_int}
use borderpatrol.Protocol.{
  Event, event_s, event_iis, event_iiis, Outcome, outcome, need_more, Role, role_id, pp_mysqls_id,
  pp_mysqlc_id, Direction, pp_read, pp_write, sys_pp_init, sys_pp_shutdown, sys_pp_data,
  sys_pp_msg_send, sys_pp_msg_recv,
}

-- `pp_mysql_state_side_t`; `id` is the int's bit pattern.
pub record MysqlSide : Type 0 where
  pub todo : ℕ
  pub id : ℕ

-- `pp_mysql_state_t`.
pub record Mysql : Type 0 where
  pub read : MysqlSide
  pub write : MysqlSide

-- `tmp[0] | (tmp[1] << 8) | (tmp[2] << 16)` of signed chars: a byte from 128 on is negative, so
-- that all bits above it are set.
pub get_mysql_size : ℕ → ℕ → ℕ → ℕ
get_mysql_size b0 b1 b2 =
    if ltb 127 b0
    then 4294967040 + b0
    else if ltb 127 b1
    then 4294901760 + 256 * b1 + b0
    else if ltb 127 b2
    then 4278190080 + 65536 * b2 + 256 * b1 + b0
    else 65536 * b2 + 256 * b1 + b0

-- `snprintf(tmp, 67, ...)` keeps 66 bytes.
abbrev pub packet_text : ℕ → ℕ → List ℕ
packet_text id todo =
    take 66 (codes "mysql: id=" ++ (decimal_int id ++ (codes " todo=" ++ decimal_int todo)))

-- The switch on the role and the direction.
pub mysql_event : Role → Direction → ℤ → ℕ → List Event
mysql_event pp_mysqlc_id pp_write s id =
    event_iiis sys_pp_msg_send (pos 0) (role_id pp_mysqlc_id) s (pos id) (codes "mysqlc") ∷ []
mysql_event pp_mysqlc_id pp_read s id =
    event_iiis sys_pp_msg_recv (pos 0) (role_id pp_mysqlc_id) s (pos id) (codes "mysqlc") ∷ []
mysql_event pp_mysqls_id pp_write s id =
    event_iiis sys_pp_msg_send (pos 0) (role_id pp_mysqls_id) s (pos id) (codes "mysqls") ∷ []
mysql_event pp_mysqls_id pp_read s id =
    event_iiis sys_pp_msg_recv (pos 0) (role_id pp_mysqls_id) s (pos id) (codes "mysqls") ∷ []
mysql_event _ _ s id = []

-- The four bytes of a header are read from `buf`; the last replaces the lowest byte of `id`.
unfoldable pub mysql_header : MysqlSide → ℤ → List ℕ → Role → Direction → Option (Outcome MysqlSide)
mysql_header state s (b0 ∷ b1 ∷ b2 ∷ b3 ∷ mem) role dir =
    let todo = get_mysql_size b0 b1 b2 in
    let id = state.id - state.id % 256 + b3 in
    outcome (pos 4) (record { todo = todo; id = id })
      (event_s sys_pp_data (pos 0) (packet_text id todo) ∷ mysql_event role dir s id)
mysql_header state s _ role dir = none

unfoldable pub speak_mysql :
    MysqlSide → ℤ → List ℕ → ℕ → Role → Direction → Option (Outcome MysqlSide)
speak_mysql state s buf len role dir =
    let used = if ltb state.todo len then state.todo else len in
    if ltb 0 state.todo
    then outcome (pos used) (record state { todo = state.todo - used }) []
    else if ltb len 4
    then outcome need_more state []
    else mysql_header state s buf role dir

unfoldable pub pp_mysql_common_init : Mysql
pp_mysql_common_init = record {
  read = record { todo = 0; id = 0 };
  write = record { todo = 0; id = 0 };
}

abbrev on_read : Mysql → Outcome MysqlSide → Option (Outcome Mysql)
on_read state o = outcome o.ret (record state { read = o.state }) o.events

abbrev on_write : Mysql → Outcome MysqlSide → Option (Outcome Mysql)
on_write state o = outcome o.ret (record state { write = o.state }) o.events

pub pp_mysqlc_init : ℤ → Mysql × List Event
pp_mysqlc_init s = (
  pp_mysql_common_init,
  event_iis sys_pp_init (pos 0) (role_id pp_mysqlc_id) s (codes "mysqlc") ∷ [],
)

pub pp_mysqlc_shutdown : List Event
pp_mysqlc_shutdown = event_s sys_pp_shutdown (pos 0) (codes "mysqlc") ∷ []

pub pp_mysqlc_read : Mysql → ℤ → List ℕ → ℕ → Option (Outcome Mysql)
pp_mysqlc_read state s buf len =
    speak_mysql state.read s buf len pp_mysqlc_id pp_read >>= on_read state

pub pp_mysqlc_write : Mysql → ℤ → List ℕ → ℕ → Option (Outcome Mysql)
pp_mysqlc_write state s buf len =
    speak_mysql state.write s buf len pp_mysqlc_id pp_write >>= on_write state

unfoldable pub pp_mysqls_init : ℤ → Mysql × List Event
pp_mysqls_init s = (
  pp_mysql_common_init,
  event_iis sys_pp_init (pos 0) (role_id pp_mysqls_id) s (codes "mysqls") ∷ [],
)

pub pp_mysqls_shutdown : List Event
pp_mysqls_shutdown = event_s sys_pp_shutdown (pos 0) (codes "mysqls") ∷ []

unfoldable pub pp_mysqls_read : Mysql → ℤ → List ℕ → ℕ → Option (Outcome Mysql)
pp_mysqls_read state s buf len =
    speak_mysql state.read s buf len pp_mysqls_id pp_read >>= on_read state

unfoldable pub pp_mysqls_write : Mysql → ℤ → List ℕ → ℕ → Option (Outcome Mysql)
pp_mysqls_write state s buf len =
    speak_mysql state.write s buf len pp_mysqls_id pp_write >>= on_write state
