-- ===== src/Protocol/Dispatch.antt =====
-- The dispatchers of trace/protocol.c, and how a plugin is found for a descriptor.
pub mod Fits
use borderpatrol.Base.{ℕ, Bool, false, Option, none, some, List, [], ◌∷◌, if◌then◌else◌, ◌>>=◌}
use borderpatrol.Base.Int.{ℤ, pos, ltb_ℤ, eqb_ℤ}
use borderpatrol.Base.Text.{codes, starts, contains}
use borderpatrol.Protocol.{Event, event_s, Outcome, outcome, sys_pp_id}
use borderpatrol.Protocol.Perl.{
  Perlp, pp_perlps_init, pp_perlps_shutdown, pp_perlps_read, pp_perlps_write, pp_perlpc_read,
  pp_perlpc_write, pp_httpc_read, pp_httpc_write, pp_trivial_read, pp_trivial_write,
}
use borderpatrol.Protocol.Http.{
  Http, pp_https_init, pp_https_shutdown, pp_https_read, pp_https_write,
}
use borderpatrol.Protocol.Psql.{
  Psql, pp_psqlc_init, pp_psqlc_shutdown, pp_psqlc_read, pp_psqlc_write, pp_psqls_init,
  pp_psqls_shutdown, pp_psqls_read, pp_psqls_write,
}
use borderpatrol.Protocol.Mysql.{
  Mysql, pp_mysqlc_init, pp_mysqlc_shutdown, pp_mysqlc_read, pp_mysqlc_write, pp_mysqls_init,
  pp_mysqls_shutdown, pp_mysqls_read, pp_mysqls_write,
}
use borderpatrol.Protocol.Xorg.{XState, pp_xc_init, pp_xc_shutdown, pp_xc_read, pp_xc_write}
use borderpatrol.Protocol.Fcgi.{
  FcgiWrap, pp_fcgis_init, pp_fcgis_shutdown, pp_fcgis_read, pp_fcgis_write, pp_fcgic_init,
  pp_fcgic_shutdown, pp_fcgic_read, pp_fcgic_write,
}

-- The structs of type `pp_dispatcher_t`.
pub data Dispatcher : Type 0 where
  pp_perlpc pp_perlps pp_httpc pp_https pp_xc pp_psqlc pp_psqls pp_mysqlc pp_mysqls : Dispatcher
  pp_fcgis pp_fcgic pp_trivial : Dispatcher

-- What `void *data` points to. Nothing is set by the plugins without state.
pub data Data : Type 0 where
  unset : Data
  perlp : Perlp → Data
  http : Http → Data
  psql : Psql → Data
  mysql : Mysql → Data
  xorg : XState → Data
  fcgi : FcgiWrap → Data

-- The `name` of a dispatcher.
pub name_of : Dispatcher → List ℕ
name_of pp_perlpc = codes "perlp"
name_of pp_perlps = codes "perlp"
name_of pp_httpc = codes "http"
name_of pp_https = codes "http"
name_of pp_xc = codes "x11"
name_of pp_psqlc = codes "postgresql"
name_of pp_psqls = codes "postgresql"
name_of pp_mysqlc = codes "mysql"
name_of pp_mysqls = codes "mysql"
name_of pp_fcgis = codes "fcgi"
name_of pp_fcgic = codes "fcgi"
name_of pp_trivial = codes "trivial"

-- Memory that the C code reads without having set it: a field, a byte, and the array on the stack.
pub record Garbage : Type 0 where
  pub word : ℕ
  pub byte : ℕ
  pub stack : List ℕ

abbrev with_data : {S : Type 0} → (S → Data) → S × List Event → Data × List Event
with_data wrap (state, events) = (wrap state, events)

-- `pp_init`: the data after, and the events. Two plugins leave the pointer as it was.
unfoldable pub pp_init : Dispatcher → Garbage → ℤ → Data → Data × List Event
pp_init pp_perlpc g s ptr = (ptr, [])
pp_init pp_perlps g s ptr = with_data perlp (pp_perlps_init s)
pp_init pp_httpc g s ptr = (ptr, [])
pp_init pp_https g s ptr = with_data http (pp_https_init s)
pp_init pp_xc g s ptr = with_data xorg (pp_xc_init g.word s)
pp_init pp_psqlc g s ptr = with_data psql (pp_psqlc_init s)
pp_init pp_psqls g s ptr = with_data psql (pp_psqls_init s)
pp_init pp_mysqlc g s ptr = with_data mysql (pp_mysqlc_init s)
pp_init pp_mysqls g s ptr = with_data mysql (pp_mysqls_init s)
pp_init pp_fcgis g s ptr = with_data fcgi (pp_fcgis_init s)
pp_init pp_fcgic g s ptr = with_data fcgi (pp_fcgic_init s)
pp_init pp_trivial g s ptr = (unset, [])

-- `pp_shutdown`.
pub pp_shutdown : Dispatcher → Data → Data × List Event
pp_shutdown pp_perlpc ptr = (ptr, [])
pp_shutdown pp_perlps ptr = (unset, pp_perlps_shutdown)
pp_shutdown pp_httpc ptr = (ptr, [])
pp_shutdown pp_https ptr = (unset, pp_https_shutdown)
pp_shutdown pp_xc ptr = (unset, pp_xc_shutdown)
pp_shutdown pp_psqlc ptr = (unset, pp_psqlc_shutdown)
pp_shutdown pp_psqls ptr = (unset, pp_psqls_shutdown)
pp_shutdown pp_mysqlc ptr = (unset, pp_mysqlc_shutdown)
pp_shutdown pp_mysqls ptr = (unset, pp_mysqls_shutdown)
pp_shutdown pp_fcgis ptr = (unset, pp_fcgis_shutdown)
pp_shutdown pp_fcgic ptr = (unset, pp_fcgic_shutdown)
pp_shutdown pp_trivial ptr = (unset, [])

abbrev wrapped : {S : Type 0} → (S → Data) → Option (Outcome S) → Option (Outcome Data)
wrapped wrap o = do r ← o; outcome r.ret (wrap r.state) r.events

-- `pp_read`, `none` on data of another plugin.
unfoldable pub pp_read_data : Dispatcher → Garbage → Data → ℤ → List ℕ → ℕ → Option (Outcome Data)
pp_read_data pp_perlpc g ptr s buf len = outcome (pp_perlpc_read len) ptr []
pp_read_data pp_perlps g (perlp d) s buf len = wrapped perlp (pp_perlps_read d s buf len)
pp_read_data pp_httpc g ptr s buf len = outcome (pp_httpc_read len) ptr []
pp_read_data pp_https g (http d) s buf len = wrapped http (pp_https_read d s buf len g.byte)
pp_read_data pp_xc g (xorg d) s buf len = wrapped xorg (pp_xc_read d s buf len)
pp_read_data pp_psqlc g (psql d) s buf len = wrapped psql (pp_psqlc_read d s buf len)
pp_read_data pp_psqls g (psql d) s buf len = wrapped psql (pp_psqls_read d s buf len)
pp_read_data pp_mysqlc g (mysql d) s buf len = wrapped mysql (pp_mysqlc_read d s buf len)
pp_read_data pp_mysqls g (mysql d) s buf len = wrapped mysql (pp_mysqls_read d s buf len)
pp_read_data pp_fcgis g (fcgi d) s buf len = wrapped fcgi (pp_fcgis_read d s buf len g.stack)
pp_read_data pp_fcgic g (fcgi d) s buf len = wrapped fcgi (pp_fcgic_read d s buf len g.stack)
pp_read_data pp_trivial g ptr s buf len = outcome (pp_trivial_read len) ptr []
pp_read_data _ g _ s buf len = none

-- `pp_write`.
unfoldable pub pp_write_data : Dispatcher → Garbage → Data → ℤ → List ℕ → ℕ → Option (Outcome Data)
pp_write_data pp_perlpc g ptr s buf len = outcome (pp_perlpc_write len) ptr []
pp_write_data pp_perlps g (perlp d) s buf len = wrapped perlp (pp_perlps_write d s buf len)
pp_write_data pp_httpc g ptr s buf len = outcome (pp_httpc_write len) ptr []
pp_write_data pp_https g (http d) s buf len = wrapped http (pp_https_write d s buf len)
pp_write_data pp_xc g ptr s buf len = outcome (pp_xc_write len) ptr []
pp_write_data pp_psqlc g (psql d) s buf len = wrapped psql (pp_psqlc_write d s buf len)
pp_write_data pp_psqls g (psql d) s buf len = wrapped psql (pp_psqls_write d s buf len)
pp_write_data pp_mysqlc g (mysql d) s buf len = wrapped mysql (pp_mysqlc_write d s buf len)
pp_write_data pp_mysqls g (mysql d) s buf len = wrapped mysql (pp_mysqls_write d s buf len)
pp_write_data pp_fcgis g (fcgi d) s buf len = wrapped fcgi (pp_fcgis_write d s buf len g.stack)
pp_write_data pp_fcgic g (fcgi d) s buf len = wrapped fcgi (pp_fcgic_write d s buf len g.stack)
pp_write_data pp_trivial g ptr s buf len = outcome (pp_trivial_write len) ptr []
pp_write_data _ g _ s buf len = none

-- What the lookup reads of a `struct sockaddr`.
pub data Address : Type 0 where
  inet : ℕ → Address
  file : List ℕ → Address
  other_family : Address

abbrev found : Dispatcher → List ℕ → Option Dispatcher × List Event
found d id = (some d, event_s sys_pp_id (pos 0) id ∷ [])

-- The services file, and the flag that turns the plugins off.
module _ (getportbyname : List ℕ → ℤ) (bb_disable_pp : Bool) where
  pub is_protocol_port : List ℕ → ℕ → Bool
  is_protocol_port protocol_name port =
      let protocol_port = getportbyname protocol_name in
      if ltb_ℤ (pos 0) protocol_port then eqb_ℤ (pos port) protocol_port else false

  unfoldable pub pp_id_bind : Address → Option Dispatcher × List Event
  unfolding is_protocol_port name_of
  pp_id_bind addr = if bb_disable_pp then (none, []) else elim addr [
    | inet port ↦
        if is_protocol_port (name_of pp_https) port
        then found pp_https (codes "https")
        else if is_protocol_port (name_of pp_psqls) port
        then found pp_psqls (codes "psqls")
        else if is_protocol_port (name_of pp_mysqls) port
        then found pp_mysqls (codes "mysqls")
        else if is_protocol_port (name_of pp_perlps) port
        then found pp_perlps (codes "perlps")
        else if is_protocol_port (name_of pp_fcgis) port
        then found pp_fcgis (codes "fcgis")
        else (none, [])
    | file sun_path ↦
        if contains sun_path (codes "/var/run/postgl")
        then found pp_psqls (codes "psqls")
        else if contains sun_path (codes "/var/run/mysql")
        then found pp_mysqls (codes "mysqls")
        else (none, [])
    | other_family ↦ (none, [])
  ]

  unfoldable pub pp_id_connect : Address → Option Dispatcher × List Event
  unfolding is_protocol_port name_of
  pp_id_connect addr = if bb_disable_pp then (none, []) else elim addr [
    | inet port ↦
        if is_protocol_port (name_of pp_httpc) port
        then found pp_httpc (codes "httpc")
        else if is_protocol_port (name_of pp_psqlc) port
        then found pp_psqlc (codes "psqlc")
        else if is_protocol_port (name_of pp_mysqlc) port
        then found pp_mysqlc (codes "mysqlc")
        else if is_protocol_port (name_of pp_fcgic) port
        then found pp_fcgic (codes "fcgic")
        else (none, [])
    | file sun_path ↦
        if contains sun_path (codes "/var/run/postgl")
        then found pp_psqlc (codes "psqlc")
        else if contains sun_path (codes "/var/run/mysql")
        then found pp_mysqlc (codes "mysqlc")
        else if contains sun_path (codes "/usr/local/ze")
        then found pp_fcgic (codes "fcgic")
        else if starts (codes "/tmp/.X11-unix") sun_path
        then found pp_xc (codes "xc")
        else (none, [])
    | other_family ↦ (none, [])
  ]

  unfoldable pub pp_id_exec : List ℕ → Option Dispatcher × List Event
  pp_id_exec foo =
      if bb_disable_pp
      then (none, [])
      else if contains foo (codes ".fcgi")
      then found pp_fcgis (codes "fcgis")
      else (none, [])
