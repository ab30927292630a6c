-- ===== src/Protocol.antt =====
-- trace/protocol.c: the plugins that follow the protocols spoken over a descriptor. This file has
-- what they share (trace/protocol.h, trace/config.h); each plugin has a module.
use borderpatrol.Base.{ℕ, Option, none, some, List, [], ◌∷◌, ◌++◌}
pub mod Perl
pub mod Mysql
pub mod Psql
pub mod Http
pub mod Framing
pub mod Dispatch
pub mod Xorg
pub mod Fcgi
use borderpatrol.Base.Int.{ℤ, pos, negsuc}
use borderpatrol.Base.Text.{codes}

-- The calls that plugins and wrappers log; their numbers are generated.
pub data Sys : Type 0 where
  sys_pp_init sys_pp_shutdown sys_pp_msg_recv sys_pp_msg_send sys_pp_prop sys_pp_data : Sys
  sys_pp_id sys_pp_req_begin sys_https_read sys_pp_fcgi_hmm : Sys
  sys_pp_iso_read sys_read_begin sys_read sys_recv_begin sys_recv sys_recvfrom_begin : Sys
  sys_recvfrom sys_write_begin sys_write sys_send_begin sys_send sys_sendto_begin sys_sendto : Sys
  sys_writev_begin sys_writev sys_pipe sys_dup sys_dup_fcntl sys_socket sys_open sys_create : Sys
  sys_close sys_bind sys_listen sys_accept_begin sys_accept sys_connect_begin sys_connect : Sys
  sys_debug sys_fatal sys_sendfile_begin sys_sendfile sys_sendfile64_begin sys_sendfile64 : Sys
  sys_select_begin sys_select sys_poll_begin sys_poll sys_pp_iso_poll sys_exit sys_shutdown : Sys
  sys_fork_begin sys_fork sys_exec sys_exec_child sys_execl sys_execlp sys_execle sys_execv : Sys
  sys_execvp sys_getenv sys_clearenv sys_unsetenv : Sys
  sys_pth_create_begin sys_pth_create_parent sys_pth_create_child : Sys

-- The id of a plugin.
pub data Role : Type 0 where
  pp_perls_id pp_https_id pp_psqls_id pp_psqlc_id pp_fcgis_id pp_fcgic_id : Role
  pp_xc_id pp_mysqls_id pp_mysqlc_id : Role

pub data Direction : Type 0 where
  pp_read pp_write : Direction

abbrev pub role_id : Role → ℤ
role_id pp_perls_id = pos 1
role_id pp_https_id = pos 3
role_id pp_psqls_id = pos 5
role_id pp_psqlc_id = pos 6
role_id pp_fcgis_id = pos 7
role_id pp_fcgic_id = pos 8
role_id pp_xc_id = pos 10
role_id pp_mysqls_id = pos 11
role_id pp_mysqlc_id = pos 12

-- A call of one of the LOGBIN functions.
pub record Event : Type 0 where
  pub sc : Sys
  pub rv : ℤ
  pub ints : List ℤ
  pub text : List ℕ

abbrev pub event_0 : Sys → ℤ → Event
event_0 sc rv = record { sc = sc; rv = rv; ints = []; text = [] }

abbrev pub event_s : Sys → ℤ → List ℕ → Event
event_s sc rv s = record { sc = sc; rv = rv; ints = []; text = s }

abbrev pub event_ss : Sys → ℤ → List ℕ → List ℕ → Event
event_ss sc rv s1 s2 = event_s sc rv (s1 ++ (codes "=-=" ++ s2))

abbrev pub event_i : Sys → ℤ → ℤ → Event
event_i sc rv i = record { sc = sc; rv = rv; ints = i ∷ []; text = [] }

abbrev pub event_ii : Sys → ℤ → ℤ → ℤ → Event
event_ii sc rv i j = record { sc = sc; rv = rv; ints = i ∷ j ∷ []; text = [] }

abbrev pub event_iii : Sys → ℤ → ℤ → ℤ → ℤ → Event
event_iii sc rv i j k = record { sc = sc; rv = rv; ints = i ∷ j ∷ k ∷ []; text = [] }

abbrev pub event_is : Sys → ℤ → ℤ → List ℕ → Event
event_is sc rv i s = record { sc = sc; rv = rv; ints = i ∷ []; text = s }

abbrev pub event_iis : Sys → ℤ → ℤ → ℤ → List ℕ → Event
event_iis sc rv i j s = record { sc = sc; rv = rv; ints = i ∷ j ∷ []; text = s }

abbrev pub event_iiis : Sys → ℤ → ℤ → ℤ → ℤ → List ℕ → Event
event_iiis sc rv i j k s = record { sc = sc; rv = rv; ints = i ∷ j ∷ k ∷ []; text = s }

-- What a call of `pp_read` or `pp_write` comes to: how many of the bytes it has used, -1 if it needs
-- more of them, the state after, and what it has logged.
pub record Outcome (S : Type 0) : Type 0 where
  pub ret : ℤ
  pub state : S
  pub events : List Event

abbrev pub outcome : {S : Type 0} → ℤ → S → List Event → Option (Outcome S)
outcome ret state events = some (record { ret = ret; state = state; events = events })

abbrev pub need_more : ℤ
need_more = negsuc 0
