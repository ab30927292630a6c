-- ===== src/Witnesses/Wrappers.antt =====
-- The theorems on the wrappers for one descriptor at concrete inputs: trace/vfd.c.
use borderpatrol.Base.{ℕ, ◌≡◌, ◌≢◌, refl, false, Option, none, some, List, [], ◌∷◌, ◌++◌, arith}
use borderpatrol.Base.Int.{ℤ, pos, negsuc}
use borderpatrol.Base.Text.{codes}
use borderpatrol.Reader.{Read, got}
use borderpatrol.Reader.Ready.{input_bytes}
use borderpatrol.Protocol.{event_i, sys_close, event_s, sys_pp_id}
use borderpatrol.Protocol.Dispatch.{pp_mysqls, file, pp_read_data, pp_write_data, pp_id_bind}
use borderpatrol.Vfd.{Vfd}
use borderpatrol.Vfd.Invariant.{held}
use borderpatrol.Vfd.Mysql.{MysqlRefused, pp_mysqls_read-IsPlugin}
use borderpatrol.Vfd.MysqlWrites.{
  MysqlWriteAt, pp_mysqls_write-IsFramer, pp_mysqls_write-KeepsAtMost, joined,
}
use borderpatrol.Wrap.{Process, Config, no_fd, update, index_of, clear_readable_cache}
use borderpatrol.Wrap.Files.{opened, shut, closed, close, socket}
use borderpatrol.Wrap.Files.Closed.{farewell, IsFree, close_frees}
use borderpatrol.Wrap.Network.{
  Sockaddr, Names, parse_sockaddr, file_fits, attached, accepted, accept, bind,
}
use borderpatrol.Wrap.Input.{recv}
use borderpatrol.Wrap.Input.Transparent.{stream}
use borderpatrol.Wrap.Input.Held.{
  by_read, by_recv, by_recvfrom, input_call, input_calls, select_behind_read,
}
use borderpatrol.Wrap.Output.{tries}
use borderpatrol.Wrap.Output.Shown.{joined-tries}
use borderpatrol.Wrap.Output.InOrder.{by_writev, output_call, Written, output_call_in_order}
use borderpatrol.Wrap.Select.{Answer, empty_sets, speak_select}
use borderpatrol.Wrap.Select.Cache.{to_read}
use borderpatrol.Wrap.Session.{accept_then_read}
use borderpatrol.Wrap.Safety.{Call, at_accept, at_close, step, run}
use borderpatrol.Wrap.Safety.Calls.{IsSafe}
use borderpatrol.Wrap.Safety.Run.{run-IsSafe}
use borderpatrol.Wrap.Datagram.{recv_after_bind_faults}
use borderpatrol.Witnesses.Descriptors.{
  length-blank_buffer, garbage, entry_before, ping_input, waiting, waiting-IsVfd, writer,
  writer-IsWriter, ping_events,
}

abbrev pub config : Config
config = record {
  bb_disable_all = false;
  bb_disable_pp = false;
  debug_events = false;
  getportbyname = λ name. negsuc 0;
}

-- Every entry is like this one.
abbrev pub process_of : Vfd → List Read → Process
process_of v input = record {
  vfd_tab = λ i. v;
  tracked = no_fd;
  vsel_read = no_fd;
  vsel_write = no_fd;
  vsel_except = no_fd;
  log = [];
  inputs = λ i. input;
}

close_frees_example :
    (p' : Process) × (close config (pos 6) (negsuc 0) (process_of waiting.vfd [])
      ≡ some (negsuc 0, p'))
    × IsFree (p'.vfd_tab 6)
    × (p'.log
        ≡ farewell (some pp_mysqls) waiting.vfd.pp_data
          ++ (event_i sys_close (negsuc 0) (pos 6) ∷ []))
    × (p'.tracked 6 ≡ false)
    × (p'.vsel_read 6 ≡ false)
    × (p'.vsel_write 6 ≡ false)
    × (p'.vsel_except 6 ≡ false)
    × ((i : ℕ) → i ≢ 6 → p'.vfd_tab i ≡ waiting.vfd)
close_frees_example =
    close_frees config 6 (negsuc 0) (process_of waiting.vfd []) refl (omega arith)
      (λ e. omega (arith, e))

abbrev pub nothing_ready : Answer
nothing_ready = record { r = pos 0; left = empty_sets }

abbrev pub no_names : Names
no_names = record { peer = none; sock = none; stale = file [] }

select_behind_read_example :
    (t : ℤ × List ℕ × Process) × (input_call config
        (λ d. pp_read_data d garbage)
        6
        (by_read 1)
        (process_of waiting.vfd waiting.input)
      ≡ some t)
    × ((t.1 ≢ [])
        → (t.2.vfd_tab 6).in_prog ≡ false
        → ((held (t.2.vfd_tab 6) ≢ [])
            → speak_select config garbage (λ i. no_names) 7 (to_read 6) nothing_ready t.2
              ≡ some (
                record { ret = pos 1; rfd = pos 6; sets = to_read 6 },
                record t.2 { vsel_read = update t.2.vsel_read 6 false },
              ))
          × ((held (t.2.vfd_tab 6) ≡ [])
              → speak_select config garbage (λ i. no_names) 7 (to_read 6) nothing_ready t.2
                ≡ some (record { ret = pos 0; rfd = negsuc 0; sets = empty_sets }, t.2)))
select_behind_read_example =
    select_behind_read config (λ d. pp_read_data d garbage) pp_mysqls 6 7 MysqlRefused (by_read 1)
      (process_of waiting.vfd waiting.input) garbage (λ i. no_names) nothing_ready
      (pp_mysqls_read-IsPlugin garbage (pos 6)) refl (omega arith) (omega arith) waiting-IsVfd
      (omega arith, omega arith) refl

abbrev mysql_sock : Sockaddr
mysql_sock = record {
  address = file (codes "/var/run/mysqld.sock");
  any_host = false;
  host = [];
  addrlen = 110;
}

abbrev mysql_names : Names
mysql_names = record { peer = none; sock = some mysql_sock; stale = file [] }

accept_then_read_example :
    (p1 p2 : Process) × (out : List ℕ) × (accept config garbage
        (pos 3)
        (pos 6)
        mysql_names
        (process_of entry_before ping_input)
      ≡ some (pos 6, p1))
    × (input_calls config
          (λ d. pp_read_data d garbage)
          6
          (by_read 3 ∷ by_recv 1 (pos 0) ∷ by_recvfrom 8 (pos 0) ∷ [])
          p1
        ≡ some (out, p2))
    × (out ++ stream 6 p2 ≡ input_bytes ping_input)
unfolding pp_id_bind parse_sockaddr file_fits
accept_then_read_example =
    accept_then_read config garbage 3 6 mysql_names (process_of entry_before ping_input)
      (event_s sys_pp_id (pos 0) (codes "mysqls") ∷ []) (codes "other")
      (codes "/var/run/mysqld.sock") refl (omega arith) (omega arith) length-blank_buffer refl refl
      refl (by_read 3 ∷ by_recv 1 (pos 0) ∷ by_recvfrom 8 (pos 0) ∷ [])
      (
        (omega arith, omega arith),
        (((omega arith, omega arith), refl), (((omega arith, omega arith), refl), tt)),
      )

joined-tries_example :
    joined (tries 3 ((1 ∷ 0 ∷ []) ∷ [] ∷ (0 ∷ 0 ∷ 14 ∷ []) ∷ [])) ≡ 1 ∷ 0 ∷ 0 ∷ []
joined-tries_example = joined-tries 3 ((1 ∷ 0 ∷ []) ∷ [] ∷ (0 ∷ 0 ∷ 14 ∷ []) ∷ [])

output_call_in_order_example :
    Written config
      (λ d. pp_write_data d garbage)
      pp_mysqls
      6
      (MysqlWriteAt (pos 6))
      3
      (process_of writer [])
      (pos 3)
      (0 ∷ 14 ∷ [])
      ping_events
      (output_call config
        (λ d. pp_write_data d garbage)
        6
        (by_writev ((1 ∷ 0 ∷ []) ∷ [] ∷ (0 ∷ 9 ∷ []) ∷ []))
        (pos 3)
        (process_of writer []))
output_call_in_order_example =
    output_call_in_order config (λ d. pp_write_data d garbage) pp_mysqls 6 (MysqlWriteAt (pos 6)) 3
      (pp_mysqls_write-IsFramer garbage (pos 6)) (pp_mysqls_write-KeepsAtMost garbage (pos 6)) refl
      (omega arith) (by_writev ((1 ∷ 0 ∷ []) ∷ [] ∷ (0 ∷ 9 ∷ []) ∷ [])) (pos 3) (0 ∷ 14 ∷ [])
      ping_events (process_of writer []) writer-IsWriter
      (omega arith, (omega arith, (omega arith, tt)))

-- A connection is accepted, for which a plugin is found, and closed.
abbrev some_calls : List Call
some_calls = at_accept (pos 3) (pos 6) mysql_names ∷ at_close (pos 6) (pos 0) ∷ []

abbrev SafeAfter : Option Process → Type 0
SafeAfter none = ⊥
SafeAfter (some p) = IsSafe p

run-IsSafe_example : SafeAfter (run config garbage some_calls (process_of entry_before []))
unfolding run step accept accepted opened attached clear_readable_cache parse_sockaddr file_fits
    pp_id_bind close closed shut index_of
run-IsSafe_example =
    run-IsSafe config garbage some_calls (process_of entry_before []) _ (λ i. tt) refl

abbrev ping_read : List Read
ping_read = got (1 ∷ 0 ∷ 0 ∷ 0 ∷ 14 ∷ []) ∷ []

recv_after_bind_faults_example :
    (p1 p2 : Process) × (socket config
        (pos 1)
        (pos 2)
        (pos 0)
        (pos 6)
        (process_of entry_before ping_read)
      ≡ some (pos 6, p1))
    × (bind config (pos 6) (pos 0) (file (codes "/var/run/mysqld.sock")) p1 ≡ some (pos 0, p2))
    × (recv config (λ d. pp_read_data d garbage) (pos 6) 4 (pos 0) p2 ≡ none)
unfolding pp_id_bind
recv_after_bind_faults_example =
    recv_after_bind_faults config garbage pp_mysqls 6 4 (process_of entry_before ping_read)
      (event_s sys_pp_id (pos 0) (codes "mysqls") ∷ []) (file (codes "/var/run/mysqld.sock")) 1
      (0 ∷ 0 ∷ 0 ∷ 14 ∷ []) [] refl (omega arith) refl tt refl refl (omega arith) (pos 1) (pos 2)
      (pos 0) (pos 0)
