-- ===== src/Witnesses/Daemon.antt =====
-- The theorems on the daemon at concrete inputs: logd/logd.c.
use borderpatrol.Base.{
  ℕ, ◌+◌, ◌<◌, ◌≡◌, refl, true, some, List, [], ◌∷◌, ◌++◌, ◌>>=◌, arith, length, map, take,
}
use borderpatrol.Base.Int.{pos, ◌+ℤ◌, ◌-ℤ◌}
use borderpatrol.Fmt.Entry.{Entry, IsEntry, entry_bytes, log_bytes, length-entry_bytes}
use borderpatrol.Reader.{got}
use borderpatrol.Logd.{
  Timeval, timersub, timerisset, Conn, Server, remote_time, transfer_out, serve, connection,
  data_on, blank_relay,
}
use borderpatrol.Logd.Times.{retime, stamped}
use borderpatrol.Logd.Retimes.{transfer_out_retimes, transfer_out_first_clock, transfer_out_first}
use borderpatrol.Logd.Reconnect.{serve_reconnect}

abbrev ten : Timeval
ten = record { tv_sec = pos 10; tv_usec = pos 3 }

-- An entry without arguments or text.
abbrev bare : Entry
bare = record {
  fz = record {
    tid = 400;
    pid = 300;
    cycle_high = 9;
    cycle_low = 700;
    sc = 5;
    rv = 0;
    nm = 120;
    arg_len = 0;
    str_len = 0;
    padding = 0;
  };
  args = [];
  text = [];
}

bare-IsEntry : IsEntry bare
bare-IsEntry = record {
  frozen = record {
    tid_fits = omega arith;
    pid_fits = omega arith;
    high_fits = omega arith;
    low_fits = omega arith;
    sc_fits = omega arith;
    rv_fits = omega arith;
    nm_fits = omega arith;
    arg_len_fits = omega arith;
    str_len_fits = omega arith;
    padding_fits = omega arith;
  };
  arg_count = refl;
  at_most_three = omega arith;
  args_fit = tt;
  text_count = refl;
  text_fits = omega arith;
}

abbrev clock : ℕ → Timeval
clock n = ten

part_of_bare : 7 < length (entry_bytes bare)
part_of_bare = omega (arith, length-entry_bytes bare)

transfer_out_retimes_example :
    (junk' : List ℕ) × (transfer_out clock
        (record {
          relay = some (log_bytes (bare ∷ bare ∷ []) ++ (take 7 (entry_bytes bare) ++ (1 ∷ [])));
          b_end = length (log_bytes (bare ∷ bare ∷ [])) + 7;
          avail = 100;
          timediff = ten;
        })
        (record { log = []; writes = []; ticks = 1 })
      ≡ some (
        record {
          relay = some (take 7 (entry_bytes bare) ++ junk');
          b_end = 7;
          avail = 100 + length (log_bytes (bare ∷ bare ∷ []));
          timediff = ten;
        },
        record { log = log_bytes (map (retime ten) (bare ∷ bare ∷ [])); writes = []; ticks = 1 },
      ))
transfer_out_retimes_example =
    transfer_out_retimes clock ten (bare ∷ bare ∷ []) bare 7 (1 ∷ []) [] 100 1 refl
      (bare-IsEntry, (bare-IsEntry, tt)) bare-IsEntry part_of_bare

abbrev unset : Timeval
unset = record { tv_sec = pos 0; tv_usec = pos 0 }

difference_is_set : timerisset (timersub (clock 0) (remote_time bare.fz)) ≡ true
unfolding timersub ◌-ℤ◌ ◌+ℤ◌
difference_is_set = refl

transfer_out_first_example :
    (junk' : List ℕ) × (transfer_out clock
        (record {
          relay = some (log_bytes (bare ∷ []) ++ (take 7 (entry_bytes bare) ++ (1 ∷ [])));
          b_end = length (log_bytes (bare ∷ [])) + 7;
          avail = 100;
          timediff = unset;
        })
        (record { log = []; writes = []; ticks = 0 })
      ≡ some (
        record {
          relay = some (take 7 (entry_bytes bare) ++ junk');
          b_end = 7;
          avail = 100 + length (log_bytes (bare ∷ []));
          timediff = timersub ten (remote_time bare.fz);
        },
        record {
          log = log_bytes (map (retime (timersub ten (remote_time bare.fz))) (bare ∷ []));
          writes = [];
          ticks = 0 + 1;
        },
      ))
transfer_out_first_example =
    transfer_out_first clock unset bare [] bare 7 (1 ∷ []) [] 100 0 refl difference_is_set
      (bare-IsEntry, tt) bare-IsEntry part_of_bare

transfer_out_first_clock_example :
    (junk' : List ℕ) × (transfer_out clock
        (record {
          relay = some (log_bytes (bare ∷ []) ++ (take 7 (entry_bytes bare) ++ (1 ∷ [])));
          b_end = length (log_bytes (bare ∷ [])) + 7;
          avail = 100;
          timediff = unset;
        })
        (record { log = []; writes = []; ticks = 0 })
      ≡ some (
        record {
          relay = some (take 7 (entry_bytes bare) ++ junk');
          b_end = 7;
          avail = 100 + length (log_bytes (bare ∷ []));
          timediff = timersub ten (remote_time bare.fz);
        },
        record { log = entry_bytes (stamped ten bare) ++ log_bytes []; writes = []; ticks = 0 + 1 },
      ))
transfer_out_first_clock_example =
    transfer_out_first_clock clock unset bare [] bare 7 (1 ∷ []) [] 100 0 refl difference_is_set
      (record { from = omega arith; to = refl }) (bare-IsEntry, tt) bare-IsEntry part_of_bare

-- A client on the descriptor 5 that has sent 7 bytes of an entry.
abbrev half_sent : Conn
half_sent = record {
  relay = some (take 7 (entry_bytes bare) ++ (1 ∷ []));
  b_end = 7;
  avail = 100;
  timediff = ten;
}

abbrev server : Server
server = record {
  conns = λ fd. half_sent;
  active = λ fd. true;
  out = record { log = []; writes = []; ticks = 1 };
}

serve_reconnect_example :
    (s' : Server) × ((do
      s1 ← serve clock (data_on 5 (got [])) server
      serve clock (connection 5) s1)
      ≡ some s')
    × (s'.conns 5 ≡ record { relay = some blank_relay; b_end = 7; avail = 100; timediff = ten })
    × (s'.out ≡ server.out)
serve_reconnect_example =
    serve_reconnect clock ten bare 7 (1 ∷ []) [] 100 1 5 server refl bare-IsEntry part_of_bare refl
      refl
