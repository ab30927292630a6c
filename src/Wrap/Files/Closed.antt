-- ===== src/Wrap/Files/Closed.antt =====
-- What `close` of trace/vfd.c leaves of a descriptor.
use borderpatrol.Base.{
  ℕ, ◌+◌, ◌<◌, ◌≡◌, ◌≢◌, refl, false, Option, none, some, List, [], ◌∷◌, ◌++◌, append_assoc, ap,
  ◌∙◌, ==_refl, ne→==, lt→ltb, arith,
}
use borderpatrol.Base.Int.{ℤ, pos, eqb_ℤ}
use borderpatrol.Protocol.Dispatch.{Dispatcher, Data, pp_shutdown}
use borderpatrol.Vfd.{Vfd, vfd_none}
use borderpatrol.Wrap.{Process, Config, max_fds, index_of, logged}
use borderpatrol.Protocol.{Event, event_i, sys_close}
use borderpatrol.Wrap.Files.{shut, closed, close, logd_fd}

-- The entry of a descriptor that is not in use.
pub record IsFree (v : Vfd) : Type 0 where
  pub no_type : v.type ≡ vfd_none
  pub no_plugin : v.pp_dispatcher ≡ none
  pub not_in_prog : v.in_prog ≡ false
  pub no_bytes : v.rbuflen ≡ 0
  pub no_offset : v.rbufofs ≡ 0

shut-IsFree : (v : Vfd) → IsFree (shut v).0
unfolding shut
shut-IsFree v = go v.pp_dispatcher
  where
    go : (q : Option Dispatcher) → IsFree (shut (record v { pp_dispatcher = q })).0
    go none = record {
      no_type = refl;
      no_plugin = refl;
      not_in_prog = refl;
      no_bytes = refl;
      no_offset = refl;
    }
    go (some d) = record {
      no_type = refl;
      no_plugin = refl;
      not_in_prog = refl;
      no_bytes = refl;
      no_offset = refl;
    }

-- What a plugin logs when it is told to shut down.
abbrev pub farewell : Option Dispatcher → Data → List Event
farewell none data_of = []
farewell (some d) data_of = (pp_shutdown d data_of).1

shut_events : (v : Vfd) → (shut v).1 ≡ farewell v.pp_dispatcher v.pp_data
unfolding shut
shut_events v = go v.pp_dispatcher
  where
    go : (q : Option Dispatcher) → (shut (record v { pp_dispatcher = q })).1 ≡ farewell q v.pp_data
    go none = refl
    go (some d) = refl

-- For a descriptor of the table other than that of the log: `close` returns what `real_close`
-- returns, whether that fails or not; it leaves the descriptor untracked, in no set of the cache, and
-- its entry without plugin, connect in progress or bytes read; a plugin that the entry has had has
-- logged its shutdown before the event of the call, and other entries stay.
pub close_frees :
    (k : Config) (fd : ℕ) (r : ℤ) (p : Process)
    → k.bb_disable_all ≡ false
    → fd < max_fds
    → fd ≢ logd_fd
    → (p' : Process) × (close k (pos fd) r p ≡ some (r, p'))
      × IsFree (p'.vfd_tab fd)
      × (p'.log
          ≡ p.log
            ++ (farewell (p.vfd_tab fd).pp_dispatcher (p.vfd_tab fd).pp_data
                ++ (event_i sys_close r (pos fd) ∷ [])))
      × (p'.tracked fd ≡ false)
      × (p'.vsel_read fd ≡ false)
      × (p'.vsel_write fd ≡ false)
      × (p'.vsel_except fd ≡ false)
      × ((i : ℕ) → i ≢ fd → p'.vfd_tab i ≡ p.vfd_tab i)
unfolding close closed index_of
close_frees k fd r p on inside other = (
  logged (event_i sys_close r (pos fd)) (closed fd p),
  rw (not_log, on, lt→ltb fd max_fds inside),
  rw (==_refl fd) (shut-IsFree (p.vfd_tab fd)),
  ap (λ l. p.log ++ l ++ (event_i sys_close r (pos fd) ∷ [])) (shut_events (p.vfd_tab fd))
      ∙ append_assoc p.log _ _,
  rw (==_refl fd),
  rw (==_refl fd),
  rw (==_refl fd),
  rw (==_refl fd),
  λ i ne. rw (ne→== i fd ne),
)
  where
    not_log : eqb_ℤ (pos fd) (pos logd_fd) ≡ false
    not_log = ne→== (fd + 0) (79 + 0) (λ e. other (omega (arith, e)))
