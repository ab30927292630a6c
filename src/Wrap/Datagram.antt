-- ===== src/Wrap/Datagram.antt =====
-- A datagram socket in trace/vfd.c, on which `bind` finds a plugin.
use borderpatrol.Base.{
  ℕ, suc, ◌+◌, ◌-◌, ◌==◌, ◌<◌, ◌≤◌, ◌≡◌, refl, ◌∙◌, ap, Bool, true, false, if◌then◌else◌, Option,
  none, some, List, ◌∷◌, lt→ltb, le→leb, arith, length, ◌>>=◌,
}
use borderpatrol.Base.Int.{ℤ, pos}
use borderpatrol.Reader.{Read, got}
use borderpatrol.Protocol.{Event, event_i, event_iii, sys_socket, sys_bind}
use borderpatrol.Protocol.Dispatch.{
  Dispatcher, pp_perlpc, pp_httpc, pp_trivial, Garbage, Data, unset, Address, pp_id_bind,
  pp_read_data,
}
use borderpatrol.Vfd.{
  Vfd, vbufsize, vfd_sock, vfd_tab_init_one, virtual_read, read_by, read_more, buf_shift,
  after_read, present_pp, real_read,
}
use borderpatrol.Wrap.{Process, Config, max_fds, index_of, fd_at, logged, logged_if, tracked_as}
use borderpatrol.Wrap.Files.{socket, opened, opened_if, fresh}
use borderpatrol.Wrap.Network.{bind, bound}
use borderpatrol.Wrap.Input.{peeks, followed_input, wrapped_input, recv}
use borderpatrol.Wrap.Input.Transparent.{update_here, index_of_pos}

-- The plugin uses the data that `pp_init` makes.
abbrev pub NeedsData : Dispatcher → Type 0
NeedsData pp_perlpc = ⊥
NeedsData pp_httpc = ⊥
NeedsData pp_trivial = ⊥
NeedsData d = Unit

unset_faults :
    (d : Dispatcher) (g : Garbage) (s : ℤ) (buf : List ℕ) (len : ℕ)
    → NeedsData d
    → pp_read_data d g unset s buf len ≡ none
unfolding pp_read_data
unset_faults pp_perlpc g s buf len h = absurd h
unset_faults pp_httpc g s buf len h = absurd h
unset_faults pp_trivial g s buf len h = absurd h
unset_faults _ g s buf len h = refl

bind_lem :
    (k : Config) (fd : ℕ) (addr : Address) (q : Process)
    → k.bb_disable_all ≡ false
    → fd < max_fds
    → bind k (pos fd) (pos 0) addr q
      ≡ some (
        pos 0,
        logged_if k.debug_events (event_i sys_bind (pos 0) (pos fd)) (bound k fd (pos 0) addr q),
      )
unfolding bind
bind_lem k fd addr q on inside =
    ap
      (λ b. if b then some (pos 0, q) else elim (index_of (pos fd)) [
        | none ↦ some (pos 0, q)
        | some i ↦ some (
          pos 0,
          logged_if k.debug_events (event_i sys_bind (pos 0) (pos fd)) (bound k i (pos 0) addr q),
        )
      ])
      on
    ∙ rw (index_of_pos fd inside)

wrapped_input_faults :
    (k : Config) (g : Garbage) (d : Dispatcher) (fd len : ℕ) (peek : Bool) (before : Event)
    (behind : ℤ → Event) (q : Process)
    → k.bb_disable_all ≡ false
    → fd < max_fds
    → (q.vfd_tab fd).pp_dispatcher ≡ some d
    → virtual_read (λ c. pp_read_data c g) (pos fd) (fd_at fd (logged before q)) len ≡ none
    → wrapped_input k (λ c. pp_read_data c g) (pos fd) len peek before behind q ≡ none
unfolding wrapped_input followed_input
wrapped_input_faults k g d fd len peek before behind q on inside e faults =
    rw (on, index_of_pos fd inside)
      (ap
          (λ o. followed_input k (λ c. pp_read_data c g) fd len peek (logged before q) o >>= λ u.
            some (u.0, u.1, logged (behind u.0) u.2))
          e
        ∙ rw faults)

module _ (k : Config) (g : Garbage) (d : Dispatcher) (fd len : ℕ) (p : Process)
    (events : List Event) (addr : Address) (b : ℕ) (bytes : List ℕ) (input : List Read)
    (on : k.bb_disable_all ≡ false) (inside : fd < max_fds)
    (found : pp_id_bind k.getportbyname k.bb_disable_pp addr ≡ (some d, events))
    (needs : NeedsData d) (never_set : (p.vfd_tab fd).pp_data ≡ unset)
    (arrives : p.inputs fd ≡ got (b ∷ bytes) ∷ input) (fits : length (b ∷ bytes) ≤ vbufsize) where
  -- The entry behind `socket` and `bind`.
  abbrev entry : Data → Vfd
  entry ptr = record (fresh vfd_sock (p.vfd_tab fd)) { pp_dispatcher = some d; pp_data = ptr }

  read_faults :
      (q : Process)
      → q.vfd_tab fd ≡ entry unset
      → q.inputs fd ≡ got (b ∷ bytes) ∷ input
      → virtual_read (λ d. pp_read_data d g) (pos fd) (fd_at fd q) len ≡ none
  unfolding virtual_read read_by read_more buf_shift after_read present_pp real_read
      vfd_tab_init_one
  read_faults q e i =
      ap
        (λ v.
          virtual_read (λ d. pp_read_data d g) (pos fd)
            (record { vfd = v; readable = q.vsel_read fd; log = q.log; input = q.inputs fd }) len)
        e
      ∙ ap
          (λ l.
            virtual_read (λ d. pp_read_data d g) (pos fd)
              (record { vfd = entry unset; readable = q.vsel_read fd; log = q.log; input = l }) len)
          i
      ∙ rw (
        le→leb (length (b ∷ bytes)) vbufsize fits,
        not_empty (length bytes),
        unset_faults d g (pos fd),
      )
    where
      not_empty : (n : ℕ) → (0 + suc n - 0 == 0) ≡ false
      not_empty n = ground arith

  module _ (domain type protocol : ℤ) where
    behind_socket : Process
    behind_socket =
        logged (event_iii sys_socket (pos fd) domain type protocol)
          (tracked_as fd (fresh vfd_sock (p.vfd_tab fd)) p)

    behind_bind : Process
    behind_bind =
        logged_if k.debug_events (event_i sys_bind (pos 0) (pos fd))
          (bound k fd (pos 0) addr behind_socket)

    socket-returns : socket k domain type protocol (pos fd) p ≡ some (pos fd, behind_socket)
    unfolding socket opened_if opened behind_socket
    socket-returns = rw (on, lt→ltb fd max_fds inside)

    bind-returns : bind k (pos fd) (pos 0) addr behind_socket ≡ some (pos 0, behind_bind)
    unfolding behind_bind
    bind-returns = bind_lem k fd addr behind_socket on inside

    bound-entry : (bound k fd (pos 0) addr behind_socket).vfd_tab fd ≡ entry unset
    unfolding bound behind_socket vfd_tab_init_one
    bound-entry =
        update_here behind_socket.vfd_tab fd _
        ∙ ap {A = Vfd × Option Dispatcher} {B = Vfd} (λ t. record t.0 { pp_dispatcher = t.1 })
            (ap (λ v. (v, (pp_id_bind k.getportbyname k.bb_disable_pp addr).0))
              (update_here p.vfd_tab fd (fresh vfd_sock (p.vfd_tab fd))))
        ∙ ap {A = Option Dispatcher} {B = Vfd}
            (λ o. record (fresh vfd_sock (p.vfd_tab fd)) { pp_dispatcher = o })
            (ap (λ t. t.0) found)
        ∙ ap {A = Data} {B = Vfd} (λ ptr. entry ptr) never_set

    entry_if_logged :
        (c : Bool) (e : Event)
        → (logged_if c e (bound k fd (pos 0) addr behind_socket)).vfd_tab fd ≡ entry unset
    entry_if_logged true e = bound-entry
    entry_if_logged false e = bound-entry

    input_if_logged :
        (c : Bool) (e : Event)
        → (logged_if c e (bound k fd (pos 0) addr behind_socket)).inputs ≡ p.inputs
    unfolding bound behind_socket
    input_if_logged true e = refl
    input_if_logged false e = refl

  -- For a descriptor whose data no plugin has ever set, a plugin with state that is found for an
  -- address, and a packet that fits the buffer: after `socket` and a `bind` to the address, `recv`
  -- calls the plugin with the pointer that was never set, and does not return.
  pub recv_after_bind_faults :
      (domain type protocol flags : ℤ)
      → (p1 p2 : Process) × (socket k domain type protocol (pos fd) p ≡ some (pos fd, p1))
        × (bind k (pos fd) (pos 0) addr p1 ≡ some (pos 0, p2))
        × (recv k (λ d. pp_read_data d g) (pos fd) len flags p2 ≡ none)
  unfolding recv behind_bind
  recv_after_bind_faults domain type protocol flags =
      let p2 : Process = behind_bind domain type protocol in
      let e : p2.vfd_tab fd ≡ entry unset = entry_if_logged domain type protocol k.debug_events _ in
      (
        behind_socket domain type protocol,
        p2,
        socket-returns domain type protocol,
        bind-returns domain type protocol,
        wrapped_input_faults k g d fd len (peeks flags) _ _ p2 on inside
            (ap (λ v. v.pp_dispatcher) e)
            (read_faults (logged _ p2) e
              (ap (λ i. i fd) (input_if_logged domain type protocol k.debug_events _) ∙ arrives)),
      )
