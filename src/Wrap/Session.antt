-- ===== src/Wrap/Session.antt =====
-- A connection of a MySQL server in trace/vfd.c: `accept`, then calls that read.
use borderpatrol.Base.{
  ℕ, ◌<◌, ◌≡◌, refl, sym, ◌∙◌, ap, subst, inl, inr, false, some, List, [], ◌++◌, arith, All, length,
  lt→ltb,
}
use borderpatrol.Base.Int.{pos}
use borderpatrol.Base.Text.{codes}
use borderpatrol.Reader.Ready.{input_bytes}
use borderpatrol.Protocol.{Event, event_is, event_i, sys_accept, sys_accept_begin}
use borderpatrol.Protocol.Dispatch.{pp_mysqls, Garbage, pp_init, pp_read_data, pp_id_bind}
use borderpatrol.Vfd.{vbufsize, Vfd, vfd_sock, vfd_tab_init_one}
use borderpatrol.Vfd.Invariant.{held, IsVfd}
use borderpatrol.Vfd.Mysql.{MysqlRefused, pp_mysqls_read-IsPlugin}
use borderpatrol.Wrap.{Process, Config, max_fds, logged, tracked_as, clear_readable_cache, update}
use borderpatrol.Wrap.Files.{opened, fresh}
use borderpatrol.Wrap.Network.{Names, name_or_other, address_or, attached, accepted, accept}
use borderpatrol.Wrap.Input.Transparent.{stream, index_of_pos, update_here}
use borderpatrol.Wrap.Input.Held.{InputCall, IsPlain, input_calls, input_calls-in_order}

module _ (k : Config) (g : Garbage) (s new : ℕ) (names : Names) (p : Process) (events : List Event)
    (rhostport lhostport : List ℕ) (on : k.bb_disable_all ≡ false) (s_inside : s < max_fds)
    (inside : new < max_fds) (size : length (p.vfd_tab new).rbuf ≡ vbufsize)
    (at_mysql : pp_id_bind k.getportbyname k.bb_disable_pp (address_or names.sock names.stale)
      ≡ (some pp_mysqls, events))
    (peer_named : name_or_other names.peer 512 ≡ some rhostport)
    (sock_named : name_or_other names.sock 512 ≡ some lhostport) where
  -- The entry of the new descriptor.
  abbrev entry : Vfd
  entry = record (vfd_tab_init_one (p.vfd_tab new)) {
    type = vfd_sock;
    pp_dispatcher = some pp_mysqls;
    pp_data = (pp_init pp_mysqls g (pos new) (p.vfd_tab new).pp_data).0;
  }

  behind_accept : Process
  behind_accept =
      let p0 = clear_readable_cache s (logged (event_i sys_accept_begin (pos 0) (pos s)) p) in
      let p1 = tracked_as new (fresh vfd_sock (p.vfd_tab new)) p0 in
      logged (event_is sys_accept (pos new) (pos s) (rhostport ++ (codes "->" ++ lhostport)))
        (attached g (some pp_mysqls, events) new p1)

  -- The process behind `accept`.
  record IsConnected (p' : Process) : Type 0 where
    at_new : p'.vfd_tab new ≡ entry
    same_inputs : p'.inputs ≡ p.inputs

  accept-returns : accept k g (pos s) (pos new) names p ≡ some (pos new, behind_accept)
  unfolding accept accepted opened behind_accept clear_readable_cache
  accept-returns =
      rw (on, index_of_pos s s_inside, lt→ltb new max_fds inside, peer_named, sock_named, at_mysql)

  behind_accept-IsConnected : IsConnected behind_accept
  unfolding behind_accept attached vfd_tab_init_one pp_init clear_readable_cache
  behind_accept-IsConnected = record {
    at_new =
        update_here (update p.vfd_tab new (fresh vfd_sock (p.vfd_tab new))) new _
        ∙ ap {A = Vfd} {B = Vfd}
            (λ v. record v {
              pp_dispatcher = some pp_mysqls;
              pp_data = (pp_init pp_mysqls g (pos new) v.pp_data).0;
            })
            (update_here p.vfd_tab new (fresh vfd_sock (p.vfd_tab new)));
    same_inputs = refl;
  }

  entry-IsVfd : IsVfd (λ d. pp_read_data d g) pp_mysqls (pos new) MysqlRefused entry
  unfolding vfd_tab_init_one pp_init
  entry-IsVfd = record {
    ready = 0;
    to_send = refl;
    released = omega arith;
    ofs_inside = omega arith;
    fits = omega arith;
    size = size;
    plugin = refl;
    mode = inr (refl, omega arith, inl refl);
  }

  nothing_held : held entry ≡ []
  unfolding vfd_tab_init_one
  nothing_held = refl

  -- For a descriptor that `accept` returns and on whose address the MySQL server's plugin is found,
  -- whatever its entry in the table was before: every sequence of calls of `read`, `recv` and
  -- `recvfrom` on it, without flags and for sizes from 1 that fit an `int`, returns, and the bytes returned, those held and those
  -- that the kernel still has are the bytes that the kernel had for it, in order.
  pub accept_then_read :
      (cs : List InputCall)
      → All IsPlain cs
      → (p1 p2 : Process) × (out : List ℕ) × (accept k g (pos s) (pos new) names p
          ≡ some (pos new, p1))
        × (input_calls k (λ d. pp_read_data d g) new cs p1 ≡ some (out, p2))
        × (out ++ stream new p2 ≡ input_bytes (p.inputs new))
  accept_then_read cs rooms =
      let c : IsConnected behind_accept = behind_accept-IsConnected in
      let (out, p2, e, h, same, others) =
        input_calls-in_order k (λ d. pp_read_data d g) pp_mysqls new MysqlRefused
          (pp_mysqls_read-IsPlugin g (pos new)) on inside cs behind_accept
          (subst (IsVfd (λ d. pp_read_data d g) pp_mysqls (pos new) MysqlRefused) (sym c.at_new)
            entry-IsVfd)
          rooms in
      (
        behind_accept,
        p2,
        out,
        accept-returns,
        e,
        same
            ∙ ap (λ v. held v ++ input_bytes (behind_accept.inputs new)) c.at_new
            ∙ ap (λ l. l ++ input_bytes (behind_accept.inputs new)) nothing_held
            ∙ ap (λ i. input_bytes (i new)) c.same_inputs,
      )
