-- ===== src/Protocol/Perl.antt =====
-- The plugins "perlp", httpc and trivial of trace/protocol.c.
use borderpatrol.Base.{ℕ, ◌+◌, Option, List, [], ◌∷◌}
use borderpatrol.Base.Int.{ℤ, pos}
use borderpatrol.Base.Text.{codes}
use borderpatrol.Protocol.{
  Event, event_i, event_iis, event_iiis, Outcome, outcome, sys_pp_init, sys_pp_shutdown,
  sys_pp_msg_recv, sys_pp_msg_send, role_id, pp_perls_id,
}

-- `pp_perlp_state_t`.
pub record Perlp : Type 0 where
  pub c2s_ctr : ℕ
  pub s2c_ctr : ℕ

pub pp_perlps_init : ℤ → Perlp × List Event
pp_perlps_init s = (
  record { c2s_ctr = 0; s2c_ctr = 1 },
  event_iis sys_pp_init (pos 0) (role_id pp_perls_id) s (codes "perlps") ∷ [],
)

pub pp_perlps_shutdown : List Event
pp_perlps_shutdown = event_i sys_pp_shutdown (pos 0) (role_id pp_perls_id) ∷ []

pub pp_perlps_read : Perlp → ℤ → List ℕ → ℕ → Option (Outcome Perlp)
pp_perlps_read state s buf len =
    outcome (pos len) (record state { s2c_ctr = state.s2c_ctr + 1 })
      (event_iiis sys_pp_msg_recv (pos 0) (role_id pp_perls_id) s (pos state.s2c_ctr)
          (codes "perlps")
        ∷ [])

pub pp_perlps_write : Perlp → ℤ → List ℕ → ℕ → Option (Outcome Perlp)
pp_perlps_write state s buf len =
    outcome (pos len) (record state { s2c_ctr = state.s2c_ctr + 1 })
      (event_iiis sys_pp_msg_send (pos 0) (role_id pp_perls_id) s (pos state.s2c_ctr)
          (codes "perlps")
        ∷ [])

pub pp_perlpc_read : ℕ → ℤ
pp_perlpc_read len = pos (len + 1)

pub pp_perlpc_write : ℕ → ℤ
pp_perlpc_write len = pos (len + 1)

pub pp_httpc_read : ℕ → ℤ
pp_httpc_read len = pos len

pub pp_httpc_write : ℕ → ℤ
pp_httpc_write len = pos len

pub pp_trivial_read : ℕ → ℤ
pp_trivial_read len = pos len

pub pp_trivial_write : ℕ → ℤ
pp_trivial_write len = pos len
