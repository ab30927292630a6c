-- ===== src/Protocol/Xorg.antt =====
-- The X11 client plugin of trace/protocol.c.
use borderpatrol.Base.{
  ℕ, ◌+◌, ◌*◌, Bool, true, false, Option, none, some, List, [], ◌∷◌, ltb, ◌==◌, if◌then◌else◌, drop,
  ◌>>=◌, not,
}
use borderpatrol.Base.Int.{ℤ, pos}
use borderpatrol.Base.Text.{codes}
use borderpatrol.Protocol.{
  Event, event_s, event_iis, event_iiis, Outcome, outcome, need_more, role_id, pp_xc_id,
  sys_pp_init, sys_pp_shutdown, sys_pp_req_begin, sys_pp_msg_recv,
}

-- `pp_x_state_t`.
pub record XState : Type 0 where
  pub success : Bool
  pub setup : ℕ
  pub recvid : ℕ
  pub sendid : ℕ

-- `setup` is not set.
pub pp_xc_init : ℕ → ℤ → XState × List Event
pp_xc_init unset s = (
  record { success = false; setup = unset; recvid = 0; sendid = 0 },
  event_iis sys_pp_init (pos 0) (role_id pp_xc_id) s (codes "xc") ∷ [],
)

pub pp_xc_shutdown : List Event
pp_xc_shutdown = event_s sys_pp_shutdown (pos 0) (codes "xc") ∷ []

-- The two bytes do not overlap, so that "or" is the sum.
pub card16 : List ℕ → Option ℕ
card16 (b0 ∷ b1 ∷ mem) = some (256 * b1 + b0)
card16 _ = none

-- The part of `pp_xc_read` before success.
pub xc_connect : XState → ℤ → List ℕ → ℕ → Option (Outcome XState)
xc_connect state s [] len = none
xc_connect state s (b0 ∷ buf) len =
    let card = card16 (drop 5 buf) in
    let rest = if ltb len 8 then outcome need_more state [] else (do
      units ← card
      let setup = 4 * units
      outcome (pos 8) (record state { success = true; setup = setup; recvid = state.recvid + 1 })
          (event_s sys_pp_req_begin (pos setup) (codes "xc_read")
            ∷ event_iiis sys_pp_msg_recv (pos 0) (role_id pp_xc_id) s (pos state.recvid)
                (codes "xc")
            ∷ [])) in
    if b0 == 1 then rest else none

pub pp_xc_read : XState → ℤ → List ℕ → ℕ → Option (Outcome XState)
unfolding xc_connect
pp_xc_read state s buf len =
    if not state.success
    then xc_connect state s buf len
    else if ltb 0 state.setup
    then if ltb len state.setup
      then outcome need_more state []
      else outcome (pos state.setup) (record state { setup = 0 }) []
    else if ltb len 32
    then outcome need_more state []
    else outcome (pos 32) state []

pub pp_xc_write : ℕ → ℤ
pp_xc_write len = pos len
