-- ===== src/Protocol/Fcgi.antt =====
-- The FastCGI plugin of trace/protocol.c.
use borderpatrol.Base.{
  ℕ, ◌+◌, ◌*◌, Bool, true, false, Option, none, List, [], ◌∷◌, ◌++◌, ltb, ◌==◌, if◌then◌else◌, drop,
  ◌>>=◌, ◌||◌,
}
use borderpatrol.Base.Int.{ℤ, pos, negsuc, ◌+ℤ◌, ◌-ℤ◌, ltb_ℤ}
use borderpatrol.Base.Text.{codes, c_str, strncpy}
use borderpatrol.Protocol.{
  Event, event_s, event_ss, event_iis, event_iiis, Outcome, outcome, need_more, Sys, Role, role_id,
  pp_fcgis_id, pp_fcgic_id, Direction, pp_read, pp_write, sys_pp_init, sys_pp_shutdown, sys_pp_prop,
  sys_pp_fcgi_hmm, sys_pp_msg_send, sys_pp_msg_recv,
}

-- `pp_fcgi_state_t`; `stream_type` tells whether it points to "PARAMS:", else it is NULL.
pub record Fcgi : Type 0 where
  pub success : Bool
  pub conlen : ℤ
  pub padlen : ℤ
  pub stream_type : Bool
  pub req_id : ℤ
  pub done : Bool

-- `pp_fcgi_state_wrap_t`.
pub record FcgiWrap : Type 0 where
  pub read : Fcgi
  pub write : Fcgi

abbrev blank_side : Fcgi
blank_side = record {
  success = false;
  conlen = pos 0;
  padlen = pos 0;
  stream_type = false;
  req_id = negsuc 0;
  done = false;
}

pub pp_fcgi_init_help : FcgiWrap
pp_fcgi_init_help = record { read = blank_side; write = blank_side }

pub type_of_record : ℕ → List ℕ
type_of_record num =
    if num == 1
    then codes "FCGI_BEGIN_REQUEST"
    else if num == 2
    then codes "FCGI_ABORT_REQUEST"
    else if num == 3
    then codes "FCGI_END_REQUEST"
    else if num == 4
    then codes "FCGI_PARAMS"
    else if num == 5
    then codes "FCGI_STDIN"
    else if num == 6
    then codes "FCGI_STDOUT"
    else if num == 7
    then codes "FCGI_STDERR"
    else if num == 8
    then codes "FCGI_DATA"
    else if num == 9
    then codes "FCGI_GET_VALUES"
    else if num == 10
    then codes "FCGI_GET_VALUES_RESULT"
    else codes "FCGI_UNKNOWN_TYPE"

abbrev role_name : Role → List ℕ
role_name pp_fcgis_id = codes "fcgis"
role_name _ = codes "fcgic"

-- The switch on the type, for the three types that log a message.
pub fcgi_event : ℕ → Role → Direction → ℤ → ℤ → List Event
fcgi_event type role dir s req_id =
    let sys : Sys = elim dir [ pp_read ↦ sys_pp_msg_recv | pp_write ↦ sys_pp_msg_send ] in
    if type == 1 || (type == 3 || type == 6)
    then event_iiis sys (pos type) (role_id role) s req_id (role_name role) ∷ []
    else []

-- A header of 8 bytes: version, type, id, length of the content, length of the padding, reserved.
pub fcgi_header : Fcgi → ℤ → List ℕ → Role → Direction → Option (Outcome Fcgi)
unfolding fcgi_event type_of_record
fcgi_header state s (version ∷ type ∷ id1 ∷ id0 ∷ con1 ∷ con0 ∷ pad ∷ reserved ∷ mem) role dir =
    let req_id = pos (256 * id1 + id0) in
    let conlen = 256 * con1 + con0 in
    outcome (pos 8)
      (record state {
        success = if conlen + pad == 0 then false else true;
        conlen = pos conlen;
        padlen = pos pad;
        req_id = req_id;
        stream_type = if type == 4 then true else state.stream_type;
        done = if type == 6 then true else state.done;
      })
      (event_s sys_pp_fcgi_hmm (pos 0) (type_of_record type) ∷ fcgi_event type role dir s req_id)
fcgi_header state s _ role dir = none

-- The text of the parameters: at most `conlen - 2` bytes behind the second are copied to `tmp`, 1024
-- bytes that hold `stack`, and logged up to the first 0. A negative count copies without end.
pub params_text : ℤ → List ℕ → ℕ → List ℕ → Option (List ℕ)
params_text (negsuc l) cbuf len stack = none
params_text (pos l) cbuf len stack =
    let n = if ltb len l then len else l in
    let copied = strncpy n (drop 2 cbuf) in
    if ltb 1024 n then none else (do t ← copied; c_str (t ++ drop n stack))

-- The part of `speak_fcgi` that takes a body. `toread` is a local variable: what is used of an
-- incomplete body is not noted in the state.
pub fcgi_body : Fcgi → ℤ → List ℕ → ℕ → List ℕ → Option (Outcome Fcgi)
unfolding params_text
fcgi_body state s cbuf len stack =
    let toread = state.conlen +ℤ state.padlen in
    let after = record state {
      success = false;
      conlen = negsuc 0;
      padlen = negsuc 0;
      req_id = negsuc 0;
      stream_type = false;
    } in
    let text = params_text (state.conlen -ℤ pos 2) cbuf len stack in
    if ltb_ℤ (pos 0) toread
    then if ltb_ℤ (pos len) toread
      then outcome (pos len) state []
      else if state.stream_type
      then (do
        tmp ← text
        outcome toread after (event_ss sys_pp_prop (pos 0) (codes "PARAMS:") tmp ∷ []))
      else outcome toread after []
    else none

pub speak_fcgi : Fcgi → ℤ → List ℕ → ℕ → Role → Direction → List ℕ → Option (Outcome Fcgi)
unfolding fcgi_header fcgi_body
speak_fcgi state s cbuf len role dir stack =
    if state.done
    then outcome (pos len) state []
    else if state.success
    then fcgi_body state s cbuf len stack
    else if ltb len 8
    then outcome need_more state []
    else fcgi_header state s cbuf role dir

abbrev on_read : FcgiWrap → Outcome Fcgi → Option (Outcome FcgiWrap)
on_read state o = outcome o.ret (record state { read = o.state }) o.events

abbrev on_write : FcgiWrap → Outcome Fcgi → Option (Outcome FcgiWrap)
on_write state o = outcome o.ret (record state { write = o.state }) o.events

pub pp_fcgis_init : ℤ → FcgiWrap × List Event
pp_fcgis_init s =
    (pp_fcgi_init_help, event_iis sys_pp_init (pos 0) (role_id pp_fcgis_id) s (codes "fcgis") ∷ [])

pub pp_fcgis_shutdown : List Event
pp_fcgis_shutdown = event_s sys_pp_shutdown (pos 0) (codes "fcgis") ∷ []

pub pp_fcgis_read : FcgiWrap → ℤ → List ℕ → ℕ → List ℕ → Option (Outcome FcgiWrap)
pp_fcgis_read state s buf len stack =
    speak_fcgi state.read s buf len pp_fcgis_id pp_read stack >>= on_read state

pub pp_fcgis_write : FcgiWrap → ℤ → List ℕ → ℕ → List ℕ → Option (Outcome FcgiWrap)
pp_fcgis_write state s buf len stack =
    speak_fcgi state.write s buf len pp_fcgis_id pp_write stack >>= on_write state

pub pp_fcgic_init : ℤ → FcgiWrap × List Event
pp_fcgic_init s =
    (pp_fcgi_init_help, event_iis sys_pp_init (pos 0) (role_id pp_fcgic_id) s (codes "fcgic") ∷ [])

pub pp_fcgic_shutdown : List Event
pp_fcgic_shutdown = event_s sys_pp_shutdown (pos 0) (codes "fcgic") ∷ []

pub pp_fcgic_read : FcgiWrap → ℤ → List ℕ → ℕ → List ℕ → Option (Outcome FcgiWrap)
pp_fcgic_read state s buf len stack =
    speak_fcgi state.read s buf len pp_fcgic_id pp_read stack >>= on_read state

pub pp_fcgic_write : FcgiWrap → ℤ → List ℕ → ℕ → List ℕ → Option (Outcome FcgiWrap)
pp_fcgic_write state s buf len stack =
    speak_fcgi state.write s buf len pp_fcgic_id pp_write stack >>= on_write state
