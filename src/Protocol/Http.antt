-- ===== src/Protocol/Http.antt =====
-- The HTTP server plugin of trace/protocol.c.
use borderpatrol.Base.{
  ℕ, zero, suc, ◌+◌, Bool, true, false, Option, none, some, List, [], ◌∷◌, ◌++◌, ◌==◌,
  if◌then◌else◌, length, drop, ◌>>=◌, not,
}
use borderpatrol.Base.Int.{ℤ, pos, negsuc, ◌-ℤ◌, ltb_ℤ, eqb_ℤ}
use borderpatrol.Base.Text.{codes, c_str, strstr, contains, strncpy, strtok, atoi}
use borderpatrol.Protocol.{
  Event, event_s, event_ss, event_is, event_iis, event_iiis, Outcome, outcome, need_more, role_id,
  pp_https_id, sys_pp_init, sys_pp_shutdown, sys_pp_prop, sys_pp_msg_send, sys_pp_msg_recv,
  sys_https_read,
}

-- `pp_http_state_read_t`.
pub record HttpRead : Type 0 where
  pub done : Bool
  pub await_header : Bool
  pub await_cl : Bool
  pub version : ℤ
  pub seqno : ℕ
  pub toread : ℤ

-- `pp_http_state_write_t`.
pub record HttpWrite : Type 0 where
  pub done : Bool
  pub await_status : Bool
  pub toread : ℤ
  pub seqno : ℕ

-- `pp_http_state_t`.
pub record Http : Type 0 where
  pub read : HttpRead
  pub write : HttpWrite

pub pp_https_init : ℤ → Http × List Event
pp_https_init s = (
  record {
    read = record {
      done = false;
      await_header = true;
      await_cl = false;
      version = negsuc 0;
      seqno = 0;
      toread = pos 0;
    };
    write = record { done = false; await_status = true; toread = pos 0; seqno = 0 };
  },
  event_iis sys_pp_init (pos 0) (role_id pp_https_id) s (codes "https") ∷ [],
)

pub pp_https_shutdown : List Event
pp_https_shutdown = event_is sys_pp_shutdown (pos 0) (role_id pp_https_id) (codes "https") ∷ []

abbrev end_of_header : List ℕ
end_of_header = 13 ∷ 10 ∷ 13 ∷ 10 ∷ []

abbrev space_cr : List ℕ
space_cr = 32 ∷ 13 ∷ []

-- NULL is logged as "null".
abbrev or_null : List ℕ → List ℕ
or_null [] = codes "null"
or_null (b ∷ s) = b ∷ s

abbrev prop : List ℕ → List ℕ → Event
prop name s = event_ss sys_pp_prop (pos 0) name s

-- What the version means: `strstr` of NULL and any other version end the process.
pub http_version : HttpRead → List ℕ → Option HttpRead
http_version state [] = none
http_version state (b ∷ s) =
    if contains (b ∷ s) (codes "HTTP/1.0")
    then some (record state { version = pos 0; done = true })
    else if contains (b ∷ s) (codes "HTTP/1.1")
    then some (record state { version = pos 1; await_header = true })
    else none

-- The part of `pp_https_read` behind the end of the header, at offset `at`. `tmp` has a byte more
-- than `len`, which is not set.
pub http_request : HttpRead → ℤ → List ℕ → ℕ → ℕ → ℕ → Option (Outcome HttpRead)
unfolding http_version
http_request state s cbuf len unset at = do
  copied ← strncpy len cbuf
  let tmp = copied ++ (unset ∷ [])
  text ← c_str tmp
  (meth, rest1) ← strtok space_cr tmp
  (url, rest2) ← strtok space_cr rest1
  (version, rest3) ← strtok space_cr rest2
  state' ← http_version (record state { await_header = false; seqno = state.seqno + 1 }) version
  outcome (pos (at + 4)) state' (
      event_iiis sys_pp_msg_recv (pos 0) (role_id pp_https_id) s (pos state.seqno) (codes "https")
      ∷ event_s sys_https_read (pos len) text
      ∷ prop (codes "METHOD") (or_null meth)
      ∷ prop (codes "URL") (or_null url)
      ∷ prop (codes "VERSION") (or_null version)
      ∷ [])

-- `strstr` looks at the memory up to its first 0, not at `len` bytes of it.
pub https_read : HttpRead → ℤ → List ℕ → ℕ → ℕ → Option (Outcome HttpRead)
unfolding http_request
https_read state s cbuf len unset =
    let searched = strstr cbuf end_of_header in
    if state.done
    then outcome (pos len) state []
    else if state.await_header
    then (do
      end ← searched
      elim end [
        | none ↦ outcome need_more state []
        | some at ↦ http_request state s cbuf len unset at
      ])
    else if ltb_ℤ (pos 0) state.toread
    then outcome need_more state []
    else none

-- The lines of the header, until one says how long the content is, or that the connection is
-- closed; the events, and `toread` and `done` after. A line is a byte long at least, so that the
-- 1024 bytes of `tmp` are enough fuel. Behind the line stands the 0 that `strtok` has written.
pub header_lines : ℕ → List ℕ → ℤ → Bool → Option (List Event × ℤ × Bool)
header_lines zero mem toread done = none
header_lines (suc fuel) mem toread done = do
  (line, rest) ← strtok (13 ∷ []) mem
  let more = header_lines fuel rest toread done
  let value = c_str (drop 17 (line ++ (0 ∷ rest)))
  if length line == 0
      then some ([], toread, done)
      else if contains line (codes "Content-Length: ")
      then (do v ← value; n ← atoi v; some (prop (codes "CLEN") v ∷ [], n, done))
      else if contains line (codes "Connection: close")
      then some ([], toread, true)
      else more

-- The part of `pp_https_write` behind the end of the header.
pub http_status : HttpWrite → ℤ → List ℕ → ℕ → Option (Outcome HttpWrite)
unfolding header_lines
http_status state s cbuf at = do
  tmp ← strncpy 1024 cbuf
  (version, rest1) ← strtok space_cr tmp
  (status, rest2) ← strtok space_cr rest1
  (clen, toread, done) ← header_lines 1024 rest2 state.toread state.done
  outcome (pos (at + 4))
      (record state { await_status = false; toread = toread; done = done; seqno = state.seqno + 1 })
      (prop (codes "VERSION") (or_null version)
        ∷ prop (codes "STATUS") (or_null status)
        ∷ (clen
            ++ (event_iiis sys_pp_msg_send (pos 0) (role_id pp_https_id) s (pos state.seqno)
                  (codes "https")
                ∷ [])))

pub https_write : HttpWrite → ℤ → List ℕ → ℕ → Option (Outcome HttpWrite)
unfolding http_status
https_write state s cbuf len =
    let consumed = if ltb_ℤ state.toread (pos len) then state.toread else pos len in
    let left = state.toread -ℤ consumed in
    let searched = strstr cbuf end_of_header in
    if state.done
    then outcome (pos len) state []
    else if not (eqb_ℤ state.toread (pos 0))
    then outcome consumed
        (record state {
          toread = left;
          await_status = if eqb_ℤ left (pos 0) then true else state.await_status;
        })
        []
    else if state.await_status
    then (do
      end ← searched
      elim end [ none ↦ outcome need_more state [] | some at ↦ http_status state s cbuf at ])
    else outcome (pos len) state []

pub pp_https_read : Http → ℤ → List ℕ → ℕ → ℕ → Option (Outcome Http)
unfolding https_read
pp_https_read state s buf len unset = do
  o ← https_read state.read s buf len unset
  outcome o.ret (record state { read = o.state }) o.events

pub pp_https_write : Http → ℤ → List ℕ → ℕ → Option (Outcome Http)
unfolding https_write
pp_https_write state s buf len = do
  o ← https_write state.write s buf len
  outcome o.ret (record state { write = o.state }) o.events
