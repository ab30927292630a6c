-- ===== src/Witnesses/Reads.antt =====
-- The theorem on calls that read all there is, at concrete inputs: trace/vfd.c.
use borderpatrol.Base.{
  ◌≡◌, ◌≤◌, refl, some, List, [], ◌∷◌, arith, length, drop, length-append, length-take,
}
use borderpatrol.Reader.Ready.{input_bytes}
use borderpatrol.Vfd.Invariant.{held}
use borderpatrol.Base.Int.{pos}
use borderpatrol.Protocol.Dispatch.{pp_mysqls, pp_read_data}
use borderpatrol.Vfd.Mysql.{MysqlRefused, pp_mysqls_read-IsPlugin, never_full}
use borderpatrol.Wrap.{Process}
use borderpatrol.Wrap.Input.Transparent.{stream}
use borderpatrol.Wrap.Input.Held.{InputCall, by_read, by_recv, by_recvfrom, input_calls}
use borderpatrol.Wrap.Input.Drained.{input_calls_drain}
use borderpatrol.Witnesses.Descriptors.{garbage, blank_buffer, waiting, waiting-IsVfd}
use borderpatrol.Witnesses.Wrappers.{config, process_of}

-- A byte is held, and three are to come.
abbrev in_wait : Process
in_wait = process_of waiting.vfd waiting.input

abbrev five_calls : List InputCall
five_calls = by_read 1 ∷ by_recv 2 (pos 0) ∷ by_recvfrom 8 (pos 0) ∷ by_read 1 ∷ by_read 1 ∷ []

in_wait-length : length (stream 6 in_wait) ≤ 5
in_wait-length = omega (
  arith,
  length-append (held waiting.vfd) (input_bytes waiting.input),
  length-take 1 (drop 1 blank_buffer),
)

input_calls_drain_example :
    (p' : Process) × (input_calls config (λ d. pp_read_data d garbage) 6 five_calls in_wait
      ≡ some (stream 6 in_wait, p'))
    × (stream 6 p' ≡ [])
input_calls_drain_example =
    input_calls_drain config (λ d. pp_read_data d garbage) pp_mysqls 6 MysqlRefused
      (pp_mysqls_read-IsPlugin garbage (pos 6)) refl (omega arith) never_full five_calls in_wait
      waiting-IsVfd
      (
        (omega arith, omega arith),
        (
          ((omega arith, omega arith), refl),
          (
            ((omega arith, omega arith), refl),
            ((omega arith, omega arith), ((omega arith, omega arith), tt)),
          ),
        ),
      )
      (omega arith, tt) in_wait-length
