-- ===== src/Wrap/Safety.antt =====
-- The plugins' data in a traced process of trace/vfd.c, over any calls of the wrappers.
pub mod Input
pub mod Output
pub mod Calls
pub mod Network
pub mod Transfer
pub mod Polls
pub mod Run
use borderpatrol.Base.{ℕ, Bool, Option, none, some, List, [], ◌∷◌, ◌>>=◌}
use borderpatrol.Base.Int.{ℤ, pos}
use borderpatrol.Protocol.Dispatch.{Garbage, pp_read_data, pp_write_data}
use borderpatrol.Logd.{Timeval}
use borderpatrol.Wrap.{Process, Config}
use borderpatrol.Wrap.Files.{pipe, dup, dup2, fcntl, socket, open_file, creat, close}
use borderpatrol.Wrap.Network.{Names, listen, accept, connect}
use borderpatrol.Wrap.Input.{readv}
use borderpatrol.Wrap.Input.Held.{InputCall, input_call}
use borderpatrol.Wrap.Output.{sendfile, sendfile64}
use borderpatrol.Wrap.Output.InOrder.{OutputCall, output_call}
use borderpatrol.Wrap.Select.{Sets, Answer, select}
use borderpatrol.Wrap.Poll.{Pollfd, poll}

-- A call of one of the wrappers for descriptors, with what the kernel answers; `bind` and the calls
-- that start or end a program or a thread are not among them.
pub data Call : Type 0 where
  at_pipe : ℤ → ℕ → ℕ → Call
  at_dup : ℤ → ℤ → Call
  at_dup2 : ℤ → ℤ → ℤ → Call
  at_fcntl : ℤ → Bool → ℤ → Call
  at_socket : ℤ → ℤ → ℤ → ℤ → Call
  at_open : List ℕ → ℤ → ℤ → Call
  at_creat : List ℕ → ℤ → Call
  at_close : ℤ → ℤ → Call
  at_listen : ℤ → ℤ → ℤ → Call
  at_accept : ℤ → ℤ → Names → Call
  at_connect : ℤ → ℤ → Bool → Names → Call
  at_input : ℕ → InputCall → Call
  at_readv : ℕ → List ℕ → Call
  at_output : ℕ → OutputCall → ℤ → Call
  at_sendfile : ℤ → ℤ → ℕ → ℤ → Call
  at_sendfile64 : ℤ → ℤ → ℕ → ℤ → Call
  at_select : (ℕ → Names) → ℕ → Sets → Answer → Call
  at_poll :
      (ℕ → Names) → List Pollfd → ℤ → (ℕ → Sets → Option Timeval → Answer) → ℤ × List Pollfd → Call

abbrev process_of {ℓ} : {A : Type ℓ} → Option (A × Process) → Option Process
process_of o = o >>= λ t. some t.1

module _ (k : Config) (g : Garbage) where
  -- The process behind a call that returns.
  unfoldable pub step : Call → Process → Option Process
  step (at_pipe r fd0 fd1) p = process_of (pipe k r fd0 fd1 p)
  step (at_dup oldfd newfd) p = process_of (dup k oldfd newfd p)
  step (at_dup2 oldfd newfd r) p = process_of (dup2 k oldfd newfd r p)
  step (at_fcntl fd is_dupfd r) p = process_of (fcntl k fd is_dupfd r p)
  step (at_socket domain type protocol s) p = process_of (socket k domain type protocol s p)
  step (at_open pathname flags r) p = process_of (open_file k pathname flags r p)
  step (at_creat pathname r) p = process_of (creat k pathname r p)
  step (at_close s r) p = process_of (close k s r p)
  step (at_listen s backlog r) p = process_of (listen k s backlog r p)
  step (at_accept s new_fd names) p = process_of (accept k g s new_fd names p)
  step (at_connect s r in_progress names) p = process_of (connect k g s r in_progress names p)
  step (at_input fd c) p = input_call k (λ d. pp_read_data d g) fd c p >>= λ t. some t.2
  step (at_readv fd lens) p = readv k (λ d. pp_read_data d g) (pos fd) lens p >>= λ t. some t.2
  step (at_output fd c r) p = process_of (output_call k (λ d. pp_write_data d g) fd c r p)
  step (at_sendfile out_fd in_fd count r) p =
      process_of (sendfile k (λ d. pp_write_data d g) out_fd in_fd count r p)
  step (at_sendfile64 out_fd in_fd count r) p =
      process_of (sendfile64 k (λ d. pp_write_data d g) out_fd in_fd count r p)
  step (at_select names n want a) p = process_of (select k g names n want a p)
  step (at_poll names ufds timeout real_select real_poll) p =
      poll k g names ufds timeout real_select real_poll p >>= λ t. some t.2

  -- Calls one after another.
  unfoldable pub run : List Call → Process → Option Process
  run [] p = some p
  run (c ∷ cs) p = step c p >>= λ p1. run cs p1
