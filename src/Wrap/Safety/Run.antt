-- ===== src/Wrap/Safety/Run.antt =====
-- Any calls of the wrappers of trace/vfd.c.
use borderpatrol.Base.{◌≡◌, subst, Option, none, some, List, [], ◌∷◌, ◌>>=◌}
use borderpatrol.Protocol.Dispatch.{Garbage}
use borderpatrol.Wrap.{Process, Config}
use borderpatrol.Wrap.Input.{Input}
use borderpatrol.Wrap.Output.{sendfile, sendfile64}
use borderpatrol.Wrap.Safety.{
  Call, at_pipe, at_dup, at_dup2, at_fcntl, at_socket, at_open, at_creat, at_close, at_listen,
  at_accept, at_connect, at_input, at_readv, at_output, at_sendfile, at_sendfile64, at_select,
  at_poll, step, run,
}
use borderpatrol.Wrap.Safety.Calls.{
  IsSafe, IfSafe, AfterSafe, pipe-AfterSafe, dup-AfterSafe, dup2-AfterSafe, fcntl-AfterSafe,
  socket-AfterSafe, open_file-AfterSafe, creat-AfterSafe, close-AfterSafe,
}
use borderpatrol.Wrap.Safety.Network.{connect-AfterSafe, accept-AfterSafe, listen-AfterSafe}
use borderpatrol.Wrap.Safety.Transfer.{
  InputSafe, readv-InputSafe, input_call-AfterSafe, output_call-AfterSafe, wrapped_output-AfterSafe,
}
use borderpatrol.Wrap.Safety.Polls.{select-AfterSafe, poll-IfSafe}

process_of-IfSafe {ℓ} :
    {A : Type ℓ} (o : Option (A × Process)) → AfterSafe o → IfSafe (o >>= λ t. some t.1)
process_of-IfSafe none h = tt
process_of-IfSafe (some t) h = h

input_of-IfSafe : (o : Input) → InputSafe o → IfSafe (o >>= λ t. some t.2)
input_of-IfSafe none h = tt
input_of-IfSafe (some t) h = h

module _ (k : Config) (g : Garbage) where
  step-IfSafe : (c : Call) (p : Process) → IsSafe p → IfSafe (step k g c p)
  unfolding step sendfile sendfile64
  step-IfSafe (at_pipe r fd0 fd1) p h = process_of-IfSafe _ (pipe-AfterSafe k p h r fd0 fd1)
  step-IfSafe (at_dup oldfd newfd) p h = process_of-IfSafe _ (dup-AfterSafe k p h oldfd newfd)
  step-IfSafe (at_dup2 oldfd newfd r) p h = process_of-IfSafe _ (dup2-AfterSafe k p h oldfd newfd r)
  step-IfSafe (at_fcntl fd b r) p h = process_of-IfSafe _ (fcntl-AfterSafe k p h fd b r)
  step-IfSafe (at_socket domain type protocol s) p h =
      process_of-IfSafe _ (socket-AfterSafe k p h domain type protocol s)
  step-IfSafe (at_open pathname flags r) p h =
      process_of-IfSafe _ (open_file-AfterSafe k p h pathname flags r)
  step-IfSafe (at_creat pathname r) p h = process_of-IfSafe _ (creat-AfterSafe k p h pathname r)
  step-IfSafe (at_close s r) p h = process_of-IfSafe _ (close-AfterSafe k p h s r)
  step-IfSafe (at_listen s backlog r) p h =
      process_of-IfSafe _ (listen-AfterSafe k g s backlog r p h)
  step-IfSafe (at_accept s new_fd names) p h =
      process_of-IfSafe _ (accept-AfterSafe k g s new_fd names p h)
  step-IfSafe (at_connect s r b names) p h =
      process_of-IfSafe _ (connect-AfterSafe k g s r b names p h)
  step-IfSafe (at_input fd c) p h = input_of-IfSafe _ (input_call-AfterSafe k g fd c p h)
  step-IfSafe (at_readv fd lens) p h = input_of-IfSafe _ (readv-InputSafe k g fd lens p h)
  step-IfSafe (at_output fd c r) p h = process_of-IfSafe _ (output_call-AfterSafe k g fd c r p h)
  step-IfSafe (at_sendfile out_fd in_fd count r) p h =
      process_of-IfSafe _ (wrapped_output-AfterSafe k g out_fd r _ _ _ p (λ fd q i. i) h)
  step-IfSafe (at_sendfile64 out_fd in_fd count r) p h =
      process_of-IfSafe _ (wrapped_output-AfterSafe k g out_fd r _ _ _ p (λ fd q i. i) h)
  step-IfSafe (at_select names n want a) p h =
      process_of-IfSafe _ (select-AfterSafe k g names n want a p h)
  step-IfSafe (at_poll names ufds timeout real_select real_poll) p h =
      poll-IfSafe k g names ufds timeout real_select real_poll p h

  run-IfSafe : (cs : List Call) (p : Process) → IsSafe p → IfSafe (run k g cs p)
  unfolding run
  run-IfSafe [] p h = h
  run-IfSafe (c ∷ cs) p h = go (λ q i. run-IfSafe cs q i) (step k g c p) (step-IfSafe c p h)
    where
      go :
          ((q : Process) → IsSafe q → IfSafe (run k g cs q))
          → (o : Option Process) → IfSafe o
          → IfSafe (o >>= λ p1. run k g cs p1)
      go rest none i = tt
      go rest (some q) i = rest q i

  -- In a process in which every descriptor with a plugin has data of that plugin's own type, so in one
  -- without plugins: any calls of the wrappers that make, duplicate, close, connect, read, write,
  -- select or poll descriptors (`Call`), in any order and whatever the kernel answers to each, if all of
  -- them return, leave such a process.
  pub run-IsSafe : (cs : List Call) (p p' : Process) → IsSafe p → run k g cs p ≡ some p' → IsSafe p'
  run-IsSafe cs p p' h e = subst IfSafe e (run-IfSafe cs p h)
