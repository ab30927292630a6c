-- ===== src/Wrap/Safety/Transfer.antt =====
-- The wrappers of trace/vfd.c that read and write keep plugins and data together.
use borderpatrol.Base.{
  ℕ, zero, suc, Bool, true, false, Option, none, some, List, [], ◌∷◌, ◌++◌, if◌then◌else◌, ◌>>=◌,
  ◌>>◌, assert, take, leb,
}
use borderpatrol.Base.Int.{ℤ, pos, pos_part}
use borderpatrol.Protocol.{Event}
use borderpatrol.Protocol.Dispatch.{Dispatcher, Garbage, pp_read_data, pp_write_data}
use borderpatrol.Vfd.{Vfd, Fd, virtual_read}
use borderpatrol.Vfd.Write.{vwrite_req}
use borderpatrol.Wrap.{
  Process, Config, index_of, logged, clear_readable_cache, fd_at, with_fd, with_vfd,
}
use borderpatrol.Wrap.Input.{
  sum, readv, peeks, behind_call, Input, real_input, followed_input, wrapped_input, read, recv,
  recvfrom,
}
use borderpatrol.Wrap.Input.Held.{InputCall, by_read, by_recv, by_recvfrom, input_call}
use borderpatrol.Wrap.Output.{
  tries, shown, shown_all, shown_vectors, clear_writable_cache, wrapped_output, write, send, sendto,
  writev,
}
use borderpatrol.Wrap.Output.InOrder.{
  OutputCall, by_write, by_send, by_sendto, by_writev, output_call,
}
use borderpatrol.Wrap.Safety.Input.{IsSafeVfd, SafeIf, virtual_read-SafeIf}
use borderpatrol.Wrap.Safety.Output.{WriteSafe, vwrite_req-WriteSafe}
use borderpatrol.Wrap.Safety.Calls.{IsSafe, IfSafe, AfterSafe, update-IsSafe, on_or_off, indexed}

abbrev pub InputSafe : Input → Type 0
InputSafe none = Unit
InputSafe (some t) = IsSafe t.2

module _ (k : Config) (g : Garbage) where
  followed_input-InputSafe :
      (fd len : ℕ) (peek : Bool) (p : Process) (q : Option Dispatcher)
      → IsSafe p
      → InputSafe (followed_input k (λ d. pp_read_data d g) fd len peek p q)
  unfolding followed_input real_input clear_readable_cache
  followed_input-InputSafe fd len peek p none h = h
  followed_input-InputSafe fd len peek p (some d) h =
      go (virtual_read (λ d. pp_read_data d g) (pos fd) (fd_at fd p) len)
        (virtual_read-SafeIf g (pos fd) (fd_at fd p) len (h fd))
    where
      left : ℤ × List ℕ × Fd → Process
      left t = with_fd fd (record t.2 { input = behind_call peek (p.inputs fd) t.2.input }) p

      checked :
          (t : ℤ × List ℕ × Fd)
          → IsSafeVfd t.2.vfd
          → (b : Bool) → InputSafe (assert b >> some (t.0, t.1, left t))
      checked t i true = update-IsSafe p.vfd_tab fd t.2.vfd h i
      checked t i false = tt

      go :
          (o : Option (ℤ × List ℕ × Fd))
          → SafeIf o
          → InputSafe
              (o >>= λ t. assert (leb t.2.vfd.rbufofs t.2.vfd.rbuflen) >> some (t.0, t.1, left t))
      go none i = tt
      go (some t) i = checked t i (leb t.2.vfd.rbufofs t.2.vfd.rbuflen)

  wrapped_input-InputSafe :
      (fd len : ℕ) (peek : Bool) (before : Event) (behind : ℤ → Event) (p : Process)
      → IsSafe p
      → InputSafe (wrapped_input k (λ d. pp_read_data d g) (pos fd) len peek before behind p)
  unfolding wrapped_input real_input
  wrapped_input-InputSafe fd len peek before behind p h =
      off k.bb_disable_all _ (at (index_of (pos fd)))
    where
      kernel : Input
      kernel = some (real_input (pos fd) len peek p)

      off : (b : Bool) (o : Input) → InputSafe o → InputSafe (if b then kernel else o)
      off true o i = h
      off false o i = i

      ended :
          (o : Input)
          → InputSafe o
          → InputSafe (o >>= λ t. some (t.0, t.1, logged (behind t.0) t.2))
      ended none i = tt
      ended (some t) i = i

      at :
          (i : Option ℕ)
          → InputSafe (elim i [
            | none ↦ kernel
            | some fd ↦
                followed_input k
                  (λ d. pp_read_data d g)
                  fd
                  len
                  peek
                  (logged before p)
                  (p.vfd_tab fd).pp_dispatcher
                >>= λ t. some (t.0, t.1, logged (behind t.0) t.2)
          ])
      at none = h
      at (some i) = ended _ (followed_input-InputSafe i len peek (logged before p) _ h)

  pub input_call-AfterSafe :
      (fd : ℕ) (c : InputCall) (p : Process)
      → IsSafe p
      → InputSafe (input_call k (λ d. pp_read_data d g) fd c p)
  unfolding input_call read recv recvfrom
  input_call-AfterSafe fd (by_read len) p h = wrapped_input-InputSafe fd len false _ _ p h
  input_call-AfterSafe fd (by_recv len flags) p h =
      wrapped_input-InputSafe fd len (peeks flags) _ _ p h
  input_call-AfterSafe fd (by_recvfrom len flags) p h =
      wrapped_input-InputSafe fd len (peeks flags) _ _ p h

  pub readv-InputSafe :
      (fd : ℕ) (lens : List ℕ) (p : Process)
      → IsSafe p
      → InputSafe (readv k (λ d. pp_read_data d g) (pos fd) lens p)
  unfolding readv read real_input
  readv-InputSafe fd lens p h = off k.bb_disable_all _ (at (index_of (pos fd)) lens)
    where
      kernel : Input
      kernel = some (real_input (pos fd) (sum lens) false p)

      off : (b : Bool) (o : Input) → InputSafe o → InputSafe (if b then kernel else o)
      off true o i = h
      off false o i = i

      at :
          (i : Option ℕ) (ls : List ℕ)
          → InputSafe (elim i [
            | none ↦ kernel
            | some j ↦ elim ls [
              | [] ↦ none
              | len ∷ more ↦ read k (λ d. pp_read_data d g) (pos fd) len p
            ]
          ])
      at none ls = h
      at (some i) [] = tt
      at (some i) (len ∷ more) = wrapped_input-InputSafe fd len false _ _ p h

  shown-IfSafe :
      (fd : ℕ) (buf : List ℕ) (p : Process)
      → IsSafe p
      → IfSafe (shown k (λ d. pp_write_data d g) fd buf p)
  unfolding shown
  shown-IfSafe fd buf p h =
      go (vwrite_req (λ d. pp_write_data d g) (p.vfd_tab fd) (pos fd) buf)
        (vwrite_req-WriteSafe g (pos fd) (p.vfd_tab fd) buf (h fd))
    where
      go :
          (o : Option (Vfd × List Event))
          → WriteSafe o
          → IfSafe (o >>= λ t. some (record (with_vfd fd t.0 p) { log = p.log ++ t.1 }))
      go none i = tt
      go (some t) i = update-IsSafe p.vfd_tab fd t.0 h i

  shown_all-IfSafe :
      (fd : ℕ) (bufs : List (List ℕ)) (p : Process)
      → IsSafe p
      → IfSafe (shown_all k (λ d. pp_write_data d g) fd bufs p)
  unfolding shown_all
  shown_all-IfSafe fd [] p h = h
  shown_all-IfSafe fd (buf ∷ bufs) p h =
      go (λ q i. shown_all-IfSafe fd bufs q i) (shown k (λ d. pp_write_data d g) fd buf p)
        (shown-IfSafe fd buf p h)
    where
      go :
          ((q : Process) → IsSafe q → IfSafe (shown_all k (λ d. pp_write_data d g) fd bufs q))
          → (o : Option Process) → IfSafe o
          → IfSafe (o >>= λ p1. shown_all k (λ d. pp_write_data d g) fd bufs p1)
      go rest none i = tt
      go rest (some q) i = rest q i

  shown_vectors-IfSafe :
      (fd : ℕ) (vec : List (List ℕ)) (r : ℕ) (q : Option Dispatcher) (p : Process)
      → IsSafe p
      → IfSafe (shown_vectors k (λ d. pp_write_data d g) fd vec r q p)
  unfolding shown_vectors
  shown_vectors-IfSafe fd vec r none p h = h
  shown_vectors-IfSafe fd vec zero (some d) p h = h
  shown_vectors-IfSafe fd vec (suc r) (some d) p h = shown_all-IfSafe fd (tries (suc r) vec) p h

  pub wrapped_output-AfterSafe :
      (s r : ℤ) (before behind : Event) (show : ℕ → Process → Option Process) (p : Process)
      → ((fd : ℕ) (q : Process) → IsSafe q → IfSafe (show fd q))
      → IsSafe p
      → AfterSafe (wrapped_output k (λ d. pp_write_data d g) s r before behind show p)
  unfolding wrapped_output clear_writable_cache
  wrapped_output-AfterSafe s r before behind show p keep h = on_or_off k.bb_disable_all r p _ h (
      indexed (index_of s) r p _ h
        (λ fd. cleared fd (show fd (logged before p)) (keep fd (logged before p) h)))
    where
      cleared :
          (fd : ℕ) (o : Option Process)
          → IfSafe o
          → AfterSafe (o >>= λ p1. some (r, logged behind (clear_writable_cache fd p1)))
      cleared fd none i = tt
      cleared fd (some q) i = i

  pub output_call-AfterSafe :
      (fd : ℕ) (c : OutputCall) (r : ℤ) (p : Process)
      → IsSafe p
      → AfterSafe (output_call k (λ d. pp_write_data d g) fd c r p)
  unfolding output_call write send sendto writev
  output_call-AfterSafe fd (by_write buf) r p h =
      wrapped_output-AfterSafe (pos fd) r _ _ _ p (λ i q. shown-IfSafe i (take (pos_part r) buf) q)
        h
  output_call-AfterSafe fd (by_send buf flags) r p h =
      wrapped_output-AfterSafe (pos fd) r _ _ _ p (λ i q. shown-IfSafe i (take (pos_part r) buf) q)
        h
  output_call-AfterSafe fd (by_sendto buf flags) r p h =
      wrapped_output-AfterSafe (pos fd) r _ _ _ p (λ i q. shown-IfSafe i (take (pos_part r) buf) q)
        h
  output_call-AfterSafe fd (by_writev vec) r p h =
      wrapped_output-AfterSafe (pos fd) r _ _ _ p
        (λ i q. shown_vectors-IfSafe i vec (pos_part r) (q.vfd_tab i).pp_dispatcher q) h
