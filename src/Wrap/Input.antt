-- ===== src/Wrap/Input.antt =====
-- The wrappers of trace/vfd.c that read.
pub mod Marked
pub mod Transparent
pub mod Held
pub mod Drained
use borderpatrol.Base.{
  ℕ, ◌+◌, ◌/◌, ◌%◌, ◌==◌, Bool, true, false, Option, none, some, List, [], ◌∷◌, ◌++◌, leb,
  if◌then◌else◌, ◌>>=◌, ◌>>◌, assert,
}
use borderpatrol.Base.Int.{ℤ, pos, negsuc}
use borderpatrol.Protocol.{
  Event, event_ii, event_iii, Outcome, sys_read_begin, sys_read, sys_recv_begin, sys_recv,
  sys_recvfrom_begin, sys_recvfrom,
}
use borderpatrol.Protocol.Dispatch.{Dispatcher, Data}
use borderpatrol.Reader.{Read}
use borderpatrol.Vfd.{Fd, real_read, virtual_read}
use borderpatrol.Wrap.{
  Process, Config, update, index_of, logged, clear_readable_cache, fd_at, with_fd,
}

-- What a call returns, the bytes that it stores, and the process.
abbrev pub Input : Type 0
Input = Option (ℤ × List ℕ × Process)

abbrev pub sum : List ℕ → ℕ
sum [] = 0
sum (len ∷ lens) = len + sum lens

-- MSG_PEEK is set: the kernel's call leaves the bytes that it brings. Of the other flags none is told
-- apart.
unfoldable pub peeks : ℤ → Bool
peeks (pos flags) = flags / 2 % 2 == 1
peeks (negsuc flags) = flags / 2 % 2 == 0

-- What the kernel has behind a call.
abbrev pub behind_call : Bool → List Read → List Read → List Read
behind_call peek before behind = if peek then before else behind

-- The kernel's call, for a descriptor that the kernel knows.
unfoldable pub real_input : ℤ → ℕ → Bool → Process → ℤ × List ℕ × Process
real_input (negsuc n) len peek p = (negsuc 0, [], p)
real_input (pos fd) len peek p =
    let t = real_read len (p.inputs fd) in
    (t.0, t.1, record p { inputs = update p.inputs fd (behind_call peek (p.inputs fd) t.2) })

module _ (k : Config) (pp_read : Dispatcher → Data → ℤ → List ℕ → ℕ → Option (Outcome Data)) where
  -- The call on an entry of the table: by the plugin, or by the kernel. `virtual_read` has one call of
  -- the kernel at most.
  unfoldable pub followed_input : ℕ → ℕ → Bool → Process → Option Dispatcher → Input
  followed_input fd len peek p none =
      let t = real_input (pos fd) len peek p in some (t.0, t.1, clear_readable_cache fd t.2)
  followed_input fd len peek p (some d) = do
    t ← virtual_read pp_read (pos fd) (fd_at fd p) len
    assert (leb t.2.vfd.rbufofs t.2.vfd.rbuflen)
    some (t.0, t.1, with_fd fd (record t.2 { input = behind_call peek (p.inputs fd) t.2.input }) p)

  -- With the events before and behind it, which differ between the wrappers.
  unfoldable pub wrapped_input : ℤ → ℕ → Bool → Event → (ℤ → Event) → Process → Input
  wrapped_input s len peek before behind p =
      if k.bb_disable_all then some (real_input s len peek p) else elim (index_of s) [
        | none ↦ some (real_input s len peek p)
        | some fd ↦
            let p1 = logged before p in
            followed_input fd len peek p1 (p1.vfd_tab fd).pp_dispatcher >>= λ t.
            some (t.0, t.1, logged (behind t.0) t.2)
      ]

  unfoldable pub read : ℤ → ℕ → Process → Input
  read s len =
      wrapped_input s len false (event_ii sys_read_begin (pos 0) s (pos len))
        (λ r. event_ii sys_read r s (pos len))

  -- With the lengths of the vectors: the kernel reads into all of them, but a call on an entry of the
  -- table into the first one only.
  unfoldable pub readv : ℤ → List ℕ → Process → Input
  readv fd lens p =
      if k.bb_disable_all then some (real_input fd (sum lens) false p) else elim (index_of fd) [
        | none ↦ some (real_input fd (sum lens) false p)
        | some i ↦ elim lens [ [] ↦ none | len ∷ more ↦ read fd len p ]
      ]

  unfoldable pub recv : ℤ → ℕ → ℤ → Process → Input
  recv s len flags =
      wrapped_input s len (peeks flags) (event_iii sys_recv_begin (pos 0) s (pos len) flags)
        (λ r. event_iii sys_recv r s (pos len) flags)

  unfoldable pub recvfrom : ℤ → ℕ → ℤ → Process → Input
  recvfrom s len flags =
      wrapped_input s len (peeks flags) (event_iii sys_recvfrom_begin (pos 0) s (pos len) flags)
        (λ r. event_iii sys_recvfrom r s (pos len) flags)
