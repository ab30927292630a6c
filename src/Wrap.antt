-- ===== src/Wrap.antt =====
-- trace/vfd.c: the state of a traced process that the wrappers of the C library change, after its
-- initialization. `none` is an access outside of `vfd_tab` or of an `fd_set`, or what a plugin or a
-- failed assert comes to. What the C library's own functions return is an argument.
pub mod Files
pub mod Network
pub mod Input
pub mod Output
pub mod Select
pub mod Poll
pub mod Env
pub mod Init
pub mod Session
pub mod Safety
pub mod Datagram
use borderpatrol.Base.{
  ℕ, Bool, true, false, Option, none, some, List, [], ◌∷◌, ◌++◌, ltb, ◌==◌, if◌then◌else◌, assert,
}
use borderpatrol.Base.Int.{ℤ, pos, negsuc}
use borderpatrol.Reader.{Read}
use borderpatrol.Protocol.{Event}
use borderpatrol.Vfd.{Vfd, Fd}

abbrev pub max_fds : ℕ
max_fds = 1024

-- `fd_set`.
abbrev pub FdSet : Type 0
FdSet = ℕ → Bool

-- An array, or a set, with one entry set.
abbrev pub update : {A : Type 0} → (ℕ → A) → ℕ → A → ℕ → A
update f fd a = λ i. if i == fd then a else f i

abbrev pub no_fd : FdSet
no_fd = λ i. false

-- `vfd_tab`, `tracked`, the three sets of `vsel_data`, what has been logged, and what the kernel has
-- to read for each descriptor.
pub record Process : Type 0 where
  pub vfd_tab : ℕ → Vfd
  pub tracked : FdSet
  pub vsel_read : FdSet
  pub vsel_write : FdSet
  pub vsel_except : FdSet
  pub log : List Event
  pub inputs : ℕ → List Read

-- The flags that the environment sets, and the lookup of a port in the services file.
pub record Config : Type 0 where
  pub bb_disable_all : Bool
  pub bb_disable_pp : Bool
  pub debug_events : Bool
  pub getportbyname : List ℕ → ℤ

-- `s < 0 || s >= MAX_FDS`: `none`, and else the index of `s`.
unfoldable pub index_of : ℤ → Option ℕ
index_of (negsuc n) = none
index_of (pos n) = if ltb n max_fds then some n else none

abbrev pub in_table : ℕ → Option (Unit {0})
in_table fd = assert (ltb fd max_fds)

abbrev pub logged : Event → Process → Process
logged e p = record p { log = p.log ++ (e ∷ []) }

abbrev pub logged_if : Bool → Event → Process → Process
logged_if b e p = if b then logged e p else p

abbrev pub with_vfd : ℕ → Vfd → Process → Process
with_vfd fd v p = record p { vfd_tab = update p.vfd_tab fd v }

-- `FD_SET(fd, &tracked)`, and the entry of the table.
abbrev pub tracked_as : ℕ → Vfd → Process → Process
tracked_as fd v p = record p { tracked = update p.tracked fd true; vfd_tab = update p.vfd_tab fd v }

unfoldable pub clear_readable_cache : ℕ → Process → Process
clear_readable_cache s p = record p { vsel_read = update p.vsel_read s false }

-- What the calls on one descriptor work on.
abbrev pub fd_at : ℕ → Process → Fd
fd_at fd p = record {
  vfd = p.vfd_tab fd;
  readable = p.vsel_read fd;
  log = p.log;
  input = p.inputs fd;
}

abbrev pub with_fd : ℕ → Fd → Process → Process
with_fd fd f p = record p {
  vfd_tab = update p.vfd_tab fd f.vfd;
  vsel_read = update p.vsel_read fd f.readable;
  log = f.log;
  inputs = update p.inputs fd f.input;
}
