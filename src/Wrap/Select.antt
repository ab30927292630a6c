-- ===== src/Wrap/Select.antt =====
-- The wrapper of trace/vfd.c for `select`, and the cache behind it.
pub mod First
pub mod Answers
pub mod Cache
use borderpatrol.Base.{
  ℕ, zero, suc, Bool, true, false, Option, none, some, List, ◌&&◌, leb, ltb, if◌then◌else◌, ◌>>=◌,
  ◌>>◌, assert,
}
use borderpatrol.Base.Int.{ℤ, pos, negsuc}
use borderpatrol.Protocol.{event_0, event_ii, sys_select_begin, sys_select, sys_pp_iso_poll}
use borderpatrol.Protocol.Dispatch.{Garbage}
use borderpatrol.Wrap.{FdSet, no_fd, update, max_fds, Process, Config, logged, logged_if}
use borderpatrol.Wrap.Network.{Names, connect_event}

-- `vfd_rwe`, without the value for none.
pub data Rwe : Type 0 where
  vfd_sel_read vfd_sel_write vfd_sel_except : Rwe

-- The three sets of a call; a set that is NULL is made, empty, and freed.
pub record Sets : Type 0 where
  pub readfds : FdSet
  pub writefds : FdSet
  pub exceptfds : FdSet

abbrev pub set_or_new : Option FdSet → FdSet
set_or_new none = no_fd
set_or_new (some set) = set

abbrev pub empty_sets : Sets
empty_sets = record { readfds = no_fd; writefds = no_fd; exceptfds = no_fd }

-- The sets with one descriptor.
abbrev pub only : ℕ → Rwe → Sets
only fd vfd_sel_read = record empty_sets { readfds = update no_fd fd true }
only fd vfd_sel_write = record empty_sets { writefds = update no_fd fd true }
only fd vfd_sel_except = record empty_sets { exceptfds = update no_fd fd true }

-- The sets of `vsel_data`.
abbrev pub cache : Process → Sets
cache p = record { readfds = p.vsel_read; writefds = p.vsel_write; exceptfds = p.vsel_except }

-- In which of the sets a descriptor is, the first of them.
abbrev pub which : Sets → ℕ → Option Rwe
which a i =
    if a.readfds i
    then some vfd_sel_read
    else if a.writefds i
    then some vfd_sel_write
    else if a.exceptfds i
    then some vfd_sel_except
    else none

abbrev pub both : FdSet → FdSet → FdSet
both a b = λ i. a i && b i

abbrev pub in_both : Sets → Sets → Sets
in_both a b = record {
  readfds = both a.readfds b.readfds;
  writefds = both a.writefds b.writefds;
  exceptfds = both a.exceptfds b.exceptfds;
}

-- The loop over the descriptors from `i` on, so many of them.
unfoldable pub first : ℕ → ℕ → (ℕ → Option Rwe) → Option (ℕ × Rwe)
first zero i f = none
first (suc rounds) i f = elim (f i) [ some rwe ↦ some (i, rwe) | none ↦ first rounds (suc i) f ]

unfoldable pub clear_cached : ℕ → Rwe → Process → Process
clear_cached fd vfd_sel_read p = record p { vsel_read = update p.vsel_read fd false }
clear_cached fd vfd_sel_write p = record p { vsel_write = update p.vsel_write fd false }
clear_cached fd vfd_sel_except p = record p { vsel_except = update p.vsel_except fd false }

-- What the kernel says is put to the cache, below n.
abbrev pub joined : ℕ → FdSet → FdSet → FdSet
joined n set cached = λ i. if ltb i n && set i then true else cached i

unfoldable pub cached_too : ℕ → Sets → Process → Process
cached_too n a p = record p {
  vsel_read = joined n a.readfds p.vsel_read;
  vsel_write = joined n a.writefds p.vsel_write;
  vsel_except = joined n a.exceptfds p.vsel_except;
}

-- What a call returns: its value, the descriptor that it has found, -1 for none, and its sets.
pub record Selected : Type 0 where
  pub ret : ℤ
  pub rfd : ℤ
  pub sets : Sets

-- What `real_select` returns, and the sets that it leaves.
pub record Answer : Type 0 where
  pub r : ℤ
  pub left : Sets

-- The first descriptor of the cache behind a call of the kernel.
abbrev pub from_cache : Option (ℕ × Rwe) → Selected
from_cache none = record { ret = pos 1; rfd = negsuc 0; sets = empty_sets }
from_cache (some (fd, rwe)) = record { ret = pos 1; rfd = pos fd; sets = only fd rwe }

unfoldable pub asked : ℕ → Answer → ℤ → Process → Selected × Process
asked n a (pos (suc r)) p =
    let p1 =
      cached_too n a.left (logged_if (ltb 1 (suc r)) (event_0 sys_pp_iso_poll (pos (suc r))) p) in
    (from_cache (first n 0 (which (cache p1))), p1)
asked n a (pos zero) p = (record { ret = pos 0; rfd = negsuc 0; sets = a.left }, p)
asked n a (negsuc r) p = (record { ret = negsuc r; rfd = negsuc 0; sets = a.left }, p)

-- The cache answers, or the kernel.
unfoldable pub cached_or_asked : ℕ → Answer → Option (ℕ × Rwe) → Process → Selected × Process
cached_or_asked n a (some (fd, rwe)) p =
    (record { ret = pos 1; rfd = pos fd; sets = only fd rwe }, clear_cached fd rwe p)
cached_or_asked n a none p = asked n a a.r p

module _ (k : Config) where
  -- Where the descriptor is one whose connect was in progress.
  unfoldable pub connected_if : Garbage → ℤ → (ℕ → Names) → Process → Option Process
  connected_if g (negsuc n) names p = some p
  connected_if g (pos fd) names p =
      if (p.vfd_tab fd).in_prog then connect_event k g fd (pos 1) (names fd) p else some p

  -- The kernel's answer is looked at where the cache has none.
  unfoldable pub speak_select :
      Garbage → (ℕ → Names) → ℕ → Sets → Answer → Process → Option (Selected × Process)
  speak_select g names n want a p = do
    assert (leb n max_fds)
    let t = cached_or_asked n a (first n 0 (which (in_both want (cache p)))) p
    p1 ← connected_if g t.0.rfd names t.1
    some (t.0, p1)

  unfoldable pub select :
      Garbage → (ℕ → Names) → ℕ → Sets → Answer → Process → Option (Selected × Process)
  select g names n want a p =
      if k.bb_disable_all
      then some (record { ret = a.r; rfd = negsuc 0; sets = a.left }, p)
      else speak_select g names n want a (logged (event_0 sys_select_begin (pos 0)) p) >>= λ t.
          some (t.0, logged (event_ii sys_select t.0.ret (pos n) t.0.rfd) t.1)
