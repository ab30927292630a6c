-- ===== src/Wrap/Files.antt =====
-- The wrappers of trace/vfd.c that make and close descriptors.
pub mod Closed
use borderpatrol.Base.{
  ℕ, zero, suc, Bool, true, false, Option, none, some, List, [], ◌++◌, if◌then◌else◌, ◌>>=◌, ◌>>◌,
}
use borderpatrol.Base.Int.{ℤ, pos, negsuc, eqb_ℤ}
use borderpatrol.Protocol.{
  Event, event_i, event_ii, event_iii, event_is, sys_pipe, sys_dup, sys_dup_fcntl, sys_socket,
  sys_open, sys_create, sys_close,
}
use borderpatrol.Protocol.Dispatch.{pp_shutdown}
use borderpatrol.Vfd.{Vfd, VfdType, vfd_none, vfd_sock, vfd_pipe, vfd_file, vfd_tab_init_one}
use borderpatrol.Vfd.Write.{dup_vfd}
use borderpatrol.Wrap.{Process, Config, update, index_of, in_table, logged, tracked_as}

-- The entry of a new descriptor.
abbrev pub fresh : VfdType → Vfd → Vfd
fresh type v = record (vfd_tab_init_one v) { type = type; in_prog = false }

-- A new descriptor, which no caller compares with MAX_FDS.
unfoldable pub opened : VfdType → ℕ → Process → Option Process
opened type fd p = do in_table fd; some (tracked_as fd (fresh type (p.vfd_tab fd)) p)

unfoldable pub opened_if : VfdType → ℤ → Process → Option Process
opened_if type (negsuc n) p = some p
opened_if type (pos fd) p = opened type fd p

-- The copy of an entry, with a new descriptor that no caller but `dup2` compares with MAX_FDS.
unfoldable pub duplicated : ℕ → ℤ → Process → Option Process
duplicated oldfd (negsuc n) p = some p
duplicated oldfd (pos newfd) p = do
  in_table oldfd
  in_table newfd
  some (tracked_as newfd (dup_vfd (p.vfd_tab oldfd)) p)

-- `dup_vfd(fd, r)` where `fd` may be any int.
unfoldable pub duplicated_from : ℤ → ℤ → Process → Option Process
duplicated_from (pos fd) r p = duplicated fd r p
duplicated_from (negsuc n) (negsuc m) p = some p
duplicated_from (negsuc n) (pos m) p = none

-- `close` on the entry of a descriptor that is followed or not.
unfoldable pub shut : Vfd → Vfd × List Event
shut v =
    let v1 = record v { type = vfd_none; in_prog = false; rbufofs = 0; rbuflen = 0 } in
    elim v.pp_dispatcher [
      | none ↦ (v1, [])
      | some d ↦
          let t = pp_shutdown d v.pp_data in
          (record v1 { pp_data = t.0; pp_dispatcher = none }, t.1)
    ]

unfoldable pub closed : ℕ → Process → Process
closed fd p =
    let t = shut (p.vfd_tab fd) in
    record p {
      vfd_tab = update p.vfd_tab fd t.0;
      tracked = update p.tracked fd false;
      vsel_read = update p.vsel_read fd false;
      vsel_write = update p.vsel_write fd false;
      vsel_except = update p.vsel_except fd false;
      log = p.log ++ t.1;
    }

-- The descriptor of the log.
abbrev pub logd_fd : ℕ
logd_fd = 79

module _ (k : Config) where
  -- `real_pipe` returns r, and stores the two descriptors if it is 0.
  unfoldable pub pipe : ℤ → ℕ → ℕ → Process → Option (ℤ × Process)
  pipe r fd0 fd1 p = if k.bb_disable_all then some (r, p) else do
    p1 ← elim r [
      | pos zero ↦ opened vfd_pipe fd0 p >>= opened vfd_pipe fd1
      | pos (suc n) ↦ some p
      | negsuc n ↦ some p
    ]
    some (r, logged (event_ii sys_pipe r (pos fd0) (pos fd1)) p1)

  unfoldable pub dup : ℤ → ℤ → Process → Option (ℤ × Process)
  dup oldfd newfd p = if k.bb_disable_all then some (newfd, p) else elim (index_of oldfd) [
    | none ↦ some (newfd, p)
    | some old ↦
        duplicated old newfd p >>= λ p1. some (newfd, logged (event_i sys_dup newfd oldfd) p1)
  ]

  unfoldable pub dup2 : ℤ → ℤ → ℤ → Process → Option (ℤ × Process)
  dup2 oldfd newfd r p = if k.bb_disable_all then some (r, p) else elim (index_of oldfd) [
    | none ↦ some (r, p)
    | some old ↦ elim (index_of newfd) [
      | none ↦ some (r, p)
      | some new ↦ duplicated old r p >>= λ p1. some (r, logged (event_i sys_dup r oldfd) p1)
    ]
  ]

  -- With whether the command is F_DUPFD.
  unfoldable pub fcntl : ℤ → Bool → ℤ → Process → Option (ℤ × Process)
  fcntl fd is_dupfd r p =
      if k.bb_disable_all
      then some (r, p)
      else if is_dupfd
      then (duplicated_from fd r p >>= λ p1. some (r, logged (event_i sys_dup_fcntl r fd) p1))
      else some (r, p)

  unfoldable pub socket : ℤ → ℤ → ℤ → ℤ → Process → Option (ℤ × Process)
  socket domain type protocol s p = if k.bb_disable_all then some (s, p) else do
    p1 ← opened_if vfd_sock s p
    some (s, logged (event_iii sys_socket s domain type protocol) p1)

  -- `real_open` returns -1 or a descriptor; the mode of a new file is not passed on to it.
  unfoldable pub open_file : List ℕ → ℤ → ℤ → Process → Option (ℤ × Process)
  open_file pathname flags r p =
      if k.bb_disable_all
      then some (r, p)
      else do p1 ← opened_if vfd_file r p; some (r, logged (event_is sys_open r flags pathname) p1)

  unfoldable pub creat : List ℕ → ℤ → Process → Option (ℤ × Process)
  creat pathname r p = if k.bb_disable_all then some (r, p) else do
    p1 ← opened_if vfd_file r p
    some (r, logged (event_is sys_create r (pos 0) pathname) p1)

  -- With what `real_close` returns.
  unfoldable pub close : ℤ → ℤ → Process → Option (ℤ × Process)
  close s r p =
      if eqb_ℤ s (pos logd_fd)
      then some (pos 1, p)
      else if k.bb_disable_all
      then some (r, p)
      else elim (index_of s) [
        | none ↦ some (r, p)
        | some fd ↦ some (r, logged (event_i sys_close r s) (closed fd p))
      ]
