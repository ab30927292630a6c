-- ===== src/Wrap/Init.antt =====
-- What trace/vfd.c does when a program begins, in a process that is forked or in a new thread, and
-- when it ends.
use borderpatrol.Base.{
  ℕ, ◌-◌, ◌^◌, Bool, true, false, Option, none, some, List, [], ◌∷◌, ◌++◌, ltb, ◌==◌, ◌&&◌, ◌||◌,
  not, if◌then◌else◌, ◌>>=◌, ◌>>◌, min,
}
use borderpatrol.Base.Int.{ℤ, pos, negsuc, eqb_ℤ}
use borderpatrol.Base.Text.{codes, skip_spaces, digits, atoi}
use borderpatrol.Protocol.{
  event_0, event_ii, sys_exec_child, sys_fork_begin, sys_fork, sys_shutdown, sys_exit,
  sys_pth_create_begin, sys_pth_create_parent, sys_pth_create_child,
}
use borderpatrol.Protocol.Dispatch.{pp_id_exec}
use borderpatrol.Wrap.{update, no_fd, Process, Config, in_table, logged, logged_if, with_vfd}
use borderpatrol.Wrap.Files.{logd_fd}
use borderpatrol.Wrap.Env.{Env, real_getenv, real_unsetenv, is_set, value_or}

unfoldable pub vfd_tab_init : Process → Process
vfd_tab_init p = record p {
  tracked = update (update (update no_fd 0 true) 1 true) 2 true;
  vsel_read = no_fd;
  vsel_write = no_fd;
  vsel_except = no_fd;
}

-- The peer that `logd_init` connects to: its name and its port, an `atoi`.
unfoldable pub logd_addr : Env → Option (List ℕ × ℤ)
logd_addr env =
    let host = value_or (real_getenv (codes "LIBBTRACE_HOST") env) (codes "127.0.0.1") in
    elim (real_getenv (codes "LIBBTRACE_PORT") env) [
      | none ↦ some (host, pos 7070)
      | some port ↦ atoi port >>= λ n. some (host, n)
    ]

-- What the kernel answers a program that begins with: the socket of the log, whether it is connected
-- to a peer, the copy with the number of the log's descriptor, and whether `pfdura(1, pid)` of a
-- process returns, which it does not if the page-fault module refuses the pid (`Faults.pfdura`).
pub record Kernel : Type 0 where
  pub socket : ℤ
  pub connects : List ℕ × ℤ → Bool
  pub copy : ℤ
  pub follows : ℕ → Bool

-- `FD_CLR(fd, &tracked)`.
unfoldable pub untrack : ℤ → Process → Option Process
untrack (negsuc n) p = none
untrack (pos fd) p = do in_table fd; some (record p { tracked = update p.tracked fd false })

-- The number of the log's descriptor, and the process. `none` is an exit.
unfoldable pub logd_init : Bool → Kernel → Env → Process → Option (ℤ × Process)
logd_init slim os env p =
    if slim then (untrack (pos logd_fd) p >>= λ p1. some (pos logd_fd, p1)) else elim os.socket [
      | negsuc n ↦ none
      | pos fd ↦ logd_addr env >>= λ addr.
          if os.connects addr then (untrack os.copy p >>= λ p1. some (os.copy, p1)) else none
    ]

-- `strtoull(s, NULL, 10)`, which stops at the largest number.
unfoldable pub capped : List ℕ → ℕ
capped s = min (digits 0 s) (2 ^ 64 - 1)

unfoldable pub strtoull_signed : List ℕ → ℕ
unfolding capped
strtoull_signed [] = 0
strtoull_signed (b ∷ s) =
    if b == b'-'
    then (if capped s == 0
        then 0
        else if ltb (2 ^ 64 - 1) (digits 0 s)
        then 2 ^ 64 - 1
        else 2 ^ 64 - capped s)
    else if b == b'+'
    then capped s
    else capped (b ∷ s)

unfoldable pub strtoull : List ℕ → ℕ
strtoull s = strtoull_signed (skip_spaces s)

-- What a program is traced with: the flags, `prog_name`, the log's descriptor, and the process.
pub record Traced : Type 0 where
  pub config : Config
  pub prog_name : List ℕ
  pub logfd : ℤ
  pub environ : Env
  pub process : Process

-- `BB_EXEC_PTID`: the thread that has called `exec`.
unfoldable pub note_parent : ℕ → Env → Process → Env × Process
note_parent mypid env p = elim (real_getenv (codes "BB_EXEC_PTID") env) [
  | none ↦ (env, p)
  | some ept ↦ (
    real_unsetenv (codes "BB_EXEC_PTID") env,
    logged (event_ii sys_exec_child (pos 0) (pos (strtoull ept)) (pos mypid)) p,
  )
]

-- `BB_EXEC_PATH`: the plugin of the standard input, which is not initialized.
unfoldable pub note_path : Config → Env → Process → Env × Process
note_path k env p = elim (real_getenv (codes "BB_EXEC_PATH") env) [
  | none ↦ (env, p)
  | some path ↦
      let t = pp_id_exec k.getportbyname k.bb_disable_pp path in
      let v = record (p.vfd_tab 0) { pp_dispatcher = t.0 } in
      (real_unsetenv (codes "BB_EXEC_PATH") env, record (with_vfd 0 v p) { log = p.log ++ t.1 })
]

-- With the flags as the program is loaded with them, which are not set but by the environment.
unfoldable pub config_of : (List ℕ → ℤ) → Env → Config
config_of getportbyname env = record {
  bb_disable_all = is_set (real_getenv (codes "BB_DISABLE_ALL") env);
  bb_disable_pp = is_set (real_getenv (codes "BB_DISABLE_PP") env);
  debug_events =
      is_set (real_getenv (codes "DEBUG_EVENTS") env)
      || is_set (real_getenv (codes "DEBUG_EV") env);
  getportbyname = getportbyname;
}

module _ (disable_log : Bool) (getportbyname : List ℕ → ℤ) where
  -- What `vfd_init` does once the log is connected.
  unfoldable pub begun : ℕ → Env → ℤ × Process → Traced
  begun mypid env (logfd, p) =
      let k = config_of getportbyname env in
      let t1 = note_parent mypid env (vfd_tab_init p) in
      let t2 = note_path k t1.0 t1.1 in
      record {
        config = k;
        prog_name = value_or (real_getenv (codes "TRACE_FN") env) (codes "__");
        logfd = logfd;
        environ = t2.0;
        process = t2.1;
      }

  -- `none` is an exit, in `logd_init` or in the `pfdura` of `fork_init`.
  unfoldable pub vfd_init : Kernel → ℕ → Env → Process → Option Traced
  vfd_init os mypid env p =
      let slim = disable_log || (config_of getportbyname env).bb_disable_all in
      logd_init slim os env p >>= λ t. if os.follows mypid then some (begun mypid env t) else none

module _ (k : Config) where
  -- `exit`, with whether its `pfdura(0, pid)` is refused, which ends the process there.
  unfoldable pub exit : Bool → Process → Process
  exit refused p = if refused then p else logged_if k.debug_events (event_0 sys_exit (pos 0)) p

  -- `vfd_shutdown`.
  unfoldable pub vfd_shutdown : Process → Process
  vfd_shutdown p = if k.bb_disable_all then p else logged (event_0 sys_shutdown (pos 0)) p

  -- With the caller's ids, what `real_fork` returns, and whether the `pfdura` of the child's `fork_init`
  -- returns; the child goes on with a log of its own id. `none` is the child's exit.
  unfoldable pub fork : ℕ → ℕ → ℤ → Bool → Process → Option (ℤ × Process)
  fork forker_tid forker_pid r follows p =
      let p1 =
        logged_if (k.debug_events && not k.bb_disable_all) (event_0 sys_fork_begin (pos 0)) p in
      if eqb_ℤ r (pos 0)
      then (if follows
          then some (
            r,
            logged_if (not k.bb_disable_all) (event_ii sys_fork r (pos forker_tid) (pos forker_pid))
                p1,
          )
          else none)
      else some (r, logged_if (k.debug_events && not k.bb_disable_all) (event_0 sys_fork r) p1)

  -- `pthread_create` with the new thread's number.
  unfoldable pub pthread_create : ℕ → ℤ → Process → ℤ × Process
  pthread_create thread r p =
      let p1 = logged_if (not k.bb_disable_all) (event_0 sys_pth_create_begin (pos 0)) p in
      (
        r,
        logged_if (not k.bb_disable_all)
            (event_ii sys_pth_create_parent (pos 0) (pos thread) (pos 0)) p1,
      )

  -- The beginning of a thread, with its connection to the log; `none` is an exit.
  unfoldable pub start_routine_wrapper : Bool → Kernel → Env → Process → Option Process
  start_routine_wrapper disable_log os env p =
      logd_init (disable_log || k.bb_disable_all) os env p >>= λ t.
      some (logged_if (not k.bb_disable_all) (event_0 sys_pth_create_child (pos 0)) t.1)
