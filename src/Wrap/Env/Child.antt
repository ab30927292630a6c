-- ===== src/Wrap/Env/Child.antt =====
-- The program that the wrappers of trace/vfd.c for `exec` start, as `vfd_init` begins it.
use borderpatrol.Base.{
  ℕ, ◌^◌, ◌<◌, Bool, ◌||◌, true, if◌then◌else◌, Option, none, some, List, ◌∷◌, ◌++◌, ◌>>=◌, length,
  append_assoc, ◌≡◌, refl, ap, ◌∙◌,
}
use borderpatrol.Base.Int.{ℤ, pos}
use borderpatrol.Base.Text.{codes, decimal}
use borderpatrol.Protocol.{event_ii, event_is, sys_exec, sys_exec_child}
use borderpatrol.Protocol.Dispatch.{pp_id_exec}
use borderpatrol.Wrap.{Process, Config, logged, with_vfd}
use borderpatrol.Wrap.Env.{
  Env, Caller, real_getenv, real_unsetenv, is_set, value_or, basename, lib_path, setenv_carry,
}
use borderpatrol.Wrap.Env.Lookup.{getenv-unsetenv, getenv-unsetenv_other}
use borderpatrol.Wrap.Env.Number.{strtoull-decimal}
use borderpatrol.Wrap.Env.Argv.{Arg}
use borderpatrol.Wrap.Env.Exec.{Exec, execve, execv}
use borderpatrol.Wrap.Env.Carried.{
  Carries, carried, mod_envp_lem, execve-Carries, carried_pp, carried_all, carried_fn,
}
use borderpatrol.Wrap.Env.Set.{setenv_carry-Carries, setenv_carry_name}
use borderpatrol.Wrap.Init.{
  Kernel, Traced, vfd_tab_init, logd_init, note_parent, note_path, config_of, begun, vfd_init,
}

-- A program that has begun and knows the thread and the path that it was started with.
pub record Started (ports : List ℕ → ℤ) (tid : ℕ) (path : List ℕ) (env : Env) (mypid : ℕ)
    (q : Process) (r : Option Traced) : Type 0 where
  pub traced : Traced
  pub result : r ≡ some traced
  pub config_read : traced.config ≡ config_of ports env
  pub name_read : traced.prog_name ≡ value_or (real_getenv (codes "TRACE_FN") env) (codes "__")
  pub parent_logged :
      traced.process.log
      ≡ q.log
        ++ (event_ii sys_exec_child (pos 0) (pos tid) (pos mypid)
            ∷ (pp_id_exec ports traced.config.bb_disable_pp path).1)
  pub input_plugin :
      (traced.process.vfd_tab 0).pp_dispatcher
      ≡ (pp_id_exec ports traced.config.bb_disable_pp path).0
  pub parent_gone : real_getenv (codes "BB_EXEC_PTID") traced.environ ≡ none
  pub path_gone : real_getenv (codes "BB_EXEC_PATH") traced.environ ≡ none

note_parent_lem :
    (c : Caller) (mypid : ℕ) (env : Env) (p : Process)
    → c.tid < 2 ^ 64
    → real_getenv (codes "BB_EXEC_PTID") env ≡ some (decimal c.tid)
    → note_parent mypid env p ≡ (
      real_unsetenv (codes "BB_EXEC_PTID") env,
      logged (event_ii sys_exec_child (pos 0) (pos c.tid) (pos mypid)) p,
    )
unfolding note_parent
note_parent_lem c mypid env p lt h = rw (h, note_parent) (rw (strtoull-decimal c.tid lt))

-- What `note_path` leaves where the path is given.
abbrev pathed : Config → List ℕ → Env → Process → Env × Process
pathed k path env p =
    let t = pp_id_exec k.getportbyname k.bb_disable_pp path in
    let v = record (p.vfd_tab 0) { pp_dispatcher = t.0 } in
    (real_unsetenv (codes "BB_EXEC_PATH") env, record (with_vfd 0 v p) { log = p.log ++ t.1 })

note_path_lem :
    (k : Config) (path : List ℕ) (env : Env) (p : Process)
    → real_getenv (codes "BB_EXEC_PATH") env ≡ some path
    → note_path k env p ≡ pathed k path env p
unfolding note_path
note_path_lem k path env p h = rw (h, note_path)

vfd_init-Started :
    (c : Caller) (path lib : List ℕ) (env : Env) (disable_log : Bool) (ports : List ℕ → ℤ)
    (os : Kernel) (mypid : ℕ) (q q1 : Process) (logfd : ℤ)
    → c.tid < 2 ^ 64
    → Carries c path lib env
    → logd_init (disable_log || is_set (real_getenv (codes "BB_DISABLE_ALL") env)) os env q
      ≡ some (logfd, q1)
    → os.follows mypid ≡ true
    → Started ports c.tid path env mypid q1 (vfd_init disable_log ports os mypid env q)
unfolding vfd_init begun config_of vfd_tab_init
vfd_init-Started c path lib env disable_log ports os mypid q q1 logfd lt carries h follows =
    let k : Config = config_of ports env in
    let p0 : Process = vfd_tab_init q1 in
    let env1 : Env = real_unsetenv (codes "BB_EXEC_PTID") env in
    let p1 : Process = logged (event_ii sys_exec_child (pos 0) (pos c.tid) (pos mypid)) p0 in
    let t1 = note_parent mypid env p0 in
    let t2 : Env × Process = note_path k t1.0 t1.1 in
    let still : real_getenv (codes "BB_EXEC_PATH") env1 ≡ some path =
      getenv-unsetenv_other (codes "BB_EXEC_PTID") (codes "BB_EXEC_PATH") env (refl, refl)
      ∙ carries.path_is in
    let e : t2 ≡ pathed k path env1 p1 =
      ap (λ t. note_path k t.0 t.1) (note_parent_lem c mypid env p0 lt carries.parent)
      ∙ note_path_lem k path env1 p1 still in
    record {
      traced = begun disable_log ports mypid env (logfd, q1);
      result =
          ap
            (λ o. o >>= λ t.
              if os.follows mypid then some (begun disable_log ports mypid env t) else none)
            h
          ∙ ap (λ b. if b then some (begun disable_log ports mypid env (logfd, q1)) else none)
              follows;
      config_read = refl;
      name_read = refl;
      parent_logged = ap (λ t. t.1.log) e ∙ append_assoc q1.log _ _;
      input_plugin = ap (λ t. (t.1.vfd_tab 0).pp_dispatcher) e;
      parent_gone =
          ap (λ t. real_getenv (codes "BB_EXEC_PTID") t.0) e
          ∙ getenv-unsetenv_other (codes "BB_EXEC_PATH") (codes "BB_EXEC_PTID") env1 (refl, refl)
          ∙ getenv-unsetenv (codes "BB_EXEC_PTID") env;
      path_gone =
          ap (λ t. real_getenv (codes "BB_EXEC_PATH") t.0) e
          ∙ getenv-unsetenv (codes "BB_EXEC_PATH") env1;
    }

-- What the child of `execve` has of its parent.
pub record Inherits (k : Config) (c : Caller) (ports : List ℕ → ℤ) (filename : List ℕ)
    (envp env : Env) (mypid : ℕ) (q : Process) (r : Option Traced) : Type 0 where
  pub started : Started ports c.tid filename (carried k c filename envp env) mypid q r
  pub pp_kept :
      started.traced.config.bb_disable_pp
      ≡ (k.bb_disable_pp || is_set (real_getenv (codes "BB_DISABLE_PP") envp))
  pub all_kept :
      started.traced.config.bb_disable_all
      ≡ (k.bb_disable_all || is_set (real_getenv (codes "BB_DISABLE_ALL") envp))
  pub name_given :
      started.traced.prog_name ≡ value_or (real_getenv (codes "TRACE_FN") envp) (codes "__")

execve_lem :
    (k : Config) (c : Caller) (filename : List ℕ) (argv : List Arg) (envp env : Env) (p : Process)
    → length (lib_path k c env) < 1013
    → length filename < 1011
    → execve k c filename argv envp env p
      ≡ some (record {
        path = filename;
        argv = argv;
        envp = carried k c filename envp env;
        process =
            logged
              (event_is sys_exec (pos 0) (pos (length (carried k c filename envp env))) filename)
              p;
      })
unfolding execve
execve_lem k c filename argv envp env p lib file = rw (mod_envp_lem k c filename envp env lib file)

-- If the names of the file and of the library that is preloaded leave their strings below 1024
-- bytes, `execve` passes on an environment from which the program that it starts, once it has
-- connected to the log and its `pfdura` has returned, logs the thread that has called `execve` and
-- finds the plugin for its standard input by the file's name; both variables are gone from its
-- environment, the flags `bb_disable_pp` and `bb_disable_all` are set in it exactly where they are set
-- in the caller or in the environment that the caller gives, and its `prog_name` is not the file's but what TRACE_FN is in the environment given.
pub vfd_init-execve :
    (k : Config) (c : Caller) (filename : List ℕ) (argv : List Arg) (envp env : Env)
    (p q q1 : Process) (disable_log : Bool) (ports : List ℕ → ℤ) (os : Kernel) (mypid : ℕ)
    (logfd : ℤ)
    → length (lib_path k c env) < 1013
    → length filename < 1011
    → c.tid < 2 ^ 64
    → logd_init
        (disable_log
          || is_set (real_getenv (codes "BB_DISABLE_ALL") (carried k c filename envp env)))
        os
        (carried k c filename envp env)
        q
      ≡ some (logfd, q1)
    → os.follows mypid ≡ true
    → Inherits k c ports filename envp env mypid q1
        (execve k c filename argv envp env p >>= λ x. vfd_init disable_log ports os mypid x.envp q)
unfolding config_of
vfd_init-execve k c filename argv envp env p q q1 disable_log ports os mypid logfd lib file lt h
      follows =
    let m : Env = carried k c filename envp env in
    let starts =
      vfd_init-Started c filename (lib_path k c env) m disable_log ports os mypid q q1 logfd lt
        (execve-Carries k c filename envp env) h follows in
    let e =
      ap (λ o. o >>= λ (x : Exec). vfd_init disable_log ports os mypid x.envp q)
        (execve_lem k c filename argv envp env p lib file) in
    record {
      started = record {
        traced = starts.traced;
        result = e ∙ starts.result;
        config_read = starts.config_read;
        name_read = starts.name_read;
        parent_logged = starts.parent_logged;
        input_plugin = starts.input_plugin;
        parent_gone = starts.parent_gone;
        path_gone = starts.path_gone;
      };
      pp_kept = ap (λ x. x.bb_disable_pp) starts.config_read ∙ carried_pp k c filename envp env;
      all_kept = ap (λ x. x.bb_disable_all) starts.config_read ∙ carried_all k c filename envp env;
      name_given =
          starts.name_read ∙ ap (λ o. value_or o (codes "__")) (carried_fn k c filename envp env);
    }

-- `execv` passes on an environment from which the program that it starts, once it has connected to
-- the log and its `pfdura` has returned, logs the thread that has called `execv`, finds the plugin for its standard input by the
-- path, removes both variables, and has the last part of the path for its `prog_name`.
pub vfd_init-execv :
    (k : Config) (c : Caller) (path : List ℕ) (argv : List Arg) (env : Env) (p q q1 : Process)
    (disable_log : Bool) (ports : List ℕ → ℤ) (os : Kernel) (mypid : ℕ) (logfd : ℤ)
    → c.tid < 2 ^ 64
    → (let m = (execv k c path argv env p).envp in
        logd_init (disable_log || is_set (real_getenv (codes "BB_DISABLE_ALL") m)) os m q
        ≡ some (logfd, q1))
    → os.follows mypid ≡ true
    → (let m = (execv k c path argv env p).envp in
        (s : Started ports c.tid path m mypid q1 (vfd_init disable_log ports os mypid m q))
        × (s.traced.prog_name ≡ basename path))
unfolding execv
vfd_init-execv k c path argv env p q q1 disable_log ports os mypid logfd lt h follows =
    let starts =
      vfd_init-Started c path (lib_path k c env) (setenv_carry k c path env) disable_log ports os
        mypid q q1 logfd lt (setenv_carry-Carries k c path env) h follows in
    (starts, starts.name_read ∙ ap (λ o. value_or o (codes "__")) (setenv_carry_name k c path env))
