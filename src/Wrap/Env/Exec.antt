-- ===== src/Wrap/Env/Exec.antt =====
-- The wrappers of trace/vfd.c that start another program: what they pass on to it, and what they log.
-- They go on behind the call only where it fails.
use borderpatrol.Base.{ℕ, Bool, Option, none, some, List, ◌∷◌, ltb, if◌then◌else◌, ◌>>=◌, length}
use borderpatrol.Base.Int.{pos}
use borderpatrol.Base.Text.{codes, decimal}
use borderpatrol.Protocol.{
  Sys, event_s, event_is, sys_exec, sys_execl, sys_execlp, sys_execle, sys_execv, sys_execvp,
}
use borderpatrol.Wrap.{Process, Config, logged, logged_if}
use borderpatrol.Wrap.Env.{Env, Caller, entry, basename, lib_path, setenv_carry}
use borderpatrol.Wrap.Env.Argv.{Arg, no_memory, gathered, arg2argv}

-- `sprintf` into one of the arrays of 1024 bytes.
unfoldable pub printed : List ℕ → Option (List ℕ)
printed s = if ltb (length s) 1024 then some s else none

abbrev pub flag_if : Bool → List ℕ → Env → Env
flag_if b name envp = if b then entry name (codes "yes") ∷ envp else envp

-- What a call of one of the `exec` functions is given, and the process until it is replaced.
pub record Exec : Type 0 where
  pub path : List ℕ
  pub argv : List Arg
  pub envp : Env
  pub process : Process

module _ (k : Config) (c : Caller) where
  -- `mod_envp`, with room for 10 entries more than `envp` has: LD_PRELOAD stands in it twice, where
  -- the string with TRACE_FN is printed but not put. `none` is a string that is too long.
  unfoldable pub mod_envp : List ℕ → Env → Env → Option Env
  mod_envp filename envp env = do
    ldp ← printed (entry (codes "LD_PRELOAD") (lib_path k c env))
    pn ← printed (entry (codes "TRACE_FN") (basename filename))
    ept ← printed (entry (codes "BB_EXEC_PTID") (decimal c.tid))
    pa ← printed (entry (codes "BB_EXEC_PATH") filename)
    let flags =
        flag_if k.bb_disable_pp (codes "BB_DISABLE_PP")
          (flag_if k.bb_disable_all (codes "BB_DISABLE_ALL") envp)
    some (ldp ∷ ldp ∷ ept ∷ pa ∷ flags)

  unfoldable pub execve : List ℕ → List Arg → Env → Env → Process → Option Exec
  execve filename argv envp env p = do
    m ← mod_envp filename envp env
    let p1 = logged (event_is sys_exec (pos 0) (pos (length m)) filename) p
    some (record { path = filename; argv = argv; envp = m; process = p1 })

  -- What the other ones do once they have `argv`.
  abbrev pub exec_carried : Sys → List ℕ → List Arg → Env → Process → Exec
  exec_carried sc path argv env p = record {
    path = path;
    argv = argv;
    envp = setenv_carry k c path env;
    process = logged_if k.debug_events (event_s sc (pos 0) path) p;
  }

  -- With the arguments in a list: `some none` is the return of -1.
  abbrev pub exec_listed :
      Sys
      → (ℕ → Bool)
      → (ℕ → List Arg)
      → List ℕ
      → Arg
      → List Arg
      → Env
      → Process
      → Option (Option Exec)
  exec_listed sc realloc fresh path arg args env p = arg2argv realloc fresh arg args >>= λ g.
      elim g [
        | no_memory ↦ some none
        | gathered argv ↦ some (some (exec_carried sc path argv env p))
      ]

  unfoldable pub execl :
      (ℕ → Bool) → (ℕ → List Arg) → List ℕ → Arg → List Arg → Env → Process → Option (Option Exec)
  execl = exec_listed sys_execl

  unfoldable pub execlp :
      (ℕ → Bool) → (ℕ → List Arg) → List ℕ → Arg → List Arg → Env → Process → Option (Option Exec)
  execlp = exec_listed sys_execlp

  -- The environment that is given behind the arguments is not read.
  unfoldable pub execle :
      (ℕ → Bool) → (ℕ → List Arg) → List ℕ → Arg → List Arg → Env → Process → Option (Option Exec)
  execle = exec_listed sys_execle

  unfoldable pub execv : List ℕ → List Arg → Env → Process → Exec
  execv = exec_carried sys_execv

  unfoldable pub execvp : List ℕ → List Arg → Env → Process → Exec
  execvp = exec_carried sys_execvp
