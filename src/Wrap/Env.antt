-- ===== src/Wrap/Env.antt =====
-- The environment of a process as the wrappers of trace/vfd.c read and set it: strings NAME=value,
-- of which the first with a name counts, as in the C library.
pub mod Lookup
pub mod Argv
pub mod Exec
pub mod Carried
pub mod Set
pub mod Child
pub mod Number
use borderpatrol.Base.{
  ℕ, ◌+◌, Bool, true, false, Option, none, some, List, [], ◌∷◌, ◌++◌, ltb, ◌==◌, not, ◌||◌,
  if◌then◌else◌, length, take, drop,
}
use borderpatrol.Base.Int.{ℤ, pos}
use borderpatrol.Base.Text.{codes, starts, mem?, decimal}
use borderpatrol.Protocol.{Event, event_0, event_s, sys_getenv, sys_clearenv, sys_unsetenv}
use borderpatrol.Wrap.{Process, Config, logged_if}

abbrev pub Env : Type 0
Env = List (List ℕ)

abbrev pub var : List ℕ → List ℕ
var name = name ++ (b'=' ∷ [])

abbrev pub entry : List ℕ → List ℕ → List ℕ
entry name value = var name ++ value

abbrev pub or_else : Option (List ℕ) → Option (List ℕ) → Option (List ℕ)
or_else none o = o
or_else (some v) o = some v

-- The value in a string that gives the variable one.
unfoldable pub value_in : List ℕ → List ℕ → Option (List ℕ)
value_in name e = if starts (var name) e then some (drop (length (var name)) e) else none

unfoldable pub real_getenv : List ℕ → Env → Option (List ℕ)
real_getenv name [] = none
real_getenv name (e ∷ env) = or_else (value_in name e) (real_getenv name env)

-- `setenv(name, value, 1)`.
unfoldable pub setenv : List ℕ → List ℕ → Env → Env
setenv name value [] = entry name value ∷ []
setenv name value (e ∷ env) =
    let rest = setenv name value env in
    if starts (var name) e then entry name value ∷ env else e ∷ rest

unfoldable pub real_unsetenv : List ℕ → Env → Env
real_unsetenv name [] = []
real_unsetenv name (e ∷ env) =
    let rest = real_unsetenv name env in if starts (var name) e then rest else e ∷ rest

abbrev pub is_set : Option (List ℕ) → Bool
is_set none = false
is_set (some v) = true

-- `basename` of the GNU C library: what follows the last slash.
unfoldable pub basename : List ℕ → List ℕ
basename [] = []
basename (b ∷ path) =
    let rest = basename path in
    if mem? b'/' path then rest else if b == b'/' then path else b ∷ path

abbrev pub value_or : Option (List ℕ) → List ℕ → List ℕ
value_or none d = d
value_or (some v) d = v

abbrev pub set_if : Bool → List ℕ → Env → Env
set_if b name env = if b then setenv name (codes "yes") env else env

-- What the wrappers know besides `Config`: TRACE_LIB, the caller's tid, `bb_disable_log`, and
-- `prog_name`.
pub record Caller : Type 0 where
  pub trace_lib : List ℕ
  pub tid : ℕ
  pub bb_disable_log : Bool
  pub prog_name : List ℕ

module _ (k : Config) (c : Caller) where
  -- Whether the library that is preloaded is named by the environment.
  abbrev pub lib_path : Env → List ℕ
  lib_path env = value_or (real_getenv (codes "LIBBTRACE_PATH") env) c.trace_lib

  abbrev pub carry_flags : Env → Env
  carry_flags env = set_if k.bb_disable_all (codes "BB_DISABLE_ALL") (
      set_if c.bb_disable_log (codes "BB_DISABLE_LOG")
        (set_if k.bb_disable_pp (codes "BB_DISABLE_PP") env))

  -- What the next program finds in its environment.
  unfoldable pub setenv_carry : List ℕ → Env → Env
  setenv_carry path env =
      let env1 = setenv (codes "BB_EXEC_PTID") (decimal c.tid) env in
      let env2 = setenv (codes "BB_EXEC_PATH") path env1 in
      let env3 = setenv (codes "TRACE_FN") (basename path) env2 in
      carry_flags (setenv (codes "LD_PRELOAD") (lib_path env) env3)

  -- The wrapper, whose text is cut at 1023 bytes.
  unfoldable pub getenv : List ℕ → Env → Process → Option (List ℕ) × Process
  getenv name env p =
      let r = real_getenv name env in
      if k.bb_disable_all then (r, p) else (
        r,
        logged_if k.debug_events
            (event_s sys_getenv (pos 0) (take 1023 (entry name (value_or r (codes "(undef)"))))) p,
      )

  -- With what `real_clearenv` returns, which leaves nothing.
  unfoldable pub clearenv : ℤ → Env → Process → Env × Process
  clearenv r env p = (
    carry_flags (setenv (codes "LD_PRELOAD") (lib_path env) []),
    logged_if k.debug_events (event_0 sys_clearenv r) p,
  )

  unfoldable pub unsetenv : List ℕ → Env → Process → Env × Process
  unsetenv name env p =
      let env1 = setenv (codes "LD_PRELOAD") (lib_path env) (real_unsetenv name env) in
      (
        carry_flags (setenv (codes "TRACE_FN") c.prog_name env1),
        logged_if k.debug_events (event_s sys_unsetenv (pos 0) name) p,
      )
