-- ===== src/Wrap/Env/Carried.antt =====
-- What a lookup finds in the environment that the wrappers of trace/vfd.c for `exec` pass on.
use borderpatrol.Base.{
  ℕ, ◌+◌, ◌<◌, ◌≤◌, Bool, true, false, ◌||◌, some, List, [], ◌∷◌, length, length-append, ◌≡◌, refl,
  ap, ◌∙◌, arith, ltb, ◌==◌, lt→ltb, Bool-cases, inl, inr,
}
use borderpatrol.Base.Text.{codes, decimal, mem?}
use borderpatrol.Wrap.{Config}
use borderpatrol.Wrap.Env.{Env, Caller, var, entry, real_getenv, set_if, is_set, basename, lib_path}
use borderpatrol.Wrap.Env.Lookup.{Apart, getenv-head, getenv-skip, getenv-setenv_other}
use borderpatrol.Wrap.Env.Number.{length-decimal}
use borderpatrol.Wrap.Env.Exec.{flag_if, printed, mod_envp}

-- The thread and the path that a program is started with, and the library that follows it.
pub record Carries (c : Caller) (path lib : List ℕ) (env : Env) : Type 0 where
  pub parent : real_getenv (codes "BB_EXEC_PTID") env ≡ some (decimal c.tid)
  pub path_is : real_getenv (codes "BB_EXEC_PATH") env ≡ some path
  pub preload : real_getenv (codes "LD_PRELOAD") env ≡ some lib

getenv-flag_if :
    (b : Bool) (m n : List ℕ) (env : Env)
    → Apart m n
    → real_getenv n (flag_if b m env) ≡ real_getenv n env
getenv-flag_if true m n env apart = getenv-skip m n (codes "yes") env apart
getenv-flag_if false m n env apart = refl

is_set-flag_if :
    (b : Bool) (n : List ℕ) (env : Env)
    → is_set (real_getenv n (flag_if b n env)) ≡ (b || is_set (real_getenv n env))
is_set-flag_if true n env = ap is_set (getenv-head n (codes "yes") env)
is_set-flag_if false n env = refl

pub getenv-set_if :
    (b : Bool) (m n : List ℕ) (env : Env)
    → Apart m n
    → real_getenv n (set_if b m env) ≡ real_getenv n env
getenv-set_if true m n env apart = getenv-setenv_other m n (codes "yes") env apart
getenv-set_if false m n env apart = refl

pub length-basename : (path : List ℕ) → length (basename path) ≤ length path
unfolding basename
length-basename [] = omega arith
length-basename (b ∷ path) = elim (Bool-cases (mem? b'/' path)) [
  | inl more ↦ rw more (omega (arith, length-basename path))
  | inr last ↦ elim (Bool-cases (b == b'/')) [
    | inl here ↦ rw (last, here) (omega arith)
    | inr inside ↦ rw (last, inside) (omega arith)
  ]
]

-- The environment `execve` makes.
abbrev pub carried : Config → Caller → List ℕ → Env → Env → Env
carried k c filename envp env =
    let ldp = entry (codes "LD_PRELOAD") (lib_path k c env) in
    ldp
    ∷ ldp
    ∷ entry (codes "BB_EXEC_PTID") (decimal c.tid)
    ∷ entry (codes "BB_EXEC_PATH") filename
    ∷ flag_if k.bb_disable_pp (codes "BB_DISABLE_PP")
        (flag_if k.bb_disable_all (codes "BB_DISABLE_ALL") envp)

short :
    (name value : List ℕ)
    → length name + length value < 1023
    → printed (entry name value) ≡ some (entry name value)
unfolding printed
short name value lt =
    let n : length (var name) ≡ length name + 1 = length-append name (b'=' ∷ []) in
    let e : length (entry name value) ≡ length (var name) + length value =
      length-append (var name) value in
    let fits : ltb (length (entry name value)) 1024 ≡ true =
      lt→ltb (length (entry name value)) 1024 (omega (arith, n, e, lt)) in
    rw fits

pub mod_envp_lem :
    (k : Config) (c : Caller) (filename : List ℕ) (envp env : Env)
    → length (lib_path k c env) < 1013
    → length filename < 1011
    → mod_envp k c filename envp env ≡ some (carried k c filename envp env)
unfolding mod_envp
mod_envp_lem k c filename envp env lib file =
    let ldp = short (codes "LD_PRELOAD") (lib_path k c env) (omega (arith, lib)) in
    let pn =
      short (codes "TRACE_FN") (basename filename)
        (omega (arith, file, length-basename filename)) in
    let ept = short (codes "BB_EXEC_PTID") (decimal c.tid) (omega (arith, length-decimal c.tid)) in
    let pa = short (codes "BB_EXEC_PATH") filename (omega (arith, file)) in rw (ldp, pn, ept, pa)

pub execve-Carries :
    (k : Config) (c : Caller) (filename : List ℕ) (envp env : Env)
    → Carries c filename (lib_path k c env) (carried k c filename envp env)
execve-Carries k c filename envp env =
    let lib = lib_path k c env in
    let rest =
      flag_if k.bb_disable_pp (codes "BB_DISABLE_PP")
        (flag_if k.bb_disable_all (codes "BB_DISABLE_ALL") envp) in
    let pa = entry (codes "BB_EXEC_PATH") filename in
    let ept = entry (codes "BB_EXEC_PTID") (decimal c.tid) in
    let ldp = entry (codes "LD_PRELOAD") lib in
    record {
      parent =
          getenv-skip (codes "LD_PRELOAD") (codes "BB_EXEC_PTID") lib (ldp ∷ ept ∷ pa ∷ rest)
            (refl, refl)
          ∙ getenv-skip (codes "LD_PRELOAD") (codes "BB_EXEC_PTID") lib (ept ∷ pa ∷ rest)
              (refl, refl)
          ∙ getenv-head (codes "BB_EXEC_PTID") (decimal c.tid) (pa ∷ rest);
      path_is =
          getenv-skip (codes "LD_PRELOAD") (codes "BB_EXEC_PATH") lib (ldp ∷ ept ∷ pa ∷ rest)
            (refl, refl)
          ∙ getenv-skip (codes "LD_PRELOAD") (codes "BB_EXEC_PATH") lib (ept ∷ pa ∷ rest)
              (refl, refl)
          ∙ getenv-skip (codes "BB_EXEC_PTID") (codes "BB_EXEC_PATH") (decimal c.tid) (pa ∷ rest)
              (refl, refl)
          ∙ getenv-head (codes "BB_EXEC_PATH") filename rest;
      preload = getenv-head (codes "LD_PRELOAD") lib (ldp ∷ ept ∷ pa ∷ rest);
    }

-- A variable that is none of those that `execve` sets.
pub record Untouched (n : List ℕ) : Type 0 where
  pub not_ldp : Apart (codes "LD_PRELOAD") n
  pub not_ptid : Apart (codes "BB_EXEC_PTID") n
  pub not_path : Apart (codes "BB_EXEC_PATH") n

getenv-behind :
    (k : Config) (c : Caller) (filename : List ℕ) (envp env : Env) (n : List ℕ)
    → Untouched n
    → real_getenv n (carried k c filename envp env)
      ≡ real_getenv n (
          flag_if k.bb_disable_pp
            (codes "BB_DISABLE_PP")
            (flag_if k.bb_disable_all (codes "BB_DISABLE_ALL") envp))
getenv-behind k c filename envp env n free =
    let lib = lib_path k c env in
    let rest =
      flag_if k.bb_disable_pp (codes "BB_DISABLE_PP")
        (flag_if k.bb_disable_all (codes "BB_DISABLE_ALL") envp) in
    let pa = entry (codes "BB_EXEC_PATH") filename in
    let ept = entry (codes "BB_EXEC_PTID") (decimal c.tid) in
    let ldp = entry (codes "LD_PRELOAD") lib in
    getenv-skip (codes "LD_PRELOAD") n lib (ldp ∷ ept ∷ pa ∷ rest) free.not_ldp
    ∙ getenv-skip (codes "LD_PRELOAD") n lib (ept ∷ pa ∷ rest) free.not_ldp
    ∙ getenv-skip (codes "BB_EXEC_PTID") n (decimal c.tid) (pa ∷ rest) free.not_ptid
    ∙ getenv-skip (codes "BB_EXEC_PATH") n filename rest free.not_path

-- The flags of the caller, and those that it gives besides.
pub carried_pp :
    (k : Config) (c : Caller) (filename : List ℕ) (envp env : Env)
    → is_set (real_getenv (codes "BB_DISABLE_PP") (carried k c filename envp env))
      ≡ (k.bb_disable_pp || is_set (real_getenv (codes "BB_DISABLE_PP") envp))
carried_pp k c filename envp env =
    let all = flag_if k.bb_disable_all (codes "BB_DISABLE_ALL") envp in
    ap is_set (
      getenv-behind k c filename envp env (codes "BB_DISABLE_PP")
        (record { not_ldp = (refl, refl); not_ptid = (refl, refl); not_path = (refl, refl) }))
    ∙ is_set-flag_if k.bb_disable_pp (codes "BB_DISABLE_PP") all
    ∙ ap (λ o. k.bb_disable_pp || is_set o)
        (getenv-flag_if k.bb_disable_all (codes "BB_DISABLE_ALL") (codes "BB_DISABLE_PP") envp
          (refl, refl))

pub carried_all :
    (k : Config) (c : Caller) (filename : List ℕ) (envp env : Env)
    → is_set (real_getenv (codes "BB_DISABLE_ALL") (carried k c filename envp env))
      ≡ (k.bb_disable_all || is_set (real_getenv (codes "BB_DISABLE_ALL") envp))
carried_all k c filename envp env =
    let all = flag_if k.bb_disable_all (codes "BB_DISABLE_ALL") envp in
    ap is_set (
      getenv-behind k c filename envp env (codes "BB_DISABLE_ALL")
        (record { not_ldp = (refl, refl); not_ptid = (refl, refl); not_path = (refl, refl) })
      ∙ getenv-flag_if k.bb_disable_pp (codes "BB_DISABLE_PP") (codes "BB_DISABLE_ALL") all
          (refl, refl))
    ∙ is_set-flag_if k.bb_disable_all (codes "BB_DISABLE_ALL") envp

-- The name of the program is not among what is set.
pub carried_fn :
    (k : Config) (c : Caller) (filename : List ℕ) (envp env : Env)
    → real_getenv (codes "TRACE_FN") (carried k c filename envp env)
      ≡ real_getenv (codes "TRACE_FN") envp
carried_fn k c filename envp env =
    getenv-behind k c filename envp env (codes "TRACE_FN")
      (record { not_ldp = (refl, refl); not_ptid = (refl, refl); not_path = (refl, refl) })
    ∙ getenv-flag_if k.bb_disable_pp (codes "BB_DISABLE_PP") (codes "TRACE_FN")
        (flag_if k.bb_disable_all (codes "BB_DISABLE_ALL") envp) (refl, refl)
    ∙ getenv-flag_if k.bb_disable_all (codes "BB_DISABLE_ALL") (codes "TRACE_FN") envp (refl, refl)
