-- ===== src/Wrap/Env/Set.antt =====
-- What a lookup finds behind `setenv_carry` of trace/vfd.c.
use borderpatrol.Base.{List, ℕ, ◌≡◌, refl, ◌∙◌, some}
use borderpatrol.Base.Text.{codes, decimal}
use borderpatrol.Wrap.{Config}
use borderpatrol.Wrap.Env.{
  Env, Caller, real_getenv, setenv, set_if, basename, lib_path, carry_flags, setenv_carry,
}
use borderpatrol.Wrap.Env.Lookup.{Apart, getenv-setenv, getenv-setenv_other}
use borderpatrol.Wrap.Env.Carried.{Carries, getenv-set_if}

-- A variable that is none of the flags.
record NotFlag (n : List ℕ) : Type 0 where
  not_all : Apart (codes "BB_DISABLE_ALL") n
  not_log : Apart (codes "BB_DISABLE_LOG") n
  not_pp : Apart (codes "BB_DISABLE_PP") n

getenv-carry_flags :
    (k : Config) (c : Caller) (n : List ℕ) (env : Env)
    → NotFlag n
    → real_getenv n (carry_flags k c env) ≡ real_getenv n env
getenv-carry_flags k c n env free =
    let pp = set_if k.bb_disable_pp (codes "BB_DISABLE_PP") env in
    let log = set_if c.bb_disable_log (codes "BB_DISABLE_LOG") pp in
    getenv-set_if k.bb_disable_all (codes "BB_DISABLE_ALL") n log free.not_all
    ∙ getenv-set_if c.bb_disable_log (codes "BB_DISABLE_LOG") n pp free.not_log
    ∙ getenv-set_if k.bb_disable_pp (codes "BB_DISABLE_PP") n env free.not_pp

module _ (k : Config) (c : Caller) (path : List ℕ) (env : Env) where
  ptid_set : Env
  ptid_set = setenv (codes "BB_EXEC_PTID") (decimal c.tid) env

  path_set : Env
  path_set = setenv (codes "BB_EXEC_PATH") path ptid_set

  name_set : Env
  name_set = setenv (codes "TRACE_FN") (basename path) path_set

  lib_set : Env
  lib_set = setenv (codes "LD_PRELOAD") (lib_path k c env) name_set

  past_flags :
      (n : List ℕ) → NotFlag n → real_getenv n (setenv_carry k c path env) ≡ real_getenv n lib_set
  unfolding setenv_carry lib_set name_set path_set ptid_set
  past_flags n free = getenv-carry_flags k c n lib_set free

  past_lib :
      (n : List ℕ)
      → NotFlag n
      → Apart (codes "LD_PRELOAD") n
      → real_getenv n (setenv_carry k c path env) ≡ real_getenv n name_set
  unfolding lib_set
  past_lib n free apart =
      past_flags n free
      ∙ getenv-setenv_other (codes "LD_PRELOAD") n (lib_path k c env) name_set apart

  pub setenv_carry-Carries : Carries c path (lib_path k c env) (setenv_carry k c path env)
  unfolding lib_set name_set path_set ptid_set
  setenv_carry-Carries = record {
    parent =
        past_lib (codes "BB_EXEC_PTID") free_flag (refl, refl)
        ∙ getenv-setenv_other (codes "TRACE_FN") (codes "BB_EXEC_PTID") (basename path) path_set
            (refl, refl)
        ∙ getenv-setenv_other (codes "BB_EXEC_PATH") (codes "BB_EXEC_PTID") path ptid_set
            (refl, refl)
        ∙ getenv-setenv (codes "BB_EXEC_PTID") (decimal c.tid) env;
    path_is =
        past_lib (codes "BB_EXEC_PATH") free_path (refl, refl)
        ∙ getenv-setenv_other (codes "TRACE_FN") (codes "BB_EXEC_PATH") (basename path) path_set
            (refl, refl)
        ∙ getenv-setenv (codes "BB_EXEC_PATH") path ptid_set;
    preload =
        past_flags (codes "LD_PRELOAD") free_lib
        ∙ getenv-setenv (codes "LD_PRELOAD") (lib_path k c env) name_set;
  }
    where
      free_flag : NotFlag (codes "BB_EXEC_PTID")
      free_flag = record { not_all = (refl, refl); not_log = (refl, refl); not_pp = (refl, refl) }

      free_path : NotFlag (codes "BB_EXEC_PATH")
      free_path = record { not_all = (refl, refl); not_log = (refl, refl); not_pp = (refl, refl) }

      free_lib : NotFlag (codes "LD_PRELOAD")
      free_lib = record { not_all = (refl, refl); not_log = (refl, refl); not_pp = (refl, refl) }

  pub setenv_carry_name :
      real_getenv (codes "TRACE_FN") (setenv_carry k c path env) ≡ some (basename path)
  unfolding name_set
  setenv_carry_name =
      past_lib (codes "TRACE_FN")
        (record { not_all = (refl, refl); not_log = (refl, refl); not_pp = (refl, refl) })
        (refl, refl)
      ∙ getenv-setenv (codes "TRACE_FN") (basename path) path_set
