-- ===== src/Witnesses/Programs.antt =====
-- The theorems on `exec` at concrete inputs: trace/vfd.c and trace/wrap.h.
use borderpatrol.Base.{◌≡◌, refl, true, false, some, [], ◌∷◌, arith, ◌>>=◌}
use borderpatrol.Base.Int.{pos}
use borderpatrol.Base.Text.{codes}
use borderpatrol.Wrap.{Process, no_fd, update}
use borderpatrol.Wrap.Env.{
  Env, Caller, entry, basename, real_getenv, value_in, setenv, setenv_carry,
}
use borderpatrol.Wrap.Env.Argv.{null_ended, arg2argv, Fits, arg2argv-Fits}
use borderpatrol.Wrap.Env.Exec.{execve, execv}
use borderpatrol.Wrap.Env.Child.{Started, Inherits, vfd_init-execve, vfd_init-execv}
use borderpatrol.Wrap.Init.{Kernel, logd_init, logd_addr, untrack, vfd_init}
use borderpatrol.Witnesses.Descriptors.{entry_before}
use borderpatrol.Witnesses.Wrappers.{config, process_of}

arg2argv-Fits_example :
    Fits
      (λ n. false)
      (null_ended (codes "ls" ∷ codes "-l" ∷ []))
      4
      (arg2argv (λ n. false) (λ n. []) (some (codes "ls")) (null_ended (codes "-l" ∷ [])))
arg2argv-Fits_example = arg2argv-Fits (λ n. false) (λ n. []) (codes "ls") (codes "-l" ∷ [])

abbrev caller : Caller
caller = record {
  trace_lib = codes "/usr/lib/libbtrace.so";
  tid = 3071234567;
  bb_disable_log = false;
  prog_name = codes "httpd";
}

-- Plugins are off in what is started.
abbrev given : Env
given = entry (codes "HOME") (codes "/root") ∷ entry (codes "BB_DISABLE_PP") (codes "yes") ∷ []

abbrev kernel : Kernel
kernel = record { socket = pos 3; connects = λ addr. true; copy = pos 79; follows = λ pid. true }

abbrev before : Process
before = process_of entry_before []

abbrev connected : Process
connected = record before { tracked = update no_fd 79 false }

vfd_init-execve_example :
    Inherits config caller config.getportbyname (codes "/srv/run.fcgi") given given 300 connected (
      execve config caller (codes "/srv/run.fcgi") [] given given before >>= λ x.
      vfd_init false config.getportbyname kernel 300 x.envp before)
unfolding real_getenv value_in logd_init logd_addr untrack
vfd_init-execve_example =
    vfd_init-execve config caller (codes "/srv/run.fcgi") [] given given before before connected
      false config.getportbyname kernel 300 (pos 79) (omega arith) (omega arith) (omega arith) refl
      refl

vfd_init-execv_example :
    (s : Started config.getportbyname 3071234567
      (codes "/bin/ls")
      (execv config caller (codes "/bin/ls") [] [] before).envp
      300
      connected
      (vfd_init false config.getportbyname kernel 300
        (execv config caller (codes "/bin/ls") [] [] before).envp
        before))
    × (s.traced.prog_name ≡ codes "ls")
unfolding real_getenv value_in logd_init logd_addr untrack execv setenv_carry setenv basename
vfd_init-execv_example =
    vfd_init-execv config caller (codes "/bin/ls") [] [] before before connected false
      config.getportbyname kernel 300 (pos 79) (omega arith) refl refl
