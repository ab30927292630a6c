-- ===== src/Faults/Tracked.antt =====
-- A process that tells pfdura/pfdura-mod.c of itself, as trace/vfd.c does when a program begins and
-- when it ends.
use borderpatrol.Base.{
  ℕ, ◌<◌, true, false, some, [], ◌∷◌, ◌==◌, leb, if◌then◌else◌, ◌≡◌, ◌≢◌, arith, lt→leb, ==_refl,
  ne→==,
}
use borderpatrol.Logd.{Timeval}
use borderpatrol.Faults.{
  Tracked, Strtol, on_pid, off_pid, pid_on_write, pid_off_write, pfdura, entry_probe, exit_probe,
}
use borderpatrol.Faults.Digits.{ReadsNumbers, get_pid_from_buf_lem}

-- For a pid other than 0 that the module has a bit for, and a kernel that reads a number in a text:
-- `pfdura(1, pid)` sets that bit alone, so that both probes relay a struct for the process, with the
-- thread and the time, whatever other processes are followed; `pfdura(0, pid)` behind it clears that
-- bit alone, so that neither probe relays a struct for the process.
pub pfdura_tracks :
    (pid_max : ℕ) (simple_strtol : Strtol) (pid : ℕ) (track : Tracked)
    → ReadsNumbers simple_strtol
    → 0 < pid
    → pid < pid_max
    → pid < 2147483648
    → (t t' : Tracked) × (pfdura pid_max simple_strtol true pid true track ≡ some t)
      × ((tid : ℕ) (tv : Timeval)
          → (entry_probe pid_max pid tid tv t
              ≡ record { tgid = pid; pid = tid; complete = false; tv = tv } ∷ [])
            × (exit_probe pid_max pid tid tv t
                ≡ record { tgid = pid; pid = tid; complete = true; tv = tv } ∷ []))
      × ((i : ℕ) → i ≢ pid → t i ≡ track i)
      × (pfdura pid_max simple_strtol false pid true t ≡ some t')
      × ((tid : ℕ) (tv : Timeval)
          → (entry_probe pid_max pid tid tv t' ≡ []) × (exit_probe pid_max pid tid tv t' ≡ []))
      × ((i : ℕ) → i ≢ pid → t' i ≡ track i)
unfolding pfdura pid_on_write pid_off_write on_pid off_pid entry_probe exit_probe
pfdura_tracks pid_max simple_strtol pid track reads positive below int =
    let has_bit : leb pid_max pid ≡ false = lt→leb pid_max pid below in
    let it : (pid == pid) ≡ true = ==_refl pid in
    let not_all : (pid == 0) ≡ false = ne→== pid 0 (λ e. omega (arith, positive, e)) in
    let reads_it = get_pid_from_buf_lem simple_strtol pid reads int in
    (
      (λ i. if i == pid then true else track i),
      (λ i. if i == pid then false else (if i == pid then true else track i)),
      rw (reads_it, has_bit),
      (λ tid tv. (rw (has_bit, it), rw (has_bit, it))),
      (λ i far. rw (ne→== i pid far)),
      rw (reads_it, has_bit, not_all, it),
      (λ tid tv. (rw (has_bit, it), rw (has_bit, it))),
      (λ i far. rw (ne→== i pid far)),
    )
