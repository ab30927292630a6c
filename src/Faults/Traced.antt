-- ===== src/Faults/Traced.antt =====
-- A page fault from the process that has it to the log: trace/vfd.c, pfdura/pfdura-mod.c and
-- trace/pf.c.
use borderpatrol.Base.{
  ℕ, ◌<◌, Bool, true, false, some, List, ◌++◌, map, ◌≡◌, refl, ap, subst, ◌≤◌, ap₂, ◌∙◌, arith, All,
}
use borderpatrol.Fmt.Entry.{IsEntry, log_bytes}
use borderpatrol.Logd.{Timeval}
use borderpatrol.Faults.{Pfdura, Tracked, Strtol, pfdura, entry_probe, exit_probe}
use borderpatrol.Faults.Digits.{ReadsNumbers}
use borderpatrol.Faults.Tracked.{pfdura_tracks}
use borderpatrol.Faults.Feed.{FaultRead, whole, Feed, reader_loop}
use borderpatrol.Faults.Paired.{OtherRead, fault_logged}
use borderpatrol.Faults.Entries.{fault_entries-due, due_of, time_of}

abbrev pub struct : ℕ → ℕ → Bool → Timeval → Pfdura
struct pid tid complete tv = record { tgid = pid; pid = tid; complete = complete; tv = tv }

-- Structs as they are read from the relay.
abbrev pub relayed : List Pfdura → List FaultRead
relayed structs = map whole structs

-- For a process that has told the kernel module of its pid, other than 0 and below 65536, with
-- `pfdura(1, pid)`, and a thread of it: what the probes relay at the begin and at the end of a page
-- fault, with structs of other processes and reads that bring nothing between them, makes the loop
-- of pf call `write` with what the reads between make it, and behind it, if the fault has taken more
-- than 100 microseconds, with two well-formed entries, of the thread, the process and the two times,
-- and with nothing more if it has not. The second in which the fault ends is not before that in which
-- it begins.
pub traced_fault :
    (begin_sc end_sc pid_max : ℕ) (simple_strtol : Strtol) (pid tid sec usec sec' usec' : ℕ)
    (track : Tracked) (others : List FaultRead) (s : Feed)
    → begin_sc < 65536
    → end_sc < 65536
    → ReadsNumbers simple_strtol
    → 0 < pid
    → pid < pid_max
    → pid < 65536
    → tid < 2147483648
    → sec ≤ sec'
    → All (OtherRead pid) others
    → (t : Tracked) × (u v : Feed) × (pfdura pid_max simple_strtol true pid true track ≡ some t)
      × (reader_loop begin_sc end_sc others s ≡ some u)
      × (reader_loop begin_sc end_sc
            (relayed (entry_probe pid_max pid tid (time_of sec usec) t)
              ++ (others ++ relayed (exit_probe pid_max pid tid (time_of sec' usec') t)))
            s
          ≡ some v)
      × (v.offered ≡ u.offered ++ log_bytes (due_of begin_sc end_sc pid tid sec usec sec' usec'))
      × All IsEntry (due_of begin_sc end_sc pid tid sec usec sec' usec')
traced_fault begin_sc end_sc pid_max simple_strtol pid tid sec usec sec' usec' track others s
      begin_fits end_fits reads positive below low thread le all =
    let from : Timeval = time_of sec usec in
    let to : Timeval = time_of sec' usec' in
    let due = fault_entries-due begin_sc end_sc pid tid sec usec sec' usec' le in
    let (t, t', on, probes, same, off, gone, same') =
      pfdura_tracks pid_max simple_strtol pid track reads positive below (omega (arith, low)) in
    let (u, v, eu, ev, sent, formed) =
      fault_logged begin_sc end_sc begin_fits end_fits (struct pid tid false from)
        (struct pid tid true to) others s refl refl refl low thread thread all in
    (
      t,
      u,
      v,
      on,
      eu,
      ap₂ (λ a b. reader_loop begin_sc end_sc (relayed a ++ (others ++ relayed b)) s)
            (probes tid from).0 (probes tid to).1
          ∙ ev,
      sent ∙ ap (λ es. u.offered ++ log_bytes es) due,
      subst (All IsEntry) due formed,
    )
