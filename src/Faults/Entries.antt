-- ===== src/Faults/Entries.antt =====
-- The entries that trace/pf.c logs of a fault.
use borderpatrol.Base.{
  ◌-◌, true, false, sym, ◌∙◌, inl, inr, Bool-cases, lt→ltb, le→ltb, ltb→lt, ltb→le, ◌+◌, ◌*◌, ◌%◌,
  ◌≤◌, ltb, ap, ℕ, ◌<◌, some, List, [], ◌∷◌, if◌then◌else◌, ◌≡◌, refl, arith,
}
use borderpatrol.Base.Int.{ℤ, pos, ltb_ℤ, ◌+ℤ◌, ◌-ℤ◌, int_laws, sub-pos}
use borderpatrol.Fmt.{Frozen, frozen_size, freeze}
use borderpatrol.Fmt.Entry.{Entry, IsEntry, entry_bytes, thawed}
use borderpatrol.Fmt.RoundTrip.{freeze_lem}
use borderpatrol.Binlog.Logged.{pattern_of-lt}
use borderpatrol.Logd.{Timeval}
use borderpatrol.Faults.{Pfdura}
use borderpatrol.Faults.Feed.{millionfold, duration, fault_frozen, fault_entry}

abbrev pub bare : Frozen → Entry
bare f = record { fz = f; args = []; text = [] }

-- The entries of a fault: none if it has taken 100 microseconds or less.
abbrev pub fault_entries : ℕ → ℕ → Pfdura → Pfdura → List Entry
fault_entries begin_sc end_sc b e =
    if ltb_ℤ (pos 100) (duration b.tv e.tv)
    then bare (fault_frozen begin_sc e b.tv) ∷ bare (fault_frozen end_sc e e.tv) ∷ []
    else []

pub bare-IsEntry :
    (sc : ℕ) (pfd : Pfdura) (tv : Timeval)
    → sc < 65536
    → pfd.tgid < 65536
    → pfd.pid < 2147483648
    → IsEntry (bare (fault_frozen sc pfd tv))
bare-IsEntry sc pfd tv number tgid pid = record {
  frozen = record {
    tid_fits = omega (arith, pid);
    pid_fits = omega (arith, tgid);
    high_fits = pattern_of-lt tv.tv_sec;
    low_fits = pattern_of-lt tv.tv_usec;
    sc_fits = omega (arith, number);
    rv_fits = omega arith;
    nm_fits = omega arith;
    arg_len_fits = omega arith;
    str_len_fits = omega arith;
    padding_fits = omega arith;
  };
  arg_count = refl;
  at_most_three = omega arith;
  args_fit = tt;
  text_count = refl;
  text_fits = omega arith;
}

-- A page fault's entry, of a thread and a process at a time.
abbrev pub page_fault : ℕ → ℕ → ℕ → ℕ → ℕ → Entry
page_fault sc tid pid sec usec = record {
  fz = record {
    tid = tid;
    pid = pid;
    cycle_high = sec % 4294967296;
    cycle_low = usec % 4294967296;
    sc = sc;
    rv = 0;
    nm = b'_';
    arg_len = 0;
    str_len = 0;
    padding = 0;
  };
  args = [];
  text = [];
}

-- A time since the epoch.
abbrev pub time_of : ℕ → ℕ → Timeval
time_of sec usec = record { tv_sec = pos sec; tv_usec = pos usec }

-- What a fault should log: two entries if its microseconds are more than 100.
abbrev pub due_of : ℕ → ℕ → ℕ → ℕ → ℕ → ℕ → ℕ → ℕ → List Entry
due_of begin_sc end_sc pid tid sec usec sec' usec' =
    if ltb (sec * 1000000 + usec + 100) (sec' * 1000000 + usec')
    then page_fault begin_sc tid pid sec usec ∷ page_fault end_sc tid pid sec' usec' ∷ []
    else []

long_enough :
    (sec usec sec' usec' : ℕ)
    → sec ≤ sec'
    → ltb_ℤ (pos 100) (duration (time_of sec usec) (time_of sec' usec'))
      ≡ ltb (sec * 1000000 + usec + 100) (sec' * 1000000 + usec')
unfolding duration
long_enough sec usec sec' usec' le =
    let us : ℤ = pos ((sec' - sec) * 1000 * 1000) +ℤ (pos usec' -ℤ pos usec) in
    let short : ltb_ℤ (pos 100) us ≡ ltb (sec * 1000000 + usec + 100) (sec' * 1000000 + usec') =
      elim (Bool-cases (ltb (sec * 1000000 + usec + 100) (sec' * 1000000 + usec'))) [
        | inl e ↦ lt→ltb _ _ (omega (int_laws, ltb→lt _ _ e, le)) ∙ sym e
        | inr e ↦ le→ltb _ _ (omega (int_laws, ltb→le _ _ e, le)) ∙ sym e
      ] in
    ap (λ z. ltb_ℤ (pos 100) (millionfold z +ℤ (pos usec' -ℤ pos usec))) (sub-pos sec' sec le)
    ∙ short

pub fault_entries-due :
    (begin_sc end_sc pid tid sec usec sec' usec' : ℕ)
    → sec ≤ sec'
    → fault_entries begin_sc end_sc
        (record { tgid = pid; pid = tid; complete = false; tv = time_of sec usec })
        (record { tgid = pid; pid = tid; complete = true; tv = time_of sec' usec' })
      ≡ due_of begin_sc end_sc pid tid sec usec sec' usec'
fault_entries-due begin_sc end_sc pid tid sec usec sec' usec' le =
    ap
      (λ b.
        if b
        then page_fault begin_sc tid pid sec usec ∷ page_fault end_sc tid pid sec' usec' ∷ []
        else [])
      (long_enough sec usec sec' usec' le)

pub freeze-fault_entry :
    (sc : ℕ) (pfd : Pfdura) (tv : Timeval)
    → sc < 65536
    → pfd.tgid < 65536
    → pfd.pid < 2147483648
    → freeze (fault_entry sc pfd tv) (frozen_size (fault_frozen sc pfd tv))
      ≡ some (entry_bytes (bare (fault_frozen sc pfd tv)))
unfolding fault_entry thawed
freeze-fault_entry sc pfd tv number tgid pid =
    freeze_lem (bare (fault_frozen sc pfd tv)) (bare-IsEntry sc pfd tv number tgid pid)
