-- ===== src/Faults/Paired.antt =====
-- What trace/pf.c logs of a fault, among those of other processes.
use borderpatrol.Base.{
  ℕ, ◌<◌, Bool, true, false, some, List, [], ◌∷◌, ◌++◌, ◌==◌, if◌then◌else◌, ◌>>=◌, ◌≡◌, ◌≢◌, refl,
  sym, ap, ◌∙◌, arith, All, lt→ltb, ==_refl, ne→==, append-nil,
}
use borderpatrol.Base.Int.{pos, ltb_ℤ}
use borderpatrol.Fmt.{frozen_size, predict_size}
use borderpatrol.Fmt.Entry.{Entry, IsEntry, entry_bytes, log_bytes}
use borderpatrol.Logd.{Timeval}
use borderpatrol.Faults.{Pfdura}
use borderpatrol.Faults.Feed.{
  FaultRead, whole, nothing, broken, Feed, duration, fault_frozen, fault_entry, log_fault, on_fault,
  reader_loop,
}
use borderpatrol.Faults.Entries.{bare, bare-IsEntry, fault_entries, freeze-fault_entry}

-- A read that brings nothing, or a struct of another process.
unfoldable pub OtherRead : ℕ → FaultRead → Type 0
OtherRead tgid (whole pfd) = (pfd.tgid < 65536) × (pfd.pid < 2147483648) × (pfd.tgid ≢ tgid)
OtherRead tgid nothing = Unit
OtherRead tgid broken = ⊥

module _ (begin_sc end_sc : ℕ) (begin_fits : begin_sc < 65536) (end_fits : end_sc < 65536) where
  abbrev fault_bytes : Pfdura → Timeval → List ℕ
  fault_bytes pfd last =
      entry_bytes (bare (fault_frozen begin_sc pfd last))
      ++ entry_bytes (bare (fault_frozen end_sc pfd pfd.tv))

  log_fault_lem :
      (pfd : Pfdura) (last : Timeval)
      → pfd.tgid < 65536
      → pfd.pid < 2147483648
      → log_fault begin_sc end_sc pfd last ≡ some (fault_bytes pfd last)
  unfolding log_fault fault_entry frozen_size predict_size
  log_fault_lem pfd last tgid pid = rw (
    freeze-fault_entry begin_sc pfd last begin_fits tgid pid,
    freeze-fault_entry end_sc pfd pfd.tv end_fits tgid pid,
  )

  -- A round, where the time of the last struct of the process is given.
  abbrev after_with : Timeval → Pfdura → Feed → Feed
  after_with last pfd s =
      if pfd.complete
      then (if ltb_ℤ (pos 100) (duration last pfd.tv)
          then record s { offered = s.offered ++ fault_bytes pfd last }
          else s)
      else record s { last_tvs = λ i. if i == pfd.tgid then pfd.tv else s.last_tvs i }

  on_fault_lem :
      (pfd : Pfdura) (s : Feed)
      → pfd.tgid < 65536
      → pfd.pid < 2147483648
      → on_fault begin_sc end_sc pfd s ≡ some (after_with (s.last_tvs pfd.tgid) pfd s)
  unfolding on_fault
  on_fault_lem pfd s tgid pid =
      rw (lt→ltb pfd.tgid 65536 tgid, log_fault_lem pfd (s.last_tvs pfd.tgid) tgid pid)
        (some_if pfd.complete (ltb_ℤ (pos 100) (duration (s.last_tvs pfd.tgid) pfd.tv)) _ _ _)
    where
      some_if :
          (c d : Bool) (x y z : Feed)
          → (if c then (if d then some x else some y) else some z)
            ≡ some (if c then (if d then x else y) else z)
      some_if true true x y z = refl
      some_if true false x y z = refl
      some_if false d x y z = refl

  -- Two states that differ in the last time of one process at most, which is given for the second.
  record Agree (tgid : ℕ) (last : Timeval) (s u : Feed) : Type 0 where
    same_sent : u.offered ≡ s.offered
    same_last : (i : ℕ) → i ≢ tgid → u.last_tvs i ≡ s.last_tvs i
    its_last : u.last_tvs tgid ≡ last

  after_with-Agree :
      (tgid : ℕ) (last last' : Timeval) (pfd : Pfdura) (s u : Feed)
      → pfd.tgid ≢ tgid
      → Agree tgid last s u
      → Agree tgid last (after_with last' pfd s) (after_with last' pfd u)
  after_with-Agree tgid last last' pfd s u ne h =
      go pfd.complete (ltb_ℤ (pos 100) (duration last' pfd.tv))
    where
      changed : Bool → Bool → Feed → Feed
      changed c d x =
          if c
          then (if d then record x { offered = x.offered ++ fault_bytes pfd last' } else x)
          else record x { last_tvs = λ i. if i == pfd.tgid then pfd.tv else x.last_tvs i }

      go : (c d : Bool) → Agree tgid last (changed c d s) (changed c d u)
      go true true = record {
        same_sent = ap (λ l. l ++ fault_bytes pfd last') h.same_sent;
        same_last = h.same_last;
        its_last = h.its_last;
      }
      go true false = h
      go false d = record {
        same_sent = h.same_sent;
        same_last = λ i far. ap (λ t. if i == pfd.tgid then pfd.tv else t) (h.same_last i far);
        its_last = rw (ne→== tgid pfd.tgid (λ e. ne (sym e))) h.its_last;
      }

  others-Agree :
      (tgid : ℕ) (last : Timeval) (others : List FaultRead) (s u : Feed)
      → All (OtherRead tgid) others
      → Agree tgid last s u
      → (t v : Feed) × (reader_loop begin_sc end_sc others s ≡ some t)
        × ((more : List FaultRead)
            → reader_loop begin_sc end_sc (others ++ more) u ≡ reader_loop begin_sc end_sc more v)
        × Agree tgid last t v
  unfolding OtherRead reader_loop
  others-Agree tgid last [] s u all h = (s, u, refl, λ more. refl, h)
  others-Agree tgid last (broken ∷ others) s u all h = absurd all.0
  others-Agree tgid last (nothing ∷ others) s u all h = others-Agree tgid last others s u all.1 h
  others-Agree tgid last (whole pfd ∷ others) s u all h =
      let (fits, pid, ne) = all.0 in
      let s1 : Feed = after_with (s.last_tvs pfd.tgid) pfd s in
      let u1 : Feed = after_with (s.last_tvs pfd.tgid) pfd u in
      let eu : on_fault begin_sc end_sc pfd u ≡ some u1 =
        on_fault_lem pfd u fits pid
        ∙ ap (λ l. some (after_with l pfd u)) (h.same_last pfd.tgid ne) in
      let (t, v, et, ev, a) =
        others-Agree tgid last others s1 u1 all.1
          (after_with-Agree tgid last (s.last_tvs pfd.tgid) pfd s u ne h) in
      (
        t,
        v,
        ap (λ o. o >>= λ x. reader_loop begin_sc end_sc others x) (on_fault_lem pfd s fits pid)
            ∙ et,
        λ more. ap (λ o. o >>= λ x. reader_loop begin_sc end_sc (others ++ more) x) eu ∙ ev more,
        a,
      )

  -- For a struct that says that a fault of a process has begun, then reads that bring structs of
  -- other processes or nothing, then a struct that says that a fault of the process has ended: the
  -- loop calls `write` with what it does for the reads between alone, and behind it, if the fault has taken more
  -- than 100 microseconds, two well-formed entries with the times of its begin and its end; and
  -- nothing if it has not.
  pub fault_logged :
      (b e : Pfdura) (others : List FaultRead) (s : Feed)
      → b.complete ≡ false
      → e.complete ≡ true
      → e.tgid ≡ b.tgid
      → b.tgid < 65536
      → b.pid < 2147483648
      → e.pid < 2147483648
      → All (OtherRead b.tgid) others
      → (t u : Feed) × (reader_loop begin_sc end_sc others s ≡ some t)
        × (reader_loop begin_sc end_sc (whole b ∷ (others ++ (whole e ∷ []))) s ≡ some u)
        × (u.offered ≡ t.offered ++ log_bytes (fault_entries begin_sc end_sc b e))
        × All IsEntry (fault_entries begin_sc end_sc b e)
  unfolding reader_loop
  fault_logged b e others s begins ends same fits b_pid e_pid all =
      let begun : Feed = record s { last_tvs = λ i. if i == b.tgid then b.tv else s.last_tvs i } in
      let first : on_fault begin_sc end_sc b s ≡ some begun =
        on_fault_lem b s fits b_pid ∙ ap (λ c. some (changed c (s.last_tvs b.tgid) b s)) begins in
      let (t, v, et, ev, a) = others-Agree b.tgid b.tv others s begun all (record {
        same_sent = refl;
        same_last = λ i far. rw (ne→== i b.tgid far);
        its_last = rw (==_refl b.tgid);
      }) in
      let e_fits : e.tgid < 65536 = omega (arith, same, fits) in
      let d : Bool = ltb_ℤ (pos 100) (duration b.tv e.tv) in
      let last : on_fault begin_sc end_sc e v ≡ some (ended d v) =
        on_fault_lem e v e_fits e_pid
        ∙ ap (λ l. some (after_with l e v)) (ap v.last_tvs same ∙ a.its_last)
        ∙ ap (λ c. some (changed c b.tv e v)) ends in
      (
        t,
        ended d v,
        et,
        ap (λ o. o >>= λ x. reader_loop begin_sc end_sc (others ++ (whole e ∷ [])) x) first
            ∙ ev (whole e ∷ [])
            ∙ ap (λ o. o >>= λ x. some x) last,
        sends d t v a.same_sent,
        formed d e_fits,
      )
    where
      changed : Bool → Timeval → Pfdura → Feed → Feed
      changed c last pfd x =
          if c
          then (if ltb_ℤ (pos 100) (duration last pfd.tv)
              then record x { offered = x.offered ++ fault_bytes pfd last }
              else x)
          else record x { last_tvs = λ i. if i == pfd.tgid then pfd.tv else x.last_tvs i }

      ended : Bool → Feed → Feed
      ended d x = if d then record x { offered = x.offered ++ fault_bytes e b.tv } else x

      said : Bool → List Entry
      said d =
          if d
          then bare (fault_frozen begin_sc e b.tv) ∷ bare (fault_frozen end_sc e e.tv) ∷ []
          else []

      sends :
          (d : Bool) (t v : Feed)
          → v.offered ≡ t.offered
          → (ended d v).offered ≡ t.offered ++ log_bytes (said d)
      sends true t v h =
          ap (λ l. l ++ fault_bytes e b.tv) h
          ∙ ap (λ l. t.offered ++ (entry_bytes (bare (fault_frozen begin_sc e b.tv)) ++ l))
              (sym (append-nil (entry_bytes (bare (fault_frozen end_sc e e.tv)))))
      sends false t v h = h ∙ sym (append-nil t.offered)

      formed : (d : Bool) → e.tgid < 65536 → All IsEntry (said d)
      formed true f = (
        bare-IsEntry begin_sc e b.tv begin_fits f e_pid,
        (bare-IsEntry end_sc e e.tv end_fits f e_pid, tt),
      )
      formed false f = tt
