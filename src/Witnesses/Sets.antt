-- ===== src/Witnesses/Sets.antt =====
-- The theorems on `speak_select` at concrete inputs: trace/vfd.c.
use borderpatrol.Base.{ℕ, ◌≡◌, ◌<◌, refl, true, false, none, some, arith, [], ◌&&◌}
use borderpatrol.Base.Int.{pos, negsuc}
use borderpatrol.Wrap.{Process, no_fd, update}
use borderpatrol.Wrap.Select.{
  Rwe, vfd_sel_read, vfd_sel_write, vfd_sel_except, Answer, Selected, empty_sets, speak_select,
  connected_if, cached_or_asked, cached_too, asked, first, which,
}
use borderpatrol.Wrap.Select.Answers.{Member, IsAnswer, speak_select_asked}
use borderpatrol.Wrap.Select.Cache.{to_read, select_forgets, select_returns_cached}
use borderpatrol.Witnesses.Descriptors.{garbage, entry_before}
use borderpatrol.Witnesses.Wrappers.{config, process_of, no_names, nothing_ready}

-- Bytes are held for descriptor 4, and no connect is in progress.
abbrev quiet : Process
quiet = record (process_of (record entry_before { in_prog = false }) []) {
  vsel_read = update no_fd 4 true;
}

select_forgets_example :
    (t : Selected) × (p1 : Process) × (speak_select config garbage
        (λ i. no_names)
        7
        (to_read 4)
        nothing_ready
        quiet
      ≡ some (t, p1))
    × (t.rfd ≡ pos 4)
    × (p1.vfd_tab 4 ≡ quiet.vfd_tab 4)
    × (speak_select config garbage (λ i. no_names) 7 (to_read 4) nothing_ready p1
        ≡ some (record { ret = pos 0; rfd = negsuc 0; sets = empty_sets }, p1))
select_forgets_example =
    select_forgets config garbage (λ i. no_names) 7 4 nothing_ready quiet (omega arith)
      (omega arith) refl refl refl

-- The kernel says that descriptor 6 can be read.
abbrev six_ready : Answer
six_ready = record { r = pos 1; left = to_read 6 }

none_of_six :
    (i : ℕ)
    → i < 7
    → which
        (record {
          readfds = λ j. (to_read 6).readfds j && quiet.vsel_read j;
          writefds = λ j. (to_read 6).writefds j && quiet.vsel_write j;
          exceptfds = λ j. (to_read 6).exceptfds j && quiet.vsel_except j;
        })
        i
      ≡ none
none_of_six i lt = ground arith

below_four :
    (i : ℕ)
    → i < 4
    → which
        (record {
          readfds = (cached_too 7 (to_read 6) quiet).vsel_read;
          writefds = (cached_too 7 (to_read 6) quiet).vsel_write;
          exceptfds = (cached_too 7 (to_read 6) quiet).vsel_except;
        })
        i
      ≡ none
unfolding cached_too
below_four i lt = ground arith

select_returns_cached_example :
    (p1 : Process) × (speak_select config garbage (λ i. no_names) 7 (to_read 6) six_ready quiet
      ≡ some (record { ret = pos 1; rfd = pos 4; sets = to_read 4 }, p1))
select_returns_cached_example =
    select_returns_cached config garbage (λ i. no_names) 7 4 0 (to_read 6) six_ready quiet
      (omega arith) (omega arith) refl none_of_six refl refl below_four

asked_is_own : (i : ℕ) (rwe : Rwe) → Member (to_read 6) i rwe → Member (to_read 6) i rwe
asked_is_own i rwe m = m

none_cached : (i : ℕ) (rwe : Rwe) → i < 7 → Member empty_sets i rwe → Member (to_read 6) i rwe
none_cached i vfd_sel_read lt m = ground (arith, m)
none_cached i vfd_sel_write lt m = m
none_cached i vfd_sel_except lt m = m

abbrev nothing_cached : Process
nothing_cached = process_of (record entry_before { in_prog = false }) []

abbrev six_found : Selected
six_found = record { ret = pos 1; rfd = pos 6; sets = to_read 6 }

six_found_by :
    speak_select config garbage (λ i. no_names) 7 (to_read 6) six_ready nothing_cached
    ≡ some (six_found, cached_too 7 (to_read 6) nothing_cached)
unfolding speak_select connected_if cached_or_asked asked cached_too first
six_found_by = refl

speak_select_asked_example : IsAnswer 7 (to_read 6) 6 six_found
speak_select_asked_example =
    speak_select_asked config garbage (λ i. no_names) 7 (to_read 6) six_ready nothing_cached
      (cached_too 7 (to_read 6) nothing_cached) six_found asked_is_own none_cached six_found_by 6
      refl
