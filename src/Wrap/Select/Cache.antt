-- ===== src/Wrap/Select/Cache.antt =====
-- The cache of `speak_select` of trace/vfd.c from one call to the next.
use borderpatrol.Base.{
  ℕ, suc, ◌<◌, ◌≤◌, ◌≡◌, refl, sym, ◌∙◌, ap, subst, inl, inr, ◌⊎◌, Bool, true, false, ◌&&◌, none,
  some, arith, ltb, if◌then◌else◌, ◌==◌, ==_refl, ne→==, le→leb, lt→ltb,
}
use borderpatrol.Base.Int.{pos, negsuc}
use borderpatrol.Protocol.{event_0, sys_pp_iso_poll}
use borderpatrol.Protocol.Dispatch.{Garbage}
use borderpatrol.Wrap.{update, max_fds, Process, Config, logged_if}
use borderpatrol.Wrap.Network.{Names}
use borderpatrol.Wrap.Select.{
  vfd_sel_read, Sets, only, cache, which, in_both, first, clear_cached, cached_too, Selected,
  Answer, cached_or_asked, asked, from_cache, speak_select, connected_if,
}
use borderpatrol.Wrap.Select.First.{IsFirst, first-IsFirst, first-none}
use borderpatrol.Wrap.Select.Answers.{speak_select_found}

-- The caller asks whether one descriptor can be read.
abbrev pub to_read : ℕ → Sets
to_read fd = only fd vfd_sel_read

which_in_read :
    (fd j : ℕ) (c : Sets)
    → which (in_both (to_read fd) c) j
      ≡ (if (j == fd) && c.readfds j then some vfd_sel_read else none)
which_in_read fd j c = ground arith

cached-IsFirst :
    (n fd : ℕ) (c : Sets)
    → fd < n
    → c.readfds fd ≡ true
    → IsFirst 0 n (which (in_both (to_read fd) c)) fd vfd_sel_read
cached-IsFirst n fd c lt e = record {
  from = omega arith;
  below = omega (arith, lt);
  here = which_in_read fd fd c ∙ rw (==_refl fd, e);
  least = λ j ge lt'. which_in_read fd j c ∙ rw (ne→== j fd (λ same. omega (arith, same, lt')));
}

module _ (k : Config) (g : Garbage) (names : ℕ → Names) (n fd : ℕ) (a : Answer) (p : Process)
    (le : n ≤ max_fds) (lt : fd < n) (quiet : (p.vfd_tab fd).in_prog ≡ false) where
  abbrev said : Selected
  said = record { ret = pos 1; rfd = pos fd; sets = to_read fd }

  -- A descriptor that the cache says can be read is returned, and the kernel is not asked.
  pub speak_select_cached :
      p.vsel_read fd ≡ true
      → speak_select k g names n (to_read fd) a p
        ≡ some (said, record p { vsel_read = update p.vsel_read fd false })
  unfolding cached_or_asked clear_cached
  speak_select_cached e =
      speak_select_found k g names n (to_read fd) a p
        (record p { vsel_read = update p.vsel_read fd false }) fd said le
        (ap (λ o. cached_or_asked n a o p)
          (first-IsFirst n 0 (which (in_both (to_read fd) (cache p))) fd vfd_sel_read
            (cached-IsFirst n fd (cache p) lt e)))
        refl quiet

==_cases : (i j : ℕ) → ((i == j) ≡ false) ⊎ (i ≡ j)
==_cases i j = ground arith

and_none : (b : Bool) → (if b && false then some vfd_sel_read else none) ≡ none
and_none true = refl
and_none false = refl

not_cached :
    (p : Process) (fd j : ℕ)
    → p.vsel_read fd ≡ false
    → ((j == fd) ≡ false) ⊎ (j ≡ fd)
    → (if (j == fd) && p.vsel_read j then some vfd_sel_read else none) ≡ none
not_cached p fd j e (inl ne) = rw ne
not_cached p fd j e (inr same) = rw (ap p.vsel_read same ∙ e) (and_none (j == fd))

-- A descriptor that the cache does not say can be read is the kernel's to answer for.
pub speak_select_asks :
    (k : Config) (g : Garbage) (names : ℕ → Names) (n fd : ℕ) (a : Answer) (p : Process)
    → n ≤ max_fds
    → p.vsel_read fd ≡ false
    → a.r ≡ pos 0
    → speak_select k g names n (to_read fd) a p
      ≡ some (record { ret = pos 0; rfd = negsuc 0; sets = a.left }, p)
unfolding speak_select connected_if cached_or_asked asked
speak_select_asks k g names n fd a p le e none_ready = rw (
  le→leb n max_fds le,
  first-none n 0 (which (in_both (to_read fd) (cache p)))
      (λ j ge lt. which_in_read fd j (cache p) ∙ not_cached p fd j e (==_cases j fd)),
  none_ready,
)

-- For a descriptor that the cache says can be read, and a kernel that has nothing to report: a first
-- call that asks for it returns it, and leaves its bytes as they are; a second such call, with no read
-- between them, is left to the kernel, and returns that there is nothing.
pub select_forgets :
    (k : Config) (g : Garbage) (names : ℕ → Names) (n fd : ℕ) (a : Answer) (p : Process)
    → n ≤ max_fds
    → fd < n
    → (p.vfd_tab fd).in_prog ≡ false
    → p.vsel_read fd ≡ true
    → a.r ≡ pos 0
    → (t : Selected) × (p1 : Process) × (speak_select k g names n (to_read fd) a p ≡ some (t, p1))
      × (t.rfd ≡ pos fd)
      × (p1.vfd_tab fd ≡ p.vfd_tab fd)
      × (speak_select k g names n (to_read fd) a p1
          ≡ some (record { ret = pos 0; rfd = negsuc 0; sets = a.left }, p1))
select_forgets k g names n fd a p le lt quiet e none_ready =
    let p1 : Process = record p { vsel_read = update p.vsel_read fd false } in
    (
      said k g names n fd a p le lt quiet,
      p1,
      speak_select_cached k g names n fd a p le lt quiet e,
      refl,
      refl,
      speak_select_asks k g names n fd a p1 le (rw (==_refl fd)) none_ready,
    )

cache-cached_too :
    (b : Bool) (r n : ℕ) (a : Sets) (p : Process)
    → cache (cached_too n a (logged_if b (event_0 sys_pp_iso_poll (pos (suc r))) p))
      ≡ cache (cached_too n a p)
unfolding cached_too
cache-cached_too true r n a p = refl
cache-cached_too false r n a p = refl

-- If nothing that is asked for is cached, the kernel reports something, and the cache holds a
-- descriptor for reading that has no connect in progress, below n and below all else that is cached
-- or reported: `speak_select` returns it in the set for reading, asked for or not.
pub select_returns_cached :
    (k : Config) (g : Garbage) (names : ℕ → Names) (n fd r : ℕ) (want : Sets) (a : Answer)
    (p : Process)
    → n ≤ max_fds
    → fd < n
    → (p.vfd_tab fd).in_prog ≡ false
    → ((i : ℕ) → i < n → which (in_both want (cache p)) i ≡ none)
    → a.r ≡ pos (suc r)
    → p.vsel_read fd ≡ true
    → ((i : ℕ) → i < fd → which (cache (cached_too n a.left p)) i ≡ none)
    → (p1 : Process) × (speak_select k g names n want a p
        ≡ some (record { ret = pos 1; rfd = pos fd; sets = to_read fd }, p1))
unfolding cached_or_asked asked cached_too
select_returns_cached k g names n fd r want a p le lt quiet none_cached some_ready e least =
    let p0 : Process = logged_if (ltb 1 (suc r)) (event_0 sys_pp_iso_poll (pos (suc r))) p in
    let p1 : Process = cached_too n a.left p0 in
    let found : first n 0 (which (cache p1)) ≡ some (fd, vfd_sel_read) =
      first-IsFirst n 0 (which (cache p1)) fd vfd_sel_read (record {
        from = omega arith;
        below = omega (arith, lt);
        here =
            subst (λ c. which c fd ≡ some vfd_sel_read)
              (sym (cache-cached_too (ltb 1 (suc r)) r n a.left p))
              (rw (lt→ltb fd n lt, e, joined_here (a.left.readfds fd)));
        least = λ j ge lt'.
            ap (λ c. which c j) (cache-cached_too (ltb 1 (suc r)) r n a.left p) ∙ least j lt';
      }) in
    (
      p1,
      speak_select_found k g names n want a p p1 fd
          (record { ret = pos 1; rfd = pos fd; sets = to_read fd }) le
          (ap (λ o. cached_or_asked n a o p)
              (first-none n 0 (which (in_both want (cache p)))
                (λ j ge lt'. none_cached j (omega (arith, lt'))))
            ∙ ap (λ z. asked n a z p) some_ready
            ∙ ap (λ o. (from_cache o, p1)) found)
          refl (still_quiet (ltb 1 (suc r))),
    )
  where
    joined_here : (b : Bool) → (if b then true else true) ≡ true
    joined_here true = refl
    joined_here false = refl

    still_quiet :
        (b : Bool)
        → ((cached_too n a.left (logged_if b (event_0 sys_pp_iso_poll (pos (suc r))) p)).vfd_tab
            fd).in_prog
          ≡ false
    still_quiet true = quiet
    still_quiet false = quiet
