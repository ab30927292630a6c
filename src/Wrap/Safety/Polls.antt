-- ===== src/Wrap/Safety/Polls.antt =====
-- `select` and `poll` of trace/vfd.c keep plugins and data together.
use borderpatrol.Base.{
  ℕ, zero, suc, ◌+◌, Bool, true, false, Option, none, some, List, ltb, if◌then◌else◌, ◌>>=◌, ◌>>◌,
  assert, leb, length,
}
use borderpatrol.Base.Int.{ℤ, pos, negsuc}
use borderpatrol.Protocol.{
  event_0, event_ii, event_iii, sys_pp_iso_poll, sys_select, sys_poll, sys_poll_begin,
}
use borderpatrol.Protocol.Dispatch.{Garbage}
use borderpatrol.Wrap.{Process, Config, logged, logged_if, max_fds}
use borderpatrol.Wrap.Network.{Names, connect_event}
use borderpatrol.Wrap.Select.{
  Rwe, Sets, empty_sets, Selected, Answer, first, which, in_both, cache, clear_cached, cached_too,
  asked, cached_or_asked, connected_if, speak_select, select, vfd_sel_read, vfd_sel_write,
  vfd_sel_except,
}
use borderpatrol.Wrap.Poll.{Pollfd, poll, wanted, maxfd, reported, tv_of}
use borderpatrol.Logd.{Timeval}
use borderpatrol.Wrap.Safety.Calls.{IsSafe, IfSafe, AfterSafe}
use borderpatrol.Wrap.Safety.Network.{connect_event-IfSafe}

module _ (k : Config) (g : Garbage) where
  cached_or_asked-IsSafe :
      (n : ℕ) (a : Answer) (o : Option (ℕ × Rwe)) (p : Process)
      → IsSafe p
      → IsSafe (cached_or_asked n a o p).1
  unfolding cached_or_asked clear_cached asked cached_too
  cached_or_asked-IsSafe n a (some (fd, vfd_sel_read)) p h = h
  cached_or_asked-IsSafe n a (some (fd, vfd_sel_write)) p h = h
  cached_or_asked-IsSafe n a (some (fd, vfd_sel_except)) p h = h
  cached_or_asked-IsSafe n a none p h = go a.r
    where
      go : (r : ℤ) → IsSafe (asked n a r p).1
      go (negsuc r) = h
      go (pos zero) = h
      go (pos (suc r)) = counted (ltb 1 (suc r))
        where
          counted :
              (b : Bool)
              → IsSafe (cached_too n a.left (logged_if b (event_0 sys_pp_iso_poll (pos (suc r))) p))
          counted true = h
          counted false = h

  connected_if-IfSafe :
      (rfd : ℤ) (names : ℕ → Names) (p : Process) → IsSafe p → IfSafe (connected_if k g rfd names p)
  unfolding connected_if
  connected_if-IfSafe (negsuc n) names p h = h
  connected_if-IfSafe (pos fd) names p h = go (p.vfd_tab fd).in_prog
    where
      go : (b : Bool) → IfSafe (if b then connect_event k g fd (pos 1) (names fd) p else some p)
      go true = connect_event-IfSafe k g fd (pos 1) (names fd) p h
      go false = h

  speak_select-AfterSafe :
      (names : ℕ → Names) (n : ℕ) (want : Sets) (a : Answer) (p : Process)
      → IsSafe p
      → AfterSafe (speak_select k g names n want a p)
  unfolding speak_select
  speak_select-AfterSafe names n want a p h =
      let t : Selected × Process =
        cached_or_asked n a (first n 0 (which (in_both want (cache p)))) p in
      go (leb n max_fds) t.0 (connected_if k g t.0.rfd names t.1) (
        connected_if-IfSafe t.0.rfd names t.1
          (cached_or_asked-IsSafe n a (first n 0 (which (in_both want (cache p)))) p h))
    where
      go :
          (b : Bool) (t : Selected) (o : Option Process)
          → IfSafe o
          → AfterSafe (◌>>◌ {B = Selected × Process} (assert b) (o >>= λ p1. some (t, p1)))
      go false t o i = tt
      go true t none i = tt
      go true t (some q) i = i

  pub select-AfterSafe :
      (names : ℕ → Names) (n : ℕ) (want : Sets) (a : Answer) (p : Process)
      → IsSafe p
      → AfterSafe (select k g names n want a p)
  unfolding select
  select-AfterSafe names n want a p h =
      go k.bb_disable_all (speak_select k g names n want a _)
        (speak_select-AfterSafe names n want a _ h)
    where
      go :
          (b : Bool) (o : Option (Selected × Process))
          → AfterSafe o
          → AfterSafe (
              if b
              then some (record { ret = a.r; rfd = negsuc 0; sets = a.left }, p)
              else o >>= λ t. some (t.0, logged (event_ii sys_select t.0.ret (pos n) t.0.rfd) t.1))
      go true o i = h
      go false none i = tt
      go false (some t) i = i

  pub poll-IfSafe :
      (names : ℕ → Names) (ufds : List Pollfd) (timeout : ℤ)
      (real_select : ℕ → Sets → Option Timeval → Answer) (real_poll : ℤ × List Pollfd) (p : Process)
      → IsSafe p
      → IfSafe (poll k g names ufds timeout real_select real_poll p >>= λ t. some t.2)
  unfolding poll
  poll-IfSafe names ufds timeout real_select real_poll p h =
      go k.bb_disable_all (wanted ufds empty_sets)
    where
      n : ℕ
      n = maxfd 0 ufds + 1

      p1 : Process
      p1 = logged (event_ii sys_poll_begin (pos 0) (pos (length ufds)) timeout) p

      reply : Selected × Process → Option (ℤ × List Pollfd × Process)
      reply t = some (
        t.0.ret,
        reported t.0.rfd t.0.sets ufds,
        logged (event_iii sys_poll t.0.ret (pos (length ufds)) timeout t.0.rfd) t.1,
      )

      replied :
          (o : Option (Selected × Process)) → AfterSafe o → IfSafe (o >>= reply >>= λ t. some t.2)
      replied none i = tt
      replied (some t) i = i

      go :
          (b : Bool) (o : Option Sets)
          → IfSafe (
              (if b
                then some (real_poll.0, real_poll.1, p)
                else o >>= λ a.
                    speak_select k g names n a (real_select n a (tv_of timeout)) p1 >>= reply)
              >>= λ t. some t.2)
      go true o = h
      go false none = tt
      go false (some a) = replied _ (speak_select-AfterSafe names n a _ p1 h)
