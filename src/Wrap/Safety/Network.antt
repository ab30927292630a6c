-- ===== src/Wrap/Safety/Network.antt =====
-- The wrappers of trace/vfd.c for sockets keep plugins and data together.
use borderpatrol.Base.{ℕ, Bool, true, false, Option, none, some, List, ◌++◌, ◌>>=◌}
use borderpatrol.Base.Int.{ℤ, pos, negsuc}
use borderpatrol.Base.Text.{codes}
use borderpatrol.Protocol.{Event}
use borderpatrol.Protocol.Dispatch.{Dispatcher, Garbage, pp_id_bind}
use borderpatrol.Protocol.Dispatch.Fits.{pp_init-Fits}
use borderpatrol.Vfd.{vfd_sock}
use borderpatrol.Wrap.{Process, Config, index_of, logged, logged_if, clear_readable_cache}
use borderpatrol.Wrap.Files.{opened}
use borderpatrol.Wrap.Network.{
  Names, name_or_other, address_or, attached, listen, accepted, accept, connect_event,
  after_connect, connect,
}
use borderpatrol.Wrap.Safety.Calls.{
  IsSafe, IfSafe, AfterSafe, update-IsSafe, on_or_off, indexed, opened-IfSafe,
}

attached-IsSafe :
    (g : Garbage) (t : Option Dispatcher × List Event) (fd : ℕ) (p : Process)
    → IsSafe p
    → IsSafe (attached g t fd p)
unfolding attached
attached-IsSafe g (none, events) fd p h = update-IsSafe p.vfd_tab fd _ h tt
attached-IsSafe g (some d, events) fd p h =
    update-IsSafe p.vfd_tab fd _ h (pp_init-Fits d g (pos fd) (p.vfd_tab fd).pp_data)

-- A call whose text may be too long.
named-IfSafe :
    {A B : Type 0} (o : Option A) (q : Option B) (f : A → B → Option Process)
    → ((a : A) (b : B) → IfSafe (f a b))
    → IfSafe (o >>= λ a. q >>= λ b. f a b)
named-IfSafe none q f h = tt
named-IfSafe (some a) none f h = tt
named-IfSafe (some a) (some b) f h = h a b

module _ (k : Config) (g : Garbage) where
  pub connect_event-IfSafe :
      (s : ℕ) (r : ℤ) (names : Names) (p : Process)
      → IsSafe p
      → IfSafe (connect_event k g s r names p)
  unfolding connect_event
  connect_event-IfSafe s r names p h =
      named-IfSafe (name_or_other names.peer 1024) (name_or_other names.sock 1024) _ (λ a b.
        attached-IsSafe g _ s _
          (update-IsSafe p.vfd_tab s (record (p.vfd_tab s) { in_prog = false }) h (h s)))

  after_connect-IfSafe :
      (s : ℕ) (r : ℤ) (in_progress : Bool) (names : Names) (p : Process)
      → IsSafe p
      → IfSafe (after_connect k g s r in_progress names p)
  unfolding after_connect
  after_connect-IfSafe s (pos n) b names p h = connect_event-IfSafe s (pos n) names p h
  after_connect-IfSafe s (negsuc n) true names p h =
      update-IsSafe p.vfd_tab s (record (p.vfd_tab s) { in_prog = true }) h (h s)
  after_connect-IfSafe s (negsuc n) false names p h = h

  accepted-AfterSafe :
      (new_fd : ℤ) (names : Names) (p : Process)
      → IsSafe p
      → AfterSafe (accepted k g new_fd names p)
  unfolding accepted
  accepted-AfterSafe (negsuc n) names p h = h
  accepted-AfterSafe (pos new) names p h =
      go (opened vfd_sock new p) (opened-IfSafe vfd_sock new p h) (name_or_other names.peer 512)
        (name_or_other names.sock 512)
    where
      go :
          (o : Option Process)
          → IfSafe o
          → (a b : Option (List ℕ))
          → AfterSafe (
              o >>= λ p1. a >>= λ r. b >>= λ l. some (
                r ++ (codes "->" ++ l),
                attached g
                    (pp_id_bind k.getportbyname k.bb_disable_pp (address_or names.sock names.stale))
                    new
                    p1,
              ))
      go none i a b = tt
      go (some p1) i none b = tt
      go (some p1) i (some r) none = tt
      go (some p1) i (some r) (some l) = attached-IsSafe g _ new p1 i

  pub accept-AfterSafe :
      (s new_fd : ℤ) (names : Names) (p : Process)
      → IsSafe p
      → AfterSafe (accept k g s new_fd names p)
  unfolding accept clear_readable_cache
  accept-AfterSafe s new_fd names p h = on_or_off k.bb_disable_all new_fd p _ h (
      indexed (index_of s) new_fd p _ h
        (λ fd. texted new_fd _ _ (accepted-AfterSafe new_fd names _ h)))
    where
      texted :
          (r : ℤ) (e : List ℕ → Event) (o : Option (List ℕ × Process))
          → AfterSafe o
          → AfterSafe (o >>= λ t. some (r, logged (e t.0) t.1))
      texted r e none i = tt
      texted r e (some t) i = i

  pub connect-AfterSafe :
      (s r : ℤ) (in_progress : Bool) (names : Names) (p : Process)
      → IsSafe p
      → AfterSafe (connect k g s r in_progress names p)
  unfolding connect
  connect-AfterSafe s r b names p h =
      on_or_off k.bb_disable_all r p _ h
        (indexed (index_of s) r p _ h (λ fd. same r _ (after_connect-IfSafe fd r b names _ h)))
    where
      same : (r : ℤ) (o : Option Process) → IfSafe o → AfterSafe (o >>= λ p1. some (r, p1))
      same r none i = tt
      same r (some q) i = i

  pub listen-AfterSafe :
      (s backlog r : ℤ) (p : Process) → IsSafe p → AfterSafe (listen k s backlog r p)
  unfolding listen
  listen-AfterSafe s backlog r p h =
      on_or_off k.bb_disable_all r p _ h
        (indexed (index_of s) r p _ h (λ fd. logged_or k.debug_events _))
    where
      logged_or : (b : Bool) (e : Event) → AfterSafe {A = ℤ} (some (r, logged_if b e p))
      logged_or true e = h
      logged_or false e = h
