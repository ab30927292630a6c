-- ===== src/Wrap/Safety/Calls.antt =====
-- Every wrapper of trace/vfd.c but `bind` keeps the plugins' data in order.
use borderpatrol.Base.{
  ℕ, zero, suc, ◌≡◌, refl, Bool, true, false, Option, none, some, List, ltb, ◌==◌, if◌then◌else◌,
  ◌>>=◌, ◌>>◌, assert,
}
use borderpatrol.Base.Int.{ℤ, pos, negsuc, eqb_ℤ}
use borderpatrol.Protocol.{Event}
use borderpatrol.Protocol.Dispatch.{Dispatcher}
use borderpatrol.Vfd.{Vfd, VfdType, vfd_pipe, vfd_sock, vfd_file, vfd_tab_init_one}
use borderpatrol.Vfd.Write.{dup_vfd}
use borderpatrol.Wrap.{Process, Config, update, index_of, logged, max_fds}
use borderpatrol.Wrap.Files.{
  opened, opened_if, duplicated, duplicated_from, shut, closed, pipe, dup, dup2, fcntl, socket,
  open_file, creat, close, fresh, logd_fd,
}
use borderpatrol.Wrap.Safety.Input.{IsSafeVfd}

-- Every descriptor on which a plugin has been found has data of that plugin's own type.
abbrev pub IsSafe : Process → Type 0
IsSafe p = (fd : ℕ) → IsSafeVfd (p.vfd_tab fd)

abbrev pub IsSafeTab : (ℕ → Vfd) → Type 0
IsSafeTab f = (fd : ℕ) → IsSafeVfd (f fd)

abbrev pub IfSafe : Option Process → Type 0
IfSafe none = Unit
IfSafe (some p) = IsSafe p

abbrev pub AfterSafe {ℓ} : {A : Type ℓ} → Option (A × Process) → Type 0
AfterSafe none = Unit
AfterSafe (some t) = IsSafe t.1

pub update-IsSafe :
    (f : ℕ → Vfd) (fd : ℕ) (v : Vfd) → IsSafeTab f → IsSafeVfd v → IsSafeTab (update f fd v)
update-IsSafe f fd v h k i = go (i == fd)
  where
    go : (b : Bool) → IsSafeVfd (if b then v else f i)
    go true = k
    go false = h i

pub returned-AfterSafe :
    (r : ℤ) (e : Event) (o : Option Process)
    → IfSafe o
    → AfterSafe (o >>= λ p1. some (r, logged e p1))
returned-AfterSafe r e none h = tt
returned-AfterSafe r e (some p) h = h

-- A wrapper that is off, and one that is not.
pub on_or_off :
    (b : Bool) (r : ℤ) (p : Process) (o : Option (ℤ × Process))
    → IsSafe p
    → AfterSafe o
    → AfterSafe (if b then some (r, p) else o)
on_or_off true r p o h k = h
on_or_off false r p o h k = k

pub indexed :
    (i : Option ℕ) (r : ℤ) (p : Process) (f : ℕ → Option (ℤ × Process))
    → IsSafe p
    → ((fd : ℕ) → AfterSafe (f fd))
    → AfterSafe (elim i [ none ↦ some (r, p) | some fd ↦ f fd ])
indexed none r p f h k = h
indexed (some fd) r p f h k = k fd

pub opened-IfSafe : (type : VfdType) (fd : ℕ) (p : Process) → IsSafe p → IfSafe (opened type fd p)
unfolding opened vfd_tab_init_one
opened-IfSafe type fd p h = go (ltb fd max_fds)
  where
    go :
        (b : Bool)
        → IfSafe (
            assert b
            >> some (record p {
              tracked = update p.tracked fd true;
              vfd_tab = update p.vfd_tab fd (fresh type (p.vfd_tab fd));
            }))
    go true = update-IsSafe p.vfd_tab fd (fresh type (p.vfd_tab fd)) h tt
    go false = tt

opened_if-IfSafe : (type : VfdType) (r : ℤ) (p : Process) → IsSafe p → IfSafe (opened_if type r p)
unfolding opened_if
opened_if-IfSafe type (negsuc n) p h = h
opened_if-IfSafe type (pos fd) p h = opened-IfSafe type fd p h

duplicated-IfSafe : (oldfd : ℕ) (r : ℤ) (p : Process) → IsSafe p → IfSafe (duplicated oldfd r p)
unfolding duplicated dup_vfd vfd_tab_init_one
duplicated-IfSafe oldfd (negsuc n) p h = h
duplicated-IfSafe oldfd (pos fd) p h = go (ltb oldfd max_fds) (ltb fd max_fds)
  where
    go :
        (a b : Bool)
        → IfSafe (
            assert a
            >> (assert b
                >> some (record p {
                  tracked = update p.tracked fd true;
                  vfd_tab = update p.vfd_tab fd (dup_vfd (p.vfd_tab oldfd));
                })))
    go true true = update-IsSafe p.vfd_tab fd (dup_vfd (p.vfd_tab oldfd)) h tt
    go true false = tt
    go false b = tt

duplicated_from-IfSafe : (fd r : ℤ) (p : Process) → IsSafe p → IfSafe (duplicated_from fd r p)
unfolding duplicated_from
duplicated_from-IfSafe (pos fd) r p h = duplicated-IfSafe fd r p h
duplicated_from-IfSafe (negsuc n) (negsuc m) p h = h
duplicated_from-IfSafe (negsuc n) (pos m) p h = tt

closed-IsSafe : (fd : ℕ) (p : Process) → IsSafe p → IsSafe (closed fd p)
unfolding closed shut
closed-IsSafe fd p h =
    update-IsSafe p.vfd_tab fd (shut (p.vfd_tab fd)).0 h
      (go (p.vfd_tab fd) (p.vfd_tab fd).pp_dispatcher refl)
  where
    go :
        (v : Vfd) (q : Option Dispatcher)
        → v.pp_dispatcher ≡ q
        → IsSafeVfd (shut (record v { pp_dispatcher = q })).0
    go v none e = tt
    go v (some d) e = tt

module _ (k : Config) (p : Process) (h : IsSafe p) where
  pub pipe-AfterSafe : (r : ℤ) (fd0 fd1 : ℕ) → AfterSafe (pipe k r fd0 fd1 p)
  unfolding pipe
  pipe-AfterSafe (negsuc n) fd0 fd1 = on_or_off k.bb_disable_all (negsuc n) p _ h h
  pipe-AfterSafe (pos (suc n)) fd0 fd1 = on_or_off k.bb_disable_all (pos (suc n)) p _ h h
  pipe-AfterSafe (pos zero) fd0 fd1 = on_or_off k.bb_disable_all (pos 0) p _ h (
      returned-AfterSafe (pos 0) _ (opened vfd_pipe fd0 p >>= opened vfd_pipe fd1)
        (second (opened vfd_pipe fd0 p) (opened-IfSafe vfd_pipe fd0 p h)))
    where
      second : (o : Option Process) → IfSafe o → IfSafe (o >>= opened vfd_pipe fd1)
      second none k = tt
      second (some q) k = opened-IfSafe vfd_pipe fd1 q k

  pub dup-AfterSafe : (oldfd newfd : ℤ) → AfterSafe (dup k oldfd newfd p)
  unfolding dup
  dup-AfterSafe oldfd newfd = on_or_off k.bb_disable_all newfd p _ h (
      indexed (index_of oldfd) newfd p _ h (λ old.
        returned-AfterSafe newfd _ (duplicated old newfd p) (duplicated-IfSafe old newfd p h)))

  pub dup2-AfterSafe : (oldfd newfd r : ℤ) → AfterSafe (dup2 k oldfd newfd r p)
  unfolding dup2
  dup2-AfterSafe oldfd newfd r = on_or_off k.bb_disable_all r p _ h (
      indexed (index_of oldfd) r p _ h (λ old.
        indexed (index_of newfd) r p _ h
          (λ new. returned-AfterSafe r _ (duplicated old r p) (duplicated-IfSafe old r p h))))

  pub fcntl-AfterSafe : (fd : ℤ) (is_dupfd : Bool) (r : ℤ) → AfterSafe (fcntl k fd is_dupfd r p)
  unfolding fcntl
  fcntl-AfterSafe fd true r =
      on_or_off k.bb_disable_all r p _ h
        (returned-AfterSafe r _ (duplicated_from fd r p) (duplicated_from-IfSafe fd r p h))
  fcntl-AfterSafe fd false r = on_or_off k.bb_disable_all r p _ h h

  pub socket-AfterSafe :
      (domain type protocol s : ℤ) → AfterSafe (socket k domain type protocol s p)
  unfolding socket
  socket-AfterSafe domain type protocol s =
      on_or_off k.bb_disable_all s p _ h
        (returned-AfterSafe s _ (opened_if vfd_sock s p) (opened_if-IfSafe vfd_sock s p h))

  pub open_file-AfterSafe :
      (pathname : List ℕ) (flags r : ℤ) → AfterSafe (open_file k pathname flags r p)
  unfolding open_file
  open_file-AfterSafe pathname flags r =
      on_or_off k.bb_disable_all r p _ h
        (returned-AfterSafe r _ (opened_if vfd_file r p) (opened_if-IfSafe vfd_file r p h))

  pub creat-AfterSafe : (pathname : List ℕ) (r : ℤ) → AfterSafe (creat k pathname r p)
  unfolding creat
  creat-AfterSafe pathname r =
      on_or_off k.bb_disable_all r p _ h
        (returned-AfterSafe r _ (opened_if vfd_file r p) (opened_if-IfSafe vfd_file r p h))

  pub close-AfterSafe : (s r : ℤ) → AfterSafe (close k s r p)
  unfolding close
  close-AfterSafe s r = on_or_off (eqb_ℤ s (pos logd_fd)) (pos 1) p _ h (
      on_or_off k.bb_disable_all r p _ h
        (indexed (index_of s) r p _ h (λ fd. closed-IsSafe fd p h)))
