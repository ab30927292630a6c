-- ===== src/Wrap/Select/Answers.antt =====
-- What `speak_select` of trace/vfd.c answers.
use borderpatrol.Base.{
  ℕ, zero, suc, ◌<◌, ◌≤◌, ◌≡◌, refl, sym, ◌∙◌, ap, subst, inl, inr, ◌⊎◌, Bool, true, false, Option,
  none, some, arith, ltb, leb, if◌then◌else◌, ◌>>=◌, ◌>>◌, assert, le→leb,
}
use borderpatrol.Base.Int.{ℤ, pos, negsuc}
use borderpatrol.Protocol.{event_0, sys_pp_iso_poll}
use borderpatrol.Protocol.Dispatch.{Garbage}
use borderpatrol.Wrap.{FdSet, max_fds, Process, Config, logged_if}
use borderpatrol.Wrap.Network.{Names, connect_event}
use borderpatrol.Wrap.Select.{
  Rwe, vfd_sel_read, vfd_sel_write, vfd_sel_except, Sets, only, cache, which, in_both, first,
  joined, cached_too, Selected, Answer, asked, cached_or_asked, from_cache, connected_if,
  speak_select,
}
use borderpatrol.Wrap.Select.First.{first-cases}

-- A descriptor is in the set of this kind.
abbrev pub Member : Sets → ℕ → Rwe → Type 0
Member a fd vfd_sel_read = a.readfds fd ≡ true
Member a fd vfd_sel_write = a.writefds fd ≡ true
Member a fd vfd_sel_except = a.exceptfds fd ≡ true

pub which-Member : (a : Sets) (i : ℕ) (rwe : Rwe) → which a i ≡ some rwe → Member a i rwe
which-Member a i vfd_sel_read h = ground (arith, h)
which-Member a i vfd_sel_write h = ground (arith, h)
which-Member a i vfd_sel_except h = ground (arith, h)

in_both-Member : (a b : Sets) (i : ℕ) (rwe : Rwe) → Member (in_both a b) i rwe → Member a i rwe
in_both-Member a b i vfd_sel_read h = ground (arith, h)
in_both-Member a b i vfd_sel_write h = ground (arith, h)
in_both-Member a b i vfd_sel_except h = ground (arith, h)

joined_or :
    (n i : ℕ) (set cached : FdSet)
    → joined n set cached i ≡ true
    → (set i ≡ true) ⊎ (cached i ≡ true)
joined_or n i set cached h = ground (arith, h)

cached_too-Member :
    (n i : ℕ) (a : Sets) (p : Process) (rwe : Rwe)
    → Member (cache (cached_too n a p)) i rwe
    → Member a i rwe ⊎ Member (cache p) i rwe
unfolding cached_too
cached_too-Member n i a p vfd_sel_read h = joined_or n i a.readfds p.vsel_read h
cached_too-Member n i a p vfd_sel_write h = joined_or n i a.writefds p.vsel_write h
cached_too-Member n i a p vfd_sel_except h = joined_or n i a.exceptfds p.vsel_except h

-- An answer with a descriptor that has been asked for, in its set and no other.
pub record IsAnswer (n : ℕ) (want : Sets) (fd : ℕ) (t : Selected) : Type 0 where
  pub rwe : Rwe
  pub one : t.ret ≡ pos 1
  pub sets : t.sets ≡ only fd rwe
  pub in_want : Member want fd rwe
  pub below : fd < n

abbrev OnlyAsked : ℕ → Sets → Selected → Type 0
OnlyAsked n want t = (fd : ℕ) → t.rfd ≡ pos fd → IsAnswer n want fd t

found-OnlyAsked :
    (n fd' : ℕ) (rwe : Rwe) (want : Sets)
    → Member want fd' rwe
    → fd' < n
    → OnlyAsked n want (record { ret = pos 1; rfd = pos fd'; sets = only fd' rwe })
found-OnlyAsked n fd' rwe want m lt fd e =
    let same : fd' ≡ fd = cc in
    record {
      rwe = rwe;
      one = refl;
      sets = ap (λ i. only i rwe) same;
      in_want = subst (λ i. Member want i rwe) same m;
      below = subst (λ i. i < n) same lt;
    }

not_found-OnlyAsked : (n : ℕ) (want : Sets) (t : Selected) → t.rfd ≡ negsuc 0 → OnlyAsked n want t
not_found-OnlyAsked n want t e fd e' = absurd (cc)

from_cache-OnlyAsked :
    (n : ℕ) (want c : Sets)
    → ((i : ℕ) (rwe : Rwe) → i < n → Member c i rwe → Member want i rwe)
    → OnlyAsked n want (from_cache (first n 0 (which c)))
from_cache-OnlyAsked n want c within = elim (first-cases n 0 (which c)) [
  | inl (fd, rwe, found, h) ↦
      subst (λ o. OnlyAsked n want (from_cache o)) (sym found)
        (found-OnlyAsked n fd rwe want
          (within fd rwe (omega (arith, h.below)) (which-Member c fd rwe h.here))
          (omega (arith, h.below)))
  | inr (none_found, h) ↦
      subst (λ o. OnlyAsked n want (from_cache o)) (sym none_found)
        (not_found-OnlyAsked n want (from_cache none) refl)
]

module _ (n : ℕ) (want : Sets) (a : Answer) (p : Process)
    (of_kernel : (i : ℕ) (rwe : Rwe) → Member a.left i rwe → Member want i rwe)
    (of_cache : (i : ℕ) (rwe : Rwe) → i < n → Member (cache p) i rwe → Member want i rwe) where
  asked-OnlyAsked : (r : ℤ) → OnlyAsked n want (asked n a r p).0
  unfolding asked
  asked-OnlyAsked (negsuc r) = not_found-OnlyAsked n want _ refl
  asked-OnlyAsked (pos zero) = not_found-OnlyAsked n want _ refl
  asked-OnlyAsked (pos (suc r)) =
      let p1 : Process = logged_if (ltb 1 (suc r)) (event_0 sys_pp_iso_poll (pos (suc r))) p in
      from_cache-OnlyAsked n want (cache (cached_too n a.left p1)) (λ i rwe lt m.
        elim (cached_too-Member n i a.left p1 rwe m) [
          | inl k ↦ of_kernel i rwe k
          | inr c ↦ of_cache i rwe lt (subst (λ q. Member q i rwe) (same_cache (ltb 1 (suc r)) r) c)
        ])
    where
      same_cache :
          (b : Bool) (r : ℕ)
          → cache (logged_if b (event_0 sys_pp_iso_poll (pos (suc r))) p) ≡ cache p
      same_cache true r = refl
      same_cache false r = refl

  cached_or_asked-OnlyAsked :
      OnlyAsked n want (cached_or_asked n a (first n 0 (which (in_both want (cache p)))) p).0
  unfolding cached_or_asked
  cached_or_asked-OnlyAsked = elim (first-cases n 0 (which (in_both want (cache p)))) [
    | inl (fd, rwe, found, h) ↦
        subst (λ o. OnlyAsked n want (cached_or_asked n a o p).0) (sym found)
          (found-OnlyAsked n fd rwe want
            (in_both-Member want (cache p) fd rwe
              (which-Member (in_both want (cache p)) fd rwe h.here))
            (omega (arith, h.below)))
    | inr (none_found, h) ↦
        subst (λ o. OnlyAsked n want (cached_or_asked n a o p).0) (sym none_found)
          (asked-OnlyAsked a.r)
  ]

returned :
    (b : Bool) (o : Option Process) (t t' : Selected) (p : Process)
    → ◌>>◌ {B = Selected × Process} (assert b) (o >>= λ p1. some (t, p1)) ≡ some (t', p)
    → t ≡ t'
returned true (some p1) t t' p h = cc
returned true none t t' p h = cc
returned false o t t' p h = cc

module _ (k : Config) (g : Garbage) (names : ℕ → Names) where
  -- If the kernel reports of the descriptors only those that it is asked for, and the cache holds,
  -- below n, only such descriptors: `speak_select`, whenever it returns with a descriptor, returns 1,
  -- the descriptor is below n and one that the caller has asked for in the set in which it is
  -- returned, and the returned sets hold nothing else.
  pub speak_select_asked :
      (n : ℕ) (want : Sets) (a : Answer) (p p' : Process) (t : Selected)
      → ((i : ℕ) (rwe : Rwe) → Member a.left i rwe → Member want i rwe)
      → ((i : ℕ) (rwe : Rwe) → i < n → Member (cache p) i rwe → Member want i rwe)
      → speak_select k g names n want a p ≡ some (t, p')
      → (fd : ℕ) → t.rfd ≡ pos fd
      → IsAnswer n want fd t
  unfolding speak_select
  speak_select_asked n want a p p' t of_kernel of_cache e =
      let t0 : Selected × Process =
        cached_or_asked n a (first n 0 (which (in_both want (cache p)))) p in
      subst (OnlyAsked n want)
        (returned (leb n max_fds) (connected_if k g t0.0.rfd names t0.1) t0.0 t p' e)
        (cached_or_asked-OnlyAsked n want a p of_kernel of_cache)

  -- The answer where the descriptor found has no connect in progress.
  pub speak_select_found :
      (n : ℕ) (want : Sets) (a : Answer) (p p1 : Process) (fd : ℕ) (t : Selected)
      → n ≤ max_fds
      → cached_or_asked n a (first n 0 (which (in_both want (cache p)))) p ≡ (t, p1)
      → t.rfd ≡ pos fd
      → (p1.vfd_tab fd).in_prog ≡ false
      → speak_select k g names n want a p ≡ some (t, p1)
  unfolding speak_select connected_if
  speak_select_found n want a p p1 fd t le e er quiet =
      rw (le→leb n max_fds le, e)
        (ap (λ z. connected_if k g z names p1 >>= λ q. some (t, q)) er
          ∙ ap (λ b. (if b then connect_event_of fd else some p1) >>= λ q. some (t, q)) quiet)
    where
      connect_event_of : ℕ → Option Process
      connect_event_of i = connect_event k g i (pos 1) (names i) p1
