-- ===== src/Wrap/Safety/Input.antt =====
-- The data of a descriptor's plugin behind a read of trace/vfd.c.
use borderpatrol.Base.{
  ◌%◌, ◌&&◌, ℕ, zero, suc, ◌-◌, ◌≡◌, refl, sym, subst, inl, inr, Bool, true, false, Option, none,
  some, List, ltb, ◌==◌, min, if◌then◌else◌, ◌>>=◌, ◌&&◌, not, drop, length, Bool-cases,
}
use borderpatrol.Base.Int.{ℤ, pos, negsuc}
use borderpatrol.Reader.{Read}
use borderpatrol.Protocol.{Outcome}
use borderpatrol.Protocol.Dispatch.{Dispatcher, Data, Garbage, pp_read_data}
use borderpatrol.Protocol.Dispatch.Fits.{Fits, Keeps, pp_read_data-Keeps}
use borderpatrol.Vfd.{
  vbufsize, Vfd, Fd, buf_shift, buf_ret, hand_out, presented, present_pp, after_read, read_more,
  shown_more, read_by, virtual_read,
}

-- If a plugin has been found, the data is of its own type.
abbrev pub PluginFits : Option Dispatcher → Data → Type 0
PluginFits none ptr = Unit
PluginFits (some d) ptr = Fits d ptr

abbrev pub IsSafeVfd : Vfd → Type 0
IsSafeVfd v = PluginFits v.pp_dispatcher v.pp_data

abbrev BufSafe : Option (List ℕ × Fd) → Type 0
BufSafe none = Unit
BufSafe (some t) = IsSafeVfd t.1.vfd

abbrev pub SafeIf : Option (ℤ × List ℕ × Fd) → Type 0
SafeIf none = Unit
SafeIf (some t) = IsSafeVfd t.2.vfd

abbrev FdSafe : Option Fd → Type 0
FdSafe none = Unit
FdSafe (some f) = IsSafeVfd f.vfd

buf_ret-BufSafe : (f : Fd) (len : ℕ) → IsSafeVfd f.vfd → BufSafe (buf_ret f len)
unfolding buf_ret
buf_ret-BufSafe f len h = go f.vfd.tosend refl
  where
    go : (z : ℤ) → f.vfd.tosend ≡ z → BufSafe (buf_ret f len)
    go (negsuc n) e = rw e tt
    go (pos n) e = elim (Bool-cases (n == 0)) [
      | inl z ↦ rw (e, z) tt
      | inr nz ↦
          elim (Bool-cases (ltb f.vfd.rlastlen vbufsize && ltb (len % 4294967296) 2147483648)) [
            | inl y ↦ rw (e, nz, y) h
            | inr y ↦ rw (e, nz, y) tt
          ]
    ]

hand_out-SafeIf : (f : Fd) (len : ℕ) → IsSafeVfd f.vfd → SafeIf (hand_out f len)
unfolding hand_out
hand_out-SafeIf f len h = go (buf_ret f len) (buf_ret-BufSafe f len h)
  where
    go :
        (o : Option (List ℕ × Fd))
        → BufSafe o
        → SafeIf (o >>= λ t. some (pos (length t.0), t.0, t.1))
    go none h = tt
    go (some t) h = h

buf_shift-Safe : (v : Vfd) → IsSafeVfd v → IsSafeVfd (buf_shift v)
unfolding buf_shift
buf_shift-Safe v h = elim (Bool-cases (min v.rbufofs v.rlastlen == 0)) [
  | inl z ↦ rw z h
  | inr nz ↦ rw nz h
]

module _ (g : Garbage) (s : ℤ) where
  abbrev plugins : Dispatcher → Data → ℤ → List ℕ → ℕ → Option (Outcome Data)
  plugins d = pp_read_data d g

  presented-Safe :
      (f : Fd) (amt : ℕ) (r : Outcome Data)
      → PluginFits f.vfd.pp_dispatcher r.state
      → IsSafeVfd (presented plugins f amt r).vfd
  unfolding presented
  presented-Safe f amt r h =
      elim r.ret as (λ z. IsSafeVfd (presented plugins f amt (record r { ret = z })).vfd) [
        | negsuc n ↦ h
        | pos n ↦ h
      ]

  present_pp-FdSafe : (f : Fd) → IsSafeVfd f.vfd → FdSafe (present_pp plugins s f)
  unfolding present_pp
  present_pp-FdSafe f h = go (f.vfd.rbuflen - f.vfd.rbufofs == 0)
    where
      amt : ℕ
      amt = f.vfd.rbuflen - f.vfd.rbufofs

      shown :
          (d : Dispatcher) (o : Option (Outcome Data))
          → f.vfd.pp_dispatcher ≡ some d
          → Keeps d o
          → FdSafe (o >>= λ r. some (presented plugins f amt r))
      shown d none e k = tt
      shown d (some r) e k = presented-Safe f amt r (subst (λ q. PluginFits q r.state) (sym e) k)

      by :
          (q : Option Dispatcher)
          → f.vfd.pp_dispatcher ≡ q
          → FdSafe (
              q >>= λ d. plugins d f.vfd.pp_data s (drop f.vfd.rbufofs f.vfd.rbuf) amt >>= λ r.
              some (presented plugins f amt r))
      by none e = tt
      by (some d) e = shown d (plugins d f.vfd.pp_data s (drop f.vfd.rbufofs f.vfd.rbuf) amt) e (
          pp_read_data-Keeps d g f.vfd.pp_data s (drop f.vfd.rbufofs f.vfd.rbuf) amt
            (subst (λ q. PluginFits q f.vfd.pp_data) e h))

      go :
          (b : Bool)
          → FdSafe (
              if b
              then some f
              else f.vfd.pp_dispatcher >>= λ d.
                  plugins d f.vfd.pp_data s (drop f.vfd.rbufofs f.vfd.rbuf) amt >>= λ r.
                  some (presented plugins f amt r))
      go true = h
      go false = by f.vfd.pp_dispatcher refl

  after_read-SafeIf :
      (f : Fd) (v : Vfd) (len : ℕ) (t : ℤ × List ℕ × List Read)
      → IsSafeVfd v
      → SafeIf (after_read plugins s f v len t)
  unfolding after_read
  after_read-SafeIf f v len (negsuc n, bytes, input) h = h
  after_read-SafeIf f v len (pos zero, bytes, input) h = h
  after_read-SafeIf f v len (pos (suc n), bytes, input) h =
      go (present_pp plugins s _) (present_pp-FdSafe _ h)
    where
      go : (o : Option Fd) → FdSafe o → SafeIf (o >>= λ q. hand_out q len)
      go none h = tt
      go (some q) h = hand_out-SafeIf q len h

  read_more-SafeIf : (f : Fd) (len : ℕ) → IsSafeVfd f.vfd → SafeIf (read_more plugins s f len)
  unfolding read_more
  read_more-SafeIf f len h = after_read-SafeIf f (buf_shift f.vfd) len _ (buf_shift-Safe f.vfd h)

  shown_more-SafeIf : (f : Fd) (len : ℕ) → IsSafeVfd f.vfd → SafeIf (shown_more plugins s f len)
  unfolding shown_more
  shown_more-SafeIf f len h =
      elim f.vfd.tosend
        as (λ z. SafeIf (elim z [
          | pos zero ↦ read_more plugins s f len
          | pos (suc n) ↦ hand_out f len
          | negsuc n ↦ hand_out f len
        ])) [
          | pos zero ↦ read_more-SafeIf f len h
          | pos (suc n) ↦ hand_out-SafeIf f len h
          | negsuc n ↦ hand_out-SafeIf f len h
        ]

  read_by-SafeIf : (z : ℤ) (f : Fd) (len : ℕ) → IsSafeVfd f.vfd → SafeIf (read_by plugins z s f len)
  unfolding read_by
  read_by-SafeIf (negsuc n) f len h = hand_out-SafeIf f len h
  read_by-SafeIf (pos (suc n)) f len h = hand_out-SafeIf f len h
  read_by-SafeIf (pos zero) f len h = go (ltb f.vfd.rbufofs f.vfd.rbuflen && not f.vfd.ppwantmore)
    where
      shown : (o : Option Fd) → FdSafe o → SafeIf (o >>= λ q. shown_more plugins s q len)
      shown none k = tt
      shown (some q) k = shown_more-SafeIf q len k

      go :
          (b : Bool)
          → SafeIf (
              if b
              then (present_pp plugins s f >>= λ q. shown_more plugins s q len)
              else read_more plugins s f len)
      go true = shown (present_pp plugins s f) (present_pp-FdSafe f h)
      go false = read_more-SafeIf f len h

  pub virtual_read-SafeIf :
      (f : Fd) (len : ℕ) → IsSafeVfd f.vfd → SafeIf (virtual_read plugins s f len)
  unfolding virtual_read
  virtual_read-SafeIf f len h = read_by-SafeIf f.vfd.tosend f len h
