-- ===== src/Wrap/Safety/Output.antt =====
-- The data of a descriptor's plugin behind a write of trace/vfd.c.
use borderpatrol.Base.{
  ℕ, zero, suc, ◌+◌, ◌-◌, ◌≡◌, refl, sym, subst, Bool, true, false, Option, none, some, List, [],
  ◌∷◌, ◌++◌, ltb, ◌==◌, if◌then◌else◌, ◌>>=◌, drop, length,
}
use borderpatrol.Base.Int.{ℤ, pos, negsuc}
use borderpatrol.Protocol.{Event, Outcome}
use borderpatrol.Protocol.Dispatch.{Dispatcher, Data, Garbage, pp_write_data}
use borderpatrol.Protocol.Dispatch.Fits.{Fits, Keeps, pp_write_data-Keeps}
use borderpatrol.Vfd.{vbufsize, Vfd}
use borderpatrol.Vfd.Write.{vwrite_loop, keep_unused, vwrite_req}
use borderpatrol.Wrap.Safety.Input.{PluginFits, IsSafeVfd}

abbrev pub WriteSafe : Option (Vfd × List Event) → Type 0
WriteSafe none = Unit
WriteSafe (some t) = IsSafeVfd t.0

module _ (g : Garbage) (s : ℤ) where
  abbrev plugins : Dispatcher → Data → ℤ → List ℕ → ℕ → Option (Outcome Data)
  plugins d = pp_write_data d g

  -- A round of the loop, with what follows it.
  abbrev round :
      (Vfd → List Event → Option (Vfd × List Event))
      → Vfd
      → List Event
      → Outcome Data
      → Option (Vfd × List Event)
  round rest v log r = elim r.ret [
    | negsuc n ↦ some (record v { pp_data = r.state }, log ++ r.events)
    | pos zero ↦ some (record v { pp_data = r.state }, log ++ r.events)
    | pos (suc n) ↦
        if ltb (v.wbuflen - v.wbufofs) (suc n)
        then none
        else rest (record v { pp_data = r.state; wbufofs = v.wbufofs + suc n }) (log ++ r.events)
  ]

  none_or :
      (b : Bool) (o : Option (Vfd × List Event)) → WriteSafe o → WriteSafe (if b then none else o)
  none_or true o k = tt
  none_or false o k = k

  module _ (d : Dispatcher) (rest : Vfd → List Event → Option (Vfd × List Event))
      (safe : (v : Vfd) (log : List Event)
        → v.pp_dispatcher ≡ some d
        → Fits d v.pp_data
        → WriteSafe (rest v log)) where
    round-WriteSafe :
        (v : Vfd) (log : List Event) (r : Outcome Data)
        → v.pp_dispatcher ≡ some d
        → Fits d r.state
        → WriteSafe (round rest v log r)
    round-WriteSafe v log r e k =
        elim r.ret as (λ z. WriteSafe (round rest v log (record r { ret = z }))) [
          | negsuc n ↦ subst (λ q. PluginFits q r.state) (sym e) k
          | pos zero ↦ subst (λ q. PluginFits q r.state) (sym e) k
          | pos (suc n) ↦ none_or (ltb (v.wbuflen - v.wbufofs) (suc n)) _ (
              safe (record v { pp_data = r.state; wbufofs = v.wbufofs + suc n }) (log ++ r.events) e
                k)
        ]

    called-WriteSafe :
        (v : Vfd) (log : List Event) (o : Option (Outcome Data))
        → v.pp_dispatcher ≡ some d
        → Keeps d o
        → WriteSafe (o >>= λ r. round rest v log r)
    called-WriteSafe v log none e k = tt
    called-WriteSafe v log (some r) e k = round-WriteSafe v log r e k

  some_or :
      (b : Bool) (t : Vfd × List Event) (o : Option (Vfd × List Event))
      → WriteSafe (some t)
      → WriteSafe o
      → WriteSafe (if b then some t else o)
  some_or true t o h k = h
  some_or false t o h k = k

  vwrite_loop-WriteSafe :
      (fuel : ℕ) (d : Dispatcher) (v : Vfd) (log : List Event)
      → v.pp_dispatcher ≡ some d
      → Fits d v.pp_data
      → WriteSafe (vwrite_loop plugins fuel d s v log)
  unfolding vwrite_loop
  vwrite_loop-WriteSafe zero d v log e h = tt
  vwrite_loop-WriteSafe (suc fuel) d v log e h =
      some_or (v.wbuflen - v.wbufofs == 0) (v, log) _
        (subst (λ q. PluginFits q v.pp_data) (sym e) h)
        (called-WriteSafe d (λ v' log'. vwrite_loop plugins fuel d s v' log')
          (λ v' log' e' h'. vwrite_loop-WriteSafe fuel d v' log' e' h') v log
          (pp_write_data d g v.pp_data s (drop v.wbufofs v.wbuf) (v.wbuflen - v.wbufofs)) e
          (pp_write_data-Keeps d g v.pp_data s (drop v.wbufofs v.wbuf) (v.wbuflen - v.wbufofs) h))

  keep_unused-WriteSafe :
      (o : Option (Vfd × List Event))
      → WriteSafe o
      → WriteSafe (o >>= λ t. some (keep_unused plugins t.0, t.1))
  unfolding keep_unused
  keep_unused-WriteSafe none h = tt
  keep_unused-WriteSafe (some t) h = h

  pub vwrite_req-WriteSafe :
      (v : Vfd) (buf : List ℕ) → IsSafeVfd v → WriteSafe (vwrite_req plugins v s buf)
  unfolding vwrite_req
  vwrite_req-WriteSafe v [] h = h
  vwrite_req-WriteSafe v (b ∷ buf) h = by v.pp_dispatcher refl
    where
      by :
          (q : Option Dispatcher)
          → v.pp_dispatcher ≡ q
          → WriteSafe (vwrite_req plugins (record v { pp_dispatcher = q }) s (b ∷ buf))
      by none e = subst (λ q. PluginFits q v.pp_data) e h
      by (some d) e = none_or (ltb vbufsize (v.wbuflen + length (b ∷ buf))) _ (
          keep_unused-WriteSafe _
            (vwrite_loop-WriteSafe _ d _ [] refl (subst (λ q. PluginFits q v.pp_data) e h)))
