-- ===== src/Vfd/Write.antt =====
-- `vwrite_req` and `dup_vfd` of trace/vfd.c.
use borderpatrol.Base.{
  ℕ, zero, suc, ◌+◌, ◌-◌, false, Option, none, some, List, [], ◌∷◌, ◌++◌, ltb, ◌==◌, if◌then◌else◌,
  ◌>>=◌, length, take, drop, store,
}
use borderpatrol.Base.Int.{ℤ, pos, negsuc}
use borderpatrol.Protocol.{Event, Outcome}
use borderpatrol.Protocol.Dispatch.{Dispatcher, Data}
use borderpatrol.Vfd.{vbufsize, Vfd, vfd_dup, vfd_tab_init_one}

-- The copy of the old descriptor, as far as it is kept.
unfoldable pub dup_vfd : Vfd → Vfd
dup_vfd old = record (vfd_tab_init_one old) { type = vfd_dup; in_prog = false }

module _ (pp_write : Dispatcher → Data → ℤ → List ℕ → ℕ → Option (Outcome Data)) where
  -- The loop: the plugin is called until it uses nothing. A plugin that uses more than there is makes
  -- the move behind the loop leave the buffer. Every round uses a byte, so that a round for each byte
  -- and one more are enough.
  unfoldable pub vwrite_loop : ℕ → Dispatcher → ℤ → Vfd → List Event → Option (Vfd × List Event)
  vwrite_loop zero d s v log = none
  vwrite_loop (suc fuel) d s v log =
      let vlen = v.wbuflen - v.wbufofs in
      if vlen == 0
      then some (v, log)
      else pp_write d v.pp_data s (drop v.wbufofs v.wbuf) vlen >>= λ r. elim r.ret [
        | negsuc n ↦ some (record v { pp_data = r.state }, log ++ r.events)
        | pos zero ↦ some (record v { pp_data = r.state }, log ++ r.events)
        | pos (suc n) ↦
            if ltb vlen (suc n)
            then none
            else vwrite_loop fuel d s (record v { pp_data = r.state; wbufofs = v.wbufofs + suc n })
                (log ++ r.events)
      ]

  -- What was not used is moved to the front.
  unfoldable pub keep_unused : Vfd → Vfd
  keep_unused v =
      let vlen = v.wbuflen - v.wbufofs in
      record v {
        wbuf = store 0 (take vlen (drop v.wbufofs v.wbuf)) v.wbuf;
        wbufofs = 0;
        wbuflen = vlen;
      }

  -- With the bytes written, `buf`, none for a count of 0 or less. The copy is not bounded: `none` is
  -- one that leaves `wbuf`.
  unfoldable pub vwrite_req : Vfd → ℤ → List ℕ → Option (Vfd × List Event)
  vwrite_req v s [] = some (v, [])
  vwrite_req v s (b ∷ buf) = elim v.pp_dispatcher [
    | none ↦ some (v, [])
    | some d ↦
        let wbuflen = v.wbuflen + length (b ∷ buf) in
        if ltb vbufsize wbuflen
        then none
        else vwrite_loop (suc (wbuflen - v.wbufofs)) d s
            (record v { wbuf = store v.wbuflen (b ∷ buf) v.wbuf; wbuflen = wbuflen }) []
          >>= λ t. some (keep_unused t.0, t.1)
  ]
