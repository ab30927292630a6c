-- ===== src/Wrap/Output/InOrder.antt =====
-- What the writing wrappers of trace/vfd.c show a plugin.
use borderpatrol.Base.{
  ℕ, zero, suc, ◌+◌, ◌-◌, ◌<◌, ◌≤◌, ◌≡◌, ◌≢◌, sym, ◌∙◌, ap, subst, Bool, true, false, Option, some,
  List, [], ◌∷◌, ◌++◌, append-nil, append_assoc, arith, All, length, take, ltb, ◌==◌, if◌then◌else◌,
  length-take,
}
use borderpatrol.Base.Int.{ℤ, pos, pos_part}
use borderpatrol.Protocol.{Event, Outcome}
use borderpatrol.Protocol.Framing.{IsFramer}
use borderpatrol.Protocol.Dispatch.{Dispatcher, Data}
use borderpatrol.Vfd.{vbufsize}
use borderpatrol.Vfd.WriteLoop.{KeepsAtMost}
use borderpatrol.Vfd.Writes.{IsWriter}
use borderpatrol.Vfd.MysqlWrites.{joined}
use borderpatrol.Wrap.{max_fds, Process, Config, logged}
use borderpatrol.Wrap.Input.Transparent.{index_of_pos}
use borderpatrol.Wrap.Output.{
  tries, shown, shown_all, shown_vectors, clear_writable_cache, wrapped_output, write, send, sendto,
  writev,
}
use borderpatrol.Wrap.Output.Shown.{
  joined-tries, Shown, nothing-Shown, shown-Shown, shown_all-Shown,
}

-- A call that writes: its buffers, and its flags.
pub data OutputCall : Type 0 where
  by_write : List ℕ → OutputCall
  by_send : List ℕ → ℤ → OutputCall
  by_sendto : List ℕ → ℤ → OutputCall
  by_writev : List (List ℕ) → OutputCall

abbrev pub buffers : OutputCall → List (List ℕ)
buffers (by_write buf) = buf ∷ []
buffers (by_send buf flags) = buf ∷ []
buffers (by_sendto buf flags) = buf ∷ []
buffers (by_writev vec) = vec

tries-All :
    (most r : ℕ) (vec : List (List ℕ))
    → All (λ buf. most + length buf ≤ vbufsize) vec
    → All (λ buf. most + length buf ≤ vbufsize) (tries r vec)
unfolding tries
tries-All most r [] h = tt
tries-All most r (base ∷ vec) h =
    let n : ℕ = if ltb r (length base) then r else length base in
    (
      omega (arith, h.0, length-take n base),
      none_or (r - n == 0) (tries (r - n) vec) (tries-All most (r - n) vec h.1),
    )
  where
    none_or :
        (b : Bool) (rest : List (List ℕ))
        → All (λ buf. most + length buf ≤ vbufsize) rest
        → All (λ buf. most + length buf ≤ vbufsize) (if b then [] else rest)
    none_or true rest a = tt
    none_or false rest a = a

module _ (k : Config) (pp_write : Dispatcher → Data → ℤ → List ℕ → ℕ → Option (Outcome Data)) where
  -- With what the kernel returns.
  unfoldable pub output_call : ℕ → OutputCall → ℤ → Process → Option (ℤ × Process)
  output_call fd (by_write buf) r p = write k pp_write (pos fd) buf r p
  output_call fd (by_send buf flags) r p = send k pp_write (pos fd) buf flags r p
  output_call fd (by_sendto buf flags) r p = sendto k pp_write (pos fd) buf flags r p
  output_call fd (by_writev vec) r p = writev k pp_write (pos fd) vec r p

  module _ (d : Dispatcher) (fd : ℕ) (At : Data → List ℕ → List Event → Type 0) (most : ℕ) where
    -- What a call comes to.
    pub record Written (p : Process) (r : ℤ) (future : List ℕ) (due : List Event)
        (o : Option (ℤ × Process)) : Type 0 where
      pub behind_call : Process
      pub returns : o ≡ some (r, behind_call)
      pub before : Event
      pub events : List Event
      pub behind : Event
      pub later : List Event
      pub logs : behind_call.log ≡ p.log ++ (before ∷ (events ++ behind ∷ []))
      pub in_order : due ≡ events ++ later
      pub there : IsWriter pp_write d (pos fd) At most (behind_call.vfd_tab fd) future later
      pub others : (i : ℕ) → i ≢ fd → behind_call.vfd_tab i ≡ p.vfd_tab i

    module _ (fr : IsFramer (λ t b n. pp_write d t (pos fd) b n) At)
        (keeps : KeepsAtMost pp_write d (pos fd) At most) (on : k.bb_disable_all ≡ false)
        (inside : fd < max_fds) where
      wrapped_output-Written :
          (r : ℤ) (before behind : Event) (show : ℕ → Process → Option Process) (future : List ℕ)
          (due : List Event) (p p1 : Process)
          → show fd (logged before p) ≡ some p1
          → Shown k pp_write d fd At most (logged before p) future due p1
          → Written p r future due (wrapped_output k pp_write (pos fd) r before behind show p)
      unfolding wrapped_output clear_writable_cache
      wrapped_output-Written r before behind show future due p p1 e a = record {
        behind_call = logged behind (clear_writable_cache fd p1);
        returns = rw (on, index_of_pos fd inside, e);
        before = before;
        events = a.events;
        behind = behind;
        later = a.later;
        logs =
            ap (λ l. l ++ behind ∷ []) (a.logs ∙ append_assoc p.log (before ∷ []) a.events)
            ∙ append_assoc p.log (before ∷ a.events) (behind ∷ []);
        in_order = a.in_order;
        there = a.there;
        others = a.others;
      }

      buffer-Written :
          (buf future : List ℕ) (due : List Event) (r : ℤ) (before behind : Event) (p : Process)
          → IsWriter pp_write d
              (pos fd)
              At
              most
              (p.vfd_tab fd)
              (take (pos_part r) (buf ++ []) ++ future)
              due
          → most + length buf ≤ vbufsize
          → Written p r future due (
              wrapped_output k pp_write
                (pos fd)
                r
                before
                behind
                (λ fd' q. shown k pp_write fd' (take (pos_part r) buf) q)
                p)
      buffer-Written buf future due r before behind p h room =
          let (p1, e, a) =
            shown-Shown k pp_write d fd At most fr keeps (take (pos_part r) buf) future due
              (logged before p)
              (subst
                (λ l.
                  IsWriter pp_write d (pos fd) At most (p.vfd_tab fd)
                    (take (pos_part r) l ++ future) due)
                (append-nil buf) h)
              (omega (arith, room, length-take (pos_part r) buf)) in
          wrapped_output-Written r before behind
            (λ fd' q. shown k pp_write fd' (take (pos_part r) buf) q) future due p p1 e a

      vectors-Shown :
          (vec : List (List ℕ)) (r : ℕ) (future : List ℕ) (due : List Event) (p : Process)
          → IsWriter pp_write d (pos fd) At most (p.vfd_tab fd) (take r (joined vec) ++ future) due
          → All (λ buf. most + length buf ≤ vbufsize) vec
          → (p1 : Process) × (shown_vectors k pp_write fd vec r (p.vfd_tab fd).pp_dispatcher p
              ≡ some p1)
            × Shown k pp_write d fd At most p future due p1
      unfolding shown_vectors shown_all
      vectors-Shown vec zero future due p h rooms = (
        p,
        ap (λ o. shown_vectors k pp_write fd vec zero o p) h.plugin,
        nothing-Shown k pp_write d fd At most future due p h,
      )
      vectors-Shown vec (suc r) future due p h rooms =
          let (p1, e, a) =
            shown_all-Shown k pp_write d fd At most fr keeps (tries (suc r) vec) future due p
              (subst (λ l. IsWriter pp_write d (pos fd) At most (p.vfd_tab fd) (l ++ future) due)
                (sym (joined-tries (suc r) vec)) h)
              (tries-All most (suc r) vec rooms) in
          (p1, ap (λ o. shown_vectors k pp_write fd vec (suc r) o p) h.plugin ∙ e, a)

      -- For a plugin that keeps its place in a stream and uses nothing only of `most` bytes or fewer, and
      -- a descriptor whose plugin stands where its unused bytes begin, with the bytes that the kernel
      -- takes of a call's buffers behind them, each buffer with room behind `most` bytes: `write`,
      -- `send`, `sendto` and `writev` return what the kernel returns. They log an event, what is due
      -- next of the plugin, and another event; the plugin then stands where the bytes left unused
      -- begin, and no other descriptor is changed.
      pub output_call_in_order :
          (c : OutputCall) (r : ℤ) (future : List ℕ) (due : List Event) (p : Process)
          → IsWriter pp_write d
              (pos fd)
              At
              most
              (p.vfd_tab fd)
              (take (pos_part r) (joined (buffers c)) ++ future)
              due
          → All (λ buf. most + length buf ≤ vbufsize) (buffers c)
          → Written p r future due (output_call fd c r p)
      unfolding output_call write send sendto writev
      output_call_in_order (by_write buf) r future due p h rooms =
          buffer-Written buf future due r _ _ p h rooms.0
      output_call_in_order (by_send buf flags) r future due p h rooms =
          buffer-Written buf future due r _ _ p h rooms.0
      output_call_in_order (by_sendto buf flags) r future due p h rooms =
          buffer-Written buf future due r _ _ p h rooms.0
      output_call_in_order (by_writev vec) r future due p h rooms =
          let (p1, e, a) = vectors-Shown vec (pos_part r) future due (logged _ p) h rooms in
          wrapped_output-Written r _ _
            (λ fd' q. shown_vectors k pp_write fd' vec (pos_part r) (q.vfd_tab fd').pp_dispatcher q)
            future due p p1 e a
