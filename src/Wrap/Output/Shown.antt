-- ===== src/Wrap/Output/Shown.antt =====
-- What the wrappers of trace/vfd.c that write show a plugin.
use borderpatrol.Base.{
  ℕ, zero, suc, ◌+◌, ◌-◌, ◌≤◌, ◌≡◌, ◌≢◌, refl, sym, ◌∙◌, ap, subst, Option, some, List, [], ◌∷◌,
  ◌++◌, append-nil, append_assoc, arith, All, length, take, ltb, ◌==◌, if◌then◌else◌, inl, inr,
  Bool-cases, ltb→lt, ltb→le, ==_iff, take-all, take-append_le, take-append_ge,
}
use borderpatrol.Base.Int.{ℤ, pos}
use borderpatrol.Protocol.{Event, Outcome}
use borderpatrol.Protocol.Framing.{IsFramer}
use borderpatrol.Protocol.Dispatch.{Dispatcher, Data}
use borderpatrol.Vfd.{vbufsize}
use borderpatrol.Vfd.WriteLoop.{KeepsAtMost}
use borderpatrol.Vfd.Writes.{IsWriter, vwrite_req_in_order}
use borderpatrol.Vfd.MysqlWrites.{joined}
use borderpatrol.Wrap.{Process, Config, with_vfd}
use borderpatrol.Wrap.Input.Transparent.{update_here, update_there}
use borderpatrol.Wrap.Output.{tries, shown, shown_all}

-- The rest of the vectors is looked at only where there are bytes left.
rest-joined :
    (n : ℕ) (J : List ℕ) (rest : List (List ℕ))
    → joined rest ≡ take n J
    → joined (if n == 0 then [] else rest) ≡ take n J
rest-joined n J rest e = elim (Bool-cases (n == 0)) [
  | inl z ↦ rw (z, (==_iff n 0).0 z)
  | inr more ↦ rw more e
]

-- What `writev` shows of its vectors, put together, is as many bytes of the vectors as have been
-- taken: the bytes that the kernel has taken, each once and in order.
pub joined-tries : (r : ℕ) (vec : List (List ℕ)) → joined (tries r vec) ≡ take r (joined vec)
unfolding tries
joined-tries zero [] = refl
joined-tries (suc r) [] = refl
joined-tries r (base ∷ vec) = elim (Bool-cases (ltb r (length base))) [
  | inl part ↦
      let none_left : r - r ≡ 0 = omega arith in
      rw (part, none_left)
        (append-nil (take r base)
          ∙ sym (take-append_le r base (joined vec) (omega (arith, ltb→lt r (length base) part))))
  | inr all ↦ rw all (
      ap (λ l. l ++ joined (if r - length base == 0 then [] else tries (r - length base) vec))
        (take-all (length base) base (omega arith))
      ∙ ap (λ l. base ++ l)
          (rest-joined (r - length base) (joined vec) (tries (r - length base) vec)
            (joined-tries (r - length base) vec))
      ∙ sym (take-append_ge r base (joined vec) (ltb→le r (length base) all)))
]

module _ (k : Config) (pp_write : Dispatcher → Data → ℤ → List ℕ → ℕ → Option (Outcome Data))
    (d : Dispatcher) (fd : ℕ) (At : Data → List ℕ → List Event → Type 0) (most : ℕ) where
  -- Behind some bytes that the plugin has been shown.
  pub record Shown (p : Process) (future : List ℕ) (due : List Event) (p' : Process) : Type 0 where
    pub events : List Event
    pub later : List Event
    pub logs : p'.log ≡ p.log ++ events
    pub in_order : due ≡ events ++ later
    pub there : IsWriter pp_write d (pos fd) At most (p'.vfd_tab fd) future later
    pub others : (i : ℕ) → i ≢ fd → p'.vfd_tab i ≡ p.vfd_tab i

  pub nothing-Shown :
      (future : List ℕ) (due : List Event) (p : Process)
      → IsWriter pp_write d (pos fd) At most (p.vfd_tab fd) future due
      → Shown p future due p
  nothing-Shown future due p h = record {
    events = [];
    later = due;
    logs = sym (append-nil p.log);
    in_order = refl;
    there = h;
    others = λ i ne. refl;
  }

  module _ (fr : IsFramer (λ t b n. pp_write d t (pos fd) b n) At)
      (keeps : KeepsAtMost pp_write d (pos fd) At most) where
    pub shown-Shown :
        (buf future : List ℕ) (due : List Event) (p : Process)
        → IsWriter pp_write d (pos fd) At most (p.vfd_tab fd) (buf ++ future) due
        → most + length buf ≤ vbufsize
        → (p' : Process) × (shown k pp_write fd buf p ≡ some p') × Shown p future due p'
    unfolding shown
    shown-Shown buf future due p h room =
        let (v', events, later, e, io, h') =
          vwrite_req_in_order pp_write d (pos fd) At most (p.vfd_tab fd) buf future due fr keeps h
            room in
        (
          record (with_vfd fd v' p) { log = p.log ++ events },
          rw e,
          record {
            events = events;
            later = later;
            logs = refl;
            in_order = io;
            there =
                subst (λ v. IsWriter pp_write d (pos fd) At most v future later)
                  (sym (update_here p.vfd_tab fd v')) h';
            others = λ i ne. update_there p.vfd_tab fd i v' ne;
          },
        )

    pub shown_all-Shown :
        (bufs : List (List ℕ)) (future : List ℕ) (due : List Event) (p : Process)
        → IsWriter pp_write d (pos fd) At most (p.vfd_tab fd) (joined bufs ++ future) due
        → All (λ buf. most + length buf ≤ vbufsize) bufs
        → (p' : Process) × (shown_all k pp_write fd bufs p ≡ some p') × Shown p future due p'
    unfolding shown_all
    shown_all-Shown [] future due p h room = (p, refl, nothing-Shown future due p h)
    shown_all-Shown (buf ∷ bufs) future due p h room =
        let (p1, e, a) =
          shown-Shown buf (joined bufs ++ future) due p
            (subst (λ l. IsWriter pp_write d (pos fd) At most (p.vfd_tab fd) l due)
              (append_assoc buf (joined bufs) future) h)
            room.0 in
        let (p2, e', b) = shown_all-Shown bufs future a.later p1 a.there room.1 in
        (
          p2,
          rw e e',
          record {
            events = a.events ++ b.events;
            later = b.later;
            logs = b.logs ∙ ap (λ l. l ++ b.events) a.logs ∙ append_assoc p.log a.events b.events;
            in_order =
                a.in_order
                ∙ ap (λ l. a.events ++ l) b.in_order
                ∙ sym (append_assoc a.events b.events b.later);
            there = b.there;
            others = λ i ne. b.others i ne ∙ a.others i ne;
          },
        )
