-- ===== src/Vfd/MysqlWrites.antt =====
-- The MySQL plugin of trace/protocol.c keeps its place in what `vwrite_req` of trace/vfd.c shows it.
use borderpatrol.Base.{
  ℕ, zero, suc, ◌+◌, ◌≤◌, ◌≡◌, refl, sym, ap, ◌∙◌, subst, inl, inr, some, none, Option, List, [],
  ◌∷◌, ◌++◌, append-nil, append_assoc, arith, take, length, All, length-append, length-take, ◌>>=◌,
}
use borderpatrol.Base.Int.{pos_part}
use borderpatrol.Base.Int.{ℤ}
use borderpatrol.Protocol.{Event, Outcome, pp_mysqls_id, pp_write}
use borderpatrol.Protocol.Framing.{IsFramer}
use borderpatrol.Protocol.Mysql.{pp_mysqls_write}
use borderpatrol.Protocol.Mysql.Steps.{
  Packet, IsPacket, At, stream_of, events_of, speak_mysql-IsFramer,
}
use borderpatrol.Protocol.Mysql.Packets.{at_start, nothing_due_at_end}
use borderpatrol.Protocol.Dispatch.{
  pp_mysqls, Dispatcher, Data, unset, perlp, http, psql, mysql, xorg, fcgi, Garbage, pp_write_data,
  pp_init,
}
use borderpatrol.Vfd.{vbufsize, Vfd, vfd_tab_init_one}
use borderpatrol.Vfd.Write.{vwrite_req}
use borderpatrol.Vfd.Mysql.{speak-Answers}
use borderpatrol.Vfd.Reads.{accepted}
use borderpatrol.Vfd.WriteLoop.{KeepsAtMost}
use borderpatrol.Vfd.Writes.{IsWriter, vwrite_req_in_order}
use borderpatrol.Protocol.Mysql.{pp_mysqls_init, pp_mysql_common_init}

-- Where the plugin stands in what is written.
abbrev pub MysqlWriteAt : ℤ → Data → List ℕ → List Event → Type 0
MysqlWriteAt s (mysql m) rest due = At s pp_mysqls_id pp_write m.write rest due
MysqlWriteAt s _ rest due = ⊥

pub pp_mysqls_write-IsFramer :
    (g : Garbage) (s : ℤ) → IsFramer (λ t b n. pp_write_data pp_mysqls g t s b n) (MysqlWriteAt s)
unfolding pp_write_data pp_mysqls_write
pp_mysqls_write-IsFramer g s (mysql m) rest due n behind a le =
    let (r, e, t) = speak_mysql-IsFramer s pp_mysqls_id pp_write m.write rest due n behind a le in
    (
      record { ret = r.ret; state = mysql (record m { write = r.state }); events = r.events },
      rw e,
      record {
        within = t.within;
        still_due = t.still_due;
        in_order = t.in_order;
        there = t.there;
        gets_on = t.gets_on;
      },
    )
pp_mysqls_write-IsFramer g s unset rest due n behind a le = absurd a
pp_mysqls_write-IsFramer g s (perlp x) rest due n behind a le = absurd a
pp_mysqls_write-IsFramer g s (http x) rest due n behind a le = absurd a
pp_mysqls_write-IsFramer g s (psql x) rest due n behind a le = absurd a
pp_mysqls_write-IsFramer g s (xorg x) rest due n behind a le = absurd a
pp_mysqls_write-IsFramer g s (fcgi x) rest due n behind a le = absurd a

abbrev used_of : Option (Outcome Data) → ℕ
used_of none = 0
used_of (some r) = pos_part r.ret

-- It uses nothing only of less than a header.
pub pp_mysqls_write-KeepsAtMost :
    (g : Garbage) (s : ℤ) → KeepsAtMost (λ d. pp_write_data d g) pp_mysqls s (MysqlWriteAt s) 3
unfolding pp_write_data pp_mysqls_write
pp_mysqls_write-KeepsAtMost g s (mysql m) rest due zero behind r a le e z = omega arith
pp_mysqls_write-KeepsAtMost g s (mysql m) rest due (suc n) behind r a le e z =
    let buf : List ℕ = take (suc n) rest ++ behind in
    let (r', e', an) =
      speak-Answers m.write s 0 (suc n) buf pp_mysqls_id pp_write (inl refl) (omega arith)
        (omega (arith, le, length-append (take (suc n) rest) behind, length-take (suc n) rest)) in
    let shown : pp_write_data pp_mysqls g (mysql m) s buf (suc n)
        ≡ some (record {
          ret = r'.ret;
          state = mysql (record m { write = r'.state });
          events = r'.events;
        }) =
      rw e' refl in
    let same : pos_part r'.ret ≡ 0 = ap used_of (sym shown ∙ e) ∙ z in
    elim an [
      | inl (need, inl none_left) ↦ omega (arith, none_left)
      | inl (need, inr (at_header, short)) ↦ omega (arith, short)
      | inr (k, used, more, within, again) ↦ absurd (omega (arith, more, same, ap pos_part used))
    ]
pp_mysqls_write-KeepsAtMost g s unset rest due n behind r a le e z = absurd a
pp_mysqls_write-KeepsAtMost g s (perlp x) rest due n behind r a le e z = absurd a
pp_mysqls_write-KeepsAtMost g s (http x) rest due n behind r a le e z = absurd a
pp_mysqls_write-KeepsAtMost g s (psql x) rest due n behind r a le e z = absurd a
pp_mysqls_write-KeepsAtMost g s (xorg x) rest due n behind r a le e z = absurd a
pp_mysqls_write-KeepsAtMost g s (fcgi x) rest due n behind r a le e z = absurd a

-- One write after another, with all that is logged.
pub writes :
    (Dispatcher → Data → ℤ → List ℕ → ℕ → Option (Outcome Data))
    → ℤ
    → List (List ℕ)
    → Vfd
    → Option (Vfd × List Event)
writes pp_w s [] v = some (v, [])
writes pp_w s (buf ∷ bufs) v = do
  t ← vwrite_req pp_w v s buf
  u ← writes pp_w s bufs t.0
  some (u.0, t.1 ++ u.1)

abbrev pub joined : List (List ℕ) → List ℕ
joined [] = []
joined (buf ∷ bufs) = buf ++ joined bufs

writes-in_order :
    (pp_w : Dispatcher → Data → ℤ → List ℕ → ℕ → Option (Outcome Data)) (d : Dispatcher) (s : ℤ)
    (A : Data → List ℕ → List Event → Type 0) (most : ℕ) (bufs : List (List ℕ)) (v : Vfd)
    (due : List Event)
    → IsFramer (λ t b n. pp_w d t s b n) A
    → KeepsAtMost pp_w d s A most
    → IsWriter pp_w d s A most v (joined bufs) due
    → All (λ buf. most + length buf ≤ vbufsize) bufs
    → (v' : Vfd) × (events : List Event) × (later : List Event) × (writes pp_w s bufs v
        ≡ some (v', events))
      × (due ≡ events ++ later)
      × IsWriter pp_w d s A most v' [] later
unfolding writes
writes-in_order pp_w d s A most [] v due fr keeps h room = (v, [], due, refl, refl, h)
writes-in_order pp_w d s A most (buf ∷ bufs) v due fr keeps h room =
    let (v1, events, later, e, d1, h1) =
      vwrite_req_in_order pp_w d s A most v buf (joined bufs) due fr keeps h room.0 in
    let (v2, more, rest, e', d2, h2) =
      writes-in_order pp_w d s A most bufs v1 later fr keeps h1 room.1 in
    (
      v2,
      events ++ more,
      rest,
      rw (e, e'),
      d1 ∙ ap (λ l. events ++ l) d2 ∙ sym (append_assoc events more rest),
      h2,
    )

-- On a descriptor that has been accepted for the MySQL server's plugin, whatever its entry in the
-- table was before, for a stream of packets whose sizes have no byte with its highest bit set, cut
-- into writes of any sizes up to 3 bytes less than the buffer: every `vwrite_req` returns, and they
-- log exactly one pair of events for each packet, in order, and keep no byte.
pub mysql_writes :
    (g : Garbage) (s : ℤ) (v : Vfd) (ps : List Packet) (bufs : List (List ℕ))
    → length v.wbuf ≡ vbufsize
    → All IsPacket ps
    → joined bufs ≡ stream_of ps
    → All (λ buf. 3 + length buf ≤ vbufsize) bufs
    → (v' : Vfd) × (writes (λ d. pp_write_data d g) s bufs (accepted g s v []).vfd
        ≡ some (v', events_of s pp_mysqls_id pp_write ps))
      × (v'.wbuflen ≡ 0)
unfolding vfd_tab_init_one pp_init pp_mysqls_init pp_mysql_common_init
mysql_writes g s v ps bufs size ok whole room =
    let (v', events, later, e, d, h) =
      writes-in_order (λ d. pp_write_data d g) pp_mysqls s (MysqlWriteAt s) 3 bufs
        (accepted g s v []).vfd (events_of s pp_mysqls_id pp_write ps)
        (pp_mysqls_write-IsFramer g s) (pp_mysqls_write-KeepsAtMost g s)
        (record {
          from_start = refl;
          fits = omega arith;
          size = size;
          plugin = refl;
          there =
              subst
                (λ l.
                  At s pp_mysqls_id pp_write (record { todo = 0; id = 0 }) l
                    (events_of s pp_mysqls_id pp_write ps))
                (sym whole) (at_start s pp_mysqls_id pp_write ps ok);
          finished = λ f. refl;
        })
        room in
    let none_left : v'.wbuflen ≡ 0 = h.finished refl in
    let none_due : later ≡ [] =
      nothing_due_there s v'.pp_data later
        (subst (λ k. MysqlWriteAt s v'.pp_data (take k v'.wbuf ++ []) later) none_left h.there) in
    (
      v',
      e ∙ ap (λ l. some (v', l)) (sym (d ∙ ap (λ l. events ++ l) none_due ∙ append-nil events)),
      none_left,
    )
  where
    nothing_due_there :
        (s : ℤ) (t : Data) (later : List Event) → MysqlWriteAt s t [] later → later ≡ []
    nothing_due_there s (mysql m) later a =
        nothing_due_at_end s pp_mysqls_id pp_write m.write later a
    nothing_due_there s unset later a = absurd a
    nothing_due_there s (perlp x) later a = absurd a
    nothing_due_there s (http x) later a = absurd a
    nothing_due_there s (psql x) later a = absurd a
    nothing_due_there s (xorg x) later a = absurd a
    nothing_due_there s (fcgi x) later a = absurd a
