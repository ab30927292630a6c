-- ===== src/Protocol/Mysql/Steps.antt =====
-- A plugin of trace/protocol.c for MySQL at one place in a stream of packets.
use borderpatrol.Base.{
  ℕ, suc, ◌+◌, ◌-◌, ◌*◌, ◌/◌, ◌%◌, ◌<◌, ◌≤◌, ◌≡◌, refl, sym, ◌∙◌, ap, subst, inl, inr, ◌↔◌, Option,
  some, List, [], ◌∷◌, ◌++◌, arith, ltb, if◌then◌else◌, length, take, drop, All, length-drop,
  drop-append_le, Bool-cases, le→ltb, lt→ltb, ltb→lt, ltb→le,
}
use borderpatrol.Base.Int.{ℤ, pos}
use borderpatrol.Base.Bytes.{IsByte}
use borderpatrol.Protocol.{Event, event_s, Outcome, need_more, Role, Direction, sys_pp_data}
use borderpatrol.Protocol.Framing.{Took, IsFramer}
use borderpatrol.Protocol.Mysql.{
  MysqlSide, get_mysql_size, packet_text, mysql_event, mysql_header, speak_mysql,
}

-- The size is that of the protocol exactly if no byte of it has its highest bit set.
pub get_mysql_size_exact :
    (b0 b1 b2 : ℕ)
    → IsByte b0
    → IsByte b1
    → IsByte b2
    → (get_mysql_size b0 b1 b2 ≡ b0 + 256 * b1 + 65536 * b2)
      ↔ ((b0 < 128) × (b1 < 128) × (b2 < 128))
unfolding get_mysql_size
get_mysql_size_exact b0 b1 b2 h0 h1 h2 = ground (arith, h0, h1, h2)

pub record Packet : Type 0 where
  pub num : ℕ
  pub body : List ℕ

-- The plugin reads the size of these packets as it is.
pub record IsPacket (p : Packet) : Type 0 where
  pub low : length p.body % 256 < 128
  pub middle : length p.body / 256 % 256 < 128
  pub high : length p.body / 65536 < 128
  pub num_fits : p.num < 256

abbrev pub packet_bytes : Packet → List ℕ
packet_bytes p =
    (length p.body % 256) ∷ (length p.body / 256 % 256) ∷ (length p.body / 65536) ∷ p.num ∷ p.body

abbrev pub stream_of : List Packet → List ℕ
stream_of [] = []
stream_of (p ∷ ps) = packet_bytes p ++ stream_of ps

size_lem :
    (p : Packet)
    → IsPacket p
    → get_mysql_size (length p.body % 256) (length p.body / 256 % 256) (length p.body / 65536)
      ≡ length p.body
unfolding get_mysql_size
size_lem p h =
    rw
      (
        le→ltb 127 (length p.body % 256) (omega (arith, h.low)),
        le→ltb 127 (length p.body / 256 % 256) (omega (arith, h.middle)),
        le→ltb 127 (length p.body / 65536) (omega (arith, h.high)),
      )
      (omega arith)

used_pos : (a n : ℕ) → 0 < a → 0 < n → 0 < (if ltb a n then a else n)
used_pos a n h h' = ground (arith, h, h')

module _ (s : ℤ) (role : Role) (dir : Direction) where
  abbrev speak : MysqlSide → List ℕ → ℕ → Option (Outcome MysqlSide)
  speak st buf len = speak_mysql st s buf len role dir

  -- What is logged of a packet.
  abbrev pub packet_events : Packet → List Event
  packet_events p =
      event_s sys_pp_data (pos 0) (packet_text p.num (length p.body)) ∷ mysql_event role dir s p.num

  abbrev pub events_of : List Packet → List Event
  events_of [] = []
  events_of (p ∷ ps) = packet_events p ++ events_of ps

  -- The stream goes on with the rest of a body, then whole packets.
  pub record At (st : MysqlSide) (rest : List ℕ) (due : List Event) : Type 0 where
    pub cur : List ℕ
    pub ps : List Packet
    pub rest_is : rest ≡ cur ++ stream_of ps
    pub todo_is : st.todo ≡ length cur
    pub id_small : st.id < 256
    pub packets : All IsPacket ps
    pub due_is : due ≡ events_of ps

  -- In a body.
  body_step :
      (st : MysqlSide) (rest : List ℕ) (due : List Event) (n : ℕ) (behind : List ℕ)
      → (a : At st rest due) → n ≤ length rest
      → 0 < st.todo
      → (r : Outcome MysqlSide) × (speak st (take n rest ++ behind) n ≡ some r)
        × Took speak At n rest due r
  unfolding speak_mysql
  body_step st rest due n behind a le pos_todo =
      let used : ℕ = if ltb st.todo n then st.todo else n in
      let fits : used ≤ length a.cur = ground (arith, a.todo_is) in
      (
        record { ret = pos used; state = record st { todo = st.todo - used }; events = [] },
        rw (lt→ltb 0 st.todo pos_todo),
        record {
          within = ground arith;
          still_due = due;
          in_order = refl;
          there = record {
            cur = drop used a.cur;
            ps = a.ps;
            rest_is =
                ap (λ l. drop used l) a.rest_is ∙ drop-append_le used a.cur (stream_of a.ps) fits;
            todo_is = omega (arith, a.todo_is, length-drop used a.cur);
            id_small = a.id_small;
            packets = a.packets;
            due_is = a.due_is;
          };
          gets_on = λ _ more. used_pos st.todo n pos_todo more;
        },
      )

  abbrev StepAt : List Packet → MysqlSide → ℕ → List ℕ → Type 0
  StepAt ps st n behind =
      (r : Outcome MysqlSide) × (speak st (take n (stream_of ps) ++ behind) n ≡ some r)
      × Took speak At n (stream_of ps) (events_of ps) r

  -- Too little is offered for a header.
  short_step :
      (ps : List Packet) (st : MysqlSide) (n : ℕ) (behind : List ℕ)
      → st.todo ≡ 0
      → st.id < 256
      → All IsPacket ps
      → n < 4
      → StepAt ps st n behind
  unfolding speak_mysql
  short_step ps st n behind z i ok h = (
    record { ret = need_more; state = st; events = [] },
    rw (le→ltb 0 st.todo (omega arith), lt→ltb n 4 h),
    record {
      within = omega arith;
      still_due = events_of ps;
      in_order = refl;
      there = record {
        cur = [];
        ps = ps;
        rest_is = refl;
        todo_is = z;
        id_small = i;
        packets = ok;
        due_is = refl;
      };
      gets_on = λ all more. absurd (too_short ps n all more h);
    },
  )
    where
      too_short : (ps : List Packet) (n : ℕ) → n ≡ length (stream_of ps) → 0 < n → n < 4 → ⊥
      too_short [] n all more h = omega arith
      too_short (p ∷ ps) n all more h = omega arith

  -- A header is taken.
  header_step :
      (p : Packet) (ps : List Packet) (st : MysqlSide) (n : ℕ) (behind : List ℕ)
      → st.todo ≡ 0
      → st.id < 256
      → All IsPacket (p ∷ ps)
      → StepAt (p ∷ ps) st (suc (suc (suc (suc n)))) behind
  unfolding speak_mysql mysql_header
  header_step p ps st n behind z i ok =
      let id : st.id - st.id % 256 + p.num ≡ p.num = omega arith in
      (
        record {
          ret = pos 4;
          state = record { todo = length p.body; id = p.num };
          events = packet_events p;
        },
        rw (
          le→ltb 0 st.todo (omega arith),
          le→ltb (suc (suc (suc (suc n)))) 4 (omega arith),
          size_lem p ok.0,
          id,
        ),
        record {
          within = omega arith;
          still_due = events_of ps;
          in_order = refl;
          there = record {
            cur = p.body;
            ps = ps;
            rest_is = refl;
            todo_is = refl;
            id_small = ok.0.num_fits;
            packets = ok.1;
            due_is = refl;
          };
          gets_on = λ _ _. omega arith;
        },
      )

  stream_step :
      (ps : List Packet) (st : MysqlSide) (n : ℕ) (behind : List ℕ)
      → st.todo ≡ 0
      → st.id < 256
      → All IsPacket ps
      → n ≤ length (stream_of ps)
      → StepAt ps st n behind
  stream_step [] st n behind z i ok le = short_step [] st n behind z i ok (omega arith)
  stream_step (p ∷ ps) st (suc (suc (suc (suc n)))) behind z i ok le =
      header_step p ps st n behind z i ok
  stream_step (p ∷ ps) st n behind z i ok le = short_step (p ∷ ps) st n behind z i ok (omega arith)

  pub speak_mysql-IsFramer : IsFramer speak At
  speak_mysql-IsFramer st rest due n behind a le = elim (Bool-cases (ltb 0 st.todo)) [
    | inl e ↦ body_step st rest due n behind a le (ltb→lt 0 st.todo e)
    | inr e ↦
        let z : st.todo ≡ 0 = omega (arith, ltb→le 0 st.todo e) in
        let same : rest ≡ stream_of a.ps =
          at_header a.cur (stream_of a.ps) rest a.rest_is (omega (arith, a.todo_is)) in
        subst
          (λ l.
            (r : Outcome MysqlSide) × (speak st (take n l ++ behind) n ≡ some r)
            × Took speak At n l due r)
          (sym same)
          (subst
            (λ d.
              (r : Outcome MysqlSide) × (speak st (take n (stream_of a.ps) ++ behind) n ≡ some r)
              × Took speak At n (stream_of a.ps) d r)
            (sym a.due_is)
            (stream_step a.ps st n behind z a.id_small a.packets (omega (arith, ap length same))))
  ]
    where
      at_header : (cur more rest : List ℕ) → rest ≡ cur ++ more → 0 ≡ length cur → rest ≡ more
      at_header [] more rest e z = e
      at_header (c ∷ cur) more rest e z = absurd (omega arith)
