-- ===== src/Protocol/Psql/Steps.antt =====
-- One call of `speak_psql` of trace/protocol.c on a stream of messages.
use borderpatrol.Base.{
  ℕ, suc, ◌+◌, ◌<◌, ◌≤◌, ◌≡◌, refl, sym, ◌∙◌, ap, subst, inl, inr, true, false, List, [], ◌∷◌, ◌++◌,
  arith, ltb, ◌==◌, length, take, All, Bool-cases, le→ltb, ltb→lt, ltb→le,
}
use borderpatrol.Base.Int.{ℤ, pos}
use borderpatrol.Protocol.{Event, need_more, Role, Direction}
use borderpatrol.Protocol.Framing.{IsFramer}
use borderpatrol.Protocol.Psql.{PsqlSide, psql_header}
use borderpatrol.Protocol.Psql.Messages.{
  Message, IsMessage, stream_of, body_events, be4_value, minus_word_lem, to_header, header_wait,
  too_short,
}
use borderpatrol.Protocol.Psql.Due.{At, StepAt, events_of, header_events, next_id, speak}
use borderpatrol.Protocol.Psql.Body.{body_step, query_wait, query_step}

module _ (s : ℤ) (role : Role) (dir : Direction) where
  abbrev here :
      (ms : List Message) (st : PsqlSide)
      → st.todo ≡ 0
      → st.got_startup ≡ true
      → st.got_header ≡ false
      → All IsMessage ms
      → At s role dir st (stream_of ms) (events_of s role dir st.id ms)
  here ms st z up hd ok = record {
    cur = [];
    ms = ms;
    rest_is = refl;
    todo_is = z;
    started = up;
    at_header = λ _. hd;
    query_ends = λ h. absurd (omega (arith, h, z));
    messages = ok;
    due_is = refl;
  }

  short_step :
      (ms : List Message) (st : PsqlSide) (n : ℕ) (behind : List ℕ)
      → st.todo ≡ 0
      → st.got_startup ≡ true
      → st.got_header ≡ false
      → All IsMessage ms
      → n < 5
      → StepAt s role dir st (stream_of ms) (events_of s role dir st.id ms) n behind
  short_step ms st n behind z up hd ok h = (
    record { ret = need_more; state = st; events = [] },
    to_header st s (take n (stream_of ms) ++ behind) n role dir z up hd
        ∙ header_wait st s (take n (stream_of ms) ++ behind) n role dir h,
    record {
      within = omega arith;
      still_due = events_of s role dir st.id ms;
      in_order = refl;
      there = here ms st z up hd ok;
      gets_on = λ all more. absurd (too_short ms n all more h);
    },
  )

  header_step :
      (m : Message) (ms : List Message) (st : PsqlSide) (n : ℕ) (behind : List ℕ)
      → st.todo ≡ 0
      → st.got_startup ≡ true
      → st.got_header ≡ false
      → All IsMessage (m ∷ ms)
      → StepAt s role dir st
          (stream_of (m ∷ ms))
          (events_of s role dir st.id (m ∷ ms))
          (suc (suc (suc (suc (suc n)))))
          behind
  unfolding psql_header
  header_step m ms st n behind z up hd ok =
      let size : ℕ = 4 + length m.body in
      (
        record {
          ret = pos 5;
          state = record st {
            type = m.type;
            got_header = true;
            todo = length m.body;
            id = next_id s role dir m.type st.id;
          };
          events = header_events s role dir m st.id;
        },
        to_header st s _ (suc (suc (suc (suc (suc n))))) role dir z up hd
            ∙ rw (
              le→ltb (suc (suc (suc (suc (suc n))))) 5 (omega arith),
              be4_value size (take n (m.body ++ stream_of ms) ++ behind),
              minus_word_lem (length m.body) ok.0.fits,
            ),
        record {
          within = omega arith;
          still_due =
              body_events m.type m.body
              ++ events_of s role dir (next_id s role dir m.type st.id) ms;
          in_order = refl;
          there = record {
            cur = m.body;
            ms = ms;
            rest_is = refl;
            todo_is = refl;
            started = up;
            at_header = λ none_left. absurd (omega (arith, none_left, ok.0.not_empty));
            query_ends = λ _. ok.0.query_ends;
            messages = ok.1;
            due_is = refl;
          };
          gets_on = λ _ _. omega arith;
        },
      )

  stream_step :
      (ms : List Message) (st : PsqlSide) (n : ℕ) (behind : List ℕ)
      → st.todo ≡ 0
      → st.got_startup ≡ true
      → st.got_header ≡ false
      → All IsMessage ms
      → n ≤ length (stream_of ms)
      → StepAt s role dir st (stream_of ms) (events_of s role dir st.id ms) n behind
  stream_step [] st n behind z up hd ok le = short_step [] st n behind z up hd ok (omega arith)
  stream_step (m ∷ ms) st (suc (suc (suc (suc (suc n))))) behind z up hd ok le =
      header_step m ms st n behind z up hd ok
  stream_step (m ∷ ms) st n behind z up hd ok le =
      short_step (m ∷ ms) st n behind z up hd ok (omega arith)

  pub speak_psql-IsFramer : IsFramer (speak s role dir) (At s role dir)
  speak_psql-IsFramer st rest due n behind a le = elim (Bool-cases (ltb 0 st.todo)) [
    | inl e ↦
        let more : 0 < st.todo = ltb→lt 0 st.todo e in
        elim (Bool-cases (st.type == b'Q')) [
          | inr other ↦ body_step s role dir st rest due n behind a le more other
          | inl q ↦ elim (Bool-cases (ltb n st.todo)) [
            | inl short ↦
                query_wait s role dir st rest due n behind a more q (ltb→lt n st.todo short)
            | inr enough ↦
                query_step s role dir st rest due n behind a more q (ltb→le n st.todo enough)
          ]
        ]
    | inr e ↦
        let z : st.todo ≡ 0 = omega (arith, ltb→le 0 st.todo e) in
        let empty : 0 ≡ length a.cur = omega (arith, z, a.todo_is) in
        let same : rest ≡ stream_of a.ms = at_start a.cur (stream_of a.ms) rest a.rest_is empty in
        let owed : due ≡ events_of s role dir st.id a.ms =
          a.due_is ∙ no_body st.type a.cur (events_of s role dir st.id a.ms) empty in
        subst (λ l. StepAt s role dir st l due n behind) (sym same)
          (subst (λ d. StepAt s role dir st (stream_of a.ms) d n behind) (sym owed)
            (stream_step a.ms st n behind z a.started (a.at_header z) a.messages
              (omega (arith, ap length same))))
  ]
    where
      at_start : (cur more rest : List ℕ) → rest ≡ cur ++ more → 0 ≡ length cur → rest ≡ more
      at_start [] more rest e z = e
      at_start (c ∷ cur) more rest e z = absurd (omega arith)

      no_body :
          (type : ℕ) (cur : List ℕ) (es : List Event)
          → 0 ≡ length cur
          → body_events type cur ++ es ≡ es
      no_body type [] es z = refl
      no_body type (c ∷ cur) es z = absurd (omega arith)
