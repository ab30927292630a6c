-- ===== src/Protocol/Psql/Body.antt =====
-- A call of `speak_psql` of trace/protocol.c in the body of a message.
use borderpatrol.Base.{
  le→leb, ℕ, ◌-◌, ◌<◌, ◌≤◌, ◌≡◌, refl, sym, ◌∙◌, ap, true, false, List, [], ◌∷◌, ◌++◌, append_assoc,
  arith, ltb, ◌==◌, if◌then◌else◌, length, take, drop, length-append, length-drop, drop-append_le,
  drop-append, take-append_ge, le→ltb, lt→ltb, ==_iff, ==_ne,
}
use borderpatrol.Base.Int.{ℤ, pos}
use borderpatrol.Base.Text.{codes}
use borderpatrol.Protocol.{Event, event_ss, need_more, Role, Direction, sys_pp_prop}
use borderpatrol.Protocol.Psql.{longest_query, PsqlSide, psql_body, speak_psql}
use borderpatrol.Protocol.Psql.Messages.{
  stream_of, body_events, body_events_no_query, header_cleared, used_pos, c_str-text, query_events,
  all_used,
}
use borderpatrol.Protocol.Psql.Due.{At, StepAt, events_of}

module _ (s : ℤ) (role : Role) (dir : Direction) where
  -- In the body of a message that is no query, whose part is used.
  pub body_step :
      (st : PsqlSide) (rest : List ℕ) (due : List Event) (n : ℕ) (behind : List ℕ)
      → (a : At s role dir st rest due) → n ≤ length rest
      → 0 < st.todo
      → (st.type == b'Q') ≡ false
      → StepAt s role dir st rest due n behind
  unfolding speak_psql psql_body
  body_step st rest due n behind a le some_todo no_query =
      let used : ℕ = if ltb st.todo n then st.todo else n in
      let fits : used ≤ length a.cur = ground (arith, a.todo_is) in
      let silent : (xs : List ℕ) → body_events st.type xs ≡ [] =
        body_events_no_query st.type no_query in
      (
        record {
          ret = pos used;
          state = record st {
            todo = st.todo - used;
            got_header = if st.todo - used == 0 then false else st.got_header;
          };
          events = [];
        },
        rw (lt→ltb 0 st.todo some_todo, no_query),
        record {
          within = ground arith;
          still_due = due;
          in_order = refl;
          there = record {
            cur = drop used a.cur;
            ms = a.ms;
            rest_is =
                ap (λ l. drop used l) a.rest_is ∙ drop-append_le used a.cur (stream_of a.ms) fits;
            todo_is = omega (arith, a.todo_is, length-drop used a.cur);
            started = a.started;
            at_header = λ z. header_cleared (st.todo - used) st.got_header z;
            query_ends = λ _ q. absurd (==_ne st.type b'Q' no_query q);
            messages = a.messages;
            due_is =
                a.due_is
                ∙ ap (λ l. l ++ events_of s role dir st.id a.ms)
                    (silent a.cur ∙ sym (silent (drop used a.cur)));
          };
          gets_on = λ _ more. used_pos st.todo n some_todo more;
        },
      )

  -- In a query that is not there as a whole.
  pub query_wait :
      (st : PsqlSide) (rest : List ℕ) (due : List Event) (n : ℕ) (behind : List ℕ)
      → (a : At s role dir st rest due) → 0 < st.todo
      → (st.type == b'Q') ≡ true
      → n < st.todo
      → StepAt s role dir st rest due n behind
  unfolding speak_psql psql_body
  query_wait st rest due n behind a some_todo query short = (
    record { ret = need_more; state = st; events = [] },
    rw (lt→ltb 0 st.todo some_todo, query, lt→ltb n st.todo short),
    record {
      within = omega arith;
      still_due = due;
      in_order = refl;
      there = a;
      gets_on = λ all more. absurd (
          omega (
            arith,
            all,
            short,
            a.todo_is,
            ap length a.rest_is,
            length-append a.cur (stream_of a.ms),
          ));
    },
  )

  -- A query that is there is used as a whole.
  pub query_step :
      (st : PsqlSide) (rest : List ℕ) (due : List Event) (n : ℕ) (behind : List ℕ)
      → (a : At s role dir st rest due) → 0 < st.todo
      → (st.type == b'Q') ≡ true
      → st.todo ≤ n
      → StepAt s role dir st rest due n behind
  unfolding speak_psql psql_body
  query_step st rest due n behind a some_todo query enough =
      let (text, cur_is, nonzero, short) = a.query_ends some_todo ((==_iff st.type b'Q').0 query) in
      let buf : take n rest ++ behind
          ≡ (text ++ (0 ∷ [])) ++ (take (n - length a.cur) (stream_of a.ms) ++ behind) =
        ap (λ l. take n l ++ behind) a.rest_is
        ∙ ap (λ l. l ++ behind) (take-append_ge n a.cur (stream_of a.ms) (omega (arith, a.todo_is)))
        ∙ append_assoc a.cur (take (n - length a.cur) (stream_of a.ms)) behind
        ∙ ap (λ l. l ++ (take (n - length a.cur) (stream_of a.ms) ++ behind)) cur_is in
      let zero_left : st.todo - st.todo ≡ 0 = omega arith in
      (
        record {
          ret = pos st.todo;
          state = record st { todo = 0; got_header = false };
          events = event_ss sys_pp_prop (pos 0) (codes "QUERY") text ∷ [];
        },
        rw (
          lt→ltb 0 st.todo some_todo,
          query,
          le→ltb n st.todo enough,
          buf,
          c_str-text text (take (n - length a.cur) (stream_of a.ms) ++ behind) nonzero,
          le→leb (length text) longest_query short,
          all_used st.todo n enough,
          zero_left,
        ),
        record {
          within = enough;
          still_due = events_of s role dir st.id a.ms;
          in_order =
              a.due_is
              ∙ ap (λ l. l ++ events_of s role dir st.id a.ms)
                  (query_events st.type a.cur text query cur_is nonzero);
          there = record {
            cur = [];
            ms = a.ms;
            rest_is =
                ap (λ l. drop st.todo l) a.rest_is
                ∙ drop-append a.cur (stream_of a.ms) st.todo a.todo_is;
            todo_is = refl;
            started = a.started;
            at_header = λ _. refl;
            query_ends = λ h. absurd (omega (arith, h));
            messages = a.messages;
            due_is = refl;
          };
          gets_on = λ _ _. some_todo;
        },
      )
