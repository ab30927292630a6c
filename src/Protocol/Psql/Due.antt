-- ===== src/Protocol/Psql/Due.antt =====
-- What `speak_psql` of trace/protocol.c has still to log of a stream of messages.
use borderpatrol.Base.{
  ◌≤◌, ℕ, ◌+◌, ◌<◌, ◌≡◌, true, false, Option, some, List, [], ◌∷◌, ◌++◌, if◌then◌else◌, length,
  take, All,
}
use borderpatrol.Base.Int.{ℤ, pos}
use borderpatrol.Protocol.{Event, event_s, Outcome, Role, Direction, sys_pp_data}
use borderpatrol.Protocol.Framing.{Took}
use borderpatrol.Protocol.Psql.{longest_query, PsqlSide, message_text, psql_event, speak_psql}
use borderpatrol.Protocol.Psql.Messages.{Message, IsMessage, stream_of, body_events}

module _ (s : ℤ) (role : Role) (dir : Direction) where
  abbrev pub speak : PsqlSide → List ℕ → ℕ → Option (Outcome PsqlSide)
  speak st buf len = speak_psql st s buf len role dir

  -- The counter behind a message, and what is logged of a header.
  abbrev pub next_id : ℕ → ℕ → ℕ
  next_id type id = if (psql_event type role dir s id).1 then id + 1 else id

  abbrev pub header_events : Message → ℕ → List Event
  header_events m id =
      event_s sys_pp_data (pos 0) (message_text m.type (length m.body))
      ∷ (psql_event m.type role dir s id).0

  abbrev pub events_of : ℕ → List Message → List Event
  events_of id [] = []
  events_of id (m ∷ ms) =
      header_events m id ++ (body_events m.type m.body ++ events_of (next_id m.type id) ms)

  abbrev pub QueryEnds : ℕ → List ℕ → Type 0
  QueryEnds type cur =
      type ≡ b'Q'
      → (text : List ℕ) × (cur ≡ text ++ (0 ∷ []))
        × All (λ b. 0 < b) text
        × (length text ≤ longest_query)

  -- The stream goes on with the rest of a body, then whole messages.
  pub record At (st : PsqlSide) (rest : List ℕ) (due : List Event) : Type 0 where
    pub cur : List ℕ
    pub ms : List Message
    pub rest_is : rest ≡ cur ++ stream_of ms
    pub todo_is : st.todo ≡ length cur
    pub started : st.got_startup ≡ true
    pub at_header : st.todo ≡ 0 → st.got_header ≡ false
    pub query_ends : 0 < st.todo → QueryEnds st.type cur
    pub messages : All IsMessage ms
    pub due_is : due ≡ body_events st.type cur ++ events_of st.id ms

  abbrev pub StepAt : PsqlSide → List ℕ → List Event → ℕ → List ℕ → Type 0
  StepAt st rest due n behind =
      (r : Outcome PsqlSide) × (speak st (take n rest ++ behind) n ≡ some r)
      × Took speak At n rest due r
