-- ===== src/Protocol/Psql/Messages.antt =====
-- The messages that `speak_psql` of trace/protocol.c reads, and what its parts do with their bytes.
use borderpatrol.Base.{
  ℕ, ◌+◌, ◌/◌, ◌%◌, ◌^◌, ◌<◌, ◌≤◌, ◌≡◌, refl, ◌∙◌, ap, Bool, true, false, some, List, [], ◌∷◌, ◌++◌,
  arith, ltb, ◌==◌, if◌then◌else◌, length, All, le→ltb, lt→ltb, ne→==, ==_iff,
}
use borderpatrol.Base.Int.{ℤ, pos}
use borderpatrol.Base.Text.{codes, c_str, up_to_0}
use borderpatrol.Protocol.{Event, event_ss, outcome, need_more, Role, Direction, sys_pp_prop}
use borderpatrol.Protocol.Psql.{
  longest_query, PsqlSide, get_int, minus_word, psql_header, speak_psql,
}

-- A message: its type, and what follows its size. The text of a query ends with its first 0.
pub record Message : Type 0 where
  pub type : ℕ
  pub body : List ℕ

pub record IsMessage (m : Message) : Type 0 where
  pub fits : 4 + length m.body < 2 ^ 32
  pub not_empty : 0 < length m.body
  pub query_ends :
      m.type ≡ b'Q'
      → (text : List ℕ) × (m.body ≡ text ++ (0 ∷ []))
        × All (λ b. 0 < b) text
        × (length text ≤ longest_query)

-- The four bytes of a number in network order.
abbrev pub to_be4 : ℕ → List ℕ
to_be4 n = (n / 16777216) ∷ (n / 65536 % 256) ∷ (n / 256 % 256) ∷ (n % 256) ∷ []

abbrev pub message_bytes : Message → List ℕ
message_bytes m = m.type ∷ (to_be4 (4 + length m.body) ++ m.body)

abbrev pub stream_of : List Message → List ℕ
stream_of [] = []
stream_of (m ∷ ms) = message_bytes m ++ stream_of ms

-- What is logged of a query once all of its text is there.
abbrev pub body_events : ℕ → List ℕ → List Event
body_events type [] = []
body_events type (b ∷ cur) =
    if type == b'Q'
    then event_ss sys_pp_prop (pos 0) (codes "QUERY") (up_to_0 (b ∷ cur)) ∷ []
    else []

pub body_events_no_query :
    (type : ℕ) → (type == b'Q') ≡ false → (xs : List ℕ) → body_events type xs ≡ []
body_events_no_query type e [] = refl
body_events_no_query type e (x ∷ xs) = rw e

pub header_cleared : (left : ℕ) (b : Bool) → left ≡ 0 → (if left == 0 then false else b) ≡ false
header_cleared left b z = rw ((==_iff left 0).1 z)

pub used_pos : (a n : ℕ) → 0 < a → 0 < n → 0 < (if ltb a n then a else n)
used_pos a n h h' = ground (arith, h, h')

-- The text that lies in memory.
pub c_str-text :
    (text more : List ℕ) → All (λ b. 0 < b) text → c_str ((text ++ (0 ∷ [])) ++ more) ≡ some text
unfolding c_str
c_str-text [] more h = refl
c_str-text (b ∷ text) more h = rw (ne→== b 0 (omega (arith, h.0)), c_str-text text more h.1)

pub up_to_0-text : (text : List ℕ) → All (λ b. 0 < b) text → up_to_0 (text ++ (0 ∷ [])) ≡ text
up_to_0-text [] h = refl
up_to_0-text (b ∷ text) h = rw (ne→== b 0 (omega (arith, h.0)), up_to_0-text text h.1)

pub query_events :
    (type : ℕ) (cur text : List ℕ)
    → (type == b'Q') ≡ true
    → cur ≡ text ++ (0 ∷ [])
    → All (λ b. 0 < b) text
    → body_events type cur ≡ event_ss sys_pp_prop (pos 0) (codes "QUERY") text ∷ []
query_events type [] [] q e h = absurd (omega (arith, ap length e))
query_events type [] (b ∷ text) q e h = absurd (omega (arith, ap length e))
query_events type (c ∷ cur) text q e h = rw (q, ap up_to_0 e ∙ up_to_0-text text h)

pub all_used : (a n : ℕ) → a ≤ n → (if ltb a n then a else n) ≡ a
all_used a n h = ground arith

pub be4_value : (n : ℕ) (more : List ℕ) → get_int (to_be4 n ++ more) ≡ some n
unfolding get_int
be4_value n more = ap some (omega arith)

pub minus_word_lem : (l : ℕ) → 4 + l < 2 ^ 32 → minus_word (4 + l) 4 ≡ l
minus_word_lem l h = omega arith

pub to_header :
    (st : PsqlSide) (s : ℤ) (buf : List ℕ) (n : ℕ) (role : Role) (dir : Direction)
    → st.todo ≡ 0
    → st.got_startup ≡ true
    → st.got_header ≡ false
    → speak_psql st s buf n role dir ≡ psql_header st s buf n role dir
unfolding speak_psql
to_header st s buf n role dir z up hd = simp (le→ltb 0 st.todo (omega arith), up, hd)

pub header_wait :
    (st : PsqlSide) (s : ℤ) (buf : List ℕ) (n : ℕ) (role : Role) (dir : Direction)
    → n < 5
    → psql_header st s buf n role dir ≡ outcome need_more st []
unfolding psql_header
header_wait st s [] n role dir h = rw (lt→ltb n 5 h)
header_wait st s (b ∷ buf) n role dir h = rw (lt→ltb n 5 h)

pub too_short : (ms : List Message) (n : ℕ) → n ≡ length (stream_of ms) → 0 < n → n < 5 → ⊥
too_short [] n all more h = omega arith
too_short (m ∷ ms) n all more h = omega arith
