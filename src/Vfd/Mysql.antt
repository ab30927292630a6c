-- ===== src/Vfd/Mysql.antt =====
-- The MySQL plugin of trace/protocol.c keeps what `virtual_read` of trace/vfd.c relies on.
use borderpatrol.Vfd.{vbufsize}
use borderpatrol.Base.{
  ℕ, ◌-◌, ◌<◌, ◌≤◌, ◌≡◌, refl, inl, inr, ◌⊎◌, some, List, [], ◌∷◌, arith, length, ltb,
  if◌then◌else◌, ltb→lt, ltb→le, Bool-cases,
}
use borderpatrol.Base.Int.{ℤ, pos}
use borderpatrol.Protocol.{Outcome, need_more, Role, Direction, pp_mysqls_id, pp_read}
use borderpatrol.Protocol.Mysql.{MysqlSide, speak_mysql, mysql_header, pp_mysqls_read}
use borderpatrol.Protocol.Dispatch.{
  pp_mysqls, Data, unset, perlp, http, psql, mysql, xorg, fcgi, Garbage, pp_read_data,
}
use borderpatrol.Vfd.Invariant.{IsPlugin}

-- Only at a header does the plugin ask for more, and for no more than a header.
abbrev pub Refused : MysqlSide → ℕ → Type 0
Refused t w = (w ≡ 0) ⊎ ((t.todo ≡ 0) × (w < 4))

abbrev pub Answers : ℕ → ℕ → Outcome MysqlSide → Type 0
Answers w n r =
    ((r.ret ≡ need_more) × Refused r.state n)
    ⊎ ((a : ℕ) × (r.ret ≡ pos a) × (w < a) × (a ≤ n) × Refused r.state 0)

header-Answers :
    (t : MysqlSide) (s : ℤ) (w n : ℕ) (buf : List ℕ) (role : Role) (dir : Direction)
    → w < 4
    → 4 ≤ n
    → n ≤ length buf
    → (r : Outcome MysqlSide) × (mysql_header t s buf role dir ≡ some r) × Answers w n r
unfolding mysql_header
header-Answers t s w n (b0 ∷ b1 ∷ b2 ∷ b3 ∷ mem) role dir hw hn hl =
    (_, refl, inr (4, refl, hw, hn, inl refl))
header-Answers t s w n [] role dir hw hn hl = absurd (omega (arith, hn, hl))
header-Answers t s w n (b0 ∷ []) role dir hw hn hl = absurd (omega (arith, hn, hl))
header-Answers t s w n (b0 ∷ b1 ∷ []) role dir hw hn hl = absurd (omega (arith, hn, hl))
header-Answers t s w n (b0 ∷ b1 ∷ b2 ∷ []) role dir hw hn hl = absurd (omega (arith, hn, hl))

pub speak-Answers :
    (t : MysqlSide) (s : ℤ) (w n : ℕ) (buf : List ℕ) (role : Role) (dir : Direction)
    → Refused t w
    → w < n
    → n ≤ length buf
    → (r : Outcome MysqlSide) × (speak_mysql t s buf n role dir ≡ some r) × Answers w n r
unfolding speak_mysql
speak-Answers t s w n buf role dir hr hw hl = elim (Bool-cases (ltb 0 t.todo)) [
  | inl e ↦
      let used : ℕ = if ltb t.todo n then t.todo else n in
      let more : 0 < t.todo = ltb→lt 0 t.todo e in
      let none_refused : w ≡ 0 = elim hr [
        | inl z ↦ z
        | inr (z, lt) ↦ absurd (omega (arith, z, more))
      ] in
      (
        record { ret = pos used; state = record t { todo = t.todo - used }; events = [] },
        rw e,
        inr (used, refl, used_more t.todo n w none_refused more hw, used_less t.todo n, inl refl),
      )
  | inr e ↦
      let z : t.todo ≡ 0 = omega (arith, ltb→le 0 t.todo e) in
      elim (Bool-cases (ltb n 4)) [
        | inl short ↦ (
          record { ret = need_more; state = t; events = [] },
          rw (e, short),
          inl (refl, inr (z, ltb→lt n 4 short)),
        )
        | inr enough ↦
            let lt : w < 4 = elim hr [ inl zw ↦ omega (arith, zw) | inr (zt, l) ↦ l ] in
            let (r, er, an) = header-Answers t s w n buf role dir lt (ltb→le n 4 enough) hl in
            (r, rw (e, enough) er, an)
      ]
]
  where
    used_more : (a n w : ℕ) → w ≡ 0 → 0 < a → w < n → w < (if ltb a n then a else n)
    used_more a n w z h h' = ground (arith, z, h, h')

    used_less : (a n : ℕ) → (if ltb a n then a else n) ≤ n
    used_less a n = ground arith

-- What the plugin's data says it has refused.
abbrev pub MysqlRefused : Data → ℕ → Type 0
MysqlRefused (mysql m) w = Refused m.read w
MysqlRefused _ w = ⊥

-- The MySQL server's plugin, on any bytes and whatever its data, in a state that `pp_read` leads to:
-- each call returns; it asks for more only while it has less than a header, and else it uses more
-- bytes than it has refused, and no more than it is shown.
pub pp_mysqls_read-IsPlugin :
    (g : Garbage) (s : ℤ) → IsPlugin (λ d. pp_read_data d g) pp_mysqls s MysqlRefused
unfolding pp_read_data pp_mysqls_read
pp_mysqls_read-IsPlugin g s (mysql m) w n buf hr hw hl =
    let (r, e, an) = speak-Answers m.read s w n buf pp_mysqls_id pp_read hr hw hl in
    (
      record { ret = r.ret; state = mysql (record m { read = r.state }); events = r.events },
      rw e,
      an,
    )
pp_mysqls_read-IsPlugin g s unset w n buf hr hw hl = absurd hr
pp_mysqls_read-IsPlugin g s (perlp x) w n buf hr hw hl = absurd hr
pp_mysqls_read-IsPlugin g s (http x) w n buf hr hw hl = absurd hr
pp_mysqls_read-IsPlugin g s (psql x) w n buf hr hw hl = absurd hr
pp_mysqls_read-IsPlugin g s (xorg x) w n buf hr hw hl = absurd hr
pp_mysqls_read-IsPlugin g s (fcgi x) w n buf hr hw hl = absurd hr

-- The plugin never refuses as many bytes as the buffer has.
pub never_full : (ptr : Data) → MysqlRefused ptr vbufsize → ⊥
never_full unset h = h
never_full (perlp x) h = h
never_full (http x) h = h
never_full (psql x) h = h
never_full (mysql m) (inl e) = omega (arith, e)
never_full (mysql m) (inr (e, lt)) = omega (arith, lt)
never_full (xorg x) h = h
never_full (fcgi x) h = h
