-- ===== src/Binlog/Trace.antt =====
-- From the traced thread to the printed log: a thread logs (logd/binlog.c), flushes, and
-- logd/expand.c reads what the descriptor took.
use borderpatrol.Base.{
  ℕ, suc, ◌+◌, ◌*◌, ◌%◌, ◌^◌, ◌<◌, ◌≤◌, ◌≡◌, refl, sym, ◌∙◌, ap, false, Option, some, List, [], ◌∷◌,
  ◌++◌, append-nil, append_assoc, map, arith, length, take, All, ◌>>=◌, ==_refl,
}
use borderpatrol.Base.Int.{ℤ}
use borderpatrol.Base.Bytes.{IsByte}
use borderpatrol.Fmt.{Frozen}
use borderpatrol.Fmt.Entry.{Entry, IsEntry, log_bytes}
use borderpatrol.Reader.{Reader}
use borderpatrol.Reader.Ready.{IsReady, pending}
use borderpatrol.Expand.{finished, expand}
use borderpatrol.Expand.Prints.{selected, expand-entries}
use borderpatrol.Binlog.{
  Ctx, Time, pipe_buf, pattern_of, no_newline, lb_populate, logbin_gen, lb_flush,
}
use borderpatrol.Binlog.Flush.{lb_flush_sends}
use borderpatrol.Binlog.Logged.{IsLogger, stream, logged}
use borderpatrol.Binlog.Log.{logbin_gen-appends}

-- The arguments of a call of `LOGBIN_gen`.
pub record Call : Type 0 where
  pub now : Time
  pub sc : ℤ
  pub rv : ℤ
  pub i1 : ℤ
  pub i2 : ℤ
  pub i3 : ℤ
  pub num : ℕ
  pub s : List ℕ

pub record Fits (k : Call) : Type 0 where
  pub few : k.num ≤ 3
  pub small : 32 + (4 * k.num + length k.s) ≤ pipe_buf
  pub bytes : All IsByte k.s

pub log_all : List Call → Ctx → Option Ctx
log_all [] c = some c
log_all (k ∷ ks) c = do c' ← logbin_gen k.now k.sc k.rv k.i1 k.i2 k.i3 k.num k.s c; log_all ks c'

-- What the entry of a call by thread `tid` of process `pid` says.
pub record Tells (tid pid : ℕ) (k : Call) (e : Entry) : Type 0 where
  pub who : e.fz.tid ≡ tid % 2 ^ 64
  pub which : e.fz.pid ≡ pid % 2 ^ 32
  pub call : e.fz.sc ≡ pattern_of (2 ^ 16) k.sc
  pub value : e.fz.rv ≡ pattern_of (2 ^ 16) k.rv
  pub args : e.args ≡ map (pattern_of (2 ^ 32)) (take k.num (k.i1 ∷ k.i2 ∷ k.i3 ∷ []))
  pub text : e.text ≡ map no_newline k.s

abbrev pub TellsAll : ℕ → ℕ → List Call → List Entry → Type 0
TellsAll tid pid [] [] = Unit
TellsAll tid pid [] (e ∷ es) = ⊥
TellsAll tid pid (k ∷ ks) [] = ⊥
TellsAll tid pid (k ∷ ks) (e ∷ es) = Tells tid pid k e × TellsAll tid pid ks es

logged-Tells :
    (k : Call) (c : Ctx) (old : Frozen) (tid pid : ℕ)
    → c.tid ≡ tid
    → c.pid ≡ pid
    → Tells tid pid k (logged k.now c k.sc k.rv (take k.num (k.i1 ∷ k.i2 ∷ k.i3 ∷ [])) k.s old)
unfolding logged lb_populate
logged-Tells k c old tid pid et ep = record {
  who = ap (λ n. n % 2 ^ 64) et;
  which = ap (λ n. n % 2 ^ 32) ep;
  call = refl;
  value = refl;
  args = refl;
  text = refl;
}

log_all_lem :
    (ks : List Call) (c : Ctx) (tid pid : ℕ)
    → IsLogger c
    → c.prog_nm < 256
    → c.tid ≡ tid
    → c.pid ≡ pid
    → All Fits ks
    → (es : List Entry) × (c' : Ctx) × (log_all ks c ≡ some c')
      × IsLogger c'
      × (stream c' ≡ stream c ++ log_bytes es)
      × All IsEntry es
      × TellsAll tid pid ks es
unfolding log_all
log_all_lem [] c tid pid h nm et ep f = ([], c, refl, h, sym (append-nil (stream c)), tt, tt)
log_all_lem (k ∷ ks) c tid pid h nm et ep f =
    let (old, c1, p1, h1, same, s1, v1) =
      logbin_gen-appends k.now k.sc k.rv k.i1 k.i2 k.i3 k.num k.s c h nm f.0.bytes f.0.few
        f.0.small in
    let (es, c2, p2, h2, s2, v2, t2) =
      log_all_lem ks c1 tid pid h1 (omega (arith, same.same_prog)) (same.same_tid ∙ et)
        (same.same_pid ∙ ep) f.1 in
    let vals = take k.num (k.i1 ∷ k.i2 ∷ k.i3 ∷ []) in
    let e : Entry = logged k.now c k.sc k.rv vals k.s old in
    (
      e ∷ es,
      c2,
      rw p1 p2,
      h2,
      s2 ∙ ap (λ l. l ++ log_bytes es) s1 ∙ append_assoc (stream c) _ (log_bytes es),
      (v1, v2),
      (logged-Tells k c old tid pid et ep, t2),
    )

-- For a thread with an empty log whose writes succeed, and any calls whose entries fit: logging
-- them all and flushing returns; the descriptor has then taken well-formed entries, one for each
-- call in order, each with the thread and process, the call's number and value, its arguments and
-- its text with newlines replaced. A run of `expand` over those bytes, if they are fewer than 2 ^ 31,
-- cut into reads in any way, with any `pid`, prints those entries in order (those of `pid`, if it is not 0), and finds the
-- size that it expects.
pub trace-expand :
    (ks : List Call) (c : Ctx)
    → IsLogger c
    → c.prog_nm < 256
    → stream c ≡ []
    → All Fits ks
    → (es : List Entry) × (c' : Ctx) × ((do c1 ← log_all ks c; lb_flush c1) ≡ some c')
      × All IsEntry es
      × TellsAll c.tid c.pid ks es
      × ((pid : ℕ) (s : Reader)
          → IsReady s
          → s.bytes_seen ≡ 0
          → pending s ≡ c'.sent
          → length c'.sent < 2147483648
          → expand (suc (length es)) pid (length c'.sent) s
            ≡ finished (record {
              printed = selected pid es;
              recno = length es;
              bytes = length c'.sent;
              mismatch = false;
            }))
trace-expand ks c h nm empty f =
    let (es, c1, p1, h1, s1, v1, t1) = log_all_lem ks c c.tid c.pid h nm refl refl f in
    let (ws, ok, p2) = lb_flush_sends c1 h1.writes_succeed in
    let whole : stream c1 ≡ log_bytes es = s1 ∙ ap (λ l. l ++ log_bytes es) empty in
    (
      es,
      record c1 { sent = stream c1; writes = ws; lbptr = 0 },
      rw p1 p2,
      v1,
      t1,
      λ pid s r z p few.
          expand-entries es (suc (length es)) pid (length (stream c1)) s v1 r z (p ∙ whole)
            (omega arith) (omega (arith, few, ap length whole))
          ∙ rw (← whole, ==_refl (length (stream c1))),
    )
