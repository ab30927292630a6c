-- ===== src/Binlog/Flush.antt =====
-- `lb_flush` and `lb_alloc_bytes` of logd/binlog.c under short writes.
use borderpatrol.Base.{
  ℕ, ◌+◌, ◌-◌, ◌≤◌, ◌≡◌, inl, inr, min, some, List, [], ◌∷◌, ◌++◌, append-nil, append_assoc, arith,
  take, drop, slice, ltb, All, Bool-cases, take-split, drop-drop, ltb→le,
}
use borderpatrol.Binlog.{Write, failed, took, Ctx, flush_loop, lb_flush}

-- No call of `write` fails.
abbrev pub Succeeds : Write → Type 0
Succeeds failed = ⊥
Succeeds (took n) = Unit

slice-join : (i j k : ℕ) (xs : List ℕ) → i ≤ j → j ≤ k → slice i j xs ++ slice j k xs ≡ slice i k xs
slice-join i j k xs h h' =
    let e1 : k - j ≡ k - i - (j - i) = omega arith in
    let e2 : i + (j - i) ≡ j = omega arith in
    rw (e1, ← e2, ← drop-drop i (j - i) xs, e2)
      (take-split (j - i) (k - i) (drop i xs) (omega arith))

slice-empty : (i j : ℕ) (xs : List ℕ) → j ≤ i → slice i j xs ≡ []
slice-empty i j xs h = let e : j - i ≡ 0 = omega arith in rw e

flush_loop_lem :
    (start : ℕ) (c : Ctx) (ws : List Write)
    → start ≤ c.lbptr
    → All Succeeds ws
    → (ws' : List Write) × All Succeeds ws'
      × (flush_loop start c ws
          ≡ some (record c { sent = c.sent ++ slice start c.lbptr c.lb; writes = ws' }))
unfolding flush_loop
flush_loop_lem start c [] h a = elim (Bool-cases (ltb start c.lbptr)) [
  | inl e ↦ ([], tt, rw e)
  | inr e ↦ ([], tt, rw (e, slice-empty start c.lbptr c.lb (ltb→le _ _ e), append-nil))
]
flush_loop_lem start c (failed ∷ ws) h a = absurd a.0
flush_loop_lem start c (took n ∷ ws) h a = elim (Bool-cases (ltb start c.lbptr)) [
  | inl e ↦
      let r : ℕ = min n (c.lbptr - start) in
      let (ws', ok, p) =
        flush_loop_lem (start + r) (record c { sent = c.sent ++ slice start (start + r) c.lb }) ws
          (omega arith) a.1 in
      (
        ws',
        ok,
        rw (
          e,
          p,
          append_assoc c.sent (slice start (start + r) c.lb) (slice (start + r) c.lbptr c.lb),
          slice-join start (start + r) c.lbptr c.lb (omega arith) (omega arith),
        ),
      )
  | inr e ↦ (took n ∷ ws, a, rw (e, slice-empty start c.lbptr c.lb (ltb→le _ _ e), append-nil))
]

-- If no write fails, `lb_flush` returns, for every sequence of short writes: the descriptor has
-- taken the whole buffer in order and nothing else, and the buffer is empty.
pub lb_flush_sends :
    (c : Ctx)
    → All Succeeds c.writes
    → (ws' : List Write) × All Succeeds ws'
      × (lb_flush c
          ≡ some (record c { sent = c.sent ++ take c.lbptr c.lb; writes = ws'; lbptr = 0 }))
unfolding lb_flush
lb_flush_sends c a =
    let (ws', ok, p) = flush_loop_lem 0 c c.writes (omega arith) a in
    let e : c.lbptr - 0 ≡ c.lbptr = omega arith in (ws', ok, rw (p, e))
