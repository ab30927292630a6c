-- ===== src/Expand/Prints.antt =====
-- `main` of logd/expand.c on a log that holds whole entries.
use borderpatrol.Base.{
  ℕ, zero, suc, ◌+◌, ◌-◌, Bool, true, ltb, ap₂, refl, if◌then◌else◌, ◌%◌, lt→ltb, ◌≤◌, ◌<◌, ◌≡◌,
  ◌∙◌, ap, false, List, [], ◌∷◌, ◌++◌, append-nil, append_assoc, arith, length, ◌==◌, All,
  length-append, not,
}
use borderpatrol.Base.Int.{pos, negsuc, eqb_ℤ, int_of_bits}
use borderpatrol.Fmt.{Thawed}
use borderpatrol.Fmt.Entry.{Entry, IsEntry, length-entry_bytes, entry_bytes, log_bytes, thawed}
use borderpatrol.Reader.{Reader, get_le}
use borderpatrol.Reader.Ready.{IsReady, pending}
use borderpatrol.Reader.Entries.{get_le-GotEntry, at_end, get_le_end}
use borderpatrol.Expand.{finished, shown, expand_loop, expand}

-- What `main` should print of a log, and how many bytes the log has.
unfoldable pub selected : ℕ → List Entry → List Thawed
selected pid [] = []
selected pid (e ∷ es) = shown pid (thawed e) ++ selected pid es

-- A count below 2 ^ 31 is compared as it is.
eqb_small : (n m : ℕ) → m < 2147483648 → eqb_ℤ (pos n) (int_of_bits m) ≡ (n == m)
eqb_small n m few =
    ap (λ z. eqb_ℤ (pos n) z) (small (ltb m 2147483648) (lt→ltb m 2147483648 few)) ∙ same
  where
    small : (b : Bool) → b ≡ true → (if b then pos m else negsuc (4294967295 - m)) ≡ pos m
    small true e = refl
    small false e = ground arith

    same : eqb_ℤ (pos n) (pos m) ≡ (n == m)
    same =
        let e1 : n + 0 ≡ n = omega arith in
        let e2 : m + 0 ≡ m = omega arith in ap₂ (λ a b. a == b) e1 e2

expand_loop-entries :
    (es : List Entry) (fuel pid st_size recno : ℕ) (out : List Thawed) (s : Reader)
    → All IsEntry es
    → IsReady s
    → pending s ≡ log_bytes es
    → length es < fuel
    → s.bytes_seen + length (log_bytes es) < 2147483648
    → recno + length es < 2147483648
    → expand_loop fuel pid st_size recno out s
      ≡ finished (record {
        printed = out ++ selected pid es;
        recno = recno + length es;
        bytes = s.bytes_seen + length (log_bytes es);
        mismatch = not (st_size == s.bytes_seen + length (log_bytes es));
      })
unfolding expand_loop selected
expand_loop-entries [] zero pid st_size recno out s h r p f few fewer = absurd (omega arith)
expand_loop-entries (e ∷ es) zero pid st_size recno out s h r p f few fewer = absurd (omega arith)
expand_loop-entries [] (suc fuel) pid st_size recno out s h r p f few fewer =
    let (idle, empty) = at_end s r p in
    let g = get_le_end s idle empty in
    let e1 : recno + 0 ≡ recno = omega arith in
    let e2 : s.bytes_seen + 0 ≡ s.bytes_seen = omega arith in
    rw (ap (λ t. t.0) g, expand_loop, ap (λ t. t.1.bytes_seen) g, e1, e2, append-nil)
      (ap
        (λ b.
          finished
            (record { printed = out; recno = recno; bytes = s.bytes_seen; mismatch = not b }))
        (eqb_small st_size s.bytes_seen (omega (arith, few))))
expand_loop-entries (e ∷ es) (suc fuel) pid st_size recno out s h r p f few fewer =
    let g =
      get_le-GotEntry false e s (log_bytes es) h.0 r p
        (omega (arith, few, length-append (entry_bytes e) (log_bytes es))) in
    let e0 : (recno + 1) % 4294967296 ≡ recno + 1 = omega (arith, fewer) in
    let e1 : recno + 1 + length es ≡ recno + suc (length es) = omega arith in
    let e2 : (get_le false s).1.bytes_seen + length (log_bytes es)
        ≡ s.bytes_seen + length (entry_bytes e ++ log_bytes es) =
      omega (arith, g.seen, length-append (entry_bytes e) (log_bytes es)) in
    rw (g.result, expand_loop, e0)
      (expand_loop-entries es fuel pid st_size (recno + 1) (out ++ shown pid (thawed e))
          (get_le false s).1 h.1 g.ready g.left (omega arith)
          (omega (arith, few, g.seen, length-append (entry_bytes e) (log_bytes es)))
          (omega (arith, fewer))
        ∙ rw (e1, e2, append_assoc out (shown pid (thawed e)) (selected pid es)))

-- An entry has a byte at least.
entries_few : (es : List Entry) → length es ≤ length (log_bytes es)
entries_few [] = omega arith
entries_few (e ∷ es) =
    omega
      (arith, entries_few es, length-append (entry_bytes e) (log_bytes es), length-entry_bytes e)

-- For a log of well-formed entries of less than 2 ^ 31 bytes, cut into reads in any way, a reader at its start, and fuel for
-- a round more than there are entries: `expand` runs to its end, prints the entries in order,
-- those of process `pid` alone if `pid` is not 0, totals all entries and all bytes, and reports a
-- size mismatch exactly if `st_size` is not the number of bytes of the log.
pub expand-entries :
    (es : List Entry) (fuel pid st_size : ℕ) (s : Reader)
    → All IsEntry es
    → IsReady s
    → s.bytes_seen ≡ 0
    → pending s ≡ log_bytes es
    → length es < fuel
    → length (log_bytes es) < 2147483648
    → expand fuel pid st_size s
      ≡ finished (record {
        printed = selected pid es;
        recno = length es;
        bytes = length (log_bytes es);
        mismatch = not (st_size == length (log_bytes es));
      })
unfolding expand
expand-entries es fuel pid st_size s h r z p f few =
    let e1 : 0 + length es ≡ length es = omega arith in
    let e2 : s.bytes_seen + length (log_bytes es) ≡ length (log_bytes es) = omega arith in
    expand_loop-entries es fuel pid st_size 0 [] s h r p f (omega (arith, few, z))
      (omega (arith, few, entries_few es))
    ∙ rw (e1, e2)
