-- ===== src/Binlog/Logged.antt =====
-- What a call of logd/binlog.c logs: a well-formed entry.
use borderpatrol.Base.{
  ℕ, ◌+◌, ◌-◌, ◌*◌, ◌^◌, ◌<◌, ◌≤◌, ◌≡◌, refl, sym, inl, inr, some, List, [], ◌∷◌, ◌++◌, map,
  append-nil, arith, length, take, drop, ltb, ltb→le, le→ltb, Bool-cases, length-take, length-drop,
  All, All-append, All-take, All-drop, le→leb,
}
use borderpatrol.Base.Int.{ℤ, pos, negsuc, pos_part, ◌+ℤ◌}
use borderpatrol.Base.Bytes.{to_le, IsByte, to_le-IsByte, from_le-lt}
use borderpatrol.Fmt.{Frozen, frozen_bytes, predict_size, thaw1, from_memory}
use borderpatrol.Fmt.Entry.{Entry, IsEntry, args_le}
use borderpatrol.Binlog.{
  Ctx, Time, Write, pipe_buf, pattern_of, no_newline, lb_populate, lb_alloc_bytes,
}
use borderpatrol.Binlog.Flush.{Succeeds, lb_flush_sends}

pub record IsLogger (c : Ctx) : Type 0 where
  pub room : length c.lb ≡ pipe_buf
  pub fits : c.lbptr ≤ pipe_buf
  pub bytes : All IsByte c.lb
  pub writes_succeed : All Succeeds c.writes

-- Everything that has been logged.
abbrev pub stream : Ctx → List ℕ
stream c = c.sent ++ take c.lbptr c.lb

-- What a call leaves alone.
pub record SameThread (c c' : Ctx) : Type 0 where
  pub same_pid : c'.pid ≡ c.pid
  pub same_tid : c'.tid ≡ c.tid
  pub same_prog : c'.prog_nm ≡ c.prog_nm
  pub same_high : c'.fz_high ≡ c.fz_high
  pub same_low : c'.fz_low ≡ c.fz_low

-- The room given starts behind the buffered bytes, and the stream is as it was.
pub alloc_lem :
    (bytes : ℕ) (c : Ctx)
    → IsLogger c
    → bytes ≤ pipe_buf
    → (base : ℕ) × (sent : List ℕ) × (ws : List Write) × (lb_alloc_bytes bytes c
        ≡ some (base, record c { lbptr = base + bytes; sent = sent; writes = ws }))
      × (base + bytes ≤ pipe_buf)
      × (sent ++ take base c.lb ≡ stream c)
      × All Succeeds ws
unfolding lb_alloc_bytes
alloc_lem bytes c h fits = elim (Bool-cases (ltb (pipe_buf - 1) (c.lbptr + bytes))) [
  | inl e ↦
      let (ws, ok, p) = lb_flush_sends c h.writes_succeed in
      (
        0,
        c.sent ++ take c.lbptr c.lb,
        ws,
        rw (le→ltb pipe_buf bytes fits, e, p),
        omega arith,
        append-nil (stream c),
        ok,
      )
  | inr e ↦ (
    c.lbptr,
    c.sent,
    c.writes,
    rw (le→ltb pipe_buf bytes fits, e),
    omega (arith, ltb→le _ _ e),
    refl,
    h.writes_succeed,
  )
]

pub size_lem : (n k : ℕ) → pos_part (predict_size (pos n) (pos k)) ≡ 32 + (4 * n + k)
unfolding predict_size ◌+ℤ◌
size_lem n k = ground arith

pub pattern_of-lt : (v : ℤ) → pattern_of (2 ^ 32) v < 256 ^ 4
pattern_of-lt (pos n) = omega arith
pattern_of-lt (negsuc n) = omega arith

patterns_fit : (vals : List ℤ) → All (λ a. a < 256 ^ 4) (map (pattern_of (2 ^ 32)) vals)
patterns_fit [] = tt
patterns_fit (v ∷ vals) = (pattern_of-lt v, patterns_fit vals)

pub length-map : (s : List ℕ) → length (map no_newline s) ≡ length s
length-map [] = refl
length-map (b ∷ s) = omega (arith, length-map s)

pub length-patterns : (vals : List ℤ) → length (map (pattern_of (2 ^ 32)) vals) ≡ length vals
length-patterns [] = refl
length-patterns (v ∷ vals) = omega (arith, length-patterns vals)

-- The entry that a call logs. Of `old`, what lay in its place, the padding is left.
unfoldable pub logged : Time → Ctx → ℤ → ℤ → List ℤ → List ℕ → Frozen → Entry
logged t c sc rv vals s old = record {
  fz = record (lb_populate t c sc rv old) { arg_len = length vals; str_len = length s };
  args = map (pattern_of (2 ^ 32)) vals;
  text = map no_newline s;
}

pub logged-IsEntry :
    (t : Time) (c : Ctx) (sc rv : ℤ) (vals : List ℤ) (s : List ℕ) (old : Frozen)
    → c.prog_nm < 256
    → length vals ≤ 3
    → length s < 32768
    → old.padding < 256 ^ 4
    → IsEntry (logged t c sc rv vals s old)
unfolding logged lb_populate
logged-IsEntry t c sc rv vals s old nm n3 sl pad = record {
  frozen = record {
    tid_fits = omega arith;
    pid_fits = omega arith;
    high_fits = omega arith;
    low_fits = omega arith;
    sc_fits = small sc;
    rv_fits = small rv;
    nm_fits = omega arith;
    arg_len_fits = omega arith;
    str_len_fits = omega arith;
    padding_fits = pad;
  };
  arg_count = sym (length-patterns vals);
  at_most_three = omega (arith, length-patterns vals);
  args_fit = patterns_fit vals;
  text_count = sym (length-map s);
  text_fits = omega (arith, length-map s);
}
  where
    small : (v : ℤ) → pattern_of (2 ^ 16) v < 256 ^ 2
    small (pos n) = omega arith
    small (negsuc n) = omega arith

pub frozen_bytes-IsByte : (f : Frozen) → All IsByte (frozen_bytes f)
unfolding frozen_bytes
frozen_bytes-IsByte f = omega arith

pub args_le-IsByte : (args : List ℕ) → All IsByte (args_le args)
args_le-IsByte [] = tt
args_le-IsByte (a ∷ args) =
    All-append IsByte (to_le 4 a) (args_le args) (to_le-IsByte 4 a) (args_le-IsByte args)

pub no_newline-IsByte : (s : List ℕ) → All IsByte s → All IsByte (map no_newline s)
no_newline-IsByte [] h = tt
no_newline-IsByte (b ∷ s) h = (ground (arith, h.0), no_newline-IsByte s h.1)

-- What lies in the buffer reads as some fixed part, and its padding fits.
pub old_entry :
    (mem : List ℕ)
    → All IsByte mem
    → 32 ≤ length mem
    → (old : Frozen) × (thaw1 mem ≡ some old) × (old.padding < 256 ^ 4)
unfolding thaw1
old_entry mem h n = (
  from_memory mem,
  rw (le→leb 32 (length mem) n),
  from_le-lt 4 (take 4 (drop 28 mem))
      (omega (arith, length-take 4 (drop 28 mem), length-drop 28 mem))
      (All-take IsByte 4 (drop 28 mem) (All-drop IsByte 28 mem h)),
)
