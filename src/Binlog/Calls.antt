-- ===== src/Binlog/Calls.antt =====
-- The calls of logd/binlog.c that log an event: each is `LOGBIN_gen` at some arguments.
use borderpatrol.Base.{ℕ, Option, List, [], ◌∷◌, ◌++◌}
use borderpatrol.Base.Int.{ℤ, pos, negsuc}
use borderpatrol.Base.Text.{decimal}
use borderpatrol.Binlog.{Ctx, Time, logbin_gen}

pub logbin0 : Time → ℤ → ℤ → Ctx → Option Ctx
logbin0 t sc rv = logbin_gen t sc rv (pos 0) (pos 0) (pos 0) 0 []

pub logbin_li : Time → ℤ → ℤ → ℕ → ℤ → Ctx → Option Ctx
logbin_li t sc rv ptid ppid = logbin_gen t sc rv ppid (pos 0) (pos 0) 1 (decimal ptid)

pub logbin_s : Time → ℤ → ℤ → List ℕ → Ctx → Option Ctx
logbin_s t sc rv s = logbin_gen t sc rv (pos 0) (pos 0) (pos 0) 0 s

-- The copy is joined by "=-=".
pub logbin_ss : Time → ℤ → ℤ → List ℕ → List ℕ → Ctx → Option Ctx
logbin_ss t sc rv s1 s2 = logbin_s t sc rv (s1 ++ (b'=' ∷ b'-' ∷ b'=' ∷ []) ++ s2)

pub logbin_is : Time → ℤ → ℤ → ℤ → List ℕ → Ctx → Option Ctx
logbin_is t sc rv i1 s = logbin_gen t sc rv i1 (pos 0) (pos 0) 1 s

pub logbin_iis : Time → ℤ → ℤ → ℤ → ℤ → List ℕ → Ctx → Option Ctx
logbin_iis t sc rv i1 i2 s = logbin_gen t sc rv i1 i2 (pos 0) 2 s

pub logbin_iiis : Time → ℤ → ℤ → ℤ → ℤ → ℤ → List ℕ → Ctx → Option Ctx
logbin_iiis t sc rv i1 i2 i3 s = logbin_gen t sc rv i1 i2 i3 3 s

pub logbin_iii : Time → ℤ → ℤ → ℤ → ℤ → ℤ → Ctx → Option Ctx
logbin_iii t sc rv i1 i2 i3 = logbin_gen t sc rv i1 i2 i3 3 []

pub logbin_ii : Time → ℤ → ℤ → ℤ → ℤ → Ctx → Option Ctx
logbin_ii t sc rv i1 i2 = logbin_gen t sc rv i1 i2 (pos 0) 2 []

pub logbin_i : Time → ℤ → ℤ → ℤ → Ctx → Option Ctx
logbin_i t sc rv i1 = logbin_gen t sc rv i1 (pos 0) (pos 0) 1 []

-- `LOGBINfatal` has -1 for the call and for its value.
pub logbin_fatal : Time → List ℕ → Ctx → Option Ctx
logbin_fatal t s = logbin_s t (negsuc 0) (negsuc 0) s
