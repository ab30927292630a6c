-- ===== src/Fmt/Entry.antt =====
-- A well-formed log entry, told apart from its two C forms: the bytes that a writer puts on the
-- wire and the `logentry_thaw_t` that a reader makes of them (logd/fmt.c).
use borderpatrol.Base.{
  ℕ, ◌+◌, ◌*◌, ◌-◌, ◌^◌, ◌<◌, ◌≤◌, ◌≡◌, refl, sym, append_assoc, List, [], ◌∷◌, ◌++◌, length,
  length-append, replicate, All, arith, ◌==◌, if◌then◌else◌,
}
use borderpatrol.Base.Bytes.{to_le}
use borderpatrol.Fmt.{Frozen, Thawed, frozen_bytes}

-- The values of the fields fit them.
pub record IsFrozen (f : Frozen) : Type 0 where
  pub tid_fits : f.tid < 256 ^ 8
  pub pid_fits : f.pid < 256 ^ 4
  pub high_fits : f.cycle_high < 256 ^ 4
  pub low_fits : f.cycle_low < 256 ^ 4
  pub sc_fits : f.sc < 256 ^ 2
  pub rv_fits : f.rv < 256 ^ 2
  pub nm_fits : f.nm < 256 ^ 1
  pub arg_len_fits : f.arg_len < 256 ^ 1
  pub str_len_fits : f.str_len < 256 ^ 2
  pub padding_fits : f.padding < 256 ^ 4

pub record Entry : Type 0 where
  pub fz : Frozen
  pub args : List ℕ
  pub text : List ℕ

pub record IsEntry (e : Entry) : Type 0 where
  pub frozen : IsFrozen e.fz
  pub arg_count : e.fz.arg_len ≡ length e.args
  pub at_most_three : length e.args ≤ 3
  pub args_fit : All (λ a. a < 256 ^ 4) e.args
  pub text_count : e.fz.str_len ≡ length e.text
  pub text_fits : length e.text < 32768

abbrev pub args_le : List ℕ → List ℕ
args_le [] = []
args_le (a ∷ args) = to_le 4 a ++ args_le args

pub length-args_le : (args : List ℕ) → length (args_le args) ≡ 4 * length args
length-args_le [] = refl
length-args_le (a ∷ args) = omega (arith, length-args_le args)

-- What follows the fixed part, and the whole.
abbrev pub tail_bytes : Entry → List ℕ
tail_bytes e = args_le e.args ++ e.text

unfoldable pub entry_bytes : Entry → List ℕ
entry_bytes e = frozen_bytes e.fz ++ tail_bytes e

unfoldable pub thawed : Entry → Thawed
thawed e = record {
  fz = e.fz;
  str = if e.fz.str_len == 0 then [] else e.text ++ (0 ∷ []);
  arg = e.args ++ replicate (3 - length e.args) 0;
}

pub length-frozen_bytes : (f : Frozen) → length (frozen_bytes f) ≡ 32
unfolding frozen_bytes
length-frozen_bytes f = refl

pub length-entry_bytes :
    (e : Entry) → length (entry_bytes e) ≡ 32 + (4 * length e.args + length e.text)
unfolding entry_bytes
length-entry_bytes e = omega (
  arith,
  length-append (frozen_bytes e.fz) (tail_bytes e),
  length-append (args_le e.args) e.text,
  length-args_le e.args,
  length-frozen_bytes e.fz,
)

-- The bytes of a log.
abbrev pub log_bytes : List Entry → List ℕ
log_bytes [] = []
log_bytes (e ∷ es) = entry_bytes e ++ log_bytes es

pub log_bytes-append : (es fs : List Entry) → log_bytes (es ++ fs) ≡ log_bytes es ++ log_bytes fs
log_bytes-append [] fs = refl
log_bytes-append (e ∷ es) fs =
    rw (log_bytes-append es fs) (sym (append_assoc (entry_bytes e) (log_bytes es) (log_bytes fs)))
