-- ===== src/Fmt/RoundTrip.antt =====
-- What `freeze` makes of a well-formed entry, and `thaw1` and `thaw2` of those bytes
-- (logd/fmt.c).
use borderpatrol.Base.{
  ℕ, zero, suc, ◌+◌, ◌*◌, ◌-◌, ◌^◌, ◌<◌, ◌≤◌, ◌≡◌, refl, sym, ap, some, List, [], ◌∷◌, ◌++◌, length,
  length-append, drop, replicate, All, arith, take-append, drop-append, ◌==◌, true, if◌then◌else◌,
  le→leb, ne→==, append_assoc,
}
use borderpatrol.Base.Int.{ℤ, pos, ◌+ℤ◌, ◌-ℤ◌, int_laws, schar, short, eqb_ℤ}
use borderpatrol.Base.Bytes.{from_le-to_le}
use borderpatrol.Fmt.{
  Frozen, frozen_bytes, frozen_size, arg_bytes, freeze, thaw1, thaw_args, thaw2, memcpy,
}
use borderpatrol.Fmt.Entry.{
  IsFrozen, Entry, IsEntry, args_le, length-args_le, tail_bytes, entry_bytes, thawed,
  length-frozen_bytes, length-entry_bytes,
}
use borderpatrol.Base.Tests.{◌>>=◌}

-- `thaw1` reads back the fixed part, whatever follows it.
pub thaw1-frozen_bytes :
    (f : Frozen) (rest : List ℕ) → IsFrozen f → thaw1 (frozen_bytes f ++ rest) ≡ some f
unfolding thaw1 frozen_bytes
thaw1-frozen_bytes f rest h = rw (le→leb 32 (length (frozen_bytes f ++ rest)) (omega arith)) λ i.
    some (record {
      tid = from_le-to_le 8 f.tid h.tid_fits i;
      pid = from_le-to_le 4 f.pid h.pid_fits i;
      cycle_high = from_le-to_le 4 f.cycle_high h.high_fits i;
      cycle_low = from_le-to_le 4 f.cycle_low h.low_fits i;
      sc = from_le-to_le 2 f.sc h.sc_fits i;
      rv = from_le-to_le 2 f.rv h.rv_fits i;
      nm = from_le-to_le 1 f.nm h.nm_fits i;
      arg_len = from_le-to_le 1 f.arg_len h.arg_len_fits i;
      str_len = from_le-to_le 2 f.str_len h.str_len_fits i;
      padding = from_le-to_le 4 f.padding h.padding_fits i;
    })

pub frozen_size_lem :
    (e : Entry) → IsEntry e → frozen_size e.fz ≡ pos (32 + (4 * length e.args + length e.text))
unfolding frozen_size ◌+ℤ◌
frozen_size_lem e h = ground (arith, h.arg_count, h.text_count, h.at_most_three, h.text_fits)

arg_bytes_lem :
    (args rest : List ℕ) (n : ℕ)
    → n ≡ length args
    → arg_bytes (pos n) (args ++ rest) ≡ some (args_le args)
unfolding arg_bytes
arg_bytes_lem [] rest zero e = refl
arg_bytes_lem [] rest (suc n) e = absurd (omega arith)
arg_bytes_lem (a ∷ args) rest zero e = absurd (omega arith)
arg_bytes_lem (a ∷ args) rest (suc n) e = rw (arg_bytes_lem args rest n (omega arith))

thaw_args_lem :
    (args rest : List ℕ) (room n : ℕ)
    → n ≡ length args
    → length args ≤ room
    → All (λ a. a < 256 ^ 4) args
    → thaw_args room (pos n) (args_le args ++ rest)
      ≡ some (args ++ replicate (room - length args) 0, rest)
unfolding thaw_args
thaw_args_lem [] rest zero zero e h fits = refl
thaw_args_lem [] rest (suc room) zero e h fits =
    let short : suc room - 0 ≡ suc (room - 0) = omega arith in
    rw (short, thaw_args_lem [] rest room zero refl (omega arith) tt)
thaw_args_lem [] rest room (suc n) e h fits = absurd (omega arith)
thaw_args_lem (a ∷ args) rest room zero e h fits = absurd (omega arith)
thaw_args_lem (a ∷ args) rest zero (suc n) e h fits = absurd (omega arith)
thaw_args_lem (a ∷ args) rest (suc room) (suc n) e h fits =
    let short : suc room - suc (length args) ≡ room - length args = omega arith in
    rw
      (
        le→leb 4 (length (args_le (a ∷ args) ++ rest)) (omega arith),
        short,
        thaw_args_lem args rest room n (omega arith) (omega arith) fits.1,
      )
      (ap (λ t. some (t ∷ (args ++ replicate (room - length args) 0), rest))
        (from_le-to_le 4 a fits.0))

-- A copy of as many bytes as the first part holds gives the first part.
memcpy-append : (xs rest : List ℕ) (n : ℕ) → n ≡ length xs → memcpy (pos n) (xs ++ rest) ≡ some xs
memcpy-append xs rest n e =
    rw (
      le→leb n (length (xs ++ rest)) (omega (arith, length-append xs rest)),
      take-append xs rest n e,
    )

-- A copy of no bytes is not made, and the reader's text ends with a 0.
copy_text :
    (n : ℕ) (xs rest : List ℕ)
    → n ≡ length xs
    → (if n == 0 then some [] else memcpy (pos n) (xs ++ rest)) ≡ some xs
copy_text zero [] rest e = refl
copy_text zero (x ∷ xs) rest e = absurd (omega arith)
copy_text (suc n) xs rest e = rw (ne→== (suc n) 0 (omega arith)) (memcpy-append xs rest (suc n) e)

copy_thawed_text :
    (n : ℕ) (xs : List ℕ)
    → n ≡ length xs
    → (if n == 0 then some [] else memcpy (pos n) (if n == 0 then [] else xs ++ (0 ∷ []))) ≡ some xs
copy_thawed_text zero [] e = refl
copy_thawed_text zero (x ∷ xs) e = absurd (omega arith)
copy_thawed_text (suc n) xs e =
    rw (ne→== (suc n) 0 (omega arith)) (memcpy-append xs (0 ∷ []) (suc n) e)

short_small : (n : ℕ) → n < 32768 → short n ≡ pos n
short_small n h = ground arith

schar_small : (n : ℕ) → n ≤ 3 → schar n ≡ pos n
schar_small n h = ground arith

eqb_ℤ-refl : (a b : ℤ) → a ≡ b → eqb_ℤ a b ≡ true
eqb_ℤ-refl a b e = ground arith

-- A well-formed entry freezes into its bytes: both asserts and the bounds of `arg` hold.
pub freeze_lem :
    (e : Entry) → IsEntry e → freeze (thawed e) (frozen_size e.fz) ≡ some (entry_bytes e)
unfolding freeze thawed entry_bytes
freeze_lem e h = rw (
  schar_small e.fz.arg_len (omega arith),
  short_small e.fz.str_len (omega arith),
  arg_bytes_lem e.args (replicate (3 - length e.args) 0) e.fz.arg_len h.arg_count,
  copy_thawed_text e.fz.str_len e.text h.text_count,
  eqb_ℤ-refl (frozen_size e.fz) (pos (length (entry_bytes e)))
      (rw (frozen_size_lem e h, length-entry_bytes e)),
)

-- The size that the reader asserts is what it has used.
rest_size :
    (e : Entry) (rest : List ℕ)
    → IsEntry e
    → frozen_size e.fz -ℤ pos 32
      ≡ pos (length (args_le e.args ++ (e.text ++ rest)))
        -ℤ pos (length (e.text ++ rest))
        +ℤ pos (length e.text)
rest_size e rest h =
    rw
      (
        frozen_size_lem e h,
        length-append (args_le e.args) (e.text ++ rest),
        length-append e.text rest,
        length-args_le e.args,
      )
      (omega int_laws)

-- `thaw2` reads back the arguments, 0 in the unused slots, and the text with a 0 behind it,
-- whatever follows the entry.
pub thaw2_lem :
    (e : Entry) (rest : List ℕ)
    → IsEntry e
    → thaw2 (tail_bytes e ++ rest) e.fz (frozen_size e.fz -ℤ pos 32) ≡ some (thawed e)
unfolding thaw2 thawed
thaw2_lem e rest h = rw (
  schar_small e.fz.arg_len (omega arith),
  short_small e.fz.str_len (omega arith),
  append_assoc (args_le e.args) e.text rest,
  thaw_args_lem e.args (e.text ++ rest) 3 e.fz.arg_len h.arg_count h.at_most_three h.args_fit,
  copy_text e.fz.str_len e.text rest h.text_count,
  eqb_ℤ-refl _ _ (rest_size e rest h),
)

pub thaw1-entry_bytes :
    (e : Entry) (rest : List ℕ) → IsEntry e → thaw1 (entry_bytes e ++ rest) ≡ some e.fz
unfolding entry_bytes
thaw1-entry_bytes e rest h =
    rw (append_assoc (frozen_bytes e.fz) (tail_bytes e) rest)
      (thaw1-frozen_bytes e.fz (tail_bytes e ++ rest) h.frozen)

pub drop-entry_bytes :
    (e : Entry) (rest : List ℕ) → drop 32 (entry_bytes e ++ rest) ≡ tail_bytes e ++ rest
unfolding entry_bytes
drop-entry_bytes e rest =
    rw (append_assoc (frozen_bytes e.fz) (tail_bytes e) rest)
      (drop-append (frozen_bytes e.fz) (tail_bytes e ++ rest) 32 (sym (length-frozen_bytes e.fz)))

-- For a well-formed entry and any bytes `rest` behind it: freezing succeeds, and thawing the frozen
-- bytes in the two steps in which every reader does it gives the entry back.
pub thaw-freeze :
    (e : Entry) (rest : List ℕ)
    → IsEntry e
    → (do
      buf ← freeze (thawed e) (frozen_size e.fz)
      fz ← thaw1 (buf ++ rest)
      thaw2 (drop 32 (buf ++ rest)) fz (frozen_size fz -ℤ pos 32))
      ≡ some (thawed e)
thaw-freeze e rest h =
    rw (freeze_lem e h, thaw1-entry_bytes e rest h, drop-entry_bytes e rest) (thaw2_lem e rest h)
