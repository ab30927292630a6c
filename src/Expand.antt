-- ===== src/Expand.antt =====
-- The loop of logd/expand.c: every entry of a raw log, or those of one process, printed in order.
pub mod Prints
use borderpatrol.Base.{
  ℕ, zero, suc, ◌+◌, ◌%◌, Bool, true, false, List, [], ◌∷◌, ◌++◌, ◌==◌, not, ◌||◌, if◌then◌else◌,
}
use borderpatrol.Base.Int.{pos, eqb_ℤ, int_of_bits}
use borderpatrol.Fmt.{Thawed}
use borderpatrol.Reader.{Reader, Got, entry, null, get_le}

-- What `main` has printed: the entries passed to `output_le`, the bits of the two totals, of type `int`, and whether the line
-- "ERROR! size mismatch" follows.
pub record Report : Type 0 where
  pub printed : List Thawed
  pub recno : ℕ
  pub bytes : ℕ
  pub mismatch : Bool

-- `died` is an abort or `exit` below `get_le`; `endless` means that the fuel ran out.
pub data Expand : Type 0 where
  finished : Report → Expand
  died endless : Expand

-- `pid && le->fz.pid != pid` skips the entry.
abbrev pub shown : ℕ → Thawed → List Thawed
shown pid le = if pid == 0 || le.fz.pid == pid then le ∷ [] else []

expand_loop : ℕ → ℕ → ℕ → ℕ → List Thawed → Reader → Expand
expand_loop zero pid st_size recno out s = endless
expand_loop (suc fuel) pid st_size recno out s =
    let (g, s') = get_le false s in
    elim g [
      | entry le ↦ expand_loop fuel pid st_size ((recno + 1) % 4294967296) (out ++ shown pid le) s'
      | null ↦ finished (record {
        printed = out;
        recno = recno;
        bytes = s'.bytes_seen;
        mismatch = not (eqb_ℤ (pos st_size) (int_of_bits s'.bytes_seen));
      })
      | _ ↦ died
    ]

-- `main` behind its arguments: `pid` is 0 where none is given, `st_size` is the file's size.
pub expand : ℕ → ℕ → ℕ → Reader → Expand
unfolding expand_loop
expand fuel pid st_size s = expand_loop fuel pid st_size 0 [] s
