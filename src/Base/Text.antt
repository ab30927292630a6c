-- ===== src/Base/Text.antt =====
-- C strings in memory, and the parts of <string.h>, <stdlib.h> and <stdio.h> that work on them.
-- `none` is a read past the end of the memory given.
use Prim.Native.Char.{code}
use Prim.Native.String.{String}
use Prim.Native.Nat.{ℕ, zero, suc, ◌+◌, ◌-◌, ◌*◌, ◌/◌, ◌%◌}
use mathlib.Core.Bool.{Bool, true, false, ◌&&◌, ◌||◌}
use mathlib.Core.Option.{Option, none, some}
use mathlib.Core.List.{List, [], ◌∷◌}
use borderpatrol.Base.Tests.{ltb, leb, ◌==◌, if◌then◌else◌, ◌>>=◌}
use borderpatrol.Base.Lists.{replicate}
use borderpatrol.Base.Int.{ℤ, pos, negsuc}

-- The bytes of a literal.
abbrev pub codes : String → List ℕ
codes String.[] = []
codes (String.◌∷◌ c s) = code c ∷ codes s

-- The string that begins the memory, without its 0.
unfoldable pub c_str : List ℕ → Option (List ℕ)
c_str [] = none
c_str (b ∷ mem) = let rest = c_str mem in if b == 0 then some [] else (do s ← rest; some (b ∷ s))

-- What a `char[]` shows as a string, all of it at most.
abbrev pub up_to_0 : List ℕ → List ℕ
up_to_0 [] = []
up_to_0 (b ∷ s) = let rest = up_to_0 s in if b == 0 then [] else b ∷ rest

abbrev pub starts : List ℕ → List ℕ → Bool
starts [] mem = true
starts (p ∷ pat) [] = false
starts (p ∷ pat) (b ∷ mem) = p == b && starts pat mem

-- `strstr`: the offset of the first place, `some none` where there is none.
pub strstr : List ℕ → List ℕ → Option (Option ℕ)
strstr [] pat = none
strstr (b ∷ mem) pat =
    let rest = strstr mem pat in
    if starts pat (b ∷ mem)
    then some (some 0)
    else if b == 0
    then some none
    else (do found ← rest; some (found >>= λ i. some (suc i)))

-- `strstr` of a string that is whole.
abbrev pub contains : List ℕ → List ℕ → Bool
contains [] pat = starts pat []
contains (b ∷ s) pat = starts pat (b ∷ s) || contains s pat

-- What `strncpy(to, mem, n)` writes: `n` bytes, zeros behind the end of the string.
pub strncpy : ℕ → List ℕ → Option (List ℕ)
strncpy zero mem = some []
strncpy (suc n) [] = none
strncpy (suc n) (b ∷ mem) =
    let rest = strncpy n mem in
    if b == 0 then some (0 ∷ replicate n 0) else (do s ← rest; some (b ∷ s))

abbrev pub mem? : ℕ → List ℕ → Bool
mem? b [] = false
mem? b (c ∷ cs) = b == c || mem? b cs

-- The first byte of the memory that is not in `delims`.
pub skip_delims : List ℕ → List ℕ → List ℕ
skip_delims delims [] = []
skip_delims delims (b ∷ mem) =
    let rest = skip_delims delims mem in if mem? b delims then rest else b ∷ mem

-- A token up to a byte of `delims`, which is left out, or up to the string's end, which is not.
pub token : List ℕ → List ℕ → Option (List ℕ × List ℕ)
token delims [] = none
token delims (b ∷ mem) =
    let rest = token delims mem in
    if b == 0
    then some ([], 0 ∷ mem)
    else if mem? b delims
    then some ([], mem)
    else (do (t, saved) ← rest; some (b ∷ t, saved))

-- `strtok` from where the last call has left off: NULL is `[]`, and what is left off at follows.
pub strtok : List ℕ → List ℕ → Option (List ℕ × List ℕ)
unfolding token skip_delims
strtok delims mem = token delims (skip_delims delims mem)

abbrev pub digit? : ℕ → Bool
digit? b = leb b'0' b && leb b b'9'

unfoldable pub digits : ℕ → List ℕ → ℕ
digits acc [] = acc
digits acc (b ∷ s) = let more = digits (acc * 10 + (b - b'0')) s in if digit? b then more else acc

-- Blanks, tabs, newlines and the other white space of `isspace`.
abbrev pub space? : ℕ → Bool
space? b = b == 32 || (leb 9 b && leb b 13)

unfoldable pub skip_spaces : List ℕ → List ℕ
skip_spaces [] = []
skip_spaces (b ∷ s) = let rest = skip_spaces s in if space? b then rest else b ∷ s

abbrev pub negated : ℕ → ℤ
negated zero = pos 0
negated (suc n) = negsuc n

unfoldable pub signed : List ℕ → ℤ
unfolding digits
signed [] = pos 0
signed (b ∷ s) =
    if b == b'-'
    then negated (digits 0 s)
    else if b == b'+'
    then pos (digits 0 s)
    else pos (digits 0 (b ∷ s))

-- `atoi`, `none` where the number is no int.
unfoldable pub atoi : List ℕ → Option ℤ
unfolding signed skip_spaces
atoi s = elim (signed (skip_spaces s)) [
  | pos n ↦ if ltb n 2147483648 then some (pos n) else none
  | negsuc n ↦ if ltb n 2147483648 then some (negsuc n) else none
]

-- `%llu`, with fuel for 20 digits, which every 64-bit number has room in.
unfoldable pub decimal_loop : ℕ → ℕ → List ℕ → List ℕ
decimal_loop zero n out = out
decimal_loop (suc fuel) n out =
    let digits = (b'0' + n % 10) ∷ out in
    let rest = decimal_loop fuel (n / 10) digits in if ltb n 10 then digits else rest

unfoldable pub decimal : ℕ → List ℕ
unfolding decimal_loop
decimal n = decimal_loop 20 n []

-- `%d` of an int whose bit pattern is `n`.
pub decimal_int : ℕ → List ℕ
unfolding decimal
decimal_int n = if ltb n 2147483648 then decimal n else b'-' ∷ decimal (4294967296 - n)
