-- ===== src/Services.antt =====
-- trace/getservice.c: the reader of the services file, and `getportbyname`. A file is the list of the
-- lines that `fgets` gives, each without a zero byte; `none` where a file is a list stands for one
-- that cannot be opened. A port outside of `int` is undefined behaviour of `atoi`: `none`. The lock
-- is recursive and is left out; no caller keeps the file open.
pub mod Port
pub mod Examples
use borderpatrol.Base.{
  ℕ, zero, suc, ◌+◌, ◌*◌, ◌/◌, ◌%◌, ◌^◌, Bool, true, false, ◌&&◌, ◌||◌, ◌==◌, if◌then◌else◌, Option,
  none, some, List, [], ◌∷◌, take, ◌>>=◌,
}
use borderpatrol.Base.Int.{ℤ, pos, negsuc}
use borderpatrol.Base.Text.{mem?, starts, atoi}
use borderpatrol.Binlog.{pattern_of}

-- `struct servent`, with the strings that its pointers show when an entry is whole.
pub record Servent : Type 0 where
  pub s_name : List ℕ
  pub s_aliases : List (List ℕ)
  pub s_port : ℕ
  pub s_proto : List ℕ

abbrev pub htons : ℕ → ℕ
htons n = n % 256 * 256 + n / 256

abbrev pub ntohs : ℕ → ℕ
ntohs n = n % 256 * 256 + n / 256

-- `strpbrk`: what stands before the first byte of a set, and from behind it.
unfoldable pub strpbrk : List ℕ → List ℕ → Option (List ℕ × List ℕ)
strpbrk set [] = none
strpbrk set (c ∷ s) = elim (mem? c set) [
  | true ↦ some ([], s)
  | false ↦ strpbrk set s >>= λ t. some (c ∷ t.0, t.1)
]

abbrev pub blanks : List ℕ
blanks = 32 ∷ 9 ∷ []

pub skip_blanks : List ℕ → List ℕ
skip_blanks [] = []
skip_blanks (c ∷ s) = elim (mem? c blanks) [ true ↦ skip_blanks s | false ↦ c ∷ s ]

pub push : List ℕ → List (List ℕ) → List (List ℕ)
push [] words = words
push (c ∷ s) words = (c ∷ s) ∷ words

-- The word at the front, and the words behind it.
pub front_word : List ℕ → List ℕ × List (List ℕ)
front_word [] = ([], [])
front_word (c ∷ s) =
    let t = front_word s in if mem? c blanks then ([], push t.0 t.1) else (c ∷ t.0, t.1)

-- Of more than 34 words the others are dropped.
pub aliases : List ℕ → List (List ℕ)
aliases s = take 34 (push (front_word s).0 (front_word s).1)

-- The protocol's name, and the aliases behind it.
pub with_proto : List ℕ → ℕ → List ℕ → Option (List ℕ × List ℕ) → Servent
with_proto name port rest none = record {
  s_name = name;
  s_aliases = [];
  s_port = port;
  s_proto = rest;
}
with_proto name port rest (some (proto, more)) = record {
  s_name = name;
  s_aliases = aliases more;
  s_port = port;
  s_proto = proto;
}

pub with_port : List ℕ → Option (List ℕ × List ℕ) → Option (Option Servent)
with_port name none = some none
with_port name (some (port, rest)) = atoi port >>= λ n.
    some (some (with_proto name (htons (pattern_of (2 ^ 16) n)) rest (strpbrk blanks rest)))

pub with_name : Option (List ℕ × List ℕ) → Option (Option Servent)
with_name none = some none
with_name (some (name, rest)) = with_port name (strpbrk (44 ∷ 47 ∷ []) (skip_blanks rest))

pub uncommented : Option (List ℕ × List ℕ) → Option (Option Servent)
uncommented none = some none
uncommented (some (text, comment)) = with_name (strpbrk blanks text)

-- An entry, or `none` inside for a line that `bpgetservent_r` passes over: a comment, one that has
-- no `#` and no newline, and one without a name or without a port behind it.
pub parse_line : List ℕ → Option (Option Servent)
parse_line [] = some none
parse_line (c ∷ s) = elim (c == 35) [
  | true ↦ some none
  | false ↦ uncommented (strpbrk (35 ∷ 10 ∷ []) (c ∷ s))
]

abbrev pub same : List ℕ → List ℕ → Bool
same [] [] = true
same [] (d ∷ t) = false
same (c ∷ s) [] = false
same (c ∷ s) (d ∷ t) = (c == d) && same s t

pub named : List ℕ → List (List ℕ) → Bool
named name [] = false
named name (a ∷ rest) = same name a || named name rest

pub proto_is : Option (List ℕ) → List ℕ → Bool
proto_is none s_proto = true
proto_is (some proto) s_proto = same s_proto proto

pub is_asked : List ℕ → Option (List ℕ) → Servent → Bool
is_asked name proto e = named name (e.s_name ∷ e.s_aliases) && proto_is proto e.s_proto

-- What `result_buf` holds behind a line.
abbrev pub read_into : Option Servent → Servent → Servent
read_into none serv = serv
read_into (some e) serv = e

abbrev pub is_wanted : List ℕ → Option (List ℕ) → Option Servent → Bool
is_wanted name proto none = false
is_wanted name proto (some e) = is_asked name proto e

-- `bpgetservbyname_r`, with the loop of `bpgetservent_r` over lines that are no entries: what
-- `result_buf` holds in the end, and whether `result` points to it.
unfoldable pub bpgetservbyname_r :
    List ℕ → Option (List ℕ) → Servent → List (List ℕ) → Option (Servent × Bool)
bpgetservbyname_r name proto serv [] = some (serv, false)
bpgetservbyname_r name proto serv (line ∷ lines) = parse_line line >>= λ p.
    if is_wanted name proto p
    then some (read_into p serv, true)
    else bpgetservbyname_r name proto (read_into p serv) lines

-- With a file that may not open.
unfoldable pub bpgetservbyname :
    List ℕ → Option (List ℕ) → Servent → Option (List (List ℕ)) → Option (Servent × Bool)
bpgetservbyname name proto serv none = some (serv, false)
bpgetservbyname name proto serv (some lines) = bpgetservbyname_r name proto serv lines

abbrev pub port_or : Bool → ℕ → ℤ
port_or true s_port = pos (ntohs s_port)
port_or false s_port = negsuc 0

-- With the system's file, the file that the environment names if it names one, and what `serv` holds
-- before. Both lookups return a pointer to `serv`, which is one object.
unfoldable pub getportbyname :
    Option (List (List ℕ)) → Option (Option (List (List ℕ))) → Servent → List ℕ → Option ℤ
getportbyname system none serv name =
    bpgetservbyname name none serv system >>= λ t. some (port_or t.1 t.0.s_port)
getportbyname system (some user) serv name = do
  t ← bpgetservbyname name none serv system
  u ← bpgetservbyname name none t.0 user
  some (if u.1 then pos (ntohs u.0.s_port) else port_or t.1 u.0.s_port)
