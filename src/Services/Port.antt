-- ===== src/Services/Port.antt =====
-- `getportbyname` of trace/getservice.c against the entries of the files.
use borderpatrol.Base.{
  ℕ, ◌≡◌, refl, inl, inr, Bool, true, false, if◌then◌else◌, Bool-cases, Option, none, some, List,
  [], ◌∷◌,
}
use borderpatrol.Base.Int.{ℤ, pos, negsuc}
use borderpatrol.Services.{
  Servent, ntohs, parse_line, is_asked, bpgetservbyname_r, bpgetservbyname, port_or, getportbyname,
}

-- The lines are those of these entries, and lines that are passed over.
pub data Holds : List (List ℕ) → List Servent → Type 0 where
  no_line : Holds [] []
  passed_over :
      {line : List ℕ} {lines : List (List ℕ)} {es : List Servent}
      → parse_line line ≡ some none
      → Holds lines es
      → Holds (line ∷ lines) es
  entry :
      {line : List ℕ} {lines : List (List ℕ)} {e : Servent} {es : List Servent}
      → parse_line line ≡ some (some e)
      → Holds lines es
      → Holds (line ∷ lines) (e ∷ es)

-- The first entry with the name.
abbrev pub first_named : List ℕ → List Servent → Option Servent
first_named name [] = none
first_named name (e ∷ es) = if is_asked name none e then some e else first_named name es

-- The last of the entries, or one before them.
abbrev pub last_or : Servent → List Servent → Servent
last_or e [] = e
last_or e (e' ∷ es) = last_or e' es

abbrev found_or_last : Option Servent → Servent → Servent × Bool
found_or_last none last = (last, false)
found_or_last (some e) last = (e, true)

by_name :
    (name : List ℕ) (serv : Servent) (lines : List (List ℕ)) (es : List Servent)
    → Holds lines es
    → bpgetservbyname_r name none serv lines
      ≡ some (found_or_last (first_named name es) (last_or serv es))
unfolding bpgetservbyname_r
by_name name serv [] [] no_line = refl
by_name name serv [] (e ∷ es) h = elim h [ ]
by_name name serv (line ∷ lines) es (passed_over p h) = rw p (by_name name serv lines es h)
by_name name serv (line ∷ lines) (e ∷ es) (entry p h) = elim (Bool-cases (is_asked name none e)) [
  | inl y ↦ rw (p, y)
  | inr n ↦ rw (p, n) (by_name name e lines es h)
]

-- What the caller means to get: the user's entry comes before the system's.
abbrev pub port_found : Option Servent → Option Servent → Servent → ℤ
port_found (some e) of_system last = pos (ntohs e.s_port)
port_found none (some e) last = pos (ntohs last.s_port)
port_found none none last = negsuc 0

-- For a system's file and a user's file with these entries, and lines that are passed over between
-- them: `getportbyname` returns, with the port of the first entry of the user's file that has the
-- name; else, if the system's file has the name, with the port of the user's file's last entry, or
-- that of the system's file's entry if the user's file has none; else with -1.
pub getportbyname_ports :
    (name : List ℕ) (serv : Servent) (system user : List (List ℕ)) (ss us : List Servent)
    → Holds system ss
    → Holds user us
    → getportbyname (some system) (some (some user)) serv name
      ≡ some (
          port_found
            (first_named name us)
            (first_named name ss)
            (last_or (found_or_last (first_named name ss) serv).0 us))
unfolding getportbyname bpgetservbyname
getportbyname_ports name serv system user ss us hs hu =
    rw
      (
        by_name name serv system ss hs,
        by_name name (found_or_last (first_named name ss) (last_or serv ss)).0 user us hu,
      )
      (agree (first_named name us) (first_named name ss))
  where
    agree :
        (u s : Option Servent)
        → some (
            if (found_or_last u (last_or (found_or_last s (last_or serv ss)).0 us)).1
            then pos (
                ntohs (found_or_last u (last_or (found_or_last s (last_or serv ss)).0 us)).0.s_port)
            else port_or
                (found_or_last s (last_or serv ss)).1
                (found_or_last u (last_or (found_or_last s (last_or serv ss)).0 us)).0.s_port)
          ≡ some (port_found u s (last_or (found_or_last s serv).0 us))
    agree (some e) s = refl
    agree none (some e) = refl
    agree none none = refl
