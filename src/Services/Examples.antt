-- ===== src/Services/Examples.antt =====
-- trace/getservice.c at concrete files.
use borderpatrol.Base.{◌≡◌, refl, some, none, List, [], ◌∷◌, ℕ}
use borderpatrol.Base.Int.{pos}
use borderpatrol.Base.Text.{codes, atoi, signed, skip_spaces, digits}
use borderpatrol.Services.{
  Servent, strpbrk, skip_blanks, push, front_word, aliases, with_proto, with_port, with_name,
  uncommented, parse_line, named, proto_is, is_asked, getportbyname,
}
use borderpatrol.Services.Port.{no_line, passed_over, entry, getportbyname_ports}

abbrev mysql_line : List ℕ
mysql_line = codes "mysql 3306/tcp\n"

abbrev mysqls : Servent
mysqls = record { s_name = codes "mysql"; s_aliases = []; s_port = 59916; s_proto = codes "tcp" }

abbrev psql_line : List ℕ
psql_line = codes "psqls\t5432/tcp db\n"

abbrev psqls : Servent
psqls = record {
  s_name = codes "psqls";
  s_aliases = codes "db" ∷ [];
  s_port = 14357;
  s_proto = codes "tcp";
}

mysql_parsed : parse_line mysql_line ≡ some (some mysqls)
unfolding parse_line uncommented with_name with_port with_proto strpbrk skip_blanks atoi signed
    skip_spaces digits
mysql_parsed = refl

psql_parsed : parse_line psql_line ≡ some (some psqls)
unfolding parse_line uncommented with_name with_port with_proto strpbrk skip_blanks aliases push
    front_word atoi signed skip_spaces digits
psql_parsed = refl

comment_passed_over : parse_line (codes "# ports\n") ≡ some none
unfolding parse_line
comment_passed_over = refl

-- The user's file does not have the name, and its last entry's port is the answer.
getportbyname_ports_example :
    getportbyname
      (some (mysql_line ∷ []))
      (some (some (codes "# ports\n" ∷ psql_line ∷ [])))
      psqls
      (codes "mysql")
    ≡ some (pos 5432)
unfolding is_asked named proto_is
getportbyname_ports_example =
    getportbyname_ports (codes "mysql") psqls (mysql_line ∷ []) (codes "# ports\n" ∷ psql_line ∷ [])
      (mysqls ∷ []) (psqls ∷ []) (entry mysql_parsed no_line)
      (passed_over comment_passed_over (entry psql_parsed no_line))
