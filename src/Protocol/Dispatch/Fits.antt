-- ===== src/Protocol/Dispatch/Fits.antt =====
-- The plugins of trace/protocol.c, and the type that each one casts its `void *data` to.
use borderpatrol.Base.{ℕ, Option, none, some, List}
use borderpatrol.Base.Int.{ℤ}
use borderpatrol.Protocol.{Outcome}
use borderpatrol.Protocol.Dispatch.{
  Dispatcher, pp_perlpc, pp_perlps, pp_httpc, pp_https, pp_xc, pp_psqlc, pp_psqls, pp_mysqlc,
  pp_mysqls, pp_fcgis, pp_fcgic, pp_trivial, Data, unset, perlp, http, psql, mysql, xorg, fcgi,
  Garbage, pp_init, pp_read_data, pp_write_data, wrapped,
}

-- The data is what the plugin's functions cast it to.
abbrev pub Fits : Dispatcher → Data → Type 0
Fits pp_perlps (perlp d) = Unit
Fits pp_https (http d) = Unit
Fits pp_xc (xorg d) = Unit
Fits pp_psqlc (psql d) = Unit
Fits pp_psqls (psql d) = Unit
Fits pp_mysqlc (mysql d) = Unit
Fits pp_mysqls (mysql d) = Unit
Fits pp_fcgis (fcgi d) = Unit
Fits pp_fcgic (fcgi d) = Unit
Fits pp_perlpc d = Unit
Fits pp_httpc d = Unit
Fits pp_trivial d = Unit
Fits _ d = ⊥

pub pp_init-Fits :
    (d : Dispatcher) (g : Garbage) (s : ℤ) (ptr : Data) → Fits d (pp_init d g s ptr).0
unfolding pp_init
pp_init-Fits pp_perlpc g s ptr = tt
pp_init-Fits pp_perlps g s ptr = tt
pp_init-Fits pp_httpc g s ptr = tt
pp_init-Fits pp_https g s ptr = tt
pp_init-Fits pp_xc g s ptr = tt
pp_init-Fits pp_psqlc g s ptr = tt
pp_init-Fits pp_psqls g s ptr = tt
pp_init-Fits pp_mysqlc g s ptr = tt
pp_init-Fits pp_mysqls g s ptr = tt
pp_init-Fits pp_fcgis g s ptr = tt
pp_init-Fits pp_fcgic g s ptr = tt
pp_init-Fits pp_trivial g s ptr = tt

-- A call that returns leaves data that fits.
abbrev pub Keeps : Dispatcher → Option (Outcome Data) → Type 0
Keeps d none = Unit
Keeps d (some r) = Fits d r.state

wrapped-Keeps :
    {S : Type 0} (d : Dispatcher) (wrap : S → Data)
    → ((t : S) → Fits d (wrap t))
    → (o : Option (Outcome S)) → Keeps d (wrapped wrap o)
wrapped-Keeps d wrap h none = tt
wrapped-Keeps d wrap h (some o) = h o.state

pub pp_read_data-Keeps :
    (d : Dispatcher) (g : Garbage) (ptr : Data) (s : ℤ) (buf : List ℕ) (len : ℕ)
    → Fits d ptr
    → Keeps d (pp_read_data d g ptr s buf len)
unfolding pp_read_data
pp_read_data-Keeps pp_perlpc g ptr s buf len h = h
pp_read_data-Keeps pp_perlps g unset s buf len h = absurd h
pp_read_data-Keeps pp_perlps g (perlp t) s buf len h = wrapped-Keeps pp_perlps perlp (λ _. tt) _
pp_read_data-Keeps pp_perlps g (http t) s buf len h = absurd h
pp_read_data-Keeps pp_perlps g (psql t) s buf len h = absurd h
pp_read_data-Keeps pp_perlps g (mysql t) s buf len h = absurd h
pp_read_data-Keeps pp_perlps g (xorg t) s buf len h = absurd h
pp_read_data-Keeps pp_perlps g (fcgi t) s buf len h = absurd h
pp_read_data-Keeps pp_httpc g ptr s buf len h = h
pp_read_data-Keeps pp_https g unset s buf len h = absurd h
pp_read_data-Keeps pp_https g (perlp t) s buf len h = absurd h
pp_read_data-Keeps pp_https g (http t) s buf len h = wrapped-Keeps pp_https http (λ _. tt) _
pp_read_data-Keeps pp_https g (psql t) s buf len h = absurd h
pp_read_data-Keeps pp_https g (mysql t) s buf len h = absurd h
pp_read_data-Keeps pp_https g (xorg t) s buf len h = absurd h
pp_read_data-Keeps pp_https g (fcgi t) s buf len h = absurd h
pp_read_data-Keeps pp_xc g unset s buf len h = absurd h
pp_read_data-Keeps pp_xc g (perlp t) s buf len h = absurd h
pp_read_data-Keeps pp_xc g (http t) s buf len h = absurd h
pp_read_data-Keeps pp_xc g (psql t) s buf len h = absurd h
pp_read_data-Keeps pp_xc g (mysql t) s buf len h = absurd h
pp_read_data-Keeps pp_xc g (xorg t) s buf len h = wrapped-Keeps pp_xc xorg (λ _. tt) _
pp_read_data-Keeps pp_xc g (fcgi t) s buf len h = absurd h
pp_read_data-Keeps pp_psqlc g unset s buf len h = absurd h
pp_read_data-Keeps pp_psqlc g (perlp t) s buf len h = absurd h
pp_read_data-Keeps pp_psqlc g (http t) s buf len h = absurd h
pp_read_data-Keeps pp_psqlc g (psql t) s buf len h = wrapped-Keeps pp_psqlc psql (λ _. tt) _
pp_read_data-Keeps pp_psqlc g (mysql t) s buf len h = absurd h
pp_read_data-Keeps pp_psqlc g (xorg t) s buf len h = absurd h
pp_read_data-Keeps pp_psqlc g (fcgi t) s buf len h = absurd h
pp_read_data-Keeps pp_psqls g unset s buf len h = absurd h
pp_read_data-Keeps pp_psqls g (perlp t) s buf len h = absurd h
pp_read_data-Keeps pp_psqls g (http t) s buf len h = absurd h
pp_read_data-Keeps pp_psqls g (psql t) s buf len h = wrapped-Keeps pp_psqls psql (λ _. tt) _
pp_read_data-Keeps pp_psqls g (mysql t) s buf len h = absurd h
pp_read_data-Keeps pp_psqls g (xorg t) s buf len h = absurd h
pp_read_data-Keeps pp_psqls g (fcgi t) s buf len h = absurd h
pp_read_data-Keeps pp_mysqlc g unset s buf len h = absurd h
pp_read_data-Keeps pp_mysqlc g (perlp t) s buf len h = absurd h
pp_read_data-Keeps pp_mysqlc g (http t) s buf len h = absurd h
pp_read_data-Keeps pp_mysqlc g (psql t) s buf len h = absurd h
pp_read_data-Keeps pp_mysqlc g (mysql t) s buf len h = wrapped-Keeps pp_mysqlc mysql (λ _. tt) _
pp_read_data-Keeps pp_mysqlc g (xorg t) s buf len h = absurd h
pp_read_data-Keeps pp_mysqlc g (fcgi t) s buf len h = absurd h
pp_read_data-Keeps pp_mysqls g unset s buf len h = absurd h
pp_read_data-Keeps pp_mysqls g (perlp t) s buf len h = absurd h
pp_read_data-Keeps pp_mysqls g (http t) s buf len h = absurd h
pp_read_data-Keeps pp_mysqls g (psql t) s buf len h = absurd h
pp_read_data-Keeps pp_mysqls g (mysql t) s buf len h = wrapped-Keeps pp_mysqls mysql (λ _. tt) _
pp_read_data-Keeps pp_mysqls g (xorg t) s buf len h = absurd h
pp_read_data-Keeps pp_mysqls g (fcgi t) s buf len h = absurd h
pp_read_data-Keeps pp_fcgis g unset s buf len h = absurd h
pp_read_data-Keeps pp_fcgis g (perlp t) s buf len h = absurd h
pp_read_data-Keeps pp_fcgis g (http t) s buf len h = absurd h
pp_read_data-Keeps pp_fcgis g (psql t) s buf len h = absurd h
pp_read_data-Keeps pp_fcgis g (mysql t) s buf len h = absurd h
pp_read_data-Keeps pp_fcgis g (xorg t) s buf len h = absurd h
pp_read_data-Keeps pp_fcgis g (fcgi t) s buf len h = wrapped-Keeps pp_fcgis fcgi (λ _. tt) _
pp_read_data-Keeps pp_fcgic g unset s buf len h = absurd h
pp_read_data-Keeps pp_fcgic g (perlp t) s buf len h = absurd h
pp_read_data-Keeps pp_fcgic g (http t) s buf len h = absurd h
pp_read_data-Keeps pp_fcgic g (psql t) s buf len h = absurd h
pp_read_data-Keeps pp_fcgic g (mysql t) s buf len h = absurd h
pp_read_data-Keeps pp_fcgic g (xorg t) s buf len h = absurd h
pp_read_data-Keeps pp_fcgic g (fcgi t) s buf len h = wrapped-Keeps pp_fcgic fcgi (λ _. tt) _
pp_read_data-Keeps pp_trivial g ptr s buf len h = h

pub pp_write_data-Keeps :
    (d : Dispatcher) (g : Garbage) (ptr : Data) (s : ℤ) (buf : List ℕ) (len : ℕ)
    → Fits d ptr
    → Keeps d (pp_write_data d g ptr s buf len)
unfolding pp_write_data
pp_write_data-Keeps pp_perlpc g ptr s buf len h = h
pp_write_data-Keeps pp_perlps g unset s buf len h = absurd h
pp_write_data-Keeps pp_perlps g (perlp t) s buf len h = wrapped-Keeps pp_perlps perlp (λ _. tt) _
pp_write_data-Keeps pp_perlps g (http t) s buf len h = absurd h
pp_write_data-Keeps pp_perlps g (psql t) s buf len h = absurd h
pp_write_data-Keeps pp_perlps g (mysql t) s buf len h = absurd h
pp_write_data-Keeps pp_perlps g (xorg t) s buf len h = absurd h
pp_write_data-Keeps pp_perlps g (fcgi t) s buf len h = absurd h
pp_write_data-Keeps pp_httpc g ptr s buf len h = h
pp_write_data-Keeps pp_https g unset s buf len h = absurd h
pp_write_data-Keeps pp_https g (perlp t) s buf len h = absurd h
pp_write_data-Keeps pp_https g (http t) s buf len h = wrapped-Keeps pp_https http (λ _. tt) _
pp_write_data-Keeps pp_https g (psql t) s buf len h = absurd h
pp_write_data-Keeps pp_https g (mysql t) s buf len h = absurd h
pp_write_data-Keeps pp_https g (xorg t) s buf len h = absurd h
pp_write_data-Keeps pp_https g (fcgi t) s buf len h = absurd h
pp_write_data-Keeps pp_xc g ptr s buf len h = h
pp_write_data-Keeps pp_psqlc g unset s buf len h = absurd h
pp_write_data-Keeps pp_psqlc g (perlp t) s buf len h = absurd h
pp_write_data-Keeps pp_psqlc g (http t) s buf len h = absurd h
pp_write_data-Keeps pp_psqlc g (psql t) s buf len h = wrapped-Keeps pp_psqlc psql (λ _. tt) _
pp_write_data-Keeps pp_psqlc g (mysql t) s buf len h = absurd h
pp_write_data-Keeps pp_psqlc g (xorg t) s buf len h = absurd h
pp_write_data-Keeps pp_psqlc g (fcgi t) s buf len h = absurd h
pp_write_data-Keeps pp_psqls g unset s buf len h = absurd h
pp_write_data-Keeps pp_psqls g (perlp t) s buf len h = absurd h
pp_write_data-Keeps pp_psqls g (http t) s buf len h = absurd h
pp_write_data-Keeps pp_psqls g (psql t) s buf len h = wrapped-Keeps pp_psqls psql (λ _. tt) _
pp_write_data-Keeps pp_psqls g (mysql t) s buf len h = absurd h
pp_write_data-Keeps pp_psqls g (xorg t) s buf len h = absurd h
pp_write_data-Keeps pp_psqls g (fcgi t) s buf len h = absurd h
pp_write_data-Keeps pp_mysqlc g unset s buf len h = absurd h
pp_write_data-Keeps pp_mysqlc g (perlp t) s buf len h = absurd h
pp_write_data-Keeps pp_mysqlc g (http t) s buf len h = absurd h
pp_write_data-Keeps pp_mysqlc g (psql t) s buf len h = absurd h
pp_write_data-Keeps pp_mysqlc g (mysql t) s buf len h = wrapped-Keeps pp_mysqlc mysql (λ _. tt) _
pp_write_data-Keeps pp_mysqlc g (xorg t) s buf len h = absurd h
pp_write_data-Keeps pp_mysqlc g (fcgi t) s buf len h = absurd h
pp_write_data-Keeps pp_mysqls g unset s buf len h = absurd h
pp_write_data-Keeps pp_mysqls g (perlp t) s buf len h = absurd h
pp_write_data-Keeps pp_mysqls g (http t) s buf len h = absurd h
pp_write_data-Keeps pp_mysqls g (psql t) s buf len h = absurd h
pp_write_data-Keeps pp_mysqls g (mysql t) s buf len h = wrapped-Keeps pp_mysqls mysql (λ _. tt) _
pp_write_data-Keeps pp_mysqls g (xorg t) s buf len h = absurd h
pp_write_data-Keeps pp_mysqls g (fcgi t) s buf len h = absurd h
pp_write_data-Keeps pp_fcgis g unset s buf len h = absurd h
pp_write_data-Keeps pp_fcgis g (perlp t) s buf len h = absurd h
pp_write_data-Keeps pp_fcgis g (http t) s buf len h = absurd h
pp_write_data-Keeps pp_fcgis g (psql t) s buf len h = absurd h
pp_write_data-Keeps pp_fcgis g (mysql t) s buf len h = absurd h
pp_write_data-Keeps pp_fcgis g (xorg t) s buf len h = absurd h
pp_write_data-Keeps pp_fcgis g (fcgi t) s buf len h = wrapped-Keeps pp_fcgis fcgi (λ _. tt) _
pp_write_data-Keeps pp_fcgic g unset s buf len h = absurd h
pp_write_data-Keeps pp_fcgic g (perlp t) s buf len h = absurd h
pp_write_data-Keeps pp_fcgic g (http t) s buf len h = absurd h
pp_write_data-Keeps pp_fcgic g (psql t) s buf len h = absurd h
pp_write_data-Keeps pp_fcgic g (mysql t) s buf len h = absurd h
pp_write_data-Keeps pp_fcgic g (xorg t) s buf len h = absurd h
pp_write_data-Keeps pp_fcgic g (fcgi t) s buf len h = wrapped-Keeps pp_fcgic fcgi (λ _. tt) _
pp_write_data-Keeps pp_trivial g ptr s buf len h = h
