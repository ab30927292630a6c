-- ===== src/Logd/Reconnect.antt =====
-- What `main` of logd/logd.c leaves of a connection for the next one on the same descriptor.
use borderpatrol.Base.{
  ℕ, ◌+◌, ◌<◌, ◌≡◌, refl, ◌∙◌, ap, true, false, append-nil, none, some, List, [], ◌++◌, ◌>>=◌, take,
  length, arith, ==_refl,
}
use borderpatrol.Fmt.Entry.{Entry, IsEntry, entry_bytes}
use borderpatrol.Reader.{got}
use borderpatrol.Logd.{
  Timeval, timerisset, Conn, Out, Server, transfer_out, transfer_in, serve, connection, data_on,
  blank_relay, at,
}
use borderpatrol.Logd.Retimes.{transfer_out_retimes}

-- For a client that disconnects in the middle of an entry, `k` bytes of which have come, with its time
-- difference set, and a log that takes all that is written: the next connection on the descriptor
-- starts with a buffer of zeros, but with `k` bytes counted as received, and with the time difference
-- of the client before.
pub serve_reconnect :
    (clock : ℕ → Timeval) (diff : Timeval) (e : Entry) (k : ℕ) (junk log : List ℕ)
    (avail ticks fd : ℕ) (s : Server)
    → timerisset diff ≡ true
    → IsEntry e
    → k < length (entry_bytes e)
    → s.conns fd ≡ record {
      relay = some (take k (entry_bytes e) ++ junk);
      b_end = k;
      avail = avail;
      timediff = diff;
    }
    → s.out ≡ record { log = log; writes = []; ticks = ticks }
    → (s' : Server) × ((do s1 ← serve clock (data_on fd (got [])) s; serve clock (connection fd) s1)
        ≡ some s')
      × (s'.conns fd
          ≡ record { relay = some blank_relay; b_end = k; avail = avail; timediff = diff })
      × (s'.out ≡ s.out)
unfolding serve transfer_in
serve_reconnect clock diff e k junk log avail ticks fd s set he hk ec eo =
    let (junk', p) = transfer_out_retimes clock diff [] e k junk log avail ticks set tt he hk in
    let out : Out = record { log = log; writes = []; ticks = ticks } in
    let full : ℕ → Conn = λ b. record {
      relay = some (take k (entry_bytes e) ++ junk);
      b_end = b;
      avail = avail;
      timediff = diff;
    } in
    let done = ap (λ b. transfer_out clock (full b) out) {x = k} {y = 0 + k} (omega arith) ∙ p in
    let same : avail + 0 ≡ avail = omega arith in
    let gone : Conn = record { relay = none; b_end = k; avail = avail; timediff = diff } in
    (
      record {
        conns =
            at fd (record (at fd gone s.conns fd) { relay = some blank_relay })
              (at fd gone s.conns);
        active = at fd true (at fd false s.active);
        out = s.out;
      },
      rw (ec, eo, done, same, append-nil log, ==_refl fd),
      rw (==_refl fd),
      refl,
    )
