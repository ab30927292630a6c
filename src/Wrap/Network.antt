-- ===== src/Wrap/Network.antt =====
-- The wrappers of trace/vfd.c for sockets, which find a plugin for a descriptor.
use borderpatrol.Base.{
  ℕ, zero, suc, ◌+◌, ◌-◌, ◌/◌, ◌%◌, Bool, true, false, Option, none, some, List, [], ◌∷◌, ◌++◌, ltb,
  if◌then◌else◌, ◌>>=◌, ◌>>◌, assert, length, take,
}
use borderpatrol.Base.Int.{ℤ, pos, negsuc}
use borderpatrol.Base.Text.{codes, up_to_0, decimal}
use borderpatrol.Protocol.{
  Event, event_s, event_i, event_ii, event_is, sys_bind, sys_listen, sys_accept_begin, sys_accept,
  sys_connect_begin, sys_connect, sys_debug,
}
use borderpatrol.Protocol.Dispatch.{
  Dispatcher, Garbage, Address, inet, file, other_family, pp_init, pp_id_bind, pp_id_connect,
}
use borderpatrol.Vfd.{vfd_sock}
use borderpatrol.Wrap.{Process, Config, index_of, logged, logged_if, with_vfd, clear_readable_cache}
use borderpatrol.Wrap.Files.{opened}

-- A `struct sockaddr`: what the lookup of plugins reads, whether the host is INADDR_ANY, what
-- `inet_ntop` writes for it, and `addrlen`.
pub record Sockaddr : Type 0 where
  pub address : Address
  pub any_host : Bool
  pub host : List ℕ
  pub addrlen : ℕ

abbrev hex_digit : ℕ → ℕ
hex_digit n = if ltb n 10 then b'0' + n else 87 + n

-- `"%2x"` of a char, which is signed.
unfoldable pub hex : ℕ → List ℕ
hex c =
    if ltb c 16
    then b' ' ∷ hex_digit c ∷ []
    else if ltb c 128
    then hex_digit (c / 16) ∷ hex_digit (c % 16) ∷ []
    else codes "ffffff" ++ (hex_digit (c / 16) ∷ hex_digit (c % 16) ∷ [])

unfoldable pub hexes : List ℕ → List ℕ
hexes [] = []
hexes (c ∷ sp) = hex c ++ hexes sp

abbrev pub max_sock_fn : ℕ
max_sock_fn = 256

-- The name of a socket in the file system, or of one in the abstract name space.
unfoldable pub sun_name : List ℕ → List ℕ
unfolding hexes
sun_name [] = []
sun_name (zero ∷ sp) = hexes (0 ∷ sp)
sun_name (suc c ∷ sp) = up_to_0 (suc c ∷ sp)

-- `strncpy` fills `file` up to the length given, wherever the name ends.
unfoldable pub file_fits : List ℕ → Bool
unfolding hexes
file_fits [] = true
file_fits (zero ∷ sp) = ltb (length (hexes (0 ∷ sp))) (max_sock_fn + 1)
file_fits (suc c ∷ sp) = ltb (length (suc c ∷ sp)) (max_sock_fn + 1)

-- `none` where the name is too long for `file`; `sun_path` is 2 bytes into the struct.
unfoldable pub parse_sockaddr : Sockaddr → ℕ → Option (List ℕ)
unfolding sun_name file_fits
parse_sockaddr a len = elim a.address [
  | inet port ↦
      some (
        take (len - 1)
          ((if a.any_host then codes "127.0.0.1" else a.host) ++ (b':' ∷ decimal port)))
  | file sun_path ↦
      let sp = take (a.addrlen - 2) sun_path in
      assert (file_fits sp) >> some (take (len - 1) (sun_name sp))
  | other_family ↦ some (take len (codes "unset"))
]

-- What `getpeername` and `getsockname` give, if they do not fail, and what the variable for the
-- address holds if they fail.
pub record Names : Type 0 where
  pub peer : Option Sockaddr
  pub sock : Option Sockaddr
  pub stale : Address

abbrev pub name_or_other : Option Sockaddr → ℕ → Option (List ℕ)
name_or_other none len = some (codes "other")
name_or_other (some a) len = parse_sockaddr a len

abbrev pub address_or : Option Sockaddr → Address → Address
address_or none stale = stale
address_or (some a) stale = a.address

-- A descriptor with the plugin that has been looked up, which is initialized.
unfoldable pub attached : Garbage → Option Dispatcher × List Event → ℕ → Process → Process
attached g (none, events) fd p =
    record (with_vfd fd (record (p.vfd_tab fd) { pp_dispatcher = none }) p) {
      log = p.log ++ events;
    }
attached g (some d, events) fd p =
    let v = p.vfd_tab fd in
    let t = pp_init d g (pos fd) v.pp_data in
    record (with_vfd fd (record v { pp_dispatcher = some d; pp_data = t.0 }) p) {
      log = p.log ++ (events ++ t.1);
    }

module _ (k : Config) where
  unfoldable pub bound : ℕ → ℤ → Address → Process → Process
  bound fd (pos zero) my_addr p =
      let t = pp_id_bind k.getportbyname k.bb_disable_pp my_addr in
      record (with_vfd fd (record (p.vfd_tab fd) { pp_dispatcher = t.0 }) p) { log = p.log ++ t.1 }
  bound fd (pos (suc n)) my_addr p = p
  bound fd (negsuc n) my_addr p = p

  -- The plugin is found where the call has succeeded, and is not initialized.
  unfoldable pub bind : ℤ → ℤ → Address → Process → Option (ℤ × Process)
  bind s r my_addr p = if k.bb_disable_all then some (r, p) else elim (index_of s) [
    | none ↦ some (r, p)
    | some fd ↦ some (r, logged_if k.debug_events (event_i sys_bind r s) (bound fd r my_addr p))
  ]

  unfoldable pub listen : ℤ → ℤ → ℤ → Process → Option (ℤ × Process)
  listen s backlog r p = if k.bb_disable_all then some (r, p) else elim (index_of s) [
    | none ↦ some (r, p)
    | some fd ↦ some (r, logged_if k.debug_events (event_ii sys_listen r s backlog) p)
  ]

  -- The new descriptor, with the text that is logged.
  unfoldable pub accepted : Garbage → ℤ → Names → Process → Option (List ℕ × Process)
  accepted g (negsuc n) names p = some (codes "other->other", p)
  accepted g (pos new_fd) names p = do
    p1 ← opened vfd_sock new_fd p
    rhostport ← name_or_other names.peer 512
    lhostport ← name_or_other names.sock 512
    let laddr = address_or names.sock names.stale
    let p2 = attached g (pp_id_bind k.getportbyname k.bb_disable_pp laddr) new_fd p1
    some (rhostport ++ (codes "->" ++ lhostport), p2)

  -- With what `real_accept` returns.
  unfoldable pub accept : Garbage → ℤ → ℤ → Names → Process → Option (ℤ × Process)
  accept g s new_fd names p = if k.bb_disable_all then some (new_fd, p) else elim (index_of s) [
    | none ↦ some (new_fd, p)
    | some fd ↦
        accepted g new_fd names
          (clear_readable_cache fd (logged (event_i sys_accept_begin (pos 0) s) p))
        >>= λ t. some (new_fd, logged (event_is sys_accept new_fd s t.0) t.1)
  ]

  unfoldable pub connect_event : Garbage → ℕ → ℤ → Names → Process → Option Process
  connect_event g s r names p = do
    rhostport ← name_or_other names.peer 1024
    lhostport ← name_or_other names.sock 1024
    let raddr = address_or names.peer names.stale
    let p1 = with_vfd s (record (p.vfd_tab s) { in_prog = false }) p
    let p2 = attached g (pp_id_connect k.getportbyname k.bb_disable_pp raddr) s p1
    some (logged (event_is sys_connect r (pos s) (lhostport ++ (codes "->" ++ rhostport))) p2)

  -- What `connect` does behind the call, with whether `errno` is EINPROGRESS.
  unfoldable pub after_connect : Garbage → ℕ → ℤ → Bool → Names → Process → Option Process
  after_connect g s (pos n) in_progress names p = connect_event g s (pos n) names p
  after_connect g s (negsuc n) true names p =
      let p1 = logged (event_s sys_debug (negsuc n) (codes "connect got EINPROGRESS")) p in
      some (with_vfd s (record (p1.vfd_tab s) { in_prog = true }) p1)
  after_connect g s (negsuc n) false names p =
      some (logged (event_is sys_connect (negsuc n) (pos s) (codes "failed->failed")) p)

  unfoldable pub connect : Garbage → ℤ → ℤ → Bool → Names → Process → Option (ℤ × Process)
  connect g s r in_progress names p = if k.bb_disable_all then some (r, p) else elim (index_of s) [
    | none ↦ some (r, p)
    | some fd ↦
        after_connect g fd r in_progress names (logged (event_i sys_connect_begin (pos 0) s) p)
        >>= λ p1. some (r, p1)
  ]
