-- ===== src/Faults.antt =====
-- pfdura/pfdura-mod.c: the kernel module that says when a process of those it is told to follow
-- begins and ends a page fault, and `pfdura` of trace/vfd.c, which tells it. Every pid is an int.
pub mod Feed
pub mod Digits
pub mod Tracked
pub mod Entries
pub mod Paired
pub mod Traced
use borderpatrol.Base.{
  ℕ, zero, suc, ◌+◌, ◌-◌, Bool, true, false, ◌||◌, Option, none, some, List, [], ◌∷◌, ◌++◌, ltb,
  leb, ◌==◌, if◌then◌else◌, ◌>>=◌, length, replicate, not,
}
use borderpatrol.Base.Int.{ℤ, pos, negsuc}
use borderpatrol.Base.Text.{codes, decimal}
use borderpatrol.Logd.{Timeval}

-- `struct pfdura_t`.
pub record Pfdura : Type 0 where
  pub tgid : ℕ
  pub pid : ℕ
  pub complete : Bool
  pub tv : Timeval

-- `track_pids`.
abbrev pub Tracked : Type 0
Tracked = ℕ → Bool

abbrev pub einval : ℤ
einval = negsuc 21

abbrev pub efault : ℤ
efault = negsuc 13

-- What the kernel's `simple_strtol` gives for memory: the number that it begins with, and how many
-- bytes that is.
abbrev pub Strtol : Type 0
Strtol = List ℕ → ℤ × ℕ

-- What a write to one of the two files comes to.
pub data Parsed : Type 0 where
  refused : ℤ → Parsed
  parsed : ℤ → Parsed

abbrev pub buf_size : ℕ
buf_size = 16

-- With whether the bytes can be copied. A text of 16 bytes has no 0 behind it in `buf`.
unfoldable pub get_pid_from_buf : Strtol → Bool → List ℕ → Parsed
get_pid_from_buf simple_strtol copied buffer =
    if ltb buf_size (length buffer)
    then refused einval
    else if not copied
    then refused efault
    else (let t = simple_strtol (buffer ++ replicate (buf_size - length buffer) 0) in
        if t.1 == 0 then refused einval else parsed t.0)

-- `PID_MAX_DEFAULT`, of the kernel.
module _ (pid_max : ℕ) where
  -- `none` is a bit outside of `track_pids`, which a negative pid has.
  unfoldable pub on_pid : ℕ → Parsed → Tracked → Option (ℤ × Tracked)
  on_pid count (refused e) track = some (e, track)
  on_pid count (parsed (negsuc n)) track = none
  on_pid count (parsed (pos pid)) track =
      if leb pid_max pid
      then some (einval, track)
      else some (pos count, λ i. if i == pid then true else track i)

  unfoldable pub off_pid : ℕ → Parsed → Tracked → Option (ℤ × Tracked)
  off_pid count (refused e) track = some (e, track)
  off_pid count (parsed (negsuc n)) track = none
  off_pid count (parsed (pos pid)) track =
      if leb pid_max pid
      then some (einval, track)
      else if pid == 0
      then some (pos count, λ i. false)
      else if not (track pid)
      then some (einval, track)
      else some (pos count, λ i. if i == pid then false else track i)

  module _ (simple_strtol : Strtol) where
    unfoldable pub pid_on_write : Bool → List ℕ → Tracked → Option (ℤ × Tracked)
    pid_on_write copied buffer =
        on_pid (length buffer) (get_pid_from_buf simple_strtol copied buffer)

    unfoldable pub pid_off_write : Bool → List ℕ → Tracked → Option (ℤ × Tracked)
    pid_off_write copied buffer =
        off_pid (length buffer) (get_pid_from_buf simple_strtol copied buffer)

    -- `pfdura` of trace/vfd.c for a pid, with whether the file of the module can be opened. `none`
    -- is an exit, for a write that is refused.
    unfoldable pub pfdura : Bool → ℕ → Bool → Tracked → Option Tracked
    pfdura on pid opens track =
        if not opens
        then some track
        else (if on
            then pid_on_write true (decimal pid) track
            else pid_off_write true (decimal pid) track)
          >>= λ t. elim t.0 [ pos n ↦ some t.1 | negsuc e ↦ none ]

  -- What a probe relays for the process that runs, the messages left out.
  unfoldable pub entry_probe : ℕ → ℕ → Timeval → Tracked → List Pfdura
  entry_probe tgid pid tv track =
      if leb pid_max tgid
      then []
      else if not (track tgid)
      then []
      else record { tgid = tgid; pid = pid; complete = false; tv = tv } ∷ []

  unfoldable pub exit_probe : ℕ → ℕ → Timeval → Tracked → List Pfdura
  exit_probe tgid pid tv track =
      if leb pid_max tgid
      then []
      else if not (track tgid)
      then []
      else record { tgid = tgid; pid = pid; complete = true; tv = tv } ∷ []

-- The files and the probes of the module.
pub record Installed : Type 0 where
  pub dir : Bool
  pub pid_on : Bool
  pub pid_off : Bool
  pub chan : Bool
  pub probes : Bool

abbrev pub enomem : ℤ
enomem = negsuc 11

-- `cleanup_all`, which leaves the channel.
unfoldable pub cleanup_all : Installed → Installed
cleanup_all s = record s { pid_on = false; pid_off = false; dir = false }

abbrev pub nothing_installed : Installed
nothing_installed = record {
  dir = false;
  pid_on = false;
  pid_off = false;
  chan = false;
  probes = false;
}

-- With whether each of the four can be made.
unfoldable pub init_module : Bool → Bool → Bool → Bool → ℤ × Installed
init_module makes_dir makes_on makes_off makes_chan =
    if not makes_dir
    then (enomem, cleanup_all nothing_installed)
    else if not makes_on
    then (enomem, cleanup_all (record nothing_installed { dir = true }))
    else if not makes_off
    then (enomem, cleanup_all (record nothing_installed { dir = true; pid_on = true }))
    else if not makes_chan
    then (
      enomem,
      cleanup_all (record nothing_installed { dir = true; pid_on = true; pid_off = true }),
    )
    else (pos 0, record { dir = true; pid_on = true; pid_off = true; chan = true; probes = true })

unfoldable pub cleanup_module : Installed → Installed
cleanup_module s = cleanup_all (record s { probes = false; chan = false })
