-- ===== src/Wrap/Env/Argv.antt =====
-- trace/wrap.h: ARG2ARGV, which collects the arguments of `execl` in an array that grows.
use borderpatrol.Base.{
  ℕ, suc, ◌+◌, ◌*◌, ◌<◌, ◌≤◌, Bool, true, false, Option, none, some, List, [], ◌∷◌, ◌++◌, ltb, ◌==◌,
  if◌then◌else◌, ◌>>=◌, length, map, ◌≡◌, ◌⊎◌, ap, ◌∙◌, inl, inr, arith, Bool-cases, lt→ltb, ==_iff,
  ==_ne, append_assoc, length-append, take, drop, take-append, append-nil, sym, refl,
}

-- A pointer to an argument, or NULL.
abbrev pub Arg : Type 0
Arg = Option (List ℕ)

-- What the macro comes to: `argv`, or the return of -1.
pub data Gathered : Type 0 where
  no_memory : Gathered
  gathered : List Arg → Gathered

abbrev pub initial_argv_max : ℕ
initial_argv_max = 1024

-- `memcpy(dst, src, n)` on entries.
abbrev pub memcpy : ℕ → List Arg → List Arg → List Arg
memcpy n src dst = take n src ++ drop n dst

-- The `i` entries of `argv` in the memory that `realloc` has given for `n`. The array of the stack is
-- copied into new memory, which holds `fresh n`; `realloc` itself keeps the entries of another one.
unfoldable pub moved : (ℕ → List Arg) → ℕ → ℕ → ℕ → List Arg → List Arg
moved fresh n i argv_max argv =
    if argv_max == initial_argv_max then take i (memcpy i argv (fresh n)) else argv

-- The number of entries `argv` has room for once entry `i` is to be written, and the entries in front
-- of it. `none` is a failed `realloc`, which the argument tells of by the new number.
unfoldable pub grown : (ℕ → Bool) → (ℕ → List Arg) → ℕ → ℕ → List Arg → Option (ℕ × List Arg)
unfolding moved
grown realloc fresh i argv_max argv =
    if i == argv_max
    then (if realloc (argv_max * 2)
        then some (argv_max * 2, moved fresh (argv_max * 2) i argv_max argv)
        else none)
    else some (argv_max, argv)

-- `argv[i] = va_arg(args, ...)`, `none` where `argv` has no room for it.
abbrev pub put : ℕ → List Arg → Arg → Option (List Arg)
put argv_max argv arg = if ltb (length argv) argv_max then some (argv ++ (arg ∷ [])) else none

-- The rest of the loop, with the entries of `argv` that are written, and the last of them. `none` is an argument read behind the last one that is given.
unfoldable pub gather :
    (ℕ → Bool) → (ℕ → List Arg) → ℕ → List Arg → Arg → List Arg → Option Gathered
gather realloc fresh argv_max argv none args = some (gathered argv)
gather realloc fresh argv_max argv (some s) [] = none
gather realloc fresh argv_max argv (some s) (arg ∷ args) =
    elim (grown realloc fresh (length argv) argv_max argv) [
      | none ↦ some no_memory
      | some t ↦ put t.0 t.1 arg >>= λ argv1. gather realloc fresh t.0 argv1 arg args
    ]

abbrev after :
    (ℕ → Bool) → (ℕ → List Arg) → Arg → List Arg → Option (ℕ × List Arg) → Option Gathered
after realloc fresh arg args g = elim g [
  | none ↦ some no_memory
  | some t ↦ put t.0 t.1 arg >>= λ argv1. gather realloc fresh t.0 argv1 arg args
]

-- With the named argument, and the ones behind it.
unfoldable pub arg2argv : (ℕ → Bool) → (ℕ → List Arg) → Arg → List Arg → Option Gathered
arg2argv realloc fresh last_real_arg args =
    gather realloc fresh initial_argv_max (last_real_arg ∷ []) last_real_arg args

-- The arguments that a caller gives, NULL behind them.
abbrev pub null_ended : List (List ℕ) → List Arg
null_ended strings = map some strings ++ (none ∷ [])

-- The entries stay where the array moves.
moved_lem :
    (fresh : ℕ → List Arg) (n argv_max : ℕ) (argv : List Arg)
    → moved fresh n (length argv) argv_max argv ≡ argv
unfolding moved
moved_lem fresh n argv_max argv = go (argv_max == initial_argv_max)
  where
    all : take (length argv) argv ≡ argv
    all = ap (take (length argv)) (sym (append-nil argv)) ∙ take-append argv [] (length argv) refl

    go :
        (b : Bool)
        → (if b then take (length argv) (memcpy (length argv) argv (fresh n)) else argv) ≡ argv
    go true =
        take-append (take (length argv) argv) (drop (length argv) (fresh n)) (length argv)
          (sym (ap length all))
        ∙ all
    go false = refl

grown_room :
    (realloc : ℕ → Bool) (fresh : ℕ → List Arg) (i argv_max : ℕ) (argv : List Arg)
    → (i == argv_max) ≡ false
    → grown realloc fresh i argv_max argv ≡ some (argv_max, argv)
unfolding grown
grown_room realloc fresh i argv_max argv room = rw room

grown_full :
    (realloc : ℕ → Bool) (fresh : ℕ → List Arg) (argv_max : ℕ) (argv : List Arg)
    → (length argv == argv_max) ≡ true
    → realloc (argv_max * 2) ≡ true
    → grown realloc fresh (length argv) argv_max argv ≡ some (argv_max * 2, argv)
unfolding grown
grown_full realloc fresh argv_max argv full ok =
    rw (full, ok) (ap (λ l. some (argv_max * 2, l)) (moved_lem fresh (argv_max * 2) argv_max argv))

grown_not :
    (realloc : ℕ → Bool) (fresh : ℕ → List Arg) (i argv_max : ℕ) (argv : List Arg)
    → (i == argv_max) ≡ true
    → realloc (argv_max * 2) ≡ false
    → grown realloc fresh i argv_max argv ≡ none
unfolding grown
grown_not realloc fresh i argv_max argv full out = rw (full, out)

-- What one step of the loop comes to: an entry more, or the return where memory is out.
Grows : (ℕ → Bool) → (ℕ → List Arg) → ℕ → List Arg → Arg → List Arg → Option Gathered → Type 0
Grows realloc fresh argv_max argv arg args r =
    ((more : ℕ) × (length argv < more)
      × (argv_max ≤ more)
      × (r ≡ gather realloc fresh more (argv ++ (arg ∷ [])) arg args))
    ⊎ ((realloc (argv_max * 2) ≡ false) × (length argv ≡ argv_max) × (r ≡ some no_memory))

gather-Grows :
    (realloc : ℕ → Bool) (fresh : ℕ → List Arg) (argv_max : ℕ) (argv : List Arg) (s : List ℕ)
    (arg : Arg) (args : List Arg)
    → 1024 ≤ argv_max
    → length argv ≤ argv_max
    → Grows realloc fresh argv_max argv arg args
        (gather realloc fresh argv_max argv (some s) (arg ∷ args))
unfolding Grows gather
gather-Grows realloc fresh argv_max argv s arg args big le =
    elim (Bool-cases (length argv == argv_max)) [
      | inr room ↦
          let lt : length argv < argv_max = omega (arith, le, ==_ne (length argv) argv_max room) in
          inl (
            argv_max,
            lt,
            omega arith,
            stepped (grown_room realloc fresh (length argv) argv_max argv room)
                ∙ rw (lt→ltb (length argv) argv_max lt),
          )
      | inl full ↦
          let e : length argv ≡ argv_max = (==_iff (length argv) argv_max).0 full in
          elim (Bool-cases (realloc (argv_max * 2))) [
            | inr out ↦
                inr (out, e, stepped (grown_not realloc fresh (length argv) argv_max argv full out))
            | inl ok ↦
                let lt : length argv < argv_max * 2 = omega (arith, e, big) in
                inl (
                  argv_max * 2,
                  lt,
                  omega arith,
                  stepped (grown_full realloc fresh argv_max argv full ok)
                      ∙ rw (lt→ltb (length argv) (argv_max * 2) lt),
                )
          ]
    ]
  where
    stepped :
        {o : Option (ℕ × List Arg)}
        → grown realloc fresh (length argv) argv_max argv ≡ o
        → gather realloc fresh argv_max argv (some s) (arg ∷ args) ≡ after realloc fresh arg args o
    stepped h = ap (λ g. after realloc fresh arg args g) h

-- `argv` is gathered, or a `realloc` has failed whose size the number of arguments asks for.
pub Fits : (ℕ → Bool) → List Arg → ℕ → Option Gathered → Type 0
Fits realloc argv bound r =
    (r ≡ some (gathered argv))
    ⊎ ((n : ℕ) × (realloc n ≡ false) × (2048 ≤ n) × (n ≤ bound) × (r ≡ some no_memory))

gather-Fits :
    (realloc : ℕ → Bool) (fresh : ℕ → List Arg) (strings : List (List ℕ)) (argv_max : ℕ)
    (argv : List Arg) (s : List ℕ)
    → 1024 ≤ argv_max
    → length argv ≤ argv_max
    → Fits realloc
        (argv ++ null_ended strings)
        (2 * (length argv + length strings))
        (gather realloc fresh argv_max argv (some s) (null_ended strings))
unfolding Fits Grows gather
gather-Fits realloc fresh [] argv_max argv s big le =
    elim (gather-Grows realloc fresh argv_max argv s none [] big le) [
      | inl (more, lt, ge, e) ↦ inl e
      | inr (out, full, e) ↦ inr (argv_max * 2, out, omega arith, omega (arith, full), e)
    ]
gather-Fits realloc fresh (t ∷ strings) argv_max argv s big le =
    elim (gather-Grows realloc fresh argv_max argv s (some t) (null_ended strings) big le) [
      | inl (more, lt, ge, e) ↦
          let one : length (argv ++ (some t ∷ [])) ≡ length argv + 1 =
            length-append argv (some t ∷ []) in
          let rest =
            gather-Fits realloc fresh strings more (argv ++ (some t ∷ [])) t
              (omega (arith, ge, big)) (omega (arith, one, lt)) in
          elim rest [
            | inl r ↦ inl (e ∙ r ∙ ap (λ a. some (gathered a)) (append_assoc argv _ _))
            | inr (n, out, low, high, r) ↦ inr (n, out, low, omega (arith, one, high), e ∙ r)
          ]
      | inr (out, full, e) ↦ inr (argv_max * 2, out, omega arith, omega (arith, full), e)
    ]

-- The loop of ARG2ARGV ends with every argument that is given and the NULL behind them in `argv`,
-- whatever their number is and whatever new memory holds, and writes no entry that `argv` has no room for; it returns without
-- them only where a `realloc` fails, which it asks for from 1024 entries on.
pub arg2argv-Fits :
    (realloc : ℕ → Bool) (fresh : ℕ → List Arg) (s : List ℕ) (strings : List (List ℕ))
    → Fits realloc
        (null_ended (s ∷ strings))
        (2 * suc (length strings))
        (arg2argv realloc fresh (some s) (null_ended strings))
unfolding arg2argv Fits
arg2argv-Fits realloc fresh s strings =
    elim (gather-Fits realloc fresh strings 1024 (some s ∷ []) s (omega arith) (omega arith)) [
      | inl r ↦ inl r
      | inr (n, out, low, high, r) ↦ inr (n, out, low, omega (arith, high), r)
    ]
