-- ===== src/Wrap/Input/Held.antt =====
-- Calls of trace/vfd.c on one descriptor, one after another: reads, and a `select` behind a read.
use borderpatrol.Base.{
  ℕ, ◌-◌, ◌<◌, ◌≤◌, ◌≡◌, ◌≢◌, refl, ◌∙◌, ap, inl, inr, true, false, Option, some, List, [], ◌∷◌,
  ◌++◌, append_assoc, arith, All, length, drop, ◌==◌, if◌then◌else◌, ne→==, ==_refl, ◌>>=◌,
  length-take, length-drop,
}
use borderpatrol.Base.Int.{ℤ, pos, negsuc}
use borderpatrol.Protocol.{Outcome}
use borderpatrol.Protocol.Dispatch.{Dispatcher, Data, Garbage}
use borderpatrol.Vfd.{Vfd}
use borderpatrol.Vfd.Invariant.{HasRoom, held, held_none, IsPlugin, IsVfd}
use borderpatrol.Wrap.{update, max_fds, Process, Config}
use borderpatrol.Wrap.Network.{Names}
use borderpatrol.Wrap.Input.{Input, peeks, read, recv, recvfrom}
use borderpatrol.Wrap.Input.Transparent.{stream, IsMarkedAt, Passed, wrapped_input-Passed}
use borderpatrol.Wrap.Select.{Answer, speak_select}
use borderpatrol.Wrap.Select.Cache.{to_read, speak_select_cached, speak_select_asks}

-- A call that reads, with its room and its flags.
pub data InputCall : Type 0 where
  by_read : ℕ → InputCall
  by_recv : ℕ → ℤ → InputCall
  by_recvfrom : ℕ → ℤ → InputCall

-- The call is for a size from 1 that fits an `int`, and has no flags.
abbrev pub IsPlain : InputCall → Type 0
IsPlain (by_read len) = HasRoom len
IsPlain (by_recv len flags) = HasRoom len × (flags ≡ pos 0)
IsPlain (by_recvfrom len flags) = HasRoom len × (flags ≡ pos 0)

no_flags : (flags : ℤ) → flags ≡ pos 0 → peeks flags ≡ false
unfolding peeks
no_flags flags e = rw e

module _ (k : Config) (pp_read : Dispatcher → Data → ℤ → List ℕ → ℕ → Option (Outcome Data)) where
  unfoldable pub input_call : ℕ → InputCall → Process → Input
  input_call fd (by_read len) p = read k pp_read (pos fd) len p
  input_call fd (by_recv len flags) p = recv k pp_read (pos fd) len flags p
  input_call fd (by_recvfrom len flags) p = recvfrom k pp_read (pos fd) len flags p

  -- One after another: all that has been returned.
  unfoldable pub input_calls : ℕ → List InputCall → Process → Option (List ℕ × Process)
  input_calls fd [] p = some ([], p)
  input_calls fd (c ∷ cs) p = do
    t ← input_call fd c p
    u ← input_calls fd cs t.2
    some (t.1 ++ u.0, u.1)

  module _ (d : Dispatcher) (fd : ℕ) (W : Data → ℕ → Type 0) (ok : IsPlugin pp_read d (pos fd) W)
      (on : k.bb_disable_all ≡ false) (inside : fd < max_fds) where
    pub input_call-Passed :
        (c : InputCall) (p : Process)
        → IsVfd pp_read d (pos fd) W (p.vfd_tab fd)
        → IsPlain c
        → (t : ℤ × List ℕ × Process) × (input_call fd c p ≡ some t) × Passed k pp_read d fd W p t
    unfolding input_call read recv recvfrom
    input_call-Passed (by_read len) p h plain =
        wrapped_input-Passed k pp_read d fd W ok len false _ _ p on inside h plain refl
    input_call-Passed (by_recv len flags) p h plain =
        wrapped_input-Passed k pp_read d fd W ok len (peeks flags) _ _ p on inside h plain.0
          (no_flags flags plain.1)
    input_call-Passed (by_recvfrom len flags) p h plain =
        wrapped_input-Passed k pp_read d fd W ok len (peeks flags) _ _ p on inside h plain.0
          (no_flags flags plain.1)

    pub input_calls-in_order :
        (cs : List InputCall) (p : Process)
        → IsVfd pp_read d (pos fd) W (p.vfd_tab fd)
        → All IsPlain cs
        → (out : List ℕ) × (p' : Process) × (input_calls fd cs p ≡ some (out, p'))
          × IsVfd pp_read d (pos fd) W (p'.vfd_tab fd)
          × (out ++ stream fd p' ≡ stream fd p)
          × ((i : ℕ) → i ≢ fd → (p'.vfd_tab i ≡ p.vfd_tab i) × (p'.inputs i ≡ p.inputs i))
    unfolding input_calls
    input_calls-in_order [] p h rooms = ([], p, refl, h, refl, λ i ne. (refl, refl))
    input_calls-in_order (c ∷ cs) p h rooms =
        let (t, e, pa) = input_call-Passed c p h rooms.0 in
        let (out, p', e', h', same, others) = input_calls-in_order cs t.2 pa.in_order rooms.1 in
        (
          t.1 ++ out,
          p',
          rw (e, e'),
          h',
          append_assoc t.1 out (stream fd p') ∙ ap (λ l. t.1 ++ l) same ∙ pa.same_stream,
          λ i ne. ((others i ne).0 ∙ (pa.others i ne).0, (others i ne).1 ∙ (pa.others i ne).1),
        )

held_all : (v : Vfd) → held v ≡ [] → v.rbuflen ≤ length v.rbuf → v.rbuflen - v.rlastlen ≡ 0
held_all v e le = omega (
  arith,
  le,
  ap length e,
  length-take (v.rbuflen - v.rlastlen) (drop v.rlastlen v.rbuf),
  length-drop v.rlastlen v.rbuf,
)

-- For a descriptor in order whose plugin is within its contract: a `read`, or a `recv` or `recvfrom`
-- without flags, for a size from 1 that fits an `int`, returns; if it has returned bytes, and with no connect in progress, a `select` that asks whether the
-- descriptor can be read says so, without the kernel, if bytes are held for it, and is left to the
-- kernel if none are.
pub select_behind_read :
    (k : Config) (pp_read : Dispatcher → Data → ℤ → List ℕ → ℕ → Option (Outcome Data))
    (d : Dispatcher) (fd n : ℕ) (W : Data → ℕ → Type 0) (c : InputCall) (p : Process) (g : Garbage)
    (names : ℕ → Names) (a : Answer)
    → IsPlugin pp_read d (pos fd) W
    → k.bb_disable_all ≡ false
    → fd < n
    → n ≤ max_fds
    → IsVfd pp_read d (pos fd) W (p.vfd_tab fd)
    → IsPlain c
    → a.r ≡ pos 0
    → (t : ℤ × List ℕ × Process) × (input_call k pp_read fd c p ≡ some t)
      × ((t.1 ≢ [])
          → (t.2.vfd_tab fd).in_prog ≡ false
          → ((held (t.2.vfd_tab fd) ≢ [])
              → speak_select k g names n (to_read fd) a t.2
                ≡ some (
                  record { ret = pos 1; rfd = pos fd; sets = to_read fd },
                  record t.2 { vsel_read = update t.2.vsel_read fd false },
                ))
            × ((held (t.2.vfd_tab fd) ≡ [])
                → speak_select k g names n (to_read fd) a t.2
                  ≡ some (record { ret = pos 0; rfd = negsuc 0; sets = a.left }, t.2)))
select_behind_read k pp_read d fd n W c p g names a ok on lt le h some_len none_ready =
    let (t, e, pa) =
      input_call-Passed k pp_read d fd W ok on (omega (arith, lt, le)) c p h some_len in
    let v : Vfd = t.2.vfd_tab fd in
    let marked : (t.1 ≢ []) → IsMarkedAt fd t.2 = λ some_out. elim pa.answer [
      | inl (er, more, m) ↦ m
      | inr (er, none_out, none_held) ↦ absurd (some_out none_out)
    ] in
    let inside : v.rbuflen ≤ length v.rbuf = omega (arith, pa.in_order.fits, pa.in_order.size) in
    (
      t,
      e,
      λ some_out quiet. (
        λ more. speak_select_cached k g names n fd a t.2 le lt quiet (
            marked some_out
            ∙ ap (λ b. if b then false else true)
                (ne→== v.rlastlen v.rbuflen (λ z. more (held_none v z)))),
        λ nothing.
            speak_select_asks k g names n fd a t.2 le
              (marked some_out
                ∙ ap (λ b. if b then false else true)
                    (ap (λ l. l == v.rbuflen)
                        (omega (arith, held_all v nothing inside, pa.in_order.released))
                      ∙ ==_refl v.rbuflen))
              none_ready,
      ),
    )
