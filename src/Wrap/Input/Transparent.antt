-- ===== src/Wrap/Input/Transparent.antt =====
-- The reading wrappers of trace/vfd.c hand the bytes of the kernel to the application.
use borderpatrol.Base.{
  ℕ, ◌<◌, ◌≡◌, ◌≢◌, sym, ◌∙◌, ap, subst, inl, inr, ◌⊎◌, Bool, true, false, Option, some, List, [],
  ◌∷◌, ◌++◌, arith, length, ◌==◌, if◌then◌else◌, ==_refl, ne→==, le→leb, lt→ltb, ◌>>=◌,
}
use borderpatrol.Base.Int.{ℤ, pos, negsuc}
use borderpatrol.Reader.Ready.{input_bytes}
use borderpatrol.Protocol.{Event, Outcome}
use borderpatrol.Protocol.Dispatch.{Dispatcher, Data}
use borderpatrol.Vfd.{Fd}
use borderpatrol.Vfd.Invariant.{HasRoom, held, IsPlugin, IsVfd}
use borderpatrol.Vfd.Delivered.{Lively, Delivered}
use borderpatrol.Vfd.Transparent.{virtual_read-Delivered}
use borderpatrol.Wrap.{update, max_fds, Process, Config, index_of, logged, fd_at, with_fd}
use borderpatrol.Wrap.Input.{followed_input, wrapped_input}
use borderpatrol.Wrap.Input.Marked.{IsMarked, MarkedIf, virtual_read-MarkedIf}

pub update_here : {A : Type 0} (f : ℕ → A) (fd : ℕ) (a : A) → update f fd a fd ≡ a
update_here f fd a = rw (==_refl fd)

pub update_there : {A : Type 0} (f : ℕ → A) (fd i : ℕ) (a : A) → i ≢ fd → update f fd a i ≡ f i
update_there f fd i a ne = rw (ne→== i fd ne)

pub index_of_pos : (fd : ℕ) → fd < max_fds → index_of (pos fd) ≡ some fd
unfolding index_of
index_of_pos fd lt = rw (lt→ltb fd max_fds lt)

-- The stream of a descriptor: what it holds, and what the kernel has for it.
abbrev pub stream : ℕ → Process → List ℕ
stream fd p = held (p.vfd_tab fd) ++ input_bytes (p.inputs fd)

-- The descriptor is marked readable in the cache exactly if it holds bytes.
abbrev pub IsMarkedAt : ℕ → Process → Type 0
IsMarkedAt fd p =
    p.vsel_read fd ≡ (if (p.vfd_tab fd).rlastlen == (p.vfd_tab fd).rbuflen then false else true)

module _ (k : Config) (pp_read : Dispatcher → Data → ℤ → List ℕ → ℕ → Option (Outcome Data))
    (d : Dispatcher) (fd : ℕ) (W : Data → ℕ → Type 0) where
  -- What a call on the descriptor comes to.
  pub record Passed (p : Process) (t : ℤ × List ℕ × Process) : Type 0 where
    pub in_order : IsVfd pp_read d (pos fd) W (t.2.vfd_tab fd)
    pub same_stream : t.1 ++ stream fd t.2 ≡ stream fd p
    pub answer :
        ((t.0 ≡ pos (length t.1)) × (0 < length t.1) × IsMarkedAt fd t.2)
        ⊎ (((t.0 ≡ pos 0) ⊎ (t.0 ≡ negsuc 0)) × (t.1 ≡ []) × (held (p.vfd_tab fd) ≡ []))
    pub lively : Lively W (p.inputs fd) t.1 (t.2.inputs fd)
    pub others : (i : ℕ) → i ≢ fd → (t.2.vfd_tab i ≡ p.vfd_tab i) × (t.2.inputs i ≡ p.inputs i)

  told_apart :
      (f : Fd) (t : ℤ × List ℕ × Fd)
      → MarkedIf (some t)
      → t.0 ≡ pos (length t.1)
      → 0 < length t.1
      → IsMarked t.2
  told_apart f (r, b ∷ bytes, g) m e lt = subst (λ z. MarkedIf (some (z, b ∷ bytes, g))) e m
  told_apart f (r, [], g) m e lt = absurd (omega (arith, lt))

  -- What a call does to the process is what `virtual_read` does to the descriptor.
  with_fd-Passed :
      (p : Process) (e : Event) (t : ℤ × List ℕ × Fd)
      → Delivered pp_read d (pos fd) W (fd_at fd p) t
      → MarkedIf (some t)
      → Passed p (t.0, t.1, logged e (with_fd fd t.2 p))
  with_fd-Passed p e t dl m =
      let here : update p.vfd_tab fd t.2.vfd fd ≡ t.2.vfd = update_here p.vfd_tab fd t.2.vfd in
      let there : update p.inputs fd t.2.input fd ≡ t.2.input = update_here p.inputs fd t.2.input in
      record {
        in_order = subst (IsVfd pp_read d (pos fd) W) (sym here) dl.in_order;
        same_stream =
            ap (λ v. t.1 ++ (held v ++ input_bytes (update p.inputs fd t.2.input fd))) here
            ∙ ap (λ i. t.1 ++ (held t.2.vfd ++ input_bytes i)) there
            ∙ dl.same_stream;
        answer = elim dl.answer [
          | inl (er, some_out) ↦ inl (
            er,
            some_out,
            update_here p.vsel_read fd t.2.readable
                ∙ told_apart (fd_at fd p) t m er some_out
                ∙ ap (λ v. if v.rlastlen == v.rbuflen then false else true) (sym here),
          )
          | inr other ↦ inr other
        ];
        lively = subst (Lively W (p.inputs fd) t.1) (sym there) dl.lively;
        others = λ i ne.
            (update_there p.vfd_tab fd i t.2.vfd ne, update_there p.inputs fd i t.2.input ne);
      }

  pub wrapped_input-Passed :
      IsPlugin pp_read d (pos fd) W
      → (len : ℕ) (peek : Bool) (before : Event) (behind : ℤ → Event) (p : Process)
      → k.bb_disable_all ≡ false
      → fd < max_fds
      → IsVfd pp_read d (pos fd) W (p.vfd_tab fd)
      → HasRoom len
      → peek ≡ false
      → (t : ℤ × List ℕ × Process) × (wrapped_input k pp_read (pos fd) len peek before behind p
          ≡ some t)
        × Passed p t
  unfolding wrapped_input followed_input
  wrapped_input-Passed ok len peek before behind p on inside h some_len takes =
      let p1 : Process = logged before p in
      let (t, e, dl) =
        virtual_read-Delivered pp_read d (pos fd) W (fd_at fd p1) len ok h some_len in
      let m : MarkedIf (some t) =
        subst MarkedIf e (virtual_read-MarkedIf pp_read (pos fd) (fd_at fd p1) len) in
      (
        (t.0, t.1, logged (behind t.0) (with_fd fd t.2 p1)),
        rw (on, index_of_pos fd inside, takes)
            (ap
                (λ o. followed_input k pp_read fd len false p1 o >>= λ u.
                  some (u.0, u.1, logged (behind u.0) u.2))
                h.plugin
              ∙ rw (e, le→leb t.2.vfd.rbufofs t.2.vfd.rbuflen dl.in_order.ofs_inside)),
        record {
          in_order = (with_fd-Passed p1 (behind t.0) t dl m).in_order;
          same_stream = (with_fd-Passed p1 (behind t.0) t dl m).same_stream;
          answer = (with_fd-Passed p1 (behind t.0) t dl m).answer;
          lively = (with_fd-Passed p1 (behind t.0) t dl m).lively;
          others = (with_fd-Passed p1 (behind t.0) t dl m).others;
        },
      )
