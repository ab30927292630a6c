-- ===== src/Vfd/Reads.antt =====
-- An application that reads a descriptor of trace/vfd.c again and again.
use borderpatrol.Base.{
  ℕ, ◌≡◌, refl, ◌∙◌, ap, inl, inr, true, false, ltb, ◌&&◌, not, if◌then◌else◌, ◌-◌, min, ==_iff,
  Option, some, List, [], ◌∷◌, ◌++◌, append_assoc, arith, length, All, ◌>>=◌,
}
use borderpatrol.Base.Int.{ℤ, pos}
use borderpatrol.Reader.{Read}
use borderpatrol.Reader.Ready.{input_bytes}
use borderpatrol.Protocol.{Outcome}
use borderpatrol.Protocol.Dispatch.{Dispatcher, pp_mysqls, Data, Garbage, pp_read_data, pp_init}
use borderpatrol.Vfd.{
  vbufsize, Vfd, vfd_sock, Fd, vfd_tab_init_one, virtual_read, read_by, read_more, after_read,
  buf_shift, real_read, present_pp, shown_more,
}
use borderpatrol.Vfd.Invariant.{and_false, HasRoom, held, IsPlugin, IsVfd}
use borderpatrol.Vfd.Transparent.{virtual_read-Delivered}
use borderpatrol.Vfd.Mysql.{MysqlRefused, pp_mysqls_read-IsPlugin}

-- Calls with room for so many bytes each: all bytes returned, in order.
pub reads :
    (Dispatcher → Data → ℤ → List ℕ → ℕ → Option (Outcome Data))
    → ℤ
    → List ℕ
    → Fd
    → Option (List ℕ × Fd)
reads pp_read s [] f = some ([], f)
reads pp_read s (len ∷ lens) f = do
  t ← virtual_read pp_read s f len
  u ← reads pp_read s lens t.2
  some (t.1 ++ u.0, u.1)

reads-in_order :
    (pp_read : Dispatcher → Data → ℤ → List ℕ → ℕ → Option (Outcome Data)) (d : Dispatcher) (s : ℤ)
    (W : Data → ℕ → Type 0) (lens : List ℕ) (f : Fd)
    → IsPlugin pp_read d s W
    → IsVfd pp_read d s W f.vfd
    → All HasRoom lens
    → (out : List ℕ) × (g : Fd) × (reads pp_read s lens f ≡ some (out, g))
      × IsVfd pp_read d s W g.vfd
      × (out ++ (held g.vfd ++ input_bytes g.input) ≡ held f.vfd ++ input_bytes f.input)
unfolding reads
reads-in_order pp_read d s W [] f ok h room = ([], f, refl, h, refl)
reads-in_order pp_read d s W (len ∷ lens) f ok h room =
    let (t, e, dl) = virtual_read-Delivered pp_read d s W f len ok h room.0 in
    let (out, g, e', h', same) = reads-in_order pp_read d s W lens t.2 ok dl.in_order room.1 in
    (
      t.1 ++ out,
      g,
      rw (e, e'),
      h',
      append_assoc t.1 out (held g.vfd ++ input_bytes g.input)
          ∙ ap (λ l. t.1 ++ l) same
          ∙ dl.same_stream,
    )

-- What `accept` sets up for a descriptor on which the MySQL plugin is found.
abbrev pub accepted : Garbage → ℤ → Vfd → List Read → Fd
accepted g s v input = record {
  vfd = record (vfd_tab_init_one v) {
    type = vfd_sock;
    pp_dispatcher = some pp_mysqls;
    pp_data = (pp_init pp_mysqls g s v.pp_data).0;
  };
  readable = false;
  log = [];
  input = input;
}

-- On a descriptor that has been accepted for the MySQL server's plugin, whatever its entry in the
-- table was before and whatever bytes the kernel brings in whatever pieces: every sequence of calls
-- of `virtual_read`, each for a size from 1 that fits an `int`, returns, and the bytes returned, those
-- held and those that the kernel still has are the bytes that the kernel had, in order.
pub mysql_reads :
    (g : Garbage) (s : ℤ) (v : Vfd) (input : List Read) (lens : List ℕ)
    → length v.rbuf ≡ vbufsize
    → All HasRoom lens
    → (out : List ℕ) × (f : Fd) × (reads (λ d. pp_read_data d g) s lens (accepted g s v input)
        ≡ some (out, f))
      × (out ++ (held f.vfd ++ input_bytes f.input) ≡ input_bytes input)
unfolding vfd_tab_init_one pp_init
mysql_reads g s v input lens size room =
    let (out, f, e, h, same) =
      reads-in_order (λ d. pp_read_data d g) pp_mysqls s MysqlRefused lens (accepted g s v input)
        (pp_mysqls_read-IsPlugin g s)
        (record {
          ready = 0;
          to_send = refl;
          released = omega arith;
          ofs_inside = omega arith;
          fits = omega arith;
          size = size;
          plugin = refl;
          mode = inr (refl, omega arith, inl refl);
        })
        room in
    (out, f, e, same)

-- If the plugin has asked for more with the whole buffer in hand, and the application has all of it:
-- `virtual_read` returns 0, the answer for the end of the file, and takes nothing from the kernel,
-- whatever the kernel has.
pub virtual_read_full :
    (pp_read : Dispatcher → Data → ℤ → List ℕ → ℕ → Option (Outcome Data)) (s : ℤ) (f : Fd)
    (len : ℕ)
    → f.vfd.tosend ≡ pos 0
    → f.vfd.ppwantmore ≡ true
    → f.vfd.rbufofs ≡ 0
    → f.vfd.rbuflen ≡ vbufsize
    → virtual_read pp_read s f len ≡ some (pos 0, [], f)
unfolding virtual_read read_by read_more after_read buf_shift real_read
virtual_read_full pp_read s f len none_ready want ofs full =
    ap (λ z. read_by pp_read z s f len) none_ready
    ∙ ap
        (λ b.
          if b
          then (present_pp pp_read s f >>= λ g. shown_more pp_read s g len)
          else read_more pp_read s f len)
        closed
    ∙ ap (λ v. after_read pp_read s f v len (real_read (vbufsize - v.rbuflen) f.input)) still
    ∙ ap (λ k. after_read pp_read s f f.vfd len (real_read k f.input))
        {x = vbufsize - f.vfd.rbuflen} {y = 0} (omega (arith, full))
  where
    closed : ltb f.vfd.rbufofs f.vfd.rbuflen && not f.vfd.ppwantmore ≡ false
    closed = rw want (and_false (ltb f.vfd.rbufofs f.vfd.rbuflen))

    still : buf_shift f.vfd ≡ f.vfd
    still = rw ((==_iff (min f.vfd.rbufofs f.vfd.rlastlen) 0).1 (omega (arith, ofs)))
