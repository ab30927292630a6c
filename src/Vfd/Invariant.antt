-- ===== src/Vfd/Invariant.antt =====
-- The virtual descriptor of trace/vfd.c in order, and what `buf_ret` and `present_pp` do to it.
use borderpatrol.Base.{
  ℕ, ◌%◌, [], ◌+◌, ◌-◌, ◌<◌, ◌≤◌, ◌≡◌, refl, ◌∙◌, ap, min, inl, inr, ◌⊎◌, Bool, true, false, Option,
  some, List, ◌++◌, arith, length, take, drop, store, ◌==◌, if◌then◌else◌, length-append,
  length-take, length-drop, take-split, drop-drop, take-append, drop-append, lt→ltb, ne→==, ◌&&◌,
}
use borderpatrol.Base.Int.{ℤ, pos, sub-pos}
use borderpatrol.Protocol.{Outcome, need_more}
use borderpatrol.Protocol.Dispatch.{Dispatcher, Data}
use borderpatrol.Vfd.{vbufsize, Vfd, Fd, buf_ret, presented, present_pp}

-- A size that a call may ask for: a byte at least, and it fits an `int`.
abbrev pub HasRoom : ℕ → Type 0
HasRoom len = (0 < len) × (len < 2147483648)

-- The bytes read and not yet returned to the application.
abbrev pub held : Vfd → List ℕ
held v = take (v.rbuflen - v.rlastlen) (drop v.rlastlen v.rbuf)

pub and_false : (b : Bool) → b && false ≡ false
and_false true = refl
and_false false = refl

pub held_none : (v : Vfd) → v.rlastlen ≡ v.rbuflen → held v ≡ []
held_none v e = let z : v.rbuflen - v.rlastlen ≡ 0 = omega (arith, e) in rw z

-- What is stored behind the bytes returned is what is held.
pub held_stored :
    (w n : ℕ) (bytes R : List ℕ)
    → n ≡ length bytes
    → w ≤ length R
    → take (w + n - w) (drop w (store w bytes R)) ≡ bytes
held_stored w n bytes R e le =
    let k : w + n - w ≡ n = omega arith in
    rw k (
      ap (take n) (
        drop-append (take w R) (bytes ++ drop (w + length bytes) R) w
          (omega (arith, le, length-take w R)))
      ∙ take-append bytes (drop (w + length bytes) R) n e)

pub length-stored :
    (w : ℕ) (bytes R : List ℕ) → w + length bytes ≤ length R → length (store w bytes R) ≡ length R
length-stored w bytes R le = omega (
  arith,
  le,
  length-append (take w R) (bytes ++ drop (w + length bytes) R),
  length-append bytes (drop (w + length bytes) R),
  length-take w R,
  length-drop (w + length bytes) R,
)

module _ (pp_read : Dispatcher → Data → ℤ → List ℕ → ℕ → Option (Outcome Data)) (d : Dispatcher)
    (s : ℤ) (W : Data → ℕ → Type 0) where
  -- `W t w`: with state `t` the plugin has asked for more than `w` bytes. A call with more of them
  -- asks for more again, or uses more than it has refused, and no more than there are.
  abbrev pub IsPlugin : Type 0
  IsPlugin =
      (t : Data) (w n : ℕ) (buf : List ℕ)
      → W t w
      → w < n
      → n ≤ length buf
      → (r : Outcome Data) × (pp_read d t s buf n ≡ some r)
        × (((r.ret ≡ need_more) × W r.state n)
            ⊎ ((a : ℕ) × (r.ret ≡ pos a) × (w < a) × (a ≤ n) × W r.state 0))

  -- The offsets are in order; all that may be returned is what the plugin has used, or everything if
  -- it has asked for more.
  pub record IsVfd (v : Vfd) : Type 0 where
    pub ready : ℕ
    pub to_send : v.tosend ≡ pos ready
    pub released : v.rlastlen + ready ≤ v.rbuflen
    pub ofs_inside : v.rbufofs ≤ v.rbuflen
    pub fits : v.rbuflen ≤ vbufsize
    pub size : length v.rbuf ≡ vbufsize
    pub plugin : v.pp_dispatcher ≡ some d
    pub mode :
        ((v.ppwantmore ≡ true)
          × (v.rlastlen + ready ≡ v.rbuflen)
          × W v.pp_data (v.rbuflen - v.rbufofs))
        ⊎ ((v.ppwantmore ≡ false) × (v.rlastlen + ready ≡ v.rbufofs) × W v.pp_data 0)

  -- What a call returns: some of what is held, at least a byte.
  pub record Returned (f : Fd) (t : List ℕ × Fd) : Type 0 where
    pub in_order : IsVfd t.1.vfd
    pub kept : t.0 ++ held t.1.vfd ≡ held f.vfd
    pub same_input : t.1.input ≡ f.input
    pub gets_on : 0 < length t.0

  pub buf_ret-Returned :
      (f : Fd) (len : ℕ)
      → (h : IsVfd f.vfd) → 0 < h.ready
      → HasRoom len
      → (t : List ℕ × Fd) × (buf_ret f len ≡ some t) × Returned f t
  unfolding buf_ret
  buf_ret-Returned f len h more some_len =
      let v : Vfd = f.vfd in
      let same : len % 4294967296 ≡ len = omega (arith, some_len.1) in
      let cando : ℕ = min len h.ready in
      (
        (
          take cando (drop v.rlastlen v.rbuf),
          record f {
            vfd = record v { rlastlen = v.rlastlen + cando; tosend = pos (h.ready - cando) };
            readable = if v.rlastlen + cando == v.rbuflen then false else true;
          },
        ),
        rw (
          h.to_send,
          ne→== h.ready 0 (omega (arith, more)),
          lt→ltb v.rlastlen vbufsize (omega (arith, more, h.released, h.fits)),
          same,
          lt→ltb len 2147483648 some_len.1,
        ),
        record {
          in_order = record {
            ready = h.ready - cando;
            to_send = refl;
            released = omega (arith, h.released);
            ofs_inside = h.ofs_inside;
            fits = h.fits;
            size = h.size;
            plugin = h.plugin;
            mode = elim h.mode [
              | inl (w, e, t) ↦ inl (w, omega (arith, e), t)
              | inr (w, e, t) ↦ inr (w, omega (arith, e), t)
            ];
          };
          kept = held_split v.rbuf v.rlastlen v.rbuflen cando (omega (arith, h.released));
          same_input = refl;
          gets_on = omega (
            arith,
            more,
            some_len.0,
            h.released,
            h.fits,
            h.size,
            length-take cando (drop v.rlastlen v.rbuf),
            length-drop v.rlastlen v.rbuf,
          );
        },
      )
    where
      held_split :
          (buf : List ℕ) (i j k : ℕ)
          → i + k ≤ j
          → take k (drop i buf) ++ take (j - (i + k)) (drop (i + k) buf) ≡ take (j - i) (drop i buf)
      held_split buf i j k le =
          let e : j - (i + k) ≡ j - i - k = omega arith in
          rw (e, ← drop-drop i k buf) (take-split k (j - i) (drop i buf) (omega (arith, le)))

  -- What the plugin is shown releases at least a byte.
  pub record Presented (f g : Fd) : Type 0 where
    pub in_order : IsVfd g.vfd
    pub more : 0 < in_order.ready
    pub same_held : held g.vfd ≡ held f.vfd
    pub same_input : g.input ≡ f.input

  -- The plugin has used up to `rbufofs`, and has refused the `w` bytes behind, which the application
  -- has; there are more.
  pub present_pp-Presented :
      IsPlugin
      → (f : Fd) (w : ℕ) → f.vfd.pp_dispatcher ≡ some d
      → f.vfd.rlastlen ≡ f.vfd.rbufofs + w
      → W f.vfd.pp_data w
      → w < f.vfd.rbuflen - f.vfd.rbufofs
      → f.vfd.rbuflen ≤ vbufsize
      → length f.vfd.rbuf ≡ vbufsize
      → (g : Fd) × (present_pp pp_read s f ≡ some g) × Presented f g
  unfolding present_pp presented
  present_pp-Presented ok f w ed el hw lt fits size =
      let v : Vfd = f.vfd in
      let amt : ℕ = v.rbuflen - v.rbufofs in
      let (r, e, what) =
        ok v.pp_data w amt (drop v.rbufofs v.rbuf) hw lt
          (omega (arith, fits, size, length-drop v.rbufofs v.rbuf)) in
      let called : present_pp pp_read s f ≡ some (presented pp_read f amt r) =
        rw (ne→== amt 0 (omega (arith, lt)), ed, e) in
      (
        presented pp_read f amt r,
        called,
        elim what [
          | inl (er, hw') ↦ rw er (record {
            in_order = record {
              ready = v.rbuflen - v.rlastlen;
              to_send = sub-pos v.rbuflen v.rlastlen (omega (arith, el, lt));
              released = omega (arith, el, lt);
              ofs_inside = omega (arith, lt);
              fits = fits;
              size = size;
              plugin = ed;
              mode = inl (refl, omega (arith, el, lt), hw');
            };
            more = omega (arith, el, lt);
            same_held = refl;
            same_input = refl;
          })
          | inr (a, er, wa, an, hw') ↦ rw er (record {
            in_order = record {
              ready = v.rbufofs + a - v.rlastlen;
              to_send = sub-pos (v.rbufofs + a) v.rlastlen (omega (arith, el, wa));
              released = omega (arith, el, wa, an);
              ofs_inside = omega (arith, an, lt);
              fits = fits;
              size = size;
              plugin = ed;
              mode = inr (refl, omega (arith, el, wa), hw');
            };
            more = omega (arith, el, wa);
            same_held = refl;
            same_input = refl;
          })
        ],
      )
