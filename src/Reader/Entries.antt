-- ===== src/Reader/Entries.antt =====
-- `get_le` of logd/common.c gives back the entries that `freeze` wrote, however the bytes of the
-- stream are cut into reads.
use borderpatrol.Base.{
  ℕ, ◌+◌, ◌*◌, ◌-◌, ◌<◌, ◌≤◌, ◌≡◌, refl, sym, ◌∙◌, ap, Bool, some, List, [], ◌∷◌, ◌++◌, append-nil,
  append_assoc, arith, length, take, drop, length-append, take-append, drop-append, All, false,
  le→ltb, length-take, length-drop,
}
use borderpatrol.Base.Int.{pos, ◌-ℤ◌, pos_part, sub-pos}
use borderpatrol.Fmt.{frozen_size, thaw1, thaw2, frozen_bytes}
use borderpatrol.Fmt.Entry.{
  Entry, IsEntry, entry_bytes, tail_bytes, thawed, length-entry_bytes, length-frozen_bytes,
  length-args_le, args_le,
}
use borderpatrol.Fmt.RoundTrip.{drop-entry_bytes, thaw2_lem, frozen_size_lem, thaw1-frozen_bytes}
use borderpatrol.Reader.{
  Reader, Got, entry, fill, get_le, got_part1, got_part2, Read, failed, got, null, refill,
  refill_loop, use_existing, fill_loop,
}
use borderpatrol.Reader.Ready.{IsReady, IsChunk, input_bytes, buffered, pending}
use borderpatrol.Reader.Stream.{Filled, fill-Filled}

pub record GotEntry (e : Entry) (s : Reader) (rest : List ℕ) (out : Got × Reader) : Type 0 where
  pub result : out.0 ≡ entry (thawed e)
  pub left : pending out.1 ≡ rest
  pub seen : out.1.bytes_seen ≡ s.bytes_seen + length (entry_bytes e)
  pub ready : IsReady out.1

module _ (e : Entry) (h : IsEntry e) (rest : List ℕ) where
  take-entry_bytes : take 32 (entry_bytes e ++ rest) ≡ frozen_bytes e.fz
  unfolding entry_bytes
  take-entry_bytes =
      rw (append_assoc (frozen_bytes e.fz) (tail_bytes e) rest)
        (take-append (frozen_bytes e.fz) (tail_bytes e ++ rest) 32 (sym (length-frozen_bytes e.fz)))

  thaw1-exact : thaw1 (frozen_bytes e.fz) ≡ some e.fz
  thaw1-exact =
      ap thaw1 (sym (append-nil (frozen_bytes e.fz))) ∙ thaw1-frozen_bytes e.fz [] h.frozen

  thaw2-exact : thaw2 (tail_bytes e) e.fz (frozen_size e.fz -ℤ pos 32) ≡ some (thawed e)
  thaw2-exact =
      ap (λ t. thaw2 t e.fz (frozen_size e.fz -ℤ pos 32)) (sym (append-nil (tail_bytes e)))
      ∙ thaw2_lem e [] h

  tail_size : pos_part (frozen_size e.fz -ℤ pos 32) ≡ length (tail_bytes e)
  tail_size =
      rw (frozen_size_lem e h, sub-pos (32 + (4 * length e.args + length e.text)) 32 (omega arith))
        (omega (arith, length-append (args_le e.args) e.text, length-args_le e.args))

  -- The second part of `get_le`, once the first has been filled.
  part2 :
      (persist : Bool) (s1 : Reader)
      → IsReady s1
      → pending s1 ≡ tail_bytes e ++ rest
      → s1.bytes_seen + length (tail_bytes e) < 2147483648
      → Filled (length (tail_bytes e)) [] s1 (fill persist (length (tail_bytes e)) s1)
  part2 persist s1 h1 p few =
      fill-Filled persist (length (tail_bytes e)) s1 h1
        (omega (arith, ap length p, length-append (tail_bytes e) rest)) few

-- If the stream of a reader in order begins with the bytes of a well-formed entry, and the count of
-- bytes stays below 2 ^ 31 with them, `get_le` returns that entry thawed, leaves what follows it, and counts its bytes, for every way the stream is cut.
pub get_le-GotEntry :
    (persist : Bool) (e : Entry) (s : Reader) (rest : List ℕ)
    → IsEntry e
    → IsReady s
    → pending s ≡ entry_bytes e ++ rest
    → s.bytes_seen + length (entry_bytes e) < 2147483648
    → GotEntry e s rest (get_le persist s)
unfolding get_le
get_le-GotEntry persist e s rest h r p few =
    let size : length (entry_bytes e) ≡ 32 + length (tail_bytes e) =
      omega (
        arith,
        length-entry_bytes e,
        length-append (args_le e.args) e.text,
        length-args_le e.args,
      ) in
    let f1 =
      fill-Filled persist 32 s r
        (omega (arith, ap length p, length-append (entry_bytes e) rest, length-entry_bytes e))
        (omega (arith, few, size)) in
    let s1 = (fill persist 32 s).2 in
    let p1 : pending s1 ≡ tail_bytes e ++ rest =
      f1.rest ∙ ap (λ t. drop 32 t) p ∙ drop-entry_bytes e rest in
    let f2 = part2 e h rest persist s1 f1.ready p1 (omega (arith, few, size, f1.seen)) in
    rw
      (
        f1.status,
        got_part1,
        f1.bytes ∙ ap (λ t. take 32 t) p ∙ take-entry_bytes e h rest,
        thaw1-exact e h rest,
        tail_size e h rest,
        f2.status,
        got_part2,
        f2.bytes
            ∙ ap (λ t. take (length (tail_bytes e)) t) p1
            ∙ take-append (tail_bytes e) rest _ refl,
        thaw2-exact e h rest,
      )
      (record {
        result = refl;
        left =
            f2.rest
            ∙ ap (λ t. drop (length (tail_bytes e)) t) p1
            ∙ drop-append (tail_bytes e) rest _ refl;
        seen = omega (
          arith,
          f2.seen,
          f1.seen,
          length-entry_bytes e,
          length-append (args_le e.args) e.text,
          length-args_le e.args,
        );
        ready = f2.ready;
      })

-- A stream with no byte left has no read left, and nothing in the buffer.
no_input : (input : List Read) → All IsChunk input → length (input_bytes input) ≡ 0 → input ≡ []
no_input [] h e = refl
no_input (failed ∷ input) h e = absurd h.0
no_input (got [] ∷ input) h e = absurd (omega (arith, h.0.0))
no_input (got (b ∷ bytes) ∷ input) h e = absurd (omega arith)

-- At the end of the stream `get_le` returns NULL and counts nothing.
pub get_le_end :
    (s : Reader)
    → s.lb_end ≤ s.lb_cur
    → s.input ≡ []
    → get_le false s ≡ (
      null,
      record { lb_buf = s.lb_buf; lb_cur = 0; lb_end = 0; bytes_seen = s.bytes_seen; input = [] },
    )
unfolding get_le fill fill_loop use_existing refill refill_loop
get_le_end s h e = rw (le→ltb s.lb_cur s.lb_end h, e)

pub at_end : (s : Reader) → IsReady s → pending s ≡ [] → (s.lb_end ≤ s.lb_cur) × (s.input ≡ [])
at_end s r p =
    (omega (arith, sizes, length-buffered), no_input s.input r.chunks (omega (arith, sizes)))
  where
    sizes : length (buffered s) + length (input_bytes s.input) ≡ 0
    sizes = sym (length-append (buffered s) (input_bytes s.input)) ∙ ap length p

    length-buffered : length (buffered s) ≡ s.lb_end - s.lb_cur
    length-buffered = omega (
      arith,
      length-take (s.lb_end - s.lb_cur) (drop s.lb_cur s.lb_buf),
      length-drop s.lb_cur s.lb_buf,
      r.inside,
    )
