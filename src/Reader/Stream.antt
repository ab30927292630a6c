-- ===== src/Reader/Stream.antt =====
-- `fill` of logd/common.c hands over the next bytes of the stream, whatever the sizes of the reads.
use borderpatrol.Base.{
  ℕ, zero, suc, ◌+◌, ◌-◌, ◌<◌, ◌≤◌, ◌≡◌, refl, sym, ◌∙◌, ap, subst, ◌≢◌, inl, inr, Bool, true,
  false, List, [], ◌∷◌, ◌++◌, append-nil, append_assoc, arith, ◌==◌, length, take, drop, All,
  Bool-cases, length-append, length-drop, take-append, drop-append, ==_iff, take-append_ge,
  drop-append_ge, ==_ne, store,
}
use borderpatrol.Reader.{
  Read, failed, got, Reader, Status, bok, pipe_buf, refill, refill_loop, use_existing, fill_loop,
  fill, is_bok,
}
use borderpatrol.Reader.Ready.{IsChunk, input_bytes, pending, IsReady, Used, use_existing-Used}

record Refilled (input : List Read) (seen : ℕ) (out : Status × Reader) : Type 0 where
  status : out.0 ≡ bok
  kept : pending out.1 ≡ input_bytes input
  same_seen : out.1.bytes_seen ≡ seen
  ready : IsReady out.1
  some_left : out.1.lb_cur < out.1.lb_end

module _ (s : Reader) (b : ℕ) (bytes : List ℕ) (input : List Read) (start : s.lb_cur ≡ 0)
    (room : pipe_buf ≤ length s.lb_buf) (chunk : IsChunk (got (b ∷ bytes)))
    (chunks : All IsChunk input) where
  stored_chunk :
      take (length (b ∷ bytes) - s.lb_cur) (drop s.lb_cur (store 0 (b ∷ bytes) s.lb_buf))
      ≡ b ∷ bytes
  stored_chunk =
      let e : length (b ∷ bytes) - 0 ≡ length (b ∷ bytes) = omega arith in
      rw (start, e) (take-append (b ∷ bytes) _ (length (b ∷ bytes)) refl)

  length-stored : length (store 0 (b ∷ bytes) s.lb_buf) ≡ length s.lb_buf
  length-stored = omega (
    arith,
    length-append (b ∷ bytes) (drop (0 + length (b ∷ bytes)) s.lb_buf),
    length-drop (0 + length (b ∷ bytes)) s.lb_buf,
  )

  loop_Refilled :
      (persist : Bool)
      → Refilled
          (got (b ∷ bytes) ∷ input)
          s.bytes_seen
          (refill_loop persist s (got (b ∷ bytes) ∷ input))
  unfolding refill_loop
  loop_Refilled true = record {
    status = refl;
    kept = ap (λ t. t ++ input_bytes input) stored_chunk;
    same_seen = refl;
    ready = record {
      in_order = omega arith;
      inside = omega (arith, length-stored);
      room = omega (arith, length-stored);
      chunks = chunks;
    };
    some_left = omega arith;
  }
  loop_Refilled false = record {
    status = refl;
    kept = ap (λ t. t ++ input_bytes input) stored_chunk;
    same_seen = refl;
    ready = record {
      in_order = omega arith;
      inside = omega (arith, length-stored);
      room = omega (arith, length-stored);
      chunks = chunks;
    };
    some_left = omega arith;
  }

refill-Refilled :
    (persist : Bool) (s : Reader) (input : List Read)
    → IsReady s
    → s.input ≡ input
    → 0 < length (input_bytes input)
    → Refilled input s.bytes_seen (refill persist s)
unfolding refill
refill-Refilled persist s [] h e some = absurd (omega arith)
refill-Refilled persist s (failed ∷ input) h e some = absurd (subst (All IsChunk) e h.chunks).0
refill-Refilled persist s (got [] ∷ input) h e some =
    absurd (omega (arith, (subst (All IsChunk) e h.chunks).0.0))
refill-Refilled persist s (got (b ∷ bytes) ∷ input) h e some =
    let fresh : Reader = record s { lb_cur = 0; lb_end = 0 } in
    let ready : All IsChunk (got (b ∷ bytes) ∷ input) = subst (All IsChunk) e h.chunks in
    subst (λ t. Refilled (got (b ∷ bytes) ∷ input) s.bytes_seen (refill_loop persist fresh t))
      (sym e) (loop_Refilled fresh b bytes input refl h.room ready.0 ready.1 persist)

-- What `fill` leaves: the first `num` bytes of the stream are handed over behind `thing`.
pub record Filled (num : ℕ) (thing : List ℕ) (s : Reader) (out : Status × List ℕ × Reader)
    : Type 0 where
  pub status : out.0 ≡ bok
  pub bytes : out.1 ≡ thing ++ take num (pending s)
  pub rest : pending out.2 ≡ drop num (pending s)
  pub seen : out.2.bytes_seen ≡ s.bytes_seen + num
  pub ready : IsReady out.2

Filled-zero :
    (num : ℕ) (thing : List ℕ) (s : Reader)
    → IsReady s
    → num ≡ 0
    → Filled num thing s (bok, thing, s)
Filled-zero num thing s h e = record {
  status = refl;
  bytes = rw e (sym (append-nil thing));
  rest = rw e;
  seen = omega arith;
  ready = h;
}

module _ (num : ℕ) (thing : List ℕ) (s : Reader) {copied : List ℕ} {s1 : Reader}
    (u : Used num s (copied, s1)) where
  Filled-used : num - length copied ≡ 0 → Filled num thing s (bok, thing ++ copied, s1)
  Filled-used z =
      let e : num ≡ length copied = omega (arith, u.amount) in
      record {
        status = refl;
        bytes =
            ap (λ t. thing ++ t)
              (sym (ap (λ t. take num t) (sym u.kept) ∙ take-append copied (pending s1) num e));
        rest = sym (ap (λ t. drop num t) (sym u.kept) ∙ drop-append copied (pending s1) num e);
        seen = omega (arith, u.seen);
        ready = u.ready;
      }

  Filled-more :
      (r : Status) (s2 : Reader) (out : Status × List ℕ × Reader)
      → length copied ≤ num
      → pending s1 ≡ input_bytes s1.input
      → Refilled s1.input s1.bytes_seen (r, s2)
      → Filled (num - length copied) (thing ++ copied) s2 out
      → Filled num thing s out
  Filled-more r s2 out le empty re f =
      let same : pending s2 ≡ pending s1 = re.kept ∙ sym empty in
      record {
        status = f.status;
        bytes =
            f.bytes
            ∙ append_assoc thing copied _
            ∙ ap (λ t. thing ++ t)
                (ap (λ t. copied ++ take (num - length copied) t) same
                  ∙ sym (take-append_ge num copied (pending s1) le)
                  ∙ ap (λ t. take num t) u.kept);
        rest =
            f.rest
            ∙ ap (λ t. drop (num - length copied) t) same
            ∙ sym (drop-append_ge num copied (pending s1) le)
            ∙ ap (λ t. drop num t) u.kept;
        seen = omega (arith, f.seen, re.same_seen, u.seen);
        ready = f.ready;
      }

  -- What is asked beyond the buffer is all in the input.
  empty_buffer : num - length copied ≢ 0 → s.lb_cur ≤ s.lb_end → pending s1 ≡ input_bytes s1.input
  empty_buffer z h = let e : s1.lb_end - s1.lb_cur ≡ 0 = omega (arith, u.left, u.amount) in rw e

fill_loop-Filled :
    (fuel : ℕ) (persist : Bool) (num : ℕ) (thing : List ℕ) (s : Reader)
    → IsReady s
    → num ≤ length (pending s)
    → s.bytes_seen + num < 2147483648
    → num + (1 - (s.lb_end - s.lb_cur)) ≤ fuel
    → 1 ≤ fuel
    → Filled num thing s (fill_loop fuel persist num thing s)
unfolding fill_loop
fill_loop-Filled zero persist num thing s h enough few f one = absurd (omega arith)
fill_loop-Filled (suc fuel) persist num thing s h enough few f one = elim (Bool-cases (num == 0)) [
  | inl e ↦ rw (e, fill_loop) (Filled-zero num thing s h ((==_iff num 0).0 e))
  | inr e ↦
      let (copied, s1) = use_existing num s in
      let u : Used num s (copied, s1) = use_existing-Used num s h few in
      elim (Bool-cases (num - length copied == 0)) [
        | inl z ↦ rw (e, z, fill_loop) (Filled-used num thing s u ((==_iff _ 0).0 z))
        | inr z ↦
            let ne : num - length copied ≢ 0 = ==_ne _ 0 z in
            let empty : pending s1 ≡ input_bytes s1.input =
              empty_buffer num thing s u ne h.in_order in
            let (r, s2) = refill persist s1 in
            let re : Refilled s1.input s1.bytes_seen (r, s2) =
              refill-Refilled persist s1 s1.input u.ready refl (
                omega
                  (arith, length-append copied (pending s1), ap length u.kept, ap length empty)) in
            let f2 : Filled (num - length copied) (thing ++ copied) s2
                (fill_loop fuel persist (num - length copied) (thing ++ copied) s2) =
              fill_loop-Filled fuel persist (num - length copied) (thing ++ copied) s2 re.ready
                (omega (
                  arith,
                  length-append copied (pending s1),
                  ap length u.kept,
                  ap length empty,
                  ap length re.kept,
                ))
                (omega (arith, few, re.same_seen, u.seen, u.amount))
                (omega (arith, re.some_left, u.amount)) (omega (arith, re.some_left, u.amount)) in
            rw (e, z, fill_loop, ap is_bok re.status)
              (Filled-more num thing s u r s2 _ (omega (arith, u.amount)) empty re f2)
      ]
]

-- For a buffer in order, an input of chunks of any sizes that `read` may bring, no more bytes asked
-- than the stream has, and a count `bytes_seen` that stays below 2 ^ 31: `fill` returns BOK, copies exactly the next `num` bytes of the stream,
-- leaves the rest of the stream in place, and adds `num` to `bytes_seen`.
pub fill-Filled :
    (persist : Bool) (num : ℕ) (s : Reader)
    → IsReady s
    → num ≤ length (pending s)
    → s.bytes_seen + num < 2147483648
    → Filled num [] s (fill persist num s)
unfolding fill
fill-Filled persist num s h enough few =
    fill_loop-Filled (suc num) persist num [] s h enough few (omega arith) (omega arith)
