-- ===== src/Reader/Ready.antt =====
-- A reader of logd/common.c between two calls, and what it has in its buffer.
use borderpatrol.Base.{
  ℕ, ◌+◌, ◌-◌, ◌<◌, ◌≤◌, ◌≡◌, refl, sym, ◌∙◌, ap, inl, inr, min, List, [], ◌∷◌, ◌++◌, append_assoc,
  arith, ltb, length, take, drop, All, Bool-cases, length-take, length-drop, take-split, drop-drop,
  ltb→le,
}
use borderpatrol.Reader.{Read, failed, got, Reader, pipe_buf, use_existing}

-- A read that brings bytes, as many as it may.
abbrev pub IsChunk : Read → Type 0
IsChunk failed = ⊥
IsChunk (got bytes) = (0 < length bytes) × (length bytes ≤ pipe_buf)

abbrev pub input_bytes : List Read → List ℕ
input_bytes [] = []
input_bytes (failed ∷ input) = input_bytes input
input_bytes (got bytes ∷ input) = bytes ++ input_bytes input

-- The bytes that are read and not yet used, then those still to be read.
abbrev pub buffered : Reader → List ℕ
buffered s = take (s.lb_end - s.lb_cur) (drop s.lb_cur s.lb_buf)

abbrev pub pending : Reader → List ℕ
pending s = buffered s ++ input_bytes s.input

pub record IsReady (s : Reader) : Type 0 where
  pub in_order : s.lb_cur ≤ s.lb_end
  pub inside : s.lb_end ≤ length s.lb_buf
  pub room : pipe_buf ≤ length s.lb_buf
  pub chunks : All IsChunk s.input

pub record Used (num : ℕ) (s : Reader) (out : List ℕ × Reader) : Type 0 where
  pub amount : length out.0 ≡ min num (s.lb_end - s.lb_cur)
  pub kept : out.0 ++ pending out.1 ≡ pending s
  pub seen : out.1.bytes_seen ≡ s.bytes_seen + length out.0
  pub ready : IsReady out.1
  same_input : out.1.input ≡ s.input
  pub left : out.1.lb_end - out.1.lb_cur ≡ s.lb_end - s.lb_cur - length out.0

module _ (num : ℕ) (s : Reader) (h : IsReady s) where
  abbrev tocopy : ℕ
  tocopy = min num (s.lb_end - s.lb_cur)

  copied_rest :
      take tocopy (drop s.lb_cur s.lb_buf)
        ++ take (s.lb_end - (s.lb_cur + tocopy)) (drop (s.lb_cur + tocopy) s.lb_buf)
      ≡ buffered s
  copied_rest =
      let e : s.lb_end - (s.lb_cur + tocopy) ≡ s.lb_end - s.lb_cur - tocopy =
        omega (arith, h.in_order) in
      rw (e, ← drop-drop s.lb_cur tocopy s.lb_buf)
        (take-split tocopy (s.lb_end - s.lb_cur) (drop s.lb_cur s.lb_buf) (omega arith))

  length-copied : length (take tocopy (drop s.lb_cur s.lb_buf)) ≡ tocopy
  length-copied = omega (
    arith,
    length-take tocopy (drop s.lb_cur s.lb_buf),
    length-drop s.lb_cur s.lb_buf,
    h.in_order,
    h.inside,
  )

pub use_existing-Used :
    (num : ℕ) (s : Reader)
    → IsReady s
    → s.bytes_seen + num < 2147483648
    → Used num s (use_existing num s)
unfolding use_existing
use_existing-Used num s h few = elim (Bool-cases (ltb s.lb_cur s.lb_end)) [
  | inl e ↦ rw e (record {
    amount = length-copied num s h;
    kept =
        sym (append_assoc _ _ (input_bytes s.input))
        ∙ ap (λ t. t ++ input_bytes s.input) (copied_rest num s h);
    seen = omega (arith, few, length-copied num s h);
    ready = record {
      in_order = omega (arith, h.in_order);
      inside = h.inside;
      room = h.room;
      chunks = h.chunks;
    };
    same_input = refl;
    left = omega (arith, length-copied num s h);
  })
  | inr e ↦ rw e (record {
    amount = omega (arith, ltb→le s.lb_cur s.lb_end e);
    kept = refl;
    seen = omega arith;
    ready = h;
    same_input = refl;
    left = omega arith;
  })
]
