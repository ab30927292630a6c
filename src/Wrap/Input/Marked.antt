-- ===== src/Wrap/Input/Marked.antt =====
-- What `buf_ret` of trace/vfd.c tells the cache of `select`.
use borderpatrol.Base.{
  ℕ, ◌%◌, zero, suc, ◌≡◌, refl, inl, inr, Bool, true, false, Option, none, some, List, [], ◌∷◌, ltb,
  ◌==◌, if◌then◌else◌, ◌>>=◌, length, Bool-cases, ◌&&◌, not,
}
use borderpatrol.Base.Int.{ℤ, pos, negsuc}
use borderpatrol.Reader.{Read}
use borderpatrol.Protocol.{Outcome}
use borderpatrol.Protocol.Dispatch.{Dispatcher, Data}
use borderpatrol.Vfd.{
  vbufsize, Vfd, Fd, buf_ret, hand_out, present_pp, after_read, read_more, shown_more, read_by,
  virtual_read,
}

-- The descriptor is marked exactly if not all has been returned.
abbrev pub IsMarked : Fd → Type 0
IsMarked g = g.readable ≡ (if g.vfd.rlastlen == g.vfd.rbuflen then false else true)

abbrev BufMarked : Option (List ℕ × Fd) → Type 0
BufMarked none = Unit
BufMarked (some (bytes, g)) = IsMarked g

-- So it is behind every call that returns bytes.
abbrev pub MarkedIf : Option (ℤ × List ℕ × Fd) → Type 0
MarkedIf none = Unit
MarkedIf (some (negsuc n, bytes, g)) = Unit
MarkedIf (some (pos zero, bytes, g)) = Unit
MarkedIf (some (pos (suc n), bytes, g)) = IsMarked g

buf_ret-BufMarked : (f : Fd) (len : ℕ) → BufMarked (buf_ret f len)
unfolding buf_ret
buf_ret-BufMarked f len = go f.vfd.tosend refl
  where
    go : (z : ℤ) → f.vfd.tosend ≡ z → BufMarked (buf_ret f len)
    go (negsuc n) e = rw e tt
    go (pos n) e = elim (Bool-cases (n == 0)) [
      | inl z ↦ rw (e, z) tt
      | inr nz ↦
          elim (Bool-cases (ltb f.vfd.rlastlen vbufsize && ltb (len % 4294967296) 2147483648)) [
            | inl y ↦ rw (e, nz, y) refl
            | inr y ↦ rw (e, nz, y) tt
          ]
    ]

hand_out-MarkedIf : (f : Fd) (len : ℕ) → MarkedIf (hand_out f len)
unfolding hand_out
hand_out-MarkedIf f len = go (buf_ret f len) (buf_ret-BufMarked f len)
  where
    go :
        (o : Option (List ℕ × Fd))
        → BufMarked o
        → MarkedIf (o >>= λ t. some (pos (length t.0), t.0, t.1))
    go none h = tt
    go (some ([], g)) h = tt
    go (some (b ∷ bytes, g)) h = h

module _ (pp_read : Dispatcher → Data → ℤ → List ℕ → ℕ → Option (Outcome Data)) (s : ℤ) where
  after_read-MarkedIf :
      (f : Fd) (v : Vfd) (len : ℕ) (t : ℤ × List ℕ × List Read)
      → MarkedIf (after_read pp_read s f v len t)
  unfolding after_read
  after_read-MarkedIf f v len (negsuc n, bytes, input) = tt
  after_read-MarkedIf f v len (pos zero, bytes, input) = tt
  after_read-MarkedIf f v len (pos (suc n), bytes, input) = go (present_pp pp_read s _)
    where
      go : (o : Option Fd) → MarkedIf (o >>= λ g. hand_out g len)
      go none = tt
      go (some g) = hand_out-MarkedIf g len

  read_more-MarkedIf : (f : Fd) (len : ℕ) → MarkedIf (read_more pp_read s f len)
  unfolding read_more
  read_more-MarkedIf f len = after_read-MarkedIf f _ len _

  shown_more-MarkedIf : (f : Fd) (len : ℕ) → MarkedIf (shown_more pp_read s f len)
  unfolding shown_more
  shown_more-MarkedIf f len =
      elim f.vfd.tosend
        as (λ z. MarkedIf (elim z [
          | pos zero ↦ read_more pp_read s f len
          | pos (suc n) ↦ hand_out f len
          | negsuc n ↦ hand_out f len
        ])) [
          | pos zero ↦ read_more-MarkedIf f len
          | pos (suc n) ↦ hand_out-MarkedIf f len
          | negsuc n ↦ hand_out-MarkedIf f len
        ]

  read_by-MarkedIf : (z : ℤ) (f : Fd) (len : ℕ) → MarkedIf (read_by pp_read z s f len)
  unfolding read_by
  read_by-MarkedIf (negsuc n) f len = hand_out-MarkedIf f len
  read_by-MarkedIf (pos (suc n)) f len = hand_out-MarkedIf f len
  read_by-MarkedIf (pos zero) f len = go (ltb f.vfd.rbufofs f.vfd.rbuflen && not f.vfd.ppwantmore)
    where
      shown : (o : Option Fd) → MarkedIf (o >>= λ g. shown_more pp_read s g len)
      shown none = tt
      shown (some g) = shown_more-MarkedIf g len

      go :
          (b : Bool)
          → MarkedIf (
              if b
              then (present_pp pp_read s f >>= λ g. shown_more pp_read s g len)
              else read_more pp_read s f len)
      go true = shown (present_pp pp_read s f)
      go false = read_more-MarkedIf f len

  pub virtual_read-MarkedIf : (f : Fd) (len : ℕ) → MarkedIf (virtual_read pp_read s f len)
  unfolding virtual_read
  virtual_read-MarkedIf f len = read_by-MarkedIf f.vfd.tosend f len
