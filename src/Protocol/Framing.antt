-- ===== src/Protocol/Framing.antt =====
-- How trace/vfd.c drives a plugin of trace/protocol.c: it offers what it has read, drops what the
-- plugin has used, and offers more when the plugin wants more. The bytes behind those offered are
-- whatever lies in the buffer.
use borderpatrol.Base.{
  ℕ, zero, suc, ◌<◌, ◌≤◌, ◌≡◌, refl, sym, ◌∙◌, ap, subst, min, Option, some, List, [], ◌∷◌, ◌++◌,
  append_assoc, arith, length, take, drop, ◌>>=◌, length-drop,
}
use borderpatrol.Base.Int.{pos_part}
use borderpatrol.Protocol.{Event, Outcome}

-- One call: at most so many bytes are there, and what lies behind them.
pub record Offer : Type 0 where
  pub most : ℕ
  pub behind : List ℕ

-- Calls that are offered all, for a stream of as many bytes.
abbrev pub all_of : ℕ → List Offer
all_of zero = []
all_of (suc k) = record { most = suc k; behind = [] } ∷ all_of k

-- A call that was offered all has used a byte.
shorter :
    (p k : ℕ) (rest : List ℕ)
    → length rest ≤ suc k
    → (min (suc k) (length rest) ≡ length rest → 0 < min (suc k) (length rest) → 0 < p)
    → length (drop p rest) ≤ k
shorter p k [] le on = omega (arith, length-drop {A = ℕ} p [])
shorter p k (x ∷ rest) le on =
    omega (arith, length-drop p (x ∷ rest), on (omega arith) (omega arith))

module _ {S : Type 0} (speak : S → List ℕ → ℕ → Option (Outcome S)) where
  abbrev offered : Offer → List ℕ → ℕ
  offered o rest = min o.most (length rest)

  abbrev call : Offer → S → List ℕ → Option (Outcome S)
  call o st rest = speak st (take (offered o rest) rest ++ o.behind) (offered o rest)

  -- The state, what is left of the stream, and what has been logged, after some calls.
  pub feed : List Offer → S → List ℕ → Option (S × List ℕ × List Event)
  feed [] st rest = some (st, rest, [])
  feed (o ∷ os) st rest = do
    r ← call o st rest
    (st', rest', events) ← feed os r.state (drop (pos_part r.ret) rest)
    some (st', rest', r.events ++ events)

  module _ (At : S → List ℕ → List Event → Type 0) where
    -- What a call may do where the stream is `rest` and `due` is what it has yet to log: it uses no
    -- more than it was offered, logs what comes next, and gets on if it was offered all.
    pub record Took (n : ℕ) (rest : List ℕ) (due : List Event) (r : Outcome S) : Type 0 where
      pub within : pos_part r.ret ≤ n
      pub still_due : List Event
      pub in_order : due ≡ r.events ++ still_due
      pub there : At r.state (drop (pos_part r.ret) rest) still_due
      pub gets_on : n ≡ length rest → 0 < n → 0 < pos_part r.ret

    abbrev pub IsFramer : Type 0
    IsFramer =
        (st : S) (rest : List ℕ) (due : List Event) (n : ℕ) (behind : List ℕ)
        → At st rest due
        → n ≤ length rest
        → (r : Outcome S) × (speak st (take n rest ++ behind) n ≡ some r) × Took n rest due r

    -- Every sequence of calls returns, has logged a first part of what is due, and is still in
    -- order.
    pub feed_in_order :
        IsFramer
        → (os : List Offer) (st : S) (rest : List ℕ) (due : List Event) → At st rest due
        → (st' : S) × (rest' : List ℕ) × (events : List Event) × (still_due : List Event) × (feed os
              st rest
            ≡ some (st', rest', events))
          × (due ≡ events ++ still_due)
          × At st' rest' still_due
    unfolding feed
    feed_in_order fr [] st rest due h = (st, rest, [], due, refl, refl, h)
    feed_in_order fr (o ∷ os) st rest due h =
        let (r, e, t) = fr st rest due (offered o rest) o.behind h (omega arith) in
        let (st', rest', events, still_due, e', d, h') =
          feed_in_order fr os r.state (drop (pos_part r.ret) rest) t.still_due t.there in
        (
          st',
          rest',
          r.events ++ events,
          still_due,
          rw (e, e'),
          t.in_order ∙ ap (λ l. r.events ++ l) d ∙ sym (append_assoc r.events events still_due),
          h',
        )

    -- A call for each byte, each offered all, takes the whole stream.
    pub feed_all :
        IsFramer
        → (k : ℕ) (st : S) (rest : List ℕ) (due : List Event) → At st rest due
        → length rest ≤ k
        → ((st' : S) (due' : List Event) → At st' [] due' → due' ≡ [])
        → (st' : S) × (feed (all_of k) st rest ≡ some (st', [], due)) × At st' [] []
    unfolding feed
    feed_all fr zero st [] due h le fin =
        (st, ap (λ d. some (st, [], d)) (sym (fin st due h)), subst (At st []) (fin st due h) h)
    feed_all fr zero st (x ∷ rest) due h le fin = absurd (omega arith)
    feed_all fr (suc k) st rest due h le fin =
        let o : Offer = record { most = suc k; behind = [] } in
        let (r, e, t) = fr st rest due (offered o rest) [] h (omega arith) in
        let (st', e', h') =
          feed_all fr k r.state (drop (pos_part r.ret) rest) t.still_due t.there
            (shorter (pos_part r.ret) k rest le t.gets_on) fin in
        (st', rw (e, e') (ap (λ d. some (st', [], d)) (sym t.in_order)), h')
