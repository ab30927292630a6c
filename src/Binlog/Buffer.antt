-- ===== src/Binlog/Buffer.antt =====
-- What `SETSTR` and `SETARG` of logd/binlog.c leave in the log buffer.
use borderpatrol.Base.{
  ℕ, zero, suc, ◌+◌, ◌*◌, ◌^◌, ◌≤◌, ◌≡◌, refl, sym, ◌∙◌, ap, List, [], ◌∷◌, ◌++◌, map, append_assoc,
  arith, length, take, drop, store, drop-drop, length-append, length-take, length-drop,
  drop-append_ge,
}
use borderpatrol.Base.Int.{ℤ}
use borderpatrol.Base.Bytes.{to_le}
use borderpatrol.Fmt.Entry.{args_le}
use borderpatrol.Binlog.{set_args, pattern_of}

-- A copy that starts behind the first part leaves it alone.
store-past :
    (P zs ys : List ℕ) (i at : ℕ) → at ≡ length P + i → store at ys (P ++ zs) ≡ P ++ store i ys zs
store-past [] zs ys i at e = let e' : at ≡ i = omega arith in rw e'
store-past (x ∷ P) zs ys i zero e = absurd (omega arith)
store-past (x ∷ P) zs ys i (suc at) e =
    let shift : suc at + length ys ≡ suc (at + length ys) = omega arith in
    ap (λ t. x ∷ t) (rw shift (store-past P zs ys i at (omega arith)))

set_args-past :
    (vals : List ℤ) (P A : List ℕ) (at : ℕ)
    → at ≡ length P
    → set_args at vals (P ++ A)
      ≡ P ++ (args_le (map (pattern_of (2 ^ 32)) vals) ++ drop (4 * length vals) A)
unfolding set_args
set_args-past [] P A at e = refl
set_args-past (v ∷ vals) P A at e =
    let b : List ℕ = to_le 4 (pattern_of (2 ^ 32) v) in
    let e1 : 4 + 4 * length vals ≡ 4 * suc (length vals) = omega arith in
    ap (λ t. set_args (at + 4) vals t)
      (store-past P A b 0 at (omega arith) ∙ sym (append_assoc P b (drop 4 A)))
    ∙ set_args-past vals (P ++ b) (drop 4 A) (at + 4) (omega (arith, length-append P b))
    ∙ append_assoc P b _
    ∙ ap (λ t. P ++ (b ++ (args_le (map (pattern_of (2 ^ 32)) vals) ++ t)))
        (drop-drop 4 (4 * length vals) A ∙ ap (λ k. drop k A) e1)
    ∙ ap (λ t. P ++ t)
        (sym (
          append_assoc b (args_le (map (pattern_of (2 ^ 32)) vals))
            (drop (4 * suc (length vals)) A)))

-- The whole entry: the fixed part `F`, the arguments and the text lie one behind the other from
-- `base` on, and the bytes before and behind them are as they were.
pub written :
    (lb F text : List ℕ) (vals : List ℤ) (base : ℕ)
    → length F ≡ 32
    → base + (32 + (4 * length vals + length text)) ≤ length lb
    → set_args (base + 32) vals (store (base + 32 + length vals * 4) text (store base F lb))
      ≡ take base lb
        ++ (F
            ++ (args_le (map (pattern_of (2 ^ 32)) vals)
                ++ (text ++ drop (base + (32 + (4 * length vals + length text))) lb)))
written lb F text vals base eF fits =
    let P : List ℕ = take base lb ++ F in
    let A : List ℕ = drop (base + length F) lb in
    let n : ℕ = 4 * length vals in
    let lP : length P ≡ base + 32 =
      omega (arith, length-append (take base lb) F, length-take base lb) in
    let lA : n + length text ≤ length A = omega (arith, length-drop (base + length F) lb) in
    let lT : n ≡ length (take n A) = omega (arith, length-take n A) in
    ap (λ t. set_args (base + 32) vals t)
      (ap (λ t. store (base + 32 + length vals * 4) text t) (sym (append_assoc (take base lb) F A))
        ∙ store-past P A text n (base + 32 + length vals * 4) (omega arith))
    ∙ set_args-past vals P (store n text A) (base + 32) (omega arith)
    ∙ ap (λ t. P ++ (args_le (map (pattern_of (2 ^ 32)) vals) ++ t))
        (drop-append_ge n (take n A) (text ++ drop (n + length text) A) (omega arith)
          ∙ ap (λ k. drop k (text ++ drop (n + length text) A)) {y = 0} (omega arith)
          ∙ ap (λ t. text ++ t)
              (drop-drop (base + length F) (n + length text) lb
                ∙ ap (λ k. drop k lb) {x = base + length F + (n + length text)} (omega arith)))
    ∙ append_assoc (take base lb) F _
