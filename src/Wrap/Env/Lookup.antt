-- ===== src/Wrap/Env/Lookup.antt =====
-- What a lookup finds behind a change of the environment.
use borderpatrol.Base.{
  ℕ, true, false, none, some, List, [], ◌∷◌, ◌++◌, ◌==◌, ◌≡◌, refl, sym, ◌∙◌, inl, inr, arith,
  Bool-cases, ==_refl, ==_iff, length, drop-append,
}
use borderpatrol.Base.Text.{starts}
use borderpatrol.Wrap.Env.{Env, var, entry, value_in, real_getenv, setenv, real_unsetenv}

differ : true ≡ false → ⊥
differ h = ground arith

starts-append : (a s : List ℕ) → starts a (a ++ s) ≡ true
starts-append [] s = refl
starts-append (x ∷ a) s = rw (==_refl x) (starts-append a s)

starts_of : (x y : ℕ) (a s : List ℕ) → starts (x ∷ a) (y ∷ s) ≡ true → (x ≡ y) × (starts a s ≡ true)
starts_of x y a s h = elim (Bool-cases (x == y)) [
  | inl e ↦ ((==_iff x y).0 e, sym (rw e) ∙ h)
  | inr e ↦ let no : starts (x ∷ a) (y ∷ s) ≡ false = rw e in absurd (differ (sym h ∙ no))
]

starts_same : (x y : ℕ) (a s : List ℕ) → x ≡ y → starts (x ∷ a) (y ∷ s) ≡ starts a s
starts_same x y a s e = rw ((==_iff x y).1 e)

-- Two patterns of which none begins with the other one do not both begin a string.
clash :
    (a b s : List ℕ)
    → starts a b ≡ false
    → starts b a ≡ false
    → starts a s ≡ true
    → starts b s ≡ false
clash [] b s h k e = absurd (differ h)
clash (x ∷ a) [] s h k e = absurd (differ k)
clash (x ∷ a) (y ∷ b) [] h k e = refl
clash (x ∷ a) (y ∷ b) (z ∷ s) h k e = elim (Bool-cases (y == z)) [
  | inr far ↦ rw far
  | inl near ↦
      let xz : x ≡ z = (starts_of x z a s e).0 in
      let yz : y ≡ z = (==_iff y z).0 near in
      let xy : x ≡ y = xz ∙ sym yz in
      starts_same y z b s yz
      ∙ clash a b s (sym (starts_same x y a b xy) ∙ h) (sym (starts_same y x b a (sym xy)) ∙ k)
          (starts_of x z a s e).1
]

-- Two names that stay different whatever follows them.
abbrev pub Apart : List ℕ → List ℕ → Type 0
Apart m n = (starts (var m) (var n) ≡ false) × (starts (var n) (var m) ≡ false)

pub value_in_same : (n v : List ℕ) → value_in n (entry n v) ≡ some v
unfolding value_in
value_in_same n v = rw (starts-append (var n) v, drop-append (var n) v (length (var n)) refl)

-- A string that sets one variable sets no other one.
misses : (m n e : List ℕ) → Apart m n → starts (var m) e ≡ true → value_in n e ≡ none
unfolding value_in
misses m n e apart h = rw (clash (var m) (var n) e apart.0 apart.1 h)

pub value_in_other : (m n v : List ℕ) → Apart m n → value_in n (entry m v) ≡ none
value_in_other m n v apart = misses m n (entry m v) apart (starts-append (var m) v)

getenv-hit : (n e v : List ℕ) (env : Env) → value_in n e ≡ some v → real_getenv n (e ∷ env) ≡ some v
unfolding real_getenv
getenv-hit n e v env h = rw (h, real_getenv)

getenv-miss :
    (n e : List ℕ) (env : Env) → value_in n e ≡ none → real_getenv n (e ∷ env) ≡ real_getenv n env
unfolding real_getenv
getenv-miss n e env h = rw (h, real_getenv)

same_head :
    (n e : List ℕ) (env env1 : Env)
    → real_getenv n env ≡ real_getenv n env1
    → real_getenv n (e ∷ env) ≡ real_getenv n (e ∷ env1)
unfolding real_getenv
same_head n e env env1 h = rw (h, real_getenv)

unset_in : (n e : List ℕ) → starts (var n) e ≡ false → value_in n e ≡ none
unfolding value_in
unset_in n e h = rw h

pub getenv-head : (n v : List ℕ) (env : Env) → real_getenv n (entry n v ∷ env) ≡ some v
getenv-head n v env = getenv-hit n (entry n v) v env (value_in_same n v)

pub getenv-skip :
    (m n v : List ℕ) (env : Env) → Apart m n → real_getenv n (entry m v ∷ env) ≡ real_getenv n env
getenv-skip m n v env apart = getenv-miss n (entry m v) env (value_in_other m n v apart)

pub getenv-setenv : (n v : List ℕ) (env : Env) → real_getenv n (setenv n v env) ≡ some v
unfolding setenv
getenv-setenv n v [] = getenv-head n v []
getenv-setenv n v (e ∷ env) = elim (Bool-cases (starts (var n) e)) [
  | inl h ↦ rw h (getenv-head n v env)
  | inr h ↦ rw h (getenv-miss n e (setenv n v env) (unset_in n e h) ∙ getenv-setenv n v env)
]

pub getenv-setenv_other :
    (m n v : List ℕ) (env : Env) → Apart m n → real_getenv n (setenv m v env) ≡ real_getenv n env
unfolding setenv
getenv-setenv_other m n v [] apart = getenv-skip m n v [] apart
getenv-setenv_other m n v (e ∷ env) apart = elim (Bool-cases (starts (var m) e)) [
  | inl h ↦ rw h (getenv-skip m n v env apart ∙ sym (getenv-miss n e env (misses m n e apart h)))
  | inr h ↦ rw h (same_head n e _ env (getenv-setenv_other m n v env apart))
]

pub getenv-unsetenv : (n : List ℕ) (env : Env) → real_getenv n (real_unsetenv n env) ≡ none
unfolding real_unsetenv real_getenv
getenv-unsetenv n [] = refl
getenv-unsetenv n (e ∷ env) = elim (Bool-cases (starts (var n) e)) [
  | inl h ↦ rw h (getenv-unsetenv n env)
  | inr h ↦ rw h (getenv-miss n e (real_unsetenv n env) (unset_in n e h) ∙ getenv-unsetenv n env)
]

pub getenv-unsetenv_other :
    (m n : List ℕ) (env : Env) → Apart m n → real_getenv n (real_unsetenv m env) ≡ real_getenv n env
unfolding real_unsetenv
getenv-unsetenv_other m n [] apart = refl
getenv-unsetenv_other m n (e ∷ env) apart = elim (Bool-cases (starts (var m) e)) [
  | inl h ↦
      rw h (getenv-unsetenv_other m n env apart ∙ sym (getenv-miss n e env (misses m n e apart h)))
  | inr h ↦ rw h (same_head n e _ env (getenv-unsetenv_other m n env apart))
]
