-- ===== src/Wrap/Select/First.antt =====
-- The loops of `speak_select` of trace/vfd.c that look for a descriptor.
use borderpatrol.Base.{
  ℕ, zero, suc, ◌+◌, ◌<◌, ◌≤◌, ◌≡◌, refl, sym, ◌∙◌, ap, inl, inr, ◌⊎◌, Option, none, some, arith,
  Option-cases,
}
use borderpatrol.Wrap.Select.{Rwe, first}

le_cases : (a b : ℕ) → a ≤ b → (a ≡ b) ⊎ (suc a ≤ b)
le_cases a b h = ground (arith, h)

-- The least descriptor from `i` on, below `i + rounds`, at which `f` has a value.
pub record IsFirst (i rounds : ℕ) (f : ℕ → Option Rwe) (fd : ℕ) (rwe : Rwe) : Type 0 where
  pub from : i ≤ fd
  pub below : fd < i + rounds
  pub here : f fd ≡ some rwe
  pub least : (j : ℕ) → i ≤ j → j < fd → f j ≡ none

pub first-IsFirst :
    (rounds i : ℕ) (f : ℕ → Option Rwe) (fd : ℕ) (rwe : Rwe)
    → IsFirst i rounds f fd rwe
    → first rounds i f ≡ some (fd, rwe)
unfolding first
first-IsFirst zero i f fd rwe h = absurd (omega (arith, h.from, h.below))
first-IsFirst (suc rounds) i f fd rwe h = elim (le_cases i fd h.from) [
  | inl e ↦ rw (ap f e ∙ h.here, first) (ap (λ j. some (j, rwe)) e)
  | inr lt ↦
      rw (h.least i (omega arith) lt, first)
        (first-IsFirst rounds (suc i) f fd rwe (record {
          from = lt;
          below = omega (arith, h.below);
          here = h.here;
          least = λ j ge lt'. h.least j (omega (arith, ge)) lt';
        }))
]

pub first-none :
    (rounds i : ℕ) (f : ℕ → Option Rwe)
    → ((j : ℕ) → i ≤ j → j < i + rounds → f j ≡ none)
    → first rounds i f ≡ none
unfolding first
first-none zero i f h = refl
first-none (suc rounds) i f h =
    rw (h i (omega arith) (omega arith), first)
      (first-none rounds (suc i) f (λ j ge lt. h j (omega (arith, ge)) (omega (arith, lt))))

-- One of the two.
pub first-cases :
    (rounds i : ℕ) (f : ℕ → Option Rwe)
    → ((fd : ℕ) × (rwe : Rwe) × (first rounds i f ≡ some (fd, rwe)) × IsFirst i rounds f fd rwe)
      ⊎ ((first rounds i f ≡ none) × ((j : ℕ) → i ≤ j → j < i + rounds → f j ≡ none))
unfolding first
first-cases zero i f = inr (refl, λ j ge lt. absurd (omega (arith, ge, lt)))
first-cases (suc rounds) i f = elim (Option-cases (f i)) [
  | inr (rwe, e) ↦ inl (
    i,
    rwe,
    rw (e, first),
    record {
      from = omega arith;
      below = omega arith;
      here = e;
      least = λ j ge lt. absurd (omega (arith, ge, lt));
    },
  )
  | inl e ↦ elim (first-cases rounds (suc i) f) [
    | inl (fd, rwe, found, h) ↦ inl (
      fd,
      rwe,
      rw (e, first) found,
      record {
        from = omega (arith, h.from);
        below = omega (arith, h.below);
        here = h.here;
        least = λ j ge lt. elim (le_cases i j ge) [
          | inl same ↦ ap f (sym same) ∙ e
          | inr more ↦ h.least j more lt
        ];
      },
    )
    | inr (none_found, h) ↦ inr (
      rw (e, first) none_found,
      λ j ge lt. elim (le_cases i j ge) [
        | inl same ↦ ap f (sym same) ∙ e
        | inr more ↦ h j more (omega (arith, lt))
      ],
    )
  ]
]
