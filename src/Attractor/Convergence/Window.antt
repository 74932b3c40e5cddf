-- ===== src/Attractor/Convergence/Window.antt =====
-- The comparisons that the classification of a window makes, in terms of all of its scores.
use mathlib.Core.Bool.{true≢false}
use octopusgarden.Prelude.{
  [], Any, arith, Bool-cases, false, feq, Float, flt, if◌then◌else◌, inl, inr, last_or, List, none,
  Option, refl, some, sym, true, ◌↔◌, ◌∙◌, ◌∷◌, ◌≡◌, ◌⊎◌,
}
use octopusgarden.Attractor.Convergence.{all_equal, classify_window, improving, max_in, regressing}

module _ {R : Type 0} ⦃F : Float R⦄ where
  pub flt-max_in :
      (x m : R) (scores : List R)
      → flt x (max_in m scores) ≡ true
      → (flt x m ≡ true) ⊎ Any (λ s. flt x s ≡ true) scores
  unfolding max_in
  flt-max_in x m [] h = inl h
  flt-max_in x m (s ∷ scores) h = elim (Bool-cases (flt m s)) [
    | inl e ↦ elim (flt-max_in x s scores (rw e at h)) [ inl a ↦ inr (inl a) | inr b ↦ inr (inr b) ]
    | inr e ↦ elim (flt-max_in x m scores (rw e at h)) [ inl a ↦ inl a | inr b ↦ inr (inr b) ]
  ]

  max_in-first : (x m : R) (scores : List R) → flt x m ≡ true → flt x (max_in m scores) ≡ true
  unfolding max_in
  max_in-first x m [] h = h
  max_in-first x m (s ∷ scores) h = elim (Bool-cases (flt m s)) [
    | inl e ↦ rw e (max_in-first x s scores (F.lt_trans x m s h e))
    | inr e ↦ rw e (max_in-first x m scores h)
  ]

  max_in-Any :
      (x m : R) (scores : List R)
      → Any (λ s. flt x s ≡ true) scores
      → flt x (max_in m scores) ≡ true
  unfolding max_in
  max_in-Any x m [] h = absurd h
  max_in-Any x m (s ∷ scores) (inl h) = elim (Bool-cases (flt m s)) [
    | inl e ↦ rw e (max_in-first x s scores h)
    | inr e ↦ rw e (max_in-first x m scores (ground (arith, F.lt_cotrans x m s)))
  ]
  max_in-Any x m (s ∷ scores) (inr h) = max_in-Any x (if flt m s then s else m) scores h

  all_equal-flt :
      (x first : R) (rest : List R)
      → all_equal first rest ≡ true
      → Any (λ s. flt x s ≡ true) rest
      → flt x first ≡ true
  unfolding all_equal
  all_equal-flt x first [] e h = absurd h
  all_equal-flt x first (s ∷ rest) e (inl h) = ground (arith, F.lt_cotrans x first s)
  all_equal-flt x first (s ∷ rest) e (inr h) = all_equal-flt x first rest (ground arith) h

  -- The last score of the window is not above or below the first if the rest is equal to it.
  feq-last :
      (first s : R) (rest : List R)
      → feq s first ≡ true
      → all_equal first rest ≡ true
      → feq (last_or s rest) first ≡ true
  unfolding all_equal
  feq-last first s [] h e = h
  feq-last first s (t ∷ rest) h e = feq-last first t rest (ground arith) (ground arith)

  all_equal-last :
      (first : R) (rest : List R)
      → all_equal first rest ≡ true
      → (flt (last_or first rest) first ≡ false) × (flt first (last_or first rest) ≡ false)
  all_equal-last first rest e =
      ground (arith, feq-last first first rest (ground (arith, F.lt_irrefl first)) e)

  -- Some score of the window is above the last one.
  abbrev pub HasPeak : R → R → List R → Type 0
  HasPeak last first rest = Any (λ s. flt last s ≡ true) (first ∷ rest)

  peak-max_in :
      (last first : R) (rest : List R)
      → HasPeak last first rest
      → flt last (max_in first rest) ≡ true
  peak-max_in last first rest (inl h) = max_in-first last first rest h
  peak-max_in last first rest (inr h) = max_in-Any last first rest h

  peak-not_all_equal :
      (first : R) (rest : List R)
      → HasPeak (last_or first rest) first rest
      → all_equal first rest ≡ false
  peak-not_all_equal first rest h = elim (Bool-cases (all_equal first rest)) [
    | inr e ↦ e
    | inl e ↦ absurd (true≢false (sym (below h e) ∙ (all_equal-last first rest e).0))
  ]
    where
      below :
          HasPeak (last_or first rest) first rest
          → all_equal first rest ≡ true
          → flt (last_or first rest) first ≡ true
      below (inl k) e = k
      below (inr k) e = all_equal-flt _ first rest e k

  pub classify_window-regressing :
      (first : R) (rest : List R) (before : Option R)
      → (classify_window (last_or first rest) first rest before ≡ regressing)
        ↔ HasPeak (last_or first rest) first rest
  unfolding classify_window
  classify_window-regressing first rest before = (
    λ h. flt-max_in _ first rest (ground arith),
    λ h. rw (peak-not_all_equal first rest h, peak-max_in _ first rest h) refl,
  )

  -- The score against which an improvement is measured.
  abbrev pub baseline : R → Option R → R
  baseline first before = elim before [ none ↦ first | some b ↦ b ]

  low-rest :
      (last first : R) (rest : List R)
      → flt first last ≡ false
      → flt last first ≡ false
      → ¬ Any (λ s. flt last s ≡ true) rest
      → all_equal first rest ≡ false
      → Any (λ s. flt s last ≡ true) rest
  unfolding all_equal
  low-rest last first [] f g h e = cc
  low-rest last first (s ∷ rest) f g h e = elim (Bool-cases (feq s first)) [
    | inl same ↦ inr (low-rest last first rest f g (λ k. h (inr k)) (rw same at e))
    | inr other ↦ elim (Bool-cases (flt last s)) [
      | inl up ↦ absurd (h (inl up))
      | inr down ↦ inl (ground (arith, F.lt_cotrans s last first, F.lt_cotrans first last s))
    ]
  ]

  all_equal-below :
      (x first : R) (rest : List R)
      → all_equal first rest ≡ true
      → Any (λ s. flt s x ≡ true) (first ∷ rest)
      → flt first x ≡ true
  unfolding all_equal
  all_equal-below x first rest e (inl h) = h
  all_equal-below x first [] e (inr h) = absurd h
  all_equal-below x first (s ∷ rest) e (inr (inl h)) = ground (arith, F.lt_cotrans s first x)
  all_equal-below x first (s ∷ rest) e (inr (inr h)) =
      all_equal-below x first rest (ground arith) (inr h)

  low-not_all_equal :
      (first : R) (rest : List R)
      → ¬ HasPeak (last_or first rest) first rest
      → (all_equal first rest ≡ false) ↔ Any (λ s. flt s (last_or first rest) ≡ true) (first ∷ rest)
  low-not_all_equal first rest h = (some_below, not_equal)
    where
      last : R
      last = last_or first rest

      some_below :
          all_equal first rest ≡ false → Any (λ s. flt s (last_or first rest) ≡ true) (first ∷ rest)
      some_below e = elim (Bool-cases (flt first last)) [
        | inl up ↦ inl up
        | inr level ↦ elim (Bool-cases (flt last first)) [
          | inl down ↦ absurd (h (inl down))
          | inr flat ↦ inr (low-rest last first rest level flat (λ k. h (inr k)) e)
        ]
      ]

      not_equal :
          Any (λ s. flt s (last_or first rest) ≡ true) (first ∷ rest) → all_equal first rest ≡ false
      not_equal k = elim (Bool-cases (all_equal first rest)) [
        | inr e ↦ e
        | inl e ↦ absurd (
            true≢false
              (sym (all_equal-below last first rest e k) ∙ (all_equal-last first rest e).1))
      ]

  pub classify_window-improving :
      (first : R) (rest : List R) (before : Option R)
      → (classify_window (last_or first rest) first rest before ≡ improving) ↔ (
          ¬ HasPeak (last_or first rest) first rest
          × Any (λ s. flt s (last_or first rest) ≡ true) (first ∷ rest)
          × (flt (baseline first before) (last_or first rest) ≡ true))
  unfolding classify_window
  classify_window-improving first rest before = (forth, back)
    where
      last : R
      last = last_or first rest

      no_peak : flt last (max_in first rest) ≡ false → ¬ HasPeak last first rest
      no_peak m h = true≢false (sym (peak-max_in last first rest h) ∙ m)

      forth :
          classify_window last first rest before ≡ improving
          → ¬ HasPeak last first rest
            × Any (λ s. flt s last ≡ true) (first ∷ rest)
            × (flt (baseline first before) last ≡ true)
      forth h =
          let m : flt last (max_in first rest) ≡ false = ground arith in
          (no_peak m, (low-not_all_equal first rest (no_peak m)).0 (ground arith), ground arith)

      back :
          ¬ HasPeak last first rest
            × Any (λ s. flt s last ≡ true) (first ∷ rest)
            × (flt (baseline first before) last ≡ true)
          → classify_window last first rest before ≡ improving
      back (h, k, b) =
          let e : all_equal first rest ≡ false = (low-not_all_equal first rest h).1 k in
          elim (Bool-cases (flt last (max_in first rest))) [
            | inl m ↦ absurd (h (flt-max_in last first rest m))
            | inr m ↦ rw (e, m, b) refl
          ]
