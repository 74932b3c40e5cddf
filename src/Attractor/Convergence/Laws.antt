-- ===== src/Attractor/Convergence/Laws.antt =====
-- What the trend of a history says of its scores.
use mathlib.Core.Option.{some-injective}
use mathlib.Core.Path.{subst, subst₂}
use octopusgarden.Prelude.{
  ◌-◌, ◌<◌, [], Any, arith, Bool-cases, drop, false, fge, Float, flt, get_elem?, inl, inr, last_or,
  leb, length, List, ltb, Option, refl, some, suc, sym, true, whole, zero, ℕ, ◌↔◌, ◌∙◌, ◌∷◌, ◌≡◌,
  ◌≢◌, ◌≤◌,
}
use octopusgarden.Attractor.Convergence.{
  clamp_limit, classify, classify_window, converged, detect_trend, improving, plateau, regressing,
  score_before, Trend, window_start,
}
-- The history cut to the window, and the score before it.
use octopusgarden.Attractor.Convergence.Window.{
  baseline, classify_window-improving, classify_window-regressing,
}

module _ {R : Type 0} where
  get_elem?-some : (i : ℕ) (xs : List R) → i < length xs → (b : R) × (get_elem? xs i ≡ some b)
  get_elem?-some i [] h = absurd (omega arith)
  get_elem?-some zero (x ∷ xs) h = (x, refl)
  get_elem?-some (suc i) (x ∷ xs) h = get_elem?-some i xs (omega arith)

  first-drop :
      (start : ℕ) (xs : List R) {first : R} {rest : List R}
      → drop start xs ≡ first ∷ rest
      → (start < length xs) × (start ≡ 0 → get_elem? xs (start - 1) ≡ some first)
  first-drop zero [] h = cc
  first-drop zero (x ∷ xs) h = ground arith
  first-drop (suc n) [] h = cc
  first-drop (suc n) (x ∷ xs) h = (ground (arith, first-drop n xs h), λ e. absurd (omega arith))

  drop-cons :
      (n : ℕ) (d : R) (xs : List R)
      → n < length xs
      → (first : R) × (rest : List R) × (drop n xs ≡ first ∷ rest)
        × (last_or d xs ≡ last_or first rest)
  drop-cons n d [] h = absurd (omega arith)
  drop-cons zero d (x ∷ xs) h = (x, xs, refl, refl)
  drop-cons (suc n) d (x ∷ xs) h = drop-cons n x xs (omega arith)

module _ {R : Type 0} ⦃F : Float R⦄ where
  abbrev pub window : List R → ℕ → List R
  window history stall_limit = drop (window_start history (clamp_limit stall_limit)) history

  -- Two scores at least, and the last one below the threshold.
  abbrev pub IsOpen : List R → R → Type 0
  IsOpen history threshold =
      (2 ≤ length history) × (flt (last_or threshold history) threshold ≡ true)

  -- A window is never classified as converged.
  classify-ne-converged :
      (last : R) (scores : List R) (before : Option R) → classify last scores before ≢ converged
  unfolding classify
  classify-ne-converged last [] before h = cc
  classify-ne-converged last (first ∷ rest) before h = ground arith

  -- The trend is `converged` exactly when there are two scores or more and the last one is at or
  -- above the threshold.
  pub converged_iff :
      (history : List R) (threshold : R) (stall_limit : ℕ)
      → (detect_trend history threshold stall_limit ≡ converged)
        ↔ ((2 ≤ length history) × (fge (last_or threshold history) threshold ≡ true))
  unfolding detect_trend
  converged_iff history threshold stall_limit = (
    λ h. elim (Bool-cases (leb (length history) 1)) [
      | inl e ↦ absurd (plateau_converged (rw e at h))
      | inr e ↦ elim (Bool-cases (flt (last_or threshold history) threshold)) [
        | inl low ↦ absurd (classify-ne-converged _ _ _ (rw (e, low) at h))
        | inr high ↦ (ground arith, rw high refl)
      ]
    ],
    λ (two, high). ground arith,
  )
    where
      plateau_converged : plateau ≡ converged → ⊥
      plateau_converged h = cc

  open_trend :
      (history : List R) (threshold : R) (stall_limit : ℕ) {first : R} {rest : List R}
      → IsOpen history threshold
      → window history stall_limit ≡ first ∷ rest
      → detect_trend history threshold stall_limit
        ≡ classify_window
            (last_or threshold history)
            first
            rest
            (score_before history (window_start history (clamp_limit stall_limit)))
  unfolding detect_trend
  open_trend history threshold stall_limit (two, low) w =
      let e : leb (length history) 1 ≡ false = ground arith in rw (e, low, w) refl

  window-cons :
      (history : List R) (threshold : R) (stall_limit : ℕ)
      → 2 ≤ length history
      → (first : R) × (rest : List R) × (window history stall_limit ≡ first ∷ rest)
        × (last_or threshold history ≡ last_or first rest)
  window-cons history threshold stall_limit h = drop-cons _ threshold history (ground arith)

  trend-IsOpen :
      (history : List R) (threshold : R) (stall_limit : ℕ) (t : Trend)
      → detect_trend history threshold stall_limit ≡ t
      → t ≢ plateau
      → t ≢ converged
      → IsOpen history threshold
  unfolding detect_trend
  trend-IsOpen history threshold stall_limit t e h k = elim (Bool-cases (leb (length history) 1)) [
    | inl short ↦ absurd (h (rw short at (sym e)))
    | inr long ↦ elim (Bool-cases (flt (last_or threshold history) threshold)) [
      | inl low ↦ (ground arith, low)
      | inr high ↦ absurd (k (rw (long, high) at (sym e)))
    ]
  ]

  -- The theorems on a window, at a last score and a window that are given by equations.
  regressing-at :
      (last first : R) (rest scores : List R) (before : Option R)
      → last ≡ last_or first rest
      → scores ≡ first ∷ rest
      → (classify_window last first rest before ≡ regressing) ↔ Any (λ s. flt last s ≡ true) scores
  regressing-at last first rest scores before l w =
      subst₂
        (λ y z. (classify_window y first rest before ≡ regressing) ↔ Any (λ s. flt y s ≡ true) z)
        (sym l) (sym w) (classify_window-regressing first rest before)

  improving-at :
      (last first : R) (rest scores : List R) (before : Option R)
      → last ≡ last_or first rest
      → scores ≡ first ∷ rest
      → (classify_window last first rest before ≡ improving) ↔ (
          ¬ Any (λ s. flt last s ≡ true) scores
          × Any (λ s. flt s last ≡ true) scores
          × (flt (baseline first before) last ≡ true))
  improving-at last first rest scores before l w =
      subst₂
        (λ y z. (classify_window y first rest before ≡ improving) ↔ (
          ¬ Any (λ s. flt y s ≡ true) z
          × Any (λ s. flt s y ≡ true) z
          × (flt (baseline first before) y ≡ true)))
        (sym l) (sym w) (classify_window-improving first rest before)

  -- The trend is `regressing` exactly when there are two scores or more, the last one is below the
  -- threshold, and some score of the window is above the last one.
  pub regressing_iff :
      (history : List R) (threshold : R) (stall_limit : ℕ)
      → (detect_trend history threshold stall_limit ≡ regressing) ↔ (
          IsOpen history threshold
          × Any (λ s. flt (last_or threshold history) s ≡ true) (window history stall_limit))
  regressing_iff history threshold stall_limit = (
    λ h.
        let is_open = trend-IsOpen history threshold stall_limit regressing h (λ e. cc) (λ e. cc) in
        let (first, rest, w, l) = window-cons history threshold stall_limit is_open.0 in
        (
          is_open,
          (regressing-at _ first rest _ _ l w).0
              (sym (open_trend history threshold stall_limit is_open w) ∙ h),
        ),
    λ (is_open, peak).
        let (first, rest, w, l) = window-cons history threshold stall_limit is_open.0 in
        open_trend history threshold stall_limit is_open w
        ∙ (regressing-at _ first rest _ _ l w).1 peak,
  )

  baseline-at :
      (history : List R) (stall_limit : ℕ) {first : R} {rest : List R}
      → window history stall_limit ≡ first ∷ rest
      → get_elem? history (window_start history (clamp_limit stall_limit) - 1)
        ≡ some
            (baseline first (score_before history (window_start history (clamp_limit stall_limit))))
  baseline-at history stall_limit {first} w = elim (Bool-cases (ltb 0 start)) [
    | inl early ↦
        let (b, e) =
          get_elem?-some (start - 1) history (omega (arith, (first-drop start history w).0)) in
        rw (early, e) refl
    | inr whole ↦ rw whole ((first-drop start history w).1 (ground arith))
  ]
    where
      start : ℕ
      start = window_start history (clamp_limit stall_limit)

  -- The trend is `improving` exactly when there are two scores or more, the last one is below the
  -- threshold, no score of the window is above the last one, some score of the window is below it,
  -- and so is the baseline: the score just before the window, or the first of the window if the
  -- window is the whole history.
  pub improving_iff :
      (history : List R) (threshold : R) (stall_limit : ℕ)
      → (detect_trend history threshold stall_limit ≡ improving) ↔ (
          IsOpen history threshold
          × ¬ Any (λ s. flt (last_or threshold history) s ≡ true) (window history stall_limit)
          × Any (λ s. flt s (last_or threshold history) ≡ true) (window history stall_limit)
          × ((b : R) × (get_elem? history (window_start history (clamp_limit stall_limit) - 1)
                ≡ some b)
              × (flt b (last_or threshold history) ≡ true)))
  improving_iff history threshold stall_limit = (
    λ h.
        let is_open = trend-IsOpen history threshold stall_limit improving h (λ e. cc) (λ e. cc) in
        let (first, rest, w, l) = window-cons history threshold stall_limit is_open.0 in
        let (low, some_below, b) =
          (improving-at _ first rest _ _ l w).0
            (sym (open_trend history threshold stall_limit is_open w) ∙ h) in
        (is_open, low, some_below, (_, baseline-at history stall_limit w, b)),
    λ (is_open, low, some_below, b).
        let (first, rest, w, l) = window-cons history threshold stall_limit is_open.0 in
        let same = some-injective _ _ (sym b.1 ∙ baseline-at history stall_limit w) in
        open_trend history threshold stall_limit is_open w
        ∙ (improving-at _ first rest _ _ l w).1
            (low, some_below, subst (λ y. flt y (last_or threshold history) ≡ true) same b.2),
  )
