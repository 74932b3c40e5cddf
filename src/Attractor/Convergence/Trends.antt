-- ===== src/Attractor/Convergence/Trends.antt =====
-- When DetectTrend answers what.
use mathlib.Core.Option.{none-ne-some, some-injective}
use mathlib.Core.Path.{subst}
use octopusgarden.Prelude.{
  ◌+◌, ◌-◌, [], Any, arith, drop, fge, Float, flt, get_elem?, inl, inr, last_or, length, List, refl,
  some, suc, sym, true, zero, ℕ, ◌↔◌, ◌∷◌, ◌≡◌, ◌≤◌, ◌⊎◌,
}
use octopusgarden.Attractor.Convergence.{
  clamp_limit, converged, detect_trend, improving, regressing, window_start,
}
use octopusgarden.Attractor.Convergence.Laws.{
  converged_iff, improving_iff, IsOpen, regressing_iff, window,
}

-- How many scores the window has at most: two, or the stall limit if that is more.
abbrev pub IsWidth : (stall_limit width : ℕ) → Type 0
IsWidth stall_limit width =
    ((stall_limit ≤ 2) × (width ≡ 2)) ⊎ ((2 ≤ stall_limit) × (width ≡ stall_limit))

clamp_limit-IsWidth :
    (stall_limit width : ℕ) → IsWidth stall_limit width → clamp_limit stall_limit ≡ width
clamp_limit-IsWidth stall_limit width h = ground (arith, h)

module _ {R : Type 0} ⦃F : Float R⦄ where
  -- One of the last `width` scores: its index is at most `width` from the end.
  pub record IsRecent (history : List R) (width : ℕ) (s : R) : Type 0 where
    pub index : ℕ
    pub is_there : get_elem? history index ≡ some s
    pub is_recent : length history ≤ index + width

  -- What the window is compared with: the score just before it, or the first of all if the window is
  -- the whole history.
  pub record IsBaseline (history : List R) (width : ℕ) (s : R) : Type 0 where
    pub index : ℕ
    pub is_there : get_elem? history index ≡ some s
    pub is_before : (length history ≡ index + 1 + width) ⊎ ((length history ≤ width) × (index ≡ 0))

  Any-drop-recent :
      (P : R → Type 0) (k : ℕ) (xs : List R)
      → Any P (drop k xs)
      → (s : R) × (i : ℕ) × (get_elem? xs i ≡ some s) × (k ≤ i) × P s
  Any-drop-recent P zero [] h = absurd h
  Any-drop-recent P (suc k) [] h = absurd h
  Any-drop-recent P zero (x ∷ xs) (inl h) = (x, 0, refl, omega arith, h)
  Any-drop-recent P zero (x ∷ xs) (inr h) =
      let (s, i, e, le, p) = Any-drop-recent P zero xs h in (s, suc i, e, omega arith, p)
  Any-drop-recent P (suc k) (x ∷ xs) h =
      let (s, i, e, le, p) = Any-drop-recent P k xs h in (s, suc i, e, omega (arith, le), p)

  recent-Any-drop :
      (P : R → Type 0) (k i : ℕ) (xs : List R) (s : R)
      → get_elem? xs i ≡ some s
      → k ≤ i
      → P s
      → Any P (drop k xs)
  recent-Any-drop P k i [] s e le p = absurd (none-ne-some s e)
  recent-Any-drop P zero zero (x ∷ xs) s e le p = inl (subst P (sym (some-injective _ _ e)) p)
  recent-Any-drop P zero (suc i) (x ∷ xs) s e le p =
      inr (recent-Any-drop P zero i xs s e (omega arith) p)
  recent-Any-drop P (suc k) zero (x ∷ xs) s e le p = absurd (omega (arith, le))
  recent-Any-drop P (suc k) (suc i) (x ∷ xs) s e le p =
      recent-Any-drop P k i xs s e (omega (arith, le)) p

  module _ (history : List R) (stall_limit width : ℕ) (h : IsWidth stall_limit width) where
    Any-window :
        (P : R → Type 0)
        → Any P (window history stall_limit) ↔ ((s : R) × IsRecent history width s × P s)
    Any-window P = (
      λ some_one.
          let (s, i, e, le, p) = Any-drop-recent P _ history some_one in
          (
            s,
            record {
              index = i;
              is_there = e;
              is_recent = omega (arith, le, clamp_limit-IsWidth stall_limit width h);
            },
            p,
          ),
      λ (s, r, p).
          recent-Any-drop P _ r.index history s r.is_there
            (omega (arith, r.is_recent, clamp_limit-IsWidth stall_limit width h)) p,
    )

    before_window : ℕ
    before_window = window_start history (clamp_limit stall_limit) - 1

    before_window-IsBaseline :
        (b : R) → get_elem? history before_window ≡ some b → IsBaseline history width b
    unfolding before_window
    before_window-IsBaseline b e = record {
      index = before_window;
      is_there = e;
      is_before = ground (arith, clamp_limit-IsWidth stall_limit width h);
    }

    IsBaseline-before_window :
        (b : R) → IsBaseline history width b → get_elem? history before_window ≡ some b
    unfolding before_window
    IsBaseline-before_window b base =
        let same : before_window ≡ base.index =
          ground (arith, clamp_limit-IsWidth stall_limit width h, base.is_before) in
        subst (λ i. get_elem? history i ≡ some b) (sym same) base.is_there

  -- The trend is `converged` exactly when there are two scores or more and the last one is at or
  -- above the threshold. With two scores or more and the last one below the threshold, it is
  -- `regressing` exactly when one of the last `width` scores is above the last one, and `improving`
  -- exactly when none of them is, one of them is below it, and so is the baseline: the score just
  -- before these, or the first score of all if there are no more than `width`. The width is 2, or
  -- the stall limit if that is more.
  pub detect_trend_iff :
      (history : List R) (threshold : R) (stall_limit width : ℕ)
      → IsWidth stall_limit width
      → ((detect_trend history threshold stall_limit ≡ converged)
          ↔ ((2 ≤ length history) × (fge (last_or threshold history) threshold ≡ true)))
        × ((detect_trend history threshold stall_limit ≡ regressing) ↔ (
            IsOpen history threshold
            × ((s : R) × IsRecent history width s × (flt (last_or threshold history) s ≡ true))))
        × ((detect_trend history threshold stall_limit ≡ improving) ↔ (
            IsOpen history threshold
            × ¬ ((s : R) × IsRecent history width s × (flt (last_or threshold history) s ≡ true))
            × ((s : R) × IsRecent history width s × (flt s (last_or threshold history) ≡ true))
            × ((b : R) × IsBaseline history width b × (flt b (last_or threshold history) ≡ true))))
  unfolding before_window
  detect_trend_iff history threshold stall_limit width h =
      let above =
        Any-window history stall_limit width h
          (λ (s : R). flt (last_or threshold history) s ≡ true) in
      let below =
        Any-window history stall_limit width h
          (λ (s : R). flt s (last_or threshold history) ≡ true) in
      let regresses = regressing_iff history threshold stall_limit in
      let improves = improving_iff history threshold stall_limit in
      (
        converged_iff history threshold stall_limit,
        (
          λ e. let (is_open, peak) = regresses.0 e in (is_open, above.0 peak),
          λ (is_open, peak). regresses.1 (is_open, above.1 peak),
        ),
        (
          λ e.
              let (is_open, no_peak, low, (b, there, rises)) = improves.0 e in
              (
                is_open,
                λ k. no_peak (above.1 k),
                below.0 low,
                (b, before_window-IsBaseline history stall_limit width h b there, rises),
              ),
          λ (is_open, no_peak, low, (b, base, rises)). improves.1 (
            is_open,
            λ k. no_peak (above.0 k),
            below.1 low,
            (b, IsBaseline-before_window history stall_limit width h b base, rises),
          ),
        ),
      )
