-- ===== src/Attractor/Convergence.antt =====
-- internal/attractor/convergence.go: the classification of a score history. The counts that Go
-- keeps as `int` are natural numbers; a negative stall limit acts as 0 does.
mod Window
pub mod Laws
pub mod Trends
mod Tests
use octopusgarden.Prelude.{
  ◌-◌, [], all, Bool, drop, feq, fge, Float, flt, get_elem?, if◌then◌else◌, last_or, leb, length,
  List, ltb, none, Option, some, ℕ, ◌∷◌,
}

pub data Trend : Type 0 where
  improving plateau regressing converged : Trend

-- The last `stall_limit` scores, or all if there are fewer.
abbrev pub window_start : {R : Type 0} → List R → ℕ → ℕ
window_start history limit = length history - limit

abbrev pub clamp_limit : ℕ → ℕ
clamp_limit stall_limit = if ltb stall_limit 2 then 2 else stall_limit

module _ {R : Type 0} ⦃F : Float R⦄ where
  -- The loop for the largest score of the window.
  unfoldable pub max_in : R → List R → R
  max_in m [] = m
  max_in m (s ∷ window) = max_in (if flt m s then s else m) window

  unfoldable pub all_equal : R → List R → Bool
  all_equal first rest = all (λ s. feq s first) rest

  -- The tests after the one for the threshold. The window is `first ∷ rest`, and `before` is the
  -- score just before it, if there is one.
  unfoldable pub classify_window : R → R → List R → Option R → Trend
  unfolding max_in all_equal
  classify_window last first rest before =
      if all_equal first rest
      then plateau
      else if flt last (max_in first rest)
      then regressing
      else if flt (elim before [ none ↦ first | some b ↦ b ]) last
      then improving
      else plateau

  abbrev pub score_before : List R → ℕ → Option R
  score_before history start = if ltb 0 start then get_elem? history (start - 1) else none

  -- The window is not empty, since the history has two scores and the limit is positive.
  pub classify : R → List R → Option R → Trend
  unfolding classify_window
  classify last [] before = plateau
  classify last (first ∷ rest) before = classify_window last first rest before

  unfoldable pub detect_trend : List R → R → ℕ → Trend
  unfolding classify
  detect_trend history threshold stall_limit =
      if leb (length history) 1
      then plateau
      else if fge (last_or threshold history) threshold
      then converged
      else let start = window_start history (clamp_limit stall_limit) in
        classify (last_or threshold history) (drop start history) (score_before history start)
