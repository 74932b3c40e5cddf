-- ===== src/Attractor/Convergence/Tests.antt =====
-- The trend of short histories of whole scores.
use octopusgarden.Prelude.{
  [], arith, fge, flt, inr, last_or, length, List, refl, true, whole, ℕ, ◌↔◌, ◌∷◌, ◌≡◌, ◌≤◌,
}
use octopusgarden.Attractor.Convergence.{
  all_equal, classify_window, converged, detect_trend, improving, max_in, regressing,
}
use octopusgarden.Attractor.Convergence.Laws.{IsOpen}
use octopusgarden.Attractor.Convergence.Trends.{detect_trend_iff, IsBaseline, IsRecent}

abbrev climbing : List ℕ
climbing = 50 ∷ 60 ∷ 70 ∷ 80 ∷ []

climbing_improves : detect_trend ⦃F = whole⦄ climbing 95 3 ≡ improving
unfolding detect_trend classify_window max_in all_equal
climbing_improves = refl

detect_trend_iff_example :
    ((detect_trend climbing 95 3 ≡ converged)
      ↔ ((2 ≤ length climbing) × (fge (last_or 95 climbing) 95 ≡ true)))
    × ((detect_trend climbing 95 3 ≡ regressing) ↔ (
        IsOpen climbing 95
        × ((s : ℕ) × IsRecent climbing 3 s × (flt (last_or 95 climbing) s ≡ true))))
    × ((detect_trend climbing 95 3 ≡ improving) ↔ (
        IsOpen climbing 95
        × ¬ ((s : ℕ) × IsRecent climbing 3 s × (flt (last_or 95 climbing) s ≡ true))
        × ((s : ℕ) × IsRecent climbing 3 s × (flt s (last_or 95 climbing) ≡ true))
        × ((b : ℕ) × IsBaseline climbing 3 b × (flt b (last_or 95 climbing) ≡ true))))
detect_trend_iff_example = detect_trend_iff climbing 95 3 3 (inr (omega arith, refl))
