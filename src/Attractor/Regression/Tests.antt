-- ===== src/Attractor/Regression/Tests.antt =====
-- Regressions between two small sets of scores.
use octopusgarden.Prelude.{
  [], Any, before_sub, codes, cut_last, cut_prefix, Dict, In, lookup, refl, some, trim_space, whole,
  ℕ, ◌↔◌, ◌∷◌, ◌≡◌,
}
use octopusgarden.Attractor.Regression.{detect_regressions, parse_scenario_line, Regression}
use octopusgarden.Attractor.Regression.Found.{detect_regressions_iff, IsDrop, IsOrdered}

abbrev before : Dict ℕ
before = (codes "login", 100) ∷ (codes "list", 96) ∷ (codes "old", 20) ∷ []

abbrev after : Dict ℕ
after = (codes "login", 40) ∷ (codes "list", 95) ∷ (codes "old", 10) ∷ []

line_parses :
    parse_scenario_line {R = ℕ} ⦃F = whole⦄ (codes "✗ login (40/100): broken")
    ≡ some (codes "login", 40)
unfolding parse_scenario_line cut_prefix cut_last before_sub trim_space
line_parses = refl

login_regresses :
    detect_regressions before 1 after 2 95
    ≡ (record {
      scenario_id = codes "login";
      prev_score = 100;
      curr_score = 40;
      prev_iteration = 1;
      curr_iteration = 2;
    })
      ∷ []
unfolding detect_regressions lookup
login_regresses = refl

detect_regressions_iff_example :
    IsOrdered (detect_regressions before 1 after 2 95)
    × ((r : Regression ℕ)
        → In r (detect_regressions before 1 after 2 95) ↔ Any (IsDrop before 1 2 95 r) after)
detect_regressions_iff_example = detect_regressions_iff before 1 2 95 after
