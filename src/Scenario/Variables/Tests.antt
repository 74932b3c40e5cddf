-- ===== src/Scenario/Variables/Tests.antt =====
-- The captures of a small step.
use octopusgarden.Prelude.{
  [], codes, Dict, lookup, none, refl, replace_all, replace_from, some, Text, ◌∷◌, ◌≡◌,
}
use octopusgarden.Scenario.Variables.{apply_captures, resolve_capture, resolved, substitute_vars}
use octopusgarden.Scenario.Variables.Laws.{apply_captures-last}
use octopusgarden.Scenario.Runner.Samples.{greeting, hello, whole_body}

abbrev old_vars : Dict Text
old_vars = (codes "id", codes "7") ∷ []

-- The value of a variable that is substituted may hold another placeholder, so that the order in
-- which the variables come matters.
in_order :
    substitute_vars (codes "{a}") ((codes "a", codes "{b}") ∷ (codes "b", codes "x") ∷ [])
    ≡ codes "x"
unfolding substitute_vars replace_all replace_from
in_order = refl

other_order :
    substitute_vars (codes "{a}") ((codes "b", codes "x") ∷ (codes "a", codes "{b}") ∷ [])
    ≡ codes "{b}"
unfolding substitute_vars replace_all replace_from
other_order = refl

apply_captures-last_example :
    (v : Text) × (resolve_capture whole_body greeting hello ≡ resolved v)
    × (lookup greeting.name (apply_captures whole_body (greeting ∷ greeting ∷ []) hello old_vars).0
        ≡ some v)
unfolding apply_captures resolve_capture
apply_captures-last_example =
    apply_captures-last whole_body (greeting ∷ []) greeting [] hello old_vars tt succeeded
  where
    succeeded : (apply_captures whole_body (greeting ∷ greeting ∷ []) hello old_vars).1 ≡ none
    succeeded = refl
