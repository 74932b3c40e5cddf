-- ===== src/Gene/Budget/Tests.antt =====
-- Two small files.
use octopusgarden.Prelude.{[], codes, List, refl, some, ◌∷◌, ◌≡◌, ◌≤◌}
use octopusgarden.Gene.Budget.{
  enforce_token_budget, SelectedFile, token_budget, total_tokens, without_last_source,
}
use octopusgarden.Gene.Budget.Laws.{droppable, enforce_token_budget-IsWithin, IsWithin, Keeps}

abbrev readme : SelectedFile
readme = record {
  path = codes "README.md";
  content = codes "A store of keys.";
  role = codes "readme";
}

abbrev main : SelectedFile
main = record { path = codes "main.go"; content = codes "package main"; role = codes "source" }

abbrev two_files : List SelectedFile
two_files = readme ∷ main ∷ []

drops_source : without_last_source two_files ≡ some (readme ∷ [])
unfolding without_last_source
drops_source = refl

enforce_token_budget-IsWithin_example :
    Keeps droppable two_files (enforce_token_budget two_files)
    × IsWithin
        (codes "readme" ∷ codes "handler" ∷ codes "model" ∷ codes "source" ∷ [])
        (enforce_token_budget two_files)
    × (total_tokens two_files ≤ token_budget → enforce_token_budget two_files ≡ two_files)
enforce_token_budget-IsWithin_example = enforce_token_budget-IsWithin two_files
