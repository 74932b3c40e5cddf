-- ===== src/Attractor/Resources/Tests.antt =====
-- The books of a run in the small world.
use octopusgarden.Prelude.{[], codes, none, some, whole, ℕ, ◌∷◌}
use octopusgarden.Attractor.Loop.Samples.{small_options, small_world}
use octopusgarden.Attractor.Composed.Serving.{Validator}
use octopusgarden.Attractor.Composed.Run.{composed_state, Composition, run_spec}
use octopusgarden.Attractor.Resources.Books.{booked, booked_composition, Books, counts}
use octopusgarden.Attractor.Resources.Steady.{Holds, Spends}
use octopusgarden.Attractor.Resources.Results.{most_generations, run_spec-Spends}
use octopusgarden.Attractor.Loop.World.{Sys}
use octopusgarden.Attractor.Loop.Restart.{new_restartable, restart, Restartable}

abbrev scored : Validator ℕ ℕ
scored tier w = (some (record { satisfaction = w; failures = []; cost = 1 }), w)

abbrev small_composition : Composition ℕ ℕ
small_composition = record {
  language = codes "go";
  gene_components =
      (record { name = codes "a"; interface_text = []; patterns = []; depends_on = [] }) ∷ [];
  component_validators = (codes "a", scored) ∷ [];
}

abbrev no_books : Books ℕ
no_books = record { containers = 0; sessions = 0; generations = 0; inner = 50 }

run_spec-Spends_example :
    Holds
      (run_spec ⦃F = whole⦄
        (booked small_world)
        (booked_composition small_composition)
        small_options
        none
        (codes "spec")
        no_books)
      (λ _ d.
        Spends (most_generations ⦃F = whole⦄ small_composition small_options) (counts no_books) d)
run_spec-Spends_example =
    run_spec-Spends small_world small_composition small_options none (codes "spec") no_books

abbrev first_books : Sys (Books ℕ) ℕ
first_books = record { state = composed_state ⦃F = whole⦄ small_options; world = no_books }

abbrev one_open : Books ℕ
one_open = record no_books { containers = 1 }

abbrev restarted_once : Restartable (Books ℕ)
restarted_once = (restart (booked small_world) (new_restartable one_open)).1
