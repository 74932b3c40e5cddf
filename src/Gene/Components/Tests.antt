-- ===== src/Gene/Components/Tests.antt =====
-- Two components, one of which depends on the other. Their names are in lower case.
use mathlib.Core.Path.{subst}
use octopusgarden.Prelude.{
  [], codes, inl, inr, insert, join, List, lookup, none, refl, some, Text, true, ◌∷◌, ◌≡◌,
}
use octopusgarden.Attractor.Toposort.{
  Component, has_name, named, names_of, topo_sort, unknown_dependency,
}
use octopusgarden.Attractor.Toposort.Stuck.{DependsOn}
use octopusgarden.Gene.Components.{
  adjacency, check_dependencies, check_names, detect_component_cycles, fields, gene_cycle,
  missing_of, normalize_name, split_fields, validate_components,
}
use octopusgarden.Gene.Components.Cycles.{
  dfs_component_cycle, leave, search_all, search_cycles, unset,
}
use octopusgarden.Gene.Components.Validated.{IsCheck, validate_components-IsCheck}
use octopusgarden.Gene.Components.Sortable.{validate_components-CanSort}
use octopusgarden.Attractor.Composed.Completes.{CanSort}

abbrev unchanged : Text → Text
unchanged s = s

abbrev component : Text → List Text → Component
component name deps = record { name = name; interface_text = []; patterns = []; depends_on = deps }

abbrev store : Component
store = component (codes "store") []

abbrev two : List Component
two = component (codes "api") (codes "store" ∷ []) ∷ store ∷ []

running : Unit {0}
unfolding validate_components check_names check_dependencies missing_of detect_component_cycles
    adjacency normalize_name fields split_fields join insert lookup search_cycles search_all
    dfs_component_cycle leave unset topo_sort
running = tt

two_valid : validate_components unchanged two ≡ none
unfolding running
two_valid = refl

abbrev circle : List Component
circle = component (codes "a") (codes "b" ∷ []) ∷ component (codes "b") (codes "a" ∷ []) ∷ []

circle_found :
    validate_components unchanged circle
    ≡ some (gene_cycle (codes "a" ∷ codes "b" ∷ codes "a" ∷ []))
unfolding running
circle_found = refl

-- A dependency with a space behind it is valid, and yet unknown to the sort.
abbrev spaced : List Component
spaced = component (codes "api") (codes "store " ∷ []) ∷ store ∷ []

spaced_valid : validate_components unchanged spaced ≡ none
unfolding running
spaced_valid = refl

spaced_unknown : topo_sort spaced ≡ inl (unknown_dependency (codes "api") (codes "store "))
unfolding running
spaced_unknown = refl

validate_components-IsCheck_example :
    IsCheck unchanged circle (validate_components unchanged circle)
validate_components-IsCheck_example = validate_components-IsCheck unchanged circle

exact : (k d : Text) → DependsOn two k d → has_name d (names_of two) ≡ true
exact k d (inl (named, inl same)) = subst (λ x. has_name x (names_of two) ≡ true) same refl
exact k d (inl (named, inr there)) = absurd there
exact k d (inr (inl (named, there))) = absurd there
exact k d (inr (inr there)) = absurd there

validate_components-CanSort_example : CanSort (topo_sort two)
validate_components-CanSort_example = validate_components-CanSort unchanged two two_valid exact
