-- ===== src/Attractor/Toposort/Tests.antt =====
-- Three components.
use octopusgarden.Prelude.{
  [], AreDistinct, arith, codes, inl, inr, List, Option, refl, some, Text, ◌∷◌, ◌≡◌,
}
use octopusgarden.Attractor.Toposort.{
  Component, dependency_cycle, dependents, drain, incoming, initial_queue, kahn_names, names_of,
  topo_sort,
}
use octopusgarden.Attractor.Toposort.{
  drain, incoming, dependents, initial_queue, kahn_names, names_of,
}
use octopusgarden.Attractor.Toposort.Failures.{IsSortOf, topo_sort-IsSortOf}
use octopusgarden.Attractor.Toposort.Fuel.{kahn_names-fuel}

abbrev component : Text → List Text → Component
component name depends_on = record {
  name = name;
  interface_text = [];
  patterns = [];
  depends_on = depends_on;
}

abbrev api : Component
api = component (codes "api") (codes "store" ∷ codes "auth" ∷ [])

abbrev auth : Component
auth = component (codes "auth") (codes "store" ∷ [])

abbrev store : Component
store = component (codes "store") []

abbrev three : List Component
three = api ∷ auth ∷ store ∷ []

abbrev in_order : List (Option Component)
in_order = some store ∷ some auth ∷ some api ∷ []

distinct_names : AreDistinct (names_of three)
distinct_names = (((λ h. cc), ((λ h. cc), tt)), ((((λ h. cc), tt)), (tt, tt)))

sorts_three : topo_sort three ≡ inr in_order
unfolding topo_sort
sorts_three = refl

abbrev circle : List Component
circle =
    component (codes "api") (codes "auth" ∷ []) ∷ component (codes "auth") (codes "api" ∷ []) ∷ []

refuses_circle : topo_sort circle ≡ inl dependency_cycle
unfolding topo_sort
refuses_circle = refl

topo_sort-IsSortOf_example : IsSortOf three (topo_sort three)
topo_sort-IsSortOf_example = topo_sort-IsSortOf three distinct_names

kahn_names-fuel_example :
    drain 9 (incoming three) (dependents three) (initial_queue three three, λ k. 0)
    ≡ kahn_names three
kahn_names-fuel_example = kahn_names-fuel three 9 distinct_names (omega arith)
