-- ===== src/Gene/Components/Cycles.antt =====
-- dfsComponentCycle and the loop of detectComponentCycles in gene.go. The maps visited and inStack
-- are lists of the names that they hold. The recursion is on fuel, one more than the components.
use octopusgarden.Prelude.{
  ◌++◌, [], Dict, if◌then◌else◌, keys, length, List, lookup, none, Option, some, suc, Text, text_eq,
  zero, ℕ, ◌∷◌,
}
use octopusgarden.Attractor.Toposort.{has_name}

pub record Marks : Type 0 where
  pub visited : List Text
  pub in_stack : List Text

pub data Search : Type 0 where
  searched : Marks → Search
  cycle_at : List Text → Search
  out_of_fuel : Search

abbrev pub or_no_names : Option (List Text) → List Text
or_no_names none = []
or_no_names (some names) = names

-- adj[name]
abbrev pub deps_of : Dict (List Text) → Text → List Text
deps_of adj name = or_no_names (lookup name adj)

-- inStack[name] = false
unfoldable pub unset : Text → List Text → List Text
unset name [] = []
unset name (k ∷ ks) = let rest = unset name ks in if text_eq k name then rest else k ∷ rest

abbrev pub enter : Text → Marks → Marks
enter name m = record m { in_stack = name ∷ m.in_stack }

unfoldable pub leave : Text → Search → Search
unfolding unset
leave name (searched m) =
    searched (record { visited = name ∷ m.visited; in_stack = unset name m.in_stack })
leave name (cycle_at path) = cycle_at path
leave name out_of_fuel = out_of_fuel

abbrev pub and_search : Search → (Marks → Search) → Search
and_search (searched m) next = next m
and_search (cycle_at path) next = cycle_at path
and_search out_of_fuel next = out_of_fuel

-- A loop that ends with the first error.
unfoldable pub search_all : (Text → Marks → Search) → List Text → Marks → Search
search_all search [] m = searched m
search_all search (name ∷ names) m = and_search (search name m) (search_all search names)

unfoldable pub dfs_component_cycle :
    (fuel : ℕ) → Dict (List Text) → (path : List Text) → Text → Marks → Search
unfolding search_all leave
dfs_component_cycle zero adj path name m = out_of_fuel
dfs_component_cycle (suc fuel) adj path name m =
    let inner =
      search_all (dfs_component_cycle fuel adj (path ++ name ∷ [])) (deps_of adj name)
        (enter name m) in
    if has_name name m.in_stack
    then cycle_at (path ++ name ∷ [])
    else if has_name name m.visited
    then searched m
    else leave name inner

unfoldable pub search_cycles : Dict (List Text) → Search
unfolding dfs_component_cycle
search_cycles adj =
    search_all (dfs_component_cycle (suc (length adj)) adj []) (keys adj)
      (record { visited = []; in_stack = [] })
