-- ===== src/Gene/Components/Validated.antt =====
-- validateComponents: what is accepted and what each error means.
use octopusgarden.Prelude.{
  [], All, All-map, Any, Any-map, AreDistinct, arith, false, In, inl, inr, is_empty, keys, List,
  lookup, lookup-All, none, Option, refl, some, sym, Text, text_eq_refl, true, ◌∙◌, ◌∷◌, ◌≡◌, ◌⊎◌,
}
use octopusgarden.Attractor.Toposort.{Component, has_name}
use octopusgarden.Gene.Components.{
  adjacency, check_names, cycle_error, detect_component_cycles, duplicate_component,
  empty_component_name, empty_guide, gene_cycle, GeneError, invalid_version, missing_dependency,
  normalize_name, or_missing, search_unfinished, unknown_language, validate_components,
  validate_named,
}
use octopusgarden.Gene.Components.Found.{
  IsClosed, IsCycle, IsOrdered, IsSearch, search_cycles-IsSearch,
}
use octopusgarden.Gene.Components.Checked.{
  AreNames, check_dependencies-IsMissing, check_names-IsNaming, IsMissing, IsNaming,
}
use octopusgarden.Gene.Components.Cycles.{
  cycle_at, deps_of, Marks, or_no_names, out_of_fuel, Search, search_cycles, searched,
}
use octopusgarden.Gene.Components.Adjacency.{
  adjacency-All, deps_of-adjacency, has_name-adjacency, normal_deps, normal_names,
}
use octopusgarden.Gene.Components.Stack.{All-at}

module _ (to_lower : Text → Text) where
  -- There is an order in which each component comes behind all of its dependencies.
  abbrev pub IsSortable : List Component → Type 0
  IsSortable cs =
      (order : List Text) × IsOrdered (adjacency to_lower [] cs) order
      × All (λ c. has_name (normalize_name to_lower c.name) order ≡ true) cs
      × All
          (λ c.
            deps_of (adjacency to_lower [] cs) (normalize_name to_lower c.name)
            ≡ normal_deps to_lower c)
          cs

  abbrev pub IsCheck : List Component → Option GeneError → Type 0
  IsCheck cs none =
      All (λ n. is_empty n ≡ false) (normal_names to_lower cs)
      × AreDistinct (normal_names to_lower cs)
      × All (λ c. All (λ d. has_name d (normal_names to_lower cs) ≡ true) (normal_deps to_lower c))
          cs
      × IsSortable cs
  IsCheck cs (some empty_component_name) = Any (λ n. is_empty n ≡ true) (normal_names to_lower cs)
  IsCheck cs (some (duplicate_component d)) =
      Any (λ c. Component.name c ≡ d) cs × ¬ AreDistinct (normal_names to_lower cs)
  IsCheck cs (some (missing_dependency n d)) =
      Any
        (λ c.
          (Component.name c ≡ n)
          × In d (Component.depends_on c)
          × (has_name (normalize_name to_lower d) (normal_names to_lower cs) ≡ false))
        cs
  IsCheck cs (some (gene_cycle path)) = IsCycle (adjacency to_lower [] cs) path
  IsCheck cs (some _) = ⊥

  module _ (cs : List Component) (names : List Text) (are : AreNames to_lower [] cs names) where
    all_in : (n : Text) → has_name n names ≡ has_name n (normal_names to_lower cs)
    all_in n = ground (arith, are.holds n)

    known :
        (ds : List Text)
        → All (λ d. has_name d names ≡ true) ds
        → All (λ d. has_name d (normal_names to_lower cs) ≡ true) ds
    known ds = All-map {0, 0, 0} (λ d e. sym (all_in d) ∙ e) ds

    is_key :
        (d : Text) → has_name d names ≡ true → has_name d (keys (adjacency to_lower [] cs)) ≡ true
    is_key d e = ground (arith, e, all_in d, has_name-adjacency to_lower d [] cs)

    EntriesKnown : List Text → Type 0
    EntriesKnown = All (λ d. has_name d (keys (adjacency to_lower [] cs)) ≡ true)

    names_known :
        (o : Option (List Text))
        → ((ds : List Text) → o ≡ some ds → EntriesKnown ds)
        → EntriesKnown (or_no_names o)
    unfolding EntriesKnown
    names_known none h = tt
    names_known (some ds) h = h ds refl

    closed :
        All (λ c. All (λ d. has_name d names ≡ true) (normal_deps to_lower c)) cs
        → IsClosed (adjacency to_lower [] cs)
    unfolding EntriesKnown
    closed h name key = names_known (lookup name (adjacency to_lower [] cs)) (λ ds.
        lookup-All EntriesKnown name (adjacency to_lower [] cs) ds (
          adjacency-All to_lower EntriesKnown [] cs tt (
            All-map {0, 0, 0} (λ c. All-map {0, 0, 0} (λ d. is_key d) (normal_deps to_lower c)) cs
              h)))

    key_in_order :
        (m : Marks) (n : Text)
        → has_name n (normal_names to_lower cs) ≡ true
        → All (λ d. has_name d m.visited ≡ true) (keys (adjacency to_lower [] cs))
        → has_name n m.visited ≡ true
    key_in_order m n e h =
        All-at (λ d. has_name d m.visited) (keys (adjacency to_lower [] cs)) n h
          (is_key n (all_in n ∙ e))

    in_order :
        (order : List Text) (ds : List Component)
        → ((n : Text) → has_name n (normal_names to_lower ds) ≡ true → has_name n order ≡ true)
        → All (λ c. has_name (normalize_name to_lower c.name) order ≡ true) ds
    in_order order [] h = tt
    in_order order (c ∷ ds) h = (
      h (normalize_name to_lower c.name)
          (ground (arith, text_eq_refl (normalize_name to_lower c.name))),
      in_order order ds (λ n e. h n (ground (arith, e))),
    )

    searched-IsCheck :
        (r : Search)
        → All (λ c. All (λ d. has_name d names ≡ true) (normal_deps to_lower c)) cs
        → IsSearch
            (adjacency to_lower [] cs)
            (keys (adjacency to_lower [] cs))
            (record { visited = []; in_stack = [] })
            r
        → IsCheck cs (cycle_error to_lower r)
    searched-IsCheck (searched m) h v = (
      are.named,
      are.distinct,
      All-map {0, 0, 0} (λ c. known (normal_deps to_lower c)) cs h,
      (
        m.visited,
        v.ordered,
        in_order m.visited cs (λ n e. key_in_order m n e v.reached),
        deps_of-adjacency to_lower [] cs are.distinct,
      ),
    )
    searched-IsCheck (cycle_at path) h v = v
    searched-IsCheck out_of_fuel h v = v

    dependencies-IsCheck :
        (e : Option GeneError)
        → IsMissing to_lower names cs e
        → IsCheck cs (or_missing to_lower e (detect_component_cycles to_lower cs))
    unfolding detect_component_cycles
    dependencies-IsCheck none h =
        searched-IsCheck (search_cycles (adjacency to_lower [] cs)) h
          (search_cycles-IsSearch (adjacency to_lower [] cs) (closed h))
    dependencies-IsCheck (some (missing_dependency n d)) h =
        Any-map
          (λ c (same, there, out). (same, there, sym (all_in (normalize_name to_lower d)) ∙ out)) cs
          h
    dependencies-IsCheck (some invalid_version) h = h
    dependencies-IsCheck (some empty_guide) h = h
    dependencies-IsCheck (some unknown_language) h = h
    dependencies-IsCheck (some empty_component_name) h = absurd h
    dependencies-IsCheck (some (duplicate_component n)) h = absurd h
    dependencies-IsCheck (some (gene_cycle p)) h = absurd h
    dependencies-IsCheck (some search_unfinished) h = h

  no_names : (ns : List Text) → All (λ n. has_name n [] ≡ false) ns
  no_names [] = tt
  no_names (n ∷ ns) = (refl, no_names ns)

  validate_named-IsCheck :
      (cs : List Component) (r : GeneError ⊎ List Text)
      → IsNaming to_lower [] cs r
      → IsCheck cs (validate_named to_lower cs r)
  unfolding validate_named
  validate_named-IsCheck cs (inr names) h =
      dependencies-IsCheck cs names h _ (check_dependencies-IsMissing to_lower names cs)
  validate_named-IsCheck cs (inl empty_component_name) h = h
  validate_named-IsCheck cs (inl (duplicate_component d)) (found, h) =
      (found, λ distinct. h (no_names (normal_names to_lower cs), distinct))
  validate_named-IsCheck cs (inl invalid_version) h = h
  validate_named-IsCheck cs (inl empty_guide) h = h
  validate_named-IsCheck cs (inl unknown_language) h = h
  validate_named-IsCheck cs (inl (missing_dependency n d)) h = absurd h
  validate_named-IsCheck cs (inl (gene_cycle p)) h = absurd h
  validate_named-IsCheck cs (inl search_unfinished) h = h

  -- What is accepted and what each error of validateComponents means, names being compared in lower
  -- case and with single spaces. The components that are accepted have names that are distinct and
  -- not empty, every dependency is one of them, and there is an order of all components in which
  -- each comes behind its dependencies. Of the errors, an empty or duplicate name is there, a
  -- missing dependency is one of a component of that name and names no component, and the path of a
  -- cycle goes along dependencies and ends where it has been before. The search always ends.
  pub validate_components-IsCheck :
      (cs : List Component) → IsCheck cs (validate_components to_lower cs)
  unfolding validate_components
  validate_components-IsCheck cs =
      validate_named-IsCheck cs (check_names to_lower [] cs) (check_names-IsNaming to_lower [] cs)
