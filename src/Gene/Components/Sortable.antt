-- ===== src/Gene/Components/Sortable.antt =====
-- The components of a valid gene can be sorted by topoSort in internal/attractor/toposort.go, if the
-- dependencies are spelled as the names are.
use mathlib.Core.Path.{subst}
use octopusgarden.Prelude.{
  [], All, Any, ap, AreDistinct, arith, Bool-cases, eq_of_text_eq, false, In, inl, inr, List, map,
  none, Option, refl, sym, Text, text_eq, text_eq_refl, true, ◌∷◌, ◌≡◌, ◌≢◌, ◌⊎◌,
}
use octopusgarden.Attractor.Toposort.{
  Component, dependency_cycle, has_name, named, names_of, topo_sort, TopoError, unknown_dependency,
}
use octopusgarden.Attractor.Toposort.Stuck.{DependsOn, IsWaiting}
use octopusgarden.Gene.Components.{adjacency, normalize_name, validate_components}
use octopusgarden.Gene.Components.Found.{IsOrdered}
use octopusgarden.Gene.Components.Validated.{IsCheck, IsSortable, validate_components-IsCheck}
use octopusgarden.Attractor.Toposort.Failures.{IsSortOf, topo_sort-IsSortOf}
use octopusgarden.Gene.Components.Cycles.{deps_of}
use octopusgarden.Gene.Components.Stack.{All-at}
use octopusgarden.Gene.Components.Adjacency.{normal_names}
use octopusgarden.Attractor.Composed.Completes.{CanSort}

All-Any : {A : Type 0} (P Q : A → Type 0) (xs : List A) → All P xs → Any Q xs → (a : A) × P a × Q a
All-Any P Q [] h k = absurd k
All-Any P Q (x ∷ xs) (p, h) (inl q) = (x, p, q)
All-Any P Q (x ∷ xs) (p, h) (inr k) = All-Any P Q xs h k

All-In : {A : Type 0} (P : A → Type 0) (xs : List A) (a : A) → All P xs → In a xs → P a
All-In P xs a h k = let (x, p, e) = All-Any P (λ y. y ≡ a) xs h k in subst P e p

has_name-map :
    (f : Text → Text) (d : Text) (ds : List Text) → In d ds → has_name (f d) (map f ds) ≡ true
has_name-map f d [] h = absurd h
has_name-map f d (x ∷ xs) (inl same) =
    subst (λ y. has_name (f d) (f y ∷ map f xs) ≡ true) (sym same)
      (ground (arith, text_eq_refl (f d)))
has_name-map f d (x ∷ xs) (inr h) = ground (arith, has_name-map f d xs h)

module _ (to_lower : Text → Text) (cs : List Component) (sortable : IsSortable to_lower cs)
    (names : List Text) (waiting : IsWaiting cs names) where
  -- The map has the dependency.
  depends-has_name :
      (n d : Text)
      → DependsOn cs n d
      → has_name
          (normalize_name to_lower d)
          (deps_of (adjacency to_lower [] cs) (normalize_name to_lower n))
        ≡ true
  depends-has_name n d h =
      let (order, o, there, held) = sortable in
      let (c, same, (named, dep)) = All-Any _ _ cs held h in
      subst
        (λ x.
          has_name (normalize_name to_lower d)
            (deps_of (adjacency to_lower [] cs) (normalize_name to_lower x))
          ≡ true)
        named
        (subst (λ ds. has_name (normalize_name to_lower d) ds ≡ true) (sym same)
          (has_name-map (normalize_name to_lower) d (Component.depends_on c) dep))

  -- A name that waits for one of `names` is in no order in which each comes behind its dependencies.
  absent_from_order :
      (order : List Text)
      → IsOrdered (adjacency to_lower [] cs) order
      → (n : Text) → In n names
      → has_name (normalize_name to_lower n) order ≡ false
  absent_from_order [] o n h = refl
  absent_from_order (v ∷ vs) (behind, o) n h =
      let (d, dep, dn) = All-In _ names n waiting h in
      elim (Bool-cases (text_eq v (normalize_name to_lower n))) [
        | inl same ↦
            let first =
              All-at (λ x. has_name x vs) (deps_of (adjacency to_lower [] cs) v)
                (normalize_name to_lower d) behind
                (subst
                  (λ x.
                    has_name (normalize_name to_lower d) (deps_of (adjacency to_lower [] cs) x)
                    ≡ true)
                  (sym (eq_of_text_eq v (normalize_name to_lower n) same))
                  (depends-has_name n d dep)) in
            absurd (ground (arith, first, absent_from_order vs o d dn))
        | inr other ↦ ground (arith, other, absent_from_order vs o n h)
      ]

  no_waiting : names ≡ []
  no_waiting = none_waiting names waiting (λ n h. absent_from_order (sortable.0) sortable.1 n h)
    where
      none_waiting :
          (ns : List Text)
          → All (λ k. (d : Text) × DependsOn cs k d × In d names) ns
          → ((n : Text) → In n ns → has_name (normalize_name to_lower n) (sortable.0) ≡ false)
          → ns ≡ []
      none_waiting [] h k = refl
      none_waiting (n ∷ ns) ((d, dep, dn), h) k =
          let (c, there, (named, _)) = All-Any _ _ cs sortable.2 dep in
          absurd (
            ground (
              arith,
              k n (inl refl),
              subst (λ x. has_name (normalize_name to_lower x) (sortable.0) ≡ true) named there,
            ))

distinct_names :
    (to_lower : Text → Text) (cs : List Component)
    → AreDistinct (normal_names to_lower cs)
    → AreDistinct (names_of cs)
distinct_names to_lower [] h = tt
distinct_names to_lower (c ∷ cs) (new, h) = (differ cs new, distinct_names to_lower cs h)
  where
    differ :
        (ds : List Component)
        → All (λ n. normalize_name to_lower c.name ≢ n) (normal_names to_lower ds)
        → All (λ n. c.name ≢ n) (names_of ds)
    differ [] k = tt
    differ (d ∷ ds) (ne, k) = ((λ e. ne (ap (normalize_name to_lower) e)), differ ds k)

sorted-CanSort :
    (to_lower : Text → Text) (cs : List Component) (r : TopoError ⊎ List (Option Component))
    → IsSortable to_lower cs
    → ((k d : Text) → DependsOn cs k d → has_name d (names_of cs) ≡ true)
    → IsSortOf cs r
    → CanSort r
sorted-CanSort to_lower cs (inr sorted) s exact h = tt
sorted-CanSort to_lower cs (inl (unknown_dependency n d)) s exact (dep, missing) =
    absurd (ground (arith, exact n d dep, missing))
sorted-CanSort to_lower cs (inl dependency_cycle) s exact (names, some_names, waiting) =
    absurd (some_names (no_waiting to_lower cs s names waiting))

-- The components of a gene that validateComponents accepts are sorted by topoSort without an error,
-- if each dependency is spelled exactly as the name of a component.
pub validate_components-CanSort :
    (to_lower : Text → Text) (cs : List Component)
    → validate_components to_lower cs ≡ none
    → ((k d : Text) → DependsOn cs k d → has_name d (names_of cs) ≡ true)
    → CanSort (topo_sort cs)
validate_components-CanSort to_lower cs valid exact =
    let (named, distinct, known, sortable) =
      subst (IsCheck to_lower cs) valid (validate_components-IsCheck to_lower cs) in
    sorted-CanSort to_lower cs (topo_sort cs) sortable exact
      (topo_sort-IsSortOf cs (distinct_names to_lower cs distinct))
