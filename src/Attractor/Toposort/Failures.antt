-- ===== src/Attractor/Toposort/Failures.antt =====
-- The outcomes of the sort, errors included.
use mathlib.Core.Path.{subst}
use octopusgarden.Prelude.{
  ◌<◌, ◌==◌, ==_iff, [], append-nil, AreDistinct, arith, Bool-cases, false, In, inl, inr, length,
  List, ltb, none, Option, refl, some, sym, Text, true, ◌∙◌, ◌∷◌, ◌≡◌, ◌≢◌, ◌⊎◌,
}
use octopusgarden.Attractor.Toposort.{
  Component, dependency_cycle, find_unknown, has_name, incoming, kahn_names, names_of, or_error,
  sorted_if, sorted_unless, topo_sort, TopoError, unknown_dependency, unknown_of,
}
use octopusgarden.Attractor.Toposort.Counts.{hits, hits-incoming}
use octopusgarden.Attractor.Toposort.Fuel.{length-AreDistinct, length-names_of}
use octopusgarden.Attractor.Toposort.Ordered.{IsSorting, kahn_names-IsOrdered}
use octopusgarden.Attractor.Toposort.Cycle.{kahn_names-IsFinal}
use octopusgarden.Attractor.Toposort.Stuck.{
  All-left_of, DependsOn, has_name-In, hits-missing, In-has_name, In-left_of, IsWaiting, left_of,
  left_of-none,
}

-- What an error says of the components.
abbrev pub IsFailure : List Component → TopoError → Type 0
IsFailure cs (unknown_dependency n d) = DependsOn cs n d × (has_name d (names_of cs) ≡ false)
IsFailure cs dependency_cycle = (names : List Text) × (names ≢ []) × IsWaiting cs names

-- The order, or why there is none.
abbrev pub IsSortOf : List Component → TopoError ⊎ List (Option Component) → Type 0
IsSortOf cs (inl e) = IsFailure cs e
IsSortOf cs (inr sorted) = IsSorting cs sorted

-- What the search for unknown dependencies gives.
abbrev IsSearched : List Text → List Component → Option TopoError → Type 0
IsSearched names cs none = (k d : Text) → DependsOn cs k d → has_name d names ≡ true
IsSearched names cs (some (unknown_dependency n d)) = DependsOn cs n d × (has_name d names ≡ false)
IsSearched names cs (some dependency_cycle) = ⊥

abbrev IsUnknownOf : List Text → Text → List Text → Option TopoError → Type 0
IsUnknownOf names n ds none = (d : Text) → In d ds → has_name d names ≡ true
IsUnknownOf names n ds (some (unknown_dependency m d)) =
    (m ≡ n) × In d ds × (has_name d names ≡ false)
IsUnknownOf names n ds (some dependency_cycle) = ⊥

IsUnknownOf-cons :
    (names : List Text) (n d : Text) (ds : List Text) (o : Option TopoError)
    → has_name d names ≡ true
    → IsUnknownOf names n ds o
    → IsUnknownOf names n (d ∷ ds) o
IsUnknownOf-cons names n d ds none e h = either
  where
    either : (k : Text) → In k (d ∷ ds) → has_name k names ≡ true
    either k (inl same) = subst (λ x. has_name x names ≡ true) same e
    either k (inr there) = h k there
IsUnknownOf-cons names n d ds (some (unknown_dependency m k)) e (same, there, missing) =
    (same, inr there, missing)
IsUnknownOf-cons names n d ds (some dependency_cycle) e h = h

unknown_of-IsUnknownOf :
    (names : List Text) (n : Text) (ds : List Text) → IsUnknownOf names n ds (unknown_of names n ds)
unfolding unknown_of
unknown_of-IsUnknownOf names n [] = λ d h. absurd h
unknown_of-IsUnknownOf names n (d ∷ ds) = elim (Bool-cases (has_name d names)) [
  | inl e ↦
      rw e (
        IsUnknownOf-cons names n d ds (unknown_of names n ds) e (unknown_of-IsUnknownOf names n ds))
  | inr e ↦ rw e (refl, inl refl, e)
]

IsSearched-cons :
    (names : List Text) (c : Component) (cs : List Component) (here later : Option TopoError)
    → IsUnknownOf names c.name c.depends_on here
    → IsSearched names cs later
    → IsSearched names (c ∷ cs) (or_error here later)
IsSearched-cons names c cs none none h rest = either
  where
    either : (k d : Text) → DependsOn (c ∷ cs) k d → has_name d names ≡ true
    either k d (inl (same, there)) = h d there
    either k d (inr depends) = rest k d depends
IsSearched-cons names c cs none (some (unknown_dependency n d)) h (depends, missing) =
    (inr depends, missing)
IsSearched-cons names c cs none (some dependency_cycle) h rest = rest
IsSearched-cons names c cs (some (unknown_dependency n d)) later (same, there, missing) rest =
    (inl (sym same, there), missing)
IsSearched-cons names c cs (some dependency_cycle) later h rest = absurd h

find_unknown-IsSearched :
    (names : List Text) (cs : List Component) → IsSearched names cs (find_unknown names cs)
unfolding find_unknown
find_unknown-IsSearched names [] = λ k d h. absurd h
find_unknown-IsSearched names (c ∷ cs) =
    IsSearched-cons names c cs (unknown_of names c.name c.depends_on) (find_unknown names cs)
      (unknown_of-IsUnknownOf names c.name c.depends_on) (find_unknown-IsSearched names cs)

module _ (cs : List Component) (distinct : AreDistinct (names_of cs)) where
  left_of-IsWaiting :
      IsSearched (names_of cs) cs none → IsWaiting cs (left_of (kahn_names cs) (names_of cs))
  left_of-IsWaiting known = All-left_of _ (kahn_names cs) (names_of cs) waits
    where
      low :
          (k : Text)
          → In k (names_of cs)
          → has_name k (kahn_names cs) ≡ false
          → hits cs (kahn_names cs) k < incoming cs k
      low k there out =
          let (removed, (counted, full, separate), complete, within) =
            kahn_names-IsFinal cs distinct in
          elim (Bool-cases (ltb (hits cs (kahn_names cs) k) (incoming cs k))) [
            | inl e ↦ ground (arith, e)
            | inr e ↦
                let same : hits cs (kahn_names cs) k ≡ incoming cs k =
                  ground (arith, e, hits-incoming cs (kahn_names cs) k) in
                let popped : In k (kahn_names cs) =
                  subst (In k) (append-nil (kahn_names cs)) (complete k there (counted k ∙ same)) in
                let both : true ≡ false = sym (has_name-In k (kahn_names cs) popped) ∙ out in cc
          ]

      waits :
          (k : Text)
          → In k (names_of cs)
          → has_name k (kahn_names cs) ≡ false
          → (d : Text) × DependsOn cs k d × In d (left_of (kahn_names cs) (names_of cs))
      waits k there out =
          let (d, depends, missing) = hits-missing cs (kahn_names cs) k (low k there out) in
          (
            d,
            depends,
            In-left_of (kahn_names cs) (names_of cs) d
                (In-has_name d (names_of cs) (known k d depends)) missing,
          )

  left_of-some : length (kahn_names cs) ≢ length cs → left_of (kahn_names cs) (names_of cs) ≢ []
  left_of-some differ empty =
      let (removed, (counted, full, separate), complete, within) = kahn_names-IsFinal cs distinct in
      let names_in = left_of-none (kahn_names cs) (names_of cs) empty in
      let separate_names = subst AreDistinct (append-nil (kahn_names cs)) separate in
      differ (
        omega (
          arith,
          length-names_of cs cs,
          length-AreDistinct (names_of cs) (kahn_names cs) distinct names_in,
          length-AreDistinct (kahn_names cs) (names_of cs) separate_names within,
        ))

  sorted_if-IsSortOf : IsSearched (names_of cs) cs none → IsSortOf cs (sorted_if cs (kahn_names cs))
  unfolding sorted_if
  sorted_if-IsSortOf known = elim (Bool-cases (length (kahn_names cs) == length cs)) [
    | inl e ↦ rw e (
      kahn_names cs,
      refl,
      (==_iff (length (kahn_names cs)) (length cs)).0 e,
      kahn_names-IsOrdered cs distinct,
    )
    | inr e ↦ rw e (
      left_of (kahn_names cs) (names_of cs),
      left_of-some (λ k. ground (arith, e, k)),
      left_of-IsWaiting known,
    )
  ]

  sorted_unless-IsSortOf :
      (o : Option TopoError) → IsSearched (names_of cs) cs o → IsSortOf cs (sorted_unless cs o)
  sorted_unless-IsSortOf none known = sorted_if-IsSortOf known
  sorted_unless-IsSortOf (some (unknown_dependency n d)) found = found
  sorted_unless-IsSortOf (some dependency_cycle) found = absurd found

  -- Components whose names are distinct are sorted into an order of as many names, in which each name
  -- comes once and behind all names that its component depends on. Else there is an error: either one
  -- depends on a name that none has, or, for a cycle, there are names each of which has a component
  -- that depends on one of them.
  pub topo_sort-IsSortOf : IsSortOf cs (topo_sort cs)
  unfolding topo_sort
  topo_sort-IsSortOf =
      sorted_unless-IsSortOf (find_unknown (names_of cs) cs)
        (find_unknown-IsSearched (names_of cs) cs)
