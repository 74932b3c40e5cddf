-- ===== src/Gene/Components/Found.antt =====
-- What the search for cycles finds.
use mathlib.Core.Path.{subst}
use octopusgarden.Prelude.{
  ◌++◌, ◌<◌, [], All, ap, arith, Bool-cases, Dict, false, inl, inr, keys, length, length-map, List,
  refl, suc, sym, Text, text_eq_refl, true, zero, ℕ, ◌∙◌, ◌∷◌, ◌≡◌,
}
use octopusgarden.Attractor.Toposort.{has_name}
use octopusgarden.Gene.Components.Cycles.{
  and_search, cycle_at, deps_of, dfs_component_cycle, enter, leave, Marks, out_of_fuel, Search,
  search_all, search_cycles, searched, unset,
}
use octopusgarden.Gene.Components.Stack.{
  All-at, count_out, count_out-length, count_out_enter, has_name-append, unset_entered,
}

module _ (adj : Dict (List Text)) where
  -- Each name goes to the next one along a dependency.
  abbrev pub IsWalk : List Text → Type 0
  IsWalk [] = Unit
  IsWalk (x ∷ []) = Unit
  IsWalk (x ∷ y ∷ names) = (has_name y (deps_of adj x) ≡ true) × IsWalk (y ∷ names)

  -- A walk that ends where it has been before.
  abbrev pub IsCycle : List Text → Type 0
  IsCycle path =
      (start : List Text) × (name : Text) × (path ≡ start ++ name ∷ [])
      × (has_name name start ≡ true)
      × IsWalk path

  -- The dependencies of each name are behind it in the list, that is, were finished before.
  abbrev pub IsOrdered : List Text → Type 0
  IsOrdered [] = Unit
  IsOrdered (name ∷ names) = All (λ d. has_name d names ≡ true) (deps_of adj name) × IsOrdered names

  -- Every dependency has an entry.
  abbrev pub IsClosed : Type 0
  IsClosed =
      (name : Text)
      → has_name name (keys adj) ≡ true
      → All (λ d. has_name d (keys adj) ≡ true) (deps_of adj name)

  IsWalk-snoc :
      (path : List Text) (x y : Text)
      → IsWalk (path ++ x ∷ [])
      → has_name y (deps_of adj x) ≡ true
      → IsWalk ((path ++ x ∷ []) ++ y ∷ [])
  IsWalk-snoc [] x y h e = (e, tt)
  IsWalk-snoc (p ∷ []) x y (e0, h) e = (e0, (e, tt))
  IsWalk-snoc (p ∷ q ∷ path) x y (e0, h) e = (e0, IsWalk-snoc (q ∷ path) x y h e)

abbrev Grows : Marks → Marks → Type 0
Grows m m' = (x : Text) → has_name x m.visited ≡ true → has_name x m'.visited ≡ true

module _ (adj : Dict (List Text)) where
  -- What a search from `m` that is to visit `names` leaves.
  pub record IsVisit (names : List Text) (m m' : Marks) : Type 0 where
    pub same_stack : m'.in_stack ≡ m.in_stack
    pub ordered : IsOrdered adj m'.visited
    pub grows : Grows m m'
    pub reached : All (λ d. has_name d m'.visited ≡ true) names

  abbrev pub IsSearch : List Text → Marks → Search → Type 0
  IsSearch names m (searched m') = IsVisit names m m'
  IsSearch names m (cycle_at path) = IsCycle adj path
  IsSearch names m out_of_fuel = ⊥

  joined-IsSearch :
      (d : Text) (ds : List Text) (m m' : Marks) (r : Search)
      → IsVisit (d ∷ []) m m'
      → IsSearch ds m' r
      → IsSearch (d ∷ ds) m r
  joined-IsSearch d ds m m' (searched n) h k = record {
    same_stack = k.same_stack ∙ h.same_stack;
    ordered = k.ordered;
    grows = λ x e. k.grows x (h.grows x e);
    reached = (k.grows d h.reached.0, k.reached);
  }
  joined-IsSearch d ds m m' (cycle_at path) h k = k
  joined-IsSearch d ds m m' out_of_fuel h k = k

  and_search-IsSearch :
      (d : Text) (ds : List Text) (m : Marks) (r : Search) (next : Marks → Search)
      → IsSearch (d ∷ []) m r
      → ((m' : Marks) → IsVisit (d ∷ []) m m' → IsSearch ds m' (next m'))
      → IsSearch (d ∷ ds) m (and_search r next)
  and_search-IsSearch d ds m (searched m') next h k = joined-IsSearch d ds m m' (next m') h (k m' h)
  and_search-IsSearch d ds m (cycle_at path) next h k = h
  and_search-IsSearch d ds m out_of_fuel next h k = h

  pub search_all-IsSearch :
      (search : Text → Marks → Search) (stack : List Text) (names : List Text) (m : Marks)
      → ((d : Text) (n : Marks)
          → has_name d names ≡ true
          → n.in_stack ≡ stack
          → IsOrdered adj n.visited
          → IsSearch (d ∷ []) n (search d n))
      → m.in_stack ≡ stack
      → IsOrdered adj m.visited
      → IsSearch names m (search_all search names m)
  unfolding search_all
  search_all-IsSearch search stack [] m h same o = record {
    same_stack = refl;
    ordered = o;
    grows = λ x e. e;
    reached = tt;
  }
  search_all-IsSearch search stack (d ∷ ds) m h same o =
      and_search-IsSearch d ds m (search d m) (search_all search ds)
        (h d m (ground (arith, text_eq_refl d)) same o)
        (λ m' v.
          search_all-IsSearch search stack ds m' (λ x n e. h x n (ground (arith, e)))
            (v.same_stack ∙ same) v.ordered)

module _ (adj : Dict (List Text)) (closed : IsClosed adj) where
  left-IsSearch :
      (name : Text) (m : Marks) (r : Search)
      → has_name name m.in_stack ≡ false
      → IsSearch adj (deps_of adj name) (enter name m) r
      → IsSearch adj (name ∷ []) m (leave name r)
  unfolding leave
  left-IsSearch name m (searched m') out h = record {
    same_stack = ap (unset name) h.same_stack ∙ unset_entered name m.in_stack out;
    ordered = (h.reached, h.ordered);
    grows = λ x e. ground (arith, h.grows x e);
    reached = (ground (arith, text_eq_refl name), tt);
  }
  left-IsSearch name m (cycle_at path) out h = h
  left-IsSearch name m out_of_fuel out h = h

  dfs-IsSearch :
      (fuel : ℕ) (path : List Text) (name : Text) (m : Marks) (stack : List Text)
      → m.in_stack ≡ stack
      → ((x : Text) → has_name x stack ≡ has_name x path)
      → IsWalk adj (path ++ name ∷ [])
      → has_name name (keys adj) ≡ true
      → count_out stack (keys adj) < fuel
      → IsOrdered adj m.visited
      → IsSearch adj (name ∷ []) m (dfs_component_cycle fuel adj path name m)
  unfolding dfs_component_cycle
  dfs-IsSearch zero path name m stack same on_path walk key enough o = omega (arith, enough)
  dfs-IsSearch (suc fuel) path name m stack same on_path walk key enough o =
      elim (Bool-cases (has_name name m.in_stack)) [
        | inl again ↦ rw again (
          path,
          name,
          refl,
          sym (on_path name) ∙ subst (λ x. has_name name x ≡ true) same again,
          walk,
        )
        | inr new ↦ elim (Bool-cases (has_name name m.visited)) [
          | inl before ↦
              rw (new, before)
                (record {
                  same_stack = refl;
                  ordered = o;
                  grows = λ x e. e;
                  reached = (before, tt);
                })
          | inr fresh ↦
              rw (new, fresh)
                (left-IsSearch name m _ new (
                  search_all-IsSearch adj _ (name ∷ stack) (deps_of adj name) (enter name m)
                    (λ d n e same' o'.
                      dfs-IsSearch fuel (path ++ name ∷ []) d n (name ∷ stack) same'
                        (λ x. ground (arith, on_path x, has_name-append x name path))
                        (IsWalk-snoc adj path name d walk e)
                        (All-at (λ y. has_name y (keys adj)) (deps_of adj name) d (closed name key)
                          e)
                        (omega (
                          arith,
                          enough,
                          count_out_enter name stack (keys adj) key
                              (subst (λ x. has_name name x ≡ false) same new),
                        ))
                        o')
                    (ap (λ x. name ∷ x) same) o))
        ]
      ]

  -- The search ends within its fuel. Either it has visited every component in an order in which
  -- each comes behind all of its dependencies, or it has found a walk along dependencies that ends
  -- where it has been before; every dependency has an entry.
  pub search_cycles-IsSearch :
      IsSearch adj (keys adj) (record { visited = []; in_stack = [] }) (search_cycles adj)
  unfolding search_cycles
  search_cycles-IsSearch =
      search_all-IsSearch adj (dfs_component_cycle (suc (length adj)) adj []) [] (keys adj)
        (record { visited = []; in_stack = [] })
        (λ d n e same o.
          dfs-IsSearch (suc (length adj)) [] d n [] same (λ x. refl) tt e
            (omega
              (arith, count_out-length (keys adj), length-map (λ (x : Text × List Text). x.0) adj))
            o)
        refl tt
