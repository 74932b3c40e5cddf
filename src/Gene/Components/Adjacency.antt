-- ===== src/Gene/Components/Adjacency.antt =====
-- The map of the dependencies that detectComponentCycles makes.
use octopusgarden.Prelude.{
  [], All, ap, AreDistinct, arith, Bool-cases, Dict, eq_of_text_eq, inl, inr, insert, keys, List,
  lookup, lookup-insert, lookup-insert_self, map, refl, sym, Text, text_eq, ◌||◌, ◌∙◌, ◌∷◌, ◌≡◌,
  ◌≢◌,
}
use octopusgarden.Attractor.Toposort.{Component, has_name}
use octopusgarden.Gene.Components.{adjacency, normalize_name}
use octopusgarden.Gene.Components.Cycles.{deps_of, or_no_names}

module _ (P : List Text → Type 0) where
  insert-All :
      (k : Text) (v : List Text) (m : Dict (List Text))
      → P v
      → All (λ (e : Text × List Text). P e.1) m
      → All (λ (e : Text × List Text). P e.1) (insert k v m)
  unfolding insert
  insert-All k v [] p h = (p, tt)
  insert-All k v ((j, w) ∷ m) p (q, h) = ground (arith, p, q, h, insert-All k v m p h)

has_name-insert :
    (x k : Text) (v : List Text) (m : Dict (List Text))
    → has_name x (keys (insert k v m)) ≡ has_name x (k ∷ keys m)
unfolding insert
has_name-insert x k v [] = refl
has_name-insert x k v ((j, w) ∷ m) = ground (arith, has_name-insert x k v m, eq_of_text_eq j k)

module _ (to_lower : Text → Text) where
  abbrev pub normal_names : List Component → List Text
  normal_names cs = map (λ c. normalize_name to_lower c.name) cs

  abbrev pub normal_deps : Component → List Text
  normal_deps c = map (normalize_name to_lower) c.depends_on

  module _ (P : List Text → Type 0) where
    pub adjacency-All :
        (adj : Dict (List Text)) (cs : List Component)
        → All (λ (e : Text × List Text). P e.1) adj
        → All (λ c. P (normal_deps c)) cs
        → All (λ (e : Text × List Text). P e.1) (adjacency to_lower adj cs)
    unfolding adjacency
    adjacency-All adj [] h k = h
    adjacency-All adj (c ∷ cs) h (p, k) =
        adjacency-All (insert (normalize_name to_lower c.name) (normal_deps c) adj) cs
          (insert-All P (normalize_name to_lower c.name) (normal_deps c) adj p h) k

  pub has_name-adjacency :
      (x : Text) (adj : Dict (List Text)) (cs : List Component)
      → has_name x (keys (adjacency to_lower adj cs))
        ≡ (has_name x (normal_names cs) || has_name x (keys adj))
  unfolding adjacency
  has_name-adjacency x adj [] = refl
  has_name-adjacency x adj (c ∷ cs) = ground (
    arith,
    has_name-adjacency x (insert (normalize_name to_lower c.name) (normal_deps c) adj) cs,
    has_name-insert x (normalize_name to_lower c.name) (normal_deps c) adj,
  )

  adjacency-other :
      (x : Text) (adj : Dict (List Text)) (cs : List Component)
      → All (λ n. x ≢ n) (normal_names cs)
      → lookup x (adjacency to_lower adj cs) ≡ lookup x adj
  unfolding adjacency
  adjacency-other x adj [] h = refl
  adjacency-other x adj (c ∷ cs) (ne, h) =
      adjacency-other x (insert (normalize_name to_lower c.name) (normal_deps c) adj) cs h
      ∙ lookup-insert (normalize_name to_lower c.name) x (normal_deps c) adj
      ∙ elim (Bool-cases (text_eq (normalize_name to_lower c.name) x)) [
        | inl same ↦ absurd (ne (sym (eq_of_text_eq (normalize_name to_lower c.name) x same)))
        | inr other ↦ rw other refl
      ]

  -- The map holds the dependencies of each component, if the names are distinct.
  pub deps_of-adjacency :
      (adj : Dict (List Text)) (cs : List Component)
      → AreDistinct (normal_names cs)
      → All
          (λ c.
            deps_of (adjacency to_lower adj cs) (normalize_name to_lower c.name) ≡ normal_deps c)
          cs
  unfolding adjacency
  deps_of-adjacency adj [] h = tt
  deps_of-adjacency adj (c ∷ cs) (new, h) = (
    ap or_no_names (
        adjacency-other (normalize_name to_lower c.name)
          (insert (normalize_name to_lower c.name) (normal_deps c) adj) cs new
        ∙ lookup-insert_self (normalize_name to_lower c.name) (normal_deps c) adj),
    deps_of-adjacency (insert (normalize_name to_lower c.name) (normal_deps c) adj) cs h,
  )
