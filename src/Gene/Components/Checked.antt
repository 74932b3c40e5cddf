-- ===== src/Gene/Components/Checked.antt =====
-- What validateComponents says of the components of a gene.
use octopusgarden.Prelude.{
  [], All, All-map, Any, AreDistinct, arith, Bool-cases, eq_of_text_eq, false, In, inl, inr,
  is_empty, List, map, none, Option, refl, some, Text, text_eq, text_eq_iff, true, ◌||◌, ◌∷◌, ◌≡◌,
  ◌≢◌, ◌⊎◌,
}
use octopusgarden.Attractor.Toposort.{Component, has_name}
use octopusgarden.Gene.Components.{
  check_dependencies, check_names, duplicate_component, empty_component_name, empty_guide,
  gene_cycle, GeneError, invalid_version, missing_dependency, missing_of, normalize_name,
  or_missing, search_unfinished, unknown_language,
}
use octopusgarden.Gene.Components.Adjacency.{normal_deps, normal_names}

ne_of_absent : (k : Text) (names : List Text) (n : Text) → has_name n (k ∷ names) ≡ false → k ≢ n
ne_of_absent k names n e same = ground (arith, e, (text_eq_iff k n).1 same)

absent_of_ne :
    (k : Text) (names ns : List Text)
    → All (λ n. k ≢ n) ns
    → All (λ n. has_name n names ≡ false) ns
    → All (λ n. has_name n (k ∷ names) ≡ false) ns
absent_of_ne k names [] h new = tt
absent_of_ne k names (n ∷ ns) (ne, h) (e, new) = (absent, absent_of_ne k names ns h new)
  where
    absent : has_name n (k ∷ names) ≡ false
    absent = elim (Bool-cases (text_eq k n)) [
      | inl same ↦ absurd (ne (eq_of_text_eq k n same))
      | inr other ↦ ground (arith, other, e)
    ]

module _ (to_lower : Text → Text) where
  -- What the first loop says, `names` being the names before the components.
  pub record AreNames (names : List Text) (cs : List Component) (found : List Text) : Type 0 where
    pub holds :
        (x : Text) → has_name x found ≡ (has_name x (normal_names to_lower cs) || has_name x names)
    pub fresh : All (λ n. has_name n names ≡ false) (normal_names to_lower cs)
    pub distinct : AreDistinct (normal_names to_lower cs)
    pub named : All (λ n. is_empty n ≡ false) (normal_names to_lower cs)

  abbrev pub IsNaming : List Text → List Component → GeneError ⊎ List Text → Type 0
  IsNaming names cs (inr found) = AreNames names cs found
  IsNaming names cs (inl empty_component_name) =
      Any (λ n. is_empty n ≡ true) (normal_names to_lower cs)
  IsNaming names cs (inl (duplicate_component d)) =
      Any (λ c. Component.name c ≡ d) cs
      × ¬ (
          All (λ n. has_name n names ≡ false) (normal_names to_lower cs)
          × AreDistinct (normal_names to_lower cs))
  IsNaming names cs (inl _) = ⊥

  abbrev step_names : List Text → Component → List Text
  step_names names c = normalize_name to_lower c.name ∷ names

  next-IsNaming :
      (names : List Text) (c : Component) (cs : List Component) (r : GeneError ⊎ List Text)
      → is_empty (normalize_name to_lower c.name) ≡ false
      → has_name (normalize_name to_lower c.name) names ≡ false
      → IsNaming (step_names names c) cs r
      → IsNaming names (c ∷ cs) r
  next-IsNaming names c cs (inr found) named new h = record {
    holds = λ x. ground (arith, h.holds x);
    fresh = (new, All-map {0, 0, 0} (λ n e. ground (arith, e)) (normal_names to_lower cs) h.fresh);
    distinct = (
      All-map {0, 0, 0} (ne_of_absent (normalize_name to_lower c.name) names)
          (normal_names to_lower cs) h.fresh,
      h.distinct,
    );
    named = (named, h.named);
  }
  next-IsNaming names c cs (inl empty_component_name) named new h = inr h
  next-IsNaming names c cs (inl (duplicate_component d)) named new h = (
    inr h.0,
    λ k. h.1 (
      absent_of_ne (normalize_name to_lower c.name) names (normal_names to_lower cs) k.1.0 k.0.1,
      k.1.1,
    ),
  )
  next-IsNaming names c cs (inl invalid_version) named new h = h
  next-IsNaming names c cs (inl empty_guide) named new h = h
  next-IsNaming names c cs (inl unknown_language) named new h = h
  next-IsNaming names c cs (inl (missing_dependency n d)) named new h = h
  next-IsNaming names c cs (inl (gene_cycle p)) named new h = h
  next-IsNaming names c cs (inl search_unfinished) named new h = h

  pub check_names-IsNaming :
      (names : List Text) (cs : List Component) → IsNaming names cs (check_names to_lower names cs)
  unfolding check_names
  check_names-IsNaming names [] = record {
    holds = λ x. refl;
    fresh = tt;
    distinct = tt;
    named = tt;
  }
  check_names-IsNaming names (c ∷ cs) =
      elim (Bool-cases (is_empty (normalize_name to_lower c.name))) [
        | inl empty ↦ rw empty (inl empty)
        | inr named ↦ elim (Bool-cases (has_name (normalize_name to_lower c.name) names)) [
          | inl old ↦ rw (named, old) (inl refl, λ k. ground (arith, old, k.0.0))
          | inr new ↦
              rw (named, new)
                (next-IsNaming names c cs _ named new
                  (check_names-IsNaming (step_names names c) cs))
        ]
      ]

  -- What the second loop says of the dependencies of one component, and of all.
  abbrev MissingOf : List Text → Text → List Text → Option GeneError → Type 0
  MissingOf names name ds none =
      All (λ d. has_name d names ≡ true) (map (normalize_name to_lower) ds)
  MissingOf names name ds (some (missing_dependency n d)) =
      (name ≡ n) × In d ds × (has_name (normalize_name to_lower d) names ≡ false)
  MissingOf names name ds (some _) = ⊥

  abbrev pub IsMissing : List Text → List Component → Option GeneError → Type 0
  IsMissing names cs none =
      All (λ c. All (λ d. has_name d names ≡ true) (normal_deps to_lower c)) cs
  IsMissing names cs (some (missing_dependency n d)) =
      Any
        (λ c.
          (Component.name c ≡ n)
          × In d (Component.depends_on c)
          × (has_name (normalize_name to_lower d) names ≡ false))
        cs
  IsMissing names cs (some _) = ⊥

  next-MissingOf :
      (names : List Text) (name d : Text) (ds : List Text) (e : Option GeneError)
      → has_name (normalize_name to_lower d) names ≡ true
      → MissingOf names name ds e
      → MissingOf names name (d ∷ ds) e
  next-MissingOf names name d ds none known h = (known, h)
  next-MissingOf names name d ds (some (missing_dependency n x)) known (same, there, out) =
      (same, inr there, out)
  next-MissingOf names name d ds (some empty_component_name) known h = h
  next-MissingOf names name d ds (some (duplicate_component n)) known h = h
  next-MissingOf names name d ds (some invalid_version) known h = h
  next-MissingOf names name d ds (some empty_guide) known h = h
  next-MissingOf names name d ds (some unknown_language) known h = h
  next-MissingOf names name d ds (some (gene_cycle p)) known h = h
  next-MissingOf names name d ds (some search_unfinished) known h = h

  missing_of-MissingOf :
      (names : List Text) (name : Text) (ds : List Text)
      → MissingOf names name ds (missing_of to_lower names name ds)
  unfolding missing_of
  missing_of-MissingOf names name [] = tt
  missing_of-MissingOf names name (d ∷ ds) =
      elim (Bool-cases (has_name (normalize_name to_lower d) names)) [
        | inl known ↦
            rw known (next-MissingOf names name d ds _ known (missing_of-MissingOf names name ds))
        | inr missing ↦ rw missing (refl, inl refl, missing)
      ]

  next-IsMissing :
      (names : List Text) (c : Component) (cs : List Component) (e r : Option GeneError)
      → MissingOf names c.name c.depends_on e
      → IsMissing names cs r
      → IsMissing names (c ∷ cs) (or_missing to_lower e r)
  next-IsMissing names c cs (some (missing_dependency n x)) r h k = inl h
  next-IsMissing names c cs (some empty_component_name) r h k = h
  next-IsMissing names c cs (some (duplicate_component n)) r h k = h
  next-IsMissing names c cs (some invalid_version) r h k = h
  next-IsMissing names c cs (some empty_guide) r h k = h
  next-IsMissing names c cs (some unknown_language) r h k = h
  next-IsMissing names c cs (some (gene_cycle p)) r h k = h
  next-IsMissing names c cs (some search_unfinished) r h k = h
  next-IsMissing names c cs none none h k = (h, k)
  next-IsMissing names c cs none (some (missing_dependency n x)) h k = inr k
  next-IsMissing names c cs none (some empty_component_name) h k = k
  next-IsMissing names c cs none (some (duplicate_component n)) h k = k
  next-IsMissing names c cs none (some invalid_version) h k = k
  next-IsMissing names c cs none (some empty_guide) h k = k
  next-IsMissing names c cs none (some unknown_language) h k = k
  next-IsMissing names c cs none (some (gene_cycle p)) h k = k
  next-IsMissing names c cs none (some search_unfinished) h k = k

  pub check_dependencies-IsMissing :
      (names : List Text) (cs : List Component)
      → IsMissing names cs (check_dependencies to_lower names cs)
  unfolding check_dependencies
  check_dependencies-IsMissing names [] = tt
  check_dependencies-IsMissing names (c ∷ cs) =
      next-IsMissing names c cs _ _ (missing_of-MissingOf names c.name c.depends_on)
        (check_dependencies-IsMissing names cs)
