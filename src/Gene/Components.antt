-- ===== src/Gene/Components.antt =====
-- internal/gene/gene.go: Validate, validateComponents and the search for cycles. strings.ToLower is
-- the parameter `to_lower`. Saving and loading a gene is I/O.
pub mod Cycles
pub mod Stack
pub mod Adjacency
pub mod Found
pub mod Checked
pub mod Validated
pub mod Sortable
mod Tests
use octopusgarden.Prelude.{
  ◌==◌, [], codes, Dict, if◌then◌else◌, inl, inr, insert, is_empty, is_space, join, List, map, none,
  not, Option, some, Text, ℕ, ◌∷◌, ◌⊎◌,
}
use octopusgarden.Attractor.Toposort.{Component, has_name}
use octopusgarden.Gene.Components.Cycles.{cycle_at, out_of_fuel, Search, search_cycles, searched}

-- strings.Fields: the first word, perhaps empty, and the ones behind it.
abbrev add_word : Text → List Text → List Text
add_word [] words = words
add_word (c ∷ word) words = (c ∷ word) ∷ words

unfoldable pub split_fields : Text → Text × List Text
split_fields [] = ([], [])
split_fields (c ∷ s) =
    let r = split_fields s in if is_space c then ([], add_word r.0 r.1) else (c ∷ r.0, r.1)

unfoldable pub fields : Text → List Text
unfolding split_fields
fields s = let r = split_fields s in add_word r.0 r.1

pub data GeneError : Type 0 where
  invalid_version empty_guide unknown_language empty_component_name : GeneError
  duplicate_component : (name : Text) → GeneError
  missing_dependency : (name dependency : Text) → GeneError
  gene_cycle : List Text → GeneError
  search_unfinished : GeneError

pub record Gene : Type 0 where
  pub version : ℕ  -- 0 for a version below 1
  pub language : Text
  pub guide : Text
  pub components : List Component

abbrev pub valid_languages : List Text
valid_languages = codes "go" ∷ codes "python" ∷ codes "node" ∷ codes "rust" ∷ []

module _ (to_lower : Text → Text) where
  unfoldable pub normalize_name : Text → Text
  unfolding fields
  normalize_name s = join b' ' (fields (to_lower s))

  -- The first loop; `names` are those so far, and then all of them.
  unfoldable pub check_names : (names : List Text) → List Component → GeneError ⊎ List Text
  unfolding normalize_name
  check_names names [] = inr names
  check_names names (c ∷ cs) =
      let rest = check_names (normalize_name c.name ∷ names) cs in
      if is_empty (normalize_name c.name)
      then inl empty_component_name
      else if has_name (normalize_name c.name) names
      then inl (duplicate_component c.name)
      else rest

  unfoldable pub missing_of : (names : List Text) → Text → List Text → Option GeneError
  missing_of names name [] = none
  missing_of names name (d ∷ ds) =
      let rest = missing_of names name ds in
      if has_name (normalize_name d) names then rest else some (missing_dependency name d)

  abbrev pub or_missing : Option GeneError → Option GeneError → Option GeneError
  or_missing none e = e
  or_missing (some e) _ = some e

  unfoldable pub check_dependencies : (names : List Text) → List Component → Option GeneError
  unfolding missing_of
  check_dependencies names [] = none
  check_dependencies names (c ∷ cs) =
      or_missing (missing_of names c.name c.depends_on) (check_dependencies names cs)

  -- adj
  unfoldable pub adjacency : Dict (List Text) → List Component → Dict (List Text)
  adjacency adj [] = adj
  adjacency adj (c ∷ cs) =
      adjacency (insert (normalize_name c.name) (map normalize_name c.depends_on) adj) cs

  abbrev pub cycle_error : Search → Option GeneError
  cycle_error (searched m) = none
  cycle_error (cycle_at path) = some (gene_cycle path)
  cycle_error out_of_fuel = some search_unfinished

  unfoldable pub detect_component_cycles : List Component → Option GeneError
  unfolding adjacency
  detect_component_cycles cs = cycle_error (search_cycles (adjacency [] cs))

  unfoldable pub validate_named : List Component → GeneError ⊎ List Text → Option GeneError
  unfolding check_dependencies detect_component_cycles
  validate_named cs (inl e) = some e
  validate_named cs (inr names) =
      or_missing (check_dependencies names cs) (detect_component_cycles cs)

  unfoldable pub validate_components : List Component → Option GeneError
  unfolding validate_named check_names
  validate_components cs = validate_named cs (check_names [] cs)

  unfoldable pub validate_gene : Gene → Option GeneError
  unfolding validate_components
  validate_gene g =
      if g.version == 0
      then some invalid_version
      else if is_empty g.guide
      then some empty_guide
      else if not (has_name g.language valid_languages)
      then some unknown_language
      else if is_empty g.components
      then none
      else validate_components g.components
