-- ===== src/Attractor/Composed/Files.antt =====
-- What the composed file set holds.
use octopusgarden.Prelude.{
  ◌&&◌, [], All, ap, arith, codes, copy, Dict, eq_of_text_eq, HasDistinctKeys, if◌then◌else◌, inl,
  inr, insert, is_empty, is_member, List, lookup, lookup-All, lookup-insert, none, not, Option,
  Option-cases, refl, some, sym, Text, text_eq, ◌∙◌, ◌∷◌, ◌≡◌,
}
use octopusgarden.Attractor.Loop.State.{ScenarioCapabilities}
use octopusgarden.Attractor.FileParse.Merge.{lookup-copy, first_of, first_of-none}
use octopusgarden.Attractor.Toposort.{Component}
use octopusgarden.Attractor.Languages.{lookup_language, select_example_block}
use octopusgarden.Attractor.Languages.Templates.{ExampleBlock, language_registry, LanguageTemplate}
use octopusgarden.Attractor.Composed.Infrastructure.{
  add_infrastructure, dockerfile_name, ensure_build_infrastructure, ensure_go_mod, files_at,
  go_mod_name, merge_component_files, merge_from, or_no_files,
}

-- The content that the last component with a file at the path gave it.
unfoldable pub last_holding : Text → List Component → Dict (Dict Text) → Option Text
last_holding path [] by_component = none
last_holding path (c ∷ cs) by_component =
    first_of (last_holding path cs by_component) (lookup path (files_at c.name by_component))

first_of_assoc :
    {V : Type 0} (a b c : Option V) → first_of a (first_of b c) ≡ first_of (first_of a b) c
first_of_assoc none b c = refl
first_of_assoc (some a) b c = refl

or_no_files-HasDistinctKeys :
    (o : Option (Dict Text))
    → ((files : Dict Text) → o ≡ some files → HasDistinctKeys files)
    → HasDistinctKeys (or_no_files o)
or_no_files-HasDistinctKeys none h = tt
or_no_files-HasDistinctKeys (some files) h = h files refl

files_at-HasDistinctKeys :
    (name : Text) (by_component : Dict (Dict Text))
    → All (λ (e : Text × Dict Text). HasDistinctKeys e.1) by_component
    → HasDistinctKeys (files_at name by_component)
files_at-HasDistinctKeys name by_component h =
    or_no_files-HasDistinctKeys (lookup name by_component)
      (λ files. lookup-All HasDistinctKeys name by_component files h)

lookup-merge_from :
    (path : Text) (composed : Dict Text) (sorted : List Component) (by_component : Dict (Dict Text))
    → All (λ (e : Text × Dict Text). HasDistinctKeys e.1) by_component
    → lookup path (merge_from composed sorted by_component)
      ≡ first_of (last_holding path sorted by_component) (lookup path composed)
unfolding merge_from last_holding
lookup-merge_from path composed [] by_component h = refl
lookup-merge_from path composed (c ∷ cs) by_component h =
    lookup-merge_from path (copy composed (files_at c.name by_component)) cs by_component h
    ∙ ap (first_of (last_holding path cs by_component)) (
        lookup-copy path composed (files_at c.name by_component)
          (files_at-HasDistinctKeys c.name by_component h))
    ∙ first_of_assoc (last_holding path cs by_component)
        (lookup path (files_at c.name by_component)) (lookup path composed)

-- At each path, the merge of the files of the components holds what the last component in the
-- order that has a file there gave it, and nothing if none has; the paths of one component are
-- distinct.
pub lookup-merge_component_files :
    (path : Text) (sorted : List Component) (by_component : Dict (Dict Text))
    → All (λ (e : Text × Dict Text). HasDistinctKeys e.1) by_component
    → lookup path (merge_component_files sorted by_component)
      ≡ last_holding path sorted by_component
unfolding merge_component_files lookup
lookup-merge_component_files path sorted by_component h =
    lookup-merge_from path [] sorted by_component h
    ∙ first_of-none (last_holding path sorted by_component)

-- What is added at a path to a file set without a Dockerfile, for a language with a template.
unfoldable pub synthesized :
    Text → ScenarioCapabilities → Option LanguageTemplate → Text → Option Text
synthesized language caps none path = none
synthesized language caps (some tmpl) path =
    if text_eq dockerfile_name path
    then some (ExampleBlock.dockerfile (select_example_block tmpl caps))
    else if text_eq go_mod_name path && text_eq language (codes "go")
    then some (codes "module app\n\ngo 1.25\n")
    else none

lookup-add_infrastructure :
    (path : Text) (files : Dict Text) (language : Text) (caps : ScenarioCapabilities)
    (t : Option LanguageTemplate)
    → lookup dockerfile_name files ≡ none
    → lookup path (add_infrastructure language caps t files)
      ≡ first_of (lookup path files) (synthesized language caps t path)
unfolding add_infrastructure synthesized ensure_go_mod
lookup-add_infrastructure path files language caps none h = sym (first_of-none (lookup path files))
lookup-add_infrastructure path files language caps (some tmpl) h = ground (
  arith,
  h,
  lookup-insert dockerfile_name path (ExampleBlock.dockerfile (select_example_block tmpl caps))
      files,
  lookup-insert dockerfile_name go_mod_name
      (ExampleBlock.dockerfile (select_example_block tmpl caps)) files,
  lookup-insert go_mod_name path (codes "module app\n\ngo 1.25\n")
      (insert dockerfile_name (ExampleBlock.dockerfile (select_example_block tmpl caps)) files),
  eq_of_text_eq dockerfile_name path,
  eq_of_text_eq go_mod_name path,
)

-- The build infrastructure changes no file of a component. It is added only where there is no
-- Dockerfile and the language has a template: the Dockerfile of its block for the capabilities, and
-- for Go a go.mod if there is none.
pub lookup-ensure_build_infrastructure :
    (path : Text) (files : Dict Text) (language : Text) (caps : ScenarioCapabilities)
    → lookup path (ensure_build_infrastructure files language caps)
      ≡ first_of (lookup path files) (
          if is_member dockerfile_name files
          then none
          else synthesized language caps (lookup_language language) path)
unfolding ensure_build_infrastructure
lookup-ensure_build_infrastructure path files language caps =
    elim (Option-cases (lookup dockerfile_name files)) [
      | inl missing ↦
          rw (missing, is_member)
            (lookup-add_infrastructure path files language caps (lookup_language language) missing)
      | inr (d, there) ↦ rw (there, is_member) (sym (first_of-none (lookup path files)))
    ]

abbrev IsSynthesized : LanguageTemplate → Type 0
IsSynthesized tmpl =
    (caps : ScenarioCapabilities)
    → is_empty (ExampleBlock.dockerfile (select_example_block tmpl caps))
      ≡ (caps.needs_tui && not (text_eq tmpl.name (codes "Go")))

registry-IsSynthesized : All (λ (e : Text × LanguageTemplate). IsSynthesized e.1) language_registry
unfolding select_example_block
registry-IsSynthesized = (
  λ caps. ground arith,
  (λ caps. ground arith, (λ caps. ground arith, (λ caps. ground arith, tt))),
)

-- The Dockerfile that is put in for a supported language is empty exactly for a program with a
-- terminal interface in another language than Go.
pub dockerfile-empty :
    (lang : Text) (tmpl : LanguageTemplate) (caps : ScenarioCapabilities)
    → lookup_language lang ≡ some tmpl
    → is_empty (ExampleBlock.dockerfile (select_example_block tmpl caps))
      ≡ (caps.needs_tui && not (text_eq tmpl.name (codes "Go")))
unfolding lookup_language
dockerfile-empty lang tmpl caps e =
    lookup-All IsSynthesized lang language_registry tmpl registry-IsSynthesized e caps
