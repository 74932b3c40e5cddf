-- ===== src/Attractor/Composed/Infrastructure.antt =====
-- mergeComponentFiles and ensureBuildInfrastructure of attractor.go.
use octopusgarden.Prelude.{
  ◌&&◌, [], codes, copy, Dict, if◌then◌else◌, insert, is_member, List, lookup, none, not, Option,
  some, Text, text_eq, ◌∷◌,
}
use octopusgarden.Attractor.Loop.State.{ScenarioCapabilities}
use octopusgarden.Attractor.Languages.{lookup_language, select_example_block}
use octopusgarden.Attractor.Languages.Templates.{ExampleBlock, LanguageTemplate}
use octopusgarden.Attractor.Toposort.{Component}

-- A nil map has no files.
abbrev pub or_no_files : Option (Dict Text) → Dict Text
or_no_files none = []
or_no_files (some files) = files

-- The files of a component; a missing name has none.
abbrev pub files_at : Text → Dict (Dict Text) → Dict Text
files_at name component_files = or_no_files (lookup name component_files)

unfoldable pub merge_from : Dict Text → List Component → Dict (Dict Text) → Dict Text
merge_from composed [] component_files = composed
merge_from composed (c ∷ cs) component_files =
    merge_from (copy composed (files_at c.name component_files)) cs component_files

unfoldable pub merge_component_files : List Component → Dict (Dict Text) → Dict Text
unfolding merge_from
merge_component_files sorted component_files = merge_from [] sorted component_files

abbrev pub dockerfile_name : Text
dockerfile_name = codes "Dockerfile"

abbrev pub go_mod_name : Text
go_mod_name = codes "go.mod"

unfoldable pub ensure_go_mod : Text → Dict Text → Dict Text
ensure_go_mod language files =
    if text_eq language (codes "go") && not (is_member go_mod_name files)
    then insert go_mod_name (codes "module app\n\ngo 1.25\n") files
    else files

unfoldable pub add_infrastructure :
    Text → ScenarioCapabilities → Option LanguageTemplate → Dict Text → Dict Text
unfolding ensure_go_mod
add_infrastructure language caps none files = files
add_infrastructure language caps (some tmpl) files =
    ensure_go_mod language
      (insert dockerfile_name (ExampleBlock.dockerfile (select_example_block tmpl caps)) files)

unfoldable pub ensure_build_infrastructure : Dict Text → Text → ScenarioCapabilities → Dict Text
unfolding add_infrastructure
ensure_build_infrastructure files language caps =
    if is_member dockerfile_name files
    then files
    else add_infrastructure language caps (lookup_language language) files
