-- ===== src/Attractor/Languages/Examples.antt =====
-- What the examples show to a model is what the parser of its answer reads.
use octopusgarden.Prelude.{
  ◌++◌, [], All, arith, Bool-cases, codes, Dict, if◌then◌else◌, inl, inr, insert, is_empty, join,
  lookup-All, map, refl, some, split, Text, trim_space, ◌∷◌, ◌≡◌,
}
use octopusgarden.Attractor.FileParse.{
  extract_file_path, is_unchanged_marker, no_files, normalize_trailing_newline, parse_files,
  parse_files_with_metadata, Parsed, parsed, scan_line, validate_path,
}
use octopusgarden.Attractor.Loop.State.{ScenarioCapabilities}
use octopusgarden.Attractor.Languages.{
  build_grpc_example, build_language_example, example_of, grpc_dockerfile, grpc_proto,
  has_combined_capabilities, lookup_language, select_example_block,
}
use octopusgarden.Attractor.Languages.Templates.{ExampleBlock, language_registry, LanguageTemplate}

-- The files of a block: without an entry file only the Dockerfile, if there is one.
unfoldable pub files_of : ExampleBlock → Dict Text
files_of ex =
    if is_empty ex.entry_file
    then (if is_empty ex.dockerfile then [] else (codes "Dockerfile", ex.dockerfile) ∷ [])
    else (ex.entry_file, ex.entry_content) ∷ (codes "Dockerfile", ex.dockerfile) ∷ []

-- The files that an example is to show.
unfoldable pub example_files : LanguageTemplate → ScenarioCapabilities → Dict Text
unfolding files_of
example_files tmpl caps =
    if has_combined_capabilities caps
    then []
    else if caps.needs_grpc
    then (codes "proto/service.proto", grpc_proto) ∷ (codes "Dockerfile", grpc_dockerfile tmpl) ∷ []
    else files_of (select_example_block tmpl caps)

-- What the parser answers for files whose contents end without a line break.
unfoldable pub reads_as : Dict Text → Parsed (Dict Text)
reads_as [] = no_files
reads_as (f ∷ fs) = parsed (map (λ e. (e.0, e.1 ++ codes "\n")) (f ∷ fs))

abbrev IsReadBlock : ExampleBlock → Type 0
IsReadBlock ex = parse_files (example_of ex) ≡ reads_as (files_of ex)

abbrev IsRead : LanguageTemplate → Type 0
IsRead tmpl =
    IsReadBlock tmpl.http_example
    × IsReadBlock tmpl.cli_example
    × IsReadBlock tmpl.tui_example
    × (parse_files (build_grpc_example tmpl)
        ≡ reads_as (
            (codes "proto/service.proto", grpc_proto)
            ∷ (codes "Dockerfile", grpc_dockerfile tmpl)
            ∷ []))

registry-IsRead : All (λ (e : Text × LanguageTemplate). IsRead e.1) language_registry
unfolding parse_files example_of build_grpc_example parse_files_with_metadata split scan_line
    is_unchanged_marker trim_space extract_file_path validate_path join insert
    normalize_trailing_newline files_of reads_as
registry-IsRead = (
  (refl, refl, refl, refl),
  ((refl, refl, refl, refl), ((refl, refl, refl, refl), ((refl, refl, refl, refl), tt))),
)

parse_files-empty : parse_files [] ≡ no_files
unfolding parse_files parse_files_with_metadata split scan_line is_unchanged_marker trim_space
    extract_file_path
parse_files-empty = refl

select-IsRead :
    (tmpl : LanguageTemplate) (caps : ScenarioCapabilities)
    → IsRead tmpl
    → IsReadBlock (select_example_block tmpl caps)
unfolding select_example_block
select-IsRead tmpl caps (http, cli, tui, grpc) = ground arith

-- For every supported language and all capabilities, the parser of answers reads from the example
-- in the prompt exactly the files that it shows, each with a line break at its end: the entry file
-- and the Dockerfile of the block for the capabilities, the proto file and a Dockerfile for gRPC
-- alone; no file if capabilities are combined, or if the language has no block for them.
pub parse_files-build_language_example :
    (lang : Text) (tmpl : LanguageTemplate) (caps : ScenarioCapabilities)
    → lookup_language lang ≡ some tmpl
    → parse_files (build_language_example tmpl caps) ≡ reads_as (example_files tmpl caps)
unfolding lookup_language build_language_example example_files reads_as
parse_files-build_language_example lang tmpl caps e =
    go (lookup-All IsRead lang _ tmpl registry-IsRead e)
  where
    go :
        IsRead tmpl
        → parse_files (build_language_example tmpl caps) ≡ reads_as (example_files tmpl caps)
    go (http, cli, tui, grpc) = elim (Bool-cases (has_combined_capabilities caps)) [
      | inl combined ↦ rw combined parse_files-empty
      | inr single ↦ elim (Bool-cases caps.needs_grpc) [
        | inl alone ↦ rw (single, alone) grpc
        | inr none_such ↦ rw (single, none_such) (select-IsRead tmpl caps (http, cli, tui, grpc))
      ]
    ]
