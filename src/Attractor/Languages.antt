-- ===== src/Attractor/Languages.antt =====
-- internal/attractor/languages.go, and the examples of prompts.go that are made from it:
-- selectExampleBlock, buildLanguageExample and buildGRPCExample.
pub mod Templates
pub mod Examples
use octopusgarden.Prelude.{
  ◌&&◌, ◌++◌, [], Bool, codes, if◌then◌else◌, is_empty, keys, List, lookup, Option, sort_texts,
  Text, ◌||◌,
}
use octopusgarden.Attractor.Loop.State.{ScenarioCapabilities}
use octopusgarden.Attractor.Languages.Templates.{ExampleBlock, language_registry, LanguageTemplate}

unfoldable pub lookup_language : Text → Option LanguageTemplate
lookup_language lang = lookup lang language_registry

unfoldable pub supported_languages : List Text
supported_languages = sort_texts (keys language_registry)

unfoldable pub select_example_block : LanguageTemplate → ScenarioCapabilities → ExampleBlock
select_example_block tmpl caps =
    if caps.needs_tui
    then tmpl.tui_example
    else if caps.needs_exec
    then tmpl.cli_example
    else tmpl.http_example

-- "=== FILE: %s ===\n%s\n=== END FILE ===\n"
abbrev file_block : Text → Text → Text
file_block path content =
    codes "=== FILE: " ++ (path ++ (codes " ===\n" ++ (content ++ codes "\n=== END FILE ===\n")))

abbrev pub grpc_proto : Text
grpc_proto =
    codes "syntax = \"proto3\";\n"
    ++ codes "package example;\n"
    ++ codes "\n"
    ++ codes "service ExampleService {\n"
    ++ codes "  rpc GetItem (GetItemRequest) returns (Item);\n"
    ++ codes "}\n"
    ++ codes "message GetItemRequest { string id = 1; }\n"
    ++ codes "message Item { string id = 1; string name = 2; }"

abbrev pub grpc_dockerfile : LanguageTemplate → Text
grpc_dockerfile tmpl =
    codes "FROM "
    ++ (tmpl.base_image
        ++ (codes "\n"
            ++ (tmpl.grpc_setup
                ++ (codes "\nWORKDIR /app\nCOPY . .\n"
                    ++ (codes "RUN <compile .proto files to generate stubs>\n"
                        ++ (codes "RUN <install dependencies and build the application>\n"
                            ++ codes "CMD [\"./server\"]"))))))

unfoldable pub build_grpc_example : LanguageTemplate → Text
build_grpc_example tmpl =
    codes "\nEXAMPLE (showing correct format with two files):\n\n"
    ++ (file_block (codes "proto/service.proto") grpc_proto
        ++ file_block (codes "Dockerfile") (grpc_dockerfile tmpl))

-- The example of a template without an entry file has its Dockerfile only.
unfoldable pub example_of : ExampleBlock → Text
example_of ex =
    if is_empty ex.entry_file
    then (if is_empty ex.dockerfile
        then []
        else codes "\nEXAMPLE (showing correct Dockerfile format):\n\n"
          ++ file_block (codes "Dockerfile") ex.dockerfile)
    else codes "\nEXAMPLE (showing correct format with two files):\n\n"
      ++ (file_block ex.entry_file ex.entry_content
          ++ file_block (codes "Dockerfile") ex.dockerfile)

-- Combined capabilities have no example.
unfoldable pub has_combined_capabilities : ScenarioCapabilities → Bool
has_combined_capabilities caps =
    let needs_http = caps.needs_http || caps.needs_browser in
    (needs_http && caps.needs_grpc)
    || (caps.needs_exec && caps.needs_grpc)
    || (caps.needs_tui && caps.needs_exec)
    || (needs_http && caps.needs_exec)

unfoldable pub build_language_example : LanguageTemplate → ScenarioCapabilities → Text
unfolding has_combined_capabilities build_grpc_example example_of select_example_block
build_language_example tmpl caps =
    if has_combined_capabilities caps
    then []
    else if caps.needs_grpc
    then build_grpc_example tmpl
    else example_of (select_example_block tmpl caps)
