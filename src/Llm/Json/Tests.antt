-- ===== src/Llm/Json/Tests.antt =====
-- An answer in a fence.
use octopusgarden.Prelude.{codes, trim_space, ◌≡◌}
use octopusgarden.Llm.Json.{extract_json}
use octopusgarden.Llm.Json.Laws.{extract_json-fenced, fenced}

extract_json-fenced_example :
    extract_json (fenced (codes "json") (codes "{}\n")) ≡ trim_space (codes "{}\n")
extract_json-fenced_example =
    extract_json-fenced (codes "json") (codes "{}\n")
      ((λ h. cc), ((λ h. cc), ((λ h. cc), ((λ h. cc), tt))))
