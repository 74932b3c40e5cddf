-- ===== src/Scenario/JsonPath/Tests.antt =====
-- Paths into a small document, whose numbers are whole.
use octopusgarden.Prelude.{
  [], All, codes, cut_prefix, List, none, Option, refl, some, split, Text, ℕ, ◌∷◌, ◌≡◌, ◌≢◌,
}
use octopusgarden.Scenario.Types.{end, field, Json, obj, str}
use octopusgarden.Scenario.JsonPath.{
  eval_json_path, field_of, path_keys, validate_json_path_syntax, value,
}
use octopusgarden.Scenario.JsonPath.Laws.{validate_json_path_syntax-path_keys}

abbrev user : Json ℕ
user = obj (field (codes "name") (str (codes "ann")) end)

abbrev document : Json ℕ
document = obj (field (codes "user") user end)

abbrev read_document : Text → Option (Json ℕ)
read_document body = some document

abbrev no_digits : ℕ → Text
no_digits n = []

abbrev user_name : Text
user_name = codes "$.user.name"

reads_name : eval_json_path no_digits read_document [] user_name ≡ value (codes "ann")
unfolding eval_json_path path_keys cut_prefix split field_of
reads_name = refl

keys_of_user_name : path_keys user_name ≡ some (codes "user" ∷ codes "name" ∷ [])
unfolding path_keys cut_prefix split
keys_of_user_name = refl

user_name_is_accepted : validate_json_path_syntax user_name ≡ none
unfolding validate_json_path_syntax cut_prefix split
user_name_is_accepted = refl

validate_json_path_syntax-path_keys_example :
    (names : List Text) × (path_keys user_name ≡ some names) × All (λ (k : Text). k ≢ []) names
validate_json_path_syntax-path_keys_example =
    validate_json_path_syntax-path_keys user_name user_name_is_accepted
