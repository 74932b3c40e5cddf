-- ===== src/Scenario/JsonPath.antt =====
-- internal/scenario/jsonpath.go: a scalar of a JSON document, by the names of nested fields, and
-- the check of such paths in internal/lint/varcheck.go. json.Unmarshal and the format of a number
-- are parameters.
pub mod Laws
mod Tests
use octopusgarden.Prelude.{
  [], any, codes, cut_prefix, false, if◌then◌else◌, keys, List, none, Option, some, split, Text,
  text_eq, true, ◌∷◌,
}
use octopusgarden.Scenario.Types.{arr, bool, end, field, Fields, Json, null, num, obj, str}

pub data JsonPathError : Type 0 where
  invalid_path unmarshal_failed not_found not_object not_scalar : JsonPathError

pub data Evaluated : Type 0 where
  value : Text → Evaluated
  failed : JsonPathError → Evaluated

abbrev pub path_prefix : Text
path_prefix = codes "$."

abbrev pub named_keys : List Text → Option (List Text)
named_keys [] = none
named_keys (key ∷ keys) = if text_eq key [] then none else some (key ∷ keys)

abbrev pub keys_behind : Option Text → Option (List Text)
keys_behind none = none
keys_behind (some rest) = named_keys (split b'.' rest)

-- The keys of a path; `none` for errInvalidJSONPath.
unfoldable pub path_keys : Text → Option (List Text)
path_keys path = keys_behind (cut_prefix path path_prefix)

module _ {R : Type 0} where
  unfoldable pub field_of : Text → Fields R → Option (Json R)
  field_of key end = none
  field_of key (field name v fields) = if text_eq name key then some v else field_of key fields

module _ {R : Type 0} (format_number : R → Text) where
  unfoldable pub scalar_to_string : Json R → Evaluated
  scalar_to_string (str s) = value s
  scalar_to_string (num n) = value (format_number n)
  scalar_to_string (bool true) = value (codes "true")
  scalar_to_string (bool false) = value (codes "false")
  scalar_to_string null = value (codes "null")
  scalar_to_string (arr items) = failed not_scalar
  scalar_to_string (obj fields) = failed not_scalar

  unfoldable pub found : (Json R → Evaluated) → Option (Json R) → Evaluated
  found next none = failed not_found
  found next (some v) = next v

  -- `current.(map[string]any)` and the lookup in it; `next` is the rest of the loop.
  unfoldable pub step_into : (Json R → Evaluated) → Text → Json R → Evaluated
  unfolding found
  step_into next key (obj fields) = found next (field_of key fields)
  step_into next key null = failed not_object
  step_into next key (bool b) = failed not_object
  step_into next key (num n) = failed not_object
  step_into next key (str s) = failed not_object
  step_into next key (arr items) = failed not_object

  -- The loop over the keys.
  unfoldable pub walk : List Text → Json R → Evaluated
  unfolding scalar_to_string step_into
  walk [] current = scalar_to_string current
  walk (key ∷ keys) current = step_into (walk keys) key current

  unfoldable pub eval_json_path : (unmarshal : Text → Option (Json R)) → Text → Text → Evaluated
  unfolding walk
  eval_json_path unmarshal body path = elim (path_keys path) [
    | none ↦ failed invalid_path
    | some keys ↦ elim (unmarshal body) [
      | none ↦ failed unmarshal_failed
      | some root ↦ walk keys root
    ]
  ]

pub data SyntaxError : Type 0 where
  missing_prefix empty_field empty_segment : SyntaxError

abbrev pub syntax_behind : Option Text → Option SyntaxError
syntax_behind none = some missing_prefix
syntax_behind (some rest) =
    if text_eq rest []
    then some empty_field
    else if any (λ k. text_eq k []) (split b'.' rest)
    then some empty_segment
    else none

-- validateJSONPathSyntax, `none` for nil.
unfoldable pub validate_json_path_syntax : Text → Option SyntaxError
validate_json_path_syntax path = syntax_behind (cut_prefix path path_prefix)
