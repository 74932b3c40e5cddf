-- ===== src/Scenario/Variables.antt =====
-- Captured variables: applyCaptures, resolveCapture and substituteVars of
-- internal/scenario/runner.go, and the variable references of internal/lint/varcheck.go.
pub mod Laws
mod Tests
use octopusgarden.Prelude.{
  ◌++◌, [], Dict, if◌then◌else◌, insert, List, lookup, none, not, Option, replace_all, some, Text,
  text_eq, trim_space, ◌∷◌,
}
use octopusgarden.Scenario.Types.{Capture, StepOutput}
use octopusgarden.Scenario.JsonPath.{Evaluated, failed, JsonPathError, value}

-- A placeholder `{name}`.
abbrev pub placeholder : Text → Text
placeholder name = b'{' ∷ (name ++ b'}' ∷ [])

-- `for name, val := range vars`, in the order of the list.
unfoldable pub substitute_vars : Text → Dict Text → Text
substitute_vars s [] = s
substitute_vars s ((name, val) ∷ vars) = substitute_vars (replace_all (placeholder name) val s) vars

pub data CaptureError : Type 0 where
  path_error : JsonPathError → CaptureError
  no_capture : CaptureError

-- The value of a capture, or its error.
pub data Resolved : Type 0 where
  resolved : Text → Resolved
  unresolved : CaptureError → Resolved

abbrev pub of_path : Evaluated → Resolved
of_path (value s) = resolved s
of_path (failed e) = unresolved (path_error e)

-- A missing key of a map is the empty text.
abbrev pub text_at : Text → Dict Text → Text
text_at k m = elim (lookup k m) [ none ↦ [] | some v ↦ v ]

-- `eval` is evalJSONPath.
module _ (eval : Text → Text → Evaluated) where
  unfoldable pub resolve_capture : Capture → StepOutput → Resolved
  resolve_capture c output =
      if not (text_eq c.source [])
      then (if not (text_eq c.json_path [])
          then of_path (eval (text_at c.source output.capture_sources) c.json_path)
          else resolved (trim_space (text_at c.source output.capture_sources)))
      else if not (text_eq c.json_path [])
      then of_path (eval output.capture_body c.json_path)
      else unresolved no_capture

  -- The variables are changed in place up to the first error.
  unfoldable pub captured :
      Resolved
      → Text
      → (Dict Text → Dict Text × Option CaptureError)
      → Dict Text
      → Dict Text × Option CaptureError
  captured (resolved v) name next vars = next (insert name v vars)
  captured (unresolved e) name next vars = (vars, some e)

  unfoldable pub apply_captures :
      List Capture → StepOutput → Dict Text → Dict Text × Option CaptureError
  unfolding captured
  apply_captures [] output vars = (vars, none)
  apply_captures (c ∷ captures) output vars =
      captured (resolve_capture c output) c.name (apply_captures captures output) vars
