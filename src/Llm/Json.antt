-- ===== src/Llm/Json.antt =====
-- ExtractJSON of internal/llm/json.go: the text inside a code fence.
pub mod Laws
mod Tests
use octopusgarden.Prelude.{
  [], after_sub, Bool, codes, false, has_prefix, if◌then◌else◌, none, Option, some, Text,
  trim_space, true, ℕ, ◌∷◌,
}

abbrev pub fence : Text
fence = codes "```"

unfoldable pub before_last_of : ℕ → (here : Bool) → Option Text → Option Text
before_last_of c here (some t) = some (c ∷ t)
before_last_of c true none = some []
before_last_of c false none = none

-- s[:i] for i = strings.LastIndex(s, "```"), with `none` for -1.
unfoldable pub before_last_fence : Text → Option Text
unfolding before_last_of
before_last_fence [] = none
before_last_fence (c ∷ s) = before_last_of c (has_prefix (c ∷ s) fence) (before_last_fence s)

-- The new text, or the old one for an index of -1.
abbrev pub or_same : Option Text → Text → Text
or_same none s = s
or_same (some t) s = t

unfoldable pub without_opening : Text → Text
without_opening s = or_same (after_sub (b'\n' ∷ []) s) s

unfoldable pub without_closing : Text → Text
unfolding before_last_fence
without_closing s = or_same (before_last_fence s) s

unfoldable pub strip_fences : Text → Text
unfolding without_opening without_closing
strip_fences s = if has_prefix s fence then trim_space (without_closing (without_opening s)) else s

unfoldable pub extract_json : Text → Text
unfolding strip_fences
extract_json s = strip_fences (trim_space s)
