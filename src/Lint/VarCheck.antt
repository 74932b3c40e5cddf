-- ===== src/Lint/VarCheck.antt =====
-- internal/lint/varcheck.go: the references `{name}` of a text, and the check that they are
-- captured. The set of captured names is a list; where each was captured is left out.
pub mod Laws
mod Reported
mod Tests
use octopusgarden.Prelude.{
  ◌&&◌, ◌++◌, ◌==◌, [], any, Bool, codes, if◌then◌else◌, leb, List, none, Option, some, Text,
  text_eq, ◌||◌, ℕ, ◌∷◌,
}

pub data Level : Type 0 where
  error warning : Level

pub record Diagnostic : Type 0 where
  pub file : Text
  pub line : ℕ
  pub level : Level
  pub message : Text

-- [a-zA-Z_] and [a-zA-Z0-9_]
abbrev pub is_name_start : ℕ → Bool
is_name_start c = (leb b'a' c && leb c b'z') || (leb b'A' c && leb c b'Z') || (c == b'_')

abbrev pub is_name_char : ℕ → Bool
is_name_char c = is_name_start c || (leb b'0' c && leb c b'9')

-- Where the match of the pattern stands: outside, or behind a brace and the characters of a name.
pub data Match : Type 0 where
  outside : Match
  inside : Text → Match

abbrev pub fits : Text → ℕ → Bool
fits [] c = is_name_start c
fits (d ∷ name) c = is_name_char c

-- The state after a character that ends no match.
unfoldable pub next_match : Match → ℕ → Match
next_match outside c = if c == b'{' then inside [] else outside
next_match (inside name) c =
    if c == b'{' then inside [] else if fits name c then inside (name ++ c ∷ []) else outside

-- The name of the match that a character ends.
unfoldable pub match_end : Match → ℕ → Option Text
match_end outside c = none
match_end (inside []) c = none
match_end (inside (d ∷ name)) c = if c == b'}' then some (d ∷ name) else none

abbrev pub emit : Option Text → List Text → List Text
emit none names = names
emit (some name) names = name ∷ names

-- The matches of varRefPattern, from left to right.
unfoldable pub refs_from : Match → Text → List Text
unfolding next_match match_end
refs_from m [] = []
refs_from m (c ∷ s) = emit (match_end m c) (refs_from (next_match m c) s)

unfoldable pub extract_var_refs : Text → List Text
unfolding refs_from
extract_var_refs s = refs_from outside s

-- cs.has(name)
abbrev pub has : Text → List Text → Bool
has name names = any (λ n. text_eq n name) names

abbrev pub uncaptured : Text → ℕ → Text → Diagnostic
uncaptured file line ref = record {
  file = file;
  line = line;
  level = warning;
  message = codes "variable {" ++ (ref ++ codes "} referenced but never captured");
}

-- The loop; `seen` holds the references before.
unfoldable pub check_from : (seen captured : List Text) → Text → ℕ → List Text → List Diagnostic
check_from seen captured file line [] = []
check_from seen captured file line (ref ∷ refs) =
    let skipped = check_from seen captured file line refs in
    let rest = check_from (ref ∷ seen) captured file line refs in
    if has ref seen
    then skipped
    else if has ref captured
    then rest
    else uncaptured file line ref ∷ rest

unfoldable pub check_var_refs : List Text → List Text → Text → ℕ → List Diagnostic
unfolding check_from
check_var_refs refs captured file line = check_from [] captured file line refs
