-- ===== src/Spec/Parser.antt =====
-- internal/spec/parser.go and types.go: the headings, sections and the test command of a
-- specification. `to_lower` is strings.ToLower, and reading files is left out.
pub mod Headings
pub mod Slices
mod Tests
use octopusgarden.Prelude.{
  ◌-◌, ◌==◌, [], Bool, codes, drop, false, has_prefix, if◌then◌else◌, is_empty, join, leb, length,
  List, ltb, none, not, Option, replace_all, some, split, suc, take, Text, trim_right, trim_space,
  ◌||◌, ℕ, ◌∷◌,
}

pub record Section : Type 0 where
  pub heading : Text
  pub level : ℕ
  pub content : Text

pub record Spec : Type 0 where
  pub title : Text
  pub description : Text
  pub test_command : Text
  pub sections : List Section
  pub raw_content : Text

-- The characters '#' at the start of a line, and what follows.
unfoldable pub hashes : Text → ℕ × Text
hashes [] = (0, [])
hashes (c ∷ s) = let (n, rest) = hashes s in if c == b'#' then (suc n, rest) else (0, c ∷ s)

-- The text behind the hashes, which a space precedes.
unfoldable pub heading_text : Text → Option Text
heading_text [] = none
heading_text (c ∷ s) =
    let text = trim_space (c ∷ s) in
    if c == b' ' then (if is_empty text then none else some text) else none

unfoldable pub leveled : ℕ → Option Text → Option (ℕ × Text)
leveled level none = none
leveled level (some text) = some (level, text)

-- `none` for level 0: `(0, "")`.
unfoldable pub heading_of : ℕ × Text → Option (ℕ × Text)
unfolding heading_text leveled
heading_of (level, rest) =
    if (level == 0) || ltb 6 level then none else leveled level (heading_text rest)

unfoldable pub parse_heading : Text → Option (ℕ × Text)
unfolding hashes heading_of
parse_heading line = heading_of (hashes (trim_space line))

-- strings.ReplaceAll(raw, "\r\n", "\n")
abbrev pub normalize : Text → Text
normalize raw = replace_all (b'\r' ∷ b'\n' ∷ []) (b'\n' ∷ []) raw

abbrev pub is_newline : ℕ → Bool
is_newline c = c == b'\n'

unfoldable pub lines_of : Text → List Text
lines_of normalized = split b'\n' (trim_right is_newline normalized)

-- A line that starts or ends a fenced block.
abbrev pub is_fence : Text → Bool
is_fence line =
    has_prefix (trim_space line) (codes "```") || has_prefix (trim_space line) (codes "~~~")

-- heading: its level, its text, and the lines behind it.
pub record Heading : Type 0 where
  pub level : ℕ
  pub text : Text
  pub line : ℕ

abbrev pub noted : ℕ → Option (ℕ × Text) → List Heading → List Heading
noted i none headings = headings
noted i (some (level, text)) headings = record { level = level; text = text; line = i } ∷ headings

-- The first pass, from line i, inside or outside a fenced block.
unfoldable pub find_headings : (in_fenced_block : Bool) → (i : ℕ) → List Text → List Heading
find_headings in_fenced_block i [] = []
find_headings in_fenced_block i (line ∷ lines) =
    let inside = if is_fence line then not in_fenced_block else in_fenced_block in
    let rest = find_headings inside (suc i) lines in
    if inside then rest else noted i (parse_heading line) rest

-- lines[start:end]
abbrev pub slice : List Text → ℕ → ℕ → List Text
slice lines start end = take (end - start) (drop start lines)

unfoldable pub collect_content : List Text → ℕ → ℕ → Text
collect_content lines start end =
    if leb end start then [] else trim_space (join b'\n' (slice lines start end))

-- The line of the next heading of the same or a higher level, or the end of the lines.
unfoldable pub content_end : ℕ → List Heading → ℕ → ℕ
content_end level [] end = end
content_end level (h ∷ headings) end =
    let later = content_end level headings end in if leb h.level level then h.line else later

unfoldable pub sections_of : List Text → List Heading → List Section
unfolding content_end collect_content
sections_of lines [] = []
sections_of lines (h ∷ headings) =
    record {
      heading = h.text;
      level = h.level;
      content = collect_content lines (suc h.line) (content_end h.level headings (length lines));
    }
    ∷ sections_of lines headings

-- The line of the second heading, or the end of the lines.
abbrev pub description_end : List Heading → ℕ → ℕ
description_end [] end = end
description_end (h ∷ headings) end = h.line

module _ (to_lower : Text → Text) where
  -- trimmed[len("test-command:"):] counts bytes; `drop` counts characters, which are as many in a line
  -- whose lower-case form starts with the key.
  unfoldable pub extract_test_command : List Text → Text
  extract_test_command [] = []
  extract_test_command (line ∷ lines) =
      let later = extract_test_command lines in
      if has_prefix (to_lower (trim_space line)) (codes "test-command:")
      then trim_space (drop 13 (trim_space line))
      else later

  unfoldable pub build_spec : (raw_content : Text) → List Text → List Heading → Spec
  unfolding extract_test_command sections_of collect_content
  build_spec raw_content lines [] = record {
    title = [];
    description = [];
    test_command = [];
    sections = [];
    raw_content = raw_content;
  }
  build_spec raw_content lines (h ∷ headings) =
      let end = description_end headings (length lines) in
      record {
        title = h.text;
        description = collect_content lines (suc h.line) end;
        test_command = extract_test_command (slice lines (suc h.line) end);
        sections = sections_of lines (h ∷ headings);
        raw_content = raw_content;
      }

  -- `none` for errEmptySpec.
  unfoldable pub parse_spec : Text → Option Spec
  unfolding build_spec find_headings lines_of
  parse_spec raw =
      if is_empty (trim_space raw)
      then none
      else (let lines = lines_of (normalize raw) in
          some (build_spec (trim_space (normalize raw)) lines (find_headings false 0 lines)))
