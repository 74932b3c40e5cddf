-- ===== src/Spec/Summary.antt =====
-- internal/spec/summary.go: the summaries of a specification, and which of them is sent for a budget.
-- `to_lower` is strings.ToLower. A budget is not negative. What is selected are bytes, since the last
-- resort may cut a rune in two.
pub mod Selected
mod Tests
use octopusgarden.Prelude.{
  ◌%◌, ◌&&◌, ◌*◌, ◌+◌, ◌++◌, ◌/◌, [], after_sub, any, before_sub, Bool, codes, contains, Dict, drop,
  has_prefix, if◌then◌else◌, insert, is_empty, join, leb, List, lookup, ltb, none, not, Option,
  some, split, take, Text, text_eq, trim_space, ◌||◌, ℕ, ◌∷◌,
}
use octopusgarden.Attractor.Feedback.{byte_length}
use octopusgarden.Spec.Parser.{Section, Spec}

pub record SectionSummary : Type 0 where
  pub heading : Text
  pub summary : Text

pub record SummarizedSpec : Type 0 where
  pub spec : Spec
  pub sections : List SectionSummary
  pub outline : Text
  pub abstract_text : Text

abbrev pub estimate_tokens : Text → ℕ
estimate_tokens text = byte_length text / 4

unfoldable pub join_non_empty : Text → Text → Text
join_non_empty a [] = a
join_non_empty [] (c ∷ b) = c ∷ b
join_non_empty (d ∷ a) (c ∷ b) = (d ∷ a) ++ (codes "\n\n" ++ (c ∷ b))

unfoldable pub build_summary_map : Dict Text → List SectionSummary → Dict Text
build_summary_map m [] = m
build_summary_map m (ss ∷ summaries) = build_summary_map (insert ss.heading ss.summary m) summaries

-- "## %s\n%s\n\n"
abbrev pub section_text : Text → Text → Text
section_text heading content = codes "## " ++ (heading ++ (codes "\n" ++ (content ++ codes "\n\n")))

abbrev pub is_matched : Text → List Text → Bool
is_matched heading matched = any (λ h. text_eq h heading) matched

abbrev pub summary_or_omitted : Option Text → Text
summary_or_omitted none = codes "[section content omitted]"
summary_or_omitted (some summary) = summary

unfoldable pub expanded_text : (matched : List Text) → Dict Text → List Section → Text
expanded_text matched summaries [] = []
expanded_text matched summaries (sec ∷ sections) =
    (if is_matched sec.heading matched
      then section_text sec.heading sec.content
      else section_text sec.heading (summary_or_omitted (lookup sec.heading summaries)))
    ++ expanded_text matched summaries sections

unfoldable pub matched_text : (matched : List Text) → List Section → Text
matched_text matched [] = []
matched_text matched (sec ∷ sections) =
    let rest = matched_text matched sections in
    if is_matched sec.heading matched then section_text sec.heading sec.content ++ rest else rest

abbrev pub truncation_notice : Text
truncation_notice = codes "\n\n[... truncated to fit context budget ...]"

abbrev pub is_within : Text → ℕ → Bool
is_within text budget = leb (estimate_tokens text) budget

-- The bytes of a string that Go keeps for a code point, and for a text.
unfoldable pub utf8_of : ℕ → List ℕ
utf8_of c =
    if ltb c 0x80
    then c ∷ []
    else if ltb c 0x800
    then (0xC0 + c / 64) ∷ (0x80 + c % 64) ∷ []
    else if ltb c 0x10000
    then (0xE0 + c / 4096) ∷ (0x80 + c / 64 % 64) ∷ (0x80 + c % 64) ∷ []
    else (0xF0 + c / 262144) ∷ (0x80 + c / 4096 % 64) ∷ (0x80 + c / 64 % 64) ∷ (0x80 + c % 64) ∷ []

unfoldable pub utf8 : Text → List ℕ
unfolding utf8_of
utf8 [] = []
utf8 (c ∷ s) = utf8_of c ++ utf8 s

unfoldable pub last_resort : Text → ℕ → List ℕ
unfolding utf8
last_resort raw budget =
    let cutoff = budget * 4 in
    if ltb cutoff (byte_length raw)
    then take cutoff (utf8 raw) ++ utf8 truncation_notice
    else utf8 raw

-- The choice between the full text, the expanded summaries, the expanded outline, the expanded
-- abstract, and what is left.
unfoldable pub select_from :
    SummarizedSpec → ℕ → (expanded outline_expanded abstract_expanded : Text) → List ℕ
unfolding last_resort utf8
select_from ss budget expanded outline_expanded abstract_expanded =
    if is_within ss.spec.raw_content budget
    then utf8 ss.spec.raw_content
    else if is_within expanded budget
    then utf8 expanded
    else if not (is_empty ss.outline) && is_within outline_expanded budget
    then utf8 outline_expanded
    else if not (is_empty ss.abstract_text) && is_within abstract_expanded budget
    then utf8 abstract_expanded
    else if not (is_empty ss.abstract_text)
    then utf8 ss.abstract_text
    else last_resort ss.spec.raw_content budget

module _ (to_lower : Text → Text) where
  abbrev pub is_matching : Text → Text → Bool
  is_matching heading failure =
      contains (to_lower failure) (to_lower heading)
      || contains (to_lower heading) (to_lower failure)

  -- The headings in `matched`.
  unfoldable pub match_failure_sections : List Section → List Text → List Text
  match_failure_sections [] failures = []
  match_failure_sections (sec ∷ sections) failures =
      let rest = match_failure_sections sections failures in
      if any (is_matching sec.heading) failures then sec.heading ∷ rest else rest

  unfoldable pub expand_failure_sections : Spec → List SectionSummary → List Text → Text
  unfolding expanded_text build_summary_map match_failure_sections
  expand_failure_sections s summaries failures = trim_space (
      expanded_text (match_failure_sections s.sections failures) (build_summary_map [] summaries)
        s.sections)

  unfoldable pub expand_failure_sections_only : Spec → List Text → Text
  unfolding matched_text match_failure_sections
  expand_failure_sections_only s failures =
      trim_space (matched_text (match_failure_sections s.sections failures) s.sections)

  unfoldable pub select_content : SummarizedSpec → ℕ → List Text → List ℕ
  unfolding select_from expand_failure_sections expand_failure_sections_only join_non_empty
  select_content ss budget failures =
      let only = expand_failure_sections_only ss.spec failures in
      select_from ss budget (expand_failure_sections ss.spec ss.sections failures)
        (join_non_empty ss.outline only) (join_non_empty ss.abstract_text only)

-- strings.Cut twice: what stands between the delimiters, or behind the first.
abbrev pub until_delim : Text → Option Text → Text
until_delim after none = after
until_delim after (some before) = before

abbrev pub block_behind : Option Text → Text → Text
block_behind none end_delim = []
block_behind (some after) end_delim = until_delim after (before_sub end_delim after)

unfoldable pub extract_block : Text → (start_delim end_delim : Text) → Text
extract_block text start_delim end_delim = block_behind (after_sub start_delim text) end_delim

-- The summary that is being read, and its lines so far.
abbrev pub finished : Text → List Text → SectionSummary
finished heading content_lines = record {
  heading = heading;
  summary = trim_space (join b'\n' content_lines);
}

unfoldable pub summaries_behind :
    Text → (content_lines : List Text) → List Text → List SectionSummary
summaries_behind heading content_lines [] = finished heading content_lines ∷ []
summaries_behind heading content_lines (line ∷ lines) =
    let next = summaries_behind (trim_space (drop 4 (trim_space line))) [] lines in
    let more = summaries_behind heading (content_lines ++ line ∷ []) lines in
    if has_prefix (trim_space line) (codes "### ")
    then finished heading content_lines ∷ next
    else more

unfoldable pub summaries_of : List Text → List SectionSummary
unfolding summaries_behind
summaries_of [] = []
summaries_of (line ∷ lines) =
    let first = summaries_behind (trim_space (drop 4 (trim_space line))) [] lines in
    let later = summaries_of lines in
    if has_prefix (trim_space line) (codes "### ") then first else later

unfoldable pub parse_section_summaries : Text → List SectionSummary
unfolding summaries_of
parse_section_summaries block = summaries_of (split b'\n' block)

abbrev pub abstract_of : Option Text → Text
abstract_of none = []
abstract_of (some after) = trim_space after

unfoldable pub parse_summarize_response : Spec → Text → SummarizedSpec
unfolding extract_block parse_section_summaries
parse_summarize_response s response =
    let sections_block =
      extract_block response (codes "=== SECTION SUMMARIES ===") (codes "=== OUTLINE ===") in
    record {
      spec = s;
      sections = if is_empty sections_block then [] else parse_section_summaries sections_block;
      outline =
          trim_space (extract_block response (codes "=== OUTLINE ===") (codes "=== ABSTRACT ==="));
      abstract_text = abstract_of (after_sub (codes "=== ABSTRACT ===") response);
    }
