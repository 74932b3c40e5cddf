-- ===== src/Attractor/Feedback.antt =====
-- The feedback that a failed iteration hands on, from internal/attractor/prompts.go: the filter for
-- validation entries, the truncation of long messages, and the filter for build logs. Go measures
-- in bytes, so a text's bytes are counted as its UTF-8 encoding has them.
pub mod Laws
mod Tests
use octopusgarden.Prelude.{
  ◌&&◌, ◌+◌, ◌++◌, ◌-◌, ◌==◌, [], any, Bool, codes, cut_prefix, false, has_prefix, if◌then◌else◌,
  join, leb, length, List, ltb, none, not, Option, some, split, suc, Text, trim_space, true, zero,
  ◌||◌, ℕ, ◌∷◌,
}
use octopusgarden.Attractor.FileParse.{newline}
use octopusgarden.Attractor.Loop.State.{compact, Fidelity, full, standard, unset}

-- The bytes of one code point.
abbrev pub utf8_length : ℕ → ℕ
utf8_length c = if ltb c 0x80 then 1 else if ltb c 0x800 then 2 else if ltb c 0x10000 then 3 else 4

abbrev pub byte_length : Text → ℕ
byte_length [] = 0
byte_length (c ∷ s) = utf8_length c + byte_length s

-- The code points that lie whole in the first `limit` bytes.
unfoldable pub take_bytes : ℕ → Text → Text
take_bytes limit [] = []
take_bytes limit (c ∷ s) =
    let rest = take_bytes (limit - utf8_length c) s in
    if leb (utf8_length c) limit then c ∷ rest else []

-- s[:limit]: the code points that it holds whole, and how many bytes follow of one that the cut
-- splits.
pub record Slice : Type 0 where
  pub whole : Text
  pub split_bytes : ℕ

unfoldable pub slice_bytes : Text → ℕ → Slice
slice_bytes [] limit = record { whole = []; split_bytes = 0 }
slice_bytes (c ∷ s) limit =
    let rest = slice_bytes s (limit - utf8_length c) in
    if leb (utf8_length c) limit
    then record { whole = c ∷ rest.whole; split_bytes = rest.split_bytes }
    else record { whole = []; split_bytes = limit }

-- A slice as a text: Go reads each byte of an incomplete rune as U+FFFD.
unfoldable pub replacements : ℕ → Text
replacements zero = []
replacements (suc n) = 0xFFFD ∷ replacements n

abbrev pub text_of : Slice → Text
text_of cut = cut.whole ++ replacements cut.split_bytes

-- utf8.DecodeLastRuneInString gives RuneError and the size 1 exactly where the text ends with a byte
-- of an incomplete rune; U+FFFD itself has the size 3.
unfoldable pub ends_in_error : Slice → Bool
ends_in_error trimmed = ltb 0 trimmed.split_bytes

-- The loop that takes off the last byte, on fuel: each turn takes off one of the bytes that were
-- split off.
unfoldable pub without_errors : (fuel : ℕ) → Slice → Slice
unfolding ends_in_error
without_errors zero trimmed = trimmed
without_errors (suc fuel) trimmed =
    let next = without_errors fuel (record trimmed { split_bytes = trimmed.split_bytes - 1 }) in
    if ends_in_error trimmed then next else trimmed

unfoldable pub trim_utf8_boundary : Text → ℕ → Text
unfolding slice_bytes without_errors replacements
trim_utf8_boundary s limit =
    if leb (byte_length s) limit
    then s
    else let cut = slice_bytes s limit in text_of (without_errors cut.split_bytes cut)

unfoldable pub truncate_feedback : Text → ℕ → Text
truncate_feedback s limit =
    if leb (byte_length s) limit then s else trim_utf8_boundary s limit ++ codes "\n[truncated]"

abbrev pub observed_standard_limit : ℕ
observed_standard_limit = 500

-- line[:colonIdx+2] and line[colonIdx+2:], with `none` if there is no colon with a space.
unfoldable pub cut_at_colon : Text → Option (Text × Text)
cut_at_colon [] = none
cut_at_colon (c ∷ s) = elim (cut_prefix (c ∷ s) (codes ": ")) [
  | some rest ↦ some (codes ": ", rest)
  | none ↦ elim (cut_at_colon s) [ none ↦ none | some (before, after) ↦ some (c ∷ before, after) ]
]

unfoldable pub truncate_observed_line : Text → ℕ → Text
unfolding cut_at_colon trim_utf8_boundary
truncate_observed_line line max_bytes = elim (cut_at_colon line) [
  | none ↦ line
  | some (before, content) ↦
      if leb (byte_length content) max_bytes
      then line
      else before ++ (trim_utf8_boundary content max_bytes ++ codes "…")
]

abbrev pub step_pass_prefix : Text
step_pass_prefix = codes "  ✓"

abbrev pub step_fail_prefix : Text
step_fail_prefix = codes "  ✗"

abbrev pub is_full : Fidelity → Bool
is_full full = true
is_full standard = false
is_full compact = false
is_full unset = false

abbrev pub is_compact : Fidelity → Bool
is_compact compact = true
is_compact standard = false
is_compact full = false
is_compact unset = false

-- The loop over the lines of an entry that is not filtered with full fidelity.
unfoldable pub filter_lines : (only_summaries in_passing_step : Bool) → List Text → List Text
unfolding truncate_observed_line
filter_lines only_summaries in_passing_step [] = []
filter_lines only_summaries in_passing_step (line ∷ lines) =
    let summary = filter_lines only_summaries false lines in
    let passing = filter_lines only_summaries true lines in
    let same = filter_lines only_summaries in_passing_step lines in
    let failing = in_passing_step && not (has_prefix line step_fail_prefix) in
    if not (has_prefix line (codes " "))
    then line ∷ summary
    else if only_summaries
    then same
    else if has_prefix line step_pass_prefix
    then passing
    else if failing
    then passing
    else (if has_prefix line (codes "    Observed")
        then truncate_observed_line line observed_standard_limit
        else line)
      ∷ summary

unfoldable pub filter_failure_entry : Text → Fidelity → Text
unfolding filter_lines
filter_failure_entry entry fidelity =
    if is_full fidelity
    then entry
    else join newline (filter_lines (is_compact fidelity) false (split newline entry))

abbrev pub build_log_noise_prefixes : List Text
build_log_noise_prefixes =
    codes "fetch "
    ∷ codes "OK:"
    ∷ codes "Get:"
    ∷ codes "Hit:"
    ∷ codes "Reading "
    ∷ codes "Building "
    ∷ codes "Selecting "
    ∷ codes "Preparing "
    ∷ codes "Unpacking "
    ∷ codes "Setting up "
    ∷ codes "Processing "
    ∷ codes "Downloading "
    ∷ codes "Installing "
    ∷ codes "  Downloading "
    ∷ codes "  Using "
    ∷ []

-- A counter such as `(1/47)` at the start.
unfoldable pub is_progress_counter : Text → Bool
unfolding take_bytes
is_progress_counter [] = false
is_progress_counter (c ∷ []) = false
is_progress_counter (c ∷ d ∷ s) =
    ltb 2 (byte_length (c ∷ d ∷ s))
    && (c == b'(')
    && leb b'0' d
    && leb d b'9'
    && any (λ x. x == b'/') (take_bytes 10 (c ∷ d ∷ s))

unfoldable pub is_noise_line : Text → Bool
unfolding is_progress_counter
is_noise_line trimmed =
    any (has_prefix trimmed) build_log_noise_prefixes || is_progress_counter trimmed

-- The loop over the lines of the log, from the one with the index `i` on.
unfoldable pub filter_log : (filter_end i : ℕ) → List Text → List Text
filter_log filter_end i [] = []
filter_log filter_end i (line ∷ lines) =
    let rest = filter_log filter_end (i + 1) lines in
    if leb filter_end i
    then line ∷ rest
    else if is_noise_line (trim_space line)
    then rest
    else line ∷ rest

abbrev pub build_log_marker : Text
build_log_marker = codes "\nBuild log:\n"

abbrev pub preserve_tail : ℕ
preserve_tail = 50

-- The parts for a text with one more character, if the marker does not stand at its start.
unfoldable pub log_at : Option Text → ℕ → Option (Text × Text) → Option (Text × Text)
log_at (some rest) c found = some ([], rest)
log_at none c none = none
log_at none c (some (before, after)) = some (c ∷ before, after)

-- The parts before and after the first build log marker.
unfoldable pub cut_at_log : Text → Option (Text × Text)
unfolding log_at
cut_at_log [] = none
cut_at_log (c ∷ s) = log_at (cut_prefix (c ∷ s) build_log_marker) c (cut_at_log s)

unfoldable pub strip_log : Text → Option (Text × Text) → Text
unfolding filter_log
strip_log err_msg none = err_msg
strip_log err_msg (some (before, log_section)) =
    let lines = split newline log_section in
    if leb (length lines) preserve_tail
    then err_msg
    else before
      ++ (build_log_marker ++ join newline (filter_log (length lines - preserve_tail) 0 lines))

unfoldable pub strip_build_noise : Text → Text
unfolding cut_at_log strip_log
strip_build_noise err_msg = strip_log err_msg (cut_at_log err_msg)
