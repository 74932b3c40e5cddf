-- ===== src/Attractor/FileParse.antt =====
-- internal/attractor/fileparse.go: the blocks `=== FILE: path === … === END FILE ===` of an LLM's
-- output. filepath.Clean is modelled for Unix paths.
pub mod Paths
pub mod Merge
pub mod Headers
mod Tests
use mathlib.Core.List.{reverse}
use octopusgarden.Prelude.{
  ◌&&◌, ◌++◌, ◌-◌, ◌==◌, [], any, Bool, codes, copy, Dict, drop, false, has_prefix, has_suffix,
  if◌then◌else◌, insert, join, length, List, ltb, none, not, Option, some, split, take, Text,
  text_eq, trim_right, trim_space, ◌||◌, ℕ, ◌∷◌,
}

abbrev pub newline : ℕ
newline = 10

abbrev pub slash : ℕ
slash = b'/'

abbrev pub file_prefix : Text
file_prefix = codes "=== FILE: "

abbrev pub file_suffix : Text
file_suffix = codes " ==="

abbrev pub file_end : Text
file_end = codes "=== END FILE ==="

abbrev pub unchanged_prefix : Text
unchanged_prefix = codes "=== UNCHANGED: "

abbrev pub unchanged_suffix : Text
unchanged_suffix = codes " ==="

abbrev pub dot : Text
dot = codes "."

abbrev pub dot_dot : Text
dot_dot = codes ".."

-- What a call does: it returns, returns one of the two errors, or panics.
pub data Parsed {ℓ} (A : Type ℓ) : Type ℓ where
  parsed : A → Parsed A
  no_files path_traversal panics : Parsed A

pub record ParseResult : Type 0 where
  pub files : Dict Text
  pub dropped_files : List Text
  pub truncated : Bool

-- A component `..` after the ones kept so far, the last of which is the first of `kept`.
unfoldable pub climb : Bool → List Text → Text → List Text
climb rooted [] p = if rooted then [] else p ∷ []
climb rooted (k ∷ ks) p = if text_eq k dot_dot then p ∷ k ∷ ks else ks

unfoldable pub clean_parts : Bool → List Text → List Text → List Text
unfolding climb
clean_parts rooted kept [] = kept
clean_parts rooted kept (p ∷ ps) =
    clean_parts rooted
      (if text_eq p [] || text_eq p dot
        then kept
        else if text_eq p dot_dot
        then climb rooted kept p
        else p ∷ kept)
      ps

-- filepath.Clean
unfoldable pub clean : Text → Text
unfolding clean_parts
clean path =
    let rooted = has_prefix path (slash ∷ []) in
    let body = join slash (reverse (clean_parts rooted [] (split slash path))) in
    if rooted then slash ∷ body else if text_eq body [] then dot else body

-- `true` if the path is accepted, `false` for errPathTraversal.
unfoldable pub validate_path : Text → Bool
unfolding clean
validate_path path =
    if has_prefix path (slash ∷ [])
    then false
    else not (any (λ p. text_eq p dot_dot) (split slash (clean path)))

unfoldable pub normalize_trailing_newline : Text → Text
normalize_trailing_newline s =
    let t = trim_right (λ c. c == newline) s in
    if text_eq t [] then newline ∷ [] else t ++ newline ∷ []

-- A header's path; `none` if the line is no header. The slice panics where the prefix and the
-- suffix overlap.
unfoldable pub extract_file_path : Text → Parsed (Option Text)
extract_file_path trimmed =
    if not (has_prefix trimmed file_prefix) || not (has_suffix trimmed file_suffix)
    then parsed none
    else if ltb (length trimmed - length file_suffix) (length file_prefix)
    then panics
    else let path =
        trim_space
          (drop (length file_prefix) (take (length trimmed - length file_suffix) trimmed)) in
      if text_eq path [] then parsed none else parsed (some path)

unfoldable pub is_unchanged_marker : Text → Bool
is_unchanged_marker trimmed =
    has_prefix trimmed unchanged_prefix && has_suffix trimmed unchanged_suffix

-- The variables of the loop. An empty path means that no block is open.
pub record Scan : Type 0 where
  pub files : Dict Text
  pub dropped : List Text
  pub current_path : Text
  pub current_content : Text

-- A line that opens a block at `path`.
open_block : Scan → Text → Parsed Scan
open_block s path =
    if not (validate_path path)
    then path_traversal
    else parsed (record s {
      dropped = if text_eq s.current_path [] then s.dropped else s.dropped ++ s.current_path ∷ [];
      current_path = path;
      current_content = [];
    })

-- A line that is no header.
plain_line : Scan → Text → Text → Scan
plain_line s line trimmed =
    if text_eq trimmed file_end && not (text_eq s.current_path [])
    then record s {
      files = insert s.current_path (normalize_trailing_newline s.current_content) s.files;
      current_path = [];
      current_content = [];
    }
    else if not (text_eq s.current_path [])
    then record s { current_content = s.current_content ++ (line ++ newline ∷ []) }
    else s

unfoldable pub scan_line : Scan → Text → Parsed Scan
unfolding open_block plain_line
scan_line s line =
    let trimmed = trim_space line in
    if text_eq s.current_path [] && is_unchanged_marker trimmed
    then parsed s
    else elim (extract_file_path trimmed) [
      | parsed none ↦ parsed (plain_line s line trimmed)
      | parsed (some path) ↦ open_block s path
      | no_files ↦ no_files
      | path_traversal ↦ path_traversal
      | panics ↦ panics
    ]

unfoldable pub scan_lines : Scan → List Text → Parsed Scan
scan_lines s [] = parsed s
scan_lines s (line ∷ lines) = elim (scan_line s line) [
  | parsed s' ↦ scan_lines s' lines
  | no_files ↦ no_files
  | path_traversal ↦ path_traversal
  | panics ↦ panics
]

abbrev pub no_scan : Scan
no_scan = record { files = []; dropped = []; current_path = []; current_content = [] }

finish : Scan → Parsed ParseResult
finish s =
    let truncated = not (text_eq s.current_path []) in
    elim s.files [
      | [] ↦ no_files
      | f ∷ fs ↦ parsed (record {
        files = f ∷ fs;
        dropped_files = if truncated then s.dropped ++ s.current_path ∷ [] else s.dropped;
        truncated = truncated;
      })
    ]

unfoldable pub parse_files_with_metadata : Text → Parsed ParseResult
unfolding scan_lines finish
parse_files_with_metadata output = elim (scan_lines no_scan (split newline output)) [
  | parsed s ↦ finish s
  | no_files ↦ no_files
  | path_traversal ↦ path_traversal
  | panics ↦ panics
]

unfoldable pub parse_files : Text → Parsed (Dict Text)
parse_files output = elim (parse_files_with_metadata output) [
  | parsed result ↦ parsed result.files
  | no_files ↦ no_files
  | path_traversal ↦ path_traversal
  | panics ↦ panics
]

-- The maps are copied into a new one, the previous files first.
unfoldable pub merge_files : Dict Text → Dict Text → Dict Text
merge_files new_files prev_files = copy (copy [] prev_files) new_files
