-- ===== src/Attractor/FileParse/Tests.antt =====
-- Runs of the parser on small outputs.
use octopusgarden.Prelude.{
  ◌&&◌, [], codes, false, has_prefix, insert, join, not, refl, split, Text, trim_space, true, ◌↔◌,
  ◌∷◌, ◌≡◌,
}
use octopusgarden.Attractor.FileParse.Paths.{stays_inside, validate_path_iff}
use octopusgarden.Attractor.FileParse.Headers.{extract_file_path-panics_iff, overlapping_header}
use octopusgarden.Attractor.FileParse.{
  extract_file_path, is_unchanged_marker, normalize_trailing_newline, panics,
  parse_files_with_metadata, parsed, path_traversal, scan_line, slash, validate_path,
}

running_parser : Unit {0}
unfolding parse_files_with_metadata scan_line extract_file_path is_unchanged_marker validate_path
    split join trim_space normalize_trailing_newline insert
running_parser = tt

abbrev one_file : Text
one_file = codes "Hi\n=== FILE: a/b.go ===\nx\n\n=== END FILE ===\nbye"

one_file_parses :
    parse_files_with_metadata one_file
    ≡ parsed (record {
      files = (codes "a/b.go", codes "x\n") ∷ [];
      dropped_files = [];
      truncated = false;
    })
unfolding running_parser
one_file_parses = refl

overlap_panics : parse_files_with_metadata (codes "=== FILE: ===") ≡ panics
unfolding running_parser
overlap_panics = refl

escape_refused : parse_files_with_metadata (codes "=== FILE: a/../../b ===") ≡ path_traversal
unfolding running_parser
escape_refused = refl

validate_path_iff_example : validate_path (codes "a/../../b") ≡ (
    not (has_prefix (codes "a/../../b") (slash ∷ []))
    && stays_inside 0 (split slash (codes "a/../../b")))
validate_path_iff_example = validate_path_iff (codes "a/../../b")

-- The directory itself is accepted as a path.
start_accepted : validate_path (codes "a/..") ≡ true
unfolding running_parser
start_accepted = refl

extract_file_path-panics_iff_example :
    (extract_file_path overlapping_header ≡ panics) ↔ (overlapping_header ≡ overlapping_header)
extract_file_path-panics_iff_example = extract_file_path-panics_iff overlapping_header
