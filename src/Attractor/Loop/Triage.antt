-- ===== src/Attractor/Loop/Triage.antt =====
-- triage.go: the files that a repair is about, chosen by the entry points and a model's answer.
use octopusgarden.Prelude.{
  ◌&&◌, ◌+◌, ◌==◌, [], any, Bool, codes, Dict, if◌then◌else◌, insert, is_empty, last_or, leb, List,
  lookup, map, none, some, split, Text, text_eq, trim_right, ℕ, ◌∷◌,
}

-- The upper-case letters, and the two others that strings.ToLower makes an ASCII letter. No other
-- character matters to a comparison with an ASCII name.
abbrev lower : ℕ → ℕ
lower c =
    if leb b'A' c && leb c b'Z'
    then c + 32
    else if c == 0x130
    then b'i'
    else if c == 0x212a
    then b'k'
    else c

-- filepath.Base
base_name : Text → Text
base_name path =
    let trimmed = trim_right (λ c. c == b'/') path in
    if text_eq path []
    then codes "."
    else elim trimmed [ [] ↦ codes "/" | c ∷ s ↦ last_or [] (split b'/' (c ∷ s)) ]

abbrev entry_point_names : List Text
entry_point_names =
    codes "dockerfile"
    ∷ codes "main.go"
    ∷ codes "main.py"
    ∷ codes "main.rs"
    ∷ codes "app.py"
    ∷ codes "app.js"
    ∷ codes "server.js"
    ∷ codes "index.js"
    ∷ codes "index.ts"
    ∷ codes "go.mod"
    ∷ codes "cargo.toml"
    ∷ codes "package.json"
    ∷ codes "requirements.txt"
    ∷ []

unfoldable pub is_entry_point : Text → Bool
unfolding base_name
is_entry_point path = any (text_eq (map lower (base_name path))) entry_point_names

add_suggested : Dict Text → List Text → Dict Text → Dict Text
add_suggested all_files [] result = result
add_suggested all_files (p ∷ paths) result =
    add_suggested all_files paths
      (elim (lookup p all_files) [ none ↦ result | some content ↦ insert p content result ])

add_entry_points : Dict Text → Dict Text → Dict Text
add_entry_points [] result = result
add_entry_points ((p, content) ∷ files) result =
    add_entry_points files (if is_entry_point p then insert p content result else result)

-- The files that are kept, given the answer's list of paths.
unfoldable pub narrow_files : Dict Text → List Text → Dict Text
unfolding add_suggested add_entry_points is_entry_point
narrow_files all_files suggested =
    let result = add_entry_points all_files (add_suggested all_files suggested []) in
    if is_empty result then all_files else result
