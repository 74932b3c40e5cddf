-- ===== src/Attractor/Oscillation.antt =====
-- internal/attractor/oscillation.go: the hash of a file set, and the A, B, A, B pattern of hashes.
-- SHA-256 is a parameter: what is modelled is the stream of characters that it is given.
pub mod Laws
mod Tests
use octopusgarden.Prelude.{
  ◌&&◌, ◌++◌, ◌-◌, [], Bool, Dict, false, get_elem?, if◌then◌else◌, length, List, ltb, none, some,
  sort_entries, Text, text_eq, ℕ, ◌∷◌,
}

-- hashes[i] is read only at indices in range; elsewhere this is the empty text.
abbrev pub hash_at : List Text → ℕ → Text
hash_at hashes i = elim (get_elem? hashes i) [ none ↦ [] | some h ↦ h ]

unfoldable pub detect_oscillation : List Text → Bool
detect_oscillation hashes =
    let n = length hashes in
    if ltb n 4
    then false
    else text_eq (hash_at hashes (n - 1)) (hash_at hashes (n - 3))
      && text_eq (hash_at hashes (n - 2)) (hash_at hashes (n - 4))

-- The characters that are written for one file, and for files in the order of their paths.
unfoldable pub file_entry : Text → Text → Text
file_entry path content = path ++ (0 ∷ (content ++ (1 ∷ [])))

unfoldable pub file_stream : Dict Text → Text
unfolding file_entry
file_stream [] = []
file_stream ((path, content) ∷ files) = file_entry path content ++ file_stream files

-- `sha256` is the hash with its hexadecimal form. `slices.Sorted(maps.Keys(files))` and the lookups
-- of the loop are the map's entries in the order of their keys.
unfoldable pub hash_files : (Text → Text) → Dict Text → Text
unfolding file_stream
hash_files sha256 files = sha256 (file_stream (sort_entries files))
