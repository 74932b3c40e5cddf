-- ===== src/Attractor/Oscillation/Tests.antt =====
-- Histories of hashes and small file sets.
use mathlib.Core.List.Permᴰ
use octopusgarden.Prelude.{[], arith, codes, Dict, List, refl, Text, true, ◌↔◌, ◌∷◌, ◌≡◌}
use octopusgarden.Attractor.Oscillation.{detect_oscillation, hash_files}
use octopusgarden.Attractor.Oscillation.Laws.{detect_oscillation_iff, EndsInTurns, hash_files-perm}

abbrev turns : List Text
turns = codes "x" ∷ codes "a" ∷ codes "b" ∷ codes "a" ∷ codes "b" ∷ []

turns_oscillate : detect_oscillation turns ≡ true
unfolding detect_oscillation
turns_oscillate = refl

detect_oscillation_iff_example : (detect_oscillation turns ≡ true) ↔ EndsInTurns turns
detect_oscillation_iff_example = detect_oscillation_iff turns

abbrev two_files : Dict Text
two_files = (codes "a", codes "1") ∷ (codes "b", codes "2") ∷ []

abbrev two_files_swapped : Dict Text
two_files_swapped = (codes "b", codes "2") ∷ (codes "a", codes "1") ∷ []

hash_files-perm_example : hash_files (λ s. s) two_files ≡ hash_files (λ s. s) two_files_swapped
hash_files-perm_example =
    hash_files-perm (λ s. s) two_files two_files_swapped (Permᴰ.swap refl refl)
      (((λ e. ground arith), tt), (tt, tt))
