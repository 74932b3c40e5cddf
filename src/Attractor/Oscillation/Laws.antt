-- ===== src/Attractor/Oscillation/Laws.antt =====
-- What the hash of a file set and the oscillation test promise.
use mathlib.Core.Path.{ap₂}
use mathlib.Core.List.{Permᴰ}
use octopusgarden.Prelude.{
  ◌++◌, ◌-◌, ◌<◌, [], All, ap, append_assoc, arith, Dict, eq_of_text_eq, false, HasDistinctKeys,
  insert_entry, length, length-append, List, ltb, refl, sort_entries, sort_entries-perm, suc, sym,
  Text, text_eq_refl, text_lt, true, ℕ, ◌↔◌, ◌∙◌, ◌∷◌, ◌≡◌, ◌≢◌, ◌≤◌,
}
use octopusgarden.Attractor.Oscillation.{
  detect_oscillation, file_entry, file_stream, hash_at, hash_files,
}

-- The hash does not depend on the order in which the map yields its files.
pub hash_files-perm :
    (sha256 : Text → Text) (m n : Dict Text)
    → Permᴰ m n
    → HasDistinctKeys m
    → hash_files sha256 m ≡ hash_files sha256 n
unfolding hash_files
hash_files-perm sha256 m n p h = ap (λ files. sha256 (file_stream files)) (sort_entries-perm p h)

-- A text without the two characters that separate paths from contents and files from each other.
abbrev pub IsPlain : Text → Type 0
IsPlain = All (λ c. 2 ≤ c)

-- What stands before the first separator is determined.
plain_before :
    (sep : ℕ) (p q r s : Text)
    → sep < 2
    → IsPlain p
    → IsPlain q
    → p ++ (sep ∷ r) ≡ q ++ (sep ∷ s)
    → (p ≡ q) × (r ≡ s)
plain_before sep [] [] r s low hp hq e = (refl, ground arith)
plain_before sep [] (c ∷ q) r s low hp hq e = ground arith
plain_before sep (c ∷ p) [] r s low hp hq e = ground arith
plain_before sep (c ∷ p) (d ∷ q) r s low hp hq e =
    let (same, rest) = plain_before sep p q r s low hp.1 hq.1 (ground arith) in
    (ground (arith, same), rest)

entry_then :
    (path content rest : Text)
    → file_entry path content ++ rest ≡ path ++ (0 ∷ (content ++ (1 ∷ rest)))
unfolding file_entry
entry_then path content rest =
    append_assoc path (0 ∷ (content ++ (1 ∷ []))) rest
    ∙ ap (λ x. path ++ (0 ∷ x)) (append_assoc content (1 ∷ []) rest)

stream_nonempty : (path content rest : Text) → [] ≢ file_entry path content ++ rest
unfolding file_entry
stream_nonempty [] content rest = λ e. cc
stream_nonempty (x ∷ path) content rest = λ e. cc

-- On texts without the separators, the characters that are hashed determine the files.
pub file_stream_injective :
    (m n : Dict Text)
    → All (λ (e : Text × Text). IsPlain e.0 × IsPlain e.1) m
    → All (λ (e : Text × Text). IsPlain e.0 × IsPlain e.1) n
    → file_stream m ≡ file_stream n
    → m ≡ n
unfolding file_stream
file_stream_injective [] [] hm hn e = refl
file_stream_injective [] ((p, c) ∷ n) hm hn e = absurd (stream_nonempty p c (file_stream n) e)
file_stream_injective ((p, c) ∷ m) [] hm hn e = absurd (stream_nonempty p c (file_stream m) (sym e))
file_stream_injective ((p, c) ∷ m) ((q, d) ∷ n) ((hp, hc), hm) ((hq, hd), hn) e =
    let (same_path, after_path) =
      plain_before 0 p q _ _ (omega arith) hp hq
        (sym (entry_then p c (file_stream m)) ∙ e ∙ entry_then q d (file_stream n)) in
    let (same_content, rest) = plain_before 1 c d _ _ (omega arith) hc hd after_path in
    ap₂ (λ x y. x ∷ y) (ap₂ (λ x y. (x, y)) same_path same_content)
      (file_stream_injective m n hm hn rest)

-- Two files whose paths are in this order are hashed as the one file is whose content holds the
-- separators around the second path: the hash of a file set does not determine it.
pub hash_files_collides :
    (sha256 : Text → Text) (p q c d : Text)
    → text_lt p q ≡ true
    → hash_files sha256 ((p, c ++ (1 ∷ (q ++ (0 ∷ d)))) ∷ [])
      ≡ hash_files sha256 ((q, d) ∷ (p, c) ∷ [])
unfolding hash_files file_stream file_entry sort_entries
hash_files_collides sha256 p q c d h = rw (h, insert_entry) (ap sha256 (simp append_assoc))

hash_at_back :
    (x : Text) (hashes : List Text) (k : ℕ)
    → k ≤ length hashes
    → hash_at (x ∷ hashes) (suc (length hashes) - k) ≡ hash_at hashes (length hashes - k)
hash_at_back x hashes k h =
    let shift : suc (length hashes) - k ≡ suc (length hashes - k) = omega arith in
    ap (hash_at (x ∷ hashes)) shift

long_enough : (n : ℕ) → 4 ≤ n → ltb n 4 ≡ false
long_enough n h = ground arith

-- Older hashes do not matter.
detect_oscillation_tail :
    (x : Text) (hashes : List Text)
    → 4 ≤ length hashes
    → detect_oscillation (x ∷ hashes) ≡ detect_oscillation hashes
unfolding detect_oscillation
detect_oscillation_tail x hashes h = rw (
  long_enough (length hashes) h,
  long_enough (suc (length hashes)) (omega arith),
  hash_at_back x hashes 1 (omega arith),
  hash_at_back x hashes 2 (omega arith),
  hash_at_back x hashes 3 (omega arith),
  hash_at_back x hashes 4 (omega arith),
)

abbrev pub EndsInTurns : List Text → Type 0
EndsInTurns hashes =
    (older : List Text) × (a : Text) × (b : Text) × (hashes ≡ older ++ a ∷ b ∷ a ∷ b ∷ [])

detect_oscillation-ends :
    (hashes : List Text) → detect_oscillation hashes ≡ true → EndsInTurns hashes
unfolding detect_oscillation
detect_oscillation-ends [] h = ground arith
detect_oscillation-ends (a ∷ []) h = ground arith
detect_oscillation-ends (a ∷ b ∷ []) h = ground arith
detect_oscillation-ends (a ∷ b ∷ c ∷ []) h = ground arith
detect_oscillation-ends (a ∷ b ∷ c ∷ d ∷ []) h =
    ([], a, b, ground (arith, eq_of_text_eq d b, eq_of_text_eq c a))
detect_oscillation-ends (x ∷ a ∷ b ∷ c ∷ d ∷ hashes) h =
    let (older, p, q, e) =
      detect_oscillation-ends (a ∷ b ∷ c ∷ d ∷ hashes)
        (sym (detect_oscillation_tail x (a ∷ b ∷ c ∷ d ∷ hashes) (omega arith)) ∙ h) in
    (x ∷ older, p, q, ap (λ r. x ∷ r) e)

ends-detect_oscillation :
    (older : List Text) (a b : Text) → detect_oscillation (older ++ a ∷ b ∷ a ∷ b ∷ []) ≡ true
unfolding detect_oscillation
ends-detect_oscillation [] a b = rw (text_eq_refl a, text_eq_refl b) refl
ends-detect_oscillation (x ∷ older) a b =
    detect_oscillation_tail x (older ++ a ∷ b ∷ a ∷ b ∷ [])
      (omega (arith, length-append older (a ∷ b ∷ a ∷ b ∷ [])))
    ∙ ends-detect_oscillation older a b

-- The oscillation test holds exactly of the lists that end with a, b, a, b for some hashes a and
-- b, which may be equal.
pub detect_oscillation_iff :
    (hashes : List Text) → (detect_oscillation hashes ≡ true) ↔ EndsInTurns hashes
detect_oscillation_iff hashes =
    (detect_oscillation-ends hashes, λ (older, a, b, e). rw e (ends-detect_oscillation older a b))
