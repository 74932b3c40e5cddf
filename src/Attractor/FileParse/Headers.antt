-- ===== src/Attractor/FileParse/Headers.antt =====
-- The one line on which the parser panics.
use mathlib.Core.Bool.{true≢false}
use mathlib.Core.Path.{subst}
use octopusgarden.Prelude.{
  ◌++◌, ◌-◌, ◌<◌, [], ap, arith, Bool, Bool-cases, codes, drop, false, has_prefix, has_suffix,
  if◌then◌else◌, inl, inr, length, ltb, ltb→lt, none, refl, some, sym, take, Text, text_eq,
  trim_space, true, ◌↔◌, ◌∙◌, ◌∷◌, ◌≡◌,
}
use octopusgarden.Attractor.FileParse.{
  extract_file_path, file_prefix, file_suffix, no_files, panics, parsed, Parsed, path_traversal,
}

prefix_rest : (s p : Text) → has_prefix s p ≡ true → (r : Text) × (s ≡ p ++ r)
prefix_rest s [] h = (s, refl)
prefix_rest [] (y ∷ p) h = ground arith
prefix_rest (x ∷ s) (y ∷ p) h =
    let (r, e) = prefix_rest s p (ground arith) in (r, ground (arith, e))

abbrev pub overlapping_header : Text
overlapping_header = codes "=== FILE: ==="

-- A header in which the prefix and the suffix overlap.
overlapping :
    (r : Text)
    → length r < 4
    → has_suffix (file_prefix ++ r) file_suffix ≡ true
    → file_prefix ++ r ≡ overlapping_header
overlapping [] short h = ground arith
overlapping (a ∷ []) short h = ground arith
overlapping (a ∷ b ∷ []) short h = ground arith
overlapping (a ∷ b ∷ c ∷ []) short h = ground arith
overlapping (a ∷ b ∷ c ∷ d ∷ r) short h = absurd (omega arith)

short_rest :
    (t r : Text)
    → ltb (length t - length file_suffix) (length file_prefix) ≡ true
    → t ≡ file_prefix ++ r
    → length r < 4
short_rest t r short e =
    let whole_length : length t ≡ length (file_prefix ++ r) = ap length e in
    let below : length t - 4 < 10 = ltb→lt (length t - 4) 10 short in
    omega (arith, whole_length, below)

is_panic : {A : Type 0} → Parsed A → Bool
is_panic panics = true
is_panic (parsed a) = false
is_panic no_files = false
is_panic path_traversal = false

never_panics : (b : Bool) (p : Text) → is_panic (if b then parsed none else parsed (some p)) ≡ false
unfolding is_panic
never_panics true p = refl
never_panics false p = refl

-- The slice of a header panics on exactly one line, in which the prefix and the suffix overlap.
pub extract_file_path-panics_iff :
    (trimmed : Text) → (extract_file_path trimmed ≡ panics) ↔ (trimmed ≡ overlapping_header)
unfolding extract_file_path is_panic
extract_file_path-panics_iff trimmed = (
  λ h. elim (Bool-cases (has_prefix trimmed file_prefix)) [
    | inl e ↦ elim (Bool-cases (has_suffix trimmed file_suffix)) [
      | inl k ↦ elim (Bool-cases (ltb (length trimmed - length file_suffix) (length file_prefix))) [
        | inl short ↦
            let (r, same) = prefix_rest trimmed file_prefix e in
            same
            ∙ overlapping r (short_rest trimmed r short same)
                (subst (λ x. has_suffix x file_suffix ≡ true) same k)
        | inr long ↦
            let path =
              trim_space
                (drop (length file_prefix) (take (length trimmed - length file_suffix) trimmed)) in
            absurd (
              true≢false
                (sym (ap is_panic h) ∙ rw (e, k, long) (never_panics (text_eq path []) path)))
      ]
      | inr k ↦ absurd (true≢false (sym (ap is_panic h) ∙ rw (e, k) refl))
    ]
    | inr e ↦ absurd (true≢false (sym (ap is_panic h) ∙ rw e refl))
  ],
  λ e. subst (λ x. extract_file_path x ≡ panics) (sym e) refl,
)
