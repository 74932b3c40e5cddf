-- ===== src/Attractor/FileParse/Merge.antt =====
-- What a merged file set holds.
use mathlib.Core.Path.{subst}
use octopusgarden.Prelude.{
  [], All, ap, Bool-cases, copy, Dict, eq_of_text_eq, HasDistinctKeys, inl, inr, insert, lookup,
  lookup-insert, none, Option, refl, some, sym, Text, text_eq, ◌∙◌, ◌∷◌, ◌≡◌, ◌≢◌,
}
use octopusgarden.Attractor.FileParse.{merge_files}

abbrev pub first_of : {V : Type 0} → Option V → Option V → Option V
first_of (some v) o = some v
first_of none o = o

module _ {V : Type 0} where
  lookup-absent : (k : Text) (m : Dict V) → All (λ (e : Text × V). k ≢ e.0) m → lookup k m ≡ none
  unfolding lookup
  lookup-absent k [] h = refl
  lookup-absent k ((j, v) ∷ m) (ne, h) = elim (Bool-cases (text_eq j k)) [
    | inl e ↦ absurd (ne (sym (eq_of_text_eq j k e)))
    | inr e ↦ rw e (lookup-absent k m h)
  ]

  pub first_of-none : (o : Option V) → first_of o none ≡ o
  first_of-none none = refl
  first_of-none (some v) = refl

  pub lookup-copy :
      (k : Text) (dst src : Dict V)
      → HasDistinctKeys src
      → lookup k (copy dst src) ≡ first_of (lookup k src) (lookup k dst)
  unfolding lookup copy
  lookup-copy k dst [] h = refl
  lookup-copy k dst ((j, v) ∷ src) (new, h) =
      lookup-copy k (insert j v dst) src h
      ∙ ap (first_of (lookup k src)) (lookup-insert j k v dst)
      ∙ elim (Bool-cases (text_eq j k)) [
        | inl e ↦
            rw
              (
                e,
                lookup-absent k src
                    (subst (λ i. All (λ (x : Text × V). i ≢ x.0) src) (eq_of_text_eq j k e) new),
              )
              refl
        | inr e ↦ rw e refl
      ]

-- A merged file set holds the new files, and of the previous files those whose paths are not among
-- the new ones; in both maps the paths are distinct.
pub lookup-merge_files :
    (path : Text) (new_files prev_files : Dict Text)
    → HasDistinctKeys new_files
    → HasDistinctKeys prev_files
    → lookup path (merge_files new_files prev_files)
      ≡ first_of (lookup path new_files) (lookup path prev_files)
unfolding merge_files lookup
lookup-merge_files path new_files prev_files hn hp =
    lookup-copy path (copy [] prev_files) new_files hn
    ∙ ap (first_of (lookup path new_files))
        (lookup-copy path [] prev_files hp ∙ first_of-none (lookup path prev_files))
