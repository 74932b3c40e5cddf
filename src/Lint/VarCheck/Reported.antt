-- ===== src/Lint/VarCheck/Reported.antt =====
-- Which references are reported.
use mathlib.Core.Path.{subst}
use octopusgarden.Prelude.{
  [], ap, Bool-cases, eq_of_text_eq, false, In, inl, inr, List, refl, sym, Text, text_eq, true, ℕ,
  ◌↔◌, ◌∷◌, ◌≡◌,
}
use octopusgarden.Lint.VarCheck.{
  check_from, check_var_refs, Diagnostic, extract_var_refs, has, uncaptured,
}
use octopusgarden.Lint.VarCheck.Laws.{extract_var_refs_iff, IsName, Mentions}

-- Every diagnostic is that of a reference which is not captured.
check_from-Uncaptured :
    (seen captured : List Text) (file : Text) (line : ℕ) (refs : List Text) (d : Diagnostic)
    → In d (check_from seen captured file line refs)
    → (ref : Text) × In ref refs × (has ref captured ≡ false) × (d ≡ uncaptured file line ref)
unfolding check_from
check_from-Uncaptured seen captured file line [] d h = absurd h
check_from-Uncaptured seen captured file line (r ∷ refs) d h = elim (Bool-cases (has r seen)) [
  | inl e ↦ later (check_from-Uncaptured seen captured file line refs d (rw e at h))
  | inr e ↦ elim (Bool-cases (has r captured)) [
    | inl f ↦ later (check_from-Uncaptured (r ∷ seen) captured file line refs d (rw (e, f) at h))
    | inr f ↦
        let either : In d (uncaptured file line r ∷ check_from (r ∷ seen) captured file line refs) =
          rw (e, f) at h in
        elim either [
          | inl same ↦ (r, inl refl, f, sym same)
          | inr rest ↦ later (check_from-Uncaptured (r ∷ seen) captured file line refs d rest)
        ]
  ]
]
  where
    later :
        ((ref : Text) × In ref refs × (has ref captured ≡ false) × (d ≡ uncaptured file line ref))
        → (ref : Text) × In ref (r ∷ refs)
          × (has ref captured ≡ false)
          × (d ≡ uncaptured file line ref)
    later (ref, h, out, same) = (ref, inr h, out, same)

-- A reference that is new and stands first.
In-check_from_first :
    (seen captured : List Text) (file : Text) (line : ℕ) (r : Text) (refs : List Text) (ref : Text)
    → r ≡ ref
    → has ref captured ≡ false
    → has ref seen ≡ false
    → In (uncaptured file line ref) (check_from seen captured file line (r ∷ refs))
unfolding check_from
In-check_from_first seen captured file line r refs ref same out new =
    rw
      (
        subst (λ x. has x seen ≡ false) (sym same) new,
        subst (λ x. has x captured ≡ false) (sym same) out,
      )
      (inl (ap (uncaptured file line) same))

In-check_from :
    (seen captured : List Text) (file : Text) (line : ℕ) (refs : List Text) (ref : Text)
    → In ref refs
    → has ref captured ≡ false
    → has ref seen ≡ false
    → In (uncaptured file line ref) (check_from seen captured file line refs)
unfolding check_from
In-check_from seen captured file line [] ref h out new = absurd h
In-check_from seen captured file line (r ∷ refs) ref (inl same) out new =
    In-check_from_first seen captured file line r refs ref same out new
In-check_from seen captured file line (r ∷ refs) ref (inr h) out new =
    elim (Bool-cases (has r seen)) [
      | inl e ↦ rw e (In-check_from seen captured file line refs ref h out new)
      | inr e ↦ elim (Bool-cases (text_eq r ref)) [
        | inl same ↦
            In-check_from_first seen captured file line r refs ref (eq_of_text_eq r ref same) out
              new
        | inr other ↦
            let rest = In-check_from (r ∷ seen) captured file line refs ref h out (rw other new) in
            elim (Bool-cases (has r captured)) [
              | inl f ↦ rw (e, f) rest
              | inr f ↦ rw (e, f) (inr rest)
            ]
      ]
    ]

-- The diagnostics are exactly those of the references that are not captured.
pub check_var_refs_iff :
    (refs captured : List Text) (file : Text) (line : ℕ) (d : Diagnostic)
    → In d (check_var_refs refs captured file line)
      ↔ ((ref : Text) × In ref refs × (has ref captured ≡ false) × (d ≡ uncaptured file line ref))
unfolding check_var_refs
check_var_refs_iff refs captured file line d = (
  check_from-Uncaptured [] captured file line refs d,
  λ (ref, h, out, same).
      subst (λ x. In x (check_from [] captured file line refs)) (sym same)
        (In-check_from [] captured file line refs ref h out refl),
)

-- A text is reported on nothing exactly when every name whose placeholder stands in it is captured.
pub check_var_refs-extract_var_refs :
    (s : Text) (captured : List Text) (file : Text) (line : ℕ)
    → (check_var_refs (extract_var_refs s) captured file line ≡ [])
      ↔ ((name : Text) → IsName name → Mentions s name → has name captured ≡ true)
check_var_refs-extract_var_refs s captured file line = (clean_lem, nothing)
  where
    clean_lem :
        check_var_refs (extract_var_refs s) captured file line ≡ []
        → (name : Text) → IsName name
        → Mentions s name
        → has name captured ≡ true
    clean_lem clean name h mention = elim (Bool-cases (has name captured)) [
      | inl e ↦ e
      | inr e ↦ absurd (
          subst (In (uncaptured file line name)) clean (
            (check_var_refs_iff (extract_var_refs s) captured file line
                (uncaptured file line name)).1
              (name, (extract_var_refs_iff s name).1 (h, mention), e, refl)))
    ]

    none_of : (ds : List Diagnostic) → ((d : Diagnostic) → In d ds → ⊥) → ds ≡ []
    none_of [] h = refl
    none_of (d ∷ ds) h = absurd (h d (inl refl))

    nothing :
        ((name : Text) → IsName name → Mentions s name → has name captured ≡ true)
        → check_var_refs (extract_var_refs s) captured file line ≡ []
    nothing h = none_of (check_var_refs (extract_var_refs s) captured file line) reported
      where
        reported :
            (d : Diagnostic) → In d (check_var_refs (extract_var_refs s) captured file line) → ⊥
        reported d there =
            let (ref, found, out, same) =
              (check_var_refs_iff (extract_var_refs s) captured file line d).0 there in
            let (is, mention) = (extract_var_refs_iff s ref).0 found in cc (out, h ref is mention)
