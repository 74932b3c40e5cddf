-- ===== src/Spec/Summary/Selected.antt =====
-- Which representation of a specification is sent.
use mathlib.Core.Path.{subst}
use octopusgarden.Prelude.{
  ◌*◌, ◌++◌, ◌<◌, [], arith, Bool-cases, if◌then◌else◌, inl, inr, List, refl, sym, take, Text, ℕ,
  ◌∷◌, ◌≡◌, ◌≤◌,
}
use octopusgarden.Spec.Summary.{
  estimate_tokens, expand_failure_sections, expand_failure_sections_only, is_within, join_non_empty,
  last_resort, select_content, select_from, SummarizedSpec, truncation_notice, utf8,
}

module _ (to_lower : Text → Text) (ss : SummarizedSpec) (failures : List Text) where
  -- A level that is there only if the text that it starts with is.
  abbrev pub level_of : Text → List Text
  level_of [] = []
  level_of (c ∷ s) =
      join_non_empty (c ∷ s) (expand_failure_sections_only to_lower ss.spec failures) ∷ []

  -- The levels from the fullest to the shortest.
  abbrev pub levels : List Text
  levels =
      ss.spec.raw_content
      ∷ expand_failure_sections to_lower ss.spec ss.sections failures
      ∷ (level_of ss.outline ++ level_of ss.abstract_text)

-- What is left when no level fits: the abstract, or, without one, the first bytes of the
-- specification, four for each token, and the notice.
abbrev pub left_over : SummarizedSpec → ℕ → List ℕ
left_over ss budget = elim ss.abstract_text [
  | [] ↦ take (budget * 4) (utf8 ss.spec.raw_content) ++ utf8 truncation_notice
  | c ∷ s ↦ utf8 (c ∷ s)
]

-- The bytes are those of the first of the texts that fits, or, if none does, the ones that are left.
pub data IsFirstFit (budget : ℕ) (fallback : List ℕ) : List Text → List ℕ → Type 0 where
  fits :
      {text : Text} {texts : List Text}
      → estimate_tokens text ≤ budget
      → IsFirstFit budget fallback (text ∷ texts) (utf8 text)
  passes :
      {text : Text} {texts : List Text} {bytes : List ℕ}
      → budget < estimate_tokens text
      → IsFirstFit budget fallback texts bytes
      → IsFirstFit budget fallback (text ∷ texts) bytes
  none_fits : IsFirstFit budget fallback [] fallback

-- Trying one text after the other.
first_fit : (budget : ℕ) → List ℕ → List Text → List ℕ
first_fit budget fallback [] = fallback
first_fit budget fallback (text ∷ texts) =
    let later = first_fit budget fallback texts in
    if is_within text budget then utf8 text else later

first_fit-IsFirstFit :
    (budget : ℕ) (fallback : List ℕ) (texts : List Text)
    → IsFirstFit budget fallback texts (first_fit budget fallback texts)
unfolding first_fit
first_fit-IsFirstFit budget fallback [] = none_fits
first_fit-IsFirstFit budget fallback (text ∷ texts) = elim (Bool-cases (is_within text budget)) [
  | inl e ↦ rw e (fits (ground arith))
  | inr e ↦ rw e (passes (ground arith) (first_fit-IsFirstFit budget fallback texts))
]

select_from-first_fit :
    (to_lower : Text → Text) (failures : List Text) (ss : SummarizedSpec) (budget : ℕ)
    (outline abstract_text : Text)
    → ss.outline ≡ outline
    → ss.abstract_text ≡ abstract_text
    → select_content to_lower ss budget failures
      ≡ first_fit budget (left_over ss budget) (levels to_lower ss failures)
unfolding select_content select_from last_resort first_fit
select_from-first_fit to_lower failures ss budget [] [] o a = rw (o, a) (ground arith)
select_from-first_fit to_lower failures ss budget [] (c ∷ s) o a = rw (o, a) (ground arith)
select_from-first_fit to_lower failures ss budget (d ∷ t) [] o a = rw (o, a) (ground arith)
select_from-first_fit to_lower failures ss budget (d ∷ t) (c ∷ s) o a = rw (o, a) (ground arith)

-- What is sent is the first level that fits the budget, of the specification, its sections by their
-- summaries, the outline and the abstract, the last two only if they are there; each but the first
-- has the sections that the failures name in full. If none fits it is the abstract alone, or, without
-- one, the specification cut at four bytes for each token, with a notice.
pub select_content-IsFirstFit :
    (to_lower : Text → Text) (ss : SummarizedSpec) (budget : ℕ) (failures : List Text)
    → IsFirstFit budget
        (left_over ss budget)
        (levels to_lower ss failures)
        (select_content to_lower ss budget failures)
select_content-IsFirstFit to_lower ss budget failures =
    subst (IsFirstFit budget (left_over ss budget) (levels to_lower ss failures))
      (sym
        (select_from-first_fit to_lower failures ss budget ss.outline ss.abstract_text refl refl))
      (first_fit-IsFirstFit budget (left_over ss budget) (levels to_lower ss failures))
