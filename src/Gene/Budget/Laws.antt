-- ===== src/Gene/Budget/Laws.antt =====
-- What is left within the token budget.
use mathlib.Core.Path.{subst}
use octopusgarden.Prelude.{
  [], All, any, ap, arith, Bool, Bool-cases, codes, eq_of_text_eq, false, inl, inr, leb, length,
  List, ltb, none, Option, refl, some, suc, sym, Text, text_eq, true, zero, ◌||◌, ℕ, ◌∙◌, ◌∷◌, ◌≡◌,
  ◌≤◌, ◌⊎◌,
}
use octopusgarden.Gene.Budget.{
  continue_with, drop_order, drop_roles, enforce_token_budget, is_source, remove_role, SelectedFile,
  token_budget, total_tokens, trim_sources, without_last_of, without_last_source,
}

-- None of the files has one of the roles.
abbrev pub IsWithout : List Text → List SelectedFile → Type 0
IsWithout roles files = All (λ f. any (λ r. text_eq f.role r) roles ≡ false) files

-- `fewer` is `files` without some of the files that have one of the roles.
pub data Keeps (roles : List Text) : (files fewer : List SelectedFile) → Type 0 where
  keeps_none : Keeps roles [] []
  keeps :
      (f : SelectedFile) {files fewer : List SelectedFile}
      → Keeps roles files fewer
      → Keeps roles (f ∷ files) (f ∷ fewer)
  drops :
      (f : SelectedFile) {files fewer : List SelectedFile}
      → any (λ r. text_eq f.role r) roles ≡ true
      → Keeps roles files fewer
      → Keeps roles (f ∷ files) fewer

Keeps-refl : (roles : List Text) (files : List SelectedFile) → Keeps roles files files
Keeps-refl roles [] = keeps_none
Keeps-refl roles (f ∷ files) = keeps f (Keeps-refl roles files)

Keeps-trans :
    {roles : List Text} {a b c : List SelectedFile}
    → Keeps roles a b
    → Keeps roles b c
    → Keeps roles a c
Keeps-trans keeps_none k = k
Keeps-trans (keeps f h) (keeps f' k) = keeps f (Keeps-trans h k)
Keeps-trans (keeps f h) (drops f' e k) = drops f e (Keeps-trans h k)
Keeps-trans (drops f e h) k = drops f e (Keeps-trans h k)

abbrev pub source_role : Text
source_role = codes "source"

-- The roles whose files may be dropped.
abbrev pub droppable : List Text
droppable = source_role ∷ drop_order

-- What dropping the last source file gives: one file less, or none when there is no source file.
abbrev IsDropOf : List SelectedFile → Option (List SelectedFile) → Type 0
IsDropOf files none = IsWithout (source_role ∷ []) files
IsDropOf files (some fewer) = Keeps droppable files fewer × (length files ≡ suc (length fewer))

or_none : (b : Bool) → b ≡ false → (b || false) ≡ false
or_none true h = h
or_none false h = refl

or_more : (b c : Bool) → b ≡ true → (b || c) ≡ true
or_more true c h = refl
or_more false c h = cc

without_last_of-IsDropOf :
    (f : SelectedFile) (files : List SelectedFile) (source : Bool) (o : Option (List SelectedFile))
    → is_source f ≡ source
    → IsDropOf files o
    → IsDropOf (f ∷ files) (without_last_of f files source o)
unfolding without_last_of
without_last_of-IsDropOf f files source (some fewer) e (h, same) = (keeps f h, omega (arith, same))
without_last_of-IsDropOf f files true none e h =
    (drops f (or_more (is_source f) _ e) (Keeps-refl droppable files), omega arith)
without_last_of-IsDropOf f files false none e h = (or_none (is_source f) e, h)

without_last_source-IsDropOf :
    (files : List SelectedFile) → IsDropOf files (without_last_source files)
unfolding without_last_source
without_last_source-IsDropOf [] = tt
without_last_source-IsDropOf (f ∷ files) =
    without_last_of-IsDropOf f files (is_source f) (without_last_source files) refl
      (without_last_source-IsDropOf files)

-- Within the budget, or without any file of the roles.
abbrev pub IsWithin : List Text → List SelectedFile → Type 0
IsWithin roles files = (total_tokens files ≤ token_budget) ⊎ IsWithout roles files

abbrev IsTrimmed : List SelectedFile → List SelectedFile → Type 0
IsTrimmed files fewer = Keeps droppable files fewer × IsWithin (source_role ∷ []) fewer

continue_with-IsTrimmed :
    (fuel : ℕ) (files : List SelectedFile) (next : List SelectedFile → List SelectedFile)
    (o : Option (List SelectedFile))
    → length files ≤ suc fuel
    → ((fewer : List SelectedFile) → length fewer ≤ fuel → IsTrimmed fewer (next fewer))
    → IsDropOf files o
    → IsTrimmed files (continue_with next files o)
unfolding continue_with
continue_with-IsTrimmed fuel files next none le h k = (Keeps-refl droppable files, inr k)
continue_with-IsTrimmed fuel files next (some fewer) le h (kept, same) =
    let (more, within) = h fewer (omega (arith, same)) in (Keeps-trans kept more, within)

trim_sources-IsTrimmed :
    (fuel : ℕ) (files : List SelectedFile)
    → length files ≤ fuel
    → IsTrimmed files (trim_sources fuel files)
unfolding trim_sources
trim_sources-IsTrimmed zero [] le = (keeps_none, inr tt)
trim_sources-IsTrimmed zero (f ∷ files) le = absurd (omega arith)
trim_sources-IsTrimmed (suc fuel) files le =
    elim (Bool-cases (ltb token_budget (total_tokens files))) [
      | inl e ↦ rw e (
          continue_with-IsTrimmed fuel files (trim_sources fuel) (without_last_source files) le
            (λ fewer. trim_sources-IsTrimmed fuel fewer) (without_last_source-IsDropOf files))
      | inr e ↦ rw e (Keeps-refl droppable files, inl (ground arith))
    ]

remove_role-Keeps :
    (role : Text) (files : List SelectedFile)
    → any (λ r. text_eq role r) droppable ≡ true
    → Keeps droppable files (remove_role role files)
unfolding remove_role
remove_role-Keeps role [] h = keeps_none
remove_role-Keeps role (f ∷ files) h = elim (Bool-cases (text_eq f.role role)) [
  | inl e ↦ rw e (
      drops f
        (subst (λ x. any (λ r. text_eq x r) droppable ≡ true) (sym (eq_of_text_eq f.role role e)) h)
        (remove_role-Keeps role files h))
  | inr e ↦ rw e (keeps f (remove_role-Keeps role files h))
]

remove_role-IsWithout :
    (role : Text) (gone : List Text) (files : List SelectedFile)
    → IsWithout gone files
    → IsWithout (role ∷ gone) (remove_role role files)
unfolding remove_role
remove_role-IsWithout role gone [] h = tt
remove_role-IsWithout role gone (f ∷ files) (other, h) = elim (Bool-cases (text_eq f.role role)) [
  | inl e ↦ rw e (remove_role-IsWithout role gone files h)
  | inr e ↦ rw e (rw e other, remove_role-IsWithout role gone files h)
]

-- The roles that are gone in the end.
abbrev gone_after : List Text → List Text → List Text
gone_after [] gone = gone
gone_after (role ∷ roles) gone = gone_after roles (role ∷ gone)

drop_roles-IsWithin :
    (roles gone : List Text) (files : List SelectedFile)
    → All (λ role. any (λ r. text_eq role r) droppable ≡ true) roles
    → IsWithin gone files
    → Keeps droppable files (drop_roles roles files)
      × IsWithin (gone_after roles gone) (drop_roles roles files)
unfolding drop_roles
drop_roles-IsWithin [] gone files h within = (Keeps-refl droppable files, within)
drop_roles-IsWithin (role ∷ roles) gone files (ok, h) within =
    elim (Bool-cases (leb (total_tokens files) token_budget)) [
      | inl e ↦ rw e (Keeps-refl droppable files, inl (ground arith))
      | inr e ↦
          let fewer : IsWithout gone files = elim within [
            | inl low ↦ absurd (ground arith)
            | inr without ↦ without
          ] in
          let (kept, rest) =
            drop_roles-IsWithin roles (role ∷ gone) (remove_role role files) h
              (inr (remove_role-IsWithout role gone files fewer)) in
          rw e (Keeps-trans (remove_role-Keeps role files ok) kept, rest)
    ]

trim_sources-small :
    (fuel : ℕ) (files : List SelectedFile)
    → total_tokens files ≤ token_budget
    → trim_sources fuel files ≡ files
unfolding trim_sources
trim_sources-small zero files h = refl
trim_sources-small (suc fuel) files h = rw small refl
  where
    small : ltb token_budget (total_tokens files) ≡ false
    small = ground arith

drop_roles-small :
    (roles : List Text) (files : List SelectedFile)
    → total_tokens files ≤ token_budget
    → drop_roles roles files ≡ files
unfolding drop_roles
drop_roles-small [] files h = refl
drop_roles-small (role ∷ roles) files h = rw small refl
  where
    small : leb (total_tokens files) token_budget ≡ true
    small = ground arith

-- Only files of the roles that may be dropped are dropped, the others stay in their order, and what
-- is left is within the budget or has no file of these roles any more. Files within the budget all
-- stay.
pub enforce_token_budget-IsWithin :
    (files : List SelectedFile)
    → Keeps droppable files (enforce_token_budget files)
      × IsWithin
          (codes "readme" ∷ codes "handler" ∷ codes "model" ∷ codes "source" ∷ [])
          (enforce_token_budget files)
      × (total_tokens files ≤ token_budget → enforce_token_budget files ≡ files)
unfolding enforce_token_budget
enforce_token_budget-IsWithin files =
    let (kept, trimmed) = trim_sources-IsTrimmed (length files) files (omega arith) in
    let (more, within) =
      drop_roles-IsWithin drop_order (source_role ∷ []) (trim_sources (length files) files)
        (refl, (refl, (refl, tt))) trimmed in
    (
      Keeps-trans kept more,
      within,
      λ h.
          ap (drop_roles drop_order) (trim_sources-small (length files) files h)
          ∙ drop_roles-small drop_order files h,
    )
