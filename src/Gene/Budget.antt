-- ===== src/Gene/Budget.antt =====
-- enforceTokenBudget of internal/gene/scan.go: which selected files are dropped for the token budget.
pub mod Laws
mod Tests
use octopusgarden.Prelude.{
  ◌+◌, [], Bool, codes, false, if◌then◌else◌, leb, length, List, ltb, none, Option, some, suc, Text,
  text_eq, true, zero, ℕ, ◌∷◌,
}
use octopusgarden.Spec.Summary.{estimate_tokens}

pub record SelectedFile : Type 0 where
  pub path : Text
  pub content : Text
  pub role : Text

abbrev pub token_budget : ℕ
token_budget = 20000

abbrev pub total_tokens : List SelectedFile → ℕ
total_tokens [] = 0
total_tokens (f ∷ files) = estimate_tokens f.content + total_tokens files

abbrev pub is_source : SelectedFile → Bool
is_source f = text_eq f.role (codes "source")

-- files[:idx] and files[idx+1:] for the last source file, with `none` when there is none.
unfoldable pub without_last_of :
    SelectedFile
    → List SelectedFile
    → Bool
    → Option (List SelectedFile)
    → Option (List SelectedFile)
without_last_of f files source (some rest) = some (f ∷ rest)
without_last_of f files true none = some files
without_last_of f files false none = none

unfoldable pub without_last_source : List SelectedFile → Option (List SelectedFile)
unfolding without_last_of
without_last_source [] = none
without_last_source (f ∷ files) = without_last_of f files (is_source f) (without_last_source files)

unfoldable pub continue_with :
    (List SelectedFile → List SelectedFile)
    → List SelectedFile
    → Option (List SelectedFile)
    → List SelectedFile
continue_with next files none = files
continue_with next files (some fewer) = next fewer

-- The loop that drops source files; each turn drops one, so that there are no more turns than files.
unfoldable pub trim_sources : (fuel : ℕ) → List SelectedFile → List SelectedFile
unfolding continue_with without_last_source
trim_sources zero files = files
trim_sources (suc fuel) files =
    if ltb token_budget (total_tokens files)
    then continue_with (trim_sources fuel) files (without_last_source files)
    else files

unfoldable pub remove_role : Text → List SelectedFile → List SelectedFile
remove_role role [] = []
remove_role role (f ∷ files) =
    let rest = remove_role role files in if text_eq f.role role then rest else f ∷ rest

abbrev pub drop_order : List Text
drop_order = codes "model" ∷ codes "handler" ∷ codes "readme" ∷ []

unfoldable pub drop_roles : List Text → List SelectedFile → List SelectedFile
unfolding remove_role
drop_roles [] files = files
drop_roles (role ∷ roles) files =
    let rest = drop_roles roles (remove_role role files) in
    if leb (total_tokens files) token_budget then files else rest

unfoldable pub enforce_token_budget : List SelectedFile → List SelectedFile
unfolding trim_sources drop_roles
enforce_token_budget files = drop_roles drop_order (trim_sources (length files) files)
