-- ===== src/Lint/VarCheck/Tests.antt =====
-- The references of a small text.
use octopusgarden.Prelude.{[], codes, List, refl, Text, true, ◌↔◌, ◌∷◌, ◌≡◌}
use octopusgarden.Lint.VarCheck.{
  check_from, check_var_refs, extract_var_refs, has, match_end, next_match, refs_from, uncaptured,
}
use octopusgarden.Lint.VarCheck.Laws.{IsName, Mentions}
use octopusgarden.Lint.VarCheck.Reported.{check_var_refs-extract_var_refs}

abbrev url : Text
url = codes "/users/{id}/{9}{tok{name}/{id}"

abbrev url_refs : List Text
url_refs = codes "id" ∷ codes "name" ∷ codes "id" ∷ []

finds : extract_var_refs url ≡ url_refs
unfolding extract_var_refs refs_from next_match match_end
finds = refl

reports_once :
    check_var_refs url_refs (codes "name" ∷ []) (codes "a.yaml") 3
    ≡ uncaptured (codes "a.yaml") 3 (codes "id") ∷ []
unfolding check_var_refs check_from
reports_once = refl

check_var_refs-extract_var_refs_example :
    (check_var_refs (extract_var_refs url) (codes "name" ∷ codes "id" ∷ []) (codes "a.yaml") 3 ≡ [])
    ↔ ((name : Text)
        → IsName name
        → Mentions url name
        → has name (codes "name" ∷ codes "id" ∷ []) ≡ true)
check_var_refs-extract_var_refs_example =
    check_var_refs-extract_var_refs url (codes "name" ∷ codes "id" ∷ []) (codes "a.yaml") 3
