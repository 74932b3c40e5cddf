-- ===== src/Scenario/JsonPath/Laws.antt =====
-- What a path finds, and what the lint check promises of it.
use mathlib.Core.Option.{none-ne-some}
use octopusgarden.Prelude.{
  [], All, any, arith, Bool, cut_prefix, false, List, none, Option, some, split, split-cons, sym,
  Text, text_eq, text_eq_iff, true, ℕ, ◌∷◌, ◌≡◌, ◌≢◌,
}
use octopusgarden.Scenario.Types.{Fields, Json, obj}
use octopusgarden.Scenario.JsonPath.{
  Evaluated, failed, field_of, keys_behind, missing_prefix, named_keys, path_keys, path_prefix,
  scalar_to_string, syntax_behind, validate_json_path_syntax, value,
}

-- `At root keys v`: the nested keys lead from `root` to `v`.
pub data At {R : Type 0} : Json R → List Text → Json R → Type 0 where
  here : {v : Json R} → At v [] v
  there :
      {key : Text} {keys : List Text} {fields : Fields R} {u v : Json R}
      → field_of key fields ≡ some u
      → At u keys v
      → At (obj fields) (key ∷ keys) v

is_value : Evaluated → Bool
is_value (value s) = true
is_value (failed e) = false

module _ {R : Type 0} (format_number : R → Text) where
  -- What a path finds: the path has keys, the body parses, and the keys lead, one into the other,
  -- from the document to a scalar that is written so.
  pub record HasValue (unmarshal : Text → Option (Json R)) (body path s : Text) : Type 0 where
    pub names : List Text
    pub root : Json R
    pub leaf : Json R
    pub is_path : path_keys path ≡ some names
    pub is_parsed : unmarshal body ≡ some root
    pub is_found : At root names leaf
    pub is_written : scalar_to_string format_number leaf ≡ value s

all_named :
    (names : List Text) → any (λ k. text_eq k []) names ≡ false → All (λ (k : Text). k ≢ []) names
all_named [] h = tt
all_named (k ∷ names) h = (λ e. ground (arith, text_eq_iff k []), all_named names (ground arith))

named_split :
    (sep : ℕ) (s : Text)
    → any (λ k. text_eq k []) (split sep s) ≡ false
    → named_keys (split sep s) ≡ some (split sep s)
named_split sep s h = go (split sep s) (split-cons sep s) h
  where
    go :
        (ps : List Text)
        → ((p : Text) × (qs : List Text) × (ps ≡ p ∷ qs))
        → any (λ k. text_eq k []) ps ≡ false
        → named_keys ps ≡ some ps
    go [] (p, qs, e) h = ground arith
    go (p ∷ qs) some_part h = ground arith

-- A path that the lint check accepts is never invalid when a step is run, and all of its keys are
-- names.
pub validate_json_path_syntax-path_keys :
    (path : Text)
    → validate_json_path_syntax path ≡ none
    → (names : List Text) × (path_keys path ≡ some names) × All (λ (k : Text). k ≢ []) names
unfolding validate_json_path_syntax path_keys
validate_json_path_syntax-path_keys path h = go (cut_prefix path path_prefix) h
  where
    go :
        (o : Option Text)
        → syntax_behind o ≡ none
        → (names : List Text) × (keys_behind o ≡ some names) × All (λ (k : Text). k ≢ []) names
    go none h = absurd (none-ne-some missing_prefix (sym h))
    go (some rest) h =
        let parts = split b'.' rest in
        let full : any (λ k. text_eq k []) parts ≡ false = ground arith in
        (parts, named_split b'.' rest full, all_named parts full)
