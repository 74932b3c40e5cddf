-- ===== src/Scenario/Variables/Laws.antt =====
-- What the captures of a step change.
use octopusgarden.Prelude.{
  ◌++◌, [], All, arith, Dict, insert, List, lookup, lookup-insert, lookup-insert_self, none, refl,
  some, Text, text_eq_iff, ◌∙◌, ◌∷◌, ◌≡◌, ◌≢◌,
}
use octopusgarden.Scenario.JsonPath.{Evaluated}
use octopusgarden.Scenario.Types.{Capture, StepOutput}
use octopusgarden.Scenario.Variables.{
  apply_captures, captured, resolve_capture, resolved, Resolved, unresolved,
}

lookup-insert_other : (k j v : Text) (m : Dict Text) → k ≢ j → lookup j (insert k v m) ≡ lookup j m
lookup-insert_other k j v m h = ground (arith, lookup-insert k j v m, text_eq_iff k j)

module _ (eval : Text → Text → Evaluated) where
  -- A variable that no capture names keeps its value, and so does one that is captured only behind
  -- the first error.
  pub lookup-apply_captures :
      (captures : List Capture) (output : StepOutput) (vars : Dict Text) (k : Text)
      → All (λ c. c.name ≢ k) captures
      → lookup k (apply_captures eval captures output vars).0 ≡ lookup k vars
  unfolding apply_captures
  lookup-apply_captures [] output vars k h = refl
  lookup-apply_captures (c ∷ captures) output vars k (other, h) =
      next (resolve_capture eval c output) (λ v.
        lookup-apply_captures captures output (insert c.name v vars) k h
        ∙ lookup-insert_other c.name k v vars other)
    where
      next :
          (r : Resolved)
          → ((v : Text)
              → lookup k (apply_captures eval captures output (insert c.name v vars)).0
                ≡ lookup k vars)
          → lookup k (captured eval r c.name (apply_captures eval captures output) vars).0
            ≡ lookup k vars
      next (resolved v) g = g v
      next (unresolved e) g = refl

  -- When no capture fails, the last capture that names a variable decides its value.
  pub apply_captures-last :
      (before : List Capture) (c : Capture) (after : List Capture) (output : StepOutput)
      (vars : Dict Text)
      → All (λ a. a.name ≢ c.name) after
      → (apply_captures eval (before ++ c ∷ after) output vars).1 ≡ none
      → (v : Text) × (resolve_capture eval c output ≡ resolved v)
        × (lookup c.name (apply_captures eval (before ++ c ∷ after) output vars).0 ≡ some v)
  unfolding apply_captures captured
  apply_captures-last [] c after output vars others h =
      decided (resolve_capture eval c output) refl h
    where
      decided :
          (r : Resolved)
          → resolve_capture eval c output ≡ r
          → (captured eval r c.name (apply_captures eval after output) vars).1 ≡ none
          → (v : Text) × (resolve_capture eval c output ≡ resolved v)
            × (lookup c.name (captured eval r c.name (apply_captures eval after output) vars).0
                ≡ some v)
      decided (resolved v) e g = (
        v,
        e,
        lookup-apply_captures after output (insert c.name v vars) c.name others
            ∙ lookup-insert_self c.name v vars,
      )
      decided (unresolved x) e g = cc
  apply_captures-last (b ∷ before) c after output vars others h =
      passed (resolve_capture eval b output) h
        (λ v. apply_captures-last before c after output (insert b.name v vars) others)
    where
      passed :
          (r : Resolved)
          → (captured eval r b.name (apply_captures eval (before ++ c ∷ after) output) vars).1
            ≡ none
          → ((w : Text)
              → (apply_captures eval (before ++ c ∷ after) output (insert b.name w vars)).1 ≡ none
              → (v : Text) × (resolve_capture eval c output ≡ resolved v)
                × (lookup c.name
                      (apply_captures eval (before ++ c ∷ after) output (insert b.name w vars)).0
                    ≡ some v))
          → (v : Text) × (resolve_capture eval c output ≡ resolved v)
            × (lookup c.name
                  (captured eval r b.name (apply_captures eval (before ++ c ∷ after) output) vars).0
                ≡ some v)
      passed (resolved w) g rest = rest w g
      passed (unresolved x) g rest = cc
