-- ===== src/Llm/Json/Laws.antt =====
-- What stands in a fence is what is extracted.
use octopusgarden.Prelude.{
  ◌++◌, ◌==◌, [], after_sub, All, ap, arith, false, has_prefix, HasEnd-append, refl, some, Text,
  trim_left, trim_right, trim_space, ◌∙◌, ◌∷◌, ◌≡◌, ◌≢◌,
}
use octopusgarden.Llm.Json.{
  before_last_fence, before_last_of, extract_json, fence, or_same, strip_fences, without_closing,
  without_opening,
}

before_last_fence-append : (s : Text) → before_last_fence (s ++ fence) ≡ some s
unfolding before_last_fence before_last_of
before_last_fence-append [] = refl
before_last_fence-append (c ∷ s) =
    ap (before_last_of c (has_prefix (c ∷ (s ++ fence)) fence)) (before_last_fence-append s)

-- A text of one line.
abbrev pub IsLine : Text → Type 0
IsLine s = All (λ c. c ≢ b'\n') s

after_sub-line : (s t : Text) → IsLine s → after_sub (b'\n' ∷ []) (s ++ (b'\n' ∷ t)) ≡ some t
unfolding after_sub
after_sub-line [] t h = refl
after_sub-line (c ∷ s) t (other, h) = rw differ (after_sub-line s t h)
  where
    differ : (c == b'\n') ≡ false
    differ = ground (arith, other)

-- A text in a code fence.
abbrev pub fenced : (language body : Text) → Text
fenced language body = fence ++ (language ++ (b'\n' ∷ (body ++ fence)))

trim_space-fenced :
    (language body : Text) → trim_space (fenced language body) ≡ fenced language body
unfolding trim_space trim_left trim_right
trim_space-fenced language body =
    (HasEnd-append fence (language ++ (b'\n' ∷ (body ++ fence))) (
      HasEnd-append language (b'\n' ∷ (body ++ fence))
        (HasEnd-append (b'\n' ∷ body) fence ((λ h. cc), refl)))).1

-- From a body in a code fence, whatever one-line tag the fence has, exactly the body is extracted,
-- less the space around it.
pub extract_json-fenced :
    (language body : Text) → IsLine language → extract_json (fenced language body) ≡ trim_space body
unfolding extract_json strip_fences without_opening without_closing
extract_json-fenced language body h =
    ap strip_fences (trim_space-fenced language body)
    ∙ ap (λ o. trim_space (without_closing (or_same o (fenced language body)))) opened
    ∙ ap (λ o. trim_space (or_same o (body ++ fence))) (before_last_fence-append body)
  where
    opened : after_sub (b'\n' ∷ []) (fenced language body) ≡ some (body ++ fence)
    opened =
        after_sub-line (fence ++ language) (body ++ fence) ((λ k. cc), ((λ k. cc), ((λ k. cc), h)))
