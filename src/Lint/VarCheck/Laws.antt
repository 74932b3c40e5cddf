-- ===== src/Lint/VarCheck/Laws.antt =====
-- Which references are found, and what it means that none is reported.
use mathlib.Core.Path.{subst}
use octopusgarden.Prelude.{
  ◌++◌, ◌==◌, ==_iff, [], All, All-append, ap, append-nil, append_assoc, arith, Bool-cases, In, inl,
  inr, List, none, Option, refl, some, split, sym, Text, true, ℕ, ◌↔◌, ◌∙◌, ◌∷◌, ◌≡◌, ◌⊎◌,
}
use octopusgarden.Lint.VarCheck.{
  emit, extract_var_refs, fits, inside, is_name_char, is_name_start, Match, match_end, next_match,
  outside, refs_from,
}
use octopusgarden.Scenario.Variables.{placeholder}

-- A letter or `_`, and then letters, digits and `_`.
abbrev pub IsName : Text → Type 0
IsName [] = ⊥
IsName (c ∷ s) = (is_name_start c ≡ true) × All (λ d. is_name_char d ≡ true) s

-- The placeholder of `name` stands in `s`.
abbrev pub Mentions : Text → Text → Type 0
Mentions s name = (pre : Text) × (post : Text) × (s ≡ pre ++ (placeholder name ++ post))

In-emit :
    (o : Option Text) (name : Text) (names : List Text) → In name names → In name (emit o names)
In-emit none name names h = h
In-emit (some n) name names h = inr h

next_match-char :
    (d : ℕ) (read : Text) (c : ℕ)
    → is_name_char c ≡ true
    → next_match (inside (d ∷ read)) c ≡ inside ((d ∷ read) ++ c ∷ [])
unfolding next_match
next_match-char d read c h = ground arith

-- Behind a brace and some characters of a name.
refs_from-rest :
    (d : ℕ) (read name post : Text)
    → All (λ e. is_name_char e ≡ true) name
    → In ((d ∷ read) ++ name) (refs_from (inside (d ∷ read)) (name ++ (b'}' ∷ post)))
unfolding refs_from match_end
refs_from-rest d read [] post h = inl (sym (append-nil (d ∷ read)))
refs_from-rest d read (c ∷ name) post (hc, h) = In-emit (match_end (inside (d ∷ read)) c) _ _ (
    subst (λ m. In ((d ∷ read) ++ c ∷ name) (refs_from m (name ++ (b'}' ∷ post))))
      (sym (next_match-char d read c hc))
      (subst (λ n. In n (refs_from (inside (d ∷ (read ++ c ∷ []))) (name ++ (b'}' ∷ post))))
        (append_assoc (d ∷ read) (c ∷ []) name) (refs_from-rest d (read ++ c ∷ []) name post h)))

next_match-start : (c : ℕ) → is_name_start c ≡ true → next_match (inside []) c ≡ inside (c ∷ [])
unfolding next_match
next_match-start c h = ground arith

refs_from-name :
    (name post : Text) → IsName name → In name (refs_from (inside []) (name ++ (b'}' ∷ post)))
unfolding refs_from match_end
refs_from-name [] post h = absurd h
refs_from-name (c ∷ name) post (hc, h) =
    subst (λ m. In (c ∷ name) (refs_from m (name ++ (b'}' ∷ post)))) (sym (next_match-start c hc))
      (refs_from-rest c [] name post h)

next_match-brace : (m : Match) → next_match m b'{' ≡ inside []
unfolding next_match
next_match-brace outside = refl
next_match-brace (inside name) = refl

In-refs_from :
    (m : Match) (name pre post : Text)
    → IsName name
    → In name (refs_from m (pre ++ (placeholder name ++ post)))
unfolding refs_from
In-refs_from m name [] post h = In-emit (match_end m b'{') name _ (
    subst (λ k. In name (refs_from k ((name ++ b'}' ∷ []) ++ post))) (sym (next_match-brace m))
      (subst (λ s. In name (refs_from (inside []) s)) (sym (append_assoc name (b'}' ∷ []) post))
        (refs_from-name name post h)))
In-refs_from m name (c ∷ pre) post h =
    In-emit (match_end m c) name _ (In-refs_from (next_match m c) name pre post h)

-- What a reference that is found says, in each state.
abbrev Found : Match → Text → Text → Type 0
Found outside s name = Mentions s name
Found (inside read) s name =
    Mentions s name
    ⊎ ((tail : Text) × (post : Text) × (name ≡ read ++ tail) × (s ≡ tail ++ (b'}' ∷ post)))

Mentions-cons : (c : ℕ) (s name : Text) → Mentions s name → Mentions (c ∷ s) name
Mentions-cons c s name (pre, post, e) = (c ∷ pre, post, ap (λ x. c ∷ x) e)

Mentions-inside : (s name : Text) → Found (inside []) s name → Mentions (b'{' ∷ s) name
Mentions-inside s name (inl h) = Mentions-cons b'{' s name h
Mentions-inside s name (inr (tail, post, same, e)) = (
  [],
  post,
  ap (λ x. b'{' ∷ x)
      (e ∙ ap (λ x. x ++ (b'}' ∷ post)) (sym same) ∙ sym (append_assoc name (b'}' ∷ []) post)),
)

-- One step back.
Found-next :
    (m : Match) (c : ℕ) (s name : Text) → Found (next_match m c) s name → Found m (c ∷ s) name
unfolding next_match
Found-next outside c s name h = elim (Bool-cases (c == b'{')) [
  | inl e ↦
      let opened : Found (inside []) s name = rw e at h in
      subst (λ d. Mentions (d ∷ s) name) (sym ((==_iff c b'{').0 e)) (Mentions-inside s name opened)
  | inr e ↦ Mentions-cons c s name (rw e at h)
]
Found-next (inside read) c s name h = elim (Bool-cases (c == b'{')) [
  | inl e ↦
      let opened : Found (inside []) s name = rw e at h in
      inl (
        subst (λ d. Mentions (d ∷ s) name) (sym ((==_iff c b'{').0 e))
          (Mentions-inside s name opened))
  | inr e ↦ elim (Bool-cases (fits read c)) [
    | inl f ↦
        let longer : Found (inside (read ++ c ∷ [])) s name = rw (e, f) at h in
        elim longer [
          | inl mention ↦ inl (Mentions-cons c s name mention)
          | inr (tail, post, same, split) ↦
              inr (c ∷ tail, post, same ∙ append_assoc read (c ∷ []) tail, ap (λ x. c ∷ x) split)
        ]
    | inr f ↦ inl (Mentions-cons c s name (rw (e, f) at h))
  ]
]

refs_from-Found : (m : Match) (s name : Text) → In name (refs_from m s) → Found m s name
unfolding refs_from match_end
refs_from-Found m [] name h = absurd h
refs_from-Found outside (c ∷ s) name h =
    Found-next outside c s name (refs_from-Found (next_match outside c) s name h)
refs_from-Found (inside []) (c ∷ s) name h =
    Found-next (inside []) c s name (refs_from-Found (next_match (inside []) c) s name h)
refs_from-Found (inside (d ∷ read)) (c ∷ s) name h = elim (Bool-cases (c == b'}')) [
  | inl e ↦
      let ended : In name ((d ∷ read) ∷ refs_from (next_match (inside (d ∷ read)) c) s) =
        rw e at h in
      elim ended [
        | inl same ↦
            inr
              ([], s, sym same ∙ sym (append-nil (d ∷ read)), ap (λ x. x ∷ s) ((==_iff c b'}').0 e))
        | inr later ↦
            Found-next (inside (d ∷ read)) c s name
              (refs_from-Found (next_match (inside (d ∷ read)) c) s name later)
      ]
  | inr e ↦
      Found-next (inside (d ∷ read)) c s name
        (refs_from-Found (next_match (inside (d ∷ read)) c) s name (rw e at h))
]

-- What is read of a name so far is one.
abbrev IsBegun : Match → Type 0
IsBegun outside = Unit
IsBegun (inside []) = Unit
IsBegun (inside (d ∷ read)) = IsName (d ∷ read)

IsName-char :
    (d : ℕ) (read : Text) (c : ℕ)
    → IsName (d ∷ read)
    → is_name_char c ≡ true
    → IsName (d ∷ (read ++ c ∷ []))
IsName-char d read c (first, rest) h =
    (first, All-append (λ e. is_name_char e ≡ true) read (c ∷ []) rest (h, tt))

IsBegun-next : (m : Match) (c : ℕ) → IsBegun m → IsBegun (next_match m c)
unfolding next_match
IsBegun-next outside c h = elim (Bool-cases (c == b'{')) [ inl e ↦ rw e tt | inr e ↦ rw e tt ]
IsBegun-next (inside []) c h = elim (Bool-cases (c == b'{')) [
  | inl e ↦ rw e tt
  | inr e ↦ elim (Bool-cases (is_name_start c)) [ inl f ↦ rw (e, f) (f, tt) | inr f ↦ rw (e, f) tt ]
]
IsBegun-next (inside (d ∷ read)) c h = elim (Bool-cases (c == b'{')) [
  | inl e ↦ rw e tt
  | inr e ↦ elim (Bool-cases (is_name_char c)) [
    | inl f ↦ rw (e, f) (IsName-char d read c h f)
    | inr f ↦ rw (e, f) tt
  ]
]

refs_from-IsName : (m : Match) (s name : Text) → IsBegun m → In name (refs_from m s) → IsName name
unfolding refs_from match_end
refs_from-IsName m [] name b h = absurd h
refs_from-IsName outside (c ∷ s) name b h =
    refs_from-IsName (next_match outside c) s name (IsBegun-next outside c b) h
refs_from-IsName (inside []) (c ∷ s) name b h =
    refs_from-IsName (next_match (inside []) c) s name (IsBegun-next (inside []) c b) h
refs_from-IsName (inside (d ∷ read)) (c ∷ s) name b h = elim (Bool-cases (c == b'}')) [
  | inl e ↦
      let ended : In name ((d ∷ read) ∷ refs_from (next_match (inside (d ∷ read)) c) s) =
        rw e at h in
      elim ended [
        | inl same ↦ subst IsName same b
        | inr later ↦
            refs_from-IsName (next_match (inside (d ∷ read)) c) s name
              (IsBegun-next (inside (d ∷ read)) c b) later
      ]
  | inr e ↦
      refs_from-IsName (next_match (inside (d ∷ read)) c) s name
        (IsBegun-next (inside (d ∷ read)) c b) (rw e at h)
]

-- The references that are found are exactly the names whose placeholders stand in the text.
pub extract_var_refs_iff :
    (s name : Text) → In name (extract_var_refs s) ↔ (IsName name × Mentions s name)
unfolding extract_var_refs
extract_var_refs_iff s name = (
  λ h. (refs_from-IsName outside s name tt h, refs_from-Found outside s name h),
  λ (h, (pre, post, e)).
      subst (λ x. In name (refs_from outside x)) (sym e) (In-refs_from outside name pre post h),
)
