-- ===== src/Attractor/FileParse/Paths.antt =====
-- Which paths a file block may have.
use mathlib.Core.List.{reverse}
use octopusgarden.Prelude.{
  ◌&&◌, [], All, All-reverse, any, any-reverse, ap, arith, Bool, Bool-cases, eq_of_text_eq, false,
  has_prefix, if◌then◌else◌, inl, inr, IsPiece, join, length, List, not, refl, split, split-IsPiece,
  split-join, split_at, suc, sym, Text, text_eq, true, zero, ◌||◌, ℕ, ◌∙◌, ◌∷◌, ◌≡◌,
}
use octopusgarden.Attractor.FileParse.{
  clean, clean_parts, climb, dot, dot_dot, slash, validate_path,
}

abbrev is_up : Text → Bool
is_up p = text_eq p dot_dot

-- Walking down a path from a directory at some depth never leaves the directory at depth 0.
abbrev pub stays_inside : ℕ → List Text → Bool
stays_inside depth [] = true
stays_inside depth (p ∷ ps) =
    let here = stays_inside depth ps in
    let below = stays_inside (suc depth) ps in
    let above : Bool = elim depth [ zero ↦ false | suc d ↦ stays_inside d ps ] in
    if text_eq p [] || text_eq p dot then here else if text_eq p dot_dot then above else below

climb-is_up :
    (kept : List Text) (p : Text)
    → any is_up kept ≡ true
    → is_up p ≡ true
    → any is_up (climb false kept p) ≡ true
unfolding climb
climb-is_up [] p h e = ground arith
climb-is_up (k ∷ ks) p h e = ground arith

-- Once the kept components climb above the start, they do so to the end.
clean_parts-is_up :
    (kept ps : List Text) → any is_up kept ≡ true → any is_up (clean_parts false kept ps) ≡ true
unfolding clean_parts
clean_parts-is_up kept [] h = h
clean_parts-is_up kept (p ∷ ps) h = elim (Bool-cases (text_eq p [] || text_eq p dot)) [
  | inl e ↦ rw e (clean_parts-is_up kept ps h)
  | inr e ↦ elim (Bool-cases (text_eq p dot_dot)) [
    | inl up ↦ rw (e, up) (clean_parts-is_up (climb false kept p) ps (climb-is_up kept p h up))
    | inr down ↦ rw (e, down) (clean_parts-is_up (p ∷ kept) ps (rw down h))
  ]
]

false_of_or : (a b : Bool) → (a || b) ≡ false → (a ≡ false) × (b ≡ false)
false_of_or a b h = (ground arith, ground arith)

climb-stays_inside :
    (kept : List Text) (p : Text) (ps : List Text)
    → ((ks : List Text)
        → any is_up ks ≡ false
        → any is_up (clean_parts false ks ps) ≡ not (stays_inside (length ks) ps))
    → any is_up kept ≡ false
    → is_up p ≡ true
    → any is_up (clean_parts false (climb false kept p) ps)
      ≡ not (elim (length kept) [ zero ↦ false | suc d ↦ stays_inside d ps ])
unfolding climb
climb-stays_inside [] p ps rest h up = clean_parts-is_up (p ∷ []) ps (rw up refl)
climb-stays_inside (k ∷ ks) p ps rest h up =
    rw (false_of_or (is_up k) (any is_up ks) h).0
      (rest ks (false_of_or (is_up k) (any is_up ks) h).1)

clean_parts-stays_inside :
    (kept ps : List Text)
    → any is_up kept ≡ false
    → any is_up (clean_parts false kept ps) ≡ not (stays_inside (length kept) ps)
unfolding clean_parts
clean_parts-stays_inside kept [] h = h
clean_parts-stays_inside kept (p ∷ ps) h = elim (Bool-cases (text_eq p [] || text_eq p dot)) [
  | inl e ↦ rw e (clean_parts-stays_inside kept ps h)
  | inr e ↦ elim (Bool-cases (text_eq p dot_dot)) [
    | inl up ↦ rw (e, up) (climb-stays_inside kept p ps (λ ks. clean_parts-stays_inside ks ps) h up)
    | inr down ↦ rw (e, down) (clean_parts-stays_inside (p ∷ kept) ps (rw down h))
  ]
]

climb-All :
    (P : Text → Type 0) (kept : List Text) (p : Text)
    → All P kept
    → P p
    → All P (climb false kept p)
unfolding climb
climb-All P [] p h hp = (hp, tt)
climb-All P (k ∷ ks) p (hk, h) hp = elim (Bool-cases (text_eq k dot_dot)) [
  | inl e ↦ rw e (hp, (hk, h))
  | inr e ↦ rw e h
]

clean_parts-All :
    (P : Text → Type 0) (kept ps : List Text)
    → All P kept
    → All P ps
    → All P (clean_parts false kept ps)
unfolding clean_parts
clean_parts-All P kept [] h _ = h
clean_parts-All P kept (p ∷ ps) h (hp, hps) = elim (Bool-cases (text_eq p [] || text_eq p dot)) [
  | inl e ↦ rw e (clean_parts-All P kept ps h hps)
  | inr e ↦ elim (Bool-cases (text_eq p dot_dot)) [
    | inl up ↦ rw (e, up) (clean_parts-All P _ ps (climb-All P kept p h hp) hps)
    | inr down ↦ rw (e, down) (clean_parts-All P (p ∷ kept) ps (hp, h) hps)
  ]
]

-- The components of a path that is put together again.
joined_up :
    (parts : List Text)
    → All (IsPiece slash) parts
    → any is_up (split slash (if text_eq (join slash parts) [] then dot else join slash parts))
      ≡ any is_up parts
unfolding join split split_at
joined_up [] h = refl
joined_up (p ∷ ps) h = elim (Bool-cases (text_eq (join slash (p ∷ ps)) [])) [
  | inl e ↦ rw e (
      sym (
        ap (any is_up) (
          sym (split-join slash p ps h)
          ∙ ap (split slash) (eq_of_text_eq (join slash (p ∷ ps)) [] e))))
  | inr e ↦ rw (e, split-join slash p ps h) refl
]

not-not : (b : Bool) → not (not b) ≡ b
not-not b = ground arith

-- A path is accepted exactly if it is relative and walking down it never leaves the directory in
-- which it starts.
pub validate_path_iff :
    (path : Text)
    → validate_path path ≡ (not (has_prefix path (slash ∷ [])) && stays_inside 0 (split slash path))
unfolding validate_path clean
validate_path_iff path = elim (Bool-cases (has_prefix path (slash ∷ []))) [
  | inl e ↦ rw e refl
  | inr e ↦
      let kept = clean_parts false [] (split slash path) in
      let pieces =
        All-reverse (IsPiece slash) kept
          (clean_parts-All (IsPiece slash) [] (split slash path) tt (split-IsPiece slash path)) in
      rw e (
        ap not (
          joined_up (reverse kept) pieces
          ∙ any-reverse is_up kept
          ∙ clean_parts-stays_inside [] (split slash path) refl)
        ∙ not-not (stays_inside 0 (split slash path)))
]
