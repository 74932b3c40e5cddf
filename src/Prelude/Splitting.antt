-- ===== src/Prelude/Splitting.antt =====
-- Texts that are split at a separator and joined with it.
use Prim.Native.Nat.{ℕ}
use mathlib.Core.Path.{◌≡◌, refl, ap, ap₂, sym, ◌∙◌}
use mathlib.Core.Bool.{Bool, true, false, ◌||◌}
use mathlib.Core.List.{List, [], ◌∷◌, ◌++◌, reverse, reverse_aux}
use mathlib.Core.Option.{some, none-ne-some, some-injective}
use native.Mathlib.Omega.{arith}
use octopusgarden.Prelude.Tests.{◌==◌}
use octopusgarden.Prelude.Lists.{All, any}
use octopusgarden.Prelude.Strings.{cut_prefix, join, split, split_at, Text}

module _ (sep : ℕ) where
  -- The separator does not occur.
  abbrev pub IsPiece : Text → Type 0
  IsPiece = All (λ c. (c == sep) ≡ false)

  split_at-IsPiece :
      (b : Bool) (c : ℕ) (ps : List Text)
      → (c == sep) ≡ b
      → All IsPiece ps
      → All IsPiece (split_at b c ps)
  unfolding split_at
  split_at-IsPiece true c ps e h = (tt, h)
  split_at-IsPiece false c [] e h = ((e, tt), tt)
  split_at-IsPiece false c (p ∷ ps) e (hp, h) = ((e, hp), h)

  pub split-IsPiece : (s : Text) → All IsPiece (split sep s)
  unfolding split
  split-IsPiece [] = (tt, tt)
  split-IsPiece (c ∷ s) = split_at-IsPiece (c == sep) c (split sep s) refl (split-IsPiece s)

  split-piece : (p : Text) → IsPiece p → split sep p ≡ p ∷ []
  unfolding split split_at
  split-piece [] h = refl
  split-piece (c ∷ p) (e, h) = ap₂ (λ b ps. split_at b c ps) e (split-piece p h)

  split-append : (p rest : Text) → IsPiece p → split sep (p ++ sep ∷ rest) ≡ p ∷ split sep rest
  unfolding split split_at
  split-append [] rest h = ap (λ b. split_at b sep (split sep rest)) (self sep)
    where
      self : (n : ℕ) → (n == n) ≡ true
      self n = ground arith
  split-append (c ∷ p) rest (e, h) = ap₂ (λ b ps. split_at b c ps) e (split-append p rest h)

  pub split-join :
      (p : Text) (ps : List Text) → All IsPiece (p ∷ ps) → split sep (join sep (p ∷ ps)) ≡ p ∷ ps
  unfolding join
  split-join p [] (hp, _) = split-piece p hp
  split-join p (q ∷ ps) (hp, h) =
      split-append p (join sep (q ∷ ps)) hp ∙ ap (λ r. p ∷ r) (split-join q ps h)

module _ (sep : ℕ) where
  join-split_at :
      (b : Bool) (c : ℕ) (p : Text) (ps : List Text)
      → (c == sep) ≡ b
      → join sep (split_at b c (p ∷ ps)) ≡ c ∷ join sep (p ∷ ps)
  unfolding split_at join
  join-split_at true c p ps e = ap (λ x. x ∷ join sep (p ∷ ps)) (sym (same c sep e))
    where
      same : (a b : ℕ) → (a == b) ≡ true → a ≡ b
      same a b h = ground arith
  join-split_at false c p [] e = refl
  join-split_at false c p (q ∷ ps) e = refl

  pub split-cons : (s : Text) → (p : Text) × (ps : List Text) × (split sep s ≡ p ∷ ps)
  unfolding split split_at
  split-cons [] = ([], [], refl)
  split-cons (c ∷ s) =
      let (p, ps, e) = split-cons s in go p ps (c == sep) (ap (split_at (c == sep) c) e)
    where
      go :
          (p : Text) (ps : List Text) (b : Bool)
          → split sep (c ∷ s) ≡ split_at b c (p ∷ ps)
          → (q : Text) × (qs : List Text) × (split sep (c ∷ s) ≡ q ∷ qs)
      go p ps true e = ([], p ∷ ps, e)
      go p ps false e = (c ∷ p, ps, e)

  pub join-split : (s : Text) → join sep (split sep s) ≡ s
  unfolding split join
  join-split [] = refl
  join-split (c ∷ s) =
      let (p, ps, e) = split-cons s in
      ap (λ r. join sep (split_at (c == sep) c r)) e
      ∙ join-split_at (c == sep) c p ps refl
      ∙ ap (λ r. c ∷ join sep r) (sym e)
      ∙ ap (λ r. c ∷ r) (join-split s)

module _ {ℓ} {A : Type ℓ} where
  any-reverse_aux :
      (f : A → Bool) (xs ys : List A) → any f (reverse_aux xs ys) ≡ (any f xs || any f ys)
  any-reverse_aux f [] ys = refl
  any-reverse_aux f (x ∷ xs) ys = any-reverse_aux f xs (x ∷ ys) ∙ swap (f x) (any f xs) (any f ys)
    where
      swap : (a b c : Bool) → (b || (a || c)) ≡ ((a || b) || c)
      swap a b c = ground arith

  pub any-reverse : (f : A → Bool) (xs : List A) → any f (reverse xs) ≡ any f xs
  any-reverse f xs = any-reverse_aux f xs [] ∙ last (any f xs)
    where
      last : (a : Bool) → (a || false) ≡ a
      last a = ground arith

  All-reverse_aux :
      (P : A → Type 0) (xs ys : List A) → All P xs → All P ys → All P (reverse_aux xs ys)
  All-reverse_aux P [] ys _ h = h
  All-reverse_aux P (x ∷ xs) ys (px, hx) h = All-reverse_aux P xs (x ∷ ys) hx (px, h)

  pub All-reverse : (P : A → Type 0) (xs : List A) → All P xs → All P (reverse xs)
  All-reverse P xs h = All-reverse_aux P xs [] h tt

pub cut_prefix_eq : (s p r : Text) → cut_prefix s p ≡ some r → s ≡ p ++ r
unfolding cut_prefix
cut_prefix_eq s [] r h = some-injective s r h
cut_prefix_eq [] (y ∷ p) r h = absurd (none-ne-some r h)
cut_prefix_eq (x ∷ s) (y ∷ p) r h = ground (arith, cut_prefix_eq s p r)
