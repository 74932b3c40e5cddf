-- ===== src/Prelude/Trimming.antt =====
-- Texts without spaces at their ends.
use mathlib.Core.Path.{◌≡◌, refl, ap, sym, ◌∙◌}
use mathlib.Core.Logic.{◌≢◌, inl, inr}
use mathlib.Core.List.{[], ◌∷◌, ◌++◌}
use Prim.Native.Nat.{ℕ}
use octopusgarden.Prelude.Tests.{Bool-cases, if◌then◌else◌}
use octopusgarden.Prelude.Strings.{Text, is_space, trim_left, trim_right, trim_space}

unfoldable hang : ℕ → Text → Text
hang c [] = if is_space c then [] else c ∷ []
hang c (d ∷ t) = c ∷ d ∷ t

trim_right-cons : (c : ℕ) (s : Text) → trim_right is_space (c ∷ s) ≡ hang c (trim_right is_space s)
unfolding trim_right hang
trim_right-cons c s = refl

trim_right-hang :
    (c : ℕ) (t : Text) → trim_right is_space t ≡ t → trim_right is_space (hang c t) ≡ hang c t
unfolding trim_right hang
trim_right-hang c [] h = elim (Bool-cases (is_space c)) [
  | inl e ↦ rw e refl
  | inr e ↦ rw (e, e) refl
]
trim_right-hang c (d ∷ t) h = trim_right-cons c (d ∷ t) ∙ ap (hang c) h

trim_right_idem : (s : Text) → trim_right is_space (trim_right is_space s) ≡ trim_right is_space s
unfolding trim_right hang
trim_right_idem [] = refl
trim_right_idem (c ∷ s) = trim_right-hang c (trim_right is_space s) (trim_right_idem s)

pub trim_right-trimmed : (text : Text) → trim_space text ≡ text → trim_right is_space text ≡ text
unfolding trim_space
trim_right-trimmed text h =
    ap (trim_right is_space) (sym h) ∙ trim_right_idem (trim_left is_space text) ∙ h

-- A text that ends as a trimmed one does.
abbrev pub HasEnd : Text → Type 0
HasEnd s = (s ≢ []) × (trim_right is_space s ≡ s)

pub HasEnd-cons : (c : ℕ) (s : Text) → HasEnd s → HasEnd (c ∷ s)
unfolding hang
HasEnd-cons c [] (some_text, h) = absurd (some_text refl)
HasEnd-cons c (d ∷ s) (some_text, h) = (λ k. cc, trim_right-cons c (d ∷ s) ∙ ap (hang c) h)

pub HasEnd-append : (s t : Text) → HasEnd t → HasEnd (s ++ t)
HasEnd-append [] t h = h
HasEnd-append (c ∷ s) t h = HasEnd-cons c (s ++ t) (HasEnd-append s t h)
