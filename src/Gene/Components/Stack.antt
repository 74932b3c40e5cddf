-- ===== src/Gene/Components/Stack.antt =====
-- The stack of the search for cycles, and the names that are not on it.
use mathlib.Core.Path.{subst}
use octopusgarden.Prelude.{
  ◌+◌, ◌++◌, ◌<◌, [], All, arith, Bool, Bool-cases, eq_of_text_eq, false, if◌then◌else◌, inl, inr,
  length, List, refl, sym, Text, text_eq, text_eq_refl, true, ℕ, ◌∷◌, ◌≡◌, ◌≤◌,
}
use octopusgarden.Attractor.Toposort.{has_name}
use octopusgarden.Gene.Components.Cycles.{unset}

unset_absent :
    (name : Text) (stack : List Text) → has_name name stack ≡ false → unset name stack ≡ stack
unfolding unset
unset_absent name [] e = refl
unset_absent name (k ∷ ks) e = ground (arith, e, unset_absent name ks)

pub unset_entered :
    (name : Text) (stack : List Text)
    → has_name name stack ≡ false
    → unset name (name ∷ stack) ≡ stack
unfolding unset
unset_entered name stack e = rw (text_eq_refl name) (unset_absent name stack e)

-- The keys that are not on the stack.
unfoldable pub count_out : List Text → List Text → ℕ
count_out stack [] = 0
count_out stack (k ∷ ks) =
    let rest = count_out stack ks in if has_name k stack then rest else rest + 1

count_out_mono :
    (name : Text) (stack ks : List Text) → count_out (name ∷ stack) ks ≤ count_out stack ks
unfolding count_out
count_out_mono name stack [] = omega arith
count_out_mono name stack (k ∷ ks) = ground (arith, count_out_mono name stack ks)

pub count_out_enter :
    (name : Text) (stack ks : List Text)
    → has_name name ks ≡ true
    → has_name name stack ≡ false
    → count_out (name ∷ stack) ks < count_out stack ks
unfolding count_out
count_out_enter name stack [] e out = cc
count_out_enter name stack (k ∷ ks) e out = elim (Bool-cases (text_eq k name)) [
  | inl same ↦
      subst (λ x. count_out (name ∷ stack) (x ∷ ks) < count_out stack (x ∷ ks))
        (sym (eq_of_text_eq k name same))
        (ground (arith, out, text_eq_refl name, count_out_mono name stack ks))
  | inr other ↦
      ground (arith, other, e, count_out_enter name stack ks, count_out_mono name stack ks)
]

pub count_out-length : (ks : List Text) → count_out [] ks ≡ length ks
unfolding count_out
count_out-length [] = refl
count_out-length (k ∷ ks) = omega (arith, count_out-length ks)

pub has_name-append :
    (x y : Text) (names : List Text) → has_name x (names ++ y ∷ []) ≡ has_name x (y ∷ names)
has_name-append x y [] = refl
has_name-append x y (n ∷ names) = ground (arith, has_name-append x y names)

pub All-at :
    (P : Text → Bool) (names : List Text) (x : Text)
    → All (λ d. P d ≡ true) names
    → has_name x names ≡ true
    → P x ≡ true
All-at P [] x h e = cc
All-at P (n ∷ names) x (p, h) e = elim (Bool-cases (text_eq n x)) [
  | inl same ↦ subst (λ y. P y ≡ true) (eq_of_text_eq n x same) p
  | inr other ↦ All-at P names x h (ground (arith, other, e))
]
