-- ===== src/Prelude/Strings.antt =====
-- Go strings. A text is the list of the code points of a valid UTF-8 string. On such strings the
-- functions of Go's `strings` package that the program uses agree with these functions on code
-- points, and `strings.Compare` with the order by code points. The length that Go counts in bytes
-- is `byte_length`.
use Prim.Native.Nat.{ℕ, zero, suc, ◌-◌}
use Prim.Native.Char.{code}
use Prim.Native.String.{String}
use mathlib.Core.Path.{◌≡◌, refl}
use mathlib.Core.Logic.{◌↔◌}
use mathlib.Core.Bool.{Bool, true, false, ◌&&◌, ◌||◌}
use mathlib.Core.List.{List, [], ◌∷◌, ◌++◌, reverse}
use mathlib.Core.Option.{Option, none, some}
use native.Mathlib.Omega.{arith}
use octopusgarden.Prelude.Lists.{drop, length}
use octopusgarden.Prelude.Tests.{◌==◌, if◌then◌else◌, leb, ltb}

abbrev pub Text : Type 0
Text = List ℕ

-- The code points of a literal.
abbrev pub codes : String → Text
codes String.[] = []
codes (String.◌∷◌ c s) = code c ∷ codes s

-- `a == b` on strings.
abbrev pub text_eq : Text → Text → Bool
text_eq [] [] = true
text_eq [] (y ∷ ys) = false
text_eq (x ∷ xs) [] = false
text_eq (x ∷ xs) (y ∷ ys) = (x == y) && text_eq xs ys

pub text_eq_refl : (s : Text) → text_eq s s ≡ true
text_eq_refl [] = refl
text_eq_refl (x ∷ xs) = ground (arith, text_eq_refl xs)

pub eq_of_text_eq : (s t : Text) → text_eq s t ≡ true → s ≡ t
eq_of_text_eq [] [] h = refl
eq_of_text_eq [] (y ∷ ys) h = cc
eq_of_text_eq (x ∷ xs) [] h = cc
eq_of_text_eq (x ∷ xs) (y ∷ ys) h = ground (arith, eq_of_text_eq xs ys)

pub text_eq_iff : (s t : Text) → (text_eq s t ≡ true) ↔ (s ≡ t)
text_eq_iff s t = (eq_of_text_eq s t, λ e. rw e (text_eq_refl t))

-- `strings.Compare(a, b) < 0`.
abbrev pub text_lt : Text → Text → Bool
text_lt [] [] = false
text_lt [] (y ∷ ys) = true
text_lt (x ∷ xs) [] = false
text_lt (x ∷ xs) (y ∷ ys) = ltb x y || ((x == y) && text_lt xs ys)

-- strings.HasPrefix
abbrev pub has_prefix : Text → Text → Bool
has_prefix s [] = true
has_prefix [] (y ∷ ys) = false
has_prefix (x ∷ xs) (y ∷ ys) = (x == y) && has_prefix xs ys

-- strings.HasSuffix
abbrev pub has_suffix : Text → Text → Bool
has_suffix s t = has_prefix (reverse s) (reverse t)

-- unicode.IsSpace
abbrev pub is_space : ℕ → Bool
is_space c =
    (leb 9 c && leb c 13)
    || (c == 32)
    || (c == 0x85)
    || (c == 0xa0)
    || (c == 0x1680)
    || (leb 0x2000 c && leb c 0x200a)
    || (c == 0x2028)
    || (c == 0x2029)
    || (c == 0x202f)
    || (c == 0x205f)
    || (c == 0x3000)

unfoldable pub trim_left : (ℕ → Bool) → Text → Text
trim_left p [] = []
trim_left p (c ∷ s) = let rest = trim_left p s in if p c then rest else c ∷ s

unfoldable pub trim_right : (ℕ → Bool) → Text → Text
trim_right p [] = []
trim_right p (c ∷ s) = elim (trim_right p s) [ [] ↦ if p c then [] else c ∷ [] | d ∷ t ↦ c ∷ d ∷ t ]

-- strings.TrimSpace
unfoldable pub trim_space : Text → Text
unfolding trim_left trim_right
trim_space s = trim_right is_space (trim_left is_space s)

-- The parts with one more character before them, which may be the separator.
unfoldable pub split_at : Bool → ℕ → List Text → List Text
split_at true c parts = [] ∷ parts
split_at false c [] = (c ∷ []) ∷ []
split_at false c (p ∷ ps) = (c ∷ p) ∷ ps

-- strings.Split(s, sep) for a separator of one character.
unfoldable pub split : ℕ → Text → List Text
unfolding split_at
split sep [] = [] ∷ []
split sep (c ∷ s) = split_at (c == sep) c (split sep s)

-- strings.Join(parts, sep)
unfoldable pub join : ℕ → List Text → Text
join sep [] = []
join sep (p ∷ []) = p
join sep (p ∷ q ∷ ps) = p ++ (sep ∷ join sep (q ∷ ps))

-- The part before the first separator, or the whole: `before, _, _ := strings.Cut(s, sep)`.
unfoldable pub before_first : ℕ → Text → Text
before_first sep [] = []
before_first sep (c ∷ s) = let rest = before_first sep s in if c == sep then [] else c ∷ rest

-- strings.CutPrefix, with `none` for "not found".
unfoldable pub cut_prefix : Text → Text → Option Text
cut_prefix s [] = some s
cut_prefix [] (y ∷ ys) = none
cut_prefix (x ∷ xs) (y ∷ ys) = if x == y then cut_prefix xs ys else none

-- s[:i] and s[i+1:] for i = strings.LastIndex(s, sep), with `none` for -1.
unfoldable pub cut_last : ℕ → Text → Option (Text × Text)
cut_last sep [] = none
cut_last sep (c ∷ s) = elim (cut_last sep s) [
  | some (before, after) ↦ some (c ∷ before, after)
  | none ↦ if c == sep then some ([], s) else none
]

-- s[:i] for i = strings.Index(s, sub), with `none` for -1.
unfoldable pub before_sub : Text → Text → Option Text
before_sub sub [] = if has_prefix [] sub then some [] else none
before_sub sub (c ∷ s) = elim (before_sub sub s) [
  | none ↦ if has_prefix (c ∷ s) sub then some [] else none
  | some t ↦ if has_prefix (c ∷ s) sub then some [] else some (c ∷ t)
]

-- strings.ReplaceAll(s, old, new) for an `old` that is not empty; `skip` characters belong to an
-- occurrence that was replaced.
unfoldable pub replace_from : (old new : Text) → (skip : ℕ) → Text → Text
replace_from old new skip [] = []
replace_from old new (suc skip) (c ∷ s) = replace_from old new skip s
replace_from old new zero (c ∷ s) =
    let replaced = new ++ replace_from old new (length old - 1) s in
    let kept = c ∷ replace_from old new zero s in if has_prefix (c ∷ s) old then replaced else kept

unfoldable pub replace_all : (old new : Text) → Text → Text
unfolding replace_from
replace_all old new s = replace_from old new zero s

-- strings.Contains
unfoldable pub contains : Text → Text → Bool
contains s sub = elim (before_sub sub s) [ none ↦ false | some t ↦ true ]

-- s[i+len(sub):] for i = strings.Index(s, sub), with `none` for -1.
unfoldable pub after_sub : Text → Text → Option Text
after_sub sub [] = if has_prefix [] sub then some [] else none
after_sub sub (c ∷ s) =
    let rest = after_sub sub s in
    if has_prefix (c ∷ s) sub then some (drop (length sub) (c ∷ s)) else rest
