-- ===== src/Spec/Parser/Headings.antt =====
-- A heading line reads back as its level and its text.
use octopusgarden.Prelude.{
  ◌==◌, [], ap, arith, Bool, false, HasEnd, HasEnd-cons, if◌then◌else◌, ltb, none, Option, refl,
  some, suc, Text, trim_left, trim_right-trimmed, trim_space, true, zero, ◌||◌, ℕ, ◌∙◌, ◌∷◌, ◌≡◌,
  ◌≢◌, ◌≤◌,
}
use octopusgarden.Spec.Parser.{hashes, heading_of, heading_text, leveled, parse_heading}

-- n times '#' before a text.
abbrev pub with_hashes : ℕ → Text → Text
with_hashes zero s = s
with_hashes (suc n) s = b'#' ∷ with_hashes n s

-- The line of a heading.
abbrev pub heading_line : ℕ → Text → Text
heading_line level text = with_hashes level (b' ' ∷ text)

-- A text that is not empty and neither starts nor ends with a space.
abbrev pub IsTrimmed : Text → Type 0
IsTrimmed text = (text ≢ []) × (trim_space text ≡ text)

HasEnd-with_hashes : (n : ℕ) (s : Text) → HasEnd s → HasEnd (with_hashes n s)
HasEnd-with_hashes zero s h = h
HasEnd-with_hashes (suc n) s h = HasEnd-cons b'#' (with_hashes n s) (HasEnd-with_hashes n s h)

trim_space-heading_line :
    (n : ℕ) (text : Text)
    → IsTrimmed text
    → trim_space (heading_line (suc n) text) ≡ heading_line (suc n) text
unfolding trim_space trim_left
trim_space-heading_line n text (some_text, trimmed) =
    (HasEnd-with_hashes (suc n) (b' ' ∷ text)
      (HasEnd-cons b' ' text (some_text, trim_right-trimmed text trimmed))).1

hashes-with_hashes : (n : ℕ) (text : Text) → hashes (with_hashes n (b' ' ∷ text)) ≡ (n, b' ' ∷ text)
unfolding hashes
hashes-with_hashes zero text = refl
hashes-with_hashes (suc n) text = rw (hashes-with_hashes n text) refl

heading_text-trimmed : (text : Text) → IsTrimmed text → heading_text (b' ' ∷ text) ≡ some text
unfolding heading_text trim_space trim_left
heading_text-trimmed [] (some_text, h) = absurd (some_text refl)
heading_text-trimmed (c ∷ text) (some_text, h) = rw spaced refl
  where
    spaced : trim_space (b' ' ∷ c ∷ text) ≡ c ∷ text
    spaced = h

heading_of-range :
    (n : ℕ) (text : Text)
    → suc n ≤ 6
    → heading_text (b' ' ∷ text) ≡ some text
    → heading_of (suc n, b' ' ∷ text) ≡ some (suc n, text)
unfolding heading_of leveled
heading_of-range n text high h =
    ap (if_low ((suc n == 0) || ltb 6 (suc n))) h
    ∙ low ((suc n == 0) || ltb 6 (suc n)) (not_above n high)
  where
    if_low : Bool → Option Text → Option (ℕ × Text)
    if_low above o = if above then none else leveled (suc n) o

    low : (above : Bool) → above ≡ false → if_low above (some text) ≡ some (suc n, text)
    low true k = cc
    low false k = refl

    not_above : (n : ℕ) → suc n ≤ 6 → ((suc n == 0) || ltb 6 (suc n)) ≡ false
    not_above n k = ground arith

-- A line of one to six hashes, a space and a trimmed text parses as the heading of that level with
-- that text.
pub parse_heading-heading_line :
    (level : ℕ) (text : Text)
    → 1 ≤ level
    → level ≤ 6
    → IsTrimmed text
    → parse_heading (heading_line level text) ≡ some (level, text)
unfolding parse_heading
parse_heading-heading_line zero text low high h = absurd (omega arith)
parse_heading-heading_line (suc n) text low high h =
    ap (λ s. heading_of (hashes s)) (trim_space-heading_line n text h)
    ∙ ap heading_of (hashes-with_hashes (suc n) text)
    ∙ heading_of-range n text high (heading_text-trimmed text h)
