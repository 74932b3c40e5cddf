-- ===== src/Spec/Parser/Slices.antt =====
-- The lines at which the headings stand, and that no slice of the lines is out of range.
use octopusgarden.Prelude.{
  ◌+◌, ◌<◌, [], arith, Bool, false, if◌then◌else◌, length, List, none, not, Option, some, suc, Text,
  true, ℕ, ◌∷◌, ◌≡◌, ◌≤◌,
}
use octopusgarden.Spec.Parser.{
  content_end, description_end, find_headings, Heading, is_fence, noted, parse_heading,
}

-- The headings stand at lines from `from` on and before `end`, one behind the other.
abbrev IsAscending : (from end : ℕ) → List Heading → Type 0
IsAscending from end [] = Unit
IsAscending from end (h ∷ headings) =
    (from ≤ h.line) × (h.line < end) × IsAscending (suc h.line) end headings

IsAscending-weaken :
    (from next end : ℕ) (headings : List Heading)
    → from ≤ next
    → IsAscending next end headings
    → IsAscending from end headings
IsAscending-weaken from next end [] le h = tt
IsAscending-weaken from next end (g ∷ headings) le (low, high, h) = (omega arith, high, h)

IsAscending-noted :
    (i end : ℕ) (o : Option (ℕ × Text)) (headings : List Heading)
    → i < end
    → IsAscending (suc i) end headings
    → IsAscending i end (noted i o headings)
IsAscending-noted i end none headings lt h =
    IsAscending-weaken i (suc i) end headings (omega arith) h
IsAscending-noted i end (some (level, text)) headings lt h = (omega arith, lt, h)

find_headings-IsAscending :
    (fenced : Bool) (i end : ℕ) (lines : List Text)
    → end ≡ i + length lines
    → IsAscending i end (find_headings fenced i lines)
unfolding find_headings
find_headings-IsAscending fenced i end [] h = tt
find_headings-IsAscending fenced i end (line ∷ lines) h =
    let inside = if is_fence line then not fenced else fenced in
    let rest = find_headings-IsAscending inside (suc i) end lines (omega (arith, h)) in
    choose inside rest
  where
    choose :
        (inside : Bool)
        → IsAscending (suc i) end (find_headings inside (suc i) lines)
        → IsAscending i end (
            if inside
            then find_headings inside (suc i) lines
            else noted i (parse_heading line) (find_headings inside (suc i) lines))
    choose true rest = IsAscending-weaken i (suc i) end _ (omega arith) rest
    choose false rest = IsAscending-noted i end (parse_heading line) _ (omega (arith, h)) rest

content_end-range :
    (level from end : ℕ) (headings : List Heading)
    → from ≤ end
    → IsAscending from end headings
    → (from ≤ content_end level headings end) × (content_end level headings end ≤ end)
unfolding content_end
content_end-range level from end [] le h = (le, omega arith)
content_end-range level from end (g ∷ headings) le (low, high, h) =
    let (least, most) = content_end-range level (suc g.line) end headings (omega arith) h in
    ground arith

description_end-range :
    (from end : ℕ) (headings : List Heading)
    → from ≤ end
    → IsAscending from end headings
    → (from ≤ description_end headings end) × (description_end headings end ≤ end)
description_end-range from end [] le h = (le, omega arith)
description_end-range from end (g ∷ headings) le (low, high, h) = (low, omega arith)

-- The lines behind each heading, up to the end of its content and up to the next heading, are a
-- slice that is in range.
abbrev pub HasSlices : (end : ℕ) → List Heading → Type 0
HasSlices end [] = Unit
HasSlices end (h ∷ headings) =
    (suc h.line ≤ content_end h.level headings end)
    × (content_end h.level headings end ≤ end)
    × (suc h.line ≤ description_end headings end)
    × (description_end headings end ≤ end)
    × HasSlices end headings

IsAscending-HasSlices :
    (from end : ℕ) (headings : List Heading)
    → IsAscending from end headings
    → HasSlices end headings
IsAscending-HasSlices from end [] h = tt
IsAscending-HasSlices from end (g ∷ headings) (low, high, h) =
    let (a, b) = content_end-range g.level (suc g.line) end headings (omega arith) h in
    let (c, d) = description_end-range (suc g.line) end headings (omega arith) h in
    (a, b, c, d, IsAscending-HasSlices (suc g.line) end headings h)

-- No slice of the lines that the parser takes for a section or for the description is out of range.
pub find_headings-HasSlices :
    (lines : List Text) → HasSlices (length lines) (find_headings false 0 lines)
find_headings-HasSlices lines =
    IsAscending-HasSlices 0 (length lines) (find_headings false 0 lines)
      (find_headings-IsAscending false 0 (length lines) lines (omega arith))
