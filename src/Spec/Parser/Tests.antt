-- ===== src/Spec/Parser/Tests.antt =====
-- A small specification.
use octopusgarden.Prelude.{
  [], arith, codes, false, length, List, refl, some, Text, trim_left, trim_right, trim_space, ◌∷◌,
  ◌≡◌,
}
use octopusgarden.Spec.Parser.{find_headings, hashes, heading_of, heading_text, parse_heading}
use octopusgarden.Spec.Parser.Headings.{heading_line, parse_heading-heading_line}
use octopusgarden.Spec.Parser.Slices.{find_headings-HasSlices, HasSlices}

abbrev document : List Text
document =
    codes "# Store"
    ∷ codes "Test-Command: go test"
    ∷ codes "```"
    ∷ codes "# no"
    ∷ codes "```"
    ∷ codes "## Keys"
    ∷ []

two_headings : length (find_headings false 0 document) ≡ 2
unfolding find_headings parse_heading hashes heading_of heading_text trim_space trim_left trim_right
two_headings = refl

parse_heading-heading_line_example :
    parse_heading (heading_line 2 (codes "Keys")) ≡ some (2, codes "Keys")
unfolding trim_space trim_left trim_right
parse_heading-heading_line_example =
    parse_heading-heading_line 2 (codes "Keys") (omega arith) (omega arith) ((λ h. cc), refl)

find_headings-HasSlices_example : HasSlices (length document) (find_headings false 0 document)
find_headings-HasSlices_example = find_headings-HasSlices document
