-- ===== src/Spec/Summary/Tests.antt =====
-- The selection for a specification of forty characters.
use octopusgarden.Prelude.{[], codes, Text, ◌∷◌}
use octopusgarden.Spec.Parser.{Section, Spec}
use octopusgarden.Spec.Summary.{select_content, SummarizedSpec}
use octopusgarden.Spec.Summary.Selected.{IsFirstFit, left_over, levels, select_content-IsFirstFit}

abbrev same_case : Text → Text
same_case s = s

abbrev keys_section : Section
keys_section = record { heading = codes "Keys"; level = 2; content = codes "a key has a value" }

abbrev small_spec : Spec
small_spec = record {
  title = codes "Store";
  description = [];
  test_command = [];
  sections = keys_section ∷ [];
  raw_content = codes "# Store\n\n## Keys\n\na key has a value\n";
}

abbrev no_summaries : SummarizedSpec
no_summaries = record {
  spec = small_spec;
  sections = [];
  outline = [];
  abstract_text = codes "A store with keys.";
}

select_content-IsFirstFit_example :
    IsFirstFit 4
      (left_over no_summaries 4)
      (levels same_case no_summaries (codes "keys" ∷ []))
      (select_content same_case no_summaries 4 (codes "keys" ∷ []))
select_content-IsFirstFit_example =
    select_content-IsFirstFit same_case no_summaries 4 (codes "keys" ∷ [])
