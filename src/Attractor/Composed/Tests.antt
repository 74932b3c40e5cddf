-- ===== src/Attractor/Composed/Tests.antt =====
-- Composed attempts in the small world.
use octopusgarden.Prelude.{
  [], arith, codes, copy, Dict, false, if◌then◌else◌, insert, is_empty, is_member, join, lookup,
  none, refl, some, split, Text, trim_space, true, whole, ℕ, ◌∷◌, ◌≡◌,
}
use octopusgarden.Attractor.FileParse.{
  extract_file_path, is_unchanged_marker, merge_files, normalize_trailing_newline, parse_files,
  parse_files_with_metadata, scan_line, validate_path,
}
use octopusgarden.Attractor.Loop.State.{
  converged, is_budget_exceeded, result, RunOptions, RunResult, ScenarioCapabilities, with_defaults,
}
use octopusgarden.Attractor.Loop.World.{done, Exit, fail, Sys}
use octopusgarden.Attractor.Loop.Samples.{agent, agent_answer, answer, small_options, small_world}
use octopusgarden.Attractor.Toposort.{Component, topo_sort}
use octopusgarden.Attractor.Languages.{
  build_language_example, lookup_language, select_example_block,
}
use octopusgarden.Attractor.Composed.Serving.{
  ask_validator, built_and_served, start_composed_container, started_container, Validator,
}
use octopusgarden.Attractor.Composed.Component.{
  component_iteration, converge_component, new_component_loop_state,
}
use octopusgarden.Attractor.Composed.Infrastructure.{
  dockerfile_name, ensure_build_infrastructure, merge_component_files,
}
use octopusgarden.Attractor.Composed.Run.{
  composed_state, Composition, run_checked, run_composed, run_spec, try_composed,
  validate_run_inputs,
}
use octopusgarden.Attractor.Composed.Results.{IsRunOutcome, run_spec-IsRunOutcome}
use octopusgarden.Attractor.Loop.Containers.{http_started, start_http_container}
use octopusgarden.Attractor.Loop.Returns.{IsObliging}
use octopusgarden.Attractor.Loop.Ensures.{Ensures}
use octopusgarden.Attractor.Composed.Completes.{CanSort, IsObligingValidator, run_spec-done}
use octopusgarden.Attractor.Composed.Judged.{IsAttempt, IsComponentResult, IsTried}
use octopusgarden.Attractor.Composed.Arrived.{
  component_iteration-IsAttempt, converge_component-IsComponentResult,
}
use octopusgarden.Attractor.Composed.Files.{
  dockerfile-empty, last_holding, lookup-ensure_build_infrastructure, lookup-merge_component_files,
  synthesized,
}
use octopusgarden.Attractor.Languages.Templates.{ExampleBlock, python_template}
use octopusgarden.Attractor.Languages.Examples.{
  example_files, parse_files-build_language_example, reads_as,
}
use octopusgarden.Attractor.FileParse.Merge.{first_of}
use octopusgarden.Attractor.Resources.Ledger.{Ledger, paid, paid_composition}
use octopusgarden.Attractor.Resources.PaidRun.{new_ledger, run_spec-cost}

abbrev scored : Validator ℕ ℕ
scored tier w = (some (record { satisfaction = w; failures = []; cost = 1 }), w)

abbrev part : Component
part = record { name = codes "a"; interface_text = []; patterns = []; depends_on = [] }

abbrev small_composition : Composition ℕ ℕ
small_composition = record {
  language = codes "go";
  gene_components = part ∷ [];
  component_validators = (codes "a", scored) ∷ ([], scored) ∷ [];
}

abbrev one_file : Dict Text
one_file = (codes "a", codes "x\n") ∷ []

abbrev small_spec : ℕ → Exit ℕ ℕ (RunResult ℕ)
small_spec score = run_spec small_world small_composition small_options none (codes "spec") score

abbrev accepted_result : RunResult ℕ
accepted_result = record {
  iterations = 0;
  satisfaction = 96;
  cost_usd = 4;
  total_tokens = 12;
  status = converged;
}

abbrev state_of : Exit ℕ ℕ (RunResult ℕ) → Sys ℕ ℕ
state_of (done r s) = s
state_of (fail e) = record { state = composed_state ⦃F = whole⦄ small_options; world = 0 }

running : Unit {0}
unfolding run_spec run_checked validate_run_inputs lookup_language lookup trim_space with_defaults
    try_composed run_composed topo_sort composed_state converge_component parse_files
    parse_files_with_metadata scan_line extract_file_path is_unchanged_marker validate_path split
    join normalize_trailing_newline insert merge_files copy merge_component_files
    ensure_build_infrastructure select_example_block is_budget_exceeded result built_and_served
    start_composed_container start_http_container http_started started_container ask_validator
running = tt

-- The component and the whole score 96.
small_spec_converges : small_spec 96 ≡ done accepted_result (state_of (small_spec 96))
unfolding running
small_spec_converges = refl

run_spec-IsRunOutcome_example :
    IsRunOutcome small_composition
      (with_defaults small_options)
      accepted_result
      (state_of (small_spec 96)).state
run_spec-IsRunOutcome_example =
    run_spec-IsRunOutcome small_world small_composition small_options none (codes "spec") 96
      accepted_result (state_of (small_spec 96)) small_spec_converges

abbrev paid_spec : Exit (Ledger ℕ ℕ) ℕ (RunResult ℕ)
paid_spec =
    run_spec (paid small_world) (paid_composition small_composition) small_options none
      (codes "spec") (new_ledger 96)

abbrev paid_state : Sys (Ledger ℕ ℕ) ℕ
paid_state = record {
  state = (state_of (small_spec 96)).state;
  world = record { spent = 4; inner = 96 };
}

paid_spec_converges : paid_spec ≡ done accepted_result paid_state
unfolding running
paid_spec_converges = refl

run_spec-cost_example : RunResult.cost_usd accepted_result ≡ 4
run_spec-cost_example =
    run_spec-cost small_world (λ x. omega arith) small_composition small_options (codes "spec") 96
      accepted_result paid_state paid_spec_converges

small_world-IsObliging : IsObliging small_world
unfolding running
small_world-IsObliging = record {
  generates = λ p model w. (answer, refl, tt);
  writes = λ fs w. refl;
  has_agent = (agent, refl, λ model fs w. (agent_answer, refl, tt));
  tests = λ w. (record { is_zero_exit = true }, refl, tt);
  validates = λ tier w. (record { satisfaction = w; failures = []; cost = 1 }, refl, tt);
}

small_composition-IsObliging :
    IsObligingValidator (lookup [] small_composition.component_validators)
unfolding running
small_composition-IsObliging w = (record { satisfaction = w; failures = []; cost = 1 }, refl, tt)

small_composition-CanSort : CanSort (topo_sort small_composition.gene_components)
unfolding running
small_composition-CanSort = tt

small_spec-valid : validate_run_inputs (codes "spec") (codes "go") ≡ none
unfolding running
small_spec-valid = refl

run_spec-done_example :
    (r : RunResult ℕ) × (t : Sys ℕ ℕ) × (run_spec small_world small_composition small_options none
        (codes "spec")
        50
      ≡ done r t)
run_spec-done_example =
    run_spec-done small_world small_world-IsObliging small_composition small_composition-IsObliging
      small_options none (codes "spec") 50 small_composition-CanSort small_spec-valid

abbrev first : Sys ℕ ℕ
first = record { state = composed_state ⦃F = whole⦄ small_options; world = 50 }

first_attempt : IsTried small_world one_file (some scored) 1 (new_component_loop_state ⦃F = whole⦄)
first_attempt = record { counted = refl; stalls = omega arith; best = refl }

component_iteration-IsAttempt_example :
    Ensures
      (component_iteration small_world
        (some scored)
        one_file
        1
        (new_component_loop_state ⦃F = whole⦄)
        first)
      (λ a t. (t.opts ≡ small_options) × IsAttempt small_world one_file 95 (some scored) 1 a)
unfolding composed_state
component_iteration-IsAttempt_example =
    component_iteration-IsAttempt small_world small_options (some scored) one_file 1
      new_component_loop_state first_attempt first refl

converge_component-IsComponentResult_example :
    Ensures (converge_component small_world (some scored) one_file first) (λ r t.
      (t.opts ≡ small_options) × IsComponentResult small_world one_file 95 (some scored) r t)
unfolding composed_state
converge_component-IsComponentResult_example =
    converge_component-IsComponentResult small_world small_options (some scored) one_file first refl

abbrev two_parts : Dict (Dict Text)
two_parts = (codes "a", one_file) ∷ (codes "b", (codes "a", codes "y") ∷ []) ∷ []

lookup-merge_component_files_example :
    lookup (codes "a") (merge_component_files (part ∷ []) two_parts)
    ≡ last_holding (codes "a") (part ∷ []) two_parts
lookup-merge_component_files_example =
    lookup-merge_component_files (codes "a") (part ∷ []) two_parts ((tt, tt), ((tt, tt), tt))

lookup-ensure_build_infrastructure_example :
    lookup
      (codes "a")
      (ensure_build_infrastructure one_file (codes "go") (RunOptions.capabilities small_options))
    ≡ first_of (lookup (codes "a") one_file) (
        if is_member dockerfile_name one_file
        then none
        else synthesized
            (codes "go")
            (RunOptions.capabilities small_options)
            (lookup_language (codes "go"))
            (codes "a"))
lookup-ensure_build_infrastructure_example =
    lookup-ensure_build_infrastructure (codes "a") one_file (codes "go")
      (RunOptions.capabilities small_options)

abbrev terminal : ScenarioCapabilities
terminal = record (RunOptions.capabilities small_options) { needs_tui = true; needs_http = false }

python_is_known : lookup_language (codes "python") ≡ some python_template
unfolding running
python_is_known = refl

dockerfile-empty_example :
    is_empty (ExampleBlock.dockerfile (select_example_block python_template terminal)) ≡ true
dockerfile-empty_example =
    dockerfile-empty (codes "python") python_template terminal python_is_known

parse_files-build_language_example_example :
    parse_files (build_language_example python_template (RunOptions.capabilities small_options))
    ≡ reads_as (example_files python_template (RunOptions.capabilities small_options))
parse_files-build_language_example_example =
    parse_files-build_language_example (codes "python") python_template
      (RunOptions.capabilities small_options) python_is_known
