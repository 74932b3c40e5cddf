-- ===== src/Attractor/Loop/Tests.antt =====
-- Runs in a small world.
use octopusgarden.Prelude.{
  [], arith, false, insert, join, none, refl, sort_entries, split, trim_space, whole, ℕ, ◌≡◌,
}
use octopusgarden.Attractor.Loop.State.{
  determine_fidelity, is_budget_exceeded, max_iterations, new_run_state, result, RunResult,
  RunState, with_defaults,
}
use octopusgarden.Attractor.Loop.World.{done, Exit, fail, Sys}
use octopusgarden.Attractor.Loop.Generation.{generate_standard}
use octopusgarden.Attractor.Loop.Containers.{run_test_command, start_service_container}
use octopusgarden.Attractor.Loop.Validation.{advance_tier_if_needed, process_validation}
use octopusgarden.Attractor.Loop.Steering.{is_stalling}
use octopusgarden.Attractor.Loop.Frame.{course}
use octopusgarden.Attractor.Loop.Ensures.{Ensures}
use octopusgarden.Attractor.FileParse.{
  extract_file_path, is_unchanged_marker, normalize_trailing_newline, parse_files_with_metadata,
  scan_line, validate_path,
}
use octopusgarden.Attractor.Oscillation.{hash_files}
use octopusgarden.Attractor.Regression.{
  detect_regressions, parse_all_scenarios, parse_failed_scenarios,
}
use octopusgarden.Attractor.Escalation.{new_escalation_state}
use octopusgarden.Attractor.Loop.Run.{iterate, run}
use octopusgarden.Attractor.Loop.Invariant.{IsAfter, IsRunning}
use octopusgarden.Attractor.Loop.Judged.{process_validation-IsAfter}
use octopusgarden.Attractor.Loop.Steps.{iterate-IsAfter}
use octopusgarden.Attractor.Loop.Results.{new_run_state-IsRunning}
use octopusgarden.Attractor.Loop.Samples.{small_options, small_world}

abbrev start : RunState ℕ
start = new_run_state ⦃F = whole⦄ small_options 0 false

abbrev small_run : ℕ → Exit ℕ ℕ (RunResult ℕ)
small_run score = run small_world (with_defaults small_options) 0 false none score

abbrev result_of : Exit ℕ ℕ (RunResult ℕ) → RunResult ℕ
result_of (done r s) = r
result_of (fail e) = record {
  iterations = 0;
  satisfaction = 0;
  cost_usd = 0;
  total_tokens = 0;
  status = max_iterations;
}

abbrev state_of : Exit ℕ ℕ (RunResult ℕ) → Sys ℕ ℕ
state_of (done r s) = s
state_of (fail e) = record { state = start; world = 0 }

running : Unit {0}
unfolding run iterate generate_standard is_stalling parse_files_with_metadata scan_line
    extract_file_path is_unchanged_marker validate_path split join trim_space
    normalize_trailing_newline insert process_validation hash_files sort_entries new_run_state
    with_defaults result is_budget_exceeded start_service_container run_test_command
    advance_tier_if_needed new_escalation_state parse_all_scenarios parse_failed_scenarios
    detect_regressions determine_fidelity
running = tt

-- The first tier is passed and the iterations end.
small_run_stops : (result_of (small_run 96)).status ≡ max_iterations
unfolding running
small_run_stops = refl

abbrev first : Sys ℕ ℕ
first = record { state = start; world = 96 }

IsRunning-start : IsRunning small_options (course start)
IsRunning-start = new_run_state-IsRunning small_options 0 false (omega arith)

process_validation-IsAfter_example :
    Ensures (process_validation small_world 1 96 [] [] first) (IsAfter small_options 1)
process_validation-IsAfter_example =
    process_validation-IsAfter small_world small_options 1 96 [] [] first IsRunning-start.0

iterate-IsAfter_example : Ensures (iterate small_world 1 first) (IsAfter small_options 1)
iterate-IsAfter_example = iterate-IsAfter small_world small_options 1 first IsRunning-start
