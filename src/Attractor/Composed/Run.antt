-- ===== src/Attractor/Composed/Run.antt =====
-- validateRunInputs, tryComposed, runComposed and validateComposed of attractor.go, and the whole
-- of Run. The interfaces of the dependencies go into prompts only and are left out.
use octopusgarden.Prelude.{
  [], Bool, copy, Dict, false, fge, Float, if◌then◌else◌, inl, inr, insert, is_empty, List, lookup,
  map, none, of_nat, Option, some, Text, trim_space, true, ◌||◌, ◌∷◌, ◌⊎◌,
}
use octopusgarden.Attractor.Loop.State.{
  converged, is_budget_exceeded, no_outcome, result, RunOptions, RunResult, RunState, with_defaults,
}
use octopusgarden.Attractor.Loop.World.{
  ◌>>◌, ◌>>=◌, Action, call, composed_unsorted, done, empty_spec, Exit, fail, get, modify, pure,
  RunError, unsupported_language, validate_failed, Validation, World, write_failed,
}
use octopusgarden.Attractor.Loop.Run.{run}
use octopusgarden.Attractor.Languages.{lookup_language}
use octopusgarden.Attractor.Toposort.{Component, topo_sort, TopoError}
use octopusgarden.Attractor.Composed.Serving.{ask_validator, built_and_served, Validator}
use octopusgarden.Attractor.Composed.Component.{
  component_failed, component_files, ComponentResult, converge_component,
}
use octopusgarden.Attractor.Composed.Infrastructure.{
  ensure_build_infrastructure, merge_component_files,
}

-- The options that only the composed attempt reads.
pub record Composition (W R : Type 0) : Type 0 where
  pub language : Text
  pub gene_components : List Component
  pub component_validators : Dict (Validator W R)

-- The ways that runComposed returns: a result, the fallback error, or an error that ends the run.
pub data Composed (R : Type 0) : Type 0 where
  accepted : RunResult R → Composed R
  fell_back : Composed R
  broken : RunError → Composed R

-- The composed attempt's own run state.
unfoldable pub composed_state : {R : Type 0} ⦃F : Float R⦄ → RunOptions R → RunState R
composed_state opts = record {
  opts = opts;
  total_cost = of_nat 0;
  total_tokens = 0;
  best_satisfaction = of_nat 0;
  stall_count = 0;
  history = [];
  score_history = [];
  last_outcome = no_outcome;
  last_satisfaction = of_nat 0;
  last_improved = false;
  last_input_tokens = 0;
  last_output_tokens = 0;
  last_failures = [];
  best_files = none;
  patch_active = false;
  patch_regression_count = 0;
  scenario_scores = [];
  scenario_score_iteration = 0;
  code_hashes = [];
  escalation = none;
  last_turns = 0;
  active_tier = 0;
}

-- A name that byName does not hold gives the zero component.
abbrev pub or_zero : Option Component → Component
or_zero none = record { name = []; interface_text = []; patterns = []; depends_on = [] }
or_zero (some c) = c

module _ {W R : Type 0} ⦃F : Float R⦄ (world : World W R) where
  unfoldable pub accept_written : Bool → Action W R (Composed R)
  accept_written false = pure (broken write_failed)
  accept_written true = do s ← get; pure (accepted (result s 0 converged))

  unfoldable pub accept : Dict Text → R → Action W R (Composed R)
  unfolding accept_written
  accept files satisfaction = do
    modify (λ s. record s { best_satisfaction = satisfaction; best_files = some files })
    written ← call (world.write_files files)
    accept_written written

  unfoldable pub integration_checked : Dict Text → Option (Validation R) → Action W R (Composed R)
  unfolding accept
  integration_checked files none = pure (broken validate_failed)
  integration_checked files (some v) = do
    s ← get
    if fge v.satisfaction s.opts.threshold then accept files v.satisfaction else pure fell_back

  unfoldable pub integrate : Dict Text → Option (Validator W R) → Bool → Action W R (Composed R)
  unfolding integration_checked accept
  integrate files v false = pure (broken write_failed)
  integrate files none true = accept files (of_nat 100)
  integrate files (some v) true =
      built_and_served world fell_back
        (do answer ← ask_validator v; integration_checked files answer)

module _ {W R : Type 0} ⦃F : Float R⦄ (world : World W R) (composition : Composition W R) where
  unfoldable pub validate_composed : Dict Text → Action W R (Composed R)
  unfolding integrate
  validate_composed files = do
    written ← call (world.write_files files)
    integrate world files (lookup [] composition.component_validators) written

  unfoldable pub after_component :
      (Dict Text → Dict (Dict Text) → Action W R (Option (Dict (Dict Text))))
      → Component
      → Dict Text
      → Dict (Dict Text)
      → ComponentResult
      → Action W R (Option (Dict (Dict Text)))
  after_component next c accumulated by_component (component_failed e) = pure none
  after_component next c accumulated by_component (component_files fs) =
      next (copy accumulated fs) (insert c.name fs by_component)

  -- The loop over the components; `none` falls back.
  unfoldable pub converge_all :
      List Component → Dict Text → Dict (Dict Text) → Action W R (Option (Dict (Dict Text)))
  unfolding after_component
  converge_all [] accumulated by_component = pure (some by_component)
  converge_all (c ∷ cs) accumulated by_component =
      let next = converge_all cs in
      do
        s ← get
        if is_budget_exceeded s then pure none else (do
          r ← converge_component world (lookup c.name composition.component_validators) accumulated
          after_component next c accumulated by_component r)

  unfoldable pub all_converged :
      List Component → Option (Dict (Dict Text)) → Action W R (Composed R)
  unfolding validate_composed
  all_converged sorted none = pure fell_back
  all_converged sorted (some by_component) = do
    s ← get
    validate_composed (
        ensure_build_infrastructure (merge_component_files sorted by_component) composition.language
          s.opts.capabilities)

  unfoldable pub run_sorted : TopoError ⊎ List (Option Component) → Action W R (Composed R)
  unfolding converge_all all_converged
  run_sorted (inl e) = pure (broken composed_unsorted)
  run_sorted (inr cs) = do
    converged_files ← converge_all (map or_zero cs) [] []
    all_converged (map or_zero cs) converged_files

  unfoldable pub run_composed : Action W R (Composed R)
  unfolding run_sorted
  run_composed = run_sorted (topo_sort composition.gene_components)

-- validateRunInputs
unfoldable pub validate_run_inputs : (raw_spec language : Text) → Option RunError
validate_run_inputs raw_spec language =
    if is_empty (trim_space raw_spec)
    then some empty_spec
    else if is_empty language
    then none
    else elim (lookup_language language) [ none ↦ some unsupported_language | some tmpl ↦ none ]

module _ {W R : Type 0} ⦃F : Float R⦄ (world : World W R) (composition : Composition W R)
    (opts : RunOptions R) (summarize_cost : Option R) where
  -- tryComposed, and what Run does with its answer.
  unfoldable pub after_composed : Exit W R (Composed R) → Exit W R (RunResult R)
  after_composed (fail e) = fail e
  after_composed (done (accepted r) t) = done r t
  after_composed (done (broken e) t) = fail e
  after_composed (done fell_back t) = run world opts t.state.total_cost true summarize_cost t.world

  unfoldable pub try_composed : W → Exit W R (RunResult R)
  unfolding after_composed run_composed
  try_composed w =
      if is_empty composition.gene_components
        || is_empty composition.component_validators
        || opts.agentic
      then run world opts (of_nat 0) false summarize_cost w
      else after_composed
          (run_composed world composition (record { state = composed_state opts; world = w }))

-- Run. `summarize_cost` is what the summary of a large spec has cost, if one was made.
unfoldable pub run_checked :
    {W R : Type 0} ⦃F : Float R⦄
    → World W R
    → Composition W R
    → RunOptions R
    → Option R
    → W
    → Option RunError
    → Exit W R (RunResult R)
unfolding try_composed
run_checked world composition opts summarize_cost w (some e) = fail e
run_checked world composition opts summarize_cost w none =
    try_composed world composition (with_defaults opts) summarize_cost w

unfoldable pub run_spec :
    {W R : Type 0} ⦃F : Float R⦄
    → World W R
    → Composition W R
    → RunOptions R
    → Option R
    → (raw_spec : Text) → W
    → Exit W R (RunResult R)
unfolding run_checked validate_run_inputs
run_spec world composition opts summarize_cost raw_spec w =
    run_checked world composition opts summarize_cost w
      (validate_run_inputs raw_spec composition.language)
