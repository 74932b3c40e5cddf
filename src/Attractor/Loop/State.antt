-- ===== src/Attractor/Loop/State.antt =====
-- The options and the state of a run, from attractor.go and prompts.go. Left out are the fields
-- that only name directories, measure time or hold callbacks, and the texts of the feedback
-- entries, which only go into prompts. A nil map of scores is the empty map; `best_files` tells nil
-- apart, since patch mode asks for it.
use octopusgarden.Attractor.Escalation
use octopusgarden.Prelude.{
  ◌&&◌, ◌+◌, ◌++◌, ◌==◌, [], Bool, Dict, false, feq, fge, Float, flt, if◌then◌else◌, leb, List,
  none, of_nat, Option, some, Text, ℕ, ◌∷◌,
}
use octopusgarden.Attractor.Escalation.{EscalationState, new_escalation_state}

pub data Status : Type 0 where
  converged stalled budget_exceeded max_iterations : Status

-- `no_outcome` is the empty string.
pub data IterationOutcome : Type 0 where
  no_outcome validated build_fail run_fail health_fail parse_fail test_fail : IterationOutcome

pub data FeedbackKind : Type 0 where
  validation build_error health_error parse_error : FeedbackKind
  regression run_error test_error truncation : FeedbackKind

pub data Fidelity : Type 0 where
  unset compact standard full : Fidelity

pub record ScenarioCapabilities : Type 0 where
  pub needs_http : Bool
  pub needs_exec : Bool
  pub needs_browser : Bool
  pub needs_grpc : Bool
  pub needs_tui : Bool

pub record IterationFeedback (R : Type 0) : Type 0 where
  pub iteration : ℕ
  pub kind : FeedbackKind
  pub fidelity : Fidelity
  pub failed_scenarios : Dict R

-- MaxIterations, StallLimit and the tier are ints in Go; they are taken to be not negative.
pub record RunOptions (R : Type 0) : Type 0 where
  pub model : Text
  pub frugal_model : Text
  pub judge_model : Text
  pub budget_usd : R
  pub threshold : R
  pub max_iterations : ℕ
  pub stall_limit : ℕ
  pub patch_mode : Bool
  pub block_on_regression : Bool
  pub capabilities : ScenarioCapabilities
  pub test_command : Text
  pub agentic : Bool
  pub stratified : Bool

pub record RunResult (R : Type 0) : Type 0 where
  pub iterations : ℕ
  pub satisfaction : R
  pub cost_usd : R
  pub total_tokens : ℕ
  pub status : Status

pub record RunState (R : Type 0) : Type 0 where
  pub opts : RunOptions R
  pub total_cost : R
  pub total_tokens : ℕ
  pub best_satisfaction : R
  pub stall_count : ℕ
  pub history : List (IterationFeedback R)
  pub score_history : List R
  pub last_outcome : IterationOutcome
  pub last_satisfaction : R
  pub last_improved : Bool
  pub last_input_tokens : ℕ
  pub last_output_tokens : ℕ
  pub last_failures : List Text
  pub best_files : Option (Dict Text)
  pub patch_active : Bool
  pub patch_regression_count : ℕ
  pub scenario_scores : Dict R
  pub scenario_score_iteration : ℕ
  pub code_hashes : List Text
  pub escalation : Option EscalationState
  pub last_turns : ℕ
  pub active_tier : ℕ

abbrev pub max_stratified_tier : ℕ
max_stratified_tier = 3

-- determineFidelity; `f++` goes one level up.
unfoldable pub determine_fidelity : ℕ → ℕ → Fidelity
determine_fidelity iteration stall_count =
    let late = leb 2 stall_count in
    if leb iteration 2
    then (if late then standard else compact)
    else if leb iteration 4
    then (if late then full else standard)
    else full

unfoldable pub initial_active_tier : Bool → ℕ
initial_active_tier stratified = if stratified then 1 else 0

module _ {R : Type 0} ⦃F : Float R⦄ where
  unfoldable pub current_model : RunState R → Text
  current_model s = elim s.escalation [ none ↦ s.opts.model | some e ↦ Escalation.current_model e ]

  unfoldable pub result : RunState R → ℕ → Status → RunResult R
  result s iter status = record {
    iterations = iter;
    satisfaction = s.best_satisfaction;
    cost_usd = s.total_cost;
    total_tokens = s.total_tokens;
    status = status;
  }

  unfoldable pub is_budget_exceeded : RunState R → Bool
  is_budget_exceeded s = flt (of_nat 0) s.opts.budget_usd && fge s.total_cost s.opts.budget_usd

  -- recordStall, with the outcome that its callers set just before it.
  unfoldable pub record_stall : RunState R → ℕ → IterationOutcome → FeedbackKind → RunState R
  record_stall s iter how kind = record s {
    last_outcome = how;
    last_satisfaction = of_nat 0;
    stall_count = s.stall_count + 1;
    history =
        s.history
        ++ (record { iteration = iter; kind = kind; fidelity = unset; failed_scenarios = [] }) ∷ [];
  }

  unfoldable pub check_stalled : RunState R → ℕ → Option (RunResult R)
  check_stalled s iter =
      if leb s.opts.stall_limit s.stall_count then some (result s iter stalled) else none

  -- `composed_context` tells whether a composed attempt left a message behind.
  unfoldable pub new_run_state : RunOptions R → R → Bool → RunState R
  unfolding initial_active_tier
  new_run_state opts composed_cost composed_context = record {
    opts = opts;
    total_cost = composed_cost;
    total_tokens = 0;
    best_satisfaction = of_nat 0;
    stall_count = 0;
    history =
        if composed_context
        then (record { iteration = 0; kind = build_error; fidelity = unset; failed_scenarios = [] })
          ∷ []
        else [];
    score_history = [];
    last_outcome = no_outcome;
    last_satisfaction = of_nat 0;
    last_improved = false;
    last_input_tokens = 0;
    last_output_tokens = 0;
    last_failures = [];
    best_files = none;
    patch_active = opts.patch_mode;
    patch_regression_count = 0;
    scenario_scores = [];
    scenario_score_iteration = 0;
    code_hashes = [];
    escalation = new_escalation_state opts.frugal_model opts.model;
    last_turns = 0;
    active_tier = initial_active_tier opts.stratified;
  }

  unfoldable pub reset_for_tier_advancement : RunState R → RunState R
  reset_for_tier_advancement s = record s {
    best_satisfaction = of_nat 0;
    stall_count = 0;
    score_history = [];
    history = [];
    patch_active = s.opts.patch_mode;
    patch_regression_count = 0;
    scenario_scores = [];
    scenario_score_iteration = 0;
    last_failures = [];
    last_outcome = no_outcome;
    last_satisfaction = of_nat 0;
    last_improved = false;
    last_turns = 0;
  }

  unfoldable pub with_defaults : RunOptions R → RunOptions R
  with_defaults opts = record opts {
    threshold = if feq opts.threshold (of_nat 0) then of_nat 95 else opts.threshold;
    max_iterations = if opts.max_iterations == 0 then 10 else opts.max_iterations;
    stall_limit = if opts.stall_limit == 0 then 3 else opts.stall_limit;
  }
