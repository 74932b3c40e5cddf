-- ===== src/Attractor/Loop/Samples.antt =====
-- A small world for tests: every generation answers with the same file, every call succeeds, and
-- every validation gives the world's state as its score.
use octopusgarden.Prelude.{[], codes, Dict, false, none, Option, some, Text, true, ℕ, ◌∷◌}
use octopusgarden.Attractor.Loop.State.{RunOptions}
use octopusgarden.Attractor.Loop.World.{AgentResponse, Container, GenerateResponse, World}

abbrev pub answer : GenerateResponse ℕ
answer = record {
  content = codes "=== FILE: a ===\nx\n=== END FILE ===";
  is_max_tokens = false;
  input_tokens = 5;
  output_tokens = 7;
  cost_usd = 2;
}

abbrev pub agent_answer : AgentResponse ℕ
agent_answer = record {
  files = (codes "a", codes "x") ∷ [];
  total_cost = 2;
  input_tokens = 5;
  output_tokens = 7;
  turns = 1;
}

abbrev pub agent : Text → Dict Text → ℕ → Option (AgentResponse ℕ) × ℕ
agent model fs w = (some agent_answer, w)

abbrev pub here : Container
here = record { container_id = codes "c"; grpc_target = [] }

-- The world's state is the score of its validations.
abbrev pub small_world : World ℕ ℕ
small_world = record {
  generate = λ _ _ w. (some answer, w);
  is_cancelled = λ _. false;
  is_diagnosis = λ _. false;
  suggested_paths = λ _. none;
  agent_loop = some agent;
  write_files = λ _ w. (true, w);
  sha256 = λ s. s;
  build = λ w. (true, w);
  start_session = λ w. (true, w);
  run_container = λ w. (some here, w);
  run_multi_port = λ w. (some here, w);
  wait_healthy = λ w. (true, w);
  wait_port = λ w. (true, w);
  run_test = λ w. (some (record { is_zero_exit = true }), w);
  stop_session = λ w. w;
  stop_container = λ w. w;
  validate = λ _ w. (some (record { satisfaction = w; failures = []; cost = 1 }), w);
}

abbrev pub small_options : RunOptions ℕ
small_options = record {
  model = codes "m";
  frugal_model = [];
  judge_model = codes "j";
  budget_usd = 100;
  threshold = 95;
  max_iterations = 2;
  stall_limit = 3;
  patch_mode = true;
  block_on_regression = false;
  capabilities = record {
    needs_http = true;
    needs_exec = false;
    needs_browser = false;
    needs_grpc = false;
    needs_tui = false;
  };
  test_command = [];
  agentic = false;
  stratified = true;
}
