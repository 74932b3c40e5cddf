-- ===== src/Scenario/Runner/Samples.antt =====
-- A small world in which scenarios run: its state counts the executions, and the only executor fails
-- the first two of them.
use octopusgarden.Prelude.{[], Bool, codes, if◌then◌else◌, ltb, none, some, suc, Text, true, ℕ, ◌∷◌}
use octopusgarden.Scenario.Types.{Capture, ExecRequest, Retry, Scenario, Step, StepOutput}
use octopusgarden.Scenario.JsonPath.{Evaluated, value}
use octopusgarden.Scenario.Execution.{context_done, Env, Executor, no_output, Outcome}

abbrev pub hello : StepOutput
hello = record { observed = codes "hello"; capture_body = codes "hello"; capture_sources = [] }

abbrev pub flaky : Executor ℕ ℕ ℕ ℕ
flaky ctx step vars w = ((hello, if ltb w 2 then some w else none), suc w)

abbrev pub whole_body : Text → Text → Evaluated
whole_body body path = value body

abbrev pub small_env : Env ℕ ℕ ℕ ℕ ℕ
small_env = record {
  executors = (codes "exec", flaky) ∷ [];
  parse_duration = λ s. none;
  default_retry_interval = 1;
  zero_duration = 0;
  wait = λ ctx d w. (true, w);
  with_timeout = λ ctx d w. ctx;
  eval_path = whole_body;
}

abbrev pub three_times : Retry
three_times = record { attempts = 3; interval = []; timeout = [] }

abbrev pub greeting : Capture
greeting = record { name = codes "greeting"; json_path = codes "$.a"; source = [] }

abbrev pub say : ExecRequest
say = record { command = codes "say"; stdin = []; env = []; timeout = []; files = [] }

abbrev pub retried_step : Step ℕ
retried_step = record {
  description = codes "say hello";
  delay = [];
  request = none;
  exec = some say;
  browser = none;
  grpc = none;
  ws = none;
  tui = none;
  retry = some three_times;
  expect = codes "hello";
  capture = greeting ∷ [];
}

abbrev pub typeless_step : Step ℕ
typeless_step = record {
  description = codes "nothing";
  delay = [];
  request = none;
  exec = none;
  browser = none;
  grpc = none;
  ws = none;
  tui = none;
  retry = none;
  expect = [];
  capture = [];
}

abbrev pub small_scenario : Scenario ℕ
small_scenario = record {
  id = codes "small";
  description = codes "a greeting";
  kind = codes "api";
  weight = none;
  component = [];
  tier = 0;
  setup = retried_step ∷ [];
  steps = retried_step ∷ typeless_step ∷ [];
  satisfaction_criteria = [];
}

-- An attempt that fails twice, and a pause that nothing cuts short.
abbrev pub attempt_small : ℕ → Outcome ℕ ℕ
attempt_small w = ((no_output, if ltb w 2 then some context_done else none), suc w)

abbrev pub pause_small : ℕ → Bool × ℕ
pause_small w = (true, w)
