-- ===== src/Attractor/Loop/World.antt =====
-- What the loop does not implement, as calls into an outside world whose state `W` each call may
-- change: the LLM clients, the container manager, the file system, the validation closure. They
-- answer anything, so that the theorems hold for every LLM and every container. Where Go has an
-- error the answer is `none` or `false`. Prompts are not modelled, so of a request only the model
-- and the purpose remain.
use octopusgarden.Prelude.{Bool, Dict, List, Option, Text, ℕ}
use octopusgarden.Attractor.Loop.State.{RunState}

pub data Purpose : Type 0 where
  code wonder reflect triage : Purpose

pub record GenerateResponse (R : Type 0) : Type 0 where
  pub content : Text
  pub is_max_tokens : Bool  -- FinishReason == "max_tokens"
  pub input_tokens : ℕ
  pub output_tokens : ℕ
  pub cost_usd : R

pub record AgentResponse (R : Type 0) : Type 0 where
  pub files : Dict Text  -- handler.Files() after the loop
  pub total_cost : R
  pub input_tokens : ℕ
  pub output_tokens : ℕ
  pub turns : ℕ

-- What runs on after `Run` or `RunMultiPort` succeeded. `container_id` may be empty.
pub record Container : Type 0 where
  pub container_id : Text
  pub grpc_target : Text

pub record TestResult : Type 0 where
  pub is_zero_exit : Bool

pub record Validation (R : Type 0) : Type 0 where
  pub satisfaction : R
  pub failures : List Text
  pub cost : R

pub record World (W R : Type 0) : Type 0 where
  pub generate : Purpose → Text → W → Option (GenerateResponse R) × W
  pub is_cancelled : W → Bool  -- ctx.Err() != nil
  -- json.Unmarshal of a diagnosis with a suggested approach, and of a list of paths.
  pub is_diagnosis : Text → Bool
  pub suggested_paths : Text → Option (List Text)
  pub agent_loop : Option (Text → Dict Text → W → Option (AgentResponse R) × W)
  pub write_files : Dict Text → W → Bool × W
  pub sha256 : Text → Text
  pub build : W → Bool × W
  pub start_session : W → Bool × W
  pub run_container : W → Option Container × W
  pub run_multi_port : W → Option Container × W
  pub wait_healthy : W → Bool × W
  pub wait_port : W → Bool × W
  pub run_test : W → Option TestResult × W
  pub stop_session : W → W
  pub stop_container : W → W
  pub validate : (max_tier : ℕ) → W → Option (Validation R) × W

-- The errors that end a run, and the panic of the file parser.
pub data RunError : Type 0 where
  generate_failed wonder_failed reflect_failed : RunError
  agent_client_required agent_failed write_failed : RunError
  test_failed validate_failed parser_panic : RunError
  empty_spec unsupported_language composed_unsorted : RunError

-- The state of a run and of the world.
pub record Sys (W R : Type 0) : Type 0 where
  pub state : RunState R
  pub world : W

pub data Exit (W R : Type 0) (A : Type 0) : Type 0 where
  done : A → Sys W R → Exit W R A
  fail : RunError → Exit W R A

-- A computation of the loop.
abbrev pub Action : Type 0 → Type 0 → Type 0 → Type 0
Action W R A = Sys W R → Exit W R A

module _ {W R : Type 0} where
  module _ {A : Type 0} where
    abbrev pub pure : A → Action W R A
    pure a s = done a s

    abbrev pub throw : RunError → Action W R A
    throw e s = fail e

    -- A call into the world.
    abbrev pub call : (W → A × W) → Action W R A
    call f s = let r = f s.world in done r.0 (record s { world = r.1 })

    abbrev pub ask : (W → A) → Action W R A
    ask f s = done (f s.world) s

  abbrev pub get : Action W R (RunState R)
  get s = done s.state s

  abbrev pub modify : (RunState R → RunState R) → Action W R (Unit {0})
  modify f s = done tt (record s { state = f s.state })

module _ {W R A B : Type 0} where
  abbrev pub and_then : Exit W R A → (A → Action W R B) → Exit W R B
  and_then (done a s) f = f a s
  and_then (fail e) f = fail e

  infixl 5 ◌>>=◌ ◌>>◌
  abbrev pub ◌>>=◌ : Action W R A → (A → Action W R B) → Action W R B
  ◌>>=◌ m f s = and_then (m s) f

  abbrev pub ◌>>◌ : Action W R A → Action W R B → Action W R B
  m >> k = m >>= λ _. k

-- `defer f()`: the world's change at the end of a body that returns.
abbrev pub deferring : {W R A : Type 0} → (W → W) → Action W R A → Action W R A
deferring f body s = and_then (body s) (λ a s'. done a (record s' { world = f s'.world }))
