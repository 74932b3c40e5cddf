-- ===== src/Scenario/Execution.antt =====
-- internal/scenario/runner.go: the execution of one step, with its delay, its executor and its
-- retries. `W` is the state of the outside world, `C` a context.Context, `D` a time.Duration,
-- `Failure` an executor's error. Executors read the variables and leave them alone. Logging and the
-- texts that wrap an error are left out.
pub mod Retries
use mathlib.Core.Option
use octopusgarden.Prelude.{
  [], Bool, Dict, false, if◌then◌else◌, inl, inr, is_empty, lookup, map, none, Option, some, suc,
  Text, true, zero, ℕ, ◌⊎◌,
}
use octopusgarden.Scenario.Types.{Retry, Step, step_type, StepOutput}
use octopusgarden.Scenario.JsonPath.{Evaluated}

pub data StepError (Failure : Type 0) : Type 0 where
  invalid_delay retry_invalid_interval retry_invalid_timeout unknown_step_type : StepError Failure
  no_executor_registered : Text → StepError Failure
  context_done : StepError Failure  -- ctx.Err()
  execute_failed : Failure → StepError Failure

abbrev pub Outcome : Type 0 → Type 0 → Type 0
Outcome W Failure = (StepOutput × Option (StepError Failure)) × W

abbrev pub Executor : Type 0 → Type 0 → Type 0 → Type 0 → Type 0
Executor W C R Failure = C → Step R → Dict Text → W → (StepOutput × Option Failure) × W

-- The registered executors, and the calls of Go's time, context and encoding/json.
pub record Env (W C D R Failure : Type 0) : Type 0 where
  pub executors : Dict (Executor W C R Failure)
  pub parse_duration : Text → Option D
  pub default_retry_interval : D
  pub zero_duration : D
  -- The select on a timer: whether it fires before the context is done.
  pub wait : C → D → W → Bool × W
  pub with_timeout : C → D → W → C
  pub eval_path : Text → Text → Evaluated

abbrev pub no_output : StepOutput
no_output = record { observed = []; capture_body = []; capture_sources = [] }

module _ {W Failure : Type 0} where
  -- The pause before another attempt.
  unfoldable pub paused : StepOutput → (W → Outcome W Failure) → Bool × W → Outcome W Failure
  paused output again (true, w) = again w
  paused output again (false, w) = ((output, some context_done), w)

  unfoldable pub retried :
      (W → Bool × W) → (W → Outcome W Failure) → Outcome W Failure → Outcome W Failure
  unfolding paused
  retried pause again ((output, none), w) = ((output, none), w)
  retried pause again ((output, some e), w) = paused output again (pause w)

  -- The loop over the attempts; `left` are to follow this one, and none follows the last.
  unfoldable pub retry_loop :
      (left : ℕ)
      → (attempt : W → Outcome W Failure) → (pause : W → Bool × W) → W
      → Outcome W Failure
  unfolding retried
  retry_loop zero attempt pause w = attempt w
  retry_loop (suc left) attempt pause w = retried pause (retry_loop left attempt pause) (attempt w)

-- retry.Attempts or its default, less one.
abbrev pub attempts_left : ℕ → ℕ
attempts_left zero = 2
attempts_left (suc n) = n

module _ {W C D R Failure : Type 0} (env : Env W C D R Failure) where
  -- parseStepTimeout, with `none` for its error.
  unfoldable pub parse_step_timeout : Text → D → Option D
  parse_step_timeout s default_timeout =
      if is_empty s then some default_timeout else env.parse_duration s

  unfoldable pub waited : Bool × W → Option (StepError Failure) × W
  waited (true, w) = (none, w)
  waited (false, w) = (some context_done, w)

  unfoldable pub delay_for : C → Option D → W → Option (StepError Failure) × W
  unfolding waited
  delay_for ctx none w = (some invalid_delay, w)
  delay_for ctx (some d) w = waited (env.wait ctx d w)

  unfoldable pub apply_delay : C → Text → W → Option (StepError Failure) × W
  unfolding delay_for parse_step_timeout
  apply_delay ctx delay w =
      if is_empty delay
      then (none, w)
      else delay_for ctx (parse_step_timeout delay env.zero_duration) w

  abbrev pub registered :
      Text → Option (Executor W C R Failure) → StepError Failure ⊎ Executor W C R Failure
  registered st none = inl (no_executor_registered st)
  registered st (some executor) = inr executor

  unfoldable pub resolve_executor : Step R → StepError Failure ⊎ Executor W C R Failure
  resolve_executor step =
      if is_empty (step_type step)
      then inl unknown_step_type
      else registered (step_type step) (lookup (step_type step) env.executors)

  abbrev pub execute_error : Option Failure → Option (StepError Failure)
  execute_error none = none
  execute_error (some e) = some (execute_failed e)

  unfoldable pub execute : Executor W C R Failure → C → Step R → Dict Text → W → Outcome W Failure
  execute executor ctx step vars w =
      let ((output, e), after) = executor ctx step vars w in ((output, execute_error e), after)

  -- execCtx, with `none` for an invalid timeout.
  unfoldable pub retry_context : C → Text → W → Option C
  unfolding parse_step_timeout
  retry_context ctx timeout w =
      if is_empty timeout
      then some ctx
      else Option.map (λ d. env.with_timeout ctx d w) (parse_step_timeout timeout env.zero_duration)

  unfoldable pub retry_with :
      Option D
      → Option C
      → (left : ℕ) → Executor W C R Failure
      → Step R
      → Dict Text
      → W
      → Outcome W Failure
  unfolding retry_loop
  retry_with none exec_ctx left executor step vars w = ((no_output, some retry_invalid_interval), w)
  retry_with (some interval) none left executor step vars w =
      ((no_output, some retry_invalid_timeout), w)
  retry_with (some interval) (some exec_ctx) left executor step vars w =
      retry_loop left (execute executor exec_ctx step vars) (env.wait exec_ctx interval) w

  unfoldable pub execute_with_retry :
      C → Executor W C R Failure → Step R → Dict Text → Retry → W → Outcome W Failure
  unfolding retry_with retry_context parse_step_timeout
  execute_with_retry ctx executor step vars retry w =
      retry_with (parse_step_timeout retry.interval env.default_retry_interval)
        (retry_context ctx retry.timeout w) (attempts_left retry.attempts) executor step vars w

  unfoldable pub execute_as :
      Option Retry → C → Executor W C R Failure → Step R → Dict Text → W → Outcome W Failure
  unfolding execute_with_retry execute
  execute_as none ctx executor step vars w = execute executor ctx step vars w
  execute_as (some retry) ctx executor step vars w =
      execute_with_retry ctx executor step vars retry w

  unfoldable pub execute_step :
      C → Executor W C R Failure → Step R → Dict Text → W → Outcome W Failure
  unfolding execute_as
  execute_step ctx executor step vars w = execute_as step.retry ctx executor step vars w
