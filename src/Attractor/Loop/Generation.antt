-- ===== src/Attractor/Loop/Generation.antt =====
-- The generation of a file set: triageFiles of triage.go, and generateContent, wonderReflect,
-- generateAgentic and generateStandard of attractor.go. The minimalism suffix and the oscillation notice only extend a
-- prompt, and the messages are never empty, so neither stands here.
use octopusgarden.Prelude.{
  ◌&&◌, ◌+◌, ◌+ᶠ◌, [], Bool, Dict, false, Float, if◌then◌else◌, is_empty, leb, length, List, ltb,
  none, not, of_nat, Option, some, Text, text_eq, true, ◌||◌, ℕ,
}
use octopusgarden.Attractor.FileParse.{
  merge_files, panics, parse_files_with_metadata, parsed, Parsed, ParseResult,
}
use octopusgarden.Attractor.Loop.State.{
  check_stalled, current_model, FeedbackKind, is_budget_exceeded, IterationOutcome, parse_error,
  parse_fail, record_stall, RunResult, RunState, truncation,
}
use octopusgarden.Attractor.Loop.World.{
  ◌>>◌, ◌>>=◌, Action, agent_client_required, agent_failed, AgentResponse, ask, call, code,
  generate_failed, GenerateResponse, get, modify, parser_panic, pure, reflect, reflect_failed,
  RunError, throw, triage, wonder, wonder_failed, World, write_failed,
}
use octopusgarden.Attractor.Loop.Triage.{narrow_files}
use octopusgarden.Attractor.Loop.Steering.{is_stalling}

-- What generateStandard and iterate hand on: files, or the end of the iteration.
pub data Generated (R : Type 0) : Type 0 where
  files : Dict Text → Generated R
  stopped : Option (RunResult R) → Generated R

module _ {W R : Type 0} ⦃F : Float R⦄ (world : World W R) where
  -- s.totalCost += cost; s.totalTokens += tokens
  abbrev pub charge : R → ℕ → Action W R (Unit {0})
  charge cost tokens =
      modify (λ s. record s {
        total_cost = s.total_cost +ᶠ cost;
        total_tokens = s.total_tokens + tokens;
      })

  abbrev pub set_last_tokens : ℕ → ℕ → Action W R (Unit {0})
  set_last_tokens input output =
      modify (λ s. record s { last_input_tokens = input; last_output_tokens = output })

  unfoldable pub triage_files : Dict Text → List Text → Text → Action W R (Dict Text × R × ℕ)
  unfolding narrow_files
  triage_files all_files failures model =
      if leb (length all_files) 5 || is_empty failures then pure (all_files, of_nat 0, 0) else do
        answer ← call (world.generate triage model)
        elim answer [
          | none ↦ pure (all_files, of_nat 0, 0)
          | some resp ↦
              let tokens = resp.input_tokens + resp.output_tokens in
              elim (world.suggested_paths resp.content) [
                | none ↦ pure (all_files, resp.cost_usd, tokens)
                | some suggested ↦ pure (narrow_files all_files suggested, resp.cost_usd, tokens)
              ]
        ]

  -- An LLM error ends the run only if the context was cancelled.
  unfoldable pub fall_back : RunError → Action W R (Option (GenerateResponse R))
  fall_back e = do cancelled ← ask world.is_cancelled; if cancelled then throw e else pure none

  unfoldable pub reflect_phase : GenerateResponse R → Action W R (Option (GenerateResponse R))
  unfolding fall_back
  reflect_phase first = do
    s ← get
    answer ← call (world.generate reflect s.opts.model)
    elim answer [
      | none ↦ fall_back reflect_failed
      | some resp ↦ do
        charge resp.cost_usd (resp.input_tokens + resp.output_tokens)
        set_last_tokens (first.input_tokens + resp.input_tokens)
            (first.output_tokens + resp.output_tokens)
        pure (
            some (record resp {
              input_tokens = first.input_tokens + resp.input_tokens;
              output_tokens = first.output_tokens + resp.output_tokens;
              cost_usd = first.cost_usd +ᶠ resp.cost_usd;
            }))
    ]

  -- `none` falls back to normal generation.
  unfoldable pub wonder_reflect : Action W R (Option (GenerateResponse R))
  unfolding reflect_phase
  wonder_reflect = do
    s ← get
    let judge_model = if text_eq s.opts.judge_model [] then s.opts.model else s.opts.judge_model
    answer ← call (world.generate wonder judge_model)
    elim answer [
      | none ↦ fall_back wonder_failed
      | some resp ↦ do
        charge resp.cost_usd (resp.input_tokens + resp.output_tokens)
        s' ← get
        if is_budget_exceeded s' || not (world.is_diagnosis resp.content)
            then pure none
            else reflect_phase resp
    ]

  unfoldable pub normal_generation : Action W R (GenerateResponse R)
  normal_generation = do
    s ← get
    answer ← call (world.generate code (current_model s))
    elim answer [
      | none ↦ throw generate_failed
      | some resp ↦ do
        charge resp.cost_usd (resp.input_tokens + resp.output_tokens)
        set_last_tokens resp.input_tokens resp.output_tokens
        pure resp
    ]

  -- An empty answer of the reflect phase falls back too.
  unfoldable pub generate_content : Action W R (GenerateResponse R)
  unfolding wonder_reflect normal_generation
  generate_content = do
    s ← get
    if is_stalling s.history
        then (do
          reflected ← wonder_reflect
          elim reflected [
            | none ↦ normal_generation
            | some resp ↦ if is_empty resp.content then normal_generation else pure resp
          ])
        else normal_generation

  abbrev pub is_patching : RunState R → ℕ → Bool
  is_patching s iter =
      s.patch_active && (elim s.best_files [ none ↦ false | some f ↦ true ]) && ltb 1 iter

  abbrev pub best_or_empty : RunState R → Dict Text
  best_or_empty s = elim s.best_files [ none ↦ [] | some f ↦ f ]

  -- A failed generation: the stall is recorded, and the result is nil below the stall limit.
  unfoldable pub stall :
      {A : Type 0} → ℕ → IterationOutcome → FeedbackKind → (Option (RunResult R) → A) → Action W R A
  stall iter how kind k = do
    modify (λ s. record_stall s iter how kind)
    s ← get
    pure (k (check_stalled s iter))

  unfoldable pub triage_if : Bool → Action W R (Unit {0})
  unfolding triage_files
  triage_if false = pure tt
  triage_if true = do
    s ← get
    r ← triage_files (best_or_empty s) s.last_failures s.opts.judge_model
    charge r.1 r.2

  unfoldable pub write_all : Dict Text → Action W R (Unit {0})
  write_all fs = do
    written ← call (world.write_files fs)
    if written then pure tt else throw write_failed

  -- What follows the parsing of the answer.
  unfoldable pub use_parsed :
      ℕ → Bool → GenerateResponse R → Parsed ParseResult → Action W R (Generated R)
  unfolding stall write_all
  use_parsed iter patching resp (parsed r) = do
    s ← get
    let fs = if patching then merge_files r.files (best_or_empty s) else r.files
    write_all fs
    pure (files fs)
  use_parsed iter patching resp panics = throw parser_panic
  use_parsed iter patching resp _ =
      stall iter parse_fail (if resp.is_max_tokens then truncation else parse_error) stopped

  unfoldable pub generate_standard : ℕ → Action W R (Generated R)
  unfolding generate_content triage_if use_parsed
  generate_standard iter = do
    s ← get
    let patching = is_patching s iter
    triage_if patching
    resp ← generate_content
    use_parsed iter patching resp (parse_files_with_metadata resp.content)

  -- In patch mode the agent starts from the best files, on disk and in the handler.
  unfoldable pub seed_if : Bool → Action W R (Unit {0})
  unfolding write_all
  seed_if false = pure tt
  seed_if true = do s ← get; write_all (best_or_empty s)

  unfoldable pub use_agent : ℕ → Option (AgentResponse R) → Action W R (Generated R)
  unfolding stall
  use_agent iter none = throw agent_failed
  use_agent iter (some resp) = do
    charge resp.total_cost (resp.input_tokens + resp.output_tokens)
    set_last_tokens resp.input_tokens resp.output_tokens
    modify (λ s. record s { last_turns = resp.turns })
    if is_empty resp.files
        then stall iter parse_fail parse_error stopped
        else pure (files resp.files)

  -- `none` if the client is no AgentClient.
  unfoldable pub generate_with :
      ℕ → Option (Text → Dict Text → W → Option (AgentResponse R) × W) → Action W R (Generated R)
  unfolding seed_if use_agent
  generate_with iter none = throw agent_client_required
  generate_with iter (some agent_loop) = do
    s ← get
    let patching = is_patching s iter
    seed_if patching
    answer ← call (agent_loop (current_model s) (if patching then best_or_empty s else []))
    use_agent iter answer

  unfoldable pub generate_agentic : ℕ → Action W R (Generated R)
  unfolding generate_with
  generate_agentic iter = generate_with iter world.agent_loop
