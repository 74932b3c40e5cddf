-- ===== src/Attractor/Resources/PaidGeneration.antt =====
-- The cost that a generation of files counts is what was spent.
use octopusgarden.Prelude.{
  ◌+ᶠ◌, arith, Bool, Dict, false, Float, if◌then◌else◌, is_empty, none, of_nat, Option, some, Text,
  true, ℕ, ◌≡◌,
}
use octopusgarden.Attractor.FileParse.{
  no_files, panics, parse_files_with_metadata, parsed, Parsed, ParseResult, path_traversal,
}
use octopusgarden.Attractor.Loop.World.{AgentResponse, GenerateResponse, pure, Sys, World}
use octopusgarden.Attractor.Loop.State.{FeedbackKind, IterationOutcome, record_stall, RunResult}
use octopusgarden.Attractor.Loop.Steering.{is_stalling}
use octopusgarden.Attractor.Loop.Generation.{
  fall_back, generate_agentic, generate_content, generate_standard, generate_with, is_patching,
  normal_generation, reflect_phase, seed_if, stall, triage_files, triage_if, use_agent, use_parsed,
  wonder_reflect, write_all,
}
use octopusgarden.Attractor.Resources.Ledger.{
  EndsSettled, IsSettled, Ledger, paid, paid_agent, Settles, Settles-bind, Settles-if, with_agent,
}

module _ {W R : Type 0} ⦃F : Float R⦄ (world : World W R) where
  pub stall-Settles :
      {A : Type 0} (iter : ℕ) (how : IterationOutcome) (kind : FeedbackKind)
      (k : Option (RunResult R) → A)
      → Settles (stall (paid world) iter how kind k)
  unfolding stall record_stall
  stall-Settles iter how kind k s e = ground (arith, e)

  wonder_reflect-Settles : Settles (wonder_reflect (paid world))
  unfolding wonder_reflect reflect_phase fall_back
  wonder_reflect-Settles s e = ground (arith, e)

  normal_generation-Settles : Settles (normal_generation (paid world))
  unfolding normal_generation
  normal_generation-Settles s e = ground (arith, e)

  reflected_or_normal-Settles :
      (o : Option (GenerateResponse R))
      → Settles (elim o [
        | none ↦ normal_generation (paid world)
        | some resp ↦ if is_empty resp.content then normal_generation (paid world) else pure resp
      ])
  reflected_or_normal-Settles none s e = normal_generation-Settles s e
  reflected_or_normal-Settles (some resp) s e =
      Settles-if (is_empty resp.content) _ _ normal_generation-Settles (λ s' e'. e') s e

  generate_content-Settles : Settles (generate_content (paid world))
  unfolding generate_content
  generate_content-Settles s e =
      Settles-if (is_stalling s.state.history) _ _
        (Settles-bind (wonder_reflect (paid world)) _ wonder_reflect-Settles
          reflected_or_normal-Settles)
        normal_generation-Settles s e

  use_parsed-Settles :
      (iter : ℕ) (patching : Bool) (resp : GenerateResponse R) (p : Parsed ParseResult)
      → Settles (use_parsed (paid world) iter patching resp p)
  unfolding use_parsed stall record_stall write_all
  use_parsed-Settles iter patching resp (parsed r) s e = ground (arith, e)
  use_parsed-Settles iter patching resp panics s e = tt
  use_parsed-Settles iter patching resp no_files s e = ground (arith, e)
  use_parsed-Settles iter patching resp path_traversal s e = ground (arith, e)

  use_agent-Settled :
      (iter : ℕ) (o : Option (AgentResponse R)) (s : Sys (Ledger W R) R) (w : W)
      → IsSettled s
      → EndsSettled (use_agent (paid world) iter o (record s { world = with_agent o w s.world }))
  unfolding use_agent stall record_stall
  use_agent-Settled iter none s w e = tt
  use_agent-Settled iter (some resp) s w e = ground (arith, e)

  seed_if-Settles : (b : Bool) → Settles (seed_if (paid world) b)
  unfolding seed_if write_all
  seed_if-Settles false s e = e
  seed_if-Settles true s e = ground (arith, e)

  generate_with-Settles :
      (iter : ℕ) (a : Option (Text → Dict Text → W → Option (AgentResponse R) × W))
      → Settles (generate_with (paid world) iter (paid_agent a))
  unfolding generate_with
  generate_with-Settles iter none s e = tt
  generate_with-Settles iter (some f) s e =
      Settles-bind (seed_if (paid world) (is_patching world s.state iter)) _
        (seed_if-Settles (is_patching world s.state iter)) (λ _ t h. use_agent-Settled iter _ t _ h)
        s e

  pub generate_agentic-Settles : (iter : ℕ) → Settles (generate_agentic (paid world) iter)
  unfolding generate_agentic
  generate_agentic-Settles iter = generate_with-Settles iter world.agent_loop

  -- Without a triage 0 is charged.
  module _ (add_zero : (x : R) → x +ᶠ of_nat 0 ≡ x) where
    triage_if-Settles : (b : Bool) → Settles (triage_if (paid world) b)
    unfolding triage_if triage_files
    triage_if-Settles false s e = e
    triage_if-Settles true s e = ground (arith, e, add_zero s.state.total_cost)

    pub generate_standard-Settles : (iter : ℕ) → Settles (generate_standard (paid world) iter)
    unfolding generate_standard
    generate_standard-Settles iter s e =
        Settles-bind (triage_if (paid world) (is_patching world s.state iter)) _
          (triage_if-Settles (is_patching world s.state iter))
          (λ _. Settles-bind (generate_content (paid world)) _ generate_content-Settles (λ resp.
            use_parsed-Settles iter (is_patching world s.state iter) resp
              (parse_files_with_metadata resp.content)))
          s e
