-- ===== src/Attractor/Resources/Generation.antt =====
-- The generation of a file set asks for at most four generations, and opens nothing.
use octopusgarden.Prelude.{
  arith, Bool, Dict, false, Float, if◌then◌else◌, is_empty, none, Option, some, Text, true, ℕ,
}
use octopusgarden.Attractor.FileParse.{
  no_files, panics, parse_files_with_metadata, parsed, Parsed, ParseResult, path_traversal,
}
use octopusgarden.Attractor.Loop.State.{FeedbackKind, IterationOutcome, RunResult}
use octopusgarden.Attractor.Loop.World.{AgentResponse, call, GenerateResponse, pure, World}
use octopusgarden.Attractor.Loop.Steering.{is_stalling}
use octopusgarden.Attractor.Loop.Generation.{
  fall_back, generate_agentic, generate_content, generate_standard, generate_with, is_patching,
  normal_generation, reflect_phase, seed_if, stall, triage_files, triage_if, use_agent, use_parsed,
  wonder_reflect, write_all,
}
use octopusgarden.Attractor.Resources.Books.{booked, booked_agent, generating}
use octopusgarden.Attractor.Resources.Steady.{
  from_if, Within, Within-bind, Within-mono, Within-then,
}

module _ {W R : Type 0} ⦃F : Float R⦄ (world : World W R) where
  pub stall-Within :
      {A : Type 0} (iter : ℕ) (how : IterationOutcome) (kind : FeedbackKind)
      (k : Option (RunResult R) → A)
      → Within 0 (stall (booked world) iter how kind k)
  unfolding stall
  stall-Within iter how kind k c s e = ground (arith, e)

  pub write_all-Within : (fs : Dict Text) → Within 0 (write_all (booked world) fs)
  unfolding write_all
  write_all-Within fs c s e = ground (arith, e)

  wonder_reflect-Within : Within 2 (wonder_reflect (booked world))
  unfolding wonder_reflect reflect_phase fall_back
  wonder_reflect-Within c s e = ground (arith, e)

  normal_generation-Within : Within 1 (normal_generation (booked world))
  unfolding normal_generation
  normal_generation-Within c s e = ground (arith, e)

  reflected_or_normal-Within :
      (o : Option (GenerateResponse R))
      → Within 1 (elim o [
        | none ↦ normal_generation (booked world)
        | some resp ↦ if is_empty resp.content then normal_generation (booked world) else pure resp
      ])
  reflected_or_normal-Within none c s e = normal_generation-Within c s e
  reflected_or_normal-Within (some resp) c s e =
      from_if _ c (is_empty resp.content) _ _ (normal_generation-Within c)
        (λ s' e'. ground (arith, e')) s e

  generate_content-Within : Within 3 (generate_content (booked world))
  unfolding generate_content
  generate_content-Within c s e =
      from_if _ c (is_stalling s.state.history) _ _
        (Within-bind 2 1 3 (wonder_reflect (booked world)) _ (omega arith) wonder_reflect-Within
          reflected_or_normal-Within c)
        (Within-mono 1 3 _ (omega arith) normal_generation-Within c) s e

  triage_if-Within : (b : Bool) → Within 1 (triage_if (booked world) b)
  unfolding triage_if triage_files
  triage_if-Within false c s e = ground (arith, e)
  triage_if-Within true c s e = ground (arith, e)

  use_parsed-Within :
      (iter : ℕ) (patching : Bool) (resp : GenerateResponse R) (p : Parsed ParseResult)
      → Within 0 (use_parsed (booked world) iter patching resp p)
  unfolding use_parsed stall write_all
  use_parsed-Within iter patching resp (parsed r) c s e = ground (arith, e)
  use_parsed-Within iter patching resp panics c s e = tt
  use_parsed-Within iter patching resp no_files c s e = ground (arith, e)
  use_parsed-Within iter patching resp path_traversal c s e = ground (arith, e)

  pub generate_standard-Within : (iter : ℕ) → Within 4 (generate_standard (booked world) iter)
  unfolding generate_standard
  generate_standard-Within iter c s e =
      Within-bind 1 3 4 (triage_if (booked world) (is_patching world s.state iter)) _ (omega arith)
        (triage_if-Within (is_patching world s.state iter))
        (λ _.
          Within-bind 3 0 3 (generate_content (booked world)) _ (omega arith)
            generate_content-Within
            (λ resp.
              use_parsed-Within iter (is_patching world s.state iter) resp
                (parse_files_with_metadata resp.content)))
        c s e

  use_agent-Within :
      (iter : ℕ) (o : Option (AgentResponse R)) → Within 0 (use_agent (booked world) iter o)
  unfolding use_agent stall
  use_agent-Within iter none c s e = tt
  use_agent-Within iter (some resp) c s e = ground (arith, e)

  seed_if-Within : (b : Bool) → Within 0 (seed_if (booked world) b)
  unfolding seed_if write_all
  seed_if-Within false c s e = ground (arith, e)
  seed_if-Within true c s e = ground (arith, e)

  generate_with-Within :
      (iter : ℕ) (a : Option (Text → Dict Text → W → Option (AgentResponse R) × W))
      → Within 1 (generate_with (booked world) iter (booked_agent a))
  unfolding generate_with
  generate_with-Within iter none c s e = tt
  generate_with-Within iter (some f) c s e =
      Within-then 1 (seed_if (booked world) (is_patching world s.state iter)) _
        (seed_if-Within (is_patching world s.state iter))
        (λ _.
          Within-bind 1 0 1 (call (generating (f _ _))) _ (omega arith)
            (λ c' s' e'. ground (arith, e')) (use_agent-Within iter))
        c s e

  pub generate_agentic-Within : (iter : ℕ) → Within 1 (generate_agentic (booked world) iter)
  unfolding generate_agentic
  generate_agentic-Within iter = generate_with-Within iter world.agent_loop
