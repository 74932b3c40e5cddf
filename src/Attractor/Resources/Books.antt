-- ===== src/Attractor/Resources/Books.antt =====
-- A world that keeps books on the loop's calls: on the containers and the sessions that are open,
-- and on the generations so far. It answers as the world that it is made from.
use octopusgarden.Prelude.{◌+◌, ◌-◌, Bool, Dict, false, map, none, Option, some, Text, true, ℕ}
use octopusgarden.Attractor.Loop.World.{AgentResponse, Container, World}
use octopusgarden.Attractor.Composed.Serving.{Validator}
use octopusgarden.Attractor.Composed.Run.{Composition}

pub record Books (W : Type 0) : Type 0 where
  pub containers : ℕ
  pub sessions : ℕ
  pub generations : ℕ
  pub inner : W

-- The counts alone.
pub record Counts : Type 0 where
  pub containers : ℕ
  pub sessions : ℕ
  pub generations : ℕ

abbrev pub counts : {W : Type 0} → Books W → Counts
counts b = record { containers = b.containers; sessions = b.sessions; generations = b.generations }

-- What is open, whatever was generated.
abbrev pub opened : Counts → ℕ × ℕ
opened c = (c.containers, c.sessions)

module _ {W A : Type 0} where
  abbrev pub lifted : (W → A × W) → Books W → A × Books W
  lifted f b = let r = f b.inner in (r.0, record b { inner = r.1 })

  abbrev pub generating : (W → A × W) → Books W → A × Books W
  generating f b =
      let r = f b.inner in (r.0, record b { generations = b.generations + 1; inner = r.1 })

-- A container is open if the call says that it runs.
unfoldable pub one_if_some : {A : Type 0} → Option A → ℕ
one_if_some none = 0
one_if_some (some a) = 1

unfoldable pub one_if : Bool → ℕ
one_if false = 0
one_if true = 1

module _ {W : Type 0} where
  abbrev pub opening_container : (W → Option Container × W) → Books W → Option Container × Books W
  opening_container f b =
      let r = f b.inner in
      (r.0, record b { containers = b.containers + one_if_some r.0; inner = r.1 })

  abbrev pub opening_session : (W → Bool × W) → Books W → Bool × Books W
  opening_session f b =
      let r = f b.inner in (r.0, record b { sessions = b.sessions + one_if r.0; inner = r.1 })

  abbrev pub closing_container : (W → W) → Books W → Books W
  closing_container f b = record b { containers = b.containers - 1; inner = f b.inner }

  abbrev pub closing_session : (W → W) → Books W → Books W
  closing_session f b = record b { sessions = b.sessions - 1; inner = f b.inner }

module _ {W R : Type 0} where
  -- An agent's loop counts as one generation.
  abbrev pub booked_agent :
      Option (Text → Dict Text → W → Option (AgentResponse R) × W)
      → Option (Text → Dict Text → Books W → Option (AgentResponse R) × Books W)
  booked_agent none = none
  booked_agent (some f) = some (λ model fs. generating (f model fs))

  abbrev pub booked : World W R → World (Books W) R
  booked world = record {
    generate = λ purpose model. generating (world.generate purpose model);
    is_cancelled = λ b. world.is_cancelled b.inner;
    is_diagnosis = world.is_diagnosis;
    suggested_paths = world.suggested_paths;
    agent_loop = booked_agent world.agent_loop;
    write_files = λ fs. lifted (world.write_files fs);
    sha256 = world.sha256;
    build = lifted world.build;
    start_session = opening_session world.start_session;
    run_container = opening_container world.run_container;
    run_multi_port = opening_container world.run_multi_port;
    wait_healthy = lifted world.wait_healthy;
    wait_port = lifted world.wait_port;
    run_test = lifted world.run_test;
    stop_session = closing_session world.stop_session;
    stop_container = closing_container world.stop_container;
    validate = λ max_tier. lifted (world.validate max_tier);
  }

  abbrev pub booked_validator : Validator W R → Validator (Books W) R
  booked_validator validate max_tier = lifted (validate max_tier)

  abbrev pub booked_composition : Composition W R → Composition (Books W) R
  booked_composition c = record {
    language = c.language;
    gene_components = c.gene_components;
    component_validators = map (λ e. (e.0, booked_validator e.1)) c.component_validators;
  }
