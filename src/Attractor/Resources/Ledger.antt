-- ===== src/Attractor/Resources/Ledger.antt =====
-- A world that adds up what its generations and validations cost. It answers as the world that it is made from.
use octopusgarden.Prelude.{
  ◌+ᶠ◌, Bool, Dict, false, Float, if◌then◌else◌, map, none, Option, some, Text, true, ◌≡◌,
}
use octopusgarden.Attractor.Loop.World.{
  ◌>>=◌, Action, AgentResponse, and_then, call, deferring, done, Exit, fail, GenerateResponse, Sys,
  Validation, World,
}
use octopusgarden.Attractor.Composed.Serving.{Validator}
use octopusgarden.Attractor.Composed.Run.{Composition}

pub record Ledger (W R : Type 0) : Type 0 where
  pub spent : R
  pub inner : W

module _ {W R : Type 0} ⦃F : Float R⦄ where
  abbrev pub with_answer : Option (GenerateResponse R) → W → Ledger W R → Ledger W R
  with_answer none w l = record l { inner = w }
  with_answer (some a) w l = record { spent = l.spent +ᶠ a.cost_usd; inner = w }

  abbrev pub with_agent : Option (AgentResponse R) → W → Ledger W R → Ledger W R
  with_agent none w l = record l { inner = w }
  with_agent (some a) w l = record { spent = l.spent +ᶠ a.total_cost; inner = w }

  abbrev pub with_validation : Option (Validation R) → W → Ledger W R → Ledger W R
  with_validation none w l = record l { inner = w }
  with_validation (some v) w l = record { spent = l.spent +ᶠ v.cost; inner = w }

  abbrev pub unpaid : {A : Type 0} → (W → A × W) → Ledger W R → A × Ledger W R
  unpaid f l = let r = f l.inner in (r.0, record l { inner = r.1 })

  abbrev pub changed : (W → W) → Ledger W R → Ledger W R
  changed f l = record l { inner = f l.inner }

  abbrev pub paid_agent :
      Option (Text → Dict Text → W → Option (AgentResponse R) × W)
      → Option (Text → Dict Text → Ledger W R → Option (AgentResponse R) × Ledger W R)
  paid_agent none = none
  paid_agent (some f) =
      some (λ model fs l. let r = f model fs l.inner in (r.0, with_agent r.0 r.1 l))

  abbrev pub paid_validator : Validator W R → Validator (Ledger W R) R
  paid_validator validate max_tier l =
      let r = validate max_tier l.inner in (r.0, with_validation r.0 r.1 l)

  abbrev pub paid : World W R → World (Ledger W R) R
  paid world = record {
    generate = λ purpose model l.
        let r = world.generate purpose model l.inner in (r.0, with_answer r.0 r.1 l);
    is_cancelled = λ l. world.is_cancelled l.inner;
    is_diagnosis = world.is_diagnosis;
    suggested_paths = world.suggested_paths;
    agent_loop = paid_agent world.agent_loop;
    write_files = λ fs. unpaid (world.write_files fs);
    sha256 = world.sha256;
    build = unpaid world.build;
    start_session = unpaid world.start_session;
    run_container = unpaid world.run_container;
    run_multi_port = unpaid world.run_multi_port;
    wait_healthy = unpaid world.wait_healthy;
    wait_port = unpaid world.wait_port;
    run_test = unpaid world.run_test;
    stop_session = changed world.stop_session;
    stop_container = changed world.stop_container;
    validate = paid_validator world.validate;
  }

  abbrev pub paid_composition : Composition W R → Composition (Ledger W R) R
  paid_composition c = record {
    language = c.language;
    gene_components = c.gene_components;
    component_validators = map (λ e. (e.0, paid_validator e.1)) c.component_validators;
  }

  -- The state counts what was spent.
  abbrev pub IsSettled : Sys (Ledger W R) R → Type 0
  IsSettled s = s.state.total_cost ≡ s.world.spent

  -- It does after a computation that returns.
  abbrev pub EndsSettled : {A : Type 0} → Exit (Ledger W R) R A → Type 0
  EndsSettled (done a t) = IsSettled t
  EndsSettled (fail e) = Unit

  abbrev pub Settles : {A : Type 0} → Action (Ledger W R) R A → Type 0
  Settles m = (s : Sys (Ledger W R) R) → IsSettled s → EndsSettled (m s)

module _ {W R A B : Type 0} ⦃F : Float R⦄ where
  pub Settles-bind :
      (m : Action (Ledger W R) R A) (f : A → Action (Ledger W R) R B)
      → Settles m
      → ((a : A) → Settles (f a))
      → Settles (m >>= f)
  Settles-bind m f hm hf s e = go (m s) (hm s e)
    where
      go : (x : Exit (Ledger W R) R A) → EndsSettled x → EndsSettled (and_then x f)
      go (done a t) h = hf a t h
      go (fail e) h = tt

module _ {W R A : Type 0} ⦃F : Float R⦄ where
  pub Settles-unpaid : (f : W → A × W) → Settles {R = R} (call (unpaid f))
  Settles-unpaid f s h = h

  pub Settles-if :
      (b : Bool) (m k : Action (Ledger W R) R A)
      → Settles m
      → Settles k
      → Settles (if b then m else k)
  Settles-if true m k hm hk = hm
  Settles-if false m k hm hk = hk

  pub Settles-deferring :
      (g : W → W) (m : Action (Ledger W R) R A) → Settles m → Settles (deferring (changed g) m)
  Settles-deferring g m h s e = go (m s) (h s e)
    where
      go :
          (x : Exit (Ledger W R) R A)
          → EndsSettled x
          → EndsSettled (and_then x (λ a s'. done a (record s' { world = changed g s'.world })))
      go (done a t) h = h
      go (fail e) h = tt
