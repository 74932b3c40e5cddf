-- ===== src/Attractor/Loop/Returns.antt =====
-- A world whose calls succeed, and that no step of the loop fails in it.
use mathlib.Core.Path.{subst}
use octopusgarden.Prelude.{
  [], arith, Bool, Dict, false, Float, if◌then◌else◌, is_empty, none, Option, some, sym, Text,
  text_eq, true, ℕ, ◌≡◌,
}
use octopusgarden.Attractor.FileParse.{
  no_files, panics, parse_files_with_metadata, Parsed, parsed, ParseResult, path_traversal,
}
use octopusgarden.Attractor.Loop.State.{current_model, FeedbackKind, IterationOutcome, RunResult}
use octopusgarden.Attractor.Loop.World.{
  ◌>>=◌, Action, AgentResponse, and_then, call, code, done, Exit, fail, GenerateResponse, pure,
  Purpose, reflect, Sys, TestResult, Validation, wonder, World,
}
use octopusgarden.Attractor.Loop.Steering.{is_stalling}
use octopusgarden.Attractor.Loop.Generation.{
  best_or_empty, generate_agentic, generate_content, generate_standard, generate_with, is_patching,
  normal_generation, reflect_phase, seed_if, stall, triage_if, use_agent, use_parsed,
  wonder_reflect, write_all,
}

abbrev pub IsReadable : Parsed ParseResult → Type 0
IsReadable (parsed r) = Unit
IsReadable no_files = Unit
IsReadable path_traversal = Unit
IsReadable panics = ⊥

-- Every request is answered with a text on which the parser does not panic, every write succeeds,
-- and every test command and validation runs. Builds and containers may still fail.
pub record IsObliging {W R : Type 0} (world : World W R) : Type 0 where
  pub generates :
      (p : Purpose) (model : Text) (w : W)
      → (resp : GenerateResponse R) × ((world.generate p model w).0 ≡ some resp)
        × IsReadable (parse_files_with_metadata resp.content)
  pub writes : (fs : Dict Text) (w : W) → (world.write_files fs w).0 ≡ true
  pub has_agent :
      (agent : Text → Dict Text → W → Option (AgentResponse R) × W) × (world.agent_loop
        ≡ some agent)
      × ((model : Text) (fs : Dict Text) (w : W)
          → (resp : AgentResponse R) × ((agent model fs w).0 ≡ some resp) × Unit {0})
  pub tests : (w : W) → (t : TestResult) × ((world.run_test w).0 ≡ some t) × Unit {0}
  pub validates :
      (tier : ℕ) (w : W) → (v : Validation R) × ((world.validate tier w).0 ≡ some v) × Unit {0}

module _ {W R : Type 0} where
  -- It returns, and what it returns satisfies `Q`.
  abbrev pub Gives : {A : Type 0} → Exit W R A → (A → Type 0) → Type 0
  Gives (done a s) Q = Q a
  Gives (fail e) Q = ⊥

  abbrev pub Always : {A : Type 0} → (A → Type 0) → Action W R A → Type 0
  Always Q m = (s : Sys W R) → Gives (m s) Q

  abbrev pub Returns : {A : Type 0} → Action W R A → Type 0
  Returns = Always (λ _. Unit)

module _ {W R A B : Type 0} where
  gives_then :
      (P : A → Type 0) (Q : B → Type 0) (e : Exit W R A) (f : A → Action W R B)
      → Gives e P
      → ((a : A) → P a → Always Q (f a))
      → Gives (and_then e f) Q
  gives_then P Q (done a s) f h k = k a h s
  gives_then P Q (fail e) f h k = absurd h

  pub then-Always :
      (P : A → Type 0) (Q : B → Type 0) (m : Action W R A) (f : A → Action W R B)
      → Always P m
      → ((a : A) → P a → Always Q (f a))
      → Always Q (m >>= f)
  then-Always P Q m f h k s = gives_then P Q (m s) f (h s) k

  -- A call that answers.
  pub answered :
      (P : A → Type 0) (Q : B → Type 0) (f : W → Option A × W) (k : Option A → Action W R B)
      → ((w : W) → (a : A) × ((f w).0 ≡ some a) × P a)
      → ((a : A) → P a → Always Q (k (some a)))
      → Always Q (call f >>= k)
  answered P Q f k h g s =
      let (a, e, good) = h s.world in
      subst (λ o. Gives (k o (record s { world = (f s.world).1 })) Q) (sym e)
        (g a good (record s { world = (f s.world).1 }))

module _ {W R B : Type 0} where
  -- A call that succeeds.
  pub obeyed :
      (Q : B → Type 0) (f : W → Bool × W) (k : Bool → Action W R B)
      → ((w : W) → (f w).0 ≡ true)
      → Always Q (k true)
      → Always Q (call f >>= k)
  obeyed Q f k h g s =
      subst (λ o. Gives (k o (record s { world = (f s.world).1 })) Q) (sym (h s.world))
        (g (record s { world = (f s.world).1 }))

  pub either_way :
      (Q : B → Type 0) (b : Bool) (x y : Action W R B)
      → Always Q x
      → Always Q y
      → Always Q (if b then x else y)
  either_way Q true x y h k = h
  either_way Q false x y h k = k

module _ {W R : Type 0} ⦃F : Float R⦄ (world : World W R) (obliging : IsObliging world) where
  abbrev IsGood : GenerateResponse R → Type 0
  IsGood resp = IsReadable (parse_files_with_metadata resp.content)

  abbrev IsGoodOrNone : Option (GenerateResponse R) → Type 0
  IsGoodOrNone none = Unit
  IsGoodOrNone (some resp) = IsGood resp

  reflect_phase-Always :
      (first : GenerateResponse R) → Always IsGoodOrNone (reflect_phase world first)
  unfolding reflect_phase
  reflect_phase-Always first s =
      let (resp, e, good) = obliging.generates reflect s.state.opts.model s.world in rw e good

  wonder_reflect-Always : Always IsGoodOrNone (wonder_reflect world)
  unfolding wonder_reflect
  wonder_reflect-Always s =
      let model =
        if text_eq s.state.opts.judge_model []
        then s.state.opts.model
        else s.state.opts.judge_model in
      let (resp, e, good) = obliging.generates wonder model s.world in
      rw e (
        either_way IsGoodOrNone _ (pure none) (reflect_phase world resp) (λ u. tt)
          (reflect_phase-Always resp) _)

  normal_generation-Always : Always IsGood (normal_generation world)
  unfolding normal_generation
  normal_generation-Always s =
      let (resp, e, good) = obliging.generates code (current_model s.state) s.world in rw e good

  generate_content-Always : Always IsGood (generate_content world)
  unfolding generate_content
  generate_content-Always s =
      either_way IsGood (is_stalling s.state.history) _ _
        (then-Always IsGoodOrNone IsGood (wonder_reflect world) _ wonder_reflect-Always used)
        normal_generation-Always s
    where
      used :
          (r : Option (GenerateResponse R))
          → IsGoodOrNone r
          → Always IsGood (elim r [
            | none ↦ normal_generation world
            | some resp ↦ if is_empty resp.content then normal_generation world else pure resp
          ])
      used none good = normal_generation-Always
      used (some resp) good =
          either_way IsGood (is_empty resp.content) _ _ normal_generation-Always (λ t. good)

  pub stall-Returns :
      {A : Type 0} (iter : ℕ) (how : IterationOutcome) (kind : FeedbackKind)
      (k : Option (RunResult R) → A)
      → Returns (stall world iter how kind k)
  unfolding stall
  stall-Returns iter how kind k s = tt

  write_all-Returns : (fs : Dict Text) → Returns (write_all world fs)
  unfolding write_all
  write_all-Returns fs s = rw (obliging.writes fs s.world) tt

  triage_if-Returns : (b : Bool) → Returns (triage_if world b)
  unfolding triage_if
  triage_if-Returns true s = ground arith
  triage_if-Returns false s = tt

  use_parsed-Returns :
      (iter : ℕ) (patching : Bool) (resp : GenerateResponse R) (p : Parsed ParseResult)
      → IsReadable p
      → Returns (use_parsed world iter patching resp p)
  unfolding use_parsed stall write_all
  use_parsed-Returns iter patching resp (parsed r) h s = rw (obliging.writes _ s.world) tt
  use_parsed-Returns iter patching resp no_files h s = tt
  use_parsed-Returns iter patching resp path_traversal h s = tt
  use_parsed-Returns iter patching resp panics h s = absurd h

  pub generate_standard-Returns : (iter : ℕ) → Returns (generate_standard world iter)
  unfolding generate_standard
  generate_standard-Returns iter s =
      let patching = is_patching world s.state iter in
      then-Always (λ _. Unit) (λ _. Unit) (triage_if world patching) _ (triage_if-Returns patching)
        (λ _ _.
          then-Always IsGood (λ _. Unit) (generate_content world) _ generate_content-Always
            (λ resp good.
              use_parsed-Returns iter patching resp (parse_files_with_metadata resp.content) good))
        s

  seed_if-Returns : (b : Bool) → Returns (seed_if world b)
  unfolding seed_if
  seed_if-Returns true s = write_all-Returns _ s
  seed_if-Returns false s = tt

  use_agent-Returns :
      (iter : ℕ) (resp : AgentResponse R) → Returns (use_agent world iter (some resp))
  unfolding use_agent stall
  use_agent-Returns iter resp s = ground arith

  pub generate_agentic-Returns : (iter : ℕ) → Returns (generate_agentic world iter)
  unfolding generate_agentic generate_with
  generate_agentic-Returns iter s =
      let (agent, e, answers) = obliging.has_agent in
      subst (λ o. Returns (generate_with world iter o)) (sym e)
        (λ t.
          let model = current_model t.state in
          let patching = is_patching world t.state iter in
          let seed = if patching then best_or_empty world t.state else [] in
          then-Always (λ _. Unit) (λ _. Unit) (seed_if world patching) _ (seed_if-Returns patching)
            (λ _ _ u.
              let (resp, same, _) = answers model seed u.world in
              rw same
                (use_agent-Returns iter resp (record u { world = (agent model seed u.world).1 })))
            t)
        s
