-- ===== src/Attractor/Loop/Frame.antt =====
-- The generation of files spends money and tokens, and touches nothing else that matters to the
-- course of the run, except that a failed generation records a stall.
use mathlib.Core.Path.{subst}
use octopusgarden.Attractor.FileParse.{
  no_files, panics, parse_files_with_metadata, parsed, Parsed, ParseResult, path_traversal,
}
use octopusgarden.Attractor.Loop.Steering.{is_stalling}
use octopusgarden.Prelude.{
  ◌+◌, [], arith, Bool, Dict, false, Float, if◌then◌else◌, is_empty, List, none, Option, refl, some,
  Text, true, ℕ, ◌≡◌,
}
use octopusgarden.Attractor.Loop.World.{
  ◌>>=◌, Action, AgentResponse, and_then, call, done, Exit, fail, GenerateResponse, modify, pure,
  RunError, Sys, World,
}
use octopusgarden.Attractor.Loop.State.{
  check_stalled, current_model, FeedbackKind, IterationOutcome, parse_error, parse_fail,
  record_stall, RunOptions, RunResult, RunState,
}
use octopusgarden.Attractor.Loop.Generation.{
  best_or_empty, charge, fall_back, files, generate_agentic, generate_content, generate_standard,
  generate_with, Generated, is_patching, normal_generation, reflect_phase, seed_if, set_last_tokens,
  stall, stopped, triage_if, use_agent, use_parsed, wonder_reflect, write_all,
}
use octopusgarden.Attractor.Loop.Ensures.{Ensures}

-- The part of the state on which the course of a run depends.
pub record Course (R : Type 0) : Type 0 where
  pub opts : RunOptions R
  pub best_satisfaction : R
  pub stall_count : ℕ
  pub score_history : List R
  pub patch_active : Bool
  pub patch_regression_count : ℕ
  pub active_tier : ℕ

abbrev pub course : {R : Type 0} → RunState R → Course R
course s = record {
  opts = s.opts;
  best_satisfaction = s.best_satisfaction;
  stall_count = s.stall_count;
  score_history = s.score_history;
  patch_active = s.patch_active;
  patch_regression_count = s.patch_regression_count;
  active_tier = s.active_tier;
}

module _ {W R : Type 0} ⦃F : Float R⦄ (world : World W R) where
  pub fall_back-course :
      (e : RunError) (s : Sys W R)
      → Ensures (fall_back world e s) (λ _ t. course t ≡ course s.state)
  unfolding fall_back
  fall_back-course e s = ground arith

  pub reflect_phase-course :
      (first : GenerateResponse R) (s : Sys W R)
      → Ensures (reflect_phase world first s) (λ _ t. course t ≡ course s.state)
  unfolding reflect_phase
  reflect_phase-course first s = ground arith

  pub wonder_reflect-course :
      (s : Sys W R) → Ensures (wonder_reflect world s) (λ _ t. course t ≡ course s.state)
  unfolding wonder_reflect
  wonder_reflect-course s = ground arith

  pub normal_generation-course :
      (s : Sys W R) → Ensures (normal_generation world s) (λ _ t. course t ≡ course s.state)
  unfolding normal_generation
  normal_generation-course s = ground arith

-- The same course, with one more stall.
abbrev pub one_more_stall : {R : Type 0} → Course R → Course R
one_more_stall c = record c { stall_count = c.stall_count + 1 }

-- What a call that may record a stall leaves behind: the stall and its result, or no change.
module _ {R : Type 0} ⦃F : Float R⦄ where
  abbrev pub IsStall : ℕ → Course R → Option (RunResult R) → RunState R → Type 0
  IsStall iter c r t = (course t ≡ one_more_stall c) × (r ≡ check_stalled t iter)

  abbrev pub GeneratedFrom : ℕ → Course R → Generated R → RunState R → Type 0
  GeneratedFrom iter c (files fs) t = course t ≡ c
  GeneratedFrom iter c (stopped r) t = IsStall iter c r t

module _ {W R : Type 0} where
  -- A postcondition in terms of the course at the start.
  abbrev pub Yields : {A : Type 0} → (Course R → A → RunState R → Type 0) → Action W R A → Type 0
  Yields Q m = (s : Sys W R) → Ensures (m s) (Q (course s.state))

  abbrev pub Keeps : {A : Type 0} → Action W R A → Type 0
  Keeps m = (s : Sys W R) → Ensures (m s) (λ _ t. course t ≡ course s.state)

module _ {W R A B : Type 0} (Q : Course R → B → RunState R → Type 0) where
  pub after :
      (m : Action W R A) (f : A → Action W R B)
      → Keeps m
      → ((a : A) → Yields Q (f a))
      → Yields Q (m >>= f)
  after m f h k s = go (m s) (h s)
    where
      go :
          (e : Exit W R A)
          → Ensures e (λ _ t. course t ≡ course s.state)
          → Ensures (and_then e f) (Q (course s.state))
      go (done a t) e = subst (λ c. Ensures (f a t) (Q c)) e (k a t)
      go (fail e) h = tt

module _ {W R B : Type 0} (Q : Course R → B → RunState R → Type 0) where
  pub after_if :
      (b : Bool) (x y : Action W R B) → Yields Q x → Yields Q y → Yields Q (if b then x else y)
  after_if true x y h k = h
  after_if false x y h k = k

module _ {W R : Type 0} ⦃F : Float R⦄ (world : World W R) where
  generate_content_from-course :
      (stalling : Bool)
      → Keeps (
          if stalling
          then (do
            reflected ← wonder_reflect world
            elim reflected [
              | none ↦ normal_generation world
              | some resp ↦ if is_empty resp.content then normal_generation world else pure resp
            ])
          else normal_generation world)
  generate_content_from-course true =
      after (λ c _ t. course t ≡ c) (wonder_reflect world) _ (wonder_reflect-course world)
        (λ r. used r)
    where
      used :
          (r : Option (GenerateResponse R))
          → Keeps (elim r [
            | none ↦ normal_generation world
            | some resp ↦ if is_empty resp.content then normal_generation world else pure resp
          ])
      used none = normal_generation-course world
      used (some resp) =
          after_if (λ c _ t. course t ≡ c) (is_empty resp.content) _ _
            (normal_generation-course world) (λ s. refl)
  generate_content_from-course false = normal_generation-course world

  pub generate_content-course : Keeps (generate_content world)
  unfolding generate_content
  generate_content-course s = generate_content_from-course (is_stalling s.state.history) s

  pub stall-Yields :
      {A : Type 0} (Q : Course R → A → RunState R → Type 0) (iter : ℕ) (how : IterationOutcome)
      (kind : FeedbackKind) (k : Option (RunResult R) → A)
      → ((c : Course R) (r : Option (RunResult R)) (t : RunState R)
          → IsStall iter c r t
          → Q c (k r) t)
      → Yields Q (stall world iter how kind k)
  unfolding stall record_stall
  stall-Yields Q iter how kind k h s = h (course s.state) _ _ (refl, refl)

  triage_if-course : (b : Bool) → Keeps (triage_if world b)
  unfolding triage_if
  triage_if-course true s = ground arith
  triage_if-course false s = refl

  write_all-course : (fs : Dict Text) → Keeps (write_all world fs)
  unfolding write_all
  write_all-course fs s = ground arith

  seed_if-course : (b : Bool) → Keeps (seed_if world b)
  unfolding seed_if
  seed_if-course true s = ground arith
  seed_if-course false s = refl

  stall-stopped :
      (iter : ℕ) (how : IterationOutcome) (kind : FeedbackKind)
      → Yields (GeneratedFrom iter) (stall world iter how kind stopped)
  stall-stopped iter how kind =
      stall-Yields (GeneratedFrom iter) iter how kind stopped (λ c r t h. h)

  parse_step-course :
      (iter : ℕ) (patching : Bool) (resp : GenerateResponse R) (p : Parsed ParseResult)
      → Yields (GeneratedFrom iter) (use_parsed world iter patching resp p)
  unfolding use_parsed
  parse_step-course iter patching resp (parsed r) s =
      after (GeneratedFrom iter) (write_all world _) _ (write_all-course _) (λ _ t. refl) s
  parse_step-course iter patching resp no_files s = stall-stopped iter parse_fail _ s
  parse_step-course iter patching resp path_traversal s = stall-stopped iter parse_fail _ s
  parse_step-course iter patching resp panics s = tt

  pub generate_standard-course :
      (iter : ℕ) → Yields (GeneratedFrom iter) (generate_standard world iter)
  unfolding generate_standard
  generate_standard-course iter s =
      after (GeneratedFrom iter) (triage_if world (is_patching world s.state iter)) _
        (triage_if-course _)
        (λ _. after (GeneratedFrom iter) (generate_content world) _ generate_content-course (λ resp.
          parse_step-course iter (is_patching world s.state iter) resp
            (parse_files_with_metadata resp.content)))
        s

  agentic_step-course :
      (iter : ℕ) (answer : Option (AgentResponse R))
      → Yields (GeneratedFrom iter) (use_agent world iter answer)
  unfolding use_agent
  agentic_step-course iter none s = tt
  agentic_step-course iter (some resp) s =
      after (GeneratedFrom iter)
        (charge world resp.total_cost (resp.input_tokens + resp.output_tokens)) _ (λ t. refl)
        (λ _.
          after (GeneratedFrom iter) (set_last_tokens world resp.input_tokens resp.output_tokens) _
            (λ t. refl)
            (λ _.
              after (GeneratedFrom iter) (modify (λ t. record t { last_turns = resp.turns })) _
                (λ t. refl)
                (λ _.
                  after_if (GeneratedFrom iter) (is_empty resp.files)
                    (stall world iter parse_fail parse_error stopped) (pure (files resp.files))
                    (stall-stopped iter parse_fail parse_error)
                    (λ (t : Sys W R). refl {a = course t.state}))))
        s

  generate_with-course :
      (iter : ℕ) (agent : Option (Text → Dict Text → W → Option (AgentResponse R) × W))
      → Yields (GeneratedFrom iter) (generate_with world iter agent)
  unfolding generate_with
  generate_with-course iter none s = tt
  generate_with-course iter (some agent_loop) s =
      let patching = is_patching world s.state iter in
      after (GeneratedFrom iter) (seed_if world patching) _ (seed_if-course patching)
        (λ _.
          after (GeneratedFrom iter)
            (call (
              agent_loop (current_model s.state)
                (if patching then best_or_empty world s.state else [])))
            (use_agent world iter) (λ t. refl) (λ answer. agentic_step-course iter answer))
        s

  pub generate_agentic-course :
      (iter : ℕ) → Yields (GeneratedFrom iter) (generate_agentic world iter)
  unfolding generate_agentic
  generate_agentic-course iter s = generate_with-course iter world.agent_loop s
