-- ===== src/Lib.antt =====
-- OctopusGarden: the attractor, which is the loop that generates a program, builds and runs it, has
-- it judged against scenarios and goes on until it satisfies them, and what stands around it: the
-- specification that it is given, the scenarios and their scores, and the lint of both.
--
-- The parts of the attractor, with their code below internal/attractor:
--   Attractor/Loop         the loop of attractor.go
--     State                its options, state and results, with the small operations on them:
--                          newRunState, recordStall, checkStalled, resetForTierAdvancement,
--                          withDefaults, and determineFidelity of prompts.go
--     World                what the loop calls and does not implement, and the computations
--     Steering             the failure streaks of buildSteeringText in prompts.go
--     Triage               triage.go without its request
--     Generation           triageFiles, generateContent, wonderReflect, generateStandard and
--                          generateAgentic
--     Containers           startServiceContainer, startHTTPContainer, startGRPCContainer,
--                          waitGRPCHealth and runTestCommand
--     Restart              restartFn and stop of startHTTPContainer, with their currentStop
--     Validation           processValidation, trackPatchRegression and advanceTierIfNeeded
--     Run                  buildRunValidate, iterate and the loop of Run
--     Ensures, Frame       postconditions of computations, and what generation leaves alone
--     Invariant, Judged    the invariant of a run, and that validation keeps it
--     Serving, Steps       that the containers and whole iterations keep it
--     Outcomes             that rounds keep it
--     Results              what the result of a run says
--     Returns, Completes   that a run ends with a result if the calls of the world succeed
--     Samples              a small world for tests
--   Attractor/Composed     the composed attempt of attractor.go, and the whole of Run around it
--     Serving              startComposedContainer, and the way from a build to a validation that
--                          buildAndValidateComponent and validateComposed share
--     Component            convergeComponent, componentIteration and evaluateComponent
--     Infrastructure       mergeComponentFiles and ensureBuildInfrastructure
--     Run                  validateRunInputs, tryComposed, runComposed, validateComposed and Run
--     Kept, Judged         what the attempt keeps, and the invariant of a component's loop
--     Arrived              that a component's iterations keep it, and what its files have behind them
--     Outcomes, Results    what the attempt accepts, and what the result of Run says
--     Files                what the merged and completed file sets hold
--     Returns, Completes   that Run ends with a result if the calls of the world succeed
--   Attractor/Resources    the containers, sessions and generations of a run
--     Books                a world that counts the calls of another one
--     Steady               computations that leave the counts as they were
--     Serving, Generation, Component, Composed, Loop, Results
--                          that each part of Run stops what it starts
--     Ledger               a world that adds up what its answers cost
--     PaidGeneration, PaidLoop, PaidComponent, PaidComposed, PaidRun
--                          that each part of Run counts what is spent
--     Restarts             that restarts in a validation leave nothing open
--   Attractor/Languages    languages.go, and selectExampleBlock, buildLanguageExample and
--                          buildGRPCExample of prompts.go
--     Templates            the registry
--     Examples             what the parser of answers reads from the examples
--   Attractor/Escalation   escalation.go: the switch between the frugal and the primary model
--   Attractor/Convergence  convergence.go: the trend of the scores
--   Attractor/Oscillation  oscillation.go: the hash of a file set and the A, B, A, B test
--   Attractor/FileParse    fileparse.go: the file blocks in the output of a model
--   Attractor/Regression   regression.go and parseFailedScenarios: scenarios that got worse
--   Attractor/Toposort     toposort.go: components in the order of their dependencies
--     Counts, Ordered      that each comes behind what it depends on
--     Fuel                 that the queue is empty before the fuel is used up
--     Cycle, Stuck         the end of the loop, and the names that are left
--     Failures             the outcomes of the sort, errors included
--   Attractor/Feedback     the filters and the truncation of feedback in prompts.go
-- The other parts:
--   Scenario               internal/scenario
--     Types                types.go: scenarios and their steps
--     JsonPath             jsonpath.go: evalJSONPath, and validateJSONPathSyntax of
--                          internal/lint/varcheck.go, which is to agree with it
--     Variables            runner.go: substituteVars, resolveCapture and applyCaptures
--     Execution            runner.go: executeStep with its delay, executor and retries
--       Retries            which execution a retry gives, and how many there are
--     Runner               runner.go: Run
--       Laws               the results of a run
--     Judge                judge.go and result.go: Score, ScoreScenario and Aggregate
--       Scored, Laws       the scores of a scenario, and the failures of an aggregate
--     Tiers                loader.go: parseScenario and inferTier
--   Lint/VarCheck          internal/lint/varcheck.go: the references `{name}` and their check
--   Spec                   internal/spec
--     Parser               parser.go: the headings, sections and the test command
--     Summary              summary.go: SelectContent and the parsing of summaries
--   Llm/Json               internal/llm/json.go: ExtractJSON
--   Gene                   internal/gene
--     Budget               scan.go: enforceTokenBudget
--     Components           gene.go: Validate, validateComponents and detectComponentCycles
--       Cycles             dfsComponentCycle
--       Stack, Found       what the search finds, and that its fuel is enough
--       Adjacency, Checked, Validated
--                          what is accepted and what each error means
--       Sortable           that accepted components pass the topological sort
--   Prelude                lists, texts, maps, order and floating-point numbers
-- Run first makes the composed attempt, which converges the components of a gene in the order of
-- Toposort and takes build files from Languages, and then the loop, which uses the other parts of the
-- attractor but Convergence and Feedback, whose results only go into prompts, progress events and
-- logs. Scenarios are run by Runner, whose results Judge scores; the loop receives the aggregate of
-- these scores from its validation closure. Gene/Budget counts
-- tokens as Spec/Summary does.
--
-- Computations of the loop take and return the state of the run together with the state of an
-- outside world: the LLM clients, the containers, the file system and the validation closure are
-- functions of a record `World` that may answer anything and change its state. Errors of Go that
-- end a run are `fail`; a deferred call runs at the end of its body. The Go type float64 is a type
-- with a strict order and arithmetic (`Prelude.Floats.Float`); the laws are those of comparisons of
-- numbers that are not NaN, and of the arithmetic nothing is assumed, but that a theorem on costs
-- has as a hypothesis that adding 0 changes no number. Strings are lists of the code points of
-- valid UTF-8; where the code cuts bytes, a slice also has the bytes that it splits off. Counters
-- are natural numbers without a bound, since they grow by one per iteration; the counts in the
-- options are taken to be not negative. Maps are association lists. The loop over the iterations is
-- a recursion on the number of those that are left, so it needs no fuel; so is the loop of a retry,
-- on the attempts that are left. The loop over the queue of the topological sort has one more than
-- the number of components as its fuel: from there on any result is an error. The search for cycles
-- has as much: each call goes down by one component that is not yet on the stack. The loop that
-- drops source files recurs on the number of files, which is enough, since each turn drops one.
-- Step executors, timers, contexts, YAML, strings.ToLower and the judge's LLM are arguments of what
-- uses them. The loop that substitutes variables goes by the order of a list, as do all loops over
-- maps.
--
-- Not modelled are the texts of prompts and of feedback entries in the state, the logs, the spans,
-- the progress callback and the call that summarises a large specification, whose cost is an
-- argument of `run`; the drivers that execute steps, containers, clients of LLMs, the database, the
-- command line and the walks over files, which are input and output; and, so far, the lint of whole
-- files and the parsing of guides.
mod Prelude
pub mod Attractor
pub mod Scenario
pub mod Lint
pub mod Spec
pub mod Llm
pub mod Gene
